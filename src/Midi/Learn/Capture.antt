-- ===== src/Midi/Learn/Capture.antt =====
-- crates/control-midi/src/learn.rs: what learning captures, and that it ends.
use videocuelist.Prelude.{
  ℕ, ◌+◌, ◌-◌, ◌≤◌, ◌<◌, ◌≡◌, refl, ◌⊎◌, inl, inr, Bool, true, false, Option, none, some, arith,
  leb, Bool-cases, if◌then◌else◌, not,
}
use videocuelist.Float.{Floats}
use videocuelist.Core.Patch.{MidiBinding}
use videocuelist.Midi.Msg.{
  MidiMsg, note_on, note_off, control_change, control_change14, pitch_bend, sys_ex,
}
use videocuelist.Midi.Learn.{
  PendingCc, Learn, arm, disarm, cc_binding, captured, is_over, flush_pending, learn_flush,
  learn_cc, learn_msg, learn_after, learn_feed,
}

module _ ⦃F : Floats⦄ where
  -- The two halves of a controller of 14 bits, the lower one within the window of the upper one and
  -- fed to a learner that is just armed, are captured as one binding of 14 bits; then it is disarmed.
  pub learn_feed-pair :
      (channel cc msb lsb now later : ℕ) (l : Learn)
      → cc ≤ 31
      → later - now < l.timeout_ms
      → learn_feed
          (control_change channel (cc + 32) lsb)
          later
          (learn_feed (control_change channel cc msb) now (arm l)).1
        ≡ (some (cc_binding channel cc true), disarm l)
  unfolding learn_feed learn_flush
  learn_feed-pair channel cc msb lsb now later l u w = ground arith

  -- A message that learning takes.
  abbrev pub Counts : MidiMsg → Type 0
  Counts (note_on c n v) = Unit
  Counts (control_change c n v) = Unit
  Counts (control_change14 c n v) = Unit
  Counts (note_off c n) = ⊥
  Counts (pitch_bend c v) = ⊥
  Counts (sys_ex b) = ⊥

  -- Either a binding is captured, and the learner is disarmed, or it is armed and a controller waits
  -- for its lower half.
  abbrev pub CapturesOrWaits : Option MidiBinding × Learn → Type 0
  CapturesOrWaits (some b, l) = (l.armed ≡ false) × (l.pending ≡ none)
  CapturesOrWaits (none, l) = (l.armed ≡ true) × ((p : PendingCc) × (l.pending ≡ some p))

  -- A binding is captured, and the learner is disarmed.
  abbrev pub Captures : Option MidiBinding × Learn → Type 0
  Captures (some b, l) = (l.armed ≡ false) × (l.pending ≡ none)
  Captures (none, l) = ⊥

  if-CapturesOrWaits :
      (b : Bool) (x y : Option MidiBinding × Learn)
      → CapturesOrWaits x
      → CapturesOrWaits y
      → CapturesOrWaits (if b then x else y)
  if-CapturesOrWaits true x y p q = p
  if-CapturesOrWaits false x y p q = q

  learn_cc-CapturesOrWaits :
      (c n now : ℕ) (o : Option PendingCc) (l : Learn)
      → l.armed ≡ true
      → CapturesOrWaits (learn_cc c n now o l)
  learn_cc-CapturesOrWaits c n now (some p) l a = (refl, refl)
  learn_cc-CapturesOrWaits c n now none l a =
      if-CapturesOrWaits (leb n 31)
        (none, record l { pending = some (record { channel = c; cc = n; at_ms = now }) })
        (captured (cc_binding c n false) l) (a, (record { channel = c; cc = n; at_ms = now }, refl))
        (refl, refl)

  learn_msg-CapturesOrWaits :
      (msg : MidiMsg) (now : ℕ) (l : Learn)
      → l.armed ≡ true
      → Counts msg
      → CapturesOrWaits (learn_msg msg now l)
  learn_msg-CapturesOrWaits (note_on c n v) now l a k = (refl, refl)
  learn_msg-CapturesOrWaits (control_change c n v) now l a k =
      learn_cc-CapturesOrWaits c n now l.pending l a
  learn_msg-CapturesOrWaits (control_change14 c n v) now l a k = (refl, refl)
  learn_msg-CapturesOrWaits (note_off c n) now l a k = absurd k
  learn_msg-CapturesOrWaits (pitch_bend c v) now l a k = absurd k
  learn_msg-CapturesOrWaits (sys_ex b) now l a k = absurd k

  -- What a flush does to an armed learner: it captures, or leaves it as it is.
  flush-Captures :
      (now : ℕ) (o : Option PendingCc) (l : Learn)
      → Captures (flush_pending now o l) ⊎ (flush_pending now o l ≡ (none, l))
  flush-Captures now none l = inr refl
  flush-Captures now (some p) l = elim (Bool-cases (is_over now l p)) [
    | inl b ↦ inl (rw b (refl, refl))
    | inr b ↦ inr (rw b refl)
  ]

  Captures-CapturesOrWaits : (r : Option MidiBinding × Learn) → Captures r → CapturesOrWaits r
  Captures-CapturesOrWaits (some b, l) c = c
  Captures-CapturesOrWaits (none, l) c = absurd c

  after-Captures :
      (msg : MidiMsg) (now : ℕ) (r : Option MidiBinding × Learn)
      → Captures r
      → Captures (learn_after msg now r)
  after-Captures msg now (some b, l) c = c
  after-Captures msg now (none, l) c = absurd c

  armed_only :
      (b : Bool) (x y : Option MidiBinding × Learn) → b ≡ true → (if not b then x else y) ≡ y
  armed_only b x y e = rw e refl

  pub learn_feed-armed :
      (msg : MidiMsg) (now : ℕ) (l : Learn)
      → l.armed ≡ true
      → learn_feed msg now l ≡ learn_after msg now (flush_pending now l.pending l)
  unfolding learn_feed learn_flush
  learn_feed-armed msg now l a = armed_only l.armed _ _ a

  learn_feed-CapturesOrWaits :
      (msg : MidiMsg) (now : ℕ) (l : Learn)
      → l.armed ≡ true
      → Counts msg
      → CapturesOrWaits (learn_feed msg now l)
  learn_feed-CapturesOrWaits msg now l a k = elim (flush-Captures now l.pending l) [
    | inl c ↦
        rw (learn_feed-armed msg now l a)
          (Captures-CapturesOrWaits _ (after-Captures msg now (flush_pending now l.pending l) c))
    | inr e ↦ rw (learn_feed-armed msg now l a, e) (learn_msg-CapturesOrWaits msg now l a k)
  ]

  -- A controller that waits goes out with the next message that counts.
  learn_msg-waiting :
      (msg : MidiMsg) (now : ℕ) (l : Learn) {p : PendingCc}
      → l.pending ≡ some p
      → Counts msg
      → Captures (learn_msg msg now l)
  learn_msg-waiting (note_on c n v) now l e k = (refl, refl)
  learn_msg-waiting (control_change c n v) now l e k = rw e (refl, refl)
  learn_msg-waiting (control_change14 c n v) now l e k = (refl, refl)
  learn_msg-waiting (note_off c n) now l e k = absurd k
  learn_msg-waiting (pitch_bend c v) now l e k = absurd k
  learn_msg-waiting (sys_ex b) now l e k = absurd k

  learn_feed-waiting :
      (msg : MidiMsg) (now : ℕ) (l : Learn) {p : PendingCc}
      → l.armed ≡ true
      → l.pending ≡ some p
      → Counts msg
      → Captures (learn_feed msg now l)
  learn_feed-waiting msg now l {p = p} a e k = elim (flush-Captures now l.pending l) [
    | inl c ↦
        rw (learn_feed-armed msg now l a) (after-Captures msg now (flush_pending now l.pending l) c)
    | inr f ↦ rw (learn_feed-armed msg now l a, f) (learn_msg-waiting msg now l {p = p} e k)
  ]

  Captures-next :
      (r : Option MidiBinding × Learn) (msg : MidiMsg) (now : ℕ)
      → CapturesOrWaits r
      → Counts msg
      → Captures r ⊎ Captures (learn_feed msg now r.1)
  Captures-next (some b, l) msg now c k = inl c
  Captures-next (none, l) msg now c k = inr (learn_feed-waiting msg now l {p = c.1.0} c.0 c.1.1 k)

  -- Learning ends: an armed learner captures a binding, and is disarmed, with the second message
  -- that counts at the latest, whatever waits and whenever the two come.
  pub learn_feed-ends :
      (first second : MidiMsg) (now later : ℕ) (l : Learn)
      → l.armed ≡ true
      → Counts first
      → Counts second
      → Captures (learn_feed first now l)
        ⊎ Captures (learn_feed second later (learn_feed first now l).1)
  learn_feed-ends first second now later l a k k' =
      Captures-next (learn_feed first now l) second later
        (learn_feed-CapturesOrWaits first now l a k) k'
