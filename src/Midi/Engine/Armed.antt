-- ===== src/Midi/Engine/Armed.antt =====
-- crates/control-midi/src/engine.rs: while learning is armed, messages are captured and not played.
use videocuelist.Prelude.{
  ℕ, ◌≡◌, refl, sym, subst, List, [], ◌∷◌, ◌++◌, Bool, true, false, Option, none, some, leb,
  if◌then◌else◌,
}
use videocuelist.Float.{Floats}
use videocuelist.Core.Patch.{MidiBinding}
use videocuelist.Midi.Msg.{
  MidiMsg, note_on, note_off, control_change, control_change14, pitch_bend, sys_ex, parse_midi,
}
use videocuelist.Midi.Mtc.{is_mtc}
use videocuelist.Midi.Cc14.{feed}
use videocuelist.Midi.Learn.{
  PendingCc, Learn, cc_binding, captured, is_over, flush_pending, learn_cc, learn_after, learn_feed,
}
use videocuelist.Midi.Learn.Capture.{learn_feed-armed}
use videocuelist.Midi.Engine.{
  EngineEvent, learned, MidiEngine, learned_events, learning, play_msg, process, process_all,
  handle_msg, handle,
}

module _ ⦃F : Floats⦄ where
  -- Without a capture the learner stays armed.
  abbrev StaysArmed : Option MidiBinding × Learn → Type 0
  StaysArmed (none, l) = l.armed ≡ true
  StaysArmed (some b, l) = Unit

  if-StaysArmed :
      (b : Bool) (x y : Option MidiBinding × Learn)
      → StaysArmed x
      → StaysArmed y
      → StaysArmed (if b then x else y)
  if-StaysArmed true x y p q = p
  if-StaysArmed false x y p q = q

  flush-StaysArmed :
      (now : ℕ) (o : Option PendingCc) (l : Learn)
      → l.armed ≡ true
      → StaysArmed (flush_pending now o l)
  flush-StaysArmed now none l a = a
  flush-StaysArmed now (some p) l a =
      if-StaysArmed (is_over now l p) (captured (cc_binding p.channel p.cc false) l) (none, l) tt a

  learn_cc-StaysArmed :
      (c n now : ℕ) (o : Option PendingCc) (l : Learn)
      → l.armed ≡ true
      → StaysArmed (learn_cc c n now o l)
  learn_cc-StaysArmed c n now (some p) l a = tt
  learn_cc-StaysArmed c n now none l a =
      if-StaysArmed (leb n 31)
        (none, record l { pending = some (record { channel = c; cc = n; at_ms = now }) })
        (captured (cc_binding c n false) l) a tt

  learn_after-StaysArmed :
      (msg : MidiMsg) (now : ℕ) (r : Option MidiBinding × Learn)
      → StaysArmed r
      → StaysArmed (learn_after msg now r)
  learn_after-StaysArmed msg now (some b, l) s = tt
  learn_after-StaysArmed (note_on c n v) now (none, l) s = tt
  learn_after-StaysArmed (note_off c n) now (none, l) s = s
  learn_after-StaysArmed (control_change c n v) now (none, l) s =
      learn_cc-StaysArmed c n now l.pending l s
  learn_after-StaysArmed (control_change14 c n v) now (none, l) s = tt
  learn_after-StaysArmed (pitch_bend c v) now (none, l) s = s
  learn_after-StaysArmed (sys_ex b) now (none, l) s = s

  learn_feed-StaysArmed :
      (msg : MidiMsg) (now : ℕ) (l : Learn) → l.armed ≡ true → StaysArmed (learn_feed msg now l)
  learn_feed-StaysArmed msg now l a = subst StaysArmed (sym (learn_feed-armed msg now l a)) (
      learn_after-StaysArmed msg now (flush_pending now l.pending l)
        (flush-StaysArmed now l.pending l a))

  -- Nothing is emitted and learning is armed still, or what is emitted first is the binding.
  abbrev pub LearnsFirst : List EngineEvent × MidiEngine → Type 0
  LearnsFirst ([], e) = (e.learn).armed ≡ true
  LearnsFirst (learned b ∷ rest, e) = Unit
  LearnsFirst (_ ∷ rest, e) = ⊥

  learned-LearnsFirst :
      (o : Option MidiBinding) (l : Learn) (e : MidiEngine)
      → StaysArmed (o, l)
      → LearnsFirst (learned_events o, record e { learn = l })
  learned-LearnsFirst none l e s = s
  learned-LearnsFirst (some b) l e s = tt

  process-LearnsFirst :
      (msg : MidiMsg) (now : ℕ) (e : MidiEngine)
      → (e.learn).armed ≡ true
      → LearnsFirst (process msg now e)
  unfolding process
  process-LearnsFirst msg now e a =
      subst LearnsFirst (sym (armed_branch (e.learn).armed (learning msg now e) (play_msg msg e) a))
        (learned-LearnsFirst (learn_feed msg now e.learn).0 (learn_feed msg now e.learn).1 e
          (learn_feed-StaysArmed msg now e.learn a))
    where
      armed_branch :
          (b : Bool) (x y : List EngineEvent × MidiEngine) → b ≡ true → (if b then x else y) ≡ x
      armed_branch b x y h = rw h refl

  -- More is emitted after what was emitted first.
  then-LearnsFirst :
      (r : List EngineEvent × MidiEngine) (rest : MidiEngine → List EngineEvent × MidiEngine)
      → LearnsFirst r
      → ((e : MidiEngine) → (e.learn).armed ≡ true → LearnsFirst (rest e))
      → LearnsFirst (r.0 ++ (rest r.1).0, (rest r.1).1)
  then-LearnsFirst ([], e) rest h k = k e h
  then-LearnsFirst (learned b ∷ out, e) rest h k = tt
  then-LearnsFirst (_ ∷ out, e) rest h k = absurd h

  process_all-LearnsFirst :
      (ms : List MidiMsg) (now : ℕ) (e : MidiEngine)
      → (e.learn).armed ≡ true
      → LearnsFirst (process_all ms now e)
  process_all-LearnsFirst [] now e a = a
  process_all-LearnsFirst (m ∷ ms) now e a =
      then-LearnsFirst (process m now e) (process_all ms now) (process-LearnsFirst m now e a)
        (λ e' a'. process_all-LearnsFirst ms now e' a')

  -- A message that is neither time code nor a system exclusive one.
  abbrev pub IsPlayed : Option MidiMsg → Type 0
  IsPlayed none = Unit
  IsPlayed (some (sys_ex frame)) = ⊥
  IsPlayed (some _) = Unit

  handle_msg-LearnsFirst :
      (o : Option MidiMsg) (now : ℕ) (e : MidiEngine)
      → IsPlayed o
      → (e.learn).armed ≡ true
      → LearnsFirst (handle_msg o now e)
  handle_msg-LearnsFirst none now e p a = a
  handle_msg-LearnsFirst (some (sys_ex frame)) now e p a = absurd p
  handle_msg-LearnsFirst (some (note_on c n v)) now e p a =
      process_all-LearnsFirst (feed (note_on c n v) now e.cc14).0 now _ a
  handle_msg-LearnsFirst (some (note_off c n)) now e p a =
      process_all-LearnsFirst (feed (note_off c n) now e.cc14).0 now _ a
  handle_msg-LearnsFirst (some (control_change c n v)) now e p a =
      process_all-LearnsFirst (feed (control_change c n v) now e.cc14).0 now _ a
  handle_msg-LearnsFirst (some (control_change14 c n v)) now e p a =
      process_all-LearnsFirst (feed (control_change14 c n v) now e.cc14).0 now _ a
  handle_msg-LearnsFirst (some (pitch_bend c v)) now e p a =
      process_all-LearnsFirst (feed (pitch_bend c v) now e.cc14).0 now _ a

  -- While learning is armed, no message but time code and system exclusive ones plays anything
  -- before a binding is captured: it emits nothing and learning stays armed, or the binding is what
  -- it emits first.
  pub handle-LearnsFirst :
      (bytes : List ℕ) (now : ℕ) (e : MidiEngine)
      → is_mtc bytes ≡ false
      → IsPlayed (parse_midi bytes)
      → (e.learn).armed ≡ true
      → LearnsFirst (handle bytes now e)
  unfolding handle
  handle-LearnsFirst bytes now e m p a = rw m (handle_msg-LearnsFirst (parse_midi bytes) now e p a)
