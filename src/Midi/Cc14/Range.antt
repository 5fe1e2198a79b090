-- ===== src/Midi/Cc14/Range.antt =====
-- crates/control-midi/src/cc14.rs: the well-formed assemblers, and the range of what they emit.
use videocuelist.Prelude.{
  subst, Bool, leb, ◌-◌, ◌&&◌, if◌then◌else◌, ℕ, ◌<◌, ◌≤◌, ◌≡◌, refl, List, [], ◌∷◌, push_back,
  true, false, arith, inl, inr, Option-cases,
}
use videocuelist.Table.{
  IsEq, lookup, retain, AllEntries, retain-AllEntries, erase-AllEntries, lookup-AllEntries,
}
use videocuelist.Midi.Msg.{
  MidiMsg, note_on, note_off, control_change, control_change14, pitch_bend, sys_ex,
}
use videocuelist.Midi.Msg.Codec.{IsWire}
use videocuelist.Midi.Cc14.{
  Key, key_eq, Pending, Cc14Assembler, contains, coarse, expired, valid_pairs, set_pairs, flush,
  feed, feed_after, feed_msb, feed_lsb, msb_of,
}

pub key_eq-IsEq : IsEq key_eq
key_eq-IsEq = record { refl_test = λ k. ground arith; sound = λ j k e. ground arith }

-- A pair that can wait: its controller is an upper half, and it is declared.
abbrev pub IsPair : List Key → Key → Type 0
IsPair ps k = (k.0 < 16) × (k.1 ≤ 31) × (contains ps k ≡ true)

abbrev pub AllUpper : List Key → Type 0
AllUpper [] = Unit
AllUpper (k ∷ ks) = (k.1 ≤ 31) × AllUpper ks

pub record IsWellFormed (a : Cc14Assembler) : Type 0 where
  pub upper : AllUpper a.pairs
  pub waiting : AllEntries (λ k p. IsPair a.pairs k × (p.msb < 128)) a.pending
  pub known : AllEntries (λ k v. IsPair a.pairs k × (v < 128)) a.last_msb
  pub window : 1 ≤ a.timeout_ms

-- What the assembler emits: a message of the wire, or a controller of 14 bits of a declared pair.
abbrev pub IsOutput : List Key → MidiMsg → Type 0
IsOutput ps (control_change14 c n v) = IsPair ps (c, n) × (v < 16_384)
IsOutput ps (note_on c n v) = IsWire (note_on c n v)
IsOutput ps (note_off c n) = IsWire (note_off c n)
IsOutput ps (control_change c n v) = IsWire (control_change c n v)
IsOutput ps (pitch_bend c v) = IsWire (pitch_bend c v)
IsOutput ps (sys_ex b) = IsWire (sys_ex b)

abbrev pub AllOutput : List Key → List MidiMsg → Type 0
AllOutput ps [] = Unit
AllOutput ps (m ∷ ms) = IsOutput ps m × AllOutput ps ms

AllOutput-push_back :
    (ps : List Key) (ms : List MidiMsg) (m : MidiMsg)
    → AllOutput ps ms
    → IsOutput ps m
    → AllOutput ps (push_back ms m)
AllOutput-push_back ps [] m a o = (o, tt)
AllOutput-push_back ps (x ∷ ms) m a o = (a.0, AllOutput-push_back ps ms m a.1 o)

-- No lower half is a declared pair.
pub contains-AllUpper : (ps : List Key) (c n : ℕ) → AllUpper ps → contains ps (c, n) ≡ true → n ≤ 31
contains-AllUpper [] c n a e = ground arith
contains-AllUpper ((d, m) ∷ ps) c n a e = ground (arith, contains-AllUpper ps c n a.1)

valid_pairs-AllUpper : (ks : List Key) → AllUpper (valid_pairs ks)
valid_pairs-AllUpper [] = tt
valid_pairs-AllUpper ((c, n) ∷ ks) = ground (arith, valid_pairs-AllUpper ks)

-- The entries whose key is declared anew.
kept-AllEntries :
    {V : Type 0} (old ps : List Key) (P : V → Type 0) (m : List (Key × V))
    → AllEntries (λ k v. IsPair old k × P v) m
    → AllEntries (λ k v. IsPair ps k × P v) (retain (λ k v. contains ps k) m)
kept-AllEntries old ps P [] a = tt
kept-AllEntries old ps P ((k, v) ∷ m) a = ground (arith, kept-AllEntries old ps P m a.1)

expired-AllOutput :
    (ps : List Key) (timeout now : ℕ) (m : List (Key × Pending))
    → AllEntries (λ k p. IsPair ps k × (p.msb < 128)) m
    → AllOutput ps (expired timeout now m)
expired-AllOutput ps timeout now [] a = tt
expired-AllOutput ps timeout now ((k, p) ∷ m) a =
    ground (arith, expired-AllOutput ps timeout now m a.1)

-- Declaring pairs keeps the assembler well-formed, whatever the list.
pub set_pairs-IsWellFormed :
    (ks : List Key) (a : Cc14Assembler) → IsWellFormed a → IsWellFormed (set_pairs ks a)
unfolding set_pairs
set_pairs-IsWellFormed ks a w = record {
  upper = valid_pairs-AllUpper ks;
  waiting = kept-AllEntries a.pairs (valid_pairs ks) (λ p. p.msb < 128) a.pending w.waiting;
  known = kept-AllEntries a.pairs (valid_pairs ks) (λ v. v < 128) a.last_msb w.known;
  window = w.window;
}

-- A result of the assembler that is sound: it has the declared pairs still.
abbrev pub Sound : List Key → List MidiMsg × Cc14Assembler → Type 0
Sound ps r = AllOutput ps r.0 × IsWellFormed r.1 × (r.1.pairs ≡ ps)

-- What a flush emits is in range, and the assembler stays well-formed.
pub flush-Sound : (now : ℕ) (a : Cc14Assembler) → IsWellFormed a → Sound a.pairs (flush now a)
unfolding flush
flush-Sound now a w = (
  expired-AllOutput a.pairs a.timeout_ms now a.pending w.waiting,
  record {
    upper = w.upper;
    waiting = retain-AllEntries _ _ a.pending w.waiting;
    known = w.known;
    window = w.window;
  },
  refl,
)

feed_msb-Sound :
    (ps : List Key) (c n value now : ℕ) (out : List MidiMsg) (a : Cc14Assembler)
    → Sound ps (out, a)
    → c < 16
    → value < 128
    → contains a.pairs (c, n) ≡ true
    → Sound ps (feed_msb (c, n) value now out a)
unfolding feed_msb
feed_msb-Sound ps c n value now out a w lc lv k =
    let u = contains-AllUpper a.pairs c n w.1.upper k in
    (
      elim (Option-cases (lookup key_eq (c, n) a.pending)) [
        | inl e ↦ rw (e, feed_msb) w.0
        | inr (p, e) ↦
            let q = lookup-AllEntries key_eq _ key_eq-IsEq (c, n) a.pending w.1.waiting e in
            rw (e, feed_msb)
              (AllOutput-push_back ps out (coarse (c, n) p.msb) w.0
                ((lc, u, subst (λ ks. contains ks (c, n) ≡ true) w.2 k), omega (arith, q.1)))
      ],
      record {
        upper = w.1.upper;
        waiting = (((lc, u, k), lv), erase-AllEntries key_eq _ (c, n) a.pending w.1.waiting);
        known = (((lc, u, k), lv), erase-AllEntries key_eq _ (c, n) a.last_msb w.1.known);
        window = w.1.window;
      },
      w.2,
    )

-- The upper half that a lower half is paired with is below 128.
msb_of-lt : (k : Key) (a : Cc14Assembler) → IsWellFormed a → msb_of k a < 128
msb_of-lt k a w = elim (Option-cases (lookup key_eq k a.pending)) [
  | inr (p, e) ↦
      let q = lookup-AllEntries key_eq _ key_eq-IsEq k a.pending w.waiting e in ground (arith, e, q)
  | inl n ↦ elim (Option-cases (lookup key_eq k a.last_msb)) [
    | inr (v, e) ↦
        let q = lookup-AllEntries key_eq _ key_eq-IsEq k a.last_msb w.known e in
        ground (arith, n, e, q)
    | inl m ↦ ground (arith, n, m)
  ]
]

feed_lsb-Sound :
    (ps : List Key) (c n value : ℕ) (out : List MidiMsg) (a : Cc14Assembler)
    → Sound ps (out, a)
    → c < 16
    → value < 128
    → contains a.pairs (c, n) ≡ true
    → Sound ps (feed_lsb (c, n) value out a)
unfolding feed_lsb
feed_lsb-Sound ps c n value out a w lc lv k =
    let u = contains-AllUpper a.pairs c n w.1.upper k in
    let m = msb_of-lt (c, n) a w.1 in
    (
      AllOutput-push_back ps out _ w.0
          ((lc, u, subst (λ ks. contains ks (c, n) ≡ true) w.2 k), omega arith),
      record {
        upper = w.1.upper;
        waiting = erase-AllEntries key_eq _ (c, n) a.pending w.1.waiting;
        known = w.1.known;
        window = w.1.window;
      },
      w.2,
    )

-- A result that is sound in both branches of a test is sound.
Sound-if :
    (ps : List Key) (b : Bool) (x y : List MidiMsg × Cc14Assembler)
    → (b ≡ true → Sound ps x)
    → (b ≡ false → Sound ps y)
    → Sound ps (if b then x else y)
Sound-if ps true x y f g = f refl
Sound-if ps false x y f g = g refl

-- A message that passes through.
Sound-push_back :
    (ps : List Key) (msg : MidiMsg) (out : List MidiMsg) (a : Cc14Assembler)
    → Sound ps (out, a)
    → IsOutput ps msg
    → Sound ps (push_back out msg, a)
Sound-push_back ps msg out a s o = (AllOutput-push_back ps out msg s.0 o, s.1, s.2)

feed_after-Sound :
    (ps : List Key) (msg : MidiMsg) (now : ℕ) (out : List MidiMsg) (a : Cc14Assembler)
    → IsWire msg
    → Sound ps (out, a)
    → Sound ps (feed_after msg now out a)
unfolding feed_after
feed_after-Sound ps (control_change c n v) now out a w s =
    Sound-if ps (contains a.pairs (c, n)) _ _ (feed_msb-Sound ps c n v now out a s w.0 w.2) (λ f.
      Sound-if ps (leb 32 n && leb n 63 && contains a.pairs (c, n - 32)) _ _
        (λ t. feed_lsb-Sound ps c (n - 32) v out a s w.0 w.2 (ground (arith, t)))
        (λ g. Sound-push_back ps (control_change c n v) out a s w))
feed_after-Sound ps (note_on c n v) now out a w s = Sound-push_back ps (note_on c n v) out a s w
feed_after-Sound ps (note_off c n) now out a w s = Sound-push_back ps (note_off c n) out a s w
feed_after-Sound ps (control_change14 c n v) now out a w s = absurd w
feed_after-Sound ps (pitch_bend c v) now out a w s = Sound-push_back ps (pitch_bend c v) out a s w
feed_after-Sound ps (sys_ex b) now out a w s = Sound-push_back ps (sys_ex b) out a s w

-- A message of the wire, fed to a well-formed assembler, gives messages in range, of 14 bits only for
-- declared pairs, and a well-formed assembler with the same pairs.
pub feed-Sound :
    (msg : MidiMsg) (now : ℕ) (a : Cc14Assembler)
    → IsWire msg
    → IsWellFormed a
    → Sound a.pairs (feed msg now a)
unfolding feed
feed-Sound msg now a w h =
    feed_after-Sound a.pairs msg now (flush now a).0 (flush now a).1 w (flush-Sound now a h)
