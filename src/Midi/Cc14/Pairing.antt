-- ===== src/Midi/Cc14/Pairing.antt =====
-- crates/control-midi/src/cc14.rs: what the two halves of a declared pair give, together or alone.
use videocuelist.Prelude.{
  ◌∙◌, ap, ℕ, ◌+◌, ◌-◌, ◌*◌, ◌<◌, ◌≤◌, ◌≡◌, refl, List, ◌∷◌, some, none, push_back, true, arith,
  not,
}
use videocuelist.Table.{lookup, erase, retain, lookup-insert, lookup-erase, lookup-retain-none}
use videocuelist.Midi.Msg.{MidiMsg, control_change, control_change14, combine}
use videocuelist.Midi.Cc14.{
  coarse, expired, msb_of, Key, key_eq, Pending, Cc14Assembler, contains, is_expired, flush, feed,
  feed_after, feed_msb, feed_lsb,
}
use videocuelist.Midi.Cc14.Range.{feed-Sound, key_eq-IsEq, IsWellFormed, contains-AllUpper}

-- The assembler after it took the upper half of a pair.
abbrev pub after_msb : ℕ → ℕ → ℕ → ℕ → Cc14Assembler → Cc14Assembler
after_msb channel cc msb now a = (feed (control_change channel cc msb) now a).1

-- The upper half waits at the head of the table since it came, and is the last one known.
record Waits (k : Key) (msb at : ℕ) (a : Cc14Assembler) : Type 0 where
  rest : List (Key × Pending)
  here : a.pending ≡ (k, record { msb = msb; at_ms = at }) ∷ rest
  alone : lookup key_eq k rest ≡ none
  known : lookup key_eq k a.last_msb ≡ some msb

after_msb-Waits :
    (channel cc msb now : ℕ) (a : Cc14Assembler)
    → contains a.pairs (channel, cc) ≡ true
    → Waits (channel, cc) msb now (after_msb channel cc msb now a)
unfolding feed feed_msb flush feed_after
after_msb-Waits channel cc msb now a c = rw c (record {
  rest = erase key_eq (channel, cc) (flush now a).1.pending;
  here = refl;
  alone = lookup-erase key_eq (channel, cc) (flush now a).1.pending;
  known = lookup-insert key_eq key_eq-IsEq (channel, cc) msb a.last_msb;
})

-- An upper half that waits is still waiting after a flush within its window.
flush-Waits :
    (k : Key) (msb at now : ℕ) (a : Cc14Assembler)
    → now - at < a.timeout_ms
    → Waits k msb at a
    → Waits k msb at (flush now a).1
unfolding flush
flush-Waits k msb at now a l w = record {
  rest = retain (λ j p. not (is_expired a.timeout_ms now p)) w.rest;
  here = rw w.here (ground (arith, l));
  alone = lookup-retain-none key_eq _ k w.rest w.alone;
  known = w.known;
}

back : (cc : ℕ) → cc + 32 - 32 ≡ cc
back cc = omega arith

-- A lower half of a declared pair is combined with the upper half in the table.
feed-lsb :
    (channel cc lsb now : ℕ) (a : Cc14Assembler)
    → IsWellFormed a
    → contains a.pairs (channel, cc) ≡ true
    → feed (control_change channel (cc + 32) lsb) now a
      ≡ feed_lsb (channel, cc) lsb (flush now a).0 (flush now a).1
unfolding feed flush feed_after
feed-lsb channel cc lsb now a w c =
    let u = contains-AllUpper a.pairs channel cc w.upper c in
    let no = contains-AllUpper a.pairs channel (cc + 32) w.upper in
    rw (back cc) (ground (arith, u, no, c))

-- Taking an upper half changes neither the pairs nor the window.
after_msb-settings :
    (channel cc msb now : ℕ) (a : Cc14Assembler)
    → contains a.pairs (channel, cc) ≡ true
    → ((after_msb channel cc msb now a).pairs ≡ a.pairs)
      × ((after_msb channel cc msb now a).timeout_ms ≡ a.timeout_ms)
unfolding feed feed_msb flush feed_after
after_msb-settings channel cc msb now a c = rw c (refl, refl)

combine-sum : (msb lsb : ℕ) → lsb < 128 → combine msb lsb ≡ msb * 128 + lsb
combine-sum msb lsb l = omega arith

-- Where an upper half waits, the lower one goes out with it.
msb_of-Waits : (k : Key) (msb at : ℕ) (a : Cc14Assembler) → Waits k msb at a → msb_of k a ≡ msb
msb_of-Waits k msb at a w = rw w.here (ground (arith, key_eq-IsEq.refl_test k))

-- In a well-formed assembler, the two halves of a declared pair on a channel below 16, both below
-- 128 and the lower one within the window of the upper one, give the value of 14 bits, after what
-- the flush emits, and leave no upper half of the pair waiting.
pub feed-pair :
    (channel cc msb lsb now later : ℕ) (a : Cc14Assembler)
    → IsWellFormed a
    → contains a.pairs (channel, cc) ≡ true
    → channel < 16
    → msb < 128
    → lsb < 128
    → later - now < a.timeout_ms
    → ((feed (control_change channel (cc + 32) lsb) later (after_msb channel cc msb now a)).0
        ≡ push_back
            (flush later (after_msb channel cc msb now a)).0
            (control_change14 channel cc (msb * 128 + lsb)))
      × (lookup key_eq
            (channel, cc)
            (feed
              (control_change channel (cc + 32) lsb)
              later
              (after_msb channel cc msb now a)).1.pending
          ≡ none)
unfolding feed_lsb
feed-pair channel cc msb lsb now later a w c lc lm ll l =
    let b = after_msb channel cc msb now a in
    let t = after_msb-settings channel cc msb now a c in
    let f =
      (feed-Sound (control_change channel cc msb) now a
        (lc, omega (arith, contains-AllUpper a.pairs channel cc w.upper c), lm) w).1 in
    let h =
      flush-Waits (channel, cc) msb now later b (rw t.1 l)
        (after_msb-Waits channel cc msb now a c) in
    rw (feed-lsb channel cc lsb later b f (rw t.0 c)) (
      ap (λ v. push_back (flush later b).0 (control_change14 channel cc v))
          (ap (λ m. combine m lsb) (msb_of-Waits (channel, cc) msb now (flush later b).1 h)
            ∙ combine-sum msb lsb ll),
      lookup-erase key_eq (channel, cc) (flush later b).1.pending,
    )

-- After the window an upper half goes out first, and no longer waits.
late-Waits :
    (k : Key) (msb at now : ℕ) (a : Cc14Assembler)
    → a.timeout_ms ≤ now - at
    → Waits k msb at a
    → ((others : List MidiMsg) × ((flush now a).0 ≡ coarse k msb ∷ others))
      × (lookup key_eq k (flush now a).1.pending ≡ none)
unfolding flush
late-Waits k msb at now a l w =
    let none_left =
      lookup-retain-none key_eq (λ j p. not (is_expired a.timeout_ms now p)) k w.rest w.alone in
    rw w.here ((expired a.timeout_ms now w.rest, ground (arith, l)), ground (arith, l, none_left))

-- An upper half of a declared pair whose window is over goes out alone with the next flush, and no
-- longer waits.
pub flush-alone :
    (channel cc msb now later : ℕ) (a : Cc14Assembler)
    → contains a.pairs (channel, cc) ≡ true
    → a.timeout_ms ≤ later - now
    → ((others : List MidiMsg) × ((flush later (after_msb channel cc msb now a)).0
          ≡ control_change14 channel cc (msb * 128) ∷ others))
      × (lookup key_eq (channel, cc) (flush later (after_msb channel cc msb now a)).1.pending
          ≡ none)
flush-alone channel cc msb now later a c l =
    late-Waits (channel, cc) msb now later (after_msb channel cc msb now a)
      (rw (after_msb-settings channel cc msb now a c).1 l) (after_msb-Waits channel cc msb now a c)
