-- ===== src/Artnet/Mapper/Sequence.antt =====
-- crates/control-artnet/src/mapper.rs: the frames that the sequence numbers show to be lost.
use videocuelist.Prelude.{
  ==_iff, if◌then◌else◌, ℕ, ◌+◌, ◌-◌, ◌%◌, ◌≤◌, ◌<◌, ◌≡◌, arith, none, leb, ◌==◌, some,
}
use videocuelist.Table.{lookup-insert, IsEq, insert, lookup}
use videocuelist.Artnet.Mapper.{sequence_gap_warn, SequenceTracker, reported, observe, gap_of}

-- The number of the frame so many after another: they run from 1 to 255 and start again at 1.
abbrev pub later : ℕ → ℕ → ℕ
later sequence n = (sequence - 1 + n) % 255 + 1

gap_of-later :
    (last lost : ℕ)
    → 1 ≤ last
    → last ≤ 255
    → lost < 255
    → gap_of last (later last (lost + 1)) ≡ lost
gap_of-later last lost a b c = ground arith

nat_eq-IsEq : IsEq ◌==◌
nat_eq-IsEq = record { refl_test = λ k. ground arith; sound = λ j k e. ground (arith, ==_iff j k) }

observe-open :
    (universe sequence : ℕ) (t : SequenceTracker)
    → 1 ≤ sequence
    → observe universe sequence t ≡ (
      reported (lookup ◌==◌ universe t.last) sequence,
      record { last = insert ◌==◌ universe sequence t.last },
    )
unfolding observe
observe-open universe sequence t a = ground arith

reported-later :
    (last lost : ℕ)
    → 1 ≤ last
    → last ≤ 255
    → lost < 255
    → reported (some last) (later last (lost + 1))
      ≡ (if leb sequence_gap_warn lost then some lost else none)
reported-later last lost a b c = rw (gap_of-later last lost a b c) (ground arith)

-- When fewer than 255 frames are lost between two of a universe, their number is reported exactly
-- if it is 8 or more, also where the sequence starts again at 1; else nothing is.
pub observe-lost :
    (universe last lost : ℕ) (t : SequenceTracker)
    → 1 ≤ last
    → last ≤ 255
    → lost < 255
    → (observe universe (later last (lost + 1)) ((observe universe last t).1)).0
      ≡ (if leb 8 lost then some lost else none)
observe-lost universe last lost t a b c =
    rw
      (
        observe-open universe last t a,
        observe-open universe (later last (lost + 1)) _ (omega arith),
        lookup-insert ◌==◌ nat_eq-IsEq universe last t.last,
      )
      (reported-later last lost a b c)
