-- ===== src/Midi/Mtc/Clock.antt =====
-- crates/control-midi/src/mtc.rs: the clock of MIDI time code, which runs between two positions and
-- on for a while when the signal is lost.
pub mod Held
use videocuelist.Prelude.{
  ℕ, ◌-◌, ◌^◌, min, Bool, true, false, not, Option, none, some, if◌then◌else◌,
}
use videocuelist.Float.{Floats, nat64}
use videocuelist.Core.Timecode.{TcRate, fps25, TcTime}
use videocuelist.Cue.Chase.{fps}
use videocuelist.Midi.Mtc.{MtcEvent, locked, time, full_frame, signal_lost, add_frames}

module _ ⦃F : Floats⦄ where
  open F use {F64, le64, add64, sub64, mul64, max64, floor64, as_u64, neg_infinity64}

  abbrev pub freewheel_s : F64
  freewheel_s = nat64 2

  pub record Base : Type 0 where
    pub position : TcTime
    pub at_s : F64
    pub running : Bool

  pub record MtcClock : Type 0 where
    pub clock_rate : TcRate
    pub base : Option Base
    pub last_signal_s : F64

  abbrev pub new_clock : MtcClock
  new_clock = record { clock_rate = fps25; base = none; last_signal_s = neg_infinity64 }

  abbrev pub in_freewheel : F64 → MtcClock → Bool
  in_freewheel now_s c = le64 (sub64 now_s c.last_signal_s) freewheel_s

  -- The position of a base that runs until an instant. The time that went by is not negative, so the
  -- cast to `i64`, which saturates, is the cast to `u64` with the bound of `i64`.
  unfoldable pub run_on : Base → TcRate → F64 → TcTime
  unfolding add_frames fps
  run_on b rate until_s =
      let elapsed = max64 (sub64 until_s b.at_s) (nat64 0) in
      add_frames b.position rate (min (2 ^ 63 - 1) (as_u64 (floor64 (mul64 elapsed (fps rate)))))

  abbrev pub position_of : Base → F64 → MtcClock → TcTime
  position_of b now_s c =
      if not b.running
      then b.position
      else run_on b c.clock_rate
          (if in_freewheel now_s c then now_s else add64 c.last_signal_s freewheel_s)

  abbrev pub current_of : Option Base → F64 → MtcClock → Option (TcTime × Bool)
  current_of none now_s c = none
  current_of (some b) now_s c = some (position_of b now_s c, in_freewheel now_s c)

  unfoldable pub current : F64 → MtcClock → Option (TcTime × Bool)
  unfolding run_on
  current now_s c = current_of c.base now_s c

  abbrev pub rebased : TcTime → F64 → Bool → MtcClock → MtcClock
  rebased t now_s running c = record c {
    base = some (record { position = t; at_s = now_s; running = running });
  }

  -- A position that is lost is held where it is.
  abbrev pub relocked : Option (TcTime × Bool) → F64 → MtcClock → MtcClock
  relocked none now_s c = c
  relocked (some (t, true)) now_s c = c
  relocked (some (t, false)) now_s c = rebased t now_s false c

  unfoldable pub feed_clock : MtcEvent → F64 → MtcClock → MtcClock
  unfolding current
  feed_clock (locked rate) now_s c = record (relocked (current now_s c) now_s c) {
    clock_rate = rate;
    last_signal_s = now_s;
  }
  feed_clock (time t) now_s c = record (rebased t now_s true c) { last_signal_s = now_s }
  feed_clock (full_frame t) now_s c = record (rebased t now_s false c) { last_signal_s = now_s }
  feed_clock signal_lost now_s c = c
