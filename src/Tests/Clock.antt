-- ===== src/Tests/Clock.antt =====
-- The clock of MIDI time code: a signal that is lost after its first position.
use videocuelist.Prelude.{◌≡◌, refl, true, false, none, some}
use videocuelist.Prelude.Int.{pos}
use videocuelist.Float.Milli.{milli}
use videocuelist.Core.Timecode.{TcTime, fps24, fps25, to_frames, from_frames}
use videocuelist.Midi.Mtc.{locked, time}
use videocuelist.Midi.Mtc.Clock.{MtcClock, new_clock, feed_clock, current, in_freewheel}
use videocuelist.Midi.Mtc.Clock.Held.{Relocking, lost-stays}

abbrev one_hour : TcTime
one_hour = record { h = 1; m = 0; s = 0; f = 0 }

-- Two seconds later.
abbrev two_seconds_on : TcTime
two_seconds_on = record { h = 1; m = 0; s = 2; f = 0 }

-- The position comes at 1 s.
abbrev running_clock : MtcClock
running_clock =
    feed_clock (time one_hour) (pos 1_000) (feed_clock (locked fps25) (pos 920) new_clock)

no_position : current (pos 5_000) new_clock ≡ none
unfolding current
no_position = refl

half_second_on :
    current (pos 1_500) running_clock ≡ some (record { h = 1; m = 0; s = 0; f = 12 }, true)
unfolding current feed_clock to_frames from_frames
half_second_on = refl

lost_at_ten : current (pos 10_000) running_clock ≡ some (two_seconds_on, false)
unfolding current feed_clock to_frames from_frames
lost_at_ten = refl

lost-stays_example :
    (in_freewheel (pos 20_000) running_clock ≡ false
      → current (pos 20_000) running_clock ≡ some (two_seconds_on, false))
    × ((d : MtcClock)
        → Relocking running_clock (pos 10_000) d
        → current (pos 20_000) d ≡ some (two_seconds_on, in_freewheel (pos 20_000) d))
lost-stays_example = lost-stays running_clock (pos 10_000) (pos 20_000) two_seconds_on lost_at_ten

-- It comes back at another rate, and stands where it was lost.
found_at_twelve :
    current (pos 13_000) (
      feed_clock (locked fps24) (pos 12_000) (feed_clock (locked fps25) (pos 10_000) running_clock))
    ≡ some (two_seconds_on, true)
unfolding current feed_clock to_frames from_frames
found_at_twelve = refl
