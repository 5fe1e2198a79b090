-- ===== src/Tests/Timecode.antt =====
-- crates/core/src/timecode.rs at concrete labels.
use videocuelist.Prelude.{[], ◌∷◌, some, ◌≤◌, ◌%◌, ◌≡◌, refl, arith, ltb}
use videocuelist.Core.Timecode.{TcTime, fps2997_df, frames_per_day, to_frames, from_frames, lt_time}
use videocuelist.Core.Timecode.Parse.{to_string, from_str}
use videocuelist.Core.Timecode.Parse.RoundTrip.{from_str-to_string, from_str-range}
use videocuelist.Text.{Text, split, trim, parse_uint}
use videocuelist.Core.Timecode.Frames.{
  IsLabel, to_frames-from_frames, from_frames-IsLabel, from_frames-to_frames, lt_time-to_frames,
}

abbrev minute_one : TcTime
minute_one = record { h = 0; m = 1; s = 0; f = 2 }

abbrev before_it : TcTime
before_it = record { h = 0; m = 0; s = 59; f = 29 }

dropped_labels : to_frames minute_one fps2997_df ≡ 1800
unfolding to_frames
dropped_labels = refl

last_before : to_frames before_it fps2997_df ≡ 1799
unfolding to_frames
last_before = refl

minute_one-IsLabel : IsLabel fps2997_df minute_one
minute_one-IsLabel = ground arith

before_it-IsLabel : IsLabel fps2997_df before_it
before_it-IsLabel = ground arith

to_frames-from_frames_example :
    to_frames (from_frames 2_589_410 fps2997_df) fps2997_df ≡ 2_589_410 % frames_per_day fps2997_df
to_frames-from_frames_example = to_frames-from_frames 2_589_410 fps2997_df

from_frames-IsLabel_example : IsLabel fps2997_df (from_frames 17_982 fps2997_df)
from_frames-IsLabel_example = from_frames-IsLabel 17_982 fps2997_df

from_frames-to_frames_example :
    from_frames (to_frames minute_one fps2997_df) fps2997_df ≡ minute_one
from_frames-to_frames_example = from_frames-to_frames fps2997_df minute_one minute_one-IsLabel

lt_time-to_frames_example :
    lt_time before_it minute_one
    ≡ ltb (to_frames before_it fps2997_df) (to_frames minute_one fps2997_df)
lt_time-to_frames_example =
    lt_time-to_frames fps2997_df before_it minute_one before_it-IsLabel minute_one-IsLabel

from_str-to_string_example : from_str (to_string minute_one) ≡ some minute_one
from_str-to_string_example =
    from_str-to_string minute_one (omega arith) (omega arith) (omega arith) (omega arith)

-- One digit and the separator of drop-frame are read, and spaces around the text.
abbrev short_text : Text
short_text = b' ' ∷ b'0' ∷ b':' ∷ b'1' ∷ b':' ∷ b'0' ∷ b';' ∷ b'2' ∷ b' ' ∷ []

lenient : from_str short_text ≡ some minute_one
unfolding from_str split trim parse_uint
lenient = refl

from_str-range_example : (0 ≤ 23) × (1 ≤ 59) × (0 ≤ 59) × (2 ≤ 59)
from_str-range_example = from_str-range short_text minute_one lenient
