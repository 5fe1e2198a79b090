-- ===== src/Core/Timecode/Frames.antt =====
-- crates/core/src/timecode.rs: counts of frames against labels.
use videocuelist.Prelude.{ℕ, ◌%◌, ◌<◌, ◌≤◌, ◌≡◌, ◌≢◌, arith, ltb}
use videocuelist.Core.Timecode.{
  lt_time, frames_per_day, TcRate, fps24, fps25, fps2997_df, fps30, TcTime, nominal_fps, to_frames,
  from_frames,
}

-- The labels that exist at a rate: fields in range, and no frame 0 or 1 in the first second of a
-- minute that drops them.
pub record IsLabel (rate : TcRate) (t : TcTime) : Type 0 where
  pub hours : t.h < 24
  pub minutes : t.m < 60
  pub seconds : t.s < 60
  pub frames : t.f < nominal_fps rate
  pub dropped : rate ≡ fps2997_df → t.s ≡ 0 → t.m % 10 ≢ 0 → 2 ≤ t.f

-- Every count of frames, taken modulo a day, comes back from its label, at every rate.
pub to_frames-from_frames :
    (n : ℕ) (rate : TcRate) → to_frames (from_frames n rate) rate ≡ n % frames_per_day rate
unfolding to_frames from_frames
to_frames-from_frames n fps24 = ground arith
to_frames-from_frames n fps25 = ground arith
to_frames-from_frames n fps2997_df = ground arith
to_frames-from_frames n fps30 = ground arith

-- `from_frames` gives only labels that exist at the rate: fields in range, and in drop-frame never
-- a frame number 0 or 1 at the start of a minute that is no multiple of ten.
pub from_frames-IsLabel : (n : ℕ) (rate : TcRate) → IsLabel rate (from_frames n rate)
unfolding from_frames
from_frames-IsLabel n fps24 = ground arith
from_frames-IsLabel n fps25 = ground arith
from_frames-IsLabel n fps2997_df = ground arith
from_frames-IsLabel n fps30 = ground arith

-- Every label that exists at a rate comes back from its count of frames.
pub from_frames-to_frames :
    (rate : TcRate) (t : TcTime) → IsLabel rate t → from_frames (to_frames t rate) rate ≡ t
unfolding to_frames from_frames
from_frames-to_frames fps24 t v = ground arith
from_frames-to_frames fps25 t v = ground arith
from_frames-to_frames fps2997_df t v = ground arith
from_frames-to_frames fps30 t v = ground arith

-- Between labels that exist at a rate, the count of frames keeps the derived order of the fields:
-- a label comes strictly before another exactly when its count is the smaller one.
pub lt_time-to_frames :
    (rate : TcRate) (t u : TcTime)
    → IsLabel rate t
    → IsLabel rate u
    → lt_time t u ≡ ltb (to_frames t rate) (to_frames u rate)
unfolding to_frames lt_time
lt_time-to_frames fps24 t u v w = ground arith
lt_time-to_frames fps25 t u v w = ground arith
lt_time-to_frames fps2997_df t u v w = ground arith
lt_time-to_frames fps30 t u v w = ground arith
