-- ===== src/Core/Timecode.antt =====
-- crates/core/src/timecode.rs: SMPTE positions, their rates, and the counts of frames.
pub mod Frames
pub mod Parse
use videocuelist.Prelude.{ℕ, ◌+◌, ◌-◌, ◌*◌, ◌/◌, ◌%◌, Bool, true, false, ltb, if◌then◌else◌}

pub data TcRate : Type 0 where
  fps24 : TcRate
  fps25 : TcRate
  fps2997_df : TcRate
  fps30 : TcRate

abbrev pub nominal_fps : TcRate → ℕ
nominal_fps fps24 = 24
nominal_fps fps25 = 25
nominal_fps fps2997_df = 30
nominal_fps fps30 = 30

abbrev pub is_drop_frame : TcRate → Bool
is_drop_frame fps2997_df = true
is_drop_frame _ = false

abbrev pub frames_per_day : TcRate → ℕ
frames_per_day fps2997_df = 2_589_408
frames_per_day other = 86_400 * nominal_fps other

-- The fields are `u8`.
pub record TcTime : Type 0 where
  pub h : ℕ
  pub m : ℕ
  pub s : ℕ
  pub f : ℕ

-- The derived order: the fields from left to right.
unfoldable pub lt_time : TcTime → TcTime → Bool
lt_time t u =
    if ltb t.h u.h
    then true
    else if ltb u.h t.h
    then false
    else if ltb t.m u.m
    then true
    else if ltb u.m t.m
    then false
    else if ltb t.s u.s
    then true
    else if ltb u.s t.s
    then false
    else ltb t.f u.f

unfoldable pub to_frames : TcTime → TcRate → ℕ
to_frames t rate =
    let nominal = nominal_fps rate in
    let base = (t.h * 3600 + t.m * 60 + t.s) * nominal + t.f in
    let total_min = t.h * 60 + t.m in
    if is_drop_frame rate then base - 2 * (total_min - total_min / 10) else base

-- The count with the dropped labels put back: 17982 frames in a block of ten minutes, 1798 in a
-- minute that is not the first of its block.
abbrev pub reinject : ℕ → ℕ
reinject frames =
    let d = frames / 17_982 in
    let m = frames % 17_982 in
    let extra = if ltb 1 m then 2 * ((m - 2) / 1_798) else 0 in frames + 18 * d + extra

abbrev pub label : ℕ → ℕ → TcTime
label nominal frames = record {
  h = frames / (nominal * 3600) % 256;
  m = frames / (nominal * 60) % 60 % 256;
  s = frames / nominal % 60 % 256;
  f = frames % nominal % 256;
}

unfoldable pub from_frames : ℕ → TcRate → TcTime
from_frames frames rate =
    let frames' = frames % frames_per_day rate in
    let labelled = if is_drop_frame rate then reinject frames' else frames' in
    label (nominal_fps rate) labelled
