-- ===== src/Media/Pacing.antt =====
-- crates/engine/src/pacing.rs: the choice of the frame to display, by the clock of the media.
use videocuelist.Prelude.{
  ℕ, suc, ◌&&◌, List, [], ◌∷◌, Option, none, some, get_elem?, or_else, ◌>>=◌, if◌then◌else◌,
}
use videocuelist.Prelude.Int.{pos}
use videocuelist.Float.{Floats, nat64}

pub data Decision : Type 0 where
  hold : Decision
  take_frame : (index skipped : ℕ) → Decision

module _ ⦃F : Floats⦄ where
  open F use {F64, lit64, lt64, le64, add64, sub64, mul64, div64, max64, ceil64, is_finite64}

  pub record Pacer : Type 0 where
    pub frame_dur_s : F64
    pub in_s : F64
    pub seg_len_s : F64
    pub loop_offset_s : F64
    pub last_pts_s : Option F64

  unfoldable pub new_pacer : F64 → F64 → F64 → Pacer
  new_pacer fps in_s seg_len_s =
      let rate = if is_finite64 fps && lt64 (nat64 0) fps then fps else nat64 30 in
      record {
        frame_dur_s = div64 (nat64 1) rate;
        in_s = in_s;
        seg_len_s = seg_len_s;
        loop_offset_s = nat64 0;
        last_pts_s = none;
      }

  -- A clock that went back: as many lengths of the segment are added as it takes.
  abbrev pub unwrapped : F64 → Option F64 → Pacer → F64 × Pacer
  unwrapped t none p = (t, p)
  unwrapped t (some last) p =
      let wraps = max64 (ceil64 (div64 (sub64 last t) p.seg_len_s)) (nat64 1) in
      if lt64 (nat64 0) p.seg_len_s && lt64 t (sub64 last (mul64 (nat64 2) p.frame_dur_s))
      then (
        add64 t (mul64 wraps p.seg_len_s),
        record p { loop_offset_s = add64 p.loop_offset_s (mul64 wraps p.seg_len_s) },
      )
      else (t, p)

  unfoldable pub stream_time : F64 → Pacer → F64 × Pacer
  stream_time media_time_s p =
      unwrapped (add64 (sub64 media_time_s p.in_s) p.loop_offset_s) p.last_pts_s p

  -- The loop: the last of the frames that are due, up to the first that is not.
  unfoldable pub best_from : F64 → ℕ → List F64 → Option ℕ
  best_from deadline i [] = none
  best_from deadline i (pts ∷ rest) =
      let best = best_from deadline (suc i) rest in
      if le64 pts deadline then or_else best (some i) else none

  abbrev pub decide : List F64 → Pacer → Option ℕ → Option (Decision × Pacer)
  decide available p none = some (hold, p)
  decide available p (some i) = do
    pts ← get_elem? available i
    some (take_frame i i, record p { last_pts_s = some pts })

  abbrev pub deadline_of : F64 × Pacer → F64
  deadline_of (t, p) = add64 t (mul64 p.frame_dur_s (lit64 (pos 1) 2))

  unfoldable pub choose : List F64 → F64 → Pacer → Option (Decision × Pacer)
  unfolding stream_time best_from
  choose available media_time_s p =
      let st = stream_time media_time_s p in
      decide available st.1 (best_from (deadline_of st) 0 available)

  abbrev pub reset_to : F64 → Pacer → Pacer
  reset_to stream_pos_s p = record p { loop_offset_s = nat64 0; last_pts_s = none }
