-- ===== src/Cue/Status.antt =====
-- crates/cue/src/lib.rs: `status` and `media_progress`, what the interface shows of the engine.
use videocuelist.Prelude.{
  ℕ, Bool, true, false, ◌&&◌, not, Option, none, some, List, [], ◌∷◌, if◌then◌else◌, get_elem?,
  or_else, unwrap_or, ◌>>=◌,
}
use videocuelist.Core.Model.{Cue, SliceState, Playback, FollowMode, manual, after_media, wait}
use videocuelist.Float.{Floats, clamp32, nat32, nat64}
use videocuelist.Cue.Types.{CueEngine, CueStatus}
use videocuelist.Cue.Fade.{transition_progress}
use videocuelist.Cue.Follow.{is_follow_next}
use videocuelist.Cue.Load.{number_at}

module _ ⦃F : Floats⦄ where
  open F use {F32, F64, lt32, lt64, sub32, div32, max32, sub64, mul64, div64, from_f32, as_f32}

  -- `duration_of`: the length between the points IN and OUT at the effective speed.
  unfoldable pub duration_of : (ℕ → Option F32) → ℕ → Playback → Option F32
  duration_of speed_mult slice pb = pb.out_s >>= λ out.
      let speed = mul64 (from_f32 pb.speed) (from_f32 (unwrap_or (speed_mult slice) (nat32 1))) in
      if lt64 (nat64 0) speed && lt64 pb.in_s out
      then some (as_f32 (div64 (sub64 out pb.in_s) speed))
      else none

  -- `pick`: the first state with a duration, of those that end in a follow if `want` says so.
  unfoldable pub pick : (ℕ → Option F32) → Bool → List SliceState → Option F32
  unfolding duration_of
  pick speed_mult want [] = none
  pick speed_mult want (st ∷ sts) =
      or_else
        (st.playback >>= λ pb.
          if want && not (is_follow_next pb.end) then none else duration_of speed_mult st.slice pb)
        (pick speed_mult want sts)

  unfoldable pub media_progress : Cue → F32 → (ℕ → Option F32) → F32 × Option F32
  unfolding pick
  media_progress c elapsed speed_mult =
      elim (or_else (pick speed_mult true c.states) (pick speed_mult false c.states)) [
        | none ↦ (nat32 0, none)
        | some dur ↦
            if lt32 (nat32 0) dur
            then (
              clamp32 (div32 elapsed dur) (nat32 0) (nat32 1),
              some (max32 (sub32 dur elapsed) (nat32 0)),
            )
            else (nat32 0, none)
      ]

  unfoldable pub follow_progress : FollowMode → Cue → CueEngine → F32 × Option F32
  unfolding media_progress
  follow_progress manual c e =
      media_progress c (as_f32 (sub64 e.last_now_s e.media_start_s)) e.speed_mult
  follow_progress after_media c e =
      media_progress c (as_f32 (sub64 e.last_now_s e.media_start_s)) e.speed_mult
  follow_progress (wait s) c e =
      let elapsed = as_f32 (sub64 e.last_now_s e.cue_start_s) in
      if lt32 (nat32 0) s
      then (clamp32 (div32 elapsed s) (nat32 0) (nat32 1), some (max32 (sub32 s elapsed) (nat32 0)))
      else (nat32 1, some (nat32 0))

  -- Progress and remaining time of the active cue.
  unfoldable pub active_progress : CueEngine → Option (F32 × Option F32)
  unfolding follow_progress
  active_progress e = elim e.active [
    | none ↦ some (nat32 0, none)
    | some i ↦ get_elem? e.cues i >>= λ c. some (follow_progress c.follow c e)
  ]

  unfoldable pub status : CueEngine → Option CueStatus
  unfolding active_progress number_at
  status e = do
    a ← number_at e e.active
    sb ← number_at e e.standby
    elim e.transition [
      | some tr ↦ some (record {
        active = a;
        standby = sb;
        progress = transition_progress tr e.last_now_s;
        remaining_s =
            some (max32 (sub32 tr.dur_s (as_f32 (sub64 e.last_now_s tr.start_s))) (nat32 0));
        transition_active = true;
      })
      | none ↦ active_progress e >>= λ p. some (record {
        active = a;
        standby = sb;
        progress = p.0;
        remaining_s = p.1;
        transition_active = false;
      })
    ]
