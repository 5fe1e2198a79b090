-- ===== src/Cue/Fade.antt =====
-- crates/cue/src/lib.rs: the levels that a frame shows, which are the progress of the transition,
-- the blend and the black.
use videocuelist.Prelude.{none, some, if◌then◌else◌}
use videocuelist.Prelude.Int.{pos}
use videocuelist.Core.Model.{cut, crossfade, through_black, TransitionKind, Curve, apply}
use videocuelist.Float.{Floats, clamp64, nat32, nat64}
use videocuelist.Cue.Types.{ActiveTransition, CueEngine}

module _ ⦃F : Floats⦄ where
  open F use {F32, F64, lit32, lt32, le32, add32, sub32, mul32, sub64, div64, from_f32, as_f32}

  unfoldable pub transition_progress : ActiveTransition → F64 → F32
  transition_progress tr now =
      if le32 tr.dur_s (nat32 0)
      then nat32 1
      else as_f32 (clamp64 (div64 (sub64 now tr.start_s) (from_f32 tr.dur_s)) (nat64 0) (nat64 1))

  -- The pair (blend, black) of a transition at progress `p`.
  unfoldable pub levels : TransitionKind → Curve → F32 → F32 × F32
  levels crossfade c p = (apply c p, nat32 0)
  levels through_black c p =
      if lt32 p (lit32 (pos 1) 2)
      then (nat32 0, apply c (mul32 p (nat32 2)))
      else (nat32 1, apply c (mul32 (sub32 (nat32 1) p) (nat32 2)))
  levels cut c p = (nat32 0, nat32 0)

  unfoldable pub eval_transition : CueEngine → F64 → F32 × F32
  unfolding levels
  eval_transition e now = elim e.transition [
    | none ↦ (nat32 0, nat32 0)
    | some tr ↦ levels tr.kind tr.curve (transition_progress tr now)
  ]

  unfoldable pub panic_black : CueEngine → F64 → F32
  panic_black e now = elim e.panic [
    | none ↦ nat32 0
    | some p ↦
        if le32 p.fade_s (nat32 0)
        then nat32 1
        else (let q =
              as_f32
                (clamp64 (div64 (sub64 now p.start_s) (from_f32 p.fade_s)) (nat64 0) (nat64 1)) in
            add32 p.from (mul32 (sub32 (nat32 1) p.from) q))
  ]
