-- ===== src/Cue/Landing/Frames.antt =====
-- crates/cue/src/lib.rs: what the frame of a tick shows of the state that the tick leaves.
use videocuelist.Prelude.{
  Returns, Returns-mono, Returns-Ensures, ◌≡◌, refl, false, none, some, [], arith, if◌then◌else◌,
  Ensures, Ensures->>=, Ensures-any,
}
use videocuelist.Core.Model.{through_black}
use videocuelist.Float.{Floats, nat32}
use videocuelist.Cue.Types.{CueEngine, CueFrame, EngineTick, ActiveTransition}
use videocuelist.Cue.Safety.{IsWellFormed}
use videocuelist.Cue.Safety.Tick.{tick-IsWellFormed}
use videocuelist.Cue.Fade.{eval_transition}
use videocuelist.Cue.Tick.{
  target_at, deck_b_index, params_target_of, frame_of, freeze_b_of, tick, advance,
}

module _ ⦃F : Floats⦄ where
  open F use {F64}

  -- A frame and the engine that shows it.
  pub record Shows (fr : CueFrame) (e : CueEngine) : Type 0 where
    pub drained : (e.events ≡ []) × (e.finished_params ≡ none)
    pub at_rest : e.transition ≡ none → (fr.blend ≡ nat32 0) × (fr.freeze_b ≡ false)
    pub dip :
        (tr : ActiveTransition)
        → e.transition ≡ some tr
        → tr.kind ≡ through_black
        → fr.blend ≡ (if fr.freeze_b then nat32 0 else nat32 1)

  rest_level :
      (now : F64) (e : CueEngine)
      → e.transition ≡ none
      → ((eval_transition e now).0 ≡ nat32 0) × (freeze_b_of now e ≡ false)
  unfolding eval_transition freeze_b_of
  rest_level now e q = ground arith

  dip_level :
      (now : F64) (e : CueEngine) (tr : ActiveTransition)
      → e.transition ≡ some tr
      → tr.kind ≡ through_black
      → (eval_transition e now).0 ≡ (if freeze_b_of now e then nat32 0 else nat32 1)
  unfolding eval_transition freeze_b_of
  dip_level now e tr q k = ground arith

  frame_of-Shows : (now : F64) (e : CueEngine) → Ensures (λ r. Shows r.0 r.1) (frame_of now e)
  unfolding frame_of
  frame_of-Shows now e =
      Ensures->>= (λ a. Unit) Goal (target_at e e.active) _ (Ensures-any _)
        (λ a u.
          Ensures->>= (λ b. Unit) Goal (target_at e (deck_b_index e)) _ (Ensures-any _)
            (λ b u'.
              Ensures->>= (λ p. Unit) Goal (params_target_of now e) _ (Ensures-any _)
                (λ p u''. record {
                  drained = (refl, refl);
                  at_rest = λ q. rest_level now e q;
                  dip = λ tr q k. dip_level now e tr q k;
                })))
    where
      Goal : CueFrame × CueEngine → Type 0
      Goal r = Shows r.0 r.1

  -- The frame of a tick fits the engine it leaves: events and finished parameters are taken; at
  -- rest the blend is 0 and deck B plays; in a fade through black the blend is 0 while deck B is
  -- frozen and 1 once it is not.
  pub tick-Shows :
      (t : EngineTick) (e : CueEngine) → IsWellFormed e → Returns (λ r. Shows r.0 r.1) (tick t e)
  unfolding tick
  tick-Shows t e v =
      Returns-mono _ (λ r. Shows r.0 r.1) (tick t e) (λ r g. g.1)
        (Returns-Ensures (λ r. IsWellFormed r.1 × (r.1.cues ≡ e.cues)) (λ r. Shows r.0 r.1)
          (tick t e) (tick-IsWellFormed t e v)
          (Ensures->>= (λ e₁. Unit) (λ r. Shows r.0 r.1) (advance t e) _ (Ensures-any _)
            (λ e₁ u. frame_of-Shows t.now_s e₁)))
