-- ===== src/Cue/Safety/Tick.antt =====
-- crates/cue/src/lib.rs: the indices of the engine through `tick`.
use videocuelist.Prelude.{
  ◌>>=◌, ℕ, ◌<◌, ◌≡◌, refl, Option, none, some, List, length, InRange, Returns, Returns->>=,
  Returns-mono, Returns-if, Returns-get_elem?, arith, if◌then◌else◌, get_elem?, length-map, Runs,
}
use videocuelist.Core.Model.{apply, Cue, ParamMap}
use videocuelist.Float.{Floats, nat32}
use videocuelist.Cue.Types.{Pending, CueEngine, EngineTick, ActiveTransition}
use videocuelist.Cue.Search.{numbers}
use videocuelist.Cue.Search.Sorted.{IsSorted}
use videocuelist.Cue.Load.{resolve_scene}
use videocuelist.Cue.Transitions.{activate}
use videocuelist.Cue.Fade.{transition_progress}
use videocuelist.Cue.Commands.{latch}
use videocuelist.Cue.Tick.{
  end_transition, advance, target_at, deck_b_index, params_target_of, frame_of, tick,
}
use videocuelist.Cue.Safety.{IsWellFormed-of, Holds-same, Holds, IsWellFormed}
use videocuelist.Cue.Safety.Transitions.{activate-Holds}
use videocuelist.Cue.Safety.Commands.{apply_pending-Holds}
use videocuelist.Cue.Safety.Follow.{check_follow-Holds}
use videocuelist.Cue.Safety.Chase.{check_chase-Holds}

module _ ⦃F : Floats⦄ (cs : List Cue) (sorted : IsSorted (numbers cs)) where
  open F use {F32, F64, le64, sub64, from_f32}

  end_transition-Holds :
      (now : F64) (e : CueEngine) → Holds cs e → Returns (Holds cs) (end_transition now e)
  unfolding end_transition
  end_transition-Holds now e h = ended e.transition h.transition_in
    where
      ended :
          (o : Option ActiveTransition)
          → InRange (length cs) (elim o [ none ↦ none | some tr ↦ some tr.to ])
          → Returns (Holds cs) (elim o [
            | none ↦ some e
            | some tr ↦
                if le64 (from_f32 tr.dur_s) (sub64 now tr.start_s)
                then activate tr.to now e
                else some e
          ])
      ended none r = h
      ended (some tr) r =
          Returns-if (Holds cs) (le64 (from_f32 tr.dur_s) (sub64 now tr.start_s))
            (activate tr.to now e) (some e) (λ d. activate-Holds cs sorted tr.to now e h r) (λ d. h)

  advance-Holds : (t : EngineTick) (e : CueEngine) → Holds cs e → Returns (Holds cs) (advance t e)
  unfolding advance
  advance-Holds t e h =
      Returns->>= (Holds cs) (Holds cs) _ _
        (apply_pending-Holds cs sorted t.now_s (record e { last_now_s = t.now_s }) (ground arith))
        (λ e₁ h₁.
          Returns->>= (Holds cs) (Holds cs) _ _ (end_transition-Holds t.now_s e₁ h₁) (λ e₂ h₂.
            Returns->>= (Holds cs) (Holds cs) _ _ (check_chase-Holds cs sorted t.now_s t.tc e₂ h₂)
              (λ e₃ h₃. check_follow-Holds cs sorted t.now_s t.media_eof e₃ h₃)))

  scene_at : (e : CueEngine) (i : ℕ) → Holds cs e → i < length cs → Runs (get_elem? e.targets i)
  scene_at e i h u =
      Returns-mono (λ t. get_elem? e.targets i ≡ some t) (λ t. Unit) _ (λ t q. tt)
        (Returns-get_elem? e.targets i
          (rw h.targets_eq (omega (arith, length-map resolve_scene cs))))

  target_at-Runs :
      (e : CueEngine) (o : Option ℕ) → Holds cs e → InRange (length cs) o → Runs (target_at e o)
  unfolding target_at
  target_at-Runs e none h r = tt
  target_at-Runs e (some i) h r =
      Returns->>= (λ t. Unit) (λ t. Unit) _ _ (scene_at e i h r) (λ t q. tt)

  deck_b_index-InRange : (e : CueEngine) → Holds cs e → InRange (length cs) (deck_b_index e)
  deck_b_index-InRange e h = by_transition e.transition h.transition_in
    where
      by_transition :
          (o : Option ActiveTransition)
          → InRange (length cs) (elim o [ none ↦ none | some tr ↦ some tr.to ])
          → InRange (length cs) (elim o [ none ↦ e.standby | some tr ↦ some tr.to ])
      by_transition none r = h.standby_in
      by_transition (some tr) r = r

  params_target_of-Runs : (now : F64) (e : CueEngine) → Holds cs e → Runs (params_target_of now e)
  unfolding params_target_of
  params_target_of-Runs now e h = finished e.finished_params
    where
      moving :
          (o : Option ActiveTransition)
          → InRange (length cs) (elim o [ none ↦ none | some tr ↦ some tr.to ])
          → Runs {A = Option (ParamMap × F32)} (elim o [
            | none ↦ some none
            | some tr ↦ get_elem? e.targets tr.to >>= λ t.
                some (some (t.params, apply tr.curve (transition_progress tr now)))
          ])
      moving none r = tt
      moving (some tr) r =
          Returns->>= (λ t. Unit) (λ t. Unit) _ _ (scene_at e tr.to h r) (λ t q. tt)

      finished :
          (o : Option ParamMap)
          → Runs {A = Option (ParamMap × F32)} (elim o [
            | some m ↦ some (some (m, nat32 1))
            | none ↦ elim e.transition [
              | none ↦ some none
              | some tr ↦ get_elem? e.targets tr.to >>= λ t.
                  some (some (t.params, apply tr.curve (transition_progress tr now)))
            ]
          ])
      finished (some m) = tt
      finished none = moving e.transition h.transition_in

  frame_of-Holds :
      (now : F64) (e : CueEngine) → Holds cs e → Returns (λ r. Holds cs r.1) (frame_of now e)
  unfolding frame_of
  frame_of-Holds now e h =
      Returns->>= (λ a. Unit) (λ r. Holds cs r.1) (target_at e e.active) _
        (target_at-Runs e e.active h h.active_in)
        (λ a q.
          Returns->>= (λ a. Unit) (λ r. Holds cs r.1) (target_at e (deck_b_index e)) _
            (target_at-Runs e (deck_b_index e) h (deck_b_index-InRange e h))
            (λ b q'.
              Returns->>= (λ a. Unit) (λ r. Holds cs r.1) (params_target_of now e) _
                (params_target_of-Runs now e h)
                (λ p q''. Holds-same e _ h refl refl refl refl refl)))

  pub tick-Holds :
      (t : EngineTick) (e : CueEngine) → Holds cs e → Returns (λ r. Holds cs r.1) (tick t e)
  unfolding tick
  tick-Holds t e h =
      Returns->>= (Holds cs) (λ r. Holds cs r.1) _ _ (advance-Holds t e h)
        (λ e₁ h₁. frame_of-Holds t.now_s e₁ h₁)

module _ ⦃F : Floats⦄ where
  -- A tick of a well-formed engine does not panic, whatever its latched commands, its clock, its
  -- media and its timecode: it returns a frame, and an engine that is well-formed and plays the
  -- same cues.
  pub tick-IsWellFormed :
      (t : EngineTick) (e : CueEngine)
      → IsWellFormed e
      → Returns (λ r. IsWellFormed r.1 × (r.1.cues ≡ e.cues)) (tick t e)
  tick-IsWellFormed t e (s, h) =
      Returns-mono (λ r. Holds e.cues r.1) _ (tick t e)
        (λ r g. (IsWellFormed-of e.cues r.1 s g, g.cues_eq)) (tick-Holds e.cues s t e h)

  -- A command that is latched keeps the engine well-formed.
  pub latch-IsWellFormed :
      (cmd : Pending) (e : CueEngine) → IsWellFormed e → IsWellFormed (latch cmd e)
  unfolding latch
  latch-IsWellFormed cmd e (s, h) = (s, Holds-same e _ h refl refl refl refl refl)
