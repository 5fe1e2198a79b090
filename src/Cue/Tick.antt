-- ===== src/Cue/Tick.antt =====
-- crates/cue/src/lib.rs: `tick`, which is the commands, the end of the transition, the chase, the
-- follow, and the frame to show.
use videocuelist.Prelude.{
  ℕ, Bool, true, false, ◌&&◌, Option, none, some, [], if◌then◌else◌, get_elem?, ◌>>=◌,
}
use videocuelist.Prelude.Int.{pos}
use videocuelist.Core.Model.{ParamMap, TransitionKind, cut, crossfade, through_black, apply}
use videocuelist.Float.{Floats, nat32}
use videocuelist.Cue.Types.{CueEngine, EngineTick, CueFrame, SceneTarget}
use videocuelist.Cue.Fade.{transition_progress, eval_transition, panic_black}
use videocuelist.Cue.Transitions.{activate}
use videocuelist.Cue.Commands.{apply_pending}
use videocuelist.Cue.Follow.{check_follow}
use videocuelist.Cue.Chase.{check_chase}

abbrev pub is_through_black : TransitionKind → Bool
is_through_black through_black = true
is_through_black cut = false
is_through_black crossfade = false

module _ ⦃F : Floats⦄ where
  open F use {F32, F64, lit32, lt32, le64, sub64, from_f32, max32}

  -- The transition ends once its duration has passed.
  unfoldable pub end_transition : F64 → CueEngine → Option CueEngine
  unfolding activate
  end_transition now e = elim e.transition [
    | none ↦ some e
    | some tr ↦
        if le64 (from_f32 tr.dur_s) (sub64 now tr.start_s) then activate tr.to now e else some e
  ]

  -- The phases of a tick, in their order.
  unfoldable pub advance : EngineTick → CueEngine → Option CueEngine
  unfolding end_transition
  advance t e = do
    e₁ ← apply_pending t.now_s (record e { last_now_s = t.now_s })
    e₂ ← end_transition t.now_s e₁
    e₃ ← check_chase t.now_s t.tc e₂
    check_follow t.now_s t.media_eof e₃

  -- `map(|i| self.targets[i].clone())`.
  unfoldable pub target_at : CueEngine → Option ℕ → Option (Option SceneTarget)
  target_at e none = some none
  target_at e (some i) = get_elem? e.targets i >>= λ t. some (some t)

  -- Deck B holds the target of the transition, or else the standby.
  abbrev pub deck_b_index : CueEngine → Option ℕ
  deck_b_index e = elim e.transition [ none ↦ e.standby | some tr ↦ some tr.to ]

  unfoldable pub params_target_of : F64 → CueEngine → Option (Option (ParamMap × F32))
  params_target_of now e = elim e.finished_params [
    | some m ↦ some (some (m, nat32 1))
    | none ↦ elim e.transition [
      | none ↦ some none
      | some tr ↦ get_elem? e.targets tr.to >>= λ t.
          some (some (t.params, apply tr.curve (transition_progress tr now)))
    ]
  ]

  unfoldable pub freeze_b_of : F64 → CueEngine → Bool
  freeze_b_of now e = elim e.transition [
    | none ↦ false
    | some tr ↦ is_through_black tr.kind && lt32 (transition_progress tr now) (lit32 (pos 1) 2)
  ]

  -- The frame of the state after the phases; it takes the events and the finished parameters.
  unfoldable pub frame_of : F64 → CueEngine → Option (CueFrame × CueEngine)
  unfolding target_at params_target_of freeze_b_of
  frame_of now e = do
    let levels = eval_transition e now
    a ← target_at e e.active
    b ← target_at e (deck_b_index e)
    params ← params_target_of now e
    some (
      record {
        deck_a = a;
        deck_b = b;
        blend = levels.0;
        black = max32 levels.1 (panic_black e now);
        params_target = params;
        freeze_b = freeze_b_of now e;
        events = e.events;
      },
      record e { events = []; finished_params = none },
    )

  unfoldable pub tick : EngineTick → CueEngine → Option (CueFrame × CueEngine)
  unfolding advance frame_of
  tick t e = advance t e >>= frame_of t.now_s
