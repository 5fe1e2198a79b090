-- ===== src/Cue/Commands.antt =====
-- crates/cue/src/lib.rs: the commands, latched by `go`, `back`, `goto`, `standby` and `panic`, and
-- applied in order by `apply_pending` at the next tick. Also `set_speed_mult`.
use videocuelist.Prelude.{
  ℕ, ◌&&◌, Option, none, some, List, [], ◌∷◌, ◌++◌, ◌==◌, if◌then◌else◌, ◌>>=◌,
}
use videocuelist.Core.Model.{CueNumber}
use videocuelist.Float.{Floats, nat32}
use videocuelist.Cue.Types.{
  back, CueEngine, Pending, go, goto, standby, panic, panic_started, go_no_standby, back_on_first,
  back_no_armed, back_no_active, goto_missing, standby_missing,
}
use videocuelist.Cue.Search.{rfind_range, armed_at}
use videocuelist.Cue.Fade.{panic_black, eval_transition}
use videocuelist.Cue.Transitions.{
  emit, warn_event, index_of, standby_after, snap_transition, launch,
}

module _ ⦃F : Floats⦄ where
  open F use {F32, F64, lt32, sub32, abs32, max32, is_finite32, epsilon32}

  -- `CueEngine::go`, `back`, `goto`, `standby` and `panic` push their command.
  unfoldable pub latch : Pending → CueEngine → CueEngine
  latch cmd e = record e { pending = e.pending ++ cmd ∷ [] }

  -- `snap_transition`, `panic = None`, then the go.
  unfoldable pub manual_go : ℕ → ℕ → F64 → CueEngine → Option CueEngine
  manual_go by to now e = do
    e₁ ← snap_transition now e
    launch by to now (record e₁ { panic = none })

  -- The standby once a running transition has been snapped.
  unfoldable pub effective_standby : CueEngine → Option (Option ℕ)
  effective_standby e = elim e.transition [
    | none ↦ some e.standby
    | some tr ↦ standby_after e tr.to
  ]

  unfoldable pub apply_go : F64 → CueEngine → Option CueEngine
  unfolding manual_go effective_standby
  apply_go now e =
      effective_standby e
      >>= elim [ some to ↦ manual_go to to now e | none ↦ some (warn_event go_no_standby e) ]

  -- The cue that is active once a running transition has been snapped.
  abbrev pub effective_active : CueEngine → Option ℕ
  effective_active e = elim e.transition [ none ↦ e.active | some tr ↦ some tr.to ]

  -- The transition is that of the cue that is left, `ai`, not that of the target.
  unfoldable pub apply_back : F64 → CueEngine → Option CueEngine
  unfolding manual_go
  apply_back now e = elim (effective_active e) [
    | none ↦ some (warn_event back_no_active e)
    | some ai ↦ rfind_range (armed_at e.cues) ai >>= elim [
      | some prev ↦ manual_go ai prev now e
      | none ↦ some (warn_event (if ai == 0 then back_on_first else back_no_armed) e)
    ]
  ]

  unfoldable pub apply_goto : CueNumber → F64 → CueEngine → Option CueEngine
  unfolding manual_go
  apply_goto n now e =
      index_of e n
      >>= elim [ some to ↦ manual_go to to now e | none ↦ some (warn_event (goto_missing n) e) ]

  unfoldable pub apply_standby : CueNumber → CueEngine → Option CueEngine
  apply_standby n e = index_of e n >>= elim [
    | some i ↦ some (record e { standby = some i })
    | none ↦ some (warn_event (standby_missing n) e)
  ]

  unfoldable pub apply_panic : F32 → F64 → CueEngine → CueEngine
  apply_panic fade now e =
      let from = max32 (panic_black e now) (eval_transition e now).1 in
      emit (panic_started fade)
        (record e { panic = some (record { start_s = now; fade_s = fade; from = from }) })

  unfoldable pub apply_command : Pending → F64 → CueEngine → Option CueEngine
  unfolding apply_go apply_back apply_goto apply_standby apply_panic
  apply_command go now e = apply_go now e
  apply_command back now e = apply_back now e
  apply_command (goto n) now e = apply_goto n now e
  apply_command (standby n) now e = apply_standby n e
  apply_command (panic fade) now e = some (apply_panic fade now e)

  unfoldable pub apply_commands : List Pending → F64 → CueEngine → Option CueEngine
  unfolding apply_command
  apply_commands [] now e = some e
  apply_commands (cmd ∷ cmds) now e = apply_command cmd now e >>= apply_commands cmds now

  unfoldable pub apply_pending : F64 → CueEngine → Option CueEngine
  unfolding apply_commands
  apply_pending now e = apply_commands e.pending now (record e { pending = [] })

  -- A multiplier that is not finite or not positive is ignored; 1.0 is the absent entry.
  unfoldable pub set_speed_mult : ℕ → F32 → CueEngine → CueEngine
  set_speed_mult slice mult e =
      if is_finite32 mult && lt32 (nat32 0) mult
      then (let entry = if lt32 (abs32 (sub32 mult (nat32 1))) epsilon32 then none else some mult in
          record e { speed_mult = λ k. if k == slice then entry else e.speed_mult k })
      else e
