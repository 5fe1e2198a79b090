-- ===== src/Cue/Safety/Commands.antt =====
-- crates/cue/src/lib.rs: the indices of the engine through the commands.
use videocuelist.Prelude.{
  ℕ, ◌<◌, Option, none, some, List, [], ◌∷◌, length, InRange, Returns, Returns->>=, arith,
  if◌then◌else◌, ◌==◌, ◌>>=◌,
}
use videocuelist.Core.Model.{Cue, CueNumber}
use videocuelist.Float.{Floats}
use videocuelist.Cue.Transitions.{warn_event, standby_after}
use videocuelist.Cue.Types.{
  back, back_no_active, back_on_first, back_no_armed, CueEngine, Pending, go, goto, standby, panic,
  ActiveTransition,
}
use videocuelist.Cue.Search.{numbers, armed_at, rfind_range}
use videocuelist.Cue.Search.Sorted.{IsSorted}
use videocuelist.Cue.Search.Ranges.{LastBelow, rfind_range-LastBelow}
use videocuelist.Cue.Commands.{
  manual_go, effective_standby, effective_active, apply_go, apply_back, apply_goto, apply_standby,
  apply_command, apply_commands, apply_pending,
}
use videocuelist.Cue.Safety.{Holds}
use videocuelist.Cue.Safety.Transitions.{
  index_of-InRange, standby_after-InRange, armed_at-Runs, snap_transition-Holds, launch-Holds,
}

module _ ⦃F : Floats⦄ (cs : List Cue) (sorted : IsSorted (numbers cs)) where
  open F use {F64}

  pub manual_go-Holds :
      (by to : ℕ) (now : F64) (e : CueEngine)
      → Holds cs e
      → by < length cs
      → to < length cs
      → Returns (Holds cs) (manual_go by to now e)
  unfolding manual_go
  manual_go-Holds by to now e h ub ut =
      Returns->>= (Holds cs) (Holds cs) _ _ (snap_transition-Holds cs sorted now e h)
        (λ e₁ h₁. launch-Holds cs sorted by to now _ (ground arith) ub ut)

  pub effective_standby-InRange :
      (e : CueEngine) → Holds cs e → Returns (InRange (length cs)) (effective_standby e)
  unfolding effective_standby
  effective_standby-InRange e h = by_transition e.transition h.transition_in
    where
      by_transition :
          (o : Option ActiveTransition)
          → InRange (length cs) (elim o [ none ↦ none | some tr ↦ some tr.to ])
          → Returns
              (InRange (length cs))
              (elim o [ none ↦ some e.standby | some tr ↦ standby_after e tr.to ])
      by_transition none r = h.standby_in
      by_transition (some tr) r = standby_after-InRange cs sorted e tr.to h r

  apply_go-Holds : (now : F64) (e : CueEngine) → Holds cs e → Returns (Holds cs) (apply_go now e)
  unfolding apply_go
  apply_go-Holds now e h =
      Returns->>= (InRange (length cs)) (Holds cs) _ _ (effective_standby-InRange e h)
        (elim [ none ↦ λ r. ground arith | some to ↦ λ r. manual_go-Holds to to now e h r r ])

  pub effective_active-InRange :
      (e : CueEngine) → Holds cs e → InRange (length cs) (effective_active e)
  effective_active-InRange e h = by_transition e.transition h.transition_in
    where
      by_transition :
          (o : Option ActiveTransition)
          → InRange (length cs) (elim o [ none ↦ none | some tr ↦ some tr.to ])
          → InRange (length cs) (elim o [ none ↦ e.active | some tr ↦ some tr.to ])
      by_transition none r = h.active_in
      by_transition (some tr) r = r

  apply_back-Holds :
      (now : F64) (e : CueEngine) → Holds cs e → Returns (Holds cs) (apply_back now e)
  unfolding apply_back
  apply_back-Holds now e h = from (effective_active e) (effective_active-InRange e h)
    where
      from :
          (o : Option ℕ)
          → InRange (length cs) o
          → Returns (Holds cs) (elim o [
            | none ↦ some (warn_event back_no_active e)
            | some ai ↦ rfind_range (armed_at e.cues) ai >>= elim [
              | some prev ↦ manual_go ai prev now e
              | none ↦ some (warn_event (if ai == 0 then back_on_first else back_no_armed) e)
            ]
          ])
      from none r = ground arith
      from (some ai) r =
          Returns->>= (LastBelow (armed_at cs) ai) (Holds cs) (rfind_range (armed_at e.cues) ai) _
            (rw h.cues_eq (
              rfind_range-LastBelow (armed_at cs) ai
                (λ k u. armed_at-Runs cs sorted k (omega arith))))
            (elim [
              | none ↦ λ f. ground arith
              | some prev ↦ λ f. manual_go-Holds ai prev now e h r (omega (arith, f.0))
            ])

  apply_goto-Holds :
      (n : CueNumber) (now : F64) (e : CueEngine)
      → Holds cs e
      → Returns (Holds cs) (apply_goto n now e)
  unfolding apply_goto
  apply_goto-Holds n now e h =
      Returns->>= (InRange (length cs)) (Holds cs) _ _ (index_of-InRange cs sorted e n h)
        (elim [ none ↦ λ r. ground arith | some to ↦ λ r. manual_go-Holds to to now e h r r ])

  apply_standby-Holds :
      (n : CueNumber) (e : CueEngine) → Holds cs e → Returns (Holds cs) (apply_standby n e)
  unfolding apply_standby
  apply_standby-Holds n e h =
      Returns->>= (InRange (length cs)) (Holds cs) _ _ (index_of-InRange cs sorted e n h)
        (elim [ none ↦ λ r. ground arith | some i ↦ λ r. ground arith ])

  pub apply_command-Holds :
      (cmd : Pending) (now : F64) (e : CueEngine)
      → Holds cs e
      → Returns (Holds cs) (apply_command cmd now e)
  unfolding apply_command
  apply_command-Holds go now e h = apply_go-Holds now e h
  apply_command-Holds back now e h = apply_back-Holds now e h
  apply_command-Holds (goto n) now e h = apply_goto-Holds n now e h
  apply_command-Holds (standby n) now e h = apply_standby-Holds n e h
  apply_command-Holds (panic fade) now e h = ground arith

  apply_commands-Holds :
      (cmds : List Pending) (now : F64) (e : CueEngine)
      → Holds cs e
      → Returns (Holds cs) (apply_commands cmds now e)
  unfolding apply_commands
  apply_commands-Holds [] now e h = h
  apply_commands-Holds (cmd ∷ cmds) now e h =
      Returns->>= (Holds cs) (Holds cs) _ _ (apply_command-Holds cmd now e h)
        (λ e₁ h₁. apply_commands-Holds cmds now e₁ h₁)

  pub apply_pending-Holds :
      (now : F64) (e : CueEngine) → Holds cs e → Returns (Holds cs) (apply_pending now e)
  unfolding apply_pending
  apply_pending-Holds now e h = apply_commands-Holds e.pending now _ (ground arith)
