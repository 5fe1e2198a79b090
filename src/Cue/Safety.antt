-- ===== src/Cue/Safety.antt =====
-- crates/cue/src/lib.rs: the well-formed engines: every index that is stored lies in the cue list,
-- the scenes are aligned with the cues, and the cues are sorted.
pub mod Transitions
pub mod Commands
pub mod Follow
pub mod Triggers
pub mod Chase
pub mod Tick
pub mod Load
use videocuelist.Prelude.{
  sym, subst, ◌∙◌, ℕ, ◌≡◌, refl, Option, none, some, List, map, length, InRange, Returns,
  Returns-mono, arith,
}
use videocuelist.Core.Model.{Cue}
use videocuelist.Float.{Floats}
use videocuelist.Cue.Types.{CueEngine, SceneTarget}
use videocuelist.Cue.Search.{numbers}
use videocuelist.Cue.Search.Sorted.{IsSorted}
use videocuelist.Cue.Load.{resolve_scene}

module _ ⦃F : Floats⦄ where
  -- The cue that a running transition goes to.
  abbrev pub transition_to : CueEngine → Option ℕ
  transition_to e = elim e.transition [ none ↦ none | some tr ↦ some tr.to ]

  -- The engine plays the list `cs`, with every index in range.
  pub record Holds (cs : List Cue) (e : CueEngine) : Type 0 where
    pub cues_eq : e.cues ≡ cs
    pub targets_eq : e.targets ≡ map resolve_scene cs
    pub active_in : InRange (length cs) e.active
    pub standby_in : InRange (length cs) e.standby
    pub transition_in : InRange (length cs) (transition_to e)

  -- The invariant of the engine.
  abbrev pub IsWellFormed : CueEngine → Type 0
  IsWellFormed e = IsSorted (numbers e.cues) × Holds e.cues e

  -- The invariant reads five fields alone.
  pub Holds-same :
      {cs : List Cue} (e e' : CueEngine)
      → Holds cs e
      → e'.cues ≡ e.cues
      → e'.targets ≡ e.targets
      → e'.active ≡ e.active
      → e'.standby ≡ e.standby
      → e'.transition ≡ e.transition
      → Holds cs e'
  Holds-same {cs} e e' h c t a s r = record {
    cues_eq = c ∙ h.cues_eq;
    targets_eq = t ∙ h.targets_eq;
    active_in = rw a h.active_in;
    standby_in = rw s h.standby_in;
    transition_in = rw r h.transition_in;
  }

  pub IsWellFormed-of :
      (cs : List Cue) (e : CueEngine) → IsSorted (numbers cs) → Holds cs e → IsWellFormed e
  IsWellFormed-of cs e s h = (rw h.cues_eq s, subst (λ l. Holds l e) (sym h.cues_eq) h)
