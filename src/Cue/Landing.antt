-- ===== src/Cue/Landing.antt =====
-- crates/cue/src/lib.rs: the landing of a go, on the programme or at the end of the transition
-- that it starts.
pub mod Commands
pub mod Chase
pub mod Load
pub mod Standby
pub mod Frames
use videocuelist.Prelude.{
  ℕ, ◌≡◌, Option, none, some, arith, ◌∙◌, refl, ◌||◌, Ensures, Ensures->>=, Ensures-mono,
  Ensures-if, Ensures-any, get_elem?, Option-cases, inl, inr,
}
use videocuelist.Core.Model.{Transition}
use videocuelist.Float.{Floats, nat32}
use videocuelist.Cue.Types.{ActiveTransition, CueEngine}
use videocuelist.Cue.Transitions.{is_cut, activate, start_go, snap_transition, launch}
use videocuelist.Cue.Commands.{effective_active}

module _ ⦃F : Floats⦄ where
  open F use {F64}

  -- A go to the cue `to`: the cue is active or is the target of the transition, and the cue list
  -- and the panic are as before.
  pub record Lands (to : ℕ) (e e' : CueEngine) : Type 0 where
    pub landed : effective_active e' ≡ some to
    pub same_cues : e'.cues ≡ e.cues
    pub same_panic : e'.panic ≡ e.panic

  -- `Lands` reads the cues and the panic of the state before.
  pub Lands-from :
      {to : ℕ} {e₀ e e' : CueEngine}
      → e.cues ≡ e₀.cues
      → e.panic ≡ e₀.panic
      → Lands to e e'
      → Lands to e₀ e'
  Lands-from c p l = record {
    landed = l.landed;
    same_cues = l.same_cues ∙ c;
    same_panic = l.same_panic ∙ p;
  }

  pub activate-Lands :
      (idx : ℕ) (now : F64) (e : CueEngine) → Ensures (Lands idx e) (activate idx now e)
  unfolding activate
  activate-Lands idx now e = ground arith

  pub start_go-Lands :
      (to : ℕ) (tr : Transition) (now : F64) (e : CueEngine)
      → Ensures (Lands to e) (start_go to tr now e)
  unfolding start_go
  start_go-Lands to tr now e =
      Ensures->>= (λ c. Unit) (Lands to e) (get_elem? e.cues to) _ (Ensures-any _)
        (λ c q.
          Ensures-if (Lands to e) (is_cut tr.kind || F.le32 tr.dur_s (nat32 0)) _ _
            (λ d.
              Ensures-mono _ (Lands to e) _ (λ e' l. Lands-from refl refl l)
                (activate-Lands to now _))
            (λ d. record { landed = refl; same_cues = refl; same_panic = refl }))

  -- A snap keeps the cue that the engine is at.
  pub record Same (e e' : CueEngine) : Type 0 where
    pub same_place : effective_active e' ≡ effective_active e
    pub same_cues : e'.cues ≡ e.cues
    pub same_panic : e'.panic ≡ e.panic

  pub snap_transition-Same : (now : F64) (e : CueEngine) → Ensures (Same e) (snap_transition now e)
  unfolding snap_transition
  snap_transition-Same now e = snapped e.transition refl
    where
      snapped :
          (o : Option ActiveTransition)
          → e.transition ≡ o
          → Ensures (Same e) (elim o [
            | none ↦ some e
            | some tr ↦ activate tr.to now (record e { transition = none })
          ])
      snapped none q = record { same_place = refl; same_cues = refl; same_panic = refl }
      snapped (some tr) q =
          Ensures-mono _ (Same e) _
            (λ e' l. record {
              same_place = ground (arith, l.landed);
              same_cues = l.same_cues;
              same_panic = l.same_panic;
            })
            (activate-Lands tr.to now _)

  pub launch-Lands :
      (by to : ℕ) (now : F64) (e : CueEngine) → Ensures (Lands to e) (launch by to now e)
  unfolding launch
  launch-Lands by to now e =
      Ensures->>= (λ c. Unit) (Lands to e) (get_elem? e.cues by) _ (Ensures-any _)
        (λ c q. start_go-Lands to c.transition now e)
