-- ===== src/Cue/Landing/Commands.antt =====
-- crates/cue/src/lib.rs: what each manual go does, on every branch.
use videocuelist.Prelude.{
  length-map, lt-get_elem?, ◌∙◌, Ensures-self, InRange, ℕ, ◌<◌, ◌≡◌, refl, Option, none, some,
  arith, length, Returns, Returns-mono, Returns->>=, Ensures, Ensures->>=, Ensures-mono,
  Returns-Ensures, Returns-at, Returns-some, ◌>>=◌, Ensures-any, Ensures-if, get_elem?, ap, sym,
  if◌then◌else◌, ◌==◌, ◌⊎◌, inl, inr,
}
use videocuelist.Core.Model.{Cue, CueNumber}
use videocuelist.Float.{Floats}
use videocuelist.Cue.Types.{
  CueEngine, ActiveTransition, follow_armed, go_no_standby, back_on_first, back_no_armed,
  back_no_active, goto_missing,
}
use videocuelist.Cue.Search.{numbers, armed_at, rfind_range}
use videocuelist.Cue.Search.Ranges.{LastBelow, rfind_range-LastBelow}
use videocuelist.Cue.Search.Binary.{Finds, binary_search-Finds}
use videocuelist.Cue.Transitions.{
  activate, snap_transition, is_manual, emit, next_armed, arm_follow, standby_after, warn_event,
  index_of,
}
use videocuelist.Cue.Commands.{
  manual_go, effective_active, effective_standby, apply_go, apply_back, apply_goto,
}
use videocuelist.Cue.Safety.{IsWellFormed, Holds}
use videocuelist.Cue.Safety.Transitions.{armed_at-Runs, snap_transition-Holds}
use videocuelist.Cue.Safety.Commands.{
  manual_go-Holds, effective_standby-InRange, effective_active-InRange,
}
use videocuelist.Cue.Landing.{Same, snap_transition-Same, launch-Lands}

module _ ⦃F : Floats⦄ where
  open F use {F64}

  -- A manual go plays the cue `to`, in the same list, and releases the panic.
  pub record Goes (to : ℕ) (e e' : CueEngine) : Type 0 where
    pub reaches : effective_active e' ≡ some to
    pub plays : e'.cues ≡ e.cues
    pub released : e'.panic ≡ none

  manual_go-Ensures :
      (by to : ℕ) (now : F64) (e : CueEngine) → Ensures (Goes to e) (manual_go by to now e)
  unfolding manual_go
  manual_go-Ensures by to now e =
      Ensures->>= (Same e) (Goes to e) _ _ (snap_transition-Same now e) (λ e₁ s.
        Ensures-mono _ (Goes to e) _
          (λ e' l. record {
            reaches = l.landed;
            plays = l.same_cues ∙ s.same_cues;
            released = l.same_panic;
          })
          (launch-Lands by to now _))

  pub manual_go-Goes :
      (by to : ℕ) (now : F64) (e : CueEngine)
      → IsWellFormed e
      → by < length e.cues
      → to < length e.cues
      → Returns (Goes to e) (manual_go by to now e)
  manual_go-Goes by to now e (s, h) ub ut =
      Returns-mono _ (Goes to e) _ (λ e' r. r.1)
        (Returns-Ensures (Holds e.cues) (Goes to e) _ (manual_go-Holds e.cues s by to now e h ub ut)
          (manual_go-Ensures by to now e))

  arm_follow-standby :
      (idx : ℕ) (e : CueEngine) → Ensures (λ e'. e'.standby ≡ e.standby) (arm_follow idx e)
  unfolding arm_follow
  arm_follow-standby idx e =
      let Goal : CueEngine → Type 0 = λ e'. e'.standby ≡ e.standby in
      Ensures->>= (λ c. Unit) Goal (get_elem? e.cues idx) _ (Ensures-any _)
        (λ c q.
          Ensures-if Goal (is_manual c.follow) (some e) _ (λ b. refl) (λ b. announced c e.standby))
    where
      announced :
          (c : Cue) (o : Option ℕ)
          → Ensures
              (λ e'. e'.standby ≡ e.standby)
              (elim o [
                | none ↦ some e
                | some sb ↦
                    get_elem? e.cues sb >>= λ d. some (emit (follow_armed c.number d.number) e)
              ])
      announced c none = refl
      announced c (some sb) =
          Ensures->>= (λ d. Unit) (λ e'. e'.standby ≡ e.standby) (get_elem? e.cues sb) _
            (Ensures-any _) (λ d q. refl)

  -- The standby of the engine after `activate` is that of the cue that is activated.
  activate-standby :
      (idx : ℕ) (now : F64) (e : CueEngine)
      → Ensures (λ e'. standby_after e idx ≡ some e'.standby) (activate idx now e)
  unfolding activate standby_after next_armed index_of
  activate-standby idx now e =
      let Goal : CueEngine → Type 0 = λ e'. standby_after e idx ≡ some e'.standby in
      Ensures->>= (λ t. Unit) Goal (get_elem? e.targets idx) _ (Ensures-any _)
        (λ t q.
          Ensures->>= (λ sb. standby_after e idx ≡ some sb) Goal (standby_after e idx) _
            (Ensures-self (standby_after e idx))
            (λ sb r.
              Ensures->>= (λ c. Unit) Goal (get_elem? e.cues idx) _ (Ensures-any _)
                (λ c k.
                  Ensures-mono _ Goal _ (λ e' w. r ∙ ap some (sym w)) (arm_follow-standby idx _))))

  -- The standby that a go takes is the one that a snap leaves.
  snap_transition-standby :
      (now : F64) (e : CueEngine)
      → Ensures (λ e₁. effective_standby e ≡ some e₁.standby) (snap_transition now e)
  unfolding snap_transition effective_standby standby_after next_armed index_of
  snap_transition-standby now e = snapped e.transition refl
    where
      snapped :
          (o : Option ActiveTransition)
          → e.transition ≡ o
          → Ensures
              (λ e₁.
                elim o [ none ↦ some e.standby | some tr ↦ standby_after e tr.to ]
                ≡ some e₁.standby)
              (elim o [
                | none ↦ some e
                | some tr ↦ activate tr.to now (record e { transition = none })
              ])
      snapped none q = refl
      snapped (some tr) q = activate-standby tr.to now (record e { transition = none })

  -- What GO does to an engine, by the standby that it takes.
  abbrev pub GoesOn : Option ℕ → CueEngine → CueEngine → Type 0
  GoesOn none e e' = e' ≡ warn_event go_no_standby e
  GoesOn (some to) e e' = Goes to e e'

  apply_go-GoesOn :
      (now : F64) (e : CueEngine) (o : Option ℕ)
      → IsWellFormed e
      → effective_standby e ≡ some o
      → Returns (GoesOn o e) (apply_go now e)
  unfolding apply_go
  apply_go-GoesOn now e o (s, h) q =
      let r : InRange (length e.cues) o =
        Returns-at (InRange (length e.cues)) (effective_standby e) q
          (effective_standby-InRange e.cues s e h) in
      rw q (goes o r)
    where
      goes :
          (o : Option ℕ)
          → InRange (length e.cues) o
          → Returns (GoesOn o e) (elim o [
            | some to ↦ manual_go to to now e
            | none ↦ some (warn_event go_no_standby e)
          ])
      goes none r = refl
      goes (some to) r = manual_go-Goes to to now e (s, h) r r

  -- GO of a well-formed engine plays the standby of the engine that a snap of the transition leaves,
  -- which does not panic, and releases the panic; if that engine has no standby it only adds a
  -- warning.
  pub apply_go-lands :
      (now : F64) (e : CueEngine)
      → IsWellFormed e
      → (e₁ : CueEngine) × (snap_transition now e ≡ some e₁)
        × Returns (GoesOn e₁.standby e) (apply_go now e)
  apply_go-lands now e (s, h) =
      let k = Returns-some _ (snap_transition now e) (
        Returns-Ensures (Holds e.cues) (λ e₁. effective_standby e ≡ some e₁.standby)
          (snap_transition now e) (snap_transition-Holds e.cues s now e h)
          (snap_transition-standby now e)) in
      (k.0, k.1, apply_go-GoesOn now e (k.0).standby (s, h) k.2.1)

  -- What BACK does from the place `o` of the engine.
  abbrev pub Backs : CueEngine → Option ℕ → CueEngine → Type 0
  Backs e none e' = e' ≡ warn_event back_no_active e
  Backs e (some at) e' =
      ((to : ℕ) × LastBelow (armed_at e.cues) at (some to) × Goes to e e')
      ⊎ (LastBelow (armed_at e.cues) at none
          × (e' ≡ warn_event (if at == 0 then back_on_first else back_no_armed) e))

  -- BACK of a well-formed engine plays the nearest armed cue before the place of the engine; with
  -- no armed cue before it, or with no cue at the programme, it only adds a warning.
  pub apply_back-lands :
      (now : F64) (e : CueEngine)
      → IsWellFormed e
      → Returns (Backs e (effective_active e)) (apply_back now e)
  unfolding apply_back
  apply_back-lands now e (s, h) = from (effective_active e) (effective_active-InRange e.cues s e h)
    where
      from :
          (o : Option ℕ)
          → InRange (length e.cues) o
          → Returns (Backs e o) (elim o [
            | none ↦ some (warn_event back_no_active e)
            | some ai ↦ rfind_range (armed_at e.cues) ai >>= elim [
              | some prev ↦ manual_go ai prev now e
              | none ↦ some (warn_event (if ai == 0 then back_on_first else back_no_armed) e)
            ]
          ])
      from none r = refl
      from (some ai) r =
          Returns->>= (LastBelow (armed_at e.cues) ai) (Backs e (some ai)) _ _
            (rfind_range-LastBelow (armed_at e.cues) ai
              (λ k u. armed_at-Runs e.cues s k (omega arith)))
            (elim [
              | none ↦ λ f. inr (f, refl)
              | some prev ↦ λ f.
                  Returns-mono (Goes prev e) _ _ (λ e' g. inl (prev, f, g))
                    (manual_go-Goes ai prev now e (s, h) r (omega (arith, f.0)))
            ])

  -- GOTO of a well-formed engine plays a cue of that number, armed or not, and releases the panic;
  -- if there is none it only adds a warning.
  pub apply_goto-lands :
      (n : CueNumber) (now : F64) (e : CueEngine)
      → IsWellFormed e
      → Returns
          (λ e'.
            ((to : ℕ) × Finds (numbers e.cues) n (some to) × Goes to e e')
            ⊎ (Finds (numbers e.cues) n none × (e' ≡ warn_event (goto_missing n) e)))
          (apply_goto n now e)
  unfolding apply_goto index_of
  apply_goto-lands n now e (s, h) =
      Returns->>= (Finds (numbers e.cues) n) _ _ _ (binary_search-Finds (numbers e.cues) n s)
        (elim [
          | none ↦ λ f. inr (f, refl)
          | some to ↦ λ f.
              let u : to < length e.cues = omega (
                arith,
                lt-get_elem? (numbers e.cues) to f,
                length-map (λ (c : Cue). c.number) e.cues,
              ) in
              Returns-mono (Goes to e) _ _ (λ e' g. inl (to, f, g))
                (manual_go-Goes to to now e (s, h) u u)
        ])
