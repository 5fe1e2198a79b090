-- ===== src/Cue/Safety/Transitions.antt =====
-- crates/cue/src/lib.rs: the indices of the engine through the start and the end of a transition.
use videocuelist.Prelude.{
  inr, inl, ◌||◌, Bool-cases, ◌>>=◌, ℕ, ◌+◌, ◌-◌, ◌<◌, ◌≡◌, Option, none, some, List, length,
  InRange, Returns, Returns->>=, Returns-mono, Returns-get_elem?, Runs, arith, get_elem?,
  length-map, lt-get_elem?,
}
use videocuelist.Core.Model.{Cue, Transition}
use videocuelist.Float.{nat32, Floats}
use videocuelist.Cue.Types.{follow_armed, ActiveTransition, CueEngine}
use videocuelist.Cue.Search.{numbers, armed_at}
use videocuelist.Cue.Search.Sorted.{IsSorted}
use videocuelist.Cue.Search.Ranges.{FirstIn, find_range-FirstIn}
use videocuelist.Cue.Search.Binary.{Finds, binary_search-Finds}
use videocuelist.Cue.Load.{resolve_scene}
use videocuelist.Cue.Transitions.{
  is_manual, is_cut, emit, index_of, next_armed, standby_after, arm_follow, activate, start_go,
  snap_transition, launch,
}
use videocuelist.Cue.Safety.{Holds}

module _ ⦃F : Floats⦄ (cs : List Cue) (sorted : IsSorted (numbers cs)) where
  open F use {F64}

  pub index_of-InRange :
      (e : CueEngine) (n : ℕ) → Holds cs e → Returns (InRange (length cs)) (index_of e n)
  unfolding index_of
  index_of-InRange e n h = rw h.cues_eq (
      Returns-mono (Finds (numbers cs) n) (InRange (length cs)) _
        (elim [
          | none ↦ λ f. tt
          | some i ↦
              λ f. omega (arith, lt-get_elem? (numbers cs) i f, length-map (λ c. c.number) cs)
        ])
        (binary_search-Finds (numbers cs) n sorted))

  pub armed_at-Runs : (k : ℕ) → k < length cs → Runs (armed_at cs k)
  armed_at-Runs k u =
      Returns->>= (λ c. get_elem? cs k ≡ some c) (λ b. Unit) _ _ (Returns-get_elem? cs k u)
        (λ c e. tt)

  pub next_armed-FirstIn :
      (e : CueEngine) (idx : ℕ)
      → Holds cs e
      → idx < length cs
      → Returns (FirstIn (armed_at cs) (idx + 1) (length cs)) (next_armed e idx)
  unfolding next_armed
  next_armed-FirstIn e idx h u = rw h.cues_eq (
      find_range-FirstIn (armed_at cs) (length cs - (idx + 1)) (idx + 1) (length cs) (omega arith)
        armed_at-Runs)

  FirstIn-InRange :
      (idx : ℕ) (o : Option ℕ)
      → FirstIn (armed_at cs) (idx + 1) (length cs) o
      → InRange (length cs) o
  FirstIn-InRange idx none f = tt
  FirstIn-InRange idx (some j) f = f.1

  next_armed-InRange :
      (e : CueEngine) (idx : ℕ)
      → Holds cs e
      → idx < length cs
      → Returns (InRange (length cs)) (next_armed e idx)
  next_armed-InRange e idx h u =
      Returns-mono _ (InRange (length cs)) (next_armed e idx) (FirstIn-InRange idx)
        (next_armed-FirstIn e idx h u)

  pub standby_after-InRange :
      (e : CueEngine) (idx : ℕ)
      → Holds cs e
      → idx < length cs
      → Returns (InRange (length cs)) (standby_after e idx)
  unfolding standby_after
  standby_after-InRange e idx h u =
      Returns->>= (λ c. get_elem? e.cues idx ≡ some c) (InRange (length cs)) _ _
        (Returns-get_elem? e.cues idx (rw h.cues_eq u)) (λ c q. by_target c.goto_after)
    where
      found :
          (o : Option ℕ)
          → InRange (length cs) o
          → Returns
              (InRange (length cs))
              (elim o [ none ↦ next_armed e idx | some i ↦ some (some i) ])
      found none r = next_armed-InRange e idx h u
      found (some i) r = r

      by_target :
          (g : Option ℕ)
          → Returns (InRange (length cs)) (elim g [
            | none ↦ next_armed e idx
            | some n ↦ index_of e n >>= elim [ none ↦ next_armed e idx | some i ↦ some (some i) ]
          ])
      by_target none = next_armed-InRange e idx h u
      by_target (some n) =
          Returns->>= (InRange (length cs)) (InRange (length cs)) _ _ (index_of-InRange e n h) found

  arm_follow-Holds :
      (idx : ℕ) (e : CueEngine)
      → Holds cs e
      → idx < length cs
      → Returns (Holds cs) (arm_follow idx e)
  unfolding arm_follow
  arm_follow-Holds idx e h u =
      Returns->>= (λ c. get_elem? e.cues idx ≡ some c) (Holds cs) _ _
        (Returns-get_elem? e.cues idx (rw h.cues_eq u))
        (λ c q. elim (Bool-cases (is_manual c.follow)) [
          | inl m ↦ rw m h
          | inr m ↦ rw m (armed c e.standby h.standby_in)
        ])
    where
      armed :
          (c : Cue) (o : Option ℕ)
          → InRange (length cs) o
          → Returns (Holds cs) (elim o [
            | none ↦ some e
            | some sb ↦ get_elem? e.cues sb >>= λ d. some (emit (follow_armed c.number d.number) e)
          ])
      armed c none r = h
      armed c (some sb) r =
          Returns->>= (λ c. get_elem? e.cues sb ≡ some c) (Holds cs) _ _
            (Returns-get_elem? e.cues sb (rw h.cues_eq r)) (λ d q. ground arith)

  pub activate-Holds :
      (idx : ℕ) (now : F64) (e : CueEngine)
      → Holds cs e
      → idx < length cs
      → Returns (Holds cs) (activate idx now e)
  unfolding activate
  activate-Holds idx now e h u =
      Returns->>= (λ t. get_elem? e.targets idx ≡ some t) (Holds cs) _ _
        (Returns-get_elem? e.targets idx
          (rw h.targets_eq (omega (arith, length-map resolve_scene cs))))
        (λ t q.
          Returns->>= (InRange (length cs)) (Holds cs) _ _
            (standby_after-InRange _ idx
              (record {
                cues_eq = h.cues_eq;
                targets_eq = h.targets_eq;
                active_in = u;
                standby_in = h.standby_in;
                transition_in = tt;
              })
              u)
            (λ sb r.
              Returns->>= (λ c. get_elem? e.cues idx ≡ some c) (Holds cs) _ _
                (Returns-get_elem? e.cues idx (rw h.cues_eq u))
                (λ c q'.
                  arm_follow-Holds idx _
                    (record {
                      cues_eq = h.cues_eq;
                      targets_eq = h.targets_eq;
                      active_in = u;
                      standby_in = r;
                      transition_in = tt;
                    })
                    u)))

  pub start_go-Holds :
      (to : ℕ) (tr : Transition) (now : F64) (e : CueEngine)
      → Holds cs e
      → to < length cs
      → Returns (Holds cs) (start_go to tr now e)
  unfolding start_go
  start_go-Holds to tr now e h u =
      Returns->>= (λ c. get_elem? e.cues to ≡ some c) (Holds cs) _ _
        (Returns-get_elem? e.cues to (rw h.cues_eq u))
        (λ c q. elim (Bool-cases (is_cut tr.kind || F.le32 tr.dur_s (nat32 0))) [
          | inl m ↦ rw m (
              activate-Holds to now _
                (record {
                  cues_eq = h.cues_eq;
                  targets_eq = h.targets_eq;
                  active_in = h.active_in;
                  standby_in = h.standby_in;
                  transition_in = h.transition_in;
                })
                u)
          | inr m ↦ rw m (record {
            cues_eq = h.cues_eq;
            targets_eq = h.targets_eq;
            active_in = h.active_in;
            standby_in = h.standby_in;
            transition_in = u;
          })
        ])

  pub snap_transition-Holds :
      (now : F64) (e : CueEngine) → Holds cs e → Returns (Holds cs) (snap_transition now e)
  unfolding snap_transition
  snap_transition-Holds now e h = snapped e.transition h.transition_in
    where
      snapped :
          (o : Option ActiveTransition)
          → InRange (length cs) (elim o [ none ↦ none | some tr ↦ some tr.to ])
          → Returns (Holds cs) (elim o [
            | none ↦ some e
            | some tr ↦ activate tr.to now (record e { transition = none })
          ])
      snapped none r = h
      snapped (some tr) r =
          activate-Holds tr.to now _
            (record {
              cues_eq = h.cues_eq;
              targets_eq = h.targets_eq;
              active_in = h.active_in;
              standby_in = h.standby_in;
              transition_in = tt;
            })
            r

  pub launch-Holds :
      (by to : ℕ) (now : F64) (e : CueEngine)
      → Holds cs e
      → by < length cs
      → to < length cs
      → Returns (Holds cs) (launch by to now e)
  unfolding launch
  launch-Holds by to now e h ub ut =
      Returns->>= (λ c. get_elem? e.cues by ≡ some c) (Holds cs) _ _
        (Returns-get_elem? e.cues by (rw h.cues_eq ub))
        (λ c q. start_go-Holds to c.transition now e h ut)
