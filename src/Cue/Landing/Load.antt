-- ===== src/Cue/Landing/Load.antt =====
-- crates/cue/src/lib.rs: the place of the engine in the list of a hot load.
use videocuelist.Prelude.{
  Returns-at, subst, Ensures-both, zero, suc, [], ◌∷◌, ℕ, ◌≡◌, refl, ◌∙◌, sym, ap, Option, none,
  some, List, arith, get_elem?, Returns, Returns-mono, Returns-Ensures, Ensures, Ensures->>=,
  Ensures-mono, Ensures-any, Ensures-self, ◌>>=◌,
}
use videocuelist.Core.Model.{Cue, CueNumber}
use videocuelist.Float.{Floats}
use videocuelist.Cue.Types.{CueEngine, ActiveTransition}
use videocuelist.Cue.Search.{binary_search, numbers, sort_cues}
use videocuelist.Cue.Search.Sorted.{sort_cues-IsSorted}
use videocuelist.Cue.Search.Binary.{Finds, binary_search-Finds}
use videocuelist.Cue.Transitions.{activate, standby_after, index_of, snap_transition}
use videocuelist.Cue.Commands.{effective_active}
use videocuelist.Cue.Load.{
  place_at, settle, settle_idle, reposition_at, number_at, find_number, kept_standby, reposition,
  load, load_hot,
}
use videocuelist.Cue.Safety.{IsWellFormed}
use videocuelist.Cue.Safety.Load.{load_hot-IsWellFormed}
use videocuelist.Cue.Landing.{Same, snap_transition-Same}

module _ ⦃F : Floats⦄ where
  -- The engine `r` is at the cue that the search finds, and the rest stays.
  record Placed (a : Option CueNumber) (e r : CueEngine) : Type 0 where
    found : find_number e a ≡ some r.active
    same_cues : r.cues ≡ e.cues
    same_panic : r.panic ≡ e.panic
    same_transition : r.transition ≡ e.transition

  settle-Placed :
      (a : Option CueNumber) (o : Option ℕ) (i : ℕ) (e e' : CueEngine)
      → find_number e a ≡ some e'.active
      → e'.cues ≡ e.cues
      → e'.panic ≡ e.panic
      → e'.transition ≡ e.transition
      → Ensures (Placed a e) (settle o i e')
  unfolding settle
  settle-Placed a (some j) i e e' q c p t = record {
    found = q;
    same_cues = c;
    same_panic = p;
    same_transition = t;
  }
  settle-Placed a none i e e' q c p t =
      Ensures->>= {A = Option ℕ} (λ o. Unit) (Placed a e) (standby_after e' i)
        (λ sb. some (record e' { standby = sb })) (Ensures-any (standby_after e' i))
        (λ sb u. record { found = q; same_cues = c; same_panic = p; same_transition = t })

  settle_idle-Placed :
      (a : Option CueNumber) (o : Option ℕ) (e : CueEngine)
      → find_number e a ≡ some e.active
      → Placed a e (settle_idle o e)
  unfolding settle_idle
  settle_idle-Placed a (some j) e q = record {
    found = q;
    same_cues = refl;
    same_panic = refl;
    same_transition = refl;
  }
  settle_idle-Placed a none e q = record {
    found = q;
    same_cues = refl;
    same_panic = refl;
    same_transition = refl;
  }

  reposition_at-Placed :
      (old : CueEngine) (a s : Option CueNumber) (e : CueEngine) (o : Option ℕ)
      → e.active ≡ none
      → find_number e a ≡ some o
      → Ensures (Placed a e) (reposition_at old s e o)
  unfolding reposition_at place_at
  reposition_at-Placed old a s e (some i) z q =
      Ensures->>= (λ o. Unit) (Placed a e) (kept_standby (place_at old i e) s) _ (Ensures-any _)
        (λ o u. settle-Placed a o i e (place_at old i e) q refl refl refl)
  reposition_at-Placed old a s e none z q =
      Ensures->>= (λ o. Unit) (Placed a e) (kept_standby e s) _ (Ensures-any _)
        (λ o u. settle_idle-Placed a o e (q ∙ ap some (sym z)))

  reposition-Placed :
      (old : CueEngine) (a s : Option CueNumber) (e : CueEngine)
      → e.active ≡ none
      → Ensures (Placed a e) (reposition old a s e)
  unfolding reposition
  reposition-Placed old a s e z =
      Ensures->>= (λ o. find_number e a ≡ some o) (Placed a e) (find_number e a) _
        (Ensures-self (find_number e a)) (λ o q. reposition_at-Placed old a s e o z q)

  activate-at_rest :
      (idx : ℕ) (now : F.F64) (e : CueEngine)
      → Ensures (λ e'. e'.transition ≡ none) (activate idx now e)
  unfolding activate
  activate-at_rest idx now e = ground arith

  snap_transition-at_rest :
      (now : F.F64) (e : CueEngine) → Ensures (λ e'. e'.transition ≡ none) (snap_transition now e)
  unfolding snap_transition
  snap_transition-at_rest now e = snapped e.transition refl
    where
      snapped :
          (o : Option ActiveTransition)
          → e.transition ≡ o
          → Ensures {A = CueEngine}
              (λ e'. e'.transition ≡ none)
              (elim o [
                | none ↦ some e
                | some tr ↦ activate tr.to now (record e { transition = none })
              ])
      snapped none q = q
      snapped (some tr) q = activate-at_rest tr.to now _

  number_at-numbers :
      (cs : List Cue) (i n : ℕ)
      → get_elem? (numbers cs) i ≡ some n
      → (get_elem? cs i >>= λ c. some (some c.number)) ≡ some (some n)
  number_at-numbers [] i n q = cc
  number_at-numbers (c ∷ cs) zero n q = cc
  number_at-numbers (c ∷ cs) (suc i) n q = number_at-numbers cs i n q

  -- The place of the engine after a hot load, by its number.
  pub record Keeps (e r : CueEngine) : Type 0 where
    pub at_rest : r.transition ≡ none
    pub same_panic : r.panic ≡ e.panic
    pub by_number :
        (i n : ℕ)
        → effective_active e ≡ some i
        → get_elem? (numbers e.cues) i ≡ some n
        → Finds (numbers r.cues) n r.active
    pub nothing : effective_active e ≡ none → r.active ≡ none

  -- The snapped engine: at rest, at the same place.
  record Snapped (e old : CueEngine) : Type 0 where
    resting : old.transition ≡ none
    same : Same e old

  snap_transition-Snapped :
      (now : F.F64) (e : CueEngine) → Ensures (Snapped e) (snap_transition now e)
  snap_transition-Snapped now e =
      Ensures-both (λ old. old.transition ≡ none) (Same e) (Snapped e) (snap_transition now e)
        (λ old r s. record { resting = r; same = s }) (snap_transition-at_rest now e)
        (snap_transition-Same now e)

  active_at_rest : (e : CueEngine) → e.transition ≡ none → e.active ≡ effective_active e
  active_at_rest e q = ground arith

  -- The search for the number of the old active cue.
  Finds-number :
      (cues : List Cue) (e old fresh r : CueEngine) (a : Option CueNumber) (i n : ℕ)
      → Snapped e old
      → number_at old old.active ≡ some a
      → fresh.cues ≡ sort_cues cues
      → find_number fresh a ≡ some r.active
      → effective_active e ≡ some i
      → get_elem? (numbers e.cues) i ≡ some n
      → Finds (numbers (sort_cues cues)) n r.active
  unfolding number_at find_number index_of
  Finds-number cues e old fresh r a i n s q c l u v =
      Returns-at (Finds (numbers (sort_cues cues)) n) (binary_search (numbers (sort_cues cues)) n)
        (subst (λ cs. binary_search (numbers cs) n ≡ some r.active) c searched)
        (binary_search-Finds (numbers (sort_cues cues)) n (sort_cues-IsSorted cues))
    where
      at : old.active ≡ some i
      at = active_at_rest old s.resting ∙ s.same.same_place ∙ u

      numbered : some a ≡ some (some n)
      numbered =
          sym q
          ∙ ap (number_at old) at
          ∙ number_at-numbers old.cues i n
              (subst (λ cs. get_elem? (numbers cs) i ≡ some n) (sym s.same.same_cues) v)

      searched : find_number fresh (some n) ≡ some r.active
      searched = subst (λ z. find_number fresh z ≡ some r.active) {y = some n} (cc numbered) l

  Finds-nothing :
      (e old fresh r : CueEngine) (a : Option CueNumber)
      → Snapped e old
      → number_at old old.active ≡ some a
      → find_number fresh a ≡ some r.active
      → effective_active e ≡ none
      → r.active ≡ none
  unfolding number_at find_number
  Finds-nothing e old fresh r a s q l u =
      let none_found : find_number fresh none ≡ some r.active =
        subst (λ z. find_number fresh z ≡ some r.active) {y = none} (cc unnumbered) l in
      cc none_found
    where
      unnumbered : some a ≡ some none
      unnumbered = sym q ∙ ap (number_at old) (active_at_rest old s.resting ∙ s.same.same_place ∙ u)

  Keeps-of :
      (cues : List Cue) (e old fresh r : CueEngine) (a : Option CueNumber)
      → Snapped e old
      → number_at old old.active ≡ some a
      → fresh.cues ≡ sort_cues cues
      → fresh.panic ≡ old.panic
      → fresh.transition ≡ none
      → Placed a fresh r
      → Keeps e r
  Keeps-of cues e old fresh r a s q c p t l = record {
    at_rest = l.same_transition ∙ t;
    same_panic = l.same_panic ∙ p ∙ s.same.same_panic;
    by_number =
        λ i n u v. rw (l.same_cues ∙ c) (Finds-number cues e old fresh r a i n s q c l.found u v);
    nothing = Finds-nothing e old fresh r a s q l.found;
  }

  -- After a hot load no transition runs and the panic is kept; the cue at the programme, or the
  -- target of the transition that ran, is found again by its number if the new list has it, else
  -- nothing is at the programme.
  pub load_hot-Keeps :
      (cues : List Cue) (e : CueEngine) → IsWellFormed e → Returns (Keeps e) (load_hot cues e)
  unfolding load_hot load
  load_hot-Keeps cues e v =
      Returns-mono _ (Keeps e) (load_hot cues e) (λ r g. g.1)
        (Returns-Ensures _ (Keeps e) (load_hot cues e) (load_hot-IsWellFormed cues e v) kept)
    where
      kept : Ensures (Keeps e) (load_hot cues e)
      kept =
          Ensures->>= (Snapped e) (Keeps e) (snap_transition e.last_now_s e) _
            (snap_transition-Snapped e.last_now_s e)
            (λ old s.
              Ensures->>= (λ a. number_at old old.active ≡ some a) (Keeps e)
                (number_at old old.active) _ (Ensures-self (number_at old old.active))
                (λ a q.
                  Ensures->>= (λ b. Unit) (Keeps e) (number_at old old.standby) _ (Ensures-any _)
                    (λ b u.
                      Ensures-mono (Placed a _) (Keeps e) _
                        (λ r l. Keeps-of cues e old _ r a s q refl refl refl l)
                        (reposition-Placed old a b _ refl))))
