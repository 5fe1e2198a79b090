-- ===== src/Cue/Safety/Load.antt =====
-- crates/cue/src/lib.rs: the indices of the engine through `load` and `load_hot`.
use videocuelist.Prelude.{
  true, false, ℕ, ◌<◌, ◌≡◌, refl, Bool, Option, none, some, List, [], ◌∷◌, length, InRange, Returns,
  Returns->>=, Returns-mono, Returns-get_elem?, arith, if◌then◌else◌, get_elem?, Runs,
}
use videocuelist.Core.Model.{Cue, CueNumber}
use videocuelist.Float.{Floats}
use videocuelist.Cue.Types.{CueEngine}
use videocuelist.Cue.Search.{armed_at, numbers, position, sort_cues}
use videocuelist.Cue.Search.Sorted.{IsSorted, sort_cues-IsSorted}
use videocuelist.Cue.Load.{
  load, number_at, find_number, keep_armed, kept_standby, place_at, settle, settle_idle,
  reposition_at, reposition, load_hot,
}
use videocuelist.Cue.Safety.{Holds, Holds-same, IsWellFormed, IsWellFormed-of}
use videocuelist.Cue.Safety.Transitions.{
  index_of-InRange, standby_after-InRange, armed_at-Runs, snap_transition-Holds,
}

pub position-InRange {ℓ} :
    {A : Type ℓ} (p : A → Bool) (xs : List A) → InRange (length xs) (position p xs)
position-InRange p [] = tt
position-InRange p (x ∷ xs) = ground (arith, position-InRange p xs)

module _ ⦃F : Floats⦄ where
  pub load-Holds : (cues : List Cue) (e : CueEngine) → Holds (sort_cues cues) (load cues e)
  unfolding load
  load-Holds cues e = record {
    cues_eq = refl;
    targets_eq = refl;
    active_in = tt;
    standby_in = position-InRange (λ c. c.armed) (sort_cues cues);
    transition_in = tt;
  }

  -- The empty engine and a cold load are well-formed, from any state before.
  pub load-IsWellFormed : (cues : List Cue) (e : CueEngine) → IsWellFormed (load cues e)
  load-IsWellFormed cues e =
      IsWellFormed-of (sort_cues cues) (load cues e) (sort_cues-IsSorted cues) (load-Holds cues e)

  number_at-Runs :
      (cs : List Cue) (e : CueEngine) (o : Option ℕ)
      → Holds cs e
      → InRange (length cs) o
      → Runs (number_at e o)
  unfolding number_at
  number_at-Runs cs e none h r = tt
  number_at-Runs cs e (some i) h r =
      Returns->>= (λ c. get_elem? e.cues i ≡ some c) (λ n. Unit) _ _
        (Returns-get_elem? e.cues i (rw h.cues_eq r)) (λ c q. tt)

module _ ⦃F : Floats⦄ (cs : List Cue) (sorted : IsSorted (numbers cs)) where
  find_number-InRange :
      (e : CueEngine) (n : Option CueNumber)
      → Holds cs e
      → Returns (InRange (length cs)) (find_number e n)
  unfolding find_number
  find_number-InRange e none h = tt
  find_number-InRange e (some n) h = index_of-InRange cs sorted e n h

  keep_armed-InRange :
      (e : CueEngine) (o : Option ℕ)
      → Holds cs e
      → InRange (length cs) o
      → Returns (InRange (length cs)) (keep_armed e o)
  unfolding keep_armed
  keep_armed-InRange e none h r = tt
  keep_armed-InRange e (some i) h r = rw h.cues_eq (
      Returns->>= (λ a. Unit) (InRange (length cs)) (armed_at cs i)
        (λ a. some (if a then some i else none)) (armed_at-Runs cs sorted i r)
        (elim [ true ↦ λ q. r | false ↦ λ q. tt ]))

  kept_standby-InRange :
      (e : CueEngine) (n : Option CueNumber)
      → Holds cs e
      → Returns (InRange (length cs)) (kept_standby e n)
  unfolding kept_standby
  kept_standby-InRange e n h =
      Returns->>= (InRange (length cs)) (InRange (length cs)) _ _ (find_number-InRange e n h)
        (λ o r. keep_armed-InRange e o h r)

  settle-Holds :
      (o : Option ℕ) (i : ℕ) (e : CueEngine)
      → Holds cs e
      → i < length cs
      → InRange (length cs) o
      → Returns (Holds cs) (settle o i e)
  unfolding settle
  settle-Holds (some j) i e h u r = ground arith
  settle-Holds none i e h u r =
      Returns->>= (InRange (length cs)) (Holds cs) _ _ (standby_after-InRange cs sorted e i h u)
        (λ sb v. ground arith)

  settle_idle-Holds :
      (o : Option ℕ) (e : CueEngine)
      → Holds cs e
      → InRange (length cs) o
      → Holds cs (settle_idle o e)
  unfolding settle_idle
  settle_idle-Holds (some j) e h r = ground arith
  settle_idle-Holds none e h r = h

  place_at-Holds :
      (old : CueEngine) (i : ℕ) (e : CueEngine)
      → Holds cs e
      → i < length cs
      → Holds cs (place_at old i e)
  unfolding place_at
  place_at-Holds old i e h u = ground arith

  reposition_at-Holds :
      (old : CueEngine) (s : Option CueNumber) (e : CueEngine) (o : Option ℕ)
      → Holds cs e
      → InRange (length cs) o
      → Returns (Holds cs) (reposition_at old s e o)
  unfolding reposition_at
  reposition_at-Holds old s e (some i) h r =
      let g = place_at-Holds old i e h r in
      Returns->>= (InRange (length cs)) (Holds cs) _ _ (kept_standby-InRange (place_at old i e) s g)
        (λ o u. settle-Holds o i (place_at old i e) g r u)
  reposition_at-Holds old s e none h r =
      Returns->>= (InRange (length cs)) (Holds cs) _ _ (kept_standby-InRange e s h)
        (λ o u. settle_idle-Holds o e h u)

  pub reposition-Holds :
      (old : CueEngine) (a s : Option CueNumber) (e : CueEngine)
      → Holds cs e
      → Returns (Holds cs) (reposition old a s e)
  unfolding reposition
  reposition-Holds old a s e h =
      Returns->>= (InRange (length cs)) (Holds cs) _ _ (find_number-InRange e a h)
        (λ o r. reposition_at-Holds old s e o h r)

module _ ⦃F : Floats⦄ where
  -- A hot load of any list into a well-formed engine does not panic, and gives a well-formed engine
  -- that plays the new list, sorted.
  pub load_hot-IsWellFormed :
      (cues : List Cue) (e : CueEngine)
      → IsWellFormed e
      → Returns (λ r. IsWellFormed r × (r.cues ≡ sort_cues cues)) (load_hot cues e)
  unfolding load_hot
  load_hot-IsWellFormed cues e (s, h) =
      Returns->>= (Holds e.cues) Loaded _ _ (snap_transition-Holds e.cues s e.last_now_s e h)
        (λ old g.
          Returns->>= (λ n. Unit) Loaded _ _ (number_at-Runs e.cues old old.active g g.active_in)
            (λ a q.
              Returns->>= (λ n. Unit) Loaded _ _
                (number_at-Runs e.cues old old.standby g g.standby_in)
                (λ b q'.
                  Returns-mono (Holds sorted) Loaded _
                    (λ r k. (IsWellFormed-of sorted r (sort_cues-IsSorted cues) k, k.cues_eq))
                    (reposition-Holds sorted (sort_cues-IsSorted cues) old a b _ (
                      Holds-same (load cues old) _ (load-Holds cues old) refl refl refl refl
                        refl)))))
    where
      sorted : List Cue
      sorted = sort_cues cues

      Loaded : CueEngine → Type 0
      Loaded r = IsWellFormed r × (r.cues ≡ sort_cues cues)
