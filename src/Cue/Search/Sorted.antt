-- ===== src/Cue/Search/Sorted.antt =====
-- crates/cue/src/lib.rs: the order of the cues that `load` sorts.
use mathlib.Core.List.{Perm}
use mathlib.Core.List.Perm
use videocuelist.Prelude.{
  ℕ, zero, suc, ◌≤◌, ◌≡◌, some, List, [], ◌∷◌, arith, leb, Bool-cases, inl, inr, get_elem?,
}
use videocuelist.Core.Model.{Cue}
use videocuelist.Float.{Floats}
use videocuelist.Cue.Search.{sort_cues, insert_cue, numbers}

abbrev pub AllGe : ℕ → List ℕ → Type 0
AllGe n [] = Unit
AllGe n (k ∷ ks) = (n ≤ k) × AllGe n ks

abbrev pub IsSorted : List ℕ → Type 0
IsSorted [] = Unit
IsSorted (k ∷ ks) = AllGe k ks × IsSorted ks

AllGe-mono : (m n : ℕ) (ks : List ℕ) → m ≤ n → AllGe n ks → AllGe m ks
AllGe-mono m n [] h a = tt
AllGe-mono m n (k ∷ ks) h a = (omega arith, AllGe-mono m n ks h a.1)

AllGe-get_elem? :
    (n : ℕ) (ks : List ℕ) (i : ℕ) {k : ℕ} → AllGe n ks → get_elem? ks i ≡ some k → n ≤ k
AllGe-get_elem? n [] i a e = ground arith
AllGe-get_elem? n (k ∷ ks) zero a e = ground arith
AllGe-get_elem? n (k ∷ ks) (suc i) a e = AllGe-get_elem? n ks i a.1 e

-- Sorted keys at two indices.
pub IsSorted-get_elem? :
    (ks : List ℕ) (i j : ℕ) {a b : ℕ}
    → IsSorted ks
    → i ≤ j
    → get_elem? ks i ≡ some a
    → get_elem? ks j ≡ some b
    → a ≤ b
IsSorted-get_elem? [] i j s l e f = ground arith
IsSorted-get_elem? (k ∷ ks) zero zero s l e f = ground arith
IsSorted-get_elem? (k ∷ ks) zero (suc j) {b = b} s l e f =
    let h : k ≤ b = AllGe-get_elem? k ks j s.0 f in ground arith
IsSorted-get_elem? (k ∷ ks) (suc i) zero s l e f = absurd (omega arith)
IsSorted-get_elem? (k ∷ ks) (suc i) (suc j) s l e f =
    IsSorted-get_elem? ks i j s.1 (omega arith) e f

module _ ⦃F : Floats⦄ where
  AllGe-insert_cue :
      (n : ℕ) (c : Cue) (ds : List Cue)
      → n ≤ c.number
      → AllGe n (numbers ds)
      → AllGe n (numbers (insert_cue c ds))
  unfolding insert_cue
  AllGe-insert_cue n c [] h a = (h, tt)
  AllGe-insert_cue n c (d ∷ ds) h a = ground (arith, AllGe-insert_cue n c ds h a.1)

  IsSorted-insert_cue :
      (c : Cue) (ds : List Cue) → IsSorted (numbers ds) → IsSorted (numbers (insert_cue c ds))
  unfolding insert_cue
  IsSorted-insert_cue c [] s = (tt, tt)
  IsSorted-insert_cue c (d ∷ ds) s = ground (
    arith,
    AllGe-mono c.number d.number (numbers ds),
    AllGe-insert_cue d.number c ds,
    IsSorted-insert_cue c ds s.1,
  )

  pub sort_cues-IsSorted : (cs : List Cue) → IsSorted (numbers (sort_cues cs))
  unfolding sort_cues
  sort_cues-IsSorted [] = tt
  sort_cues-IsSorted (c ∷ cs) = IsSorted-insert_cue c (sort_cues cs) (sort_cues-IsSorted cs)

  insert_cue-perm : (c : Cue) (ds : List Cue) → Perm (insert_cue c ds) (c ∷ ds)
  unfolding insert_cue
  insert_cue-perm c [] = Perm.refl (c ∷ [])
  insert_cue-perm c (d ∷ ds) = elim (Bool-cases (leb c.number d.number)) [
    | inl e ↦ rw e (Perm.refl (c ∷ d ∷ ds))
    | inr e ↦ rw e (Perm.trans (Perm.cons d (insert_cue-perm c ds)) (Perm.swap c d ds))
  ]

  -- The sort keeps the cues.
  sort_cues-perm : (cs : List Cue) → Perm (sort_cues cs) cs
  unfolding sort_cues
  sort_cues-perm [] = Perm.refl []
  sort_cues-perm (c ∷ cs) =
      Perm.trans (insert_cue-perm c (sort_cues cs)) (Perm.cons c (sort_cues-perm cs))

  -- The list that is loaded has the cues of the given one, in the order of their numbers.
  pub sort_cues-Sorts : (cs : List Cue) → Perm (sort_cues cs) cs × IsSorted (numbers (sort_cues cs))
  sort_cues-Sorts cs = (sort_cues-perm cs, sort_cues-IsSorted cs)
