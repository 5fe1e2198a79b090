-- ===== src/Core/Edit/Order.antt =====
-- crates/core/src/command.rs: the edits keep the cues in strict order of their numbers.
use videocuelist.Prelude.{
  ℕ, zero, suc, ◌≤◌, ◌<◌, ◌≡◌, refl, sym, ap, subst, Bool, true, List, [], ◌∷◌, some, arith, ltb,
  ◌==◌, ==_iff, get_elem?, Returns, Returns->>=, Bool-cases, inl, inr, if◌then◌else◌,
}
use videocuelist.Float.{Floats}
use videocuelist.Core.Model.{Cue}
use videocuelist.Core.Show.{Show}
use videocuelist.Cue.Search.{numbers}
use videocuelist.Cue.Search.Sorted.{AllGe, IsSorted}
use videocuelist.Core.Edit.{
  retain_list, update_first, update_at, insert_at, Slot, taken, free, search_slot, EditOp, put_slot,
  add_cue, with_state, apply_edit,
}
use videocuelist.Core.Edit.Slots.{FitsSlot, search_slot-FitsSlot}

-- Greater than all of them.
abbrev pub AllGt : ℕ → List ℕ → Type 0
AllGt n [] = Unit
AllGt n (k ∷ ks) = (n < k) × AllGt n ks

-- Strictly increasing: sorted, and no number twice.
abbrev pub IsStrict : List ℕ → Type 0
IsStrict [] = Unit
IsStrict (k ∷ ks) = AllGt k ks × IsStrict ks

AllGt-AllGe : (n : ℕ) (ks : List ℕ) → AllGt n ks → AllGe n ks
AllGt-AllGe n [] a = tt
AllGt-AllGe n (k ∷ ks) a = (omega arith, AllGt-AllGe n ks a.1)

IsStrict-IsSorted : (ks : List ℕ) → IsStrict ks → IsSorted ks
IsStrict-IsSorted [] s = tt
IsStrict-IsSorted (k ∷ ks) s = (AllGt-AllGe k ks s.0, IsStrict-IsSorted ks s.1)

AllGt-get_elem? :
    (n : ℕ) (ks : List ℕ) (i : ℕ) {k : ℕ} → AllGt n ks → get_elem? ks i ≡ some k → n < k
AllGt-get_elem? n [] i a e = ground arith
AllGt-get_elem? n (k ∷ ks) zero a e = ground arith
AllGt-get_elem? n (k ∷ ks) (suc i) a e = AllGt-get_elem? n ks i a.1 e

AllGt-mono : (m n : ℕ) (ks : List ℕ) → m ≤ n → AllGt n ks → AllGt m ks
AllGt-mono m n [] h a = tt
AllGt-mono m n (k ∷ ks) h a = (omega arith, AllGt-mono m n ks h a.1)

module _ ⦃F : Floats⦄ where
  -- The cue in its place, by a walk from the front: a reference for `CueAdd`.
  abbrev pub put_cue : Cue → List Cue → List Cue
  put_cue c [] = c ∷ []
  put_cue c (d ∷ ds) =
      let rest = put_cue c ds in
      if ltb c.number d.number
      then c ∷ d ∷ ds
      else if c.number == d.number
      then c ∷ ds
      else d ∷ rest

  put-taken :
      (c : Cue) (cs : List Cue) (i : ℕ)
      → IsStrict (numbers cs)
      → get_elem? (numbers cs) i ≡ some c.number
      → update_at i (λ old. c) cs ≡ put_cue c cs
  put-taken c [] i s e = ground arith
  put-taken c (d ∷ ds) zero s e = ground (arith, e)
  put-taken c (d ∷ ds) (suc i) s e =
      let l : d.number < c.number = AllGt-get_elem? d.number (numbers ds) i s.0 e in
      ground (arith, l, put-taken c ds i s.1 e)

  put-free :
      (c : Cue) (cs : List Cue) (i : ℕ)
      → FitsSlot (numbers cs) c.number (free i)
      → insert_at i c cs ≡ put_cue c cs
  put-free c [] zero f = refl
  put-free c [] (suc i) f = absurd (omega (arith, f.0))
  put-free c (d ∷ ds) zero f =
      let l : c.number < d.number = f.2 0 d.number (omega arith) refl in ground (arith, l)
  put-free c (d ∷ ds) (suc i) f =
      let l : d.number < c.number = f.1 0 d.number (omega arith) refl in
      let ih = put-free c ds i (
        omega (arith, f.0),
        λ j k h e. f.1 (suc j) k (omega arith) e,
        λ j k h e. f.2 (suc j) k (omega arith) e,
      ) in
      ground (arith, l, ih)

  put_slot-put_cue :
      (c : Cue) (cs : List Cue) (slot : Slot)
      → IsStrict (numbers cs)
      → FitsSlot (numbers cs) c.number slot
      → put_slot c cs slot ≡ put_cue c cs
  put_slot-put_cue c cs (taken i) s f = put-taken c cs i s f
  put_slot-put_cue c cs (free i) s f = put-free c cs i f

  -- On cues in strict order, adding a cue by the binary search does not panic and is adding it by a
  -- walk from the front: it stands in its place, instead of the cue of the same number if there is
  -- one.
  pub add_cue-put_cue :
      (c : Cue) (cs : List Cue)
      → IsStrict (numbers cs)
      → Returns (λ r. r ≡ put_cue c cs) (add_cue c cs)
  unfolding add_cue
  add_cue-put_cue c cs s =
      Returns->>= (FitsSlot (numbers cs) c.number) (λ r. r ≡ put_cue c cs)
        (search_slot (numbers cs) c.number) _
        (search_slot-FitsSlot (numbers cs) c.number (IsStrict-IsSorted (numbers cs) s))
        (λ slot f. put_slot-put_cue c cs slot s f)

  AllGt-put_cue :
      (n : ℕ) (c : Cue) (cs : List Cue)
      → n < c.number
      → AllGt n (numbers cs)
      → AllGt n (numbers (put_cue c cs))
  AllGt-put_cue n c [] l a = (l, tt)
  AllGt-put_cue n c (d ∷ ds) l a = ground (arith, AllGt-put_cue n c ds l a.1)

  IsStrict-put_cue :
      (c : Cue) (cs : List Cue) → IsStrict (numbers cs) → IsStrict (numbers (put_cue c cs))
  IsStrict-put_cue c [] s = (tt, tt)
  IsStrict-put_cue c (d ∷ ds) s = ground (
    arith,
    AllGt-mono c.number d.number (numbers ds),
    AllGt-put_cue d.number c ds,
    IsStrict-put_cue c ds s.1,
    ==_iff c.number d.number,
  )

  AllGt-retain :
      (n : ℕ) (p : Cue → Bool) (cs : List Cue)
      → AllGt n (numbers cs)
      → AllGt n (numbers (retain_list p cs))
  AllGt-retain n p [] a = tt
  AllGt-retain n p (c ∷ cs) a = ground (arith, AllGt-retain n p cs a.1)

  IsStrict-retain :
      (p : Cue → Bool) (cs : List Cue)
      → IsStrict (numbers cs)
      → IsStrict (numbers (retain_list p cs))
  IsStrict-retain p [] s = tt
  IsStrict-retain p (c ∷ cs) s =
      ground (arith, AllGt-retain c.number p cs s.0, IsStrict-retain p cs s.1)

  -- An update that keeps the number of what it changes keeps the numbers.
  numbers-update :
      (p : Cue → Bool) (f : Cue → Cue) (cs : List Cue)
      → ((c : Cue) → p c ≡ true → (f c).number ≡ c.number)
      → numbers (update_first p f cs) ≡ numbers cs
  numbers-update p f [] h = refl
  numbers-update p f (c ∷ cs) h = elim (Bool-cases (p c)) [
    | inl t ↦ rw t (ap (λ n. n ∷ numbers cs) (h c t))
    | inr t ↦ rw t (ap (λ ns. c.number ∷ ns) (numbers-update p f cs h))
  ]

  -- The cues of a show are in strict order of their numbers.
  abbrev pub IsOrdered : Show → Type 0
  IsOrdered s = IsStrict (numbers s.cues)

  add-IsOrdered :
      (c : Cue) (s : Show) → IsOrdered s → Returns IsOrdered (apply_edit (EditOp.cue_add c) s)
  unfolding apply_edit
  add-IsOrdered c s o =
      Returns->>= (λ r. r ≡ put_cue c s.cues) IsOrdered (add_cue c s.cues) _
        (add_cue-put_cue c s.cues o) (λ cues e. rw e (IsStrict-put_cue c s.cues o))

  -- No edit panics on a show whose cues are in strict order of their numbers, and the cues of the
  -- show that it gives are in strict order again.
  pub apply_edit-IsOrdered :
      (op : EditOp) (s : Show) → IsOrdered s → Returns IsOrdered (apply_edit op s)
  unfolding apply_edit
  apply_edit-IsOrdered (EditOp.cue_add c) s o = add-IsOrdered c s o
  apply_edit-IsOrdered (EditOp.cue_remove n) s o = IsStrict-retain _ s.cues o
  apply_edit-IsOrdered (EditOp.cue_update c) s o =
      subst IsStrict
        (sym (
          numbers-update (λ d. d.number == c.number) (λ d. c) s.cues
            (λ d e. ground (arith, e, ==_iff d.number c.number))))
        o
  apply_edit-IsOrdered (EditOp.cue_update_state n state) s o =
      subst IsStrict
        (sym (numbers-update (λ c. c.number == n) (with_state state) s.cues (λ c e. refl))) o
  apply_edit-IsOrdered _ s o = o
