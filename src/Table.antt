-- ===== src/Table.antt =====
-- `HashMap` and `HashSet` of the standard library: an association list whose keys are told apart
-- by a Boolean test. The order of the list stands for the order of an iteration, which the
-- standard library leaves open.
use videocuelist.Prelude.{
  sym, ◌≤◌, ◌<◌, ◌≡◌, refl, subst, Bool, true, false, List, [], ◌∷◌, Option, none, some, length,
  arith, Bool-cases, inl, inr,
}

-- The test tells keys apart.
pub record IsEq {K : Type 0} (eq : K → K → Bool) : Type 0 where
  pub refl_test : (k : K) → eq k k ≡ true
  pub sound : (j k : K) → eq j k ≡ true → j ≡ k

module _ {K V : Type 0} where
  -- `retain`.
  abbrev pub retain : (K → V → Bool) → List (K × V) → List (K × V)
  retain p [] = []
  retain p ((j, v) ∷ m) = elim (p j v) [ true ↦ (j, v) ∷ retain p m | false ↦ retain p m ]

  -- Every entry of the table has the property.
  abbrev pub AllEntries : (K → V → Type 0) → List (K × V) → Type 0
  AllEntries P [] = Unit
  AllEntries P ((k, v) ∷ m) = P k v × AllEntries P m

  pub retain-AllEntries :
      (P : K → V → Type 0) (p : K → V → Bool) (m : List (K × V))
      → AllEntries P m
      → AllEntries P (retain p m)
  retain-AllEntries P p [] a = tt
  retain-AllEntries P p ((k, v) ∷ m) a = ground (arith, retain-AllEntries P p m a.1)

module _ {K V : Type 0} (eq : K → K → Bool) where
  -- `get`.
  abbrev pub lookup : K → List (K × V) → Option V
  lookup k [] = none
  lookup k ((j, v) ∷ m) = elim (eq k j) [ true ↦ some v | false ↦ lookup k m ]

  -- `remove`, without what it returns.
  abbrev pub erase : K → List (K × V) → List (K × V)
  erase k [] = []
  erase k ((j, v) ∷ m) = elim (eq k j) [ true ↦ erase k m | false ↦ (j, v) ∷ erase k m ]

  -- `insert`, without what it returns.
  abbrev pub insert : K → V → List (K × V) → List (K × V)
  insert k v m = (k, v) ∷ erase k m

  pub lookup-erase : (k : K) (m : List (K × V)) → lookup k (erase k m) ≡ none
  lookup-erase k [] = refl
  lookup-erase k ((j, v) ∷ m) = elim (Bool-cases (eq k j)) [
    | inl t ↦ ground (arith, t, lookup-erase k m)
    | inr f ↦ ground (arith, f, lookup-erase k m)
  ]

  pub lookup-insert :
      IsEq eq → (k : K) (v : V) (m : List (K × V)) → lookup k (insert k v m) ≡ some v
  lookup-insert l k v m = rw (l.refl_test k) refl

  pub lookup-erase_other :
      IsEq eq → (j k : K) (m : List (K × V)) → eq j k ≡ false → lookup j (erase k m) ≡ lookup j m
  lookup-erase_other l j k [] n = refl
  lookup-erase_other l j k ((i, v) ∷ m) n = elim (Bool-cases (eq k i)) [
    | inl t ↦
        let q = subst (λ z. eq j z ≡ false) (l.sound k i t) n in
        ground (arith, t, q, lookup-erase_other l j k m n)
    | inr f ↦ ground (arith, f, lookup-erase_other l j k m n)
  ]

  pub lookup-insert_other :
      IsEq eq
      → (j k : K) (v : V) (m : List (K × V)) → eq j k ≡ false
      → lookup j (insert k v m) ≡ lookup j m
  lookup-insert_other l j k v m n = rw n (lookup-erase_other l j k m n)

  pub length-erase : (k : K) (m : List (K × V)) → length (erase k m) ≤ length m
  length-erase k [] = omega arith
  length-erase k ((j, v) ∷ m) = ground (arith, length-erase k m)

  -- Erasing a key of the table makes it shorter.
  pub length-erase-some :
      (k : K) (m : List (K × V)) {v : V} → lookup k m ≡ some v → length (erase k m) < length m
  length-erase-some k [] e = ground arith
  length-erase-some k ((j, w) ∷ m) {v = v} e =
      ground (arith, length-erase k m, length-erase-some k m {v = v})

  pub erase-AllEntries :
      (P : K → V → Type 0) (k : K) (m : List (K × V)) → AllEntries P m → AllEntries P (erase k m)
  erase-AllEntries P k [] a = tt
  erase-AllEntries P k ((j, v) ∷ m) a = ground (arith, erase-AllEntries P k m a.1)

  pub lookup-AllEntries :
      (P : K → V → Type 0)
      → IsEq eq
      → (k : K) {v : V} (m : List (K × V)) → AllEntries P m
      → lookup k m ≡ some v
      → P k v
  lookup-AllEntries P l k [] a e = ground arith
  lookup-AllEntries P l k {v} ((j, w) ∷ m) a e = elim (Bool-cases (eq k j)) [
    | inl t ↦ subst (λ i. P i v) (sym (l.sound k j t)) (subst (P j) (ground (arith, t)) a.0)
    | inr f ↦ lookup-AllEntries P l k m a.1 (ground (arith, f))
  ]

  -- A key that is not in the table is not in what is retained of it.
  pub lookup-retain-none :
      (p : K → V → Bool) (k : K) (m : List (K × V))
      → lookup k m ≡ none
      → lookup k (retain p m) ≡ none
  lookup-retain-none p k [] e = refl
  lookup-retain-none p k ((j, v) ∷ m) e = ground (arith, lookup-retain-none p k m)
