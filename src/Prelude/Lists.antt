-- ===== src/Prelude/Lists.antt =====
-- Lists measured and indexed by native numbers, and the pure option operations of Rust.
use Prim.Native.Nat.{ℕ, zero, suc, ◌+◌, ◌<◌}
use mathlib.Core.Path.{◌≡◌, refl, ap}
use mathlib.Core.List.{List, [], ◌∷◌, ◌++◌, map}
use mathlib.Core.Option.{Option, none, some}
use mathlib.Core.Bool.{Bool, true, false, ◌&&◌, ◌||◌}
use native.Mathlib.Omega.{arith}
use videocuelist.Prelude.Tests.{Option-cases}
use mathlib.Core.Logic.{inl, inr}

module _ {ℓ} {A : Type ℓ} where
  abbrev pub length : List A → ℕ
  length [] = 0
  length (x ∷ xs) = suc (length xs)

  abbrev pub get_elem? : List A → ℕ → Option A
  get_elem? [] i = none
  get_elem? (x ∷ xs) zero = some x
  get_elem? (x ∷ xs) (suc i) = get_elem? xs i

  abbrev pub head? : List A → Option A
  head? [] = none
  head? (x ∷ xs) = some x

  -- `Iterator::last` and `slice::last`.
  abbrev pub last? : List A → Option A
  last? [] = none
  last? (x ∷ []) = some x
  last? (x ∷ y ∷ xs) = last? (y ∷ xs)

  abbrev pub any : (A → Bool) → List A → Bool
  any p [] = false
  any p (x ∷ xs) = p x || any p xs

  abbrev pub all : (A → Bool) → List A → Bool
  all p [] = true
  all p (x ∷ xs) = p x && all p xs

  -- `Vec::push`, `Vec::pop`, and `Vec::remove` at index 0.
  abbrev pub push_back : List A → A → List A
  push_back xs x = xs ++ (x ∷ [])

  abbrev pub pop_back : List A → Option (List A × A)
  pop_back [] = none
  pop_back (x ∷ xs) = elim (pop_back xs) [ none ↦ some ([], x) | some (ys, y) ↦ some (x ∷ ys, y) ]

  abbrev pub remove_first : List A → List A
  remove_first [] = []
  remove_first (x ∷ xs) = xs

  pub pop_back-push_back : (xs : List A) (x : A) → pop_back (push_back xs x) ≡ some (xs, x)
  pop_back-push_back [] x = refl
  pop_back-push_back (y ∷ xs) x = rw (pop_back-push_back xs x) refl

  pub pop_back-none : (xs : List A) → pop_back xs ≡ none → xs ≡ []
  pop_back-none [] e = refl
  pop_back-none (x ∷ xs) e = elim (Option-cases (pop_back xs)) [
    | inl n ↦ ground arith
    | inr (r, p) ↦ ground arith
  ]

  -- What `pop_back` takes off, `push_back` puts on again.
  pub push_back-pop_back :
      (xs : List A) {ys : List A} {x : A} → pop_back xs ≡ some (ys, x) → xs ≡ push_back ys x
  push_back-pop_back [] e = ground arith
  push_back-pop_back (y ∷ xs) e = elim (Option-cases (pop_back xs)) [
    | inl n ↦ grind (arith, pop_back-none xs n)
    | inr (r, p) ↦ ground (arith, push_back-pop_back xs p)
  ]

  pub last?-push_back : (xs : List A) (x : A) → last? (push_back xs x) ≡ some x
  last?-push_back [] x = refl
  last?-push_back (y ∷ []) x = refl
  last?-push_back (y ∷ z ∷ xs) x = last?-push_back (z ∷ xs) x

  pub push_back-last? :
      (xs : List A) (x : A) → last? xs ≡ some x → (ys : List A) × (xs ≡ push_back ys x)
  push_back-last? [] x e = ground arith
  push_back-last? (y ∷ []) x e = ([], ground arith)
  push_back-last? (y ∷ z ∷ xs) x e =
      let k = push_back-last? (z ∷ xs) x e in (y ∷ k.0, ap (λ l. y ∷ l) k.1)

  pub length-append : (xs ys : List A) → length (xs ++ ys) ≡ length xs + length ys
  length-append [] ys = omega arith
  length-append (x ∷ xs) ys = omega (arith, length-append xs ys)

  pub get_elem?-lt : (xs : List A) (i : ℕ) → i < length xs → (x : A) × (get_elem? xs i ≡ some x)
  get_elem?-lt [] i h = absurd (omega arith)
  get_elem?-lt (x ∷ xs) zero h = (x, refl)
  get_elem?-lt (x ∷ xs) (suc i) h = get_elem?-lt xs i (omega arith)

  pub lt-get_elem? : (xs : List A) (i : ℕ) {x : A} → get_elem? xs i ≡ some x → i < length xs
  lt-get_elem? [] i h = ground arith
  lt-get_elem? (x ∷ xs) zero h = omega arith
  lt-get_elem? (x ∷ xs) (suc i) h = omega (arith, lt-get_elem? xs i h)

-- An index below a bound, if there is one.
abbrev pub InRange : ℕ → Option ℕ → Type 0
InRange n none = Unit
InRange n (some i) = i < n

pub length-map {ℓ κ} :
    {A : Type ℓ} {B : Type κ} (f : A → B) (xs : List A) → length (map f xs) ≡ length xs
length-map f [] = refl
length-map f (x ∷ xs) = ap suc (length-map f xs)

-- `Option::filter`, `Option::or_else`, `Option::and_then`.
module _ {ℓ} {A : Type ℓ} where
  abbrev pub option_filter : (A → Bool) → Option A → Option A
  option_filter p none = none
  option_filter p (some a) = elim (p a) [ true ↦ some a | false ↦ none ]

  abbrev pub or_else : Option A → Option A → Option A
  or_else none o = o
  or_else (some a) o = some a

  abbrev pub and_then {κ} : {B : Type κ} → Option A → (A → Option B) → Option B
  and_then none f = none
  and_then (some a) f = f a

  abbrev pub unwrap_or : Option A → A → A
  unwrap_or none d = d
  unwrap_or (some a) d = a
