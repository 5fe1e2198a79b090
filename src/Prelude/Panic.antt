-- ===== src/Prelude/Panic.antt =====
-- Code that may panic: `none` is a panic, such as an index out of range.
use mathlib.Core.Path.{◌≡◌, refl}
use mathlib.Core.Option.{Option, none, some}
use Prim.Native.Nat.{ℕ, zero, suc, ◌<◌}
use mathlib.Core.List.{List, [], ◌∷◌}
use native.Mathlib.Omega.{arith}
use mathlib.Core.Bool.{Bool, true, false}
use videocuelist.Prelude.Tests.{if◌then◌else◌}
use videocuelist.Prelude.Lists.{length, get_elem?}

infixl 5 ◌>>=◌ ◌>>◌
abbrev pub ◌>>=◌ {ℓ κ} : {A : Type ℓ} {B : Type κ} → Option A → (A → Option B) → Option B
none >>= f = none
some a >>= f = f a

abbrev pub ◌>>◌ {ℓ κ} : {A : Type ℓ} {B : Type κ} → Option A → Option B → Option B
m >> k = m >>= λ _. k

-- The code returns (it does not panic), and what it returns satisfies `P`.
abbrev pub Returns {ℓ} : {A : Type ℓ} → (A → Type 0) → Option A → Type 0
Returns P none = ⊥
Returns P (some a) = P a

pub Returns->>= {ℓ κ} :
    {A : Type ℓ} {B : Type κ} (Q : A → Type 0) (P : B → Type 0) (m : Option A) (f : A → Option B)
    → Returns Q m
    → ((a : A) → Q a → Returns P (f a))
    → Returns P (m >>= f)
Returns->>= Q P none f q k = absurd q
Returns->>= Q P (some a) f q k = k a q

pub Returns-mono {ℓ} :
    {A : Type ℓ} (Q : A → Type 0) (P : A → Type 0) (m : Option A)
    → ((a : A) → Q a → P a)
    → Returns Q m
    → Returns P m
Returns-mono Q P none k q = absurd q
Returns-mono Q P (some a) k q = k a q

pub Returns-eq {ℓ} :
    {A : Type ℓ} (P : A → Type 0) (m : Option A) → Returns P m → (a : A) × (m ≡ some a) × P a
Returns-eq P none q = absurd q
Returns-eq P (some a) q = (a, refl, q)

-- What is known of an index in range, as a postcondition of the read.
pub Returns-get_elem? :
    {A : Type 0} (xs : List A) (i : ℕ)
    → i < length xs
    → Returns (λ x. get_elem? xs i ≡ some x) (get_elem? xs i)
Returns-get_elem? [] i h = absurd (omega arith)
Returns-get_elem? (x ∷ xs) zero h = refl
Returns-get_elem? (x ∷ xs) (suc i) h = Returns-get_elem? xs i (omega arith)

-- The code does not panic.
abbrev pub Runs {ℓ} : {A : Type ℓ} → Option A → Type 0
Runs = Returns (λ x. Unit {0})

pub Runs-self : {A : Type 0} (m : Option A) → Runs m → Returns (λ a. m ≡ some a) m
Runs-self none r = r
Runs-self (some a) r = refl

-- Each branch of a test under its answer.
pub Returns-if {ℓ} :
    {A : Type ℓ} (P : A → Type 0) (b : Bool) (x y : Option A)
    → (b ≡ true → Returns P x)
    → (b ≡ false → Returns P y)
    → Returns P (if b then x else y)
Returns-if P true x y t f = t refl
Returns-if P false x y t f = f refl

-- If the code returns, what it returns satisfies `P`. With `Returns` it makes a total statement.
abbrev pub Ensures {ℓ} : {A : Type ℓ} → (A → Type 0) → Option A → Type 0
Ensures P none = Unit
Ensures P (some a) = P a

pub Ensures->>= {ℓ κ} :
    {A : Type ℓ} {B : Type κ} (Q : A → Type 0) (P : B → Type 0) (m : Option A) (f : A → Option B)
    → Ensures Q m
    → ((a : A) → Q a → Ensures P (f a))
    → Ensures P (m >>= f)
Ensures->>= Q P none f q k = tt
Ensures->>= Q P (some a) f q k = k a q

pub Ensures-self : {A : Type 0} (m : Option A) → Ensures (λ a. m ≡ some a) m
Ensures-self none = tt
Ensures-self (some a) = refl

pub Ensures-mono {ℓ} :
    {A : Type ℓ} (Q : A → Type 0) (P : A → Type 0) (m : Option A)
    → ((a : A) → Q a → P a)
    → Ensures Q m
    → Ensures P m
Ensures-mono Q P none k q = tt
Ensures-mono Q P (some a) k q = k a q

pub Ensures-if {ℓ} :
    {A : Type ℓ} (P : A → Type 0) (b : Bool) (x y : Option A)
    → (b ≡ true → Ensures P x)
    → (b ≡ false → Ensures P y)
    → Ensures P (if b then x else y)
Ensures-if P true x y t f = t refl
Ensures-if P false x y t f = f refl

pub Returns-Ensures {ℓ} :
    {A : Type ℓ} (Q P : A → Type 0) (m : Option A)
    → Returns Q m
    → Ensures P m
    → Returns (λ a. Q a × P a) m
Returns-Ensures Q P none r e = absurd r
Returns-Ensures Q P (some a) r e = (r, e)

pub Ensures-any {ℓ} : {A : Type ℓ} (m : Option A) → Ensures (λ x. Unit {0}) m
Ensures-any none = tt
Ensures-any (some a) = tt

pub Ensures-both {ℓ} :
    {A : Type ℓ} (Q R P : A → Type 0) (m : Option A)
    → ((a : A) → Q a → R a → P a)
    → Ensures Q m
    → Ensures R m
    → Ensures P m
Ensures-both Q R P none k q r = tt
Ensures-both Q R P (some a) k q r = k a q r

pub Returns-at {ℓ} :
    {A : Type ℓ} (P : A → Type 0) (m : Option A) {a : A} → m ≡ some a → Returns P m → P a
Returns-at P m q r = rw q at r

-- What is returned.
pub Returns-some {ℓ} :
    {A : Type ℓ} (P : A → Type 0) (m : Option A) → Returns P m → (a : A) × (m ≡ some a) × P a
Returns-some P none r = absurd r
Returns-some P (some a) r = (a, refl, r)
