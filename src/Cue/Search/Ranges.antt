-- ===== src/Cue/Search/Ranges.antt =====
-- crates/cue/src/lib.rs: the results of the walks over a range of indices.
use videocuelist.Prelude.{
  ℕ, zero, suc, ◌+◌, ◌≤◌, ◌<◌, ◌≡◌, inl, inr, Bool, true, false, Option, none, some, arith, Runs,
  Runs-self, Returns, Returns->>=, Returns-mono, le-eq_or_lt,
}
use videocuelist.Cue.Search.{find_range, rfind_range}

-- The first index of the range `lo..hi` that passes the test; `none` if no index does.
abbrev pub FirstIn : (ℕ → Option Bool) → ℕ → ℕ → Option ℕ → Type 0
FirstIn p lo hi none = (k : ℕ) → lo ≤ k → k < hi → p k ≡ some false
FirstIn p lo hi (some j) =
    (lo ≤ j) × (j < hi) × (p j ≡ some true) × ((k : ℕ) → lo ≤ k → k < j → p k ≡ some false)

-- The last index below a bound that passes the test; `none` if no index does.
abbrev pub LastBelow : (ℕ → Option Bool) → ℕ → Option ℕ → Type 0
LastBelow p n none = (k : ℕ) → k < n → p k ≡ some false
LastBelow p n (some j) = (j < n) × (p j ≡ some true) × ((k : ℕ) → j < k → k < n → p k ≡ some false)

-- A range that begins with an index that fails.
FirstIn-skip :
    (p : ℕ → Option Bool) (i hi : ℕ) (o : Option ℕ)
    → p i ≡ some false
    → FirstIn p (i + 1) hi o
    → FirstIn p i hi o
FirstIn-skip p i hi none e f =
    λ k l u. elim (le-eq_or_lt i k l) [ inl q ↦ rw (← q) e | inr q ↦ f k (omega arith) u ]
FirstIn-skip p i hi (some j) e (l, u, t, f) = (
  omega arith,
  u,
  t,
  λ k a b. elim (le-eq_or_lt i k a) [ inl q ↦ rw (← q) e | inr q ↦ f k (omega arith) b ],
)

pub find_range-FirstIn :
    (p : ℕ → Option Bool) (n i hi : ℕ)
    → i + n ≡ hi
    → ((k : ℕ) → k < hi → Runs (p k))
    → Returns (FirstIn p i hi) (find_range p n i)
unfolding find_range
find_range-FirstIn p zero i hi h r = λ k l u. absurd (omega arith)
find_range-FirstIn p (suc n) i hi h r =
    Returns->>= (λ b. p i ≡ some b) (FirstIn p i hi) (p i) _ (Runs-self (p i) (r i (omega arith)))
      (elim [
        | true ↦ λ e. (omega arith, omega arith, e, λ k l u. absurd (omega arith))
        | false ↦ λ e.
            Returns-mono (FirstIn p (i + 1) hi) (FirstIn p i hi) (find_range p n (i + 1))
              (λ o. FirstIn-skip p i hi o e) (find_range-FirstIn p n (i + 1) hi (omega arith) r)
      ])

LastBelow-skip :
    (p : ℕ → Option Bool) (n : ℕ) (o : Option ℕ)
    → p n ≡ some false
    → LastBelow p n o
    → LastBelow p (suc n) o
LastBelow-skip p n none e f =
    λ k u. elim (le-eq_or_lt k n (omega arith)) [ inl q ↦ rw q e | inr q ↦ f k q ]
LastBelow-skip p n (some j) e (u, t, f) = (
  omega arith,
  t,
  λ k a b. elim (le-eq_or_lt k n (omega arith)) [ inl q ↦ rw q e | inr q ↦ f k a q ],
)

pub rfind_range-LastBelow :
    (p : ℕ → Option Bool) (n : ℕ)
    → ((k : ℕ) → k < n → Runs (p k))
    → Returns (LastBelow p n) (rfind_range p n)
unfolding rfind_range
rfind_range-LastBelow p zero r = λ k u. absurd (omega arith)
rfind_range-LastBelow p (suc n) r =
    Returns->>= (λ b. p n ≡ some b) (LastBelow p (suc n)) (p n) _
      (Runs-self (p n) (r n (omega arith)))
      (elim [
        | true ↦ λ e. (omega arith, e, λ k l u. absurd (omega arith))
        | false ↦ λ e.
            Returns-mono (LastBelow p n) (LastBelow p (suc n)) (rfind_range p n)
              (λ o. LastBelow-skip p n o e) (rfind_range-LastBelow p n (λ k u. r k (omega arith)))
      ])
