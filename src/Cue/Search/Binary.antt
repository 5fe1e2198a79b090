-- ===== src/Cue/Search/Binary.antt =====
-- `slice::binary_search_by_key` as crates/cue/src/lib.rs calls it, against a search by its result.
use videocuelist.Prelude.{
  ◌⊎◌, ℕ, zero, suc, ◌+◌, ◌-◌, ◌/◌, ◌≤◌, ◌<◌, ◌≡◌, ◌≢◌, refl, Option, none, some, List, [], ◌∷◌,
  arith, leb, ltb, ◌==◌, length, get_elem?, Returns, Returns->>=, Returns-get_elem?, Bool-cases,
  inl, inr, le-eq_or_lt, max, if◌then◌else◌, lt-get_elem?,
}
use videocuelist.Cue.Search.{halve, binary_search}
use videocuelist.Cue.Search.Sorted.{IsSorted, IsSorted-get_elem?}

-- An index where the number stands, or no index where it stands.
abbrev pub Finds : List ℕ → ℕ → Option ℕ → Type 0
Finds keys n none = (i : ℕ) → get_elem? keys i ≢ some n
Finds keys n (some i) = get_elem? keys i ≡ some n

module _ (keys : List ℕ) (n : ℕ) (sorted : IsSorted keys) where
  -- The window of the search: it lies in the list, no index of the number lies at or above its
  -- end, and its first key is not above the number, unless the window begins the list.
  record Searching (base size : ℕ) : Type 0 where
    room : base + size ≤ length keys
    busy : 0 < size
    above : (i : ℕ) → get_elem? keys i ≡ some n → i < base + size
    below : (base ≡ 0) ⊎ ((k : ℕ) × (get_elem? keys base ≡ some k) × (k ≤ n))

  keep_base :
      (base size k : ℕ)
      → Searching base size
      → 1 < size
      → get_elem? keys (base + size / 2) ≡ some k
      → n < k
      → Searching base (size - size / 2)
  keep_base base size k s h r t = record {
    room = omega (arith, s.room);
    busy = omega arith;
    above = λ i e. elim (le-eq_or_lt (base + size / 2) (max i (base + size / 2)) (omega arith)) [
      | inl q ↦ elim (le-eq_or_lt i (base + size / 2) (omega arith)) [
        | inl u ↦
            omega (arith, IsSorted-get_elem? keys (base + size / 2) i sorted (omega arith) r e)
        | inr u ↦ omega arith
      ]
      | inr q ↦
          absurd
            (omega (arith, IsSorted-get_elem? keys (base + size / 2) i sorted (omega arith) r e))
    ];
    below = s.below;
  }

  move_base :
      (base size k : ℕ)
      → Searching base size
      → 1 < size
      → get_elem? keys (base + size / 2) ≡ some k
      → k ≤ n
      → Searching (base + size / 2) (size - size / 2)
  move_base base size k s h r t = record {
    room = omega (arith, s.room);
    busy = omega arith;
    above = λ i e. omega (arith, s.above i e);
    below = inr (k, r, t);
  }

  halve-Searching :
      (fuel base size : ℕ)
      → size ≤ fuel
      → Searching base size
      → Returns (λ b. Searching b 1) (halve keys n fuel base size)
  unfolding halve
  halve-Searching zero base size h s = absurd (omega (arith, s.busy))
  halve-Searching (suc fuel) base size h s = elim (Bool-cases (leb size 1)) [
    | inl e ↦ rw e (let q : size ≡ 1 = ground (arith, s.busy) in rw q at s)
    | inr e ↦ rw e (
        Returns->>= (λ k. get_elem? keys (base + size / 2) ≡ some k) (λ b. Searching b 1) _ _
          (Returns-get_elem? keys (base + size / 2) (ground (arith, s.room)))
          (λ k r. elim (Bool-cases (ltb n k)) [
            | inl t ↦ rw t (
                halve-Searching fuel base (size - size / 2) (ground arith)
                  (keep_base base size k s (ground arith) r (ground arith)))
            | inr t ↦ rw t (
                halve-Searching fuel (base + size / 2) (size - size / 2) (ground arith)
                  (move_base base size k s (ground arith) r (ground arith)))
          ]))
  ]

  -- At a window of one index the number stands there or nowhere.
  Searching-Finds :
      (base k : ℕ)
      → Searching base 1
      → get_elem? keys base ≡ some k
      → Finds keys n (if k == n then some base else none)
  Searching-Finds base k s e = elim (Bool-cases (k == n)) [
    | inl t ↦ rw t (let q : k ≡ n = ground arith in rw (← q) e)
    | inr t ↦ rw t (λ i f. elim (le-eq_or_lt i base (omega (arith, s.above i f))) [
      | inl u ↦ ground (arith, rw u at f)
      | inr u ↦ elim s.below [
        | inl z ↦ omega arith
        | inr (k', e', l) ↦ ground (arith, IsSorted-get_elem? keys i base sorted (omega arith) f e)
      ]
    ])
  ]

-- On sorted numbers the binary search does not panic and returns an index of the number, or none if
-- there is no such index.
pub binary_search-Finds :
    (keys : List ℕ) (n : ℕ) → IsSorted keys → Returns (Finds keys n) (binary_search keys n)
unfolding binary_search
binary_search-Finds [] n s = λ i e. cc
binary_search-Finds (k ∷ ks) n s =
    Returns->>= (λ b. Searching (k ∷ ks) n s b 1) (Finds (k ∷ ks) n) _ _
      (halve-Searching (k ∷ ks) n s (length (k ∷ ks)) 0 (length (k ∷ ks)) (omega arith) start)
      (λ b w.
        Returns->>= (λ k'. get_elem? (k ∷ ks) b ≡ some k') (Finds (k ∷ ks) n) _ _
          (Returns-get_elem? (k ∷ ks) b (omega (arith, w.room)))
          (λ k' e. Searching-Finds (k ∷ ks) n s b k' w e))
  where
    start : Searching (k ∷ ks) n s 0 (length (k ∷ ks))
    start = record {
      room = omega arith;
      busy = omega arith;
      above = λ i e. omega (arith, lt-get_elem? (k ∷ ks) i e);
      below = inl refl;
    }
