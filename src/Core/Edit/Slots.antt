-- ===== src/Core/Edit/Slots.antt =====
-- crates/core/src/command.rs: the slot that the binary search of `CueAdd` gives.
use videocuelist.Prelude.{
  ◌⊎◌, ℕ, zero, suc, ◌+◌, ◌-◌, ◌/◌, ◌≤◌, ◌<◌, ◌≡◌, refl, some, List, [], ◌∷◌, arith, leb, ltb, ◌==◌,
  length, get_elem?, Returns, Returns->>=, Returns-get_elem?, Bool-cases, inl, inr, lt-get_elem?,
}
use videocuelist.Cue.Search.{halve}
use videocuelist.Cue.Search.Sorted.{IsSorted, IsSorted-get_elem?}
use videocuelist.Core.Edit.{Slot, taken, free, slot_of, search_slot}

-- A slot for a number: where it stands, or between the smaller and the greater ones.
abbrev pub FitsSlot : List ℕ → ℕ → Slot → Type 0
FitsSlot keys n (taken i) = get_elem? keys i ≡ some n
FitsSlot keys n (free i) =
    (i ≤ length keys)
    × ((j k : ℕ) → j < i → get_elem? keys j ≡ some k → k < n)
    × ((j k : ℕ) → i ≤ j → get_elem? keys j ≡ some k → n < k)

module _ (keys : List ℕ) (n : ℕ) (sorted : IsSorted keys) where
  -- The window of the search: the keys from its end on are greater than the number, and its first
  -- key is not, unless the window begins the list.
  record Window (base size : ℕ) : Type 0 where
    room : base + size ≤ length keys
    busy : 0 < size
    above : (i k : ℕ) → base + size ≤ i → get_elem? keys i ≡ some k → n < k
    below : (base ≡ 0) ⊎ ((k : ℕ) × (get_elem? keys base ≡ some k) × (k ≤ n))

  keep-Window :
      (base size k : ℕ)
      → Window base size
      → 1 < size
      → get_elem? keys (base + size / 2) ≡ some k
      → n < k
      → Window base (size - size / 2)
  keep-Window base size k s h r t = record {
    room = omega (arith, s.room);
    busy = omega arith;
    above = λ i j l e.
        omega (arith, IsSorted-get_elem? keys (base + size / 2) i sorted (omega arith) r e);
    below = s.below;
  }

  move-Window :
      (base size k : ℕ)
      → Window base size
      → 1 < size
      → get_elem? keys (base + size / 2) ≡ some k
      → k ≤ n
      → Window (base + size / 2) (size - size / 2)
  move-Window base size k s h r t = record {
    room = omega (arith, s.room);
    busy = omega arith;
    above = λ i j l e. s.above i j (omega arith) e;
    below = inr (k, r, t);
  }

  halve-Window :
      (fuel base size : ℕ)
      → size ≤ fuel
      → Window base size
      → Returns (λ b. Window b 1) (halve keys n fuel base size)
  unfolding halve
  halve-Window zero base size h s = absurd (omega (arith, s.busy))
  halve-Window (suc fuel) base size h s = elim (Bool-cases (leb size 1)) [
    | inl e ↦ rw e (let q : size ≡ 1 = ground (arith, s.busy) in rw q at s)
    | inr e ↦ rw e (
        Returns->>= (λ k. get_elem? keys (base + size / 2) ≡ some k) (λ b. Window b 1) _ _
          (Returns-get_elem? keys (base + size / 2) (ground (arith, s.room)))
          (λ k r. elim (Bool-cases (ltb n k)) [
            | inl t ↦ rw t (
                halve-Window fuel base (size - size / 2) (ground arith)
                  (keep-Window base size k s (ground arith) r (ground arith)))
            | inr t ↦ rw t (
                halve-Window fuel (base + size / 2) (size - size / 2) (ground arith)
                  (move-Window base size k s (ground arith) r (ground arith)))
          ]))
  ]

  -- A window whose first key is greater than the number begins the list.
  Window-first : (base k : ℕ) → Window base 1 → get_elem? keys base ≡ some k → n < k → base ≡ 0
  Window-first base k s e l = elim s.below [
    | inl z ↦ z
    | inr (j, f, m) ↦ ground (arith, e, f, m, l)
  ]

  -- At a window of one key the slot is at it, or beside it.
  Window-FitsSlot :
      (base k : ℕ)
      → Window base 1
      → get_elem? keys base ≡ some k
      → FitsSlot keys n (slot_of base k n)
  Window-FitsSlot base k s e = elim (Bool-cases (k == n)) [
    | inl t ↦ rw t (let q : k ≡ n = ground arith in rw (← q) e)
    | inr t ↦ elim (Bool-cases (ltb k n)) [
      | inl l ↦
          rw (t, l)
            (
              s.room,
              λ i j h f. ground (arith, IsSorted-get_elem? keys i base sorted (omega arith) f e),
              λ i j h f. s.above i j h f,
            )
      | inr l ↦
          rw (t, l)
            (
              omega (arith, s.room),
              λ i j h f. absurd (omega (arith, h, Window-first base k s e (ground (arith, l, t)))),
              λ i j h f. ground (arith, IsSorted-get_elem? keys base i sorted (omega arith) e f),
            )
    ]
  ]

-- On sorted numbers the search does not panic, and its slot fits.
pub search_slot-FitsSlot :
    (keys : List ℕ) (n : ℕ) → IsSorted keys → Returns (FitsSlot keys n) (search_slot keys n)
unfolding search_slot
search_slot-FitsSlot [] n s =
    (omega arith, λ i j h f. absurd (omega arith), λ i j h f. ground arith)
search_slot-FitsSlot (k ∷ ks) n s =
    Returns->>= (λ b. Window (k ∷ ks) n s b 1) (FitsSlot (k ∷ ks) n) _ _
      (halve-Window (k ∷ ks) n s (length (k ∷ ks)) 0 (length (k ∷ ks)) (omega arith) start)
      (λ b w.
        Returns->>= (λ k'. get_elem? (k ∷ ks) b ≡ some k') (FitsSlot (k ∷ ks) n) _ _
          (Returns-get_elem? (k ∷ ks) b (omega (arith, w.room)))
          (λ k' e. Window-FitsSlot (k ∷ ks) n s b k' w e))
  where
    start : Window (k ∷ ks) n s 0 (length (k ∷ ks))
    start = record {
      room = omega arith;
      busy = omega arith;
      above = λ i j l e. absurd (omega (arith, l, lt-get_elem? (k ∷ ks) i e));
      below = inl refl;
    }
