-- ===== src/Cue/Search.antt =====
-- crates/cue/src/lib.rs: the searches of the engine: the sort and the binary search by number, and
-- the walks to the next or the previous armed cue. A step that reads a cue out of range panics.
pub mod Ranges
pub mod Sorted
pub mod Binary
use videocuelist.Prelude.{
  ℕ, zero, suc, ◌+◌, ◌-◌, ◌/◌, Bool, true, false, Option, none, some, List, [], ◌∷◌, map, leb, ltb,
  ◌==◌, if◌then◌else◌, length, get_elem?, ◌>>=◌,
}
use videocuelist.Core.Model.{CueNumber, Cue}
use videocuelist.Float.{Floats}

-- `Iterator::position`.
abbrev pub position {ℓ} : {A : Type ℓ} → (A → Bool) → List A → Option ℕ
position p [] = none
position p (x ∷ xs) = if p x then some 0 else (position p xs >>= λ i. some (suc i))

-- `(i..i + n).find(..)`, with a test that may panic.
unfoldable pub find_range : (ℕ → Option Bool) → ℕ → ℕ → Option (Option ℕ)
find_range p zero i = some none
find_range p (suc n) i = p i >>= elim [ true ↦ some (some i) | false ↦ find_range p n (i + 1) ]

-- `(0..n).rev().find(..)`.
unfoldable pub rfind_range : (ℕ → Option Bool) → ℕ → Option (Option ℕ)
rfind_range p zero = some none
rfind_range p (suc n) = p n >>= elim [ true ↦ some (some n) | false ↦ rfind_range p n ]

-- The loop of `slice::binary_search_by`: halve `size`, and move `base` unless the middle key is
-- greater than the wanted one.
unfoldable pub halve : List CueNumber → CueNumber → ℕ → ℕ → ℕ → Option ℕ
halve keys n zero base size = some base
halve keys n (suc fuel) base size =
    if leb size 1
    then some base
    else (let half = size / 2 in
        get_elem? keys (base + half) >>= λ k.
        halve keys n fuel (if ltb n k then base else base + half) (size - half))

-- `binary_search_by_key(..).ok()`: `some none` is a number that is not found.
unfoldable pub binary_search : List CueNumber → CueNumber → Option (Option ℕ)
unfolding halve
binary_search [] n = some none
binary_search (k ∷ ks) n = halve (k ∷ ks) n (length (k ∷ ks)) 0 (length (k ∷ ks)) >>= λ base.
    get_elem? (k ∷ ks) base >>= λ k'. some (if k' == n then some base else none)

module _ ⦃F : Floats⦄ where
  insert_cue : Cue → List Cue → List Cue
  insert_cue c [] = c ∷ []
  insert_cue c (d ∷ ds) = if leb c.number d.number then c ∷ d ∷ ds else d ∷ insert_cue c ds

  -- `sort_by_key(|c| c.number)`, which is stable.
  unfoldable pub sort_cues : List Cue → List Cue
  unfolding insert_cue
  sort_cues [] = []
  sort_cues (c ∷ cs) = insert_cue c (sort_cues cs)

  abbrev pub numbers : List Cue → List CueNumber
  numbers = map (λ c. c.number)

  abbrev pub armed_at : List Cue → ℕ → Option Bool
  armed_at cues i = get_elem? cues i >>= λ c. some c.armed
