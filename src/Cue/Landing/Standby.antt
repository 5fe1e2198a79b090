-- ===== src/Cue/Landing/Standby.antt =====
-- crates/cue/src/lib.rs: the standby that an activation leaves.
use videocuelist.Prelude.{
  lt-get_elem?, ℕ, ◌+◌, ◌≡◌, refl, ◌⊎◌, inl, inr, Option, none, some, List, length, get_elem?,
  Returns, Returns->>=, Returns-mono, ◌>>=◌,
}
use videocuelist.Core.Model.{Cue}
use videocuelist.Float.{Floats}
use videocuelist.Cue.Types.{CueEngine}
use videocuelist.Cue.Search.{numbers, armed_at}
use videocuelist.Cue.Search.Ranges.{FirstIn}
use videocuelist.Cue.Search.Binary.{Finds, binary_search-Finds}
use videocuelist.Cue.Transitions.{index_of, next_armed, standby_after}
use videocuelist.Cue.Safety.{IsWellFormed}
use videocuelist.Cue.Safety.Transitions.{next_armed-FirstIn}

module _ ⦃F : Floats⦄ where
  -- The standby after the cue `c` at `idx`: the cue that `goto_after` names, if there is one of that
  -- number, armed or not; else the first armed cue after `idx`, if any.
  abbrev pub StandbyAfter : List Cue → ℕ → Cue → Option ℕ → Type 0
  StandbyAfter cs idx c o =
      ((n i : ℕ) × (c.goto_after ≡ some n) × Finds (numbers cs) n (some i) × (o ≡ some i))
      ⊎ (((n : ℕ) → c.goto_after ≡ some n → Finds (numbers cs) n none)
          × FirstIn (armed_at cs) (idx + 1) (length cs) o)

  -- After the cue `c` at `idx` the standby is the explicit target of its loop, armed or not, if that
  -- number is in the list, and else the first armed cue after it, if there is one.
  pub standby_after-StandbyAfter :
      (idx : ℕ) (c : Cue) (e : CueEngine)
      → IsWellFormed e
      → get_elem? e.cues idx ≡ some c
      → Returns (StandbyAfter e.cues idx c) (standby_after e idx)
  unfolding standby_after index_of
  standby_after-StandbyAfter idx c e (s, h) q = rw q (by_target c.goto_after refl)
    where
      Goal : Option ℕ → Type 0
      Goal = StandbyAfter e.cues idx c

      next :
          ((n : ℕ) → c.goto_after ≡ some n → Finds (numbers e.cues) n none)
          → Returns Goal (next_armed e idx)
      next m =
          Returns-mono _ Goal (next_armed e idx) (λ o f. inr (m, f))
            (next_armed-FirstIn e.cues s e idx h (lt-get_elem? e.cues idx q))

      by_target :
          (g : Option ℕ)
          → c.goto_after ≡ g
          → Returns Goal (elim g [
            | none ↦ next_armed e idx
            | some n ↦ index_of e n >>= elim [ none ↦ next_armed e idx | some i ↦ some (some i) ]
          ])
      by_target none r = next (λ n r'. cc)
      by_target (some n) r =
          Returns->>= (Finds (numbers e.cues) n) Goal (index_of e n) _
            (binary_search-Finds (numbers e.cues) n s)
            (elim [
              | none ↦ λ f. next (λ n' r'. let z : n' ≡ n = cc in rw z f)
              | some i ↦ λ f. inl (n, i, r, f, refl)
            ])
