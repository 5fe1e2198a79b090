-- ===== src/Cue/Safety/Follow.antt =====
-- crates/cue/src/lib.rs: the indices of the engine through `check_follow`.
use videocuelist.Prelude.{
  Returns-if, Option-cases, Bool, ℕ, ◌<◌, ◌≡◌, Option, none, some, List, length, InRange, Returns,
  Returns->>=, Returns-get_elem?, arith, ◌>>=◌, get_elem?, Bool-cases, inl, inr,
}
use videocuelist.Core.Model.{Cue}
use videocuelist.Float.{Floats}
use videocuelist.Cue.Transitions.{emit, warn_event, launch}
use videocuelist.Cue.Types.{follow_no_standby, follow_fired, CueEngine}
use videocuelist.Cue.Search.{numbers}
use videocuelist.Cue.Search.Sorted.{IsSorted}
use videocuelist.Cue.Follow.{due_of, fire_follow, check_active_follow, check_follow}
use videocuelist.Cue.Safety.{Holds}
use videocuelist.Cue.Safety.Transitions.{launch-Holds}

module _ ⦃F : Floats⦄ (cs : List Cue) (sorted : IsSorted (numbers cs)) where
  open F use {F64}

  pub fire_follow-Holds :
      (ai : ℕ) (now : F64) (e : CueEngine)
      → Holds cs e
      → ai < length cs
      → Returns (Holds cs) (fire_follow ai now e)
  unfolding fire_follow
  fire_follow-Holds ai now e h u =
      Returns->>= (λ c. get_elem? e.cues ai ≡ some c) (Holds cs) _ _
        (Returns-get_elem? e.cues ai (rw h.cues_eq u)) (λ c q. fired c e.standby h.standby_in)
    where
      fired :
          (c : Cue) (o : Option ℕ)
          → InRange (length cs) o
          → Returns (Holds cs) (elim o [
            | none ↦ some (warn_event (follow_no_standby c.number) e)
            | some to ↦ get_elem? e.cues to >>= λ d.
                launch to to now (emit (follow_fired c.number d.number) e)
          ])
      fired c none r = ground arith
      fired c (some to) r =
          Returns->>= (λ d. get_elem? e.cues to ≡ some d) (Holds cs) _ _
            (Returns-get_elem? e.cues to (rw h.cues_eq r))
            (λ d q. launch-Holds cs sorted to to now _ (ground arith) r r)

  check_active_follow-Holds :
      (ai : ℕ) (now : F64) (eof : ℕ → Bool) (e : CueEngine)
      → Holds cs e
      → ai < length cs
      → Returns (Holds cs) (check_active_follow ai now eof e)
  unfolding check_active_follow
  check_active_follow-Holds ai now eof e h u =
      Returns->>= (λ c. get_elem? e.cues ai ≡ some c) (Holds cs) _ _
        (Returns-get_elem? e.cues ai (rw h.cues_eq u))
        (λ c q. elim (Bool-cases (due_of c.follow c now eof e)) [
          | inl d ↦ rw d (fire_follow-Holds ai now _ (ground arith) u)
          | inr d ↦ rw d h
        ])

  pub check_follow-Holds :
      (now : F64) (eof : ℕ → Bool) (e : CueEngine)
      → Holds cs e
      → Returns (Holds cs) (check_follow now eof e)
  unfolding check_follow
  check_follow-Holds now eof e h = elim (Option-cases e.transition) [
    | inr (tr, q) ↦ rw (q, check_follow) h
    | inl q ↦
        rw (q, check_follow)
          (Returns-if (Holds cs) e.follow_fired _ _ (λ d. h) (λ d. followed e.active h.active_in))
  ]
    where
      followed :
          (o : Option ℕ)
          → InRange (length cs) o
          → Returns
              (Holds cs)
              (elim o [ none ↦ some e | some ai ↦ check_active_follow ai now eof e ])
      followed none r = h
      followed (some ai) r = check_active_follow-Holds ai now eof e h r
