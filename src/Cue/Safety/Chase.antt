-- ===== src/Cue/Safety/Chase.antt =====
-- crates/cue/src/lib.rs: the indices of the engine through the timecode chase.
use videocuelist.Prelude.{
  inr, inl, subst, Option-cases, ℕ, ◌<◌, refl, ◌&&◌, Option, none, some, List, [], ◌∷◌, length,
  InRange, Returns, Returns->>=, Returns-if, arith, if◌then◌else◌, ltb, ◌==◌,
}
use videocuelist.Core.Timecode.{to_frames, TcRate}
use videocuelist.Core.Model.{Cue, default_transition}
use videocuelist.Float.{Floats}
use videocuelist.Cue.Types.{CueEngine, TcState, ChaseState}
use videocuelist.Cue.Search.{numbers}
use videocuelist.Cue.Search.Sorted.{IsSorted}
use videocuelist.Cue.Chase.{
  is_advance, freewheel_to, rate_eq, lose_lock, Trigger, chase_triggers, cross, chase_advance,
  seek_to, seek_black, seek_target, seek_among, chase_seek, follow_signal, chase_locked,
  freewheel_from, chase_lost, check_chase, is_active,
}
use videocuelist.Cue.Safety.{Holds-same, Holds}
use videocuelist.Cue.Safety.Transitions.{snap_transition-Holds, start_go-Holds, launch-Holds}
use videocuelist.Cue.Safety.Triggers.{
  TriggersIn, AllIn, fired_between-AllIn, seek_target-InRange, chase_triggers-TriggersIn,
}

module _ ⦃F : Floats⦄ (cs : List Cue) (sorted : IsSorted (numbers cs)) where
  open F use {F64}

  cross-Holds :
      (is : List ℕ) (now : F64) (e : CueEngine)
      → Holds cs e
      → AllIn (length cs) is
      → Returns (Holds cs) (cross is now e)
  unfolding cross
  cross-Holds [] now e h a = h
  cross-Holds (i ∷ []) now e h a =
      Returns->>= (Holds cs) (Holds cs) _ _ (snap_transition-Holds cs sorted now e h)
        (λ e₁ h₁. launch-Holds cs sorted i i now e₁ h₁ a.0 a.0)
  cross-Holds (i ∷ j ∷ rest) now e h a =
      Returns->>= (Holds cs) (Holds cs) _ _ (snap_transition-Holds cs sorted now e h) (λ e₁ h₁.
        Returns->>= (Holds cs) (Holds cs) _ _
          (start_go-Holds cs sorted i default_transition now e₁ h₁ a.0)
          (λ e₂ h₂. cross-Holds (j ∷ rest) now e₂ h₂ a.1))

  triggers_in :
      (e : CueEngine) (rate : TcRate) → Holds cs e → TriggersIn (length cs) (chase_triggers e rate)
  triggers_in e rate h =
      subst (λ l. TriggersIn (length l) (chase_triggers e rate)) h.cues_eq
        (chase_triggers-TriggersIn rate e)

  pub chase_advance-Holds :
      (from to : ℕ) (rate : TcRate) (now : F64) (e : CueEngine)
      → Holds cs e
      → Returns (Holds cs) (chase_advance from to rate now e)
  unfolding chase_advance
  chase_advance-Holds from to rate now e h =
      cross-Holds _ now e h
        (fired_between-AllIn (length cs) from to (chase_triggers e rate) (triggers_in e rate h))

  seek_to-Holds :
      (i : ℕ) (now : F64) (e : CueEngine)
      → Holds cs e
      → i < length cs
      → Returns (Holds cs) (seek_to i now e)
  unfolding seek_to
  seek_to-Holds i now e h u = elim (Option-cases e.transition) [
    | inl q ↦
        rw (q, seek_to)
          (Returns-if (Holds cs) (is_active e i) _ _ (λ d. h)
            (λ d. launch-Holds cs sorted i i now e h u u))
    | inr (tr, q) ↦
        rw (q, seek_to)
          (Returns-if (Holds cs) (tr.to == i) _ _ (λ d. snap_transition-Holds cs sorted now e h)
            (λ d.
              Returns->>= (Holds cs) (Holds cs) _ _ (snap_transition-Holds cs sorted now e h)
                (λ e₁ h₁. launch-Holds cs sorted i i now e₁ h₁ u u)))
  ]

  seek_black-Holds :
      (ts : List Trigger) (e : CueEngine)
      → Holds cs e
      → TriggersIn (length cs) ts
      → Holds cs (seek_black ts e)
  unfolding seek_black
  seek_black-Holds [] e h a = ground arith
  seek_black-Holds ((f, i) ∷ ts) e h a = ground arith

  seek_among-Holds :
      (frames : ℕ) (ts : List Trigger) (now : F64) (e : CueEngine)
      → Holds cs e
      → TriggersIn (length cs) ts
      → Returns (Holds cs) (seek_among frames ts now e)
  unfolding seek_among
  seek_among-Holds frames [] now e h a = h
  seek_among-Holds frames (t ∷ ts) now e h a =
      sought (seek_target frames (t ∷ ts)) (seek_target-InRange (length cs) frames (t ∷ ts) a)
    where
      sought :
          (o : Option ℕ)
          → InRange (length cs) o
          → Returns
              (Holds cs)
              (elim o [ some i ↦ seek_to i now e | none ↦ some (seek_black (t ∷ ts) e) ])
      sought none r = seek_black-Holds (t ∷ ts) e h a
      sought (some i) r = seek_to-Holds i now e h r

  pub chase_seek-Holds :
      (frames : ℕ) (rate : TcRate) (now : F64) (e : CueEngine)
      → Holds cs e
      → Returns (Holds cs) (chase_seek frames rate now e)
  unfolding chase_seek
  chase_seek-Holds frames rate now e h =
      seek_among-Holds frames (chase_triggers e rate) now e h (triggers_in e rate h)

  follow_signal-Holds :
      (last frames : ℕ) (rate : TcRate) (now : F64) (e : CueEngine)
      → Holds cs e
      → Returns (Holds cs) (follow_signal last frames rate now e)
  unfolding follow_signal
  follow_signal-Holds last frames rate now e h =
      Returns-if (Holds cs) (is_advance last frames rate) _ _
        (λ d. chase_advance-Holds last frames rate now e h)
        (λ d.
          Returns-if (Holds cs) (frames == last) (some e) (chase_seek frames rate now e) (λ d'. h)
            (λ d'. chase_seek-Holds frames rate now e h))

  chase_locked-Holds :
      (st : TcState) (now : F64) (e : CueEngine)
      → Holds cs e
      → Returns (Holds cs) (chase_locked st now e)
  unfolding chase_locked
  chase_locked-Holds st now e h =
      Returns->>= (Holds cs) (Holds cs) _ _ (signal e.chase) (λ e₁ h₁. ground arith)
    where
      frames : ℕ
      frames = to_frames st.time st.rate

      e₀ : CueEngine
      e₀ = record e { chase = none }

      h₀ : Holds cs e₀
      h₀ = ground arith

      signal :
          (o : Option ChaseState)
          → Returns (Holds cs) (elim o [
            | none ↦ chase_seek frames st.rate now e₀
            | some cs ↦
                if cs.locked && rate_eq cs.rate st.rate
                then follow_signal cs.frames frames st.rate now e₀
                else chase_seek frames st.rate now e₀
          ])
      signal none = chase_seek-Holds frames st.rate now e₀ h₀
      signal (some c) =
          Returns-if (Holds cs) (c.locked && rate_eq c.rate st.rate) _ _
            (λ d. follow_signal-Holds c.frames frames st.rate now e₀ h₀)
            (λ d. chase_seek-Holds frames st.rate now e₀ h₀)

  freewheel_to-Holds :
      (c : ChaseState) (est : ℕ) (wheel : Option (F64 × ℕ)) (now : F64) (e : CueEngine)
      → Holds cs e
      → Returns (Holds cs) (freewheel_to c est wheel now e)
  unfolding freewheel_to
  freewheel_to-Holds c est wheel now e h =
      Returns->>= (Holds cs) (Holds cs)
        (if ltb c.frames est then chase_advance c.frames est c.rate now e else some e) _
        (Returns-if (Holds cs) (ltb c.frames est) _ _
          (λ d. chase_advance-Holds c.frames est c.rate now e h) (λ d. h))
        (λ e₁ h₁. Holds-same e₁ _ h₁ refl refl refl refl refl)

  freewheel_from-Holds :
      (c : ChaseState) (t₀ : F64) (f₀ : ℕ) (now : F64) (e : CueEngine)
      → Holds cs e
      → Returns (Holds cs) (freewheel_from c t₀ f₀ now e)
  unfolding freewheel_from
  freewheel_from-Holds c t₀ f₀ now e h = freewheel_to-Holds c _ _ now e h

  chase_lost-Holds :
      (c : ChaseState) (now : F64) (e : CueEngine)
      → Holds cs e
      → Returns (Holds cs) (chase_lost c now e)
  unfolding chase_lost
  chase_lost-Holds c now e h = wheel (lose_lock c now) (lose_lock c now).freewheel
    where
      wheel :
          (d : ChaseState) (o : Option (F64 × ℕ))
          → Returns (Holds cs) (elim o [
            | none ↦ some (record e { chase = some d })
            | some (t₀, f₀) ↦ freewheel_from d t₀ f₀ now (record e { chase = none })
          ])
      wheel d none = ground arith
      wheel d (some (t₀, f₀)) = freewheel_from-Holds d t₀ f₀ now _ (ground arith)

  pub check_chase-Holds :
      (now : F64) (tc : Option TcState) (e : CueEngine)
      → Holds cs e
      → Returns (Holds cs) (check_chase now tc e)
  unfolding check_chase
  check_chase-Holds now none e h = ground arith
  check_chase-Holds now (some st) e h =
      Returns-if (Holds cs) st.locked _ _ (λ d. chase_locked-Holds st now e h) (λ d. lost e.chase)
    where
      lost :
          (o : Option ChaseState)
          → Returns (Holds cs) (elim o [ none ↦ some e | some cs ↦ chase_lost cs now e ])
      lost none = h
      lost (some c) = chase_lost-Holds c now e h
