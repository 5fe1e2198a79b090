-- ===== src/Cue/Landing/Chase.antt =====
-- crates/cue/src/lib.rs: which cues the timecode chase plays.
pub mod Triggers
use videocuelist.Prelude.{
  ◌==◌, if◌then◌else◌, ℕ, ◌≡◌, refl, Option, none, some, List, [], ◌∷◌, arith, length, Returns,
  Returns-mono, Returns-Ensures, Ensures, Ensures->>=, Ensures-mono, Ensures-any, ◌∙◌, last?, ◌>>=◌,
  Ensures-if, subst, sym,
}
use videocuelist.Core.Timecode.{TcRate}
use videocuelist.Core.Model.{Cue, default_transition}
use videocuelist.Float.{Floats}
use videocuelist.Cue.Types.{CueEngine, ActiveTransition}
use videocuelist.Cue.Transitions.{snap_transition, start_go, launch}
use videocuelist.Cue.Commands.{effective_active}
use videocuelist.Cue.Chase.{
  is_active, Trigger, cross, chase_advance, chase_triggers, fired_between, seek_target, chase_seek,
  seek_among, seek_to, seek_black,
}
use videocuelist.Cue.Safety.{IsWellFormed, Holds}
use videocuelist.Cue.Safety.Chase.{chase_advance-Holds, chase_seek-Holds}
use videocuelist.Cue.Landing.Chase.Triggers.{LastUpTo, seek_target-LastUpTo, chase_triggers-InOrder}
use videocuelist.Cue.Landing.{Lands, Same, snap_transition-Same, start_go-Lands, launch-Lands}

module _ ⦃F : Floats⦄ where
  open F use {F64}

  -- The engine after the chase has played the cues of a list: it is at the last of them, or it is
  -- the engine before if the list is empty; the panic stays in either case.
  abbrev pub Crosses : List ℕ → CueEngine → CueEngine → Type 0
  Crosses [] e e' = e' ≡ e
  Crosses (i ∷ is) e e' =
      (effective_active e' ≡ last? (i ∷ is)) × (e'.cues ≡ e.cues) × (e'.panic ≡ e.panic)

  cross-Crosses :
      (is : List ℕ) (now : F64) (e : CueEngine) → Ensures (Crosses is e) (cross is now e)
  unfolding cross
  cross-Crosses [] now e = refl
  cross-Crosses (i ∷ []) now e =
      Ensures->>= (Same e) (Crosses (i ∷ []) e) _ _ (snap_transition-Same now e) (λ e₁ s.
        Ensures-mono _ (Crosses (i ∷ []) e) _
          (λ e' l. (l.landed, l.same_cues ∙ s.same_cues, l.same_panic ∙ s.same_panic))
          (launch-Lands i i now e₁))
  cross-Crosses (i ∷ j ∷ rest) now e =
      Ensures->>= (Same e) (Crosses (i ∷ j ∷ rest) e) _ _ (snap_transition-Same now e) (λ e₁ s.
        Ensures->>= (Lands i e₁) (Crosses (i ∷ j ∷ rest) e) _ _
          (start_go-Lands i default_transition now e₁)
          (λ e₂ l.
            Ensures-mono _ (Crosses (i ∷ j ∷ rest) e) _
              (λ e' c. (c.0, c.1 ∙ l.same_cues ∙ s.same_cues, c.2 ∙ l.same_panic ∙ s.same_panic))
              (cross-Crosses (j ∷ rest) now e₂)))

  -- An advance of the timecode returns with the engine at the cue of the last trigger in the
  -- interval, or unchanged if there is none; a panic stays.
  pub chase_advance-lands :
      (from to : ℕ) (rate : TcRate) (now : F64) (e : CueEngine)
      → IsWellFormed e
      → Returns
          (Crosses (fired_between from to (chase_triggers e rate)) e)
          (chase_advance from to rate now e)
  unfolding chase_advance
  chase_advance-lands from to rate now e (s, h) =
      Returns-mono _ (Crosses (fired_between from to (chase_triggers e rate)) e) _ (λ e' r. r.1)
        (Returns-Ensures (Holds e.cues) (Crosses (fired_between from to (chase_triggers e rate)) e)
          _ (chase_advance-Holds e.cues s from to rate now e h)
          (cross-Crosses (fired_between from to (chase_triggers e rate)) now e))

  -- The engine after a seek with the triggers `ts`, whose target is `o`.
  abbrev pub Seeks : List Trigger → Option ℕ → CueEngine → CueEngine → Type 0
  Seeks [] o e e' = e' ≡ e
  Seeks (t ∷ ts) o e e' = (effective_active e' ≡ o) × (e'.cues ≡ e.cues) × (e'.panic ≡ e.panic)

  seek_to-Ensures :
      (i : ℕ) (now : F64) (e : CueEngine) (t : Trigger) (ts : List Trigger)
      → Ensures (Seeks (t ∷ ts) (some i) e) (seek_to i now e)
  unfolding seek_to
  seek_to-Ensures i now e t ts = sought e.transition refl
    where
      Goal : CueEngine → Type 0
      Goal = Seeks (t ∷ ts) (some i) e

      sought :
          (o : Option ActiveTransition)
          → e.transition ≡ o
          → Ensures Goal (elim o [
            | none ↦ if is_active e i then some e else launch i i now e
            | some tr ↦
                if tr.to == i
                then snap_transition now e
                else (snap_transition now e >>= launch i i now)
          ])
      sought none q =
          Ensures-if Goal (is_active e i) (some e) (launch i i now e)
            (λ d. (ground arith, refl, refl))
            (λ d.
              Ensures-mono _ Goal _ (λ e' l. (l.landed, l.same_cues, l.same_panic))
                (launch-Lands i i now e))
      sought (some tr) q =
          Ensures-if Goal (tr.to == i) (snap_transition now e)
            (snap_transition now e >>= launch i i now)
            (λ d.
              Ensures-mono _ Goal _
                (λ e' s. (ground (arith, s.same_place), s.same_cues, s.same_panic))
                (snap_transition-Same now e))
            (λ d. Ensures->>= (Same e) Goal _ _ (snap_transition-Same now e) (λ e₁ s.
              Ensures-mono _ Goal _
                (λ e' l. (l.landed, l.same_cues ∙ s.same_cues, l.same_panic ∙ s.same_panic))
                (launch-Lands i i now e₁)))

  seek_black-Seeks :
      (e : CueEngine) (t : Trigger) (ts : List Trigger)
      → Seeks (t ∷ ts) none e (seek_black (t ∷ ts) e)
  unfolding seek_black
  seek_black-Seeks e t ts = ground arith

  seek_among-Seeks :
      (frames : ℕ) (ts : List Trigger) (now : F64) (e : CueEngine)
      → Ensures (Seeks ts (seek_target frames ts) e) (seek_among frames ts now e)
  unfolding seek_among
  seek_among-Seeks frames [] now e = refl
  seek_among-Seeks frames (t ∷ ts) now e = sought (seek_target frames (t ∷ ts))
    where
      sought :
          (o : Option ℕ)
          → Ensures
              (Seeks (t ∷ ts) o e)
              (elim o [ some i ↦ seek_to i now e | none ↦ some (seek_black (t ∷ ts) e) ])
      sought none = seek_black-Seeks e t ts
      sought (some i) = seek_to-Ensures i now e t ts

  -- The engine after a seek to a position with the triggers `ts`.
  abbrev pub SeeksTo : ℕ → List Trigger → CueEngine → CueEngine → Type 0
  SeeksTo frames [] e e' = e' ≡ e
  SeeksTo frames (t ∷ ts) e e' =
      LastUpTo frames (t ∷ ts) (effective_active e') × (e'.cues ≡ e.cues) × (e'.panic ≡ e.panic)

  Seeks-SeeksTo :
      (frames : ℕ) (ts : List Trigger) (o : Option ℕ) (e e' : CueEngine)
      → LastUpTo frames ts o
      → Seeks ts o e e'
      → SeeksTo frames ts e e'
  Seeks-SeeksTo frames [] o e e' l k = k
  Seeks-SeeksTo frames (t ∷ ts) o e e' l k =
      (subst (LastUpTo frames (t ∷ ts)) (sym k.0) l, k.1, k.2)

  -- A seek of the timecode returns with the engine at the cue of the last trigger not after the
  -- position, or with nothing at the programme if all are after it; with no trigger it is
  -- unchanged; a panic stays.
  pub chase_seek-lands :
      (frames : ℕ) (rate : TcRate) (now : F64) (e : CueEngine)
      → IsWellFormed e
      → Returns (SeeksTo frames (chase_triggers e rate) e) (chase_seek frames rate now e)
  unfolding chase_seek
  chase_seek-lands frames rate now e (s, h) =
      let ts = chase_triggers e rate in
      let o = seek_target frames ts in
      Returns-mono _ (SeeksTo frames ts e) _
        (λ e' r.
          Seeks-SeeksTo frames ts o e e'
            (seek_target-LastUpTo frames ts (chase_triggers-InOrder e rate)) r.1)
        (Returns-Ensures (Holds e.cues) (Seeks ts o e) _
          (chase_seek-Holds e.cues s frames rate now e h) (seek_among-Seeks frames ts now e))
