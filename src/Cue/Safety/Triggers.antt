-- ===== src/Cue/Safety/Triggers.antt =====
-- crates/cue/src/lib.rs: the indices of the triggers that the timecode chase plays.
use videocuelist.Prelude.{ℕ, suc, ◌+◌, ◌<◌, ◌≤◌, List, [], ◌∷◌, length, InRange, arith, last?}
use videocuelist.Core.Timecode.{TcRate}
use videocuelist.Core.Model.{Cue}
use videocuelist.Float.{Floats}
use videocuelist.Cue.Types.{CueEngine}
use videocuelist.Cue.Chase.{
  cue_of, Trigger, insert_trigger, sort_triggers, fired_between, take_until, triggers_from,
  chase_triggers, seek_target,
}

-- Every trigger names a cue below the bound.
abbrev pub TriggersIn : ℕ → List Trigger → Type 0
TriggersIn n [] = Unit
TriggersIn n ((f, i) ∷ ts) = (i < n) × TriggersIn n ts

abbrev pub AllIn : ℕ → List ℕ → Type 0
AllIn n [] = Unit
AllIn n (i ∷ is) = (i < n) × AllIn n is

insert_trigger-TriggersIn :
    (n : ℕ) (t : Trigger) (ts : List Trigger)
    → t.1 < n
    → TriggersIn n ts
    → TriggersIn n (insert_trigger t ts)
unfolding insert_trigger
insert_trigger-TriggersIn n t [] u h = (u, tt)
insert_trigger-TriggersIn n (f, i) ((g, j) ∷ ts) u h =
    ground (arith, insert_trigger-TriggersIn n (f, i) ts u h.1)

sort_triggers-TriggersIn :
    (n : ℕ) (ts : List Trigger) → TriggersIn n ts → TriggersIn n (sort_triggers ts)
unfolding sort_triggers
sort_triggers-TriggersIn n [] h = tt
sort_triggers-TriggersIn n ((f, i) ∷ ts) h =
    insert_trigger-TriggersIn n (f, i) (sort_triggers ts) h.0 (sort_triggers-TriggersIn n ts h.1)

pub fired_between-AllIn :
    (n from to : ℕ) (ts : List Trigger) → TriggersIn n ts → AllIn n (fired_between from to ts)
unfolding fired_between
fired_between-AllIn n from to [] h = tt
fired_between-AllIn n from to ((f, i) ∷ ts) h = ground (arith, fired_between-AllIn n from to ts h.1)

pub take_until-TriggersIn :
    (n frames : ℕ) (ts : List Trigger) → TriggersIn n ts → TriggersIn n (take_until frames ts)
unfolding take_until
take_until-TriggersIn n frames [] h = tt
take_until-TriggersIn n frames ((f, i) ∷ ts) h =
    ground (arith, take_until-TriggersIn n frames ts h.1)

pub last?-InRange : (n : ℕ) (ts : List Trigger) → TriggersIn n ts → InRange n (cue_of (last? ts))
last?-InRange n [] h = tt
last?-InRange n ((f, i) ∷ []) h = h.0
last?-InRange n ((f, i) ∷ (g, j) ∷ ts) h = last?-InRange n ((g, j) ∷ ts) h.1

pub seek_target-InRange :
    (n frames : ℕ) (ts : List Trigger) → TriggersIn n ts → InRange n (seek_target frames ts)
unfolding seek_target
seek_target-InRange n frames ts h =
    last?-InRange n (take_until frames ts) (take_until-TriggersIn n frames ts h)

module _ ⦃F : Floats⦄ where
  triggers_from-TriggersIn :
      (rate : TcRate) (n i : ℕ) (cs : List Cue)
      → i + length cs ≤ n
      → TriggersIn n (triggers_from rate i cs)
  unfolding triggers_from
  triggers_from-TriggersIn rate n i [] h = tt
  triggers_from-TriggersIn rate n i (c ∷ cs) h =
      ground (arith, triggers_from-TriggersIn rate n (suc i) cs (omega arith))

  pub chase_triggers-TriggersIn :
      (rate : TcRate) (e : CueEngine) → TriggersIn (length e.cues) (chase_triggers e rate)
  unfolding chase_triggers
  chase_triggers-TriggersIn rate e =
      sort_triggers-TriggersIn (length e.cues) (triggers_from rate 0 e.cues)
        (triggers_from-TriggersIn rate (length e.cues) 0 e.cues (omega arith))
