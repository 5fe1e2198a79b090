-- ===== src/Osc/Feedback.antt =====
-- crates/control-osc/src/feedback.rs: the messages that tell a remote surface the state of the show.
pub mod Steps
pub mod Mirror
pub mod Throttle
use videocuelist.Prelude.{
  ℕ, ◌-◌, Bool, true, false, not, ◌&&◌, List, [], ◌∷◌, Option, none, some, push_back, ltb,
  if◌then◌else◌,
}
use videocuelist.Text.{Text, codes, text_eq}
use videocuelist.Table.{lookup, insert}
use videocuelist.Float.{Floats}
use videocuelist.Core.Model.{CueNumber}
use videocuelist.Core.Number.{to_string}
use videocuelist.Core.Event.{
  StateEvent, cue_changed, standby_changed, transition_progress, RuntimeStatus,
}
use videocuelist.Osc.Argument.{Rosc}

-- 100 ms. An instant is in nanoseconds.
abbrev pub throttle_interval : ℕ
throttle_interval = 100_000_000

abbrev pub active_addr : Text
active_addr = codes "/conduite/status/active"

abbrev pub standby_addr : Text
standby_addr = codes "/conduite/status/standby"

abbrev pub progress_addr : Text
progress_addr = codes "/conduite/status/progress"

abbrev pub remaining_addr : Text
remaining_addr = codes "/conduite/status/remaining"

-- `saturating_duration_since` below the interval.
abbrev pub throttled : ℕ → Option ℕ → Bool
throttled now none = false
throttled now (some t) = ltb (now - t) throttle_interval

module _ ⦃F : Floats⦄ ⦃R : Rosc⦄ where
  open F use {F32}
  open R use {OscType, string_of, float_of, osc_eq}

  pub data FeedbackEvent : Type 0 where
    state_event : StateEvent → FeedbackEvent
    status_event : RuntimeStatus → FeedbackEvent

  abbrev pub OscMessage : Type 0
  OscMessage = Text × List OscType

  pub record FeedbackState : Type 0 where
    pub last_sent : List (Text × List OscType)
    pub last_progress : Option ℕ
    pub last_remaining : Option ℕ

  abbrev pub new_feedback : FeedbackState
  new_feedback = record { last_sent = []; last_progress = none; last_remaining = none }

  -- The text of a cue, or an empty one.
  abbrev pub cue_args : Option CueNumber → List OscType
  cue_args none = string_of [] ∷ []
  cue_args (some n) = string_of (to_string n) ∷ []

  abbrev pub args_eq : List OscType → List OscType → Bool
  args_eq [] [] = true
  args_eq [] (b ∷ bs) = false
  args_eq (a ∷ rest) [] = false
  args_eq (a ∷ rest) (b ∷ bs) = osc_eq a b && args_eq rest bs

  abbrev pub unchanged : Option (List OscType) → List OscType → Bool
  unchanged none args = false
  unchanged (some sent) args = args_eq sent args

  abbrev pub remember : Text → List OscType → FeedbackState → FeedbackState
  remember addr args st = record st { last_sent = insert text_eq addr args st.last_sent }

  unfoldable pub push_if_changed :
      Text → List OscType → List OscMessage × FeedbackState → List OscMessage × FeedbackState
  push_if_changed addr args (out, st) =
      if unchanged (lookup text_eq addr st.last_sent) args
      then (out, st)
      else (push_back out (addr, args), remember addr args st)

  abbrev pub last_at : Text → FeedbackState → Option ℕ
  last_at addr st = if text_eq addr progress_addr then st.last_progress else st.last_remaining

  abbrev pub stamp : Text → ℕ → FeedbackState → FeedbackState
  stamp addr now st =
      if text_eq addr progress_addr
      then record st { last_progress = some now }
      else record st { last_remaining = some now }

  unfoldable pub push_progress :
      Text → F32 → ℕ → List OscMessage × FeedbackState → List OscMessage × FeedbackState
  push_progress addr v now (out, st) =
      let args = float_of v ∷ [] in
      if throttled now (last_at addr st)
      then (out, st)
      else if unchanged (lookup text_eq addr st.last_sent) args
      then (out, st)
      else (push_back out (addr, args), remember addr args (stamp addr now st))

  abbrev pub translate_state : StateEvent → ℕ → FeedbackState → List OscMessage × FeedbackState
  translate_state (cue_changed n) now st = push_if_changed active_addr (cue_args n) ([], st)
  translate_state (standby_changed n) now st = push_if_changed standby_addr (cue_args n) ([], st)
  translate_state (transition_progress v) now st = push_progress progress_addr v now ([], st)
  translate_state other now st = ([], st)

  unfoldable pub translate : FeedbackEvent → ℕ → FeedbackState → List OscMessage × FeedbackState
  unfolding to_string push_if_changed push_progress
  translate (state_event e) now st = translate_state e now st
  translate (status_event s) now st = push_progress remaining_addr s.remaining_s now (
      push_progress progress_addr s.progress now (
        push_if_changed standby_addr (cue_args s.standby)
          (push_if_changed active_addr (cue_args s.active) ([], st))))
