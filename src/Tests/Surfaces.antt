-- ===== src/Tests/Surfaces.antt =====
-- crates/control-osc on concrete messages and events.
use videocuelist.Prelude.{◌≡◌, refl, ◌++◌, Bool, true, false, List, [], ◌∷◌, none, some, arith, ap}
use videocuelist.Prelude.Int.{pos}
use videocuelist.Text.{Text, codes, text_eq, digits}
use videocuelist.Table.{lookup}
use videocuelist.Text.Words.{text_eq-IsEq}
use videocuelist.Float.Milli.{milli}
use videocuelist.Core.Model.{ParamValue}
use videocuelist.Core.Number.{to_string}
use videocuelist.Core.Template.{Source}
use videocuelist.Core.Command.{param_set, cue_goto, bpm_set, cue_go}
use videocuelist.Core.Event.{RuntimeStatus, default_status, cue_changed, transition_progress}
use videocuelist.Osc.Argument.{
  OscCase, is_string, is_int, is_long, is_float, is_double, is_bool, is_other, Rosc, StringLaws,
}
use videocuelist.Osc.Map.{map_message, float_arg}
use videocuelist.Osc.Map.Schema.{map_message-param, map_message-cue_args}
use videocuelist.Osc.Feedback.{
  FeedbackState, state_event, status_event, translate, new_feedback, active_addr, standby_addr,
  progress_addr, remaining_addr,
}
use videocuelist.Osc.Feedback.Steps.{Log, started, translated, stamped}
use videocuelist.Osc.Feedback.Throttle.{Spaced, times, Reached-Spaced_feedback}
use videocuelist.Osc.Feedback.Mirror.{shown_after, Reached-Mirrors}

-- Texts are equal as texts, and nothing else is.
abbrev case_eq : OscCase → OscCase → Bool
case_eq (is_string s) (is_string t) = text_eq s t
case_eq a b = false

instance abbrev rosc : Rosc
rosc = record {
  OscType = OscCase;
  case_of = λ a. a;
  string_of = is_string;
  float_of = is_float;
  osc_eq = case_eq;
}

case_eq_string : (a : OscCase) (s : Text) → case_eq a (is_string s) ≡ true → a ≡ is_string s
case_eq_string (is_string t) s e = ap is_string (text_eq-IsEq.sound t s e)
case_eq_string (is_int i) s e = ground arith
case_eq_string (is_long i) s e = ground arith
case_eq_string (is_float i) s e = ground arith
case_eq_string (is_double i) s e = ground arith
case_eq_string (is_bool i) s e = ground arith
case_eq_string is_other s e = ground arith

rosc_laws : StringLaws rosc
rosc_laws = record { case_of_string = λ s. refl; eq_string = case_eq_string }

go_message : map_message (codes "/conduite/cue/go") [] ≡ some cue_go
unfolding map_message
go_message = refl

bpm_message :
    map_message (codes "/conduite/bpm") (is_int (pos 90) ∷ []) ≡ some (bpm_set (pos 90_000))
unfolding map_message
bpm_message = refl

-- 12.5 as a number is the cue 12.5.
goto_number :
    map_message (codes "/conduite/cue/goto") (is_float (pos 12_500) ∷ []) ≡ some (cue_goto 12_500)
unfolding map_message
goto_number = refl

unknown_address : map_message (codes "/conduite/cue/stop") [] ≡ none
unfolding map_message
unknown_address = refl

empty_param : map_message (codes "/conduite/param/") (is_float (pos 1) ∷ []) ≡ none
unfolding map_message
empty_param = refl

abbrev opacity_addr : Text
opacity_addr = codes "slice/1/opacity"

map_message-param_example :
    map_message (codes "/conduite/param/" ++ opacity_addr) (is_float (pos 500) ∷ [])
    ≡ some (param_set opacity_addr (ParamValue.f (pos 500)) Source.osc)
unfolding float_arg
map_message-param_example =
    map_message-param opacity_addr (is_float (pos 500) ∷ []) (λ e. ground arith)

map_message-cue_args_example :
    (map_message (codes "/conduite/cue/goto") (is_string (to_string 12_500) ∷ [])
      ≡ some (cue_goto 12_500))
    × (map_message (codes "/conduite/cue/goto") (is_string [] ∷ []) ≡ none)
map_message-cue_args_example = map_message-cue_args rosc_laws 12_500 (omega arith)

-- Three frames of a transition, of which the second comes too early.
abbrev at_start : FeedbackState
at_start = (translate (state_event (transition_progress (pos 100))) 5 new_feedback).1

abbrev too_early : FeedbackState
too_early = (translate (state_event (transition_progress (pos 200))) 40_000_005 at_start).1

abbrev frames_log : Log
frames_log =
    ((stamped 5 (translate (state_event (transition_progress (pos 100))) 5 new_feedback).0)
      ++ stamped 40_000_005
          (translate (state_event (transition_progress (pos 200))) 40_000_005 at_start).0)
    ++ stamped 120_000_005
        (translate (state_event (transition_progress (pos 300))) 120_000_005 too_early).0

frames_times : times progress_addr frames_log ≡ 5 ∷ 120_000_005 ∷ []
unfolding translate
frames_times = refl

Reached-Spaced_feedback_example :
    Spaced (times progress_addr frames_log) × Spaced (times remaining_addr frames_log)
Reached-Spaced_feedback_example = Reached-Spaced_feedback (
    translated (state_event (transition_progress (pos 300))) 120_000_005 (
      translated (state_event (transition_progress (pos 200))) 40_000_005
        (translated (state_event (transition_progress (pos 100))) 5 started)))

abbrev on_air : RuntimeStatus
on_air = record default_status { active = some 12_500; standby = none }

-- The cue is announced, and the status that names it again sends the rest only.
status_sends :
    (translate
      (status_event on_air)
      9
      (translate (state_event (cue_changed (some 12_500))) 7 new_feedback).1).0
    ≡ (standby_addr, is_string [] ∷ [])
      ∷ (progress_addr, is_float (pos 0) ∷ [])
      ∷ (remaining_addr, is_float (pos 0) ∷ [])
      ∷ []
unfolding translate digits
status_sends = refl

abbrev after_announce : FeedbackState
after_announce = (translate (state_event (cue_changed (some 12_500))) 7 new_feedback).1

abbrev board : List (Text × List OscCase)
board = shown_after [] (
    stamped 7 (translate (state_event (cue_changed (some 12_500))) 7 new_feedback).0
    ++ stamped 9 (translate (status_event on_air) 9 after_announce).0)

Reached-Mirrors_example :
    (lookup text_eq active_addr board ≡ some (is_string (to_string 12_500) ∷ []))
    × (lookup text_eq standby_addr board ≡ some (is_string [] ∷ []))
Reached-Mirrors_example =
    Reached-Mirrors rosc_laws (translated (state_event (cue_changed (some 12_500))) 7 started)
      on_air 9
