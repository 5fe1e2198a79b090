-- ===== src/Osc/Map.antt =====
-- crates/control-osc/src/map.rs: from an OSC message to a command. A message that is refused is
-- none.
pub mod Schema
use videocuelist.Prelude.{
  ℕ, ◌*◌, Bool, true, false, not, ◌||◌, List, [], ◌∷◌, Option, none, some, get_elem?, and_then, min,
  if◌then◌else◌,
}
use videocuelist.Prelude.Int.{pos}
use videocuelist.Text.{Text, codes, text_eq, strip_prefix, trim}
use videocuelist.Float.{Floats, nat32, nat64}
use videocuelist.Core.Model.{CueNumber, ParamValue}
use videocuelist.Core.Number.{u32_max, from_str}
use videocuelist.Core.Template.{Source}
use videocuelist.Core.Command.{
  Command, param_set, cue_go, cue_back, cue_goto, dbo, dbo_release, tap_tempo, bpm_set,
}
use videocuelist.Osc.Argument.{
  Rosc, OscCase, is_string, is_int, is_long, is_float, is_double, is_bool, is_other,
}

abbrev pub master_addr : Text
master_addr = codes "master/intensity"

module _ ⦃F : Floats⦄ where
  open F use {
    F64, F32, lt64, mul64, round64, is_finite64, from_f32, from_u32, from_i64, as_f32, as_u64,
    i64_as_f32, parse32,
  }

  -- The bounds of the cast have been tested.
  unfoldable pub cue_from_f64 : F64 → Option CueNumber
  cue_from_f64 v =
      let thousandths = round64 (mul64 v (nat64 1000)) in
      if not (is_finite64 thousandths)
        || lt64 thousandths (nat64 0)
        || lt64 (from_u32 u32_max) thousandths
      then none
      else some (min u32_max (as_u64 thousandths))

  abbrev pub cue_number_case : OscCase → Option CueNumber
  cue_number_case (is_string s) = from_str s
  cue_number_case (is_int i) = cue_from_f64 (from_i64 i)
  cue_number_case (is_long l) = cue_from_f64 (from_i64 l)
  cue_number_case (is_float f) = cue_from_f64 (from_f32 f)
  cue_number_case (is_double d) = cue_from_f64 d
  cue_number_case (is_bool b) = none
  cue_number_case is_other = none

  abbrev pub float_case : OscCase → Option F32
  float_case (is_string s) = parse32 (trim s)
  float_case (is_int i) = some (i64_as_f32 i)
  float_case (is_long l) = some (i64_as_f32 l)
  float_case (is_float f) = some f
  float_case (is_double d) = some (as_f32 d)
  float_case (is_bool b) = some (if b then nat32 1 else nat32 0)
  float_case is_other = none

  module _ ⦃R : Rosc⦄ where
    open R use {OscType, case_of}

    unfoldable pub cue_number_arg : List OscType → ℕ → Option CueNumber
    unfolding from_str cue_from_f64
    cue_number_arg args index = and_then (get_elem? args index) (λ a. cue_number_case (case_of a))

    unfoldable pub float_arg : List OscType → ℕ → Option F32
    unfolding trim
    float_arg args index = and_then (get_elem? args index) (λ a. float_case (case_of a))

    abbrev pub set_osc : Text → F32 → Command
    set_osc addr v = param_set addr (ParamValue.f v) Source.osc

    -- An address that is none of the fixed ones.
    abbrev pub param_message : Option Text → List OscType → Option Command
    param_message none args = none
    param_message (some []) args = none
    param_message (some (c ∷ p)) args = and_then (float_arg args 0) (λ v. some (set_osc (c ∷ p) v))

    unfoldable pub map_message : Text → List OscType → Option Command
    unfolding cue_number_arg float_arg
    map_message addr args =
        if text_eq addr (codes "/conduite/cue/go")
        then some cue_go
        else if text_eq addr (codes "/conduite/cue/back")
        then some cue_back
        else if text_eq addr (codes "/conduite/cue/goto")
        then and_then (cue_number_arg args 0) (λ n. some (cue_goto n))
        else if text_eq addr (codes "/conduite/bpm/tap")
        then some tap_tempo
        else if text_eq addr (codes "/conduite/bpm")
        then and_then (float_arg args 0) (λ x. some (bpm_set x))
        else if text_eq addr (codes "/conduite/master")
        then and_then (float_arg args 0) (λ v. some (set_osc master_addr v))
        else if text_eq addr (codes "/conduite/dbo")
        then and_then (float_arg args 0) (λ fade_s. some (dbo fade_s))
        else if text_eq addr (codes "/conduite/dbo/release")
        then some dbo_release
        else param_message (strip_prefix (codes "/conduite/param/") addr) args
