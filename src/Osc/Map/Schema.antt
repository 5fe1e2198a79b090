-- ===== src/Osc/Map/Schema.antt =====
-- crates/control-osc/src/map.rs: what a message means, whatever the rest of its address and however a
-- surface sends its argument.
use videocuelist.Prelude.{◌≡◌, ◌≢◌, ◌≤◌, refl, List, [], ◌∷◌, ◌++◌, none, some, and_then}
use videocuelist.Text.{Text, codes}
use videocuelist.Float.{Floats}
use videocuelist.Core.Model.{CueNumber, ParamValue}
use videocuelist.Core.Template.{Source}
use videocuelist.Core.Number.{u32_max}
use videocuelist.Core.Number.RoundTrip.{from_str-to_string_number}
use videocuelist.Core.Command.{param_set, cue_goto}
use videocuelist.Osc.Argument.{Rosc, StringLaws}
use videocuelist.Osc.Map.{map_message, float_arg}
use videocuelist.Osc.Feedback.{cue_args}

module _ ⦃F : Floats⦄ ⦃R : Rosc⦄ where
  open F use {F32}
  open R use {OscType, case_of, string_of}

  -- Every address under that of the parameters, but for the empty one, sets the parameter of the rest
  -- of the address to the number that the argument gives, and is refused if it gives none: no
  -- parameter is taken for a fixed address.
  pub map_message-param :
      (p : Text) (args : List OscType)
      → p ≢ []
      → map_message (codes "/conduite/param/" ++ p) args
        ≡ and_then (float_arg args 0) (λ v. some (param_set p (ParamValue.f v) Source.osc))
  unfolding map_message
  map_message-param [] args n = absurd (n refl)
  map_message-param (c ∷ p) args n = refl

  -- The text that the feedback sends for a cue, sent back as the argument of a GOTO, is a GOTO to that
  -- cue, and the empty text that it sends for no cue is refused.
  pub map_message-cue_args :
      StringLaws R
      → (n : CueNumber) → n ≤ u32_max
      → (map_message (codes "/conduite/cue/goto") (cue_args (some n)) ≡ some (cue_goto n))
        × (map_message (codes "/conduite/cue/goto") (cue_args none) ≡ none)
  unfolding map_message
  map_message-cue_args l n b =
      (rw (l.case_of_string _, from_str-to_string_number n b) refl, rw (l.case_of_string _) refl)
