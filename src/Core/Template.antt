-- ===== src/Core/Template.antt =====
-- crates/core/src/command.rs: where a command comes from, and the templates of commands that a
-- binding holds.
use videocuelist.Prelude.{Bool, true, false}
use videocuelist.Text.{Text}
use videocuelist.Float.{Floats}
use videocuelist.Core.Model.{CueNumber, ParamValue}

pub data Source : Type 0 where
  ui osc midi artnet cue modulation internal : Source

pub data AppMode : Type 0 where
  edit show : AppMode

module _ ⦃F : Floats⦄ where
  open F use {F32}

  pub data CommandTemplate : Type 0 where
    go back : CommandTemplate
    goto standby : CueNumber → CommandTemplate
    panic template_dbo : (fade_s : F32) → CommandTemplate
    release tempo : CommandTemplate
    bpm : F32 → CommandTemplate
    set_param : (addr : Text) (value : ParamValue) → CommandTemplate
    set_mode : AppMode → CommandTemplate

abbrev pub is_cue : Source → Bool
is_cue cue = true
is_cue _ = false
