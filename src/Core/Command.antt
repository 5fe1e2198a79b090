-- ===== src/Core/Command.antt =====
-- crates/core/src/command.rs: the commands, and the command of a template.
use Prim.Native.String.{String}
use videocuelist.Text.{Text}
use videocuelist.Float.{Floats}
use videocuelist.Core.Model.{CueNumber, ParamValue}
use videocuelist.Core.Template.{
  Source, AppMode, CommandTemplate, go, back, goto, standby, panic, template_dbo, release, tempo,
  bpm, set_param, set_mode,
}
use videocuelist.Core.Edit.{EditOp}

module _ ⦃F : Floats⦄ where
  open F use {F32}

  pub data Command : Type 0 where
    param_set : (addr : Text) (value : ParamValue) (source : Source) → Command
    param_nudge : (addr : Text) (delta : F32) (source : Source) → Command
    cue_go cue_back : Command
    cue_goto cue_standby : CueNumber → Command
    cue_panic dbo : (fade_s : F32) → Command
    dbo_release tap_tempo : Command
    bpm_set : F32 → Command
    edit_show : EditOp → Command
    undo redo midi_learn_start midi_learn_cancel show_save : Command
    show_save_as show_load : String → Command
    show_new media_rescan diagnostic_report show_collect : Command
    mode_set : AppMode → Command
    recovery_load : String → Command
    recovery_dismiss quit : Command

  abbrev pub to_command : CommandTemplate → Source → Command
  to_command go source = cue_go
  to_command back source = cue_back
  to_command (goto n) source = cue_goto n
  to_command (standby n) source = cue_standby n
  to_command (panic fade_s) source = cue_panic fade_s
  to_command (template_dbo fade_s) source = dbo fade_s
  to_command release source = dbo_release
  to_command tempo source = tap_tempo
  to_command (bpm x) source = bpm_set x
  to_command (set_param addr value) source = param_set addr value source
  to_command (set_mode mode) source = mode_set mode
