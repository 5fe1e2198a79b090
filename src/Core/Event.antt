-- ===== src/Core/Event.antt =====
-- crates/core/src/event.rs: the events of the state, and the snapshots that the surfaces are sent.
use Prim.Native.String.{String}
use videocuelist.Prelude.{ℕ, Bool, false, List, [], Option, none}
use videocuelist.Text.{Text}
use videocuelist.Float.{Floats, nat32}
use videocuelist.Core.Model.{CueNumber}
use videocuelist.Core.Timecode.{TcRate, TcTime}
use videocuelist.Core.Template.{AppMode, edit}
use videocuelist.Core.Edit.{EditOp}

pub record UpdateInfo : Type 0 where
  pub version : String
  pub url : String
  pub notes : String

pub record TimecodeStatus : Type 0 where
  pub time : TcTime
  pub rate : TcRate
  pub locked : Bool
  pub chasing : Bool

module _ ⦃F : Floats⦄ where
  open F use {F32}

  pub record HealthSnapshot : Type 0 where
    pub fps : List (ℕ × F32)
    pub drops : List (ℕ × ℕ)
    pub cpu_pct : F32
    pub mem_mb : F32
    pub temp_c : Option F32

  pub data StateEvent : Type 0 where
    cue_changed standby_changed : Option CueNumber → StateEvent
    transition_progress : F32 → StateEvent
    edit_applied : EditOp → StateEvent
    health_tick : HealthSnapshot → StateEvent
    log_line : (level target message : String) → StateEvent
    mode_changed : AppMode → StateEvent
    show_loaded : String → StateEvent
    bpm_changed master_changed : F32 → StateEvent
    dbo_changed : Bool → StateEvent
    warning : Text → StateEvent
    recovery_available : (path timestamp : String) → StateEvent
    diagnostic_ready : String → StateEvent

  pub record RuntimeStatus : Type 0 where
    pub mode : AppMode
    pub active : Option CueNumber
    pub standby : Option CueNumber
    pub progress : F32
    pub remaining_s : F32
    pub transition_active : Bool
    pub bpm : F32
    pub master : F32
    pub dbo : Bool
    pub mod_levels : List (ℕ × F32)
    pub update : Option UpdateInfo
    pub timecode : Option TimecodeStatus

  abbrev pub default_status : RuntimeStatus
  default_status = record {
    mode = edit;
    active = none;
    standby = none;
    progress = nat32 0;
    remaining_s = nat32 0;
    transition_active = false;
    bpm = nat32 120;
    master = nat32 1;
    dbo = false;
    mod_levels = [];
    update = none;
    timecode = none;
  }
