-- ===== src/Core/Show.antt =====
-- crates/core/src/model.rs and modulation.rs: the rest of a show.
use Prim.Native.String.{String}
use videocuelist.Prelude.{ℕ, Bool, List, [], ◌∷◌, Option}
use videocuelist.Prelude.Int.{ℤ}
use videocuelist.Text.{Text}
use videocuelist.Float.{Floats, nat32}
use videocuelist.Core.Model.{Cue, Transition, FollowMode}
use videocuelist.Core.Patch.{PatchTable}

pub record OutputCfg : Type 0 where
  pub id : ℕ
  pub name : String
  pub monitor_index : Option ℕ
  pub width : ℕ
  pub height : ℕ
  pub fullscreen : Bool
  pub enabled : Bool

pub record MaterialRef : Type 0 where
  pub id : ℕ
  pub path : String
  pub name : String

pub data RouteMode : Type 0 where
  add mul replace : RouteMode

module _ ⦃F : Floats⦄ where
  open F use {F32, F64}

  pub record Rect : Type 0 where
    pub x : F32
    pub y : F32
    pub w : F32
    pub h : F32

  abbrev pub full_rect : Rect
  full_rect = record { x = nat32 0; y = nat32 0; w = nat32 1; h = nat32 1 }

  -- The corners are four points, in a list.
  pub record Slice : Type 0 where
    pub id : ℕ
    pub name : String
    pub output : ℕ
    pub corners : List (F32 × F32)
    pub src : Rect
    pub z : ℤ
    pub enabled : Bool

  abbrev pub default_corners : List (F32 × F32)
  default_corners =
      (nat32 0, nat32 0) ∷ (nat32 1, nat32 0) ∷ (nat32 1, nat32 1) ∷ (nat32 0, nat32 1) ∷ []

  pub record MediaRef : Type 0 where
    pub id : ℕ
    pub path : String
    pub name : String
    pub duration_s : Option F64
    pub fps : Option F64
    pub width : ℕ
    pub height : ℕ
    pub missing : Bool

  pub data Wave : Type 0 where
    sine tri : Wave
    square : F32 → Wave
    saw random_sh drift : Wave

  pub data Freq : Type 0 where
    hz : F32 → Freq
    bpm_sync : F32 → Freq

  pub record AudioBand : Type 0 where
    pub low_hz : F32
    pub high_hz : F32
    pub gain : F32
    pub floor : F32
    pub attack_ms : F32
    pub release_ms : F32
    pub normalize : Bool

  pub data ModKind : Type 0 where
    lfo : (wave : Wave) (freq : Freq) (phase : F32) → ModKind
    audio_band : AudioBand → ModKind
    timecode_chase_kind : ModKind

  pub record ModulatorCfg : Type 0 where
    pub id : ℕ
    pub name : String
    pub kind : ModKind

  pub record ModRoute : Type 0 where
    pub id : ℕ
    pub source : ℕ
    pub target_addr : Text
    pub depth : F32
    pub mode : RouteMode

  pub record CueDefaults : Type 0 where
    pub transition : Option Transition
    pub follow : Option FollowMode
    pub color : Option String

  pub record ShowSettings : Type 0 where
    pub osc_in_port : ℕ
    pub osc_out_port : ℕ
    pub artnet_enabled : Bool
    pub artnet_universes : List ℕ
    pub language : String
    pub mjpeg_fps : ℕ
    pub mjpeg_width : ℕ
    pub mjpeg_height : ℕ
    pub autosave_debounce_s : F32
    pub autosave_interval_s : F32
    pub audio_input : Option String
    pub min_go_interval_ms : ℕ
    pub cue_defaults : CueDefaults
    pub update_check : Bool
    pub update_url : String
    pub boost_priority : Bool
    pub timecode_chase : Bool

  pub record Show : Type 0 where
    pub format_version : ℕ
    pub name : String
    pub outputs : List OutputCfg
    pub slices : List Slice
    pub media : List MediaRef
    pub materials : List MaterialRef
    pub cues : List Cue
    pub patch : PatchTable
    pub modulators : List ModulatorCfg
    pub routes : List ModRoute
    pub settings : ShowSettings
