-- ===== src/Cue/Types.antt =====
-- crates/cue/src/lib.rs: the types of the engine. A vector index is a number; a map is the
-- function that looks a key up. The text of a warning is the constructor of `Message` that stands
-- for it.
use videocuelist.Prelude.{ℕ, Bool, Option, List}
use videocuelist.Core.Timecode.{TcTime, TcRate}
use videocuelist.Core.Model.{CueNumber, Cue, Content, Playback, ParamMap, TransitionKind, Curve}
use videocuelist.Float.{Floats}

pub record TcState : Type 0 where
  pub time : TcTime
  pub rate : TcRate
  pub locked : Bool

pub data Message : Type 0 where
  go_no_standby : Message
  back_on_first : Message
  back_no_armed : Message
  back_no_active : Message
  goto_missing : CueNumber → Message
  standby_missing : CueNumber → Message
  follow_no_standby : CueNumber → Message

module _ ⦃F : Floats⦄ where
  open F use {F32, F64}

  pub record EngineTick : Type 0 where
    pub now_s : F64
    pub media_eof : ℕ → Bool
    pub tc : Option TcState

  pub record SliceTarget : Type 0 where
    pub slice : ℕ
    pub content : Content
    pub playback : Option Playback

  pub record SceneTarget : Type 0 where
    pub per_slice : List SliceTarget
    pub params : ParamMap

  pub data CueEvent : Type 0 where
    cue_started : CueNumber → CueEvent
    transition_finished : CueNumber → CueEvent
    follow_armed : CueNumber → CueNumber → CueEvent
    follow_fired : CueNumber → CueNumber → CueEvent
    panic_started : F32 → CueEvent
    warning : Message → CueEvent

  pub record CueFrame : Type 0 where
    pub deck_a : Option SceneTarget
    pub deck_b : Option SceneTarget
    pub blend : F32
    pub black : F32
    pub params_target : Option (ParamMap × F32)
    pub freeze_b : Bool
    pub events : List CueEvent

  pub record CueStatus : Type 0 where
    pub active : Option CueNumber
    pub standby : Option CueNumber
    pub progress : F32
    pub remaining_s : Option F32
    pub transition_active : Bool

  pub record ActiveTransition : Type 0 where
    pub to : ℕ
    pub kind : TransitionKind
    pub dur_s : F32
    pub curve : Curve
    pub start_s : F64

  pub record PanicState : Type 0 where
    pub start_s : F64
    pub fade_s : F32
    pub from : F32

  pub record ChaseState : Type 0 where
    pub frames : ℕ
    pub rate : TcRate
    pub locked : Bool
    pub freewheel : Option (F64 × ℕ)

  pub data Pending : Type 0 where
    go : Pending
    back : Pending
    goto : CueNumber → Pending
    standby : CueNumber → Pending
    panic : F32 → Pending

  pub record CueEngine : Type 0 where
    pub cues : List Cue
    pub targets : List SceneTarget
    pub active : Option ℕ
    pub standby : Option ℕ
    pub transition : Option ActiveTransition
    pub cue_start_s : F64
    pub follow_fired : Bool
    pub panic : Option PanicState
    pub pending : List Pending
    pub events : List CueEvent
    pub last_now_s : F64
    pub finished_params : Option ParamMap
    pub media_start_s : F64
    pub speed_mult : ℕ → Option F32
    pub chase : Option ChaseState
