-- ===== src/Core/Model.antt =====
-- crates/core/src/model.rs: the data of a cue, as far as the cue engine reads it. A map with text
-- keys is the function that looks a key up.
use Prim.Native.String.{String}
use videocuelist.Prelude.{ℕ, Bool, Option, List, if◌then◌else◌}
use videocuelist.Prelude.Int.{ℤ, pos, negsuc}
use videocuelist.Core.Timecode.{TcTime}
use videocuelist.Text.{Text}
use videocuelist.Float.{Floats, clamp32, nat32}

-- A number of a cue, in thousandths; a `u32`.
abbrev pub CueNumber : Type 0
CueNumber = ℕ

pub data PatternKind : Type 0 where
  grid checker ident bars grid4 grid16 color_bars : PatternKind

pub data EndMode : Type 0 where
  loop ping_pong hold black follow_next : EndMode

pub data TransitionKind : Type 0 where
  cut crossfade through_black : TransitionKind

pub data Curve : Type 0 where
  linear ease_in ease_out ease_in_out s_curve : Curve

pub record CueTriggers : Type 0 where
  pub midi_note : Option (ℕ × ℕ)
  pub osc : Option String
  pub timecode : Option TcTime

module _ ⦃F : Floats⦄ where
  open F use {F32, F64, lit32, lt32, add32, sub32, mul32, div32}

  pub data ParamValue : Type 0 where
    f : F32 → ParamValue
    i : ℤ → ParamValue
    b : Bool → ParamValue
    color : F32 → F32 → F32 → F32 → ParamValue
    p2 : F32 → F32 → ParamValue
    s : Text → ParamValue

  abbrev pub ParamMap : Type 0
  ParamMap = Text → Option ParamValue

  pub data Content : Type 0 where
    none : Content
    media : ℕ → Content
    material : ℕ → Content
    pattern_of : PatternKind → Content
    color_of : F32 → F32 → F32 → F32 → Content

  pub record Playback : Type 0 where
    pub in_s : F64
    pub out_s : Option F64
    pub speed : F32
    pub end : EndMode

  pub record SliceState : Type 0 where
    pub slice : ℕ
    pub content : Content
    pub playback : Option Playback
    pub params : ParamMap

  pub record Transition : Type 0 where
    pub kind : TransitionKind
    pub dur_s : F32
    pub curve : Curve

  abbrev pub default_transition : Transition
  default_transition = record { kind = cut; dur_s = nat32 0; curve = linear }

  pub data FollowMode : Type 0 where
    manual : FollowMode
    after_media : FollowMode
    wait : F32 → FollowMode

  pub record ModRouteState : Type 0 where
    pub route_id : ℕ
    pub depth : F32
    pub enabled : Bool

  pub record Cue : Type 0 where
    pub number : CueNumber
    pub name : String
    pub color : Option String
    pub notes : String
    pub armed : Bool
    pub transition : Transition
    pub follow : FollowMode
    pub goto_after : Option CueNumber
    pub states : List SliceState
    pub mod_routes : List ModRouteState
    pub triggers : CueTriggers

  -- The curve at a time that is first clamped to 0..1.
  apply_unit : Curve → F32 → F32
  apply_unit linear t = t
  apply_unit ease_in t = mul32 t t
  apply_unit ease_out t = sub32 (nat32 1) (mul32 (sub32 (nat32 1) t) (sub32 (nat32 1) t))
  apply_unit ease_in_out t =
      if lt32 t (lit32 (pos 1) 2)
      then mul32 (mul32 (nat32 2) t) t
      else (let u = add32 (mul32 (lit32 (negsuc 1) 1) t) (nat32 2) in
          sub32 (nat32 1) (div32 (mul32 u u) (nat32 2)))
  apply_unit s_curve t = mul32 (mul32 t t) (sub32 (nat32 3) (mul32 (nat32 2) t))

  unfoldable pub apply : Curve → F32 → F32
  unfolding apply_unit
  apply c t = apply_unit c (clamp32 t (nat32 0) (nat32 1))
