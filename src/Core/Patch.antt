-- ===== src/Core/Patch.antt =====
-- crates/core/src/patch.rs: the patch of a show, from channels, controllers and keys to parameters
-- and commands.
use Prim.Native.String.{String}
use videocuelist.Prelude.{ℕ, Bool, List, Option}
use videocuelist.Text.{Text}
use videocuelist.Float.{Floats}
use videocuelist.Core.Template.{CommandTemplate}

pub data DmxBits : Type 0 where
  eight sixteen : DmxBits

pub record OscOutCfg : Type 0 where
  pub host : String
  pub port : ℕ

module _ ⦃F : Floats⦄ where
  open F use {F32}

  pub record PatchEntry : Type 0 where
    pub universe : ℕ
    pub channel : ℕ
    pub bits : DmxBits
    pub addr : Text
    pub min : F32
    pub max : F32
    pub smoothing_ms : F32

  pub record CcBinding : Type 0 where
    pub channel : ℕ
    pub cc : ℕ
    pub fourteen_bits : Bool
    pub addr : Text
    pub min : F32
    pub max : F32
    pub pickup : Bool

  pub data MidiBinding : Type 0 where
    note_binding : (channel note : ℕ) (command : CommandTemplate) → MidiBinding
    cc_binding_of : CcBinding → MidiBinding

  pub record KeyBinding : Type 0 where
    pub key : String
    pub command : CommandTemplate

  pub record PatchTable : Type 0 where
    pub artnet : List PatchEntry
    pub midi : List MidiBinding
    pub osc_out : Option OscOutCfg
    pub keys : List KeyBinding
