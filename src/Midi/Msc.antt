-- ===== src/Midi/Msc.antt =====
-- crates/control-midi/src/msc.rs: MIDI Show Control, from a frame of bytes to a command.
pub mod Go
pub mod Meaning
use videocuelist.Prelude.{
  ℕ, Bool, true, false, not, ◌&&◌, ◌||◌, List, [], ◌∷◌, Option, none, some, pop_back, and_then,
  ◌==◌, if◌then◌else◌,
}
use videocuelist.Text.{Text, trim}
use videocuelist.Text.Utf8.{from_utf8}
use videocuelist.Float.{Floats, nat32}
use videocuelist.Core.Model.{CueNumber}
use videocuelist.Core.Number.{from_str}
use videocuelist.Core.Command.{Command, cue_go, cue_goto, cue_panic, cue_standby}

abbrev pub msc_all_call : ℕ
msc_all_call = 0x7F

pub data CueField : Type 0 where
  absent : CueField
  valid : CueNumber → CueField
  invalid : CueField

-- `position` of the first 0, and the bytes before it.
abbrev pub first_field : List ℕ → List ℕ
first_field [] = []
first_field (b ∷ bs) = let rest = first_field bs in if b == 0 then [] else b ∷ rest

abbrev pub cue_field_of : Option CueNumber → CueField
cue_field_of none = invalid
cue_field_of (some n) = valid n

abbrev pub read_number : List ℕ → Option CueNumber
read_number field = and_then (from_utf8 field) (λ s. from_str (trim s))

abbrev pub field_value : List ℕ → CueField
field_value [] = absent
field_value (b ∷ bs) = cue_field_of (read_number (b ∷ bs))

unfoldable pub parse_cue_field : List ℕ → CueField
unfolding from_utf8 trim from_str
parse_cue_field bytes = field_value (first_field bytes)

-- A frame is for this receiver: its device, or all of them on either side.
abbrev pub is_addressed : ℕ → ℕ → Bool
is_addressed dev device_id =
    not (not (dev == msc_all_call) && not (device_id == msc_all_call) && not (dev == device_id))

module _ ⦃F : Floats⦄ where
  abbrev pub go_command : CueField → Option Command
  go_command absent = some cue_go
  go_command (valid n) = some (cue_goto n)
  go_command invalid = none

  abbrev pub load_command : CueField → Option Command
  load_command absent = none
  load_command (valid n) = some (cue_standby n)
  load_command invalid = none

  abbrev pub msc_command : ℕ → CueField → Option Command
  msc_command command field =
      if command == 0x01
      then go_command field
      else if command == 0x02
      then some (cue_panic (nat32 0))
      else if command == 0x03
      then some cue_go
      else if command == 0x04
      then load_command field
      else none

  -- The bytes after the command: the data, and the end of the frame.
  abbrev pub msc_body : ℕ → Option (List ℕ × ℕ) → Option Command
  msc_body command none = none
  msc_body command (some (bytes, last)) =
      if last == 0xF7 then msc_command command (parse_cue_field bytes) else none

  unfoldable pub parse_msc : List ℕ → ℕ → Option Command
  unfolding parse_cue_field
  parse_msc (b0 ∷ b1 ∷ dev ∷ b3 ∷ format ∷ command ∷ rest) device_id =
      if b0 == 0xF0 && b1 == 0x7F && b3 == 0x02 && is_addressed dev device_id
      then msc_body command (pop_back rest)
      else none
  parse_msc _ device_id = none
