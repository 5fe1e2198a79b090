-- ===== src/Midi/Msg.antt =====
-- crates/control-midi/src/msg.rs: the decoding of the bytes of a MIDI message. A byte is a number
-- below 256.
pub mod Codec
use videocuelist.Prelude.{
  and_then, ℕ, ◌+◌, ◌*◌, ◌-◌, ◌/◌, ◌%◌, max, Bool, true, false, ◌&&◌, List, [], ◌∷◌, Option, none,
  some, ◌==◌, leb, length, last?, get_elem?, if◌then◌else◌,
}

pub data MidiMsg : Type 0 where
  note_on : (channel note velocity : ℕ) → MidiMsg
  note_off : (channel note : ℕ) → MidiMsg
  control_change : (channel cc value : ℕ) → MidiMsg
  control_change14 : (channel cc value : ℕ) → MidiMsg
  pitch_bend : (channel value : ℕ) → MidiMsg
  sys_ex : List ℕ → MidiMsg

-- `(msb << 7) | lsb` of two bytes: the bit of weight 128 may come from either.
abbrev pub combine : ℕ → ℕ → ℕ
combine msb lsb = 256 * (msb / 2) + 128 * max (msb % 2) (lsb / 128) + lsb % 128

-- `bytes.get(i)? & 0x7F`.
abbrev pub data_byte : List ℕ → ℕ → Option ℕ
data_byte bytes i = elim (get_elem? bytes i) [ some b ↦ some (b % 128) | none ↦ none ]

-- A note-on of velocity 0 is a note-off.
abbrev pub note_on_of : ℕ → ℕ → ℕ → MidiMsg
note_on_of channel note velocity =
    if velocity == 0 then note_off channel note else note_on channel note velocity

unfoldable pub parse_sys_ex : List ℕ → Option MidiMsg
parse_sys_ex bytes = elim (last? bytes) [
  | some b ↦ if leb 2 (length bytes) && b == 0xF7 then some (sys_ex bytes) else none
  | none ↦ none
]

-- One or two data bytes after the status, or nothing if the message is cut short.
abbrev pub one_data : List ℕ → (ℕ → MidiMsg) → Option MidiMsg
one_data bytes f = and_then (data_byte bytes 1) (λ a. some (f a))

abbrev pub two_data : List ℕ → (ℕ → ℕ → MidiMsg) → Option MidiMsg
two_data bytes f =
    and_then (data_byte bytes 1) (λ a. and_then (data_byte bytes 2) (λ b. some (f a b)))

-- The messages with a channel, by the high half of their status.
unfoldable pub parse_channel : ℕ → ℕ → List ℕ → Option MidiMsg
parse_channel kind channel bytes =
    if kind == 0x80
    then one_data bytes (note_off channel)
    else if kind == 0x90
    then two_data bytes (note_on_of channel)
    else if kind == 0xB0
    then two_data bytes (control_change channel)
    else if kind == 0xE0
    then two_data bytes (λ lsb msb. pitch_bend channel (combine msb lsb))
    else none

unfoldable pub parse_midi : List ℕ → Option MidiMsg
unfolding parse_sys_ex parse_channel
parse_midi [] = none
parse_midi (status ∷ rest) =
    if status == 0xF0
    then parse_sys_ex (status ∷ rest)
    else parse_channel (status - status % 16) (status % 16) (status ∷ rest)
