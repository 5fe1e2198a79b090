-- ===== src/Midi/Msg/Codec.antt =====
-- crates/control-midi/src/msg.rs: the decoder against the wire format, and the range of what it
-- returns.
use videocuelist.Prelude.{
  ap, last?, Option-cases, inl, inr, ℕ, ◌+◌, ◌/◌, ◌%◌, ◌<◌, ◌≡◌, List, [], ◌∷◌, ◌++◌, push_back,
  last?-push_back, push_back-last?, length-append, some, arith,
}
use videocuelist.Midi.Msg.{
  MidiMsg, note_on, note_off, control_change, control_change14, pitch_bend, sys_ex, parse_midi,
  parse_sys_ex, parse_channel,
}

-- The bytes of a message in the MIDI standard: a status with the channel, then data bytes below
-- 128. A paired controller is no message of the wire.
abbrev pub wire : MidiMsg → List ℕ
wire (note_on c n v) = (0x90 + c) ∷ n ∷ v ∷ []
wire (note_off c n) = (0x80 + c) ∷ n ∷ []
wire (control_change c n v) = (0xB0 + c) ∷ n ∷ v ∷ []
wire (control_change14 c n v) = []
wire (pitch_bend c v) = (0xE0 + c) ∷ (v % 128) ∷ (v / 128) ∷ []
wire (sys_ex bytes) = bytes

-- The messages that the standard can carry; a note-on has a velocity that is not 0.
abbrev pub IsWire : MidiMsg → Type 0
IsWire (note_on c n v) = (c < 16) × (n < 128) × (0 < v) × (v < 128)
IsWire (note_off c n) = (c < 16) × (n < 128)
IsWire (control_change c n v) = (c < 16) × (n < 128) × (v < 128)
IsWire (control_change14 c n v) = ⊥
IsWire (pitch_bend c v) = (c < 16) × (v < 16_384)
IsWire (sys_ex bytes) = (body : List ℕ) × (bytes ≡ 0xF0 ∷ (body ++ (0xF7 ∷ [])))

-- A frame is kept exactly when it starts with F0 and ends with F7.
parse_sys_ex-frame :
    (body : List ℕ)
    → parse_sys_ex (0xF0 ∷ push_back body 0xF7) ≡ some (sys_ex (0xF0 ∷ push_back body 0xF7))
unfolding parse_sys_ex
parse_sys_ex-frame body =
    ground (arith, last?-push_back (0xF0 ∷ body) 0xF7, length-append body (0xF7 ∷ []))

frame-IsWire : (bytes : List ℕ) → last? bytes ≡ some 0xF7 → IsWire (sys_ex (0xF0 ∷ bytes))
frame-IsWire bytes e = let k = push_back-last? bytes 0xF7 e in (k.0, ap (λ l. 0xF0 ∷ l) k.1)

parse_sys_ex-IsWire :
    (s : ℕ) (rest : List ℕ) {msg : MidiMsg}
    → s ≡ 0xF0
    → parse_sys_ex (s ∷ rest) ≡ some msg
    → IsWire msg
unfolding parse_sys_ex
parse_sys_ex-IsWire s [] h e = ground arith
parse_sys_ex-IsWire s (b ∷ rest) h e = elim (Option-cases (last? (b ∷ rest))) [
  | inl n ↦ ground arith
  | inr (x, p) ↦ ground (arith, frame-IsWire (b ∷ rest))
]

-- A message of the standard comes back from its bytes.
pub parse_midi-wire : (msg : MidiMsg) → IsWire msg → parse_midi (wire msg) ≡ some msg
unfolding parse_midi parse_channel
parse_midi-wire (note_on c n v) w = ground arith
parse_midi-wire (note_off c n) w = ground arith
parse_midi-wire (control_change c n v) w = ground arith
parse_midi-wire (control_change14 c n v) w = absurd w
parse_midi-wire (pitch_bend c v) w = ground arith
parse_midi-wire (sys_ex bytes) w = rw w.1 (parse_sys_ex-frame w.0)

-- What the decoder returns is a message of the standard, whatever the bytes: channels below 16,
-- data below 128, a bend below 16384, a frame from F0 to F7.
pub parse_midi-IsWire : (bytes : List ℕ) {msg : MidiMsg} → parse_midi bytes ≡ some msg → IsWire msg
unfolding parse_midi parse_channel
parse_midi-IsWire [] e = ground arith
parse_midi-IsWire (s ∷ []) {msg = msg} e = ground (arith, parse_sys_ex-IsWire s [] {msg = msg})
parse_midi-IsWire (s ∷ a ∷ []) {msg = msg} e =
    ground (arith, parse_sys_ex-IsWire s (a ∷ []) {msg = msg})
parse_midi-IsWire (s ∷ a ∷ b ∷ rest) {msg = msg} e =
    ground (arith, parse_sys_ex-IsWire s (a ∷ b ∷ rest) {msg = msg})
