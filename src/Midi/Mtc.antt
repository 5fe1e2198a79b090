-- ===== src/Midi/Mtc.antt =====
-- crates/control-midi/src/mtc.rs: the assembler of MIDI time code. A byte is a number below 256; the
-- pieces of a group are an array of eight, read by their index.
pub mod Valid
pub mod Pieces
pub mod Groups
pub mod Clock
use videocuelist.Prelude.{
  ℕ, ◌+◌, ◌*◌, ◌/◌, ◌%◌, ◌^◌, Bool, true, false, not, ◌&&◌, ◌||◌, List, [], ◌∷◌, Option, none, some,
  ltb, ◌==◌, if◌then◌else◌,
}
use videocuelist.Core.Timecode.{
  TcRate, fps24, fps25, fps2997_df, fps30, TcTime, nominal_fps, is_drop_frame, frames_per_day,
  to_frames, from_frames,
}
use videocuelist.Cue.Chase.{rate_eq}

pub data MtcEvent : Type 0 where
  locked : TcRate → MtcEvent
  time : TcTime → MtcEvent
  full_frame : TcTime → MtcEvent
  signal_lost : MtcEvent

-- `code & 0x03`.
abbrev pub decode_rate : ℕ → TcRate
decode_rate code =
    if code % 4 == 0
    then fps24
    else if code % 4 == 1
    then fps25
    else if code % 4 == 2
    then fps2997_df
    else fps30

unfoldable pub is_valid : TcTime → TcRate → Bool
is_valid t rate =
    let ranges = ltb t.h 24 && ltb t.m 60 && ltb t.s 60 && ltb t.f (nominal_fps rate) in
    let dropped = is_drop_frame rate && t.s == 0 && ltb t.f 2 && not (t.m % 10 == 0) in
    ranges && not dropped

-- Every caller moves forward, so the step is a number; the sum is far below the bound of `i64`.
unfoldable pub add_frames : TcTime → TcRate → ℕ → TcTime
add_frames t rate delta = from_frames ((to_frames t rate + delta) % frames_per_day rate) rate

pub record MtcAssembler : Type 0 where
  pub pieces : ℕ → ℕ
  pub mask : ℕ
  pub prev : Option ℕ
  pub forward : Bool
  pub is_locked : Bool
  pub rate : Option TcRate

abbrev pub new : MtcAssembler
new = record {
  pieces = λ i. 0;
  mask = 0;
  prev = none;
  forward = true;
  is_locked = false;
  rate = none;
}

-- `mask |= 1 << piece`.
abbrev pub set_bit : ℕ → ℕ → ℕ
set_bit piece mask = if mask / 2 ^ piece % 2 == 0 then mask + 2 ^ piece else mask

-- The direction by the piece before: a step on, a step back, or a break. The Boolean tells that a
-- locked signal is lost.
unfoldable pub turn : ℕ → MtcAssembler → Bool × MtcAssembler
turn piece a = elim a.prev [
  | none ↦ (false, a)
  | some p ↦
      if piece == (p + 1) % 8
      then (false, (if a.forward then a else record a { forward = true; mask = 0 }))
      else if piece == (p + 7) % 8
      then (false, (if a.forward then record a { forward = false; mask = 0 } else a))
      else (a.is_locked, record a { is_locked = false; mask = 0 })
]

-- `self.data[piece] = val`.
unfoldable pub put : ℕ → ℕ → (ℕ → ℕ) → ℕ → ℕ
put piece val d i = if i == piece then val else d i

-- The piece goes into its group; the first of a group starts it anew.
unfoldable pub collect : ℕ → ℕ → MtcAssembler → MtcAssembler
collect piece val a =
    let first = (a.forward && piece == 0) || (not a.forward && piece == 7) in
    record a {
      pieces = put piece val a.pieces;
      mask = set_bit piece (if first then 0 else a.mask);
      prev = some piece;
    }

abbrev pub is_complete : ℕ → MtcAssembler → Bool
is_complete piece a = a.mask == 0xFF && ((a.forward && piece == 7) || (not a.forward && piece == 0))

-- The position of a group. A piece has four bits, so that the halves do not overlap.
unfoldable pub time_of : (ℕ → ℕ) → TcTime
time_of d = record {
  h = d 6 + d 7 % 2 * 16;
  m = d 4 + d 5 % 4 * 16;
  s = d 2 + d 3 % 4 * 16;
  f = d 0 + d 1 % 2 * 16;
}

abbrev pub is_rate : TcRate → Option TcRate → Bool
is_rate r none = false
is_rate r (some q) = rate_eq q r

unfoldable pub assemble : MtcAssembler → Option MtcEvent × MtcAssembler
assemble a =
    let t = time_of a.pieces in
    let r = decode_rate (a.pieces 7 / 2) in
    if not (is_valid t r)
    then (none, record a { is_locked = false; mask = 0 })
    else (let t' = if a.forward then add_frames t r 2 else t in
        let newly = not a.is_locked || not (is_rate r a.rate) in
        (some (if newly then locked r else time t'), record a { is_locked = true; rate = some r }))

-- One piece and its four bits.
unfoldable pub take_piece : ℕ → ℕ → MtcAssembler → Option MtcEvent × MtcAssembler
take_piece piece val a =
    let turned = turn piece a in
    let next = collect piece val turned.1 in
    if turned.0
    then (some signal_lost, next)
    else if is_complete piece next
    then assemble next
    else (none, next)

unfoldable pub quarter_frame : ℕ → MtcAssembler → Option MtcEvent × MtcAssembler
quarter_frame d a = take_piece (d / 16) (d % 16) a

unfoldable pub full_frame_of : ℕ → ℕ → ℕ → ℕ → MtcAssembler → Option MtcEvent × MtcAssembler
full_frame_of hh m s f a =
    let r = decode_rate (hh / 32 % 4) in
    let t : TcTime = record { h = hh % 32; m = m % 128; s = s % 128; f = f % 128 } in
    if not (is_valid t r)
    then (none, a)
    else (some (full_frame t), record a { mask = 0; prev = none; is_locked = false; rate = some r })

-- The four bytes of a position in the frame F0 7F dev 01 01 hh mm ss ff F7.
unfoldable pub position_bytes : List ℕ → Option (ℕ × ℕ × ℕ × ℕ)
position_bytes (b0 ∷ b1 ∷ dev ∷ b3 ∷ b4 ∷ hh ∷ m ∷ s ∷ f ∷ b9 ∷ []) =
    if b0 == 0xF0 && b1 == 0x7F && b3 == 0x01 && b4 == 0x01 && b9 == 0xF7
    then some (hh, m, s, f)
    else none
position_bytes _ = none

abbrev pub is_quarter : List ℕ → Bool
is_quarter [] = false
is_quarter (b ∷ rest) = b == 0xF1

unfoldable pub is_mtc : List ℕ → Bool
unfolding position_bytes
is_mtc bytes = is_quarter bytes || elim (position_bytes bytes) [ some p ↦ true | none ↦ false ]

-- A quarter frame, F1 and its data byte.
unfoldable pub push_quarter : List ℕ → MtcAssembler → Option MtcEvent × MtcAssembler
push_quarter (b ∷ d ∷ rest) a = if b == 0xF1 then quarter_frame (d % 128) a else (none, a)
push_quarter _ a = (none, a)

-- The two patterns differ in their first byte, so that their order does not matter.
unfoldable pub push : List ℕ → MtcAssembler → Option MtcEvent × MtcAssembler
push bytes a = elim (position_bytes bytes) [
  | some (hh, m, s, f) ↦ full_frame_of hh m s f a
  | none ↦ push_quarter bytes a
]
