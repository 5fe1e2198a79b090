-- ===== src/Midi/Mtc/Pieces.antt =====
-- crates/control-midi/src/mtc.rs: the eight pieces of a position as the MIDI time code defines
-- them, and what the assembler makes of all eight.
use videocuelist.Prelude.{
  ℕ, ◌+◌, ◌*◌, ◌/◌, ◌%◌, ◌<◌, ◌≡◌, refl, true, not, ◌||◌, List, [], ◌∷◌, Option, none, some, arith,
  if◌then◌else◌,
}
use videocuelist.Core.Timecode.{TcRate, fps24, fps25, fps2997_df, fps30, TcTime}
use videocuelist.Core.Timecode.Frames.{IsLabel}
use videocuelist.Midi.Mtc.{
  put, MtcEvent, MtcAssembler, add_frames, decode_rate, locked, time, assemble, take_piece,
  quarter_frame, push_quarter, push, position_bytes, is_rate, time_of,
}
use videocuelist.Midi.Mtc.Valid.{IsLabel-is_valid}

-- The code of a rate in the MIDI time code.
abbrev pub rate_code : TcRate → ℕ
rate_code fps24 = 0
rate_code fps25 = 1
rate_code fps2997_df = 2
rate_code fps30 = 3

-- The four bits of the last piece: the high bit of the hours, under the rate.
abbrev pub last_half : TcRate → TcTime → ℕ
last_half r t = rate_code r * 2 + t.h / 16

-- A quarter frame.
abbrev pub quarter : ℕ → ℕ → List ℕ
quarter piece half = 0xF1 ∷ (16 * piece + half) ∷ []

-- The pieces of a position in the order of a transport that runs forward, and of one that runs
-- backward.
abbrev pub forward_group : TcRate → TcTime → List (ℕ × ℕ)
forward_group r t =
    (0, t.f % 16)
    ∷ (1, t.f / 16)
    ∷ (2, t.s % 16)
    ∷ (3, t.s / 16)
    ∷ (4, t.m % 16)
    ∷ (5, t.m / 16)
    ∷ (6, t.h % 16)
    ∷ (7, last_half r t)
    ∷ []

abbrev pub backward_group : TcRate → TcTime → List (ℕ × ℕ)
backward_group r t =
    (7, last_half r t)
    ∷ (6, t.h % 16)
    ∷ (5, t.m / 16)
    ∷ (4, t.m % 16)
    ∷ (3, t.s / 16)
    ∷ (2, t.s % 16)
    ∷ (1, t.f / 16)
    ∷ (0, t.f % 16)
    ∷ []

abbrev pub event_then : Option MtcEvent → List MtcEvent → List MtcEvent
event_then none es = es
event_then (some e) es = e ∷ es

-- The events of quarter frames in their order, and the assembler after them.
abbrev pub push_all : List (ℕ × ℕ) → MtcAssembler → List MtcEvent × MtcAssembler
push_all [] a = ([], a)
push_all ((p, v) ∷ ps) a =
    let r = push (quarter p v) a in let rest = push_all ps r.1 in (event_then r.0 rest.0, rest.1)

-- The same without the bytes.
unfoldable pub take_all : List (ℕ × ℕ) → MtcAssembler → List MtcEvent × MtcAssembler
take_all [] a = ([], a)
take_all ((p, v) ∷ ps) a =
    let r = take_piece p v a in let rest = take_all ps r.1 in (event_then r.0 rest.0, rest.1)

unfoldable pub AllSmall : List (ℕ × ℕ) → Type 0
AllSmall [] = Unit
AllSmall ((p, v) ∷ ps) = (p < 8) × (v < 16) × AllSmall ps

pub push-quarter :
    (p v : ℕ) (a : MtcAssembler) → p < 8 → v < 16 → push (quarter p v) a ≡ take_piece p v a
unfolding push position_bytes push_quarter quarter_frame
push-quarter p v a l k = rw (piece_of p v l k, bits_of p v l k) refl
  where
    piece_of : (p v : ℕ) → p < 8 → v < 16 → (16 * p + v) % 128 / 16 ≡ p
    piece_of p v l k = omega arith

    bits_of : (p v : ℕ) → p < 8 → v < 16 → (16 * p + v) % 128 % 16 ≡ v
    bits_of p v l k = omega arith

decode_rate-last_half : (r : TcRate) (t : TcTime) → t.h < 24 → decode_rate (last_half r t / 2) ≡ r
decode_rate-last_half fps24 t l = ground arith
decode_rate-last_half fps25 t l = ground arith
decode_rate-last_half fps2997_df t l = ground arith
decode_rate-last_half fps30 t l = ground arith

-- What a complete group gives, to a locked assembler and to one that is not.
abbrev pub group_event : TcRate → TcTime → MtcAssembler → MtcEvent
group_event r t a = if not a.is_locked || not (is_rate r a.rate) then locked r else time t

-- The pieces of a position, in the assembler.
pub record Holds (r : TcRate) (t : TcTime) (d : ℕ → ℕ) : Type 0 where
  whole : time_of d ≡ t
  code : decode_rate (d 7 / 2) ≡ r

pub assemble-Holds :
    (r : TcRate) (t : TcTime) (a : MtcAssembler)
    → IsLabel r t
    → Holds r t a.pieces
    → assemble a ≡ (
      some (group_event r (if a.forward then add_frames t r 2 else t) a),
      record a { is_locked = true; rate = some r },
    )
unfolding assemble
assemble-Holds r t a l h = rw (h.code, h.whole, IsLabel-is_valid t r l) refl

-- The pieces after a group, whatever was there before, in the two orders.
abbrev pub pieces_forward : TcRate → TcTime → (ℕ → ℕ) → ℕ → ℕ
pieces_forward r t d = put 7 (last_half r t) (
    put 6 (t.h % 16) (
      put 5 (t.m / 16) (
        put 4 (t.m % 16)
          (put 3 (t.s / 16) (put 2 (t.s % 16) (put 1 (t.f / 16) (put 0 (t.f % 16) d)))))))

abbrev pub pieces_backward : TcRate → TcTime → (ℕ → ℕ) → ℕ → ℕ
pieces_backward r t d = put 0 (t.f % 16) (
    put 1 (t.f / 16) (
      put 2 (t.s % 16) (
        put 3 (t.s / 16)
          (put 4 (t.m % 16) (put 5 (t.m / 16) (put 6 (t.h % 16) (put 7 (last_half r t) d)))))))

abbrev halves_of : TcRate → TcTime → TcTime
halves_of r t = record {
  h = t.h % 16 + last_half r t % 2 * 16;
  m = t.m % 16 + t.m / 16 % 4 * 16;
  s = t.s % 16 + t.s / 16 % 4 * 16;
  f = t.f % 16 + t.f / 16 % 2 * 16;
}

halves_of-lem : (r : TcRate) (t : TcTime) → IsLabel r t → halves_of r t ≡ t
halves_of-lem fps24 t l = ground arith
halves_of-lem fps25 t l = ground arith
halves_of-lem fps2997_df t l = ground arith
halves_of-lem fps30 t l = ground arith

pub pieces_forward-Holds :
    (r : TcRate) (t : TcTime) (d : ℕ → ℕ) → IsLabel r t → Holds r t (pieces_forward r t d)
unfolding put time_of
pieces_forward-Holds r t d l = record {
  whole = halves_of-lem r t l;
  code = decode_rate-last_half r t l.hours;
}

pub pieces_backward-Holds :
    (r : TcRate) (t : TcTime) (d : ℕ → ℕ) → IsLabel r t → Holds r t (pieces_backward r t d)
unfolding put time_of
pieces_backward-Holds r t d l = record {
  whole = halves_of-lem r t l;
  code = decode_rate-last_half r t l.hours;
}
