-- ===== src/Text/Utf8.antt =====
-- `str::from_utf8`: the code points of a text of bytes, none where the bytes are no UTF-8.
use videocuelist.Prelude.{
  ℕ, ◌+◌, ◌*◌, ◌-◌, ◌≡◌, refl, true, ◌&&◌, List, [], ◌∷◌, Option, none, some, leb, ltb, ◌==◌,
  if◌then◌else◌, and_then, arith,
}
use videocuelist.Text.{Text}
use videocuelist.Text.Words.{free}

-- Where a decoder stands: how many bytes are to follow, the bounds of the next, and the bits so far.
record Decoder : Type 0 where
  missing : ℕ
  low : ℕ
  high : ℕ
  bits : ℕ

abbrev decoder : ℕ → ℕ → ℕ → ℕ → Decoder
decoder missing low high bits = record { missing = missing; low = low; high = high; bits = bits }

-- The first byte of a code point. Overlong forms, surrogates and what is above 10FFFF are excluded
-- by the bounds of the second byte.
abbrev lead : ℕ → Option Decoder
lead b =
    if ltb b 0x80
    then some (decoder 0 0 0 b)
    else if ltb b 0xC2
    then none
    else if ltb b 0xE0
    then some (decoder 1 0x80 0xBF (b - 0xC0))
    else if b == 0xE0
    then some (decoder 2 0xA0 0xBF 0)
    else if b == 0xED
    then some (decoder 2 0x80 0x9F 13)
    else if ltb b 0xF0
    then some (decoder 2 0x80 0xBF (b - 0xE0))
    else if b == 0xF0
    then some (decoder 3 0x90 0xBF 0)
    else if ltb b 0xF4
    then some (decoder 3 0x80 0xBF (b - 0xF0))
    else if b == 0xF4
    then some (decoder 3 0x80 0x8F 4)
    else none

-- A byte that continues a code point.
abbrev continues : Decoder → ℕ → Option Decoder
continues st b =
    if leb st.low b && leb b st.high
    then some (decoder (st.missing - 1) 0x80 0xBF (st.bits * 64 + (b - 0x80)))
    else none

abbrev step_byte : Decoder → ℕ → Option Decoder
step_byte st b = if st.missing == 0 then lead b else continues st b

-- The code point, if it is complete, before the rest.
abbrev emit_code : Decoder → Option Text → Option Text
emit_code st none = none
emit_code st (some s) = if st.missing == 0 then some (st.bits ∷ s) else some s

decode : Decoder → List ℕ → Option Text
decode st [] = if st.missing == 0 then some [] else none
decode st (b ∷ bs) = and_then (step_byte st b) (λ next. emit_code next (decode next bs))

unfoldable pub from_utf8 : List ℕ → Option Text
unfolding decode
from_utf8 bs = decode (decoder 0 0 0 0) bs

decode-ascii :
    (st : Decoder) (bs : List ℕ)
    → st.missing ≡ 0
    → free (leb 0x80) bs ≡ true
    → decode st bs ≡ some bs
unfolding decode
decode-ascii st [] m a = ground (arith, m)
decode-ascii st (b ∷ bs) m a = ground (arith, m, decode-ascii (decoder 0 0 0 b) bs refl)

-- A text of ASCII is its own bytes.
pub from_utf8-ascii : (bs : List ℕ) → free (leb 0x80) bs ≡ true → from_utf8 bs ≡ some bs
unfolding from_utf8
from_utf8-ascii bs a = decode-ascii (decoder 0 0 0 0) bs refl a

accented : from_utf8 (0xC3 ∷ 0xA9 ∷ 0x41 ∷ []) ≡ some (0xE9 ∷ 0x41 ∷ [])
unfolding from_utf8
accented = refl

overlong : from_utf8 (0xC0 ∷ 0x80 ∷ []) ≡ none
unfolding from_utf8
overlong = refl

surrogate : from_utf8 (0xED ∷ 0xA0 ∷ 0x80 ∷ []) ≡ none
unfolding from_utf8
surrogate = refl
