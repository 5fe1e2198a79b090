-- ===== src/Core/Timecode/Parse.antt =====
-- crates/core/src/timecode.rs: the text HH:MM:SS:FF of a position, `Display` and `FromStr`. The
-- single error, an invalid timecode, is none.
pub mod RoundTrip
use videocuelist.Prelude.{
  ℕ, Bool, true, false, not, ◌||◌, List, [], ◌∷◌, ◌++◌, Option, none, some, all, ltb, ◌==◌, length,
  and_then, if◌then◌else◌,
}
use videocuelist.Text.{Text, is_digit, trim, split, digits, parse_uint}
use videocuelist.Core.Timecode.{TcTime}

-- `{:02}` of a `u8`, which has three digits at most.
abbrev pub two_digits : ℕ → Text
two_digits n = if ltb n 10 then b'0' ∷ digits 3 n else digits 3 n

unfoldable pub to_string : TcTime → Text
to_string t =
    two_digits t.h
    ++ (b':' ∷ (two_digits t.m ++ (b':' ∷ (two_digits t.s ++ (b':' ∷ two_digits t.f)))))

abbrev pub is_separator : ℕ → Bool
is_separator c = c == b':' || c == b';'

abbrev pub is_empty : Text → Bool
is_empty [] = true
is_empty (c ∷ s) = false

unfoldable pub field : ℕ → Text → Option ℕ
field max_value p =
    if is_empty p || ltb 2 (length p) || not (all is_digit p)
    then none
    else and_then (parse_uint 255 p) (λ v. if ltb max_value v then none else some v)

abbrev pub from_parts : List Text → Option TcTime
from_parts (h ∷ m ∷ s ∷ f ∷ []) = and_then (field 23 h) (λ h'. and_then (field 59 m) (λ m'.
    and_then (field 59 s)
      (λ s'. and_then (field 59 f) (λ f'. some (record { h = h'; m = m'; s = s'; f = f' })))))
from_parts _ = none

unfoldable pub from_str : Text → Option TcTime
unfolding field
from_str s = from_parts (split is_separator (trim s))
