-- ===== src/Tests/Number.antt =====
-- crates/core/src/model.rs at concrete cue numbers.
use videocuelist.Prelude.{some, none, [], ◌∷◌, ◌≡◌, refl, arith}
use videocuelist.Text.{trim, digits}
use videocuelist.Core.Number.{to_string, from_str}
use videocuelist.Core.Number.RoundTrip.{from_str-to_string_number}

-- 12340 is printed as 12.34.
printed : to_string 12_340 ≡ b'1' ∷ b'2' ∷ b'.' ∷ b'3' ∷ b'4' ∷ []
unfolding to_string digits
printed = refl

-- A point without decimals is refused.
refused : from_str (b'1' ∷ b'.' ∷ []) ≡ none
unfolding from_str trim
refused = refl

number-from_str_example : from_str (to_string 12_340) ≡ some 12_340
number-from_str_example = from_str-to_string_number 12_340 (omega arith)
