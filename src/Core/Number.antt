-- ===== src/Core/Number.antt =====
-- crates/core/src/model.rs: a cue number, in thousandths, and its text. The single error, an
-- invalid number, is none.
pub mod RoundTrip
use videocuelist.Prelude.{
  ℕ, zero, suc, ◌+◌, ◌-◌, ◌*◌, ◌/◌, ◌%◌, ◌^◌, min, Bool, true, false, not, ◌&&◌, ◌||◌, List, [],
  ◌∷◌, ◌++◌, Option, none, some, all, ltb, ◌==◌, length, and_then, if◌then◌else◌,
}
use videocuelist.Text.{Text, is_digit, trim, digits, parse_uint}
use videocuelist.Core.Model.{CueNumber}

abbrev pub u32_max : ℕ
u32_max = 4_294_967_295

-- `saturating_mul` and `saturating_add` of `u32`.
unfoldable pub new : ℕ → ℕ → CueNumber
new int thousandths = min u32_max (min u32_max (int * 1000) + min thousandths 999)

abbrev pub frac_digits : ℕ → Text
frac_digits frac = (48 + frac / 100) ∷ (48 + frac / 10 % 10) ∷ (48 + frac % 10) ∷ []

abbrev pub nth : Text → ℕ → ℕ
nth [] i = 0
nth (c ∷ s) zero = c
nth (c ∷ s) (suc i) = nth s i

abbrev pub take : ℕ → Text → Text
take zero s = []
take (suc n) [] = []
take (suc n) (c ∷ s) = c ∷ take n s

-- The loop that shortens the length while the last digit is 0 and another stands before it.
abbrev pub trimmed_len : Text → ℕ → ℕ
trimmed_len s zero = 0
trimmed_len s (suc zero) = 1
trimmed_len s (suc (suc k)) =
    let shorter = trimmed_len s (suc k) in if nth s (suc k) == b'0' then shorter else suc (suc k)

abbrev pub frac_text : ℕ → Text
frac_text frac = take (trimmed_len (frac_digits frac) 3) (frac_digits frac)

unfoldable pub to_string : CueNumber → Text
to_string n =
    if n % 1000 == 0
    then digits 10 (n / 1000)
    else digits 10 (n / 1000) ++ (b'.' ∷ frac_text (n % 1000))

-- `str::split_once`.
unfoldable pub split_once : ℕ → Text → Option (Text × Text)
split_once p [] = none
split_once p (c ∷ s) =
    if c == p then some ([], s) else and_then (split_once p s) (λ r. some (c ∷ r.0, r.1))

abbrev pub is_empty : Text → Bool
is_empty [] = true
is_empty (c ∷ s) = false

-- The whole part and the decimals, and nothing where a point has no decimals after it.
abbrev pub parts : Text → Option (Text × Text)
parts raw = elim (split_once b'.' raw) [
  | none ↦ some (raw, [])
  | some (i, f) ↦ if is_empty f then none else some (i, f)
]

-- The loop over the decimals: the digit at `i` weighs `10 ^ (2 - i)`.
unfoldable pub frac_value : ℕ → Text → ℕ
frac_value i [] = 0
frac_value i (c ∷ s) = (c - 48) * 10 ^ (2 - i) + frac_value (i + 1) s

-- `checked_mul(1000)`, then `checked_add`.
abbrev pub checked : ℕ → ℕ → Option CueNumber
checked int frac =
    if ltb u32_max (int * 1000)
    then none
    else (if ltb u32_max (int * 1000 + frac) then none else some (int * 1000 + frac))

unfoldable pub from_parts : Text → Text → Option CueNumber
unfolding frac_value
from_parts int_part frac_part =
    if is_empty int_part || not (all is_digit int_part) || not (all is_digit frac_part)
    then none
    else if ltb 3 (length frac_part)
    then none
    else and_then (parse_uint u32_max int_part) (λ int. checked int (frac_value 0 frac_part))

unfoldable pub from_str : Text → Option CueNumber
unfolding split_once from_parts
from_str s =
    let raw = trim s in
    if is_empty raw then none else and_then (parts raw) (λ r. from_parts r.0 r.1)
