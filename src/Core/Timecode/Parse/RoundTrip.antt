-- ===== src/Core/Timecode/Parse/RoundTrip.antt =====
-- crates/core/src/timecode.rs: the text of a position, printed and read.
use videocuelist.Prelude.{
  InRange, suc, ap, ◌∙◌, Option-cases, inl, inr, ℕ, ◌+◌, ◌<◌, ◌≤◌, ◌≡◌, ◌/◌, ◌%◌, refl, true, ◌∷◌,
  [], ◌++◌, some, arith, List,
}
use videocuelist.Text.{Text, is_whitespace, trim, split, digits, parse_uint, value}
use videocuelist.Text.Words.{free, free-append, trim-free, split-last, split-word}
use videocuelist.Core.Timecode.{TcTime}
use videocuelist.Core.Timecode.Parse.{
  two_digits, to_string, is_separator, field, from_parts, from_str,
}

-- Two digits of a number below 100.
two_digits-lem : (n : ℕ) → n < 100 → two_digits n ≡ (48 + n / 10) ∷ (48 + n % 10) ∷ []
unfolding digits
two_digits-lem n l = ground arith

two_digits-separator : (n : ℕ) → n < 100 → free is_separator (two_digits n) ≡ true
two_digits-separator n l = rw (two_digits-lem n l) (ground arith)

two_digits-space : (n : ℕ) → n < 100 → free is_whitespace (two_digits n) ≡ true
two_digits-space n l = rw (two_digits-lem n l) (ground arith)

field-two_digits :
    (max_value n : ℕ) → n < 100 → n ≤ max_value → field max_value (two_digits n) ≡ some n
unfolding field parse_uint value
field-two_digits max_value n l m = rw (two_digits-lem n l) (ground arith)

four_words :
    (a b c d : Text)
    → free is_separator a ≡ true
    → free is_separator b ≡ true
    → free is_separator c ≡ true
    → free is_separator d ≡ true
    → split is_separator (a ++ (b':' ∷ (b ++ (b':' ∷ (c ++ (b':' ∷ d)))))) ≡ a ∷ b ∷ c ∷ d ∷ []
four_words a b c d p q r s =
    rw
      (
        split-word is_separator a b':' (b ++ (b':' ∷ (c ++ (b':' ∷ d)))) p refl,
        split-word is_separator b b':' (c ++ (b':' ∷ d)) q refl,
        split-word is_separator c b':' d r refl,
        split-last is_separator d s,
      )
      refl

from_parts-digits :
    (t : TcTime)
    → t.h ≤ 23
    → t.m ≤ 59
    → t.s ≤ 59
    → t.f ≤ 59
    → from_parts (two_digits t.h ∷ two_digits t.m ∷ two_digits t.s ∷ two_digits t.f ∷ []) ≡ some t
from_parts-digits t h m s f =
    rw
      (
        field-two_digits 23 t.h (omega arith) h,
        field-two_digits 59 t.m (omega arith) m,
        field-two_digits 59 t.s (omega arith) s,
        field-two_digits 59 t.f (omega arith) f,
      )
      refl

field-InRange : (max_value : ℕ) (p : Text) → InRange (suc max_value) (field max_value p)
unfolding field
field-InRange max_value p = elim (Option-cases (parse_uint 255 p)) [
  | inl n ↦ ground arith
  | inr (x, q) ↦ ground arith
]

from_parts-range :
    (ws : List Text) (t : TcTime)
    → from_parts ws ≡ some t
    → (t.h ≤ 23) × (t.m ≤ 59) × (t.s ≤ 59) × (t.f ≤ 59)
from_parts-range [] t e = ground arith
from_parts-range (a ∷ []) t e = ground arith
from_parts-range (a ∷ b ∷ []) t e = ground arith
from_parts-range (a ∷ b ∷ c ∷ []) t e = ground arith
from_parts-range (a ∷ b ∷ c ∷ d ∷ []) t e =
    ground (arith, field-InRange 23 a, field-InRange 59 b, field-InRange 59 c, field-InRange 59 d)
from_parts-range (a ∷ b ∷ c ∷ d ∷ x ∷ ws) t e = ground arith

-- A position whose fields are in range comes back from its text.
pub from_str-to_string :
    (t : TcTime) → t.h ≤ 23 → t.m ≤ 59 → t.s ≤ 59 → t.f ≤ 59 → from_str (to_string t) ≡ some t
unfolding from_str to_string
from_str-to_string t h m s f =
    let rest_f = two_digits t.f in
    let rest_s = two_digits t.s ++ (b':' ∷ rest_f) in
    let rest_m = two_digits t.m ++ (b':' ∷ rest_s) in
    ap (λ z. from_parts (split is_separator z))
      (trim-free (two_digits t.h ++ (b':' ∷ rest_m)) (
        free-append is_whitespace (two_digits t.h) (b':' ∷ rest_m)
          (two_digits-space t.h (omega arith))
          (free-append is_whitespace (two_digits t.m) (b':' ∷ rest_s)
            (two_digits-space t.m (omega arith))
            (free-append is_whitespace (two_digits t.s) (b':' ∷ rest_f)
              (two_digits-space t.s (omega arith)) (two_digits-space t.f (omega arith))))))
    ∙ ap from_parts (
        four_words (two_digits t.h) (two_digits t.m) (two_digits t.s) (two_digits t.f)
          (two_digits-separator t.h (omega arith)) (two_digits-separator t.m (omega arith))
          (two_digits-separator t.s (omega arith)) (two_digits-separator t.f (omega arith)))
    ∙ from_parts-digits t h m s f

-- Whatever the text, the fields of what is read are in range.
pub from_str-range :
    (text : Text) (t : TcTime)
    → from_str text ≡ some t
    → (t.h ≤ 23) × (t.m ≤ 59) × (t.s ≤ 59) × (t.f ≤ 59)
unfolding from_str
from_str-range text t e = from_parts-range (split is_separator (trim text)) t e
