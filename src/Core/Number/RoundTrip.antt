-- ===== src/Core/Number/RoundTrip.antt =====
-- crates/core/src/model.rs: the text of a cue number, printed and read.
use videocuelist.Prelude.{
  ℕ, suc, push_back, ltb, ◌==◌, ◌&&◌, Bool-cases, ◌+◌, ◌*◌, ◌/◌, ◌%◌, ◌<◌, ◌≤◌, ◌≡◌, refl, ap, ◌∙◌,
  Bool, true, false, ◌∷◌, [], ◌++◌, some, none, all, length, arith, inl, inr, if◌then◌else◌,
}
use videocuelist.Text.{Text, is_digit, is_whitespace, digits, parse_uint, value}
use videocuelist.Text.Decimal.{value-digits, digits-digits, digit-is_whitespace}
use videocuelist.Text.Words.{free, free-append, trim-free}
use videocuelist.Core.Model.{CueNumber}
use videocuelist.Core.Number.{
  u32_max, frac_text, to_string, split_once, is_empty, parts, frac_value, from_parts, from_str,
}

both : (b c : Bool) → (b && c) ≡ true → (b ≡ true) × (c ≡ true)
both b c e = ground arith

-- A text of digits has no character that is none.
digits-free :
    (p : ℕ → Bool)
    → ((c : ℕ) → is_digit c ≡ true → p c ≡ false)
    → (s : Text) → all is_digit s ≡ true
    → free p s ≡ true
digits-free p h [] a = refl
digits-free p h (c ∷ s) a =
    let k = both (is_digit c) (all is_digit s) a in rw (h c k.0) (digits-free p h s k.1)

-- The decimals that are printed weigh what they stand for.
frac_text-lem :
    (frac : ℕ)
    → frac < 1000
    → 0 < frac
    → (is_empty (frac_text frac) ≡ false)
      × (all is_digit (frac_text frac) ≡ true)
      × (length (frac_text frac) ≤ 3)
      × (frac_value 0 (frac_text frac) ≡ frac)
unfolding frac_value
frac_text-lem frac l p = ground arith

split_once-none : (p : ℕ) (w : Text) → free (λ c. c == p) w ≡ true → split_once p w ≡ none
unfolding split_once
split_once-none p [] a = refl
split_once-none p (c ∷ w) a = ground (arith, split_once-none p w)

split_once-word :
    (p : ℕ) (w rest : Text)
    → free (λ c. c == p) w ≡ true
    → split_once p (w ++ (p ∷ rest)) ≡ some (w, rest)
unfolding split_once
split_once-word p [] rest a = ground arith
split_once-word p (c ∷ w) rest a = ground (arith, split_once-word p w rest)

digits-is_empty : (k n : ℕ) → is_empty (digits (suc k) n) ≡ false
unfolding digits
digits-is_empty k n = not_empty (ltb n 10) (digits k (n / 10)) (48 + n) (48 + n % 10)
  where
    not_empty :
        (b : Bool) (s : Text) (c d : ℕ) → is_empty (if b then c ∷ [] else push_back s d) ≡ false
    not_empty true s c d = refl
    not_empty false [] c d = refl
    not_empty false (x ∷ s) c d = refl

parse_uint-value :
    (max_value v : ℕ) (w : Text)
    → is_empty w ≡ false
    → value 0 w ≡ v
    → v ≤ max_value
    → parse_uint max_value w ≡ some v
unfolding parse_uint
parse_uint-value max_value v [] e q l = ground arith
parse_uint-value max_value v (c ∷ s) e q l = ground (arith, q)

-- The parts of a number that fits give it back.
from_parts-lem :
    (int frac : ℕ) (f : Text)
    → int * 1000 + frac ≤ u32_max
    → all is_digit f ≡ true
    → length f ≤ 3
    → frac_value 0 f ≡ frac
    → from_parts (digits 10 int) f ≡ some (int * 1000 + frac)
unfolding from_parts
from_parts-lem int frac f l a n q =
    let e = digits-is_empty 9 int in
    let d = digits-digits 10 int in
    let v =
      parse_uint-value u32_max int (digits 10 int) e (value-digits 10 int (omega arith))
        (omega arith) in
    rw (e, d, a, v, q) (ground (arith, n, l))

-- A text without space is read by its two parts.
from_str-parts :
    (raw i f : Text) (n : CueNumber)
    → free is_whitespace raw ≡ true
    → is_empty raw ≡ false
    → parts raw ≡ some (i, f)
    → from_parts i f ≡ some n
    → from_str raw ≡ some n
unfolding from_str
from_str-parts raw i f n a e p q = rw (trim-free raw a, e, p) q

no_point : (c : ℕ) → is_digit c ≡ true → (c == b'.') ≡ false
no_point c d = ground arith

parts-whole : (w : Text) → all is_digit w ≡ true → parts w ≡ some (w, [])
parts-whole w a =
    rw (split_once-none b'.' w (digits-free (λ c. c == b'.') no_point w a), parts) refl

parts-point :
    (w f : Text)
    → all is_digit w ≡ true
    → is_empty f ≡ false
    → parts (w ++ (b'.' ∷ f)) ≡ some (w, f)
parts-point w f a e =
    rw (split_once-word b'.' w f (digits-free (λ c. c == b'.') no_point w a), parts, e) refl

is_empty-append : (w : Text) (c : ℕ) (s : Text) → is_empty (w ++ (c ∷ s)) ≡ false
is_empty-append [] c s = refl
is_empty-append (d ∷ w) c s = refl

-- Digits have no space.
solid : (w : Text) → all is_digit w ≡ true → free is_whitespace w ≡ true
solid = digits-free is_whitespace digit-is_whitespace

no_decimals : frac_value 0 [] ≡ 0
unfolding frac_value
no_decimals = refl

whole : (n : ℕ) → (n % 1000 == 0) ≡ true → n / 1000 * 1000 + 0 ≡ n
whole n z = ground arith

split_thousands : (n : ℕ) → n / 1000 * 1000 + n % 1000 ≡ n
split_thousands n = omega arith

-- A number of 32 bits comes back from its text.
pub from_str-to_string_number : (n : CueNumber) → n ≤ u32_max → from_str (to_string n) ≡ some n
unfolding to_string
from_str-to_string_number n l =
    let w = digits 10 (n / 1000) in
    let d = digits-digits 10 (n / 1000) in
    elim (Bool-cases (n % 1000 == 0)) [
      | inl z ↦ rw z (
          from_str-parts w w [] n (solid w d) (digits-is_empty 9 (n / 1000)) (parts-whole w d) (
            from_parts-lem (n / 1000) 0 [] (omega arith) refl (omega arith) no_decimals
            ∙ ap some (whole n z)))
      | inr p ↦
          let f = frac_text (n % 1000) in
          let k = frac_text-lem (n % 1000) (omega arith) (ground (arith, p)) in
          rw p (
            from_str-parts (w ++ (b'.' ∷ f)) w f n
              (free-append is_whitespace w (b'.' ∷ f) (solid w d) (solid f k.1))
              (is_empty-append w b'.' f) (parts-point w f d k.0)
              (from_parts-lem (n / 1000) (n % 1000) f (omega arith) k.1 k.2 k.3
                ∙ ap some (split_thousands n)))
    ]

-- What is false of a digit and of the point is false of every character of a printed number.
pub to_string-free :
    (p : ℕ → Bool)
    → ((c : ℕ) → is_digit c ≡ true → p c ≡ false)
    → p b'.' ≡ false
    → (n : CueNumber) → free p (to_string n) ≡ true
unfolding to_string
to_string-free p h d n =
    let w = digits-free p h (digits 10 (n / 1000)) (digits-digits 10 (n / 1000)) in
    elim (Bool-cases (n % 1000 == 0)) [
      | inl z ↦ rw z w
      | inr q ↦
          let k = frac_text-lem (n % 1000) (omega arith) (ground (arith, q)) in
          rw q (
            free-append p (digits 10 (n / 1000)) (b'.' ∷ frac_text (n % 1000)) w
              (rw d (digits-free p h (frac_text (n % 1000)) k.1)))
    ]

-- A printed number has a character.
pub to_string-some : (n : CueNumber) → is_empty (to_string n) ≡ false
unfolding to_string
to_string-some n = elim (Bool-cases (n % 1000 == 0)) [
  | inl z ↦ rw z (digits-is_empty 9 (n / 1000))
  | inr q ↦ rw q (is_empty-append (digits 10 (n / 1000)) b'.' (frac_text (n % 1000)))
]
