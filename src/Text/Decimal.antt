-- ===== src/Text/Decimal.antt =====
-- The decimal form of a number, printed and read back.
use videocuelist.Prelude.{
  inr, inl, lt_or_le, false, ℕ, zero, suc, ◌+◌, ◌-◌, ◌*◌, ◌/◌, ◌%◌, ◌^◌, ◌<◌, ◌≡◌, refl, [], ◌∷◌,
  push_back, all, true, arith,
}
use videocuelist.Text.{Text, is_digit, is_whitespace, digits, value}

value-push_back :
    (acc : ℕ) (s : Text) (c : ℕ) → value acc (push_back s c) ≡ value acc s * 10 + (c - 48)
unfolding value
value-push_back acc [] c = refl
value-push_back acc (d ∷ s) c = value-push_back (acc * 10 + (d - 48)) s c

quotient : (n k : ℕ) → n < 10 ^ suc k → n / 10 < 10 ^ k
quotient n k l = grind arith

-- Enough digits give the number back.
pub value-digits : (k n : ℕ) → n < 10 ^ k → value 0 (digits k n) ≡ n
unfolding digits value
value-digits zero n l = omega arith
value-digits (suc k) n l =
    let ih = value-digits k (n / 10) in
    let step = value-push_back 0 (digits k (n / 10)) (48 + n % 10) in
    elim (lt_or_le n 10) [
      | inl small ↦ ground arith
      | inr large ↦ ground (arith, step, ih (quotient n k l))
    ]

all-push_back :
    (s : Text) (c : ℕ)
    → all is_digit s ≡ true
    → is_digit c ≡ true
    → all is_digit (push_back s c) ≡ true
all-push_back [] c a d = ground (arith, d)
all-push_back (x ∷ s) c a d = ground (arith, all-push_back s c)

pub digits-digits : (k n : ℕ) → all is_digit (digits k n) ≡ true
unfolding digits
digits-digits zero n = refl
digits-digits (suc k) n =
    ground (arith, all-push_back (digits k (n / 10)) (48 + n % 10) (digits-digits k (n / 10)))

pub digit-is_whitespace : (c : ℕ) → is_digit c ≡ true → is_whitespace c ≡ false
digit-is_whitespace c d = ground arith
