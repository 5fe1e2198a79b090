-- ===== src/Text/Words.antt =====
-- `trim` on text without space, and `split` on words and their separators.
use videocuelist.Prelude.{
  ==_iff, ℕ, ◌≡◌, refl, Bool, true, false, not, ◌&&◌, [], ◌∷◌, ◌++◌, all, arith,
}
use videocuelist.Table.{IsEq}
use videocuelist.Text.{text_eq, Text, is_whitespace, trim, trim_start, trim_end, split}

-- A text none of whose characters passes a test.
abbrev pub free : (ℕ → Bool) → Text → Bool
free p s = all (λ c. not (p c)) s

pub free-append :
    (p : ℕ → Bool) (s t : Text) → free p s ≡ true → free p t ≡ true → free p (s ++ t) ≡ true
free-append p [] t a b = b
free-append p (c ∷ s) t a b = ground (arith, free-append p s t)

both : (b c : Bool) → (not b && c) ≡ true → (b ≡ false) × (c ≡ true)
both b c e = ground arith

trim_end-free : (s : Text) → free is_whitespace s ≡ true → trim_end s ≡ s
unfolding trim_end
trim_end-free [] a = refl
trim_end-free (c ∷ []) a = rw (both (is_whitespace c) true a).0 refl
trim_end-free (c ∷ d ∷ s) a = rw (trim_end-free (d ∷ s) (both (is_whitespace c) _ a).1) refl

pub trim-free : (s : Text) → free is_whitespace s ≡ true → trim s ≡ s
unfolding trim trim_start
trim-free [] a = refl
trim-free (c ∷ s) a = rw (trim_start, (both (is_whitespace c) _ a).0) (trim_end-free (c ∷ s) a)

pub split-last : (p : ℕ → Bool) (w : Text) → free p w ≡ true → split p w ≡ w ∷ []
unfolding split
split-last p [] a = refl
split-last p (c ∷ w) a = ground (arith, split-last p w)

-- A word before a separator is split off.
pub split-word :
    (p : ℕ → Bool) (w : Text) (c : ℕ) (rest : Text)
    → free p w ≡ true
    → p c ≡ true
    → split p (w ++ (c ∷ rest)) ≡ w ∷ split p rest
unfolding split
split-word p [] c rest a e = rw e refl
split-word p (d ∷ w) c rest a e = ground (arith, split-word p w c rest)

text_eq_refl : (s : Text) → text_eq s s ≡ true
text_eq_refl [] = refl
text_eq_refl (c ∷ s) = ground (arith, text_eq_refl s)

text_eq_sound : (s t : Text) → text_eq s t ≡ true → s ≡ t
text_eq_sound [] [] e = refl
text_eq_sound [] (d ∷ t) e = ground arith
text_eq_sound (c ∷ s) [] e = ground arith
text_eq_sound (c ∷ s) (d ∷ t) e = ground (arith, text_eq_sound s t, ==_iff c d)

-- Texts are told apart by their equality test.
pub text_eq-IsEq : IsEq text_eq
text_eq-IsEq = record { refl_test = text_eq_refl; sound = text_eq_sound }
