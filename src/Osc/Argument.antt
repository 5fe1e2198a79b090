-- ===== src/Osc/Argument.antt =====
-- The arguments of OSC messages, of the library rosc: a type of which the code takes cases, builds
-- texts and floats, and asks whether two are equal.
use videocuelist.Prelude.{◌≡◌, Bool, true}
use videocuelist.Prelude.Int.{ℤ}
use videocuelist.Text.{Text}
use videocuelist.Float.{Floats}

module _ ⦃F : Floats⦄ where
  open F use {F32, F64}

  -- The cases that the code tells apart.
  pub data OscCase : Type 0 where
    is_string : Text → OscCase
    is_int is_long : ℤ → OscCase
    is_float : F32 → OscCase
    is_double : F64 → OscCase
    is_bool : Bool → OscCase
    is_other : OscCase

  pub record Rosc : Type 1 where
    pub OscType : Type 0
    pub case_of : OscType → OscCase
    pub string_of : Text → OscType
    pub float_of : F32 → OscType
    pub osc_eq : OscType → OscType → Bool

  -- What the library documents: a text is read as it was built, and only it equals itself.
  pub record StringLaws (R : Rosc) : Type 0 where
    pub case_of_string : (s : Text) → R.case_of (R.string_of s) ≡ is_string s
    pub eq_string :
        (a : R.OscType) (s : Text) → R.osc_eq a (R.string_of s) ≡ true → a ≡ R.string_of s
