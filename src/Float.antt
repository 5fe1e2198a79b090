-- ===== src/Float.antt =====
-- The floating-point numbers of the program, `f32` and `f64`, as an interface: two types with the
-- operations that the code calls. IEEE arithmetic is not defined here; a theorem that needs a law
-- of it takes the law as a hypothesis.
pub mod Milli
use videocuelist.Prelude.{ℕ, Bool, List, Option, if◌then◌else◌}
use videocuelist.Prelude.Int.{ℤ, pos}

pub record Floats : Type 1 where
  pub F64 : Type 0
  pub F32 : Type 0
  -- The literal n / d, such as 0.5 or -2.0.
  pub lit64 : ℤ → ℕ → F64
  pub lit32 : ℤ → ℕ → F32
  pub lt64 : F64 → F64 → Bool
  pub le64 : F64 → F64 → Bool
  pub add64 : F64 → F64 → F64
  pub sub64 : F64 → F64 → F64
  pub mul64 : F64 → F64 → F64
  pub div64 : F64 → F64 → F64
  pub min64 : F64 → F64 → F64
  pub max64 : F64 → F64 → F64
  pub round64 : F64 → F64
  pub ceil64 : F64 → F64
  pub floor64 : F64 → F64
  pub abs64 : F64 → F64
  pub neg64 : F64 → F64
  pub exp64 : F64 → F64
  pub eq64 : F64 → F64 → Bool
  pub is_finite64 : F64 → Bool
  pub eq32 : F32 → F32 → Bool
  pub lt32 : F32 → F32 → Bool
  pub le32 : F32 → F32 → Bool
  pub add32 : F32 → F32 → F32
  pub sub32 : F32 → F32 → F32
  pub mul32 : F32 → F32 → F32
  pub div32 : F32 → F32 → F32
  pub max32 : F32 → F32 → F32
  pub abs32 : F32 → F32
  pub round32 : F32 → F32
  pub is_finite32 : F32 → Bool
  -- `f64::from` of an `f32` and of a `u32`, `as f64` of an `i64`; `as f32`, and `as u64` and
  -- `as i64`, which saturate.
  pub from_f32 : F32 → F64
  pub from_u32 : ℕ → F64
  pub as_f32 : F64 → F32
  pub from_i64 : ℤ → F64
  pub as_u64 : F64 → ℕ
  pub as_i64 : F64 → ℤ
  -- `as f32` of an `i32` or an `i64`, and `parse` of a text.
  pub i64_as_f32 : ℤ → F32
  pub parse32 : List ℕ → Option F32
  pub epsilon32 : F32
  pub neg_infinity64 : F64

module _ ⦃F : Floats⦄ where
  open F use {F64, F32, lt64, lt32, lit64, lit32}

  -- `clamp` of the standard library: two tests, so that a NaN stays.
  abbrev pub clamp64 : F64 → F64 → F64 → F64
  clamp64 x lo hi = let y = if lt64 x lo then lo else x in if lt64 hi y then hi else y

  abbrev pub clamp32 : F32 → F32 → F32 → F32
  clamp32 x lo hi = let y = if lt32 x lo then lo else x in if lt32 hi y then hi else y

  abbrev pub nat64 : ℕ → F64
  nat64 n = lit64 (pos n) 1

  abbrev pub nat32 : ℕ → F32
  nat32 n = lit32 (pos n) 1
