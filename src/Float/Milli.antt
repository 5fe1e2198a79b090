-- ===== src/Float/Milli.antt =====
-- A concrete instance of the interface: thousandths, rounded towards zero, where the exponential
-- is its tangent at 0, or 0, and no text is a number.
-- Tests run on it.
use videocuelist.Prelude.{◌&&◌, ◌+◌, ◌*◌, ◌/◌, true, none, if◌then◌else◌}
use videocuelist.Prelude.Int.{
  sub_ℕ, ℤ, pos, negsuc, pos_part, neg_part, ◌+ℤ◌, ◌-ℤ◌, ◌*ℤ◌, div_ℕ, ltb_ℤ, leb_ℤ,
}
use videocuelist.Float.{Floats}

-- n / d in thousandths; a division by zero gives 0.
abbrev quotient : ℤ → ℤ → ℤ
quotient a (pos d) = div_ℕ (a *ℤ pos 1000) d
quotient a (negsuc d) = div_ℕ (pos 0 -ℤ a *ℤ pos 1000) (d + 1)

abbrev product : ℤ → ℤ → ℤ
product a b = div_ℕ (a *ℤ b) 1000

instance abbrev pub milli : Floats
milli = record {
  F64 = ℤ;
  F32 = ℤ;
  lit64 = λ n d. div_ℕ (n *ℤ pos 1000) d;
  lit32 = λ n d. div_ℕ (n *ℤ pos 1000) d;
  lt64 = ltb_ℤ;
  le64 = leb_ℤ;
  add64 = ◌+ℤ◌;
  sub64 = ◌-ℤ◌;
  mul64 = product;
  div64 = quotient;
  min64 = λ a b. if leb_ℤ a b then a else b;
  max64 = λ a b. if leb_ℤ a b then b else a;
  round64 = λ a. div_ℕ (a +ℤ pos 500) 1000 *ℤ pos 1000;
  ceil64 = λ a. sub_ℕ ((pos_part a + 999) / 1000 * 1000) (neg_part a / 1000 * 1000);
  floor64 = λ a. sub_ℕ (pos_part a / 1000 * 1000) ((neg_part a + 999) / 1000 * 1000);
  abs64 = λ a. pos (pos_part a + neg_part a);
  neg64 = λ a. pos 0 -ℤ a;
  exp64 = λ a. if leb_ℤ a (negsuc 999) then pos 0 else a +ℤ pos 1000;
  eq64 = λ a b. leb_ℤ a b && leb_ℤ b a;
  is_finite64 = λ a. true;
  eq32 = λ a b. leb_ℤ a b && leb_ℤ b a;
  lt32 = ltb_ℤ;
  le32 = leb_ℤ;
  add32 = ◌+ℤ◌;
  sub32 = ◌-ℤ◌;
  mul32 = product;
  div32 = quotient;
  max32 = λ a b. if leb_ℤ a b then b else a;
  abs32 = λ a. pos (pos_part a + neg_part a);
  round32 = λ a. div_ℕ (a +ℤ pos 500) 1000 *ℤ pos 1000;
  is_finite32 = λ a. true;
  from_f32 = λ a. a;
  from_u32 = λ n. pos (n * 1000);
  as_f32 = λ a. a;
  from_i64 = λ n. n *ℤ pos 1000;
  as_u64 = λ a. pos_part a / 1000;
  as_i64 = λ a. div_ℕ a 1000;
  i64_as_f32 = λ n. n *ℤ pos 1000;
  parse32 = λ s. none;
  epsilon32 = pos 1;
  neg_infinity64 = negsuc 999_999_999;
}
