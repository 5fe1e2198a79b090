-- ===== src/Params/Registry/Range.antt =====
-- crates/params/src/registry.rs: what is read of a parameter is in its range.
use videocuelist.Prelude.{◌≡◌, refl, subst, some, true}
use videocuelist.Text.{Text}
use videocuelist.Float.{Floats}
use videocuelist.Core.Model.{ParamValue}
use videocuelist.Params.{ParamKind, bounded, clamp, to_value}
use videocuelist.Params.Registry.{ParamState, Registry, add_comps, value}

module _ ⦃F : Floats⦄ where
  open F use {F32, F64, le32, le64, max64, min64, from_f32, as_f32}

  -- Facts of IEEE numbers. What compares with itself is no NaN, and `max` and `min` answer their
  -- other argument for a NaN.
  pub record OrderLaws : Type 0 where
    pub le_numbers : (a b : F64) → le64 a b ≡ true → (le64 a a ≡ true) × (le64 b b ≡ true)
    pub le_max : (a b : F64) → le64 b b ≡ true → le64 b (max64 a b) ≡ true
    pub min_le : (a b : F64) → le64 b b ≡ true → le64 (min64 a b) b ≡ true
    pub le_min : (a b c : F64) → le64 c a ≡ true → le64 c b ≡ true → le64 c (min64 a b) ≡ true
    pub from_le : (a b : F32) → le32 a b ≡ true → le64 (from_f32 a) (from_f32 b) ≡ true
    pub as_le : (a b : F64) → le64 a b ≡ true → le32 (as_f32 a) (as_f32 b) ≡ true
    pub as_from : (a : F32) → le32 a a ≡ true → as_f32 (from_f32 a) ≡ a
    pub numbers32 : (a b : F32) → le32 a b ≡ true → (le32 a a ≡ true) × (le32 b b ≡ true)

  bounded-lem :
      OrderLaws
      → (lo hi x : F64) → le64 lo hi ≡ true
      → (le64 lo (bounded lo hi x) ≡ true) × (le64 (bounded lo hi x) hi ≡ true)
  bounded-lem l lo hi x h =
      let n = l.le_numbers lo hi h in
      (l.le_min (max64 x lo) hi lo (l.le_max x lo n.0) h, l.min_le (max64 x lo) hi n.1)

  -- However far modulation pushes it, what is read of a float parameter with a range that is not
  -- empty is a float within the range.
  pub value-InRange :
      OrderLaws
      → (r : Registry) (addr : Text) (st : ParamState) (lo hi : F32) → r addr ≡ some st
      → (st.spec).kind ≡ ParamKind.float lo hi
      → le32 lo hi ≡ true
      → (x : F32) × (value addr r ≡ some (ParamValue.f x)) × (le32 lo x ≡ true) × (le32 x hi ≡ true)
  unfolding value clamp to_value
  value-InRange l r addr st lo hi p k h =
      let n = l.numbers32 lo hi h in
      let y = bounded (from_f32 lo) (from_f32 hi) ((add_comps st.current st.mod_offset).c0) in
      let b = bounded-lem l (from_f32 lo) (from_f32 hi) _ (l.from_le lo hi h) in
      (
        as_f32 y,
        rw (p, k) refl,
        subst (λ z. le32 z (as_f32 y) ≡ true) (l.as_from lo n.0) (l.as_le (from_f32 lo) y b.0),
        subst (λ z. le32 (as_f32 y) z ≡ true) (l.as_from hi n.1) (l.as_le y (from_f32 hi) b.1),
      )
