-- ===== src/Params.antt =====
-- crates/params/src/spec.rs, and the values of a parameter as crates/params/src/registry.rs keeps
-- them: four numbers, whatever its kind.
pub mod Registry
use videocuelist.Prelude.{
  ℕ, zero, suc, ◌-◌, Bool, true, false, not, ◌&&◌, ◌||◌, List, [], ◌∷◌, Option, none, some, length,
  if◌then◌else◌,
}
use videocuelist.Prelude.Int.{ℤ, pos, eq_ℤ}
use videocuelist.Text.{Text, text_eq}
use videocuelist.Float.{Floats, clamp32, clamp64, nat32, nat64}
use videocuelist.Core.Model.{ParamValue}

module _ ⦃F : Floats⦄ where
  open F use {
    F32, F64, lit64, lit32, le64, le32, add64, sub64, mul64, min64, max64, round64, round32, eq64,
    eq32, from_f32, from_i64, as_f32, as_i64,
  }

  pub data ParamKind : Type 0 where
    float : (min max : F32) → ParamKind
    int : (min max : ℤ) → ParamKind
    bool : ParamKind
    color : ParamKind
    point2 : ParamKind
    enum : List Text → ParamKind

  pub record ParamSpec : Type 0 where
    pub addr : Text
    pub label : Text
    pub kind : ParamKind
    pub default : ParamValue
    pub smoothing_ms : F32
    pub scriptable : Bool

  -- Four numbers, `[f64; 4]`.
  pub record Comps : Type 0 where
    pub c0 : F64
    pub c1 : F64
    pub c2 : F64
    pub c3 : F64

  abbrev pub zero_comps : Comps
  zero_comps = record { c0 = nat64 0; c1 = nat64 0; c2 = nat64 0; c3 = nat64 0 }

  abbrev pub comps_eq : Comps → Comps → Bool
  comps_eq a b = eq64 a.c0 b.c0 && eq64 a.c1 b.c1 && eq64 a.c2 b.c2 && eq64 a.c3 b.c3

  abbrev pub labels_eq : List Text → List Text → Bool
  labels_eq [] [] = true
  labels_eq [] (m ∷ ms) = false
  labels_eq (l ∷ ls) [] = false
  labels_eq (l ∷ ls) (m ∷ ms) = text_eq l m && labels_eq ls ms

  -- The derived equality of kinds.
  unfoldable pub kind_eq : ParamKind → ParamKind → Bool
  kind_eq (float a b) (float c d) = eq32 a c && eq32 b d
  kind_eq (int a b) (int c d) = eq_ℤ a c && eq_ℤ b d
  kind_eq bool bool = true
  kind_eq color color = true
  kind_eq point2 point2 = true
  kind_eq (enum ls) (enum ms) = labels_eq ls ms
  kind_eq _ _ = false

  abbrev pub is_discrete : ParamKind → Bool
  is_discrete bool = true
  is_discrete (enum ls) = true
  is_discrete _ = false

  -- `f64::from(u8::from(b))`.
  abbrev pub of_bool : Bool → F64
  of_bool v = if v then nat64 1 else nat64 0

  abbrev pub scalar : F64 → Comps
  scalar x = record zero_comps { c0 = x }

  -- `position`: the index of the first equal label.
  abbrev pub label_position : Text → ℕ → List Text → Option ℕ
  label_position l n [] = none
  label_position l n (m ∷ ms) =
      let rest = label_position l (suc n) ms in if text_eq m l then some n else rest

  abbrev pub label_comps : Option ℕ → Option Comps
  label_comps none = none
  label_comps (some n) = some (scalar (from_i64 (pos n)))

  unfoldable pub to_comps : ParamKind → ParamValue → Option Comps
  to_comps (float lo hi) (ParamValue.f x) = some (scalar (from_f32 x))
  to_comps (float lo hi) (ParamValue.i x) = some (scalar (from_i64 x))
  to_comps (int lo hi) (ParamValue.i x) = some (scalar (from_i64 x))
  to_comps (int lo hi) (ParamValue.f x) = some (scalar (round64 (from_f32 x)))
  to_comps bool (ParamValue.b x) = some (scalar (of_bool x))
  to_comps bool (ParamValue.f x) = some (scalar (of_bool (le32 (lit32 (pos 1) 2) x)))
  to_comps bool (ParamValue.i x) = some (scalar (of_bool (not (eq_ℤ x (pos 0)))))
  to_comps color (ParamValue.color r g b a) =
      some (record { c0 = from_f32 r; c1 = from_f32 g; c2 = from_f32 b; c3 = from_f32 a })
  to_comps point2 (ParamValue.p2 x y) =
      some (record zero_comps { c0 = from_f32 x; c1 = from_f32 y })
  to_comps (enum ls) (ParamValue.i x) = some (scalar (from_i64 x))
  to_comps (enum ls) (ParamValue.f x) = some (scalar (from_f32 (round32 x)))
  to_comps (enum ls) (ParamValue.s l) = label_comps (label_position l 0 ls)
  to_comps _ _ = none

  -- `c[0]` between two bounds, by `max` and then `min`.
  abbrev pub bounded : F64 → F64 → F64 → F64
  bounded lo hi x = min64 (max64 x lo) hi

  abbrev pub clamp_unit : F64 → F64
  clamp_unit x = clamp64 x (nat64 0) (nat64 1)

  unfoldable pub clamp : ParamKind → Comps → Comps
  clamp (float lo hi) c = record c { c0 = bounded (from_f32 lo) (from_f32 hi) c.c0 }
  clamp (int lo hi) c = record c { c0 = bounded (from_i64 lo) (from_i64 hi) c.c0 }
  clamp bool c = record c { c0 = of_bool (le64 (lit64 (pos 1) 2) c.c0) }
  clamp color c = record {
    c0 = clamp_unit c.c0;
    c1 = clamp_unit c.c1;
    c2 = clamp_unit c.c2;
    c3 = clamp_unit c.c3;
  }
  clamp point2 c = c
  clamp (enum ls) c = record c {
    c0 = bounded (nat64 0) (from_i64 (pos (length ls - 1))) (round64 c.c0);
  }

  unfoldable pub to_value : ParamKind → Comps → ParamValue
  to_value (float lo hi) c = ParamValue.f (as_f32 c.c0)
  to_value (int lo hi) c = ParamValue.i (as_i64 (round64 c.c0))
  to_value bool c = ParamValue.b (le64 (lit64 (pos 1) 2) c.c0)
  to_value color c = ParamValue.color (as_f32 c.c0) (as_f32 c.c1) (as_f32 c.c2) (as_f32 c.c3)
  to_value point2 c = ParamValue.p2 (as_f32 c.c0) (as_f32 c.c1)
  to_value (enum ls) c = ParamValue.i (as_i64 (round64 c.c0))

  abbrev pub lerp : F64 → F64 → F64 → F64
  lerp a x y = add64 x (mul64 (sub64 y x) a)

  abbrev pub lerp_comps : F64 → Comps → Comps → Comps
  lerp_comps a x y = record {
    c0 = lerp a x.c0 y.c0;
    c1 = lerp a x.c1 y.c1;
    c2 = lerp a x.c2 y.c2;
    c3 = lerp a x.c3 y.c3;
  }

  -- The weight of an interpolation.
  abbrev pub weight : F32 → F64
  weight alpha = from_f32 (clamp32 alpha (nat32 0) (nat32 1))

  abbrev pub toggled : F32 → Comps → Comps → Comps
  toggled alpha from to = if le32 (lit32 (pos 1) 2) alpha then to else from

  unfoldable pub interp : ParamKind → Comps → Comps → F32 → Comps
  interp (float lo hi) from to alpha = lerp_comps (weight alpha) from to
  interp color from to alpha = lerp_comps (weight alpha) from to
  interp point2 from to alpha = lerp_comps (weight alpha) from to
  interp (int lo hi) from to alpha = record from {
    c0 = round64 (lerp (weight alpha) from.c0 to.c0);
  }
  interp bool from to alpha = toggled alpha from to
  interp (enum ls) from to alpha = toggled alpha from to
