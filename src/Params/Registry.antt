-- ===== src/Params/Registry.antt =====
-- crates/params/src/registry.rs: the registry of parameters. Its map is the function that looks an
-- address up; an operation on one address changes the function there, and a loop over the map
-- everywhere.
pub mod Modulation
pub mod Live
pub mod Range
pub mod Fading
pub mod Blend
pub mod Reached
use videocuelist.Prelude.{
  ℕ, Bool, true, false, not, ◌&&◌, ◌||◌, List, [], ◌∷◌, Option, none, some, unwrap_or,
  if◌then◌else◌, ◌==◌, option_filter,
}
use videocuelist.Prelude.Int.{ℤ, pos}
use videocuelist.Text.{Text, text_eq}
use videocuelist.Float.{Floats, clamp32, nat32, nat64}
use videocuelist.Core.Model.{ParamValue, ParamMap}
use videocuelist.Core.Template.{Source, is_cue}
use videocuelist.Params.{
  ParamKind, ParamSpec, Comps, zero_comps, comps_eq, kind_eq, is_discrete, to_comps, clamp,
  to_value, interp,
}

-- `Option::map`.
abbrev pub map_option {ℓ κ} : {A : Type ℓ} {B : Type κ} → (A → B) → Option A → Option B
map_option f none = none
map_option f (some a) = some (f a)

-- `str::starts_with`.
abbrev pub starts_with : Text → Text → Bool
starts_with s [] = true
starts_with [] (c ∷ p) = false
starts_with (d ∷ s) (c ∷ p) = d == c && starts_with s p

module _ ⦃F : Floats⦄ where
  open F use {
    F32, F64, lit32, lit64, lt32, le32, le64, add32, add64, sub64, mul64, div64, max32, max64,
    abs64, neg64, exp64, from_f32, as_f32,
  }

  abbrev pub alpha_backstep : F32
  alpha_backstep = lit32 (pos 1) 10000

  pub record ParamState : Type 0 where
    pub spec : ParamSpec
    pub target : Comps
    pub current : Comps
    pub blend_from : Comps
    pub blend_to : Comps
    pub blend_active : Bool
    pub last_alpha : F32
    pub live_override : Bool
    pub smoothing_override : Option F32
    pub mod_offset : Comps

  abbrev pub Registry : Type 0
  Registry = Text → Option ParamState

  abbrev pub new_registry : Registry
  new_registry = λ addr. none

  abbrev pub new_state : ParamSpec → Comps → ParamState
  new_state spec initial = record {
    spec = spec;
    target = initial;
    current = initial;
    blend_from = initial;
    blend_to = initial;
    blend_active = false;
    last_alpha = nat32 0;
    live_override = false;
    smoothing_override = none;
    mod_offset = zero_comps;
  }

  abbrev pub smoothing_of : ParamState → F32
  smoothing_of st = unwrap_or st.smoothing_override (st.spec).smoothing_ms

  abbrev pub snaps_immediately : ParamState → Bool
  snaps_immediately st = is_discrete (st.spec).kind || le32 (smoothing_of st) (nat32 0)

  -- `if state.snaps_immediately() { state.current = state.target; }`.
  abbrev pub snap : ParamState → ParamState
  snap st = if snaps_immediately st then record st { current = st.target } else st

  -- `get_mut`: what happens to the state of one address; an unknown address is left out.
  abbrev pub at_addr : Text → (ParamState → ParamState) → Registry → Registry
  at_addr addr f r = λ k. if text_eq k addr then map_option f (r k) else r k

  abbrev pub initial_of : ParamSpec → Comps
  initial_of spec = clamp spec.kind (unwrap_or (to_comps spec.kind spec.default) zero_comps)

  abbrev pub registered : ParamSpec → Option ParamState → ParamState
  registered spec none = new_state spec (initial_of spec)
  registered spec (some st) =
      if kind_eq (st.spec).kind spec.kind
      then record st { spec = spec }
      else new_state spec (initial_of spec)

  unfoldable pub register : ParamSpec → Registry → Registry
  unfolding to_comps clamp kind_eq
  register spec r = λ k. if text_eq k spec.addr then some (registered spec (r k)) else r k

  abbrev pub unregister_prefix : Text → Registry → Registry
  unregister_prefix prefix r = λ k. if starts_with k prefix then none else r k

  abbrev pub set_comps : Option Comps → ParamState → ParamState
  set_comps none st = st
  set_comps (some c) st = snap (record st { target = clamp (st.spec).kind c; blend_active = false })

  abbrev pub set_state : ParamValue → Source → ParamState → ParamState
  set_state v source st =
      if st.live_override && is_cue source then st else set_comps (to_comps (st.spec).kind v) st

  unfoldable pub set : Text → ParamValue → Source → Registry → Registry
  unfolding to_comps clamp
  set addr v source r = at_addr addr (set_state v source) r

  unfoldable pub set_live_override : Text → Bool → Registry → Registry
  set_live_override addr on r =
      at_addr addr (λ st. record st { live_override = on; blend_active = false }) r

  abbrev pub add_comps : Comps → Comps → Comps
  add_comps a b = record {
    c0 = add64 a.c0 b.c0;
    c1 = add64 a.c1 b.c1;
    c2 = add64 a.c2 b.c2;
    c3 = add64 a.c3 b.c3;
  }

  abbrev pub modulated : ParamState → Comps
  modulated st = clamp (st.spec).kind (add_comps st.current st.mod_offset)

  unfoldable pub value : Text → Registry → Option ParamValue
  unfolding to_value clamp
  value addr r = map_option (λ st. to_value (st.spec).kind (modulated st)) (r addr)

  abbrev pub contains_addr : Text → Registry → Bool
  contains_addr addr r = elim (r addr) [ none ↦ false | some st ↦ true ]

  abbrev pub target_value : ParamState → ParamValue
  target_value st = to_value (st.spec).kind st.target

  unfoldable pub target_of : Text → Registry → Option ParamValue
  unfolding to_value
  target_of addr r = map_option target_value (r addr)

  abbrev pub value_f32 : Text → Registry → F32
  value_f32 addr r = elim (r addr) [ none ↦ nat32 0 | some st ↦ as_f32 ((modulated st).c0) ]

  unfoldable pub snapshot_scripted : Registry → ParamMap
  unfolding to_value
  snapshot_scripted r =
      λ addr. map_option target_value (option_filter (λ st. (st.spec).scriptable) (r addr))

  -- A new target, or an alpha that goes back: the blend starts from the current value.
  abbrev pub is_new_blend : Comps → F32 → ParamState → Bool
  is_new_blend to alpha st =
      not st.blend_active
      || not (comps_eq st.blend_to to)
      || lt32 (add32 alpha alpha_backstep) st.last_alpha

  abbrev pub begin_blend : Comps → F32 → ParamState → ParamState
  begin_blend to alpha st =
      if is_new_blend to alpha st
      then record st { blend_from = st.current; blend_to = to; blend_active = true }
      else st

  abbrev pub blend_comps : Option Comps → F32 → ParamState → ParamState
  blend_comps none alpha st = st
  blend_comps (some c) alpha st =
      let to = clamp (st.spec).kind c in
      let b = begin_blend to alpha st in
      snap (record b {
        last_alpha = alpha;
        target = interp (b.spec).kind b.blend_from to alpha;
        blend_active = b.blend_active && not (le32 (nat32 1) alpha);
      })

  abbrev pub blend_state : ParamValue → F32 → ParamState → ParamState
  blend_state want alpha st =
      if st.live_override then st else blend_comps (to_comps (st.spec).kind want) alpha st

  abbrev pub blend_entry : Option ParamValue → F32 → Option ParamState → Option ParamState
  blend_entry none alpha o = o
  blend_entry (some want) alpha o = map_option (blend_state want alpha) o

  unfoldable pub blend_toward : ParamMap → F32 → Registry → Registry
  unfolding to_comps clamp interp
  blend_toward target alpha r =
      λ k. blend_entry (target k) (clamp32 alpha (nat32 0) (nat32 1)) (r k)

  -- The offset of one route, added to the numbers that its kind lets move.
  abbrev pub offset_comps : ParamKind → F64 → Comps → Comps
  offset_comps (ParamKind.float lo hi) off c = record c { c0 = add64 c.c0 off }
  offset_comps (ParamKind.int lo hi) off c = record c { c0 = add64 c.c0 off }
  offset_comps ParamKind.color off c = record c {
    c0 = add64 c.c0 off;
    c1 = add64 c.c1 off;
    c2 = add64 c.c2 off;
  }
  offset_comps ParamKind.point2 off c = record c { c0 = add64 c.c0 off; c1 = add64 c.c1 off }
  offset_comps ParamKind.bool off c = c
  offset_comps (ParamKind.enum ls) off c = c

  abbrev pub offset_state : F32 → ParamState → ParamState
  offset_state off st = record st {
    mod_offset = offset_comps (st.spec).kind (from_f32 off) st.mod_offset;
  }

  abbrev pub add_offsets : List (Text × F32) → Registry → Registry
  add_offsets [] r = r
  add_offsets ((addr, off) ∷ offsets) r = add_offsets offsets (at_addr addr (offset_state off) r)

  abbrev pub clear_offset : ParamState → ParamState
  clear_offset st = record st { mod_offset = zero_comps }

  abbrev pub clear_offsets : Registry → Registry
  clear_offsets r = λ k. map_option clear_offset (r k)

  unfoldable pub apply_modulation : List (Text × F32) → Registry → Registry
  apply_modulation offsets r = add_offsets offsets (clear_offsets r)

  -- One number on its way to its target: there, if it is close.
  abbrev pub approach : F64 → F64 → F64 → F64
  approach k target current =
      let delta = sub64 target current in
      if le64 (abs64 delta) (mul64 (lit64 (pos 1) 1000000) (max64 (abs64 target) (nat64 1)))
      then target
      else add64 current (mul64 delta k)

  abbrev pub approach_comps : F64 → Comps → Comps → Comps
  approach_comps k t c = record {
    c0 = approach k t.c0 c.c0;
    c1 = approach k t.c1 c.c1;
    c2 = approach k t.c2 c.c2;
    c3 = approach k t.c3 c.c3;
  }

  abbrev pub smoothing_gain : F64 → ParamState → F64
  smoothing_gain dt st =
      let tau = div64 (from_f32 (smoothing_of st)) (nat64 1000) in
      sub64 (nat64 1) (exp64 (div64 (neg64 dt) tau))

  abbrev pub tick_state : F64 → ParamState → ParamState
  tick_state dt st =
      if snaps_immediately st
      then record st { current = st.target }
      else record st { current = approach_comps (smoothing_gain dt st) st.target st.current }

  unfoldable pub tick_registry : F32 → Registry → Registry
  tick_registry dt_s r = λ k. map_option (tick_state (from_f32 (max32 dt_s (nat32 0)))) (r k)

  unfoldable pub set_smoothing_override : Text → Option F32 → Registry → Registry
  set_smoothing_override addr ms r = at_addr addr (λ st. record st { smoothing_override = ms }) r
