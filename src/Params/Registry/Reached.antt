-- ===== src/Params/Registry/Reached.antt =====
-- crates/params/src/registry.rs: what holds in every registry that the operations reach.
use videocuelist.Prelude.{
  not, ◌&&◌, if◌then◌else◌, subst, ◌≡◌, refl, sym, ◌∙◌, List, [], ◌∷◌, Option, none, some, arith,
  Bool-cases, inl, inr, Bool, true, false, ap,
}
use videocuelist.Text.{Text, text_eq}
use videocuelist.Text.Words.{text_eq-IsEq}
use videocuelist.Float.{nat32, Floats}
use videocuelist.Core.Model.{ParamValue, ParamMap}
use videocuelist.Core.Template.{is_cue, Source}
use videocuelist.Params.{
  interp, clamp, Comps, ParamSpec, ParamKind, is_discrete, to_comps, zero_comps, kind_eq,
}
use videocuelist.Params.Registry.{
  is_new_blend, starts_with, begin_blend, offset_comps, map_option, ParamState, Registry, at_addr,
  set_state, set, blend_state, blend_entry, blend_toward, tick_registry, tick_state,
  apply_modulation, offset_state, add_offsets, clear_offset, clear_offsets, snaps_immediately,
  new_registry, register, unregister_prefix, set_live_override, set_smoothing_override, snap,
  set_comps, blend_comps, registered,
}

module _ ⦃F : Floats⦄ where
  open F use {F32, F64, le32}

  -- The registries that the operations reach from an empty one.
  pub data Reached : Registry → Type 0 where
    empty : Reached new_registry
    registering : {r : Registry} (spec : ParamSpec) → Reached r → Reached (register spec r)
    unregistering :
        {r : Registry} (prefix : Text) → Reached r → Reached (unregister_prefix prefix r)
    setting :
        {r : Registry} (addr : Text) (v : ParamValue) (source : Source)
        → Reached r
        → Reached (set addr v source r)
    holding :
        {r : Registry} (addr : Text) (on : Bool) → Reached r → Reached (set_live_override addr on r)
    smoothing :
        {r : Registry} (addr : Text) (ms : Option F32)
        → Reached r
        → Reached (set_smoothing_override addr ms r)
    blending :
        {r : Registry} (m : ParamMap) (alpha : F32) → Reached r → Reached (blend_toward m alpha r)
    modulating :
        {r : Registry} (offsets : List (Text × F32))
        → Reached r
        → Reached (apply_modulation offsets r)
    ticking : {r : Registry} (dt : F32) → Reached r → Reached (tick_registry dt r)

  -- A discrete parameter is at its target and is not modulated.
  abbrev pub IsSteady : ParamState → Type 0
  IsSteady st =
      is_discrete (st.spec).kind ≡ true → (st.current ≡ st.target) × (st.mod_offset ≡ zero_comps)

  -- A state stands under its own address.
  abbrev pub IsSound : Text → Option ParamState → Type 0
  IsSound k none = Unit
  IsSound k (some st) = ((st.spec).addr ≡ k) × IsSteady st

  -- A change of a state that keeps its address and keeps it steady.
  abbrev KeepsSteady : (ParamState → ParamState) → Type 0
  KeepsSteady f =
      (st : ParamState) → IsSteady st → (((f st).spec).addr ≡ (st.spec).addr) × IsSteady (f st)

  IsSound-map :
      (f : ParamState → ParamState)
      → KeepsSteady f
      → (k : Text) (o : Option ParamState) → IsSound k o
      → IsSound k (map_option f o)
  IsSound-map f c k none h = tt
  IsSound-map f c k (some st) h = ((c st h.1).0 ∙ h.0, (c st h.1).1)

  IsSound-at_addr :
      (f : ParamState → ParamState)
      → KeepsSteady f
      → (addr k : Text) (r : Registry) → IsSound k (r k)
      → IsSound k (at_addr addr f r k)
  IsSound-at_addr f c addr k r h = elim (Bool-cases (text_eq k addr)) [
    | inl b ↦ rw b (IsSound-map f c k (r k) h)
    | inr b ↦ rw b h
  ]

  kind_eq-is_discrete : (a b : ParamKind) → kind_eq a b ≡ true → is_discrete b ≡ is_discrete a
  unfolding kind_eq
  kind_eq-is_discrete a b e = ground arith

  -- Discrete kinds are not modulated.
  abbrev IsUnmodulated : ParamState → Type 0
  IsUnmodulated st = is_discrete (st.spec).kind ≡ true → st.mod_offset ≡ zero_comps

  snap-IsSteady :
      (st : ParamState)
      → IsUnmodulated st
      → (((snap st).spec).addr ≡ (st.spec).addr) × IsSteady (snap st)
  snap-IsSteady st u = elim (Bool-cases (snaps_immediately st)) [
    | inl b ↦ rw b (refl, λ d. (refl, u d))
    | inr b ↦ rw b (refl, λ d. ground (arith, b, d))
  ]

  set_comps-steady : (o : Option Comps) → KeepsSteady (set_comps o)
  set_comps-steady none st h = (refl, h)
  set_comps-steady (some c) st h =
      snap-IsSteady (record st { target = clamp (st.spec).kind c; blend_active = false })
        (λ d. (h d).1)

  -- A change that a guard may leave out.
  IsSteady-unless :
      (skip : Bool) (st new : ParamState)
      → IsSteady st
      → ((new.spec).addr ≡ (st.spec).addr) × IsSteady new
      → (((if skip then st else new).spec).addr ≡ (st.spec).addr)
        × IsSteady (if skip then st else new)
  IsSteady-unless true st new h k = (refl, h)
  IsSteady-unless false st new h k = k

  set-steady : (v : ParamValue) (source : Source) → KeepsSteady (set_state v source)
  set-steady v source st h =
      IsSteady-unless (st.live_override && is_cue source) st _ h
        (set_comps-steady (to_comps (st.spec).kind v) st h)

  begin_blend-lem :
      (to : Comps) (alpha : F32) (st : ParamState)
      → ((begin_blend to alpha st).spec ≡ st.spec)
        × ((begin_blend to alpha st).mod_offset ≡ st.mod_offset)
  begin_blend-lem to alpha st = elim (Bool-cases (is_new_blend to alpha st)) [
    | inl b ↦ rw b (refl, refl)
    | inr b ↦ rw b (refl, refl)
  ]

  blend_comps-steady : (o : Option Comps) (alpha : F32) → KeepsSteady (blend_comps o alpha)
  blend_comps-steady none alpha st h = (refl, h)
  blend_comps-steady (some c) alpha st h =
      let to = clamp (st.spec).kind c in
      let e = begin_blend-lem to alpha st in
      let b = begin_blend to alpha st in
      let k =
        snap-IsSteady
          (record b {
            last_alpha = alpha;
            target = interp (b.spec).kind b.blend_from to alpha;
            blend_active = b.blend_active && not (le32 (nat32 1) alpha);
          })
          (λ d. e.1 ∙ (h (subst (λ sp. is_discrete sp.kind ≡ true) e.0 d)).1) in
      (k.0 ∙ ap (λ sp. sp.addr) e.0, k.1)

  blend-steady : (v : ParamValue) (alpha : F32) → KeepsSteady (blend_state v alpha)
  blend-steady v alpha st h =
      IsSteady-unless st.live_override st _ h
        (blend_comps-steady (to_comps (st.spec).kind v) alpha st h)

  tick-steady : (dt : F64) → KeepsSteady (tick_state dt)
  tick-steady dt st h = elim (Bool-cases (snaps_immediately st)) [
    | inl b ↦ rw b (refl, λ d. (refl, (h d).1))
    | inr b ↦ rw b (refl, λ d. ground (arith, b, d))
  ]

  offset_comps-discrete :
      (kind : ParamKind) (off : F64) (c : Comps)
      → is_discrete kind ≡ true
      → offset_comps kind off c ≡ c
  offset_comps-discrete kind off c d = ground arith

  offset-steady : (off : F32) → KeepsSteady (offset_state off)
  offset-steady off st h =
      (refl, λ d. ((h d).0, offset_comps-discrete (st.spec).kind _ st.mod_offset d ∙ (h d).1))

  IsSound-add_offsets :
      (offsets : List (Text × F32)) (r : Registry) (k : Text)
      → IsSound k (r k)
      → IsSound k (add_offsets offsets r k)
  IsSound-add_offsets [] r k h = h
  IsSound-add_offsets ((addr, off) ∷ offsets) r k h =
      IsSound-add_offsets offsets (at_addr addr (offset_state off) r) k
        (IsSound-at_addr (offset_state off) (offset-steady off) addr k r h)

  IsSound-blend :
      (w : Option ParamValue) (alpha : F32) (k : Text) (o : Option ParamState)
      → IsSound k o
      → IsSound k (blend_entry w alpha o)
  IsSound-blend none alpha k o h = h
  IsSound-blend (some v) alpha k o h =
      IsSound-map (blend_state v alpha) (blend-steady v alpha) k o h

  IsSound-register :
      (spec : ParamSpec) (k : Text) (o : Option ParamState)
      → spec.addr ≡ k
      → IsSound k o
      → IsSound k (some (registered spec o))
  IsSound-register spec k none e h = (e, λ d. (refl, refl))
  IsSound-register spec k (some st) e h = elim (Bool-cases (kind_eq (st.spec).kind spec.kind)) [
    | inl b ↦ rw b (e, λ d. h.1 (sym (kind_eq-is_discrete (st.spec).kind spec.kind b) ∙ d))
    | inr b ↦ rw b (e, λ d. (refl, refl))
  ]

  -- In every registry that the operations reach, each parameter stands under its own address, and
  -- a discrete one shows its target at once, without smoothing and without modulation.
  pub Reached-IsSound : {r : Registry} → Reached r → (addr : Text) → IsSound addr (r addr)
  unfolding register set set_live_override set_smoothing_override blend_toward apply_modulation
      tick_registry
  Reached-IsSound empty k = tt
  Reached-IsSound (registering {r = r} spec h) k = elim (Bool-cases (text_eq k spec.addr)) [
    | inl b ↦ rw b (
        IsSound-register spec k (r k) (sym ((text_eq-IsEq).sound k spec.addr b))
          (Reached-IsSound h k))
    | inr b ↦ rw b (Reached-IsSound h k)
  ]
  Reached-IsSound (unregistering prefix h) k = elim (Bool-cases (starts_with k prefix)) [
    | inl b ↦ rw b tt
    | inr b ↦ rw b (Reached-IsSound h k)
  ]
  Reached-IsSound (setting {r = r} addr v source h) k =
      IsSound-at_addr (set_state v source) (set-steady v source) addr k r (Reached-IsSound h k)
  Reached-IsSound (holding {r = r} addr on h) k =
      IsSound-at_addr _ (λ st p. (refl, p)) addr k r (Reached-IsSound h k)
  Reached-IsSound (smoothing {r = r} addr ms h) k =
      IsSound-at_addr _ (λ st p. (refl, p)) addr k r (Reached-IsSound h k)
  Reached-IsSound (blending {r = r} m alpha h) k =
      IsSound-blend (m k) _ k (r k) (Reached-IsSound h k)
  Reached-IsSound (modulating {r = r} offsets h) k =
      IsSound-add_offsets offsets (clear_offsets r) k (
        IsSound-map clear_offset (λ st p. (refl, λ d. ((p d).0, refl))) k (r k)
          (Reached-IsSound h k))
  Reached-IsSound (ticking {r = r} dt h) k =
      IsSound-map (tick_state _) (tick-steady _) k (r k) (Reached-IsSound h k)
