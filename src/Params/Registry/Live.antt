-- ===== src/Params/Registry/Live.antt =====
-- crates/params/src/registry.rs: what reaches a parameter that a live fader holds, what an
-- operation refuses, and the invariants of the registries that the operations reach.
use videocuelist.Prelude.{
  sym, subst, fun_ext, ◌≡◌, refl, List, [], ◌∷◌, Option, none, some, arith, Bool-cases, inl, inr,
  true, ◌⊎◌,
}
use videocuelist.Text.{Text, text_eq}
use videocuelist.Text.Words.{text_eq-IsEq}
use videocuelist.Float.{Floats}
use videocuelist.Core.Model.{ParamValue, ParamMap}
use videocuelist.Core.Template.{Source, is_cue}
use videocuelist.Params.{Comps, to_comps}
use videocuelist.Params.Registry.{
  map_option, ParamState, Registry, at_addr, set_state, set, blend_entry, blend_toward,
  tick_registry, tick_state, apply_modulation, offset_state, add_offsets, clear_offset,
  clear_offsets, snaps_immediately,
}

module _ ⦃F : Floats⦄ where
  open F use {F32, F64}

  -- What the show itself does to the registry: cues set and blend, frames tick and modulate.
  pub data ShowOp : Type 0 where
    cue_set : Text → ParamValue → ShowOp
    cue_blend : ParamMap → F32 → ShowOp
    frame_tick : F32 → ShowOp
    frame_modulation : List (Text × F32) → ShowOp

  abbrev pub show_op : ShowOp → Registry → Registry
  show_op (cue_set addr v) r = set addr v Source.cue r
  show_op (cue_blend m alpha) r = blend_toward m alpha r
  show_op (frame_tick dt) r = tick_registry dt r
  show_op (frame_modulation offsets) r = apply_modulation offsets r

  abbrev pub show_ops : List ShowOp → Registry → Registry
  show_ops [] r = r
  show_ops (op ∷ ops) r = show_ops ops (show_op op r)

  -- The parameter is held by a live fader at that target.
  abbrev pub IsHeldAt : Comps → Option ParamState → Type 0
  IsHeldAt t none = ⊥
  IsHeldAt t (some st) = (st.live_override ≡ true) × (st.target ≡ t)

  held-set :
      (v : ParamValue) (st : ParamState) (t : Comps)
      → IsHeldAt t (some st)
      → IsHeldAt t (some (set_state v Source.cue st))
  held-set v st t h = rw h.0 (refl, h.1)

  held-map :
      (f : ParamState → ParamState) (o : Option ParamState) (t : Comps)
      → ((st : ParamState) → IsHeldAt t (some st) → IsHeldAt t (some (f st)))
      → IsHeldAt t o
      → IsHeldAt t (map_option f o)
  held-map f none t c h = absurd h
  held-map f (some st) t c h = c st h

  held-at_addr :
      (addr k : Text) (f : ParamState → ParamState) (r : Registry) (t : Comps)
      → ((st : ParamState) → IsHeldAt t (some st) → IsHeldAt t (some (f st)))
      → IsHeldAt t (r k)
      → IsHeldAt t (at_addr addr f r k)
  held-at_addr addr k f r t c h = elim (Bool-cases (text_eq k addr)) [
    | inl b ↦ rw b (held-map f (r k) t c h)
    | inr b ↦ rw b h
  ]

  held-blend :
      (w : Option ParamValue) (alpha : F32) (o : Option ParamState) (t : Comps)
      → IsHeldAt t o
      → IsHeldAt t (blend_entry w alpha o)
  held-blend none alpha o t h = h
  held-blend (some v) alpha none t h = absurd h
  held-blend (some v) alpha (some st) t h = rw h.0 (refl, h.1)

  held-tick :
      (dt : F64) (st : ParamState) (t : Comps)
      → IsHeldAt t (some st)
      → IsHeldAt t (some (tick_state dt st))
  held-tick dt st t h = elim (Bool-cases (snaps_immediately st)) [ inl b ↦ rw b h | inr b ↦ rw b h ]

  held-add_offsets :
      (offsets : List (Text × F32)) (r : Registry) (k : Text) (t : Comps)
      → IsHeldAt t (r k)
      → IsHeldAt t (add_offsets offsets r k)
  held-add_offsets [] r k t h = h
  held-add_offsets ((addr, off) ∷ offsets) r k t h =
      held-add_offsets offsets (at_addr addr (offset_state off) r) k t
        (held-at_addr addr k (offset_state off) r t (λ st p. p) h)

  held-show_op :
      (op : ShowOp) (r : Registry) (k : Text) (t : Comps)
      → IsHeldAt t (r k)
      → IsHeldAt t (show_op op r k)
  unfolding set blend_toward tick_registry apply_modulation
  held-show_op (cue_set addr v) r k t h =
      held-at_addr addr k (set_state v Source.cue) r t (λ st p. held-set v st t p) h
  held-show_op (cue_blend m alpha) r k t h = held-blend (m k) _ (r k) t h
  held-show_op (frame_tick dt) r k t h =
      held-map (tick_state _) (r k) t (λ st p. held-tick _ st t p) h
  held-show_op (frame_modulation offsets) r k t h =
      held-add_offsets offsets (clear_offsets r) k t (held-map clear_offset (r k) t (λ st p. p) h)

  -- Whatever the show does, in whatever order - cues that set or blend, ticks, modulation - a
  -- parameter that a live fader holds stays held, at the target that the fader gave it.
  pub show_ops-held :
      (ops : List ShowOp) (r : Registry) (addr : Text) (t : Comps)
      → IsHeldAt t (r addr)
      → IsHeldAt t (show_ops ops r addr)
  show_ops-held [] r addr t h = h
  show_ops-held (op ∷ ops) r addr t h =
      show_ops-held ops (show_op op r) addr t (held-show_op op r addr t h)

  -- Why a set is refused: the address is unknown, a live fader holds it against a cue, or the
  -- value does not fit its kind.
  abbrev pub IsRefused : ParamValue → Source → Option ParamState → Type 0
  IsRefused v source none = Unit
  IsRefused v source (some st) =
      ((st.live_override ≡ true) × (is_cue source ≡ true)) ⊎ (to_comps (st.spec).kind v ≡ none)

  refused-lem :
      (v : ParamValue) (source : Source) (o : Option ParamState)
      → IsRefused v source o
      → map_option (set_state v source) o ≡ o
  refused-lem v source none h = refl
  refused-lem v source (some st) (inl (a, b)) = rw (a, b) refl
  refused-lem v source (some st) (inr n) = ground (arith, n)

  -- A set that is refused leaves the whole registry as it was.
  pub set-refused :
      (addr : Text) (v : ParamValue) (source : Source) (r : Registry)
      → IsRefused v source (r addr)
      → set addr v source r ≡ r
  unfolding set
  set-refused addr v source r h = fun_ext (λ k. elim (Bool-cases (text_eq k addr)) [
    | inl b ↦ rw b (
        refused-lem v source (r k)
          (subst (λ a. IsRefused v source (r a)) (sym ((text_eq-IsEq).sound k addr b)) h))
    | inr b ↦ rw b refl
  ])
