-- ===== src/Params/Registry/Modulation.antt =====
-- crates/params/src/registry.rs: modulation does not last, and moves only what is read.
use videocuelist.Prelude.{
  ap, Option-cases, ◌≡◌, refl, ◌∙◌, fun_ext, List, [], ◌∷◌, Option, none, some, Bool-cases, inl,
  inr, Bool, option_filter,
}
use videocuelist.Text.{Text, text_eq}
use videocuelist.Float.{Floats}
use videocuelist.Params.{to_value, Comps, ParamSpec}
use videocuelist.Core.Model.{ParamValue}
use videocuelist.Params.Registry.{
  target_of, snaps_immediately, tick_registry, snapshot_scripted, tick_state, apply_modulation,
  target_value, map_option, ParamState, Registry, at_addr, offset_state, add_offsets, clear_offset,
  clear_offsets,
}

module _ ⦃F : Floats⦄ where
  open F use {F32, F64}

  clear-offset :
      (off : F32) (o : Option ParamState)
      → map_option clear_offset (map_option (offset_state off) o) ≡ map_option clear_offset o
  clear-offset off none = refl
  clear-offset off (some st) = refl

  clear-at_addr :
      (addr k : Text) (off : F32) (r : Registry)
      → clear_offsets (at_addr addr (offset_state off) r) k ≡ clear_offsets r k
  clear-at_addr addr k off r = elim (Bool-cases (text_eq k addr)) [
    | inl t ↦ rw t (clear-offset off (r k))
    | inr f ↦ rw f refl
  ]

  clear-add_offsets :
      (offsets : List (Text × F32)) (r : Registry) (k : Text)
      → clear_offsets (add_offsets offsets r) k ≡ clear_offsets r k
  clear-add_offsets [] r k = refl
  clear-add_offsets ((addr, off) ∷ offsets) r k =
      clear-add_offsets offsets (at_addr addr (offset_state off) r) k ∙ clear-at_addr addr k off r

  clear-clear : (r : Registry) (k : Text) → clear_offsets (clear_offsets r) k ≡ clear_offsets r k
  clear-clear r k = elim (Option-cases (r k)) [ inl n ↦ rw n refl | inr (st, p) ↦ rw p refl ]

  -- Modulation does not last: the offsets of one frame replace those of the frame before, for
  -- every parameter.
  pub apply_modulation-replaces :
      (before now : List (Text × F32)) (r : Registry)
      → apply_modulation now (apply_modulation before r) ≡ apply_modulation now r
  unfolding apply_modulation
  apply_modulation-replaces before now r =
      ap (add_offsets now)
        (fun_ext (λ k. clear-add_offsets before (clear_offsets r) k ∙ clear-clear r k))

  -- The part of a state that cues record and restore.
  abbrev recorded : ParamState → ParamSpec × Comps
  recorded st = (st.spec, st.target)

  abbrev value_of_recorded : ParamSpec × Comps → ParamValue
  value_of_recorded (spec, target) = to_value spec.kind target

  abbrev is_scriptable : ParamSpec × Comps → Bool
  is_scriptable (spec, target) = spec.scriptable

  snapshot_of-recorded :
      (o : Option ParamState)
      → map_option target_value (option_filter (λ st. (st.spec).scriptable) o)
        ≡ map_option value_of_recorded (option_filter is_scriptable (map_option recorded o))
  snapshot_of-recorded none = refl
  snapshot_of-recorded (some st) = elim (Bool-cases (st.spec).scriptable) [
    | inl t ↦ rw t refl
    | inr f ↦ rw f refl
  ]

  target_of-recorded :
      (o : Option ParamState)
      → map_option target_value o ≡ map_option value_of_recorded (map_option recorded o)
  target_of-recorded none = refl
  target_of-recorded (some st) = refl

  recorded-tick :
      (dt : F64) (o : Option ParamState)
      → map_option recorded (map_option (tick_state dt) o) ≡ map_option recorded o
  recorded-tick dt none = refl
  recorded-tick dt (some st) = elim (Bool-cases (snaps_immediately st)) [
    | inl t ↦ rw t refl
    | inr f ↦ rw f refl
  ]

  recorded-clear :
      (o : Option ParamState)
      → map_option recorded (map_option clear_offset o) ≡ map_option recorded o
  recorded-clear none = refl
  recorded-clear (some st) = refl

  recorded-offset :
      (off : F32) (o : Option ParamState)
      → map_option recorded (map_option (offset_state off) o) ≡ map_option recorded o
  recorded-offset off none = refl
  recorded-offset off (some st) = refl

  recorded-at_addr :
      (addr k : Text) (off : F32) (r : Registry)
      → map_option recorded (at_addr addr (offset_state off) r k) ≡ map_option recorded (r k)
  recorded-at_addr addr k off r = elim (Bool-cases (text_eq k addr)) [
    | inl t ↦ rw t (recorded-offset off (r k))
    | inr f ↦ rw f refl
  ]

  recorded-add_offsets :
      (offsets : List (Text × F32)) (r : Registry) (k : Text)
      → map_option recorded (add_offsets offsets r k) ≡ map_option recorded (r k)
  recorded-add_offsets [] r k = refl
  recorded-add_offsets ((addr, off) ∷ offsets) r k =
      recorded-add_offsets offsets (at_addr addr (offset_state off) r) k
      ∙ recorded-at_addr addr k off r

  recorded-modulated :
      (offsets : List (Text × F32)) (dt : F32) (r : Registry) (k : Text)
      → map_option recorded (tick_registry dt (apply_modulation offsets r) k)
        ≡ map_option recorded (r k)
  unfolding tick_registry apply_modulation
  recorded-modulated offsets dt r k =
      recorded-tick _ (add_offsets offsets (clear_offsets r) k)
      ∙ recorded-add_offsets offsets (clear_offsets r) k
      ∙ recorded-clear (r k)

  -- Neither modulation nor a tick changes what a cue records: after both, the snapshot of the
  -- scriptable parameters is what it was, and the target of every parameter.
  pub snapshot-modulated :
      (offsets : List (Text × F32)) (dt : F32) (r : Registry) (addr : Text)
      → (snapshot_scripted (tick_registry dt (apply_modulation offsets r)) addr
          ≡ snapshot_scripted r addr)
        × (target_of addr (tick_registry dt (apply_modulation offsets r)) ≡ target_of addr r)
  unfolding snapshot_scripted target_of
  snapshot-modulated offsets dt r addr =
      let e = recorded-modulated offsets dt r addr in
      (
        cc (
          e,
          snapshot_of-recorded (tick_registry dt (apply_modulation offsets r) addr),
          snapshot_of-recorded (r addr),
        ),
        cc (
          e,
          target_of-recorded (tick_registry dt (apply_modulation offsets r) addr),
          target_of-recorded (r addr),
        ),
      )
