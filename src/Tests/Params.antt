-- ===== src/Tests/Params.antt =====
-- Runs of the parameter registry, crates/params/src/registry.rs.
use videocuelist.Prelude.{◌≡◌, refl, true, false, [], ◌∷◌, none, some, arith, inr}
use videocuelist.Prelude.Int.{leb_ℤ, ℤ, pos, negsuc}
use videocuelist.Text.{Text}
use videocuelist.Float.Milli.{milli}
use videocuelist.Core.Model.{ParamValue, ParamMap}
use videocuelist.Core.Template.{Source}
use videocuelist.Params.{comps_eq, to_comps, zero_comps, clamp, interp, Comps, ParamKind, ParamSpec}
use videocuelist.Params.Registry.{
  Registry, ParamState, register, new_registry, set, set_live_override, blend_toward, tick_registry,
  apply_modulation, value, target_of, snapshot_scripted, unregister_prefix, contains_addr,
  new_state,
}
use videocuelist.Params.Registry.Modulation.{apply_modulation-replaces, snapshot-modulated}
use videocuelist.Params.Registry.Live.{
  frame_modulation, frame_tick, cue_blend, cue_set, IsRefused, IsHeldAt, show_ops, show_ops-held,
  set-refused,
}
use videocuelist.Params.Registry.Reached.{
  empty, registering, setting, ticking, Reached-IsSound, IsSound,
}
use videocuelist.Params.Registry.Fading.{unit32}
use videocuelist.Params.Registry.Blend.{fade_frames, fade-starts_once, target_comps}
use videocuelist.Params.Registry.Range.{OrderLaws, value-InRange}

-- An opacity from 0 to 1, smoothed over a second, and a switch.
abbrev opacity : Text
opacity = 111 ∷ []

abbrev switch : Text
switch = 115 ∷ []

abbrev opacity_spec : ParamSpec
opacity_spec = record {
  addr = opacity;
  label = opacity;
  kind = ParamKind.float (pos 0) (pos 1000);
  default = ParamValue.f (pos 1500);
  smoothing_ms = pos 1000000;
  scriptable = true;
}

abbrev switch_spec : ParamSpec
switch_spec = record {
  addr = switch;
  label = switch;
  kind = ParamKind.bool;
  default = ParamValue.b false;
  smoothing_ms = pos 1000000;
  scriptable = false;
}

abbrev two_params : Registry
two_params = register switch_spec (register opacity_spec new_registry)

default_is_clamped : value opacity two_params ≡ some (ParamValue.f (pos 1000))
unfolding value register
default_is_clamped = refl

set_then_tick :
    (value opacity (set opacity (ParamValue.f (pos 0)) Source.ui two_params)
      ≡ some (ParamValue.f (pos 1000)))
    × (target_of opacity (set opacity (ParamValue.f (pos 0)) Source.ui two_params)
        ≡ some (ParamValue.f (pos 0)))
    × (value opacity
          (tick_registry (pos 500) (set opacity (ParamValue.f (pos 0)) Source.ui two_params))
        ≡ some (ParamValue.f (pos 500)))
unfolding value register set target_of tick_registry
set_then_tick = (refl, refl, refl)

switches_at_once :
    value switch (set switch (ParamValue.f (pos 700)) Source.osc two_params)
    ≡ some (ParamValue.b true)
unfolding value register set
switches_at_once = refl

unregisters :
    (contains_addr opacity (unregister_prefix (111 ∷ []) two_params) ≡ false)
    × (contains_addr switch (unregister_prefix (111 ∷ []) two_params) ≡ true)
unfolding register
unregisters = (refl, refl)

snapshots_scriptable :
    (snapshot_scripted two_params opacity ≡ some (ParamValue.f (pos 1000)))
    × (snapshot_scripted two_params switch ≡ none)
unfolding register snapshot_scripted
snapshots_scriptable = (refl, refl)

apply_modulation-replaces_example :
    apply_modulation
      ((opacity, negsuc 199) ∷ [])
      (apply_modulation ((opacity, pos 300) ∷ (switch, pos 1) ∷ []) two_params)
    ≡ apply_modulation ((opacity, negsuc 199) ∷ []) two_params
apply_modulation-replaces_example =
    apply_modulation-replaces ((opacity, pos 300) ∷ (switch, pos 1) ∷ [])
      ((opacity, negsuc 199) ∷ []) two_params

modulates_the_value :
    value opacity (apply_modulation ((opacity, negsuc 199) ∷ []) two_params)
    ≡ some (ParamValue.f (pos 800))
unfolding value apply_modulation register
modulates_the_value = refl

snapshot-modulated_example :
    (snapshot_scripted
        (tick_registry (pos 20) (apply_modulation ((opacity, pos 300) ∷ []) two_params))
        opacity
      ≡ snapshot_scripted two_params opacity)
    × (target_of opacity
          (tick_registry (pos 20) (apply_modulation ((opacity, pos 300) ∷ []) two_params))
        ≡ target_of opacity two_params)
snapshot-modulated_example =
    snapshot-modulated ((opacity, pos 300) ∷ []) (pos 20) two_params opacity

-- The opacity held by a live fader at 0.25.
abbrev held : Registry
held = set_live_override opacity true (set opacity (ParamValue.f (pos 250)) Source.ui two_params)

abbrev quarter : Comps
quarter = record zero_comps { c0 = pos 250 }

held_at : IsHeldAt quarter (held opacity)
unfolding set_live_override set register
held_at = (refl, refl)

abbrev full : ParamMap
full = λ addr. some (ParamValue.f (pos 1000))

show_ops-held_example : IsHeldAt quarter (
    show_ops
      (cue_set opacity (ParamValue.f (pos 1000))
        ∷ cue_blend full (pos 500)
        ∷ frame_tick (pos 20)
        ∷ frame_modulation ((opacity, pos 100) ∷ [])
        ∷ [])
      held
      opacity)
show_ops-held_example =
    show_ops-held
      (cue_set opacity (ParamValue.f (pos 1000))
        ∷ cue_blend full (pos 500)
        ∷ frame_tick (pos 20)
        ∷ frame_modulation ((opacity, pos 100) ∷ [])
        ∷ [])
      held opacity quarter held_at

color_misfits :
    IsRefused (ParamValue.color (pos 0) (pos 0) (pos 0) (pos 0)) Source.midi (two_params opacity)
unfolding register to_comps
color_misfits = inr refl

set-refused_example :
    set opacity (ParamValue.color (pos 0) (pos 0) (pos 0) (pos 0)) Source.midi two_params
    ≡ two_params
set-refused_example =
    set-refused opacity (ParamValue.color (pos 0) (pos 0) (pos 0) (pos 0)) Source.midi two_params
      color_misfits

Reached-IsSound_example :
    IsSound switch
      (tick_registry (pos 20) (set switch (ParamValue.b true) Source.cue two_params) switch)
Reached-IsSound_example =
    Reached-IsSound
      (ticking (pos 20) (
        setting switch (ParamValue.b true) Source.cue
          (registering switch_spec (registering opacity_spec empty))))
      switch

abbrev opacity_state : ParamState
opacity_state = new_state opacity_spec (record zero_comps { c0 = pos 1000 })

opacity_found : two_params opacity ≡ some opacity_state
unfolding register
opacity_found = refl

abbrev dark : ParamMap
dark = λ addr. some (ParamValue.f (pos 0))

dark_fits : to_comps opacity_spec.kind (ParamValue.f (pos 0)) ≡ some zero_comps
unfolding to_comps
dark_fits = refl

dark_is_number :
    comps_eq (clamp opacity_spec.kind zero_comps) (clamp opacity_spec.kind zero_comps) ≡ true
unfolding clamp
dark_is_number = refl

-- Two frames at 0.25 and 0.5, then one at 0.75: the target is a quarter.
fade-starts_once_example :
    target_comps (
      blend_toward dark
        (pos 750)
        (fade_frames dark ((pos 250, pos 20) ∷ (pos 500, pos 20) ∷ []) two_params)
        opacity)
    ≡ some (
        interp opacity_spec.kind
          (record zero_comps { c0 = pos 1000 })
          (clamp opacity_spec.kind zero_comps)
          (unit32 (pos 750)))
fade-starts_once_example =
    fade-starts_once dark zero_comps (ParamValue.f (pos 0)) opacity_state (pos 250) (pos 20)
      ((pos 500, pos 20) ∷ []) (pos 750) two_params opacity opacity_found refl refl refl dark_fits
      dark_is_number refl (refl, refl, refl)

quarter_left :
    interp opacity_spec.kind (record zero_comps { c0 = pos 1000 }) zero_comps (pos 750)
    ≡ record zero_comps { c0 = pos 250 }
unfolding interp
quarter_left = refl

milli_laws : OrderLaws
milli_laws = record {
  le_numbers = λ a b h. (ground arith, ground arith);
  le_max = λ a b h. ground arith;
  min_le = λ a b h. ground arith;
  le_min = λ a b c h k. ground arith;
  from_le = λ a b h. h;
  as_le = λ a b h. h;
  as_from = λ a h. refl;
  numbers32 = λ a b h. (ground arith, ground arith);
}

pushed :
    apply_modulation ((opacity, pos 300) ∷ []) two_params opacity
    ≡ some (record opacity_state { mod_offset = record zero_comps { c0 = pos 300 } })
unfolding apply_modulation register
pushed = refl

value-InRange_example :
    (x : ℤ) × (value opacity (apply_modulation ((opacity, pos 300) ∷ []) two_params)
      ≡ some (ParamValue.f x))
    × (leb_ℤ (pos 0) x ≡ true)
    × (leb_ℤ x (pos 1000) ≡ true)
value-InRange_example =
    value-InRange milli_laws (apply_modulation ((opacity, pos 300) ∷ []) two_params) opacity
      (record opacity_state { mod_offset = record zero_comps { c0 = pos 300 } }) (pos 0) (pos 1000)
      pushed refl refl
