-- ===== src/Params/Registry/Blend.antt =====
-- crates/params/src/registry.rs: a fade that is called frame after frame starts once.
use videocuelist.Prelude.{
  if◌then◌else◌, subst, sym, ap, ◌∙◌, List, [], ◌∷◌, Option, none, some, Option-cases, ◌≡◌, refl,
  inl, inr, true, false, Bool,
}
use videocuelist.Float.{Floats, nat32}
use videocuelist.Text.{Text}
use videocuelist.Params.{to_comps, interp, clamp, Comps, ParamSpec, comps_eq}
use videocuelist.Core.Model.{ParamValue, ParamMap}
use videocuelist.Params.Registry.{
  map_option, blend_state, blend_toward, tick_registry, Registry, blend_comps, ParamState,
}
use videocuelist.Params.Registry.Fading.{
  unit32, IsFading, IsAfter, Aims, first-Aims, next-Aims, tick-IsFading,
}

module _ ⦃F : Floats⦄ where
  open F use {F32, F64, le32, lt32, add32}

  abbrev pub fade_frames : ParamMap → List (F32 × F32) → Registry → Registry
  fade_frames m [] r = r
  fade_frames m ((alpha, dt) ∷ fs) r = fade_frames m fs (tick_registry dt (blend_toward m alpha r))

  -- The alphas of the frames do not step back, and do not arrive yet.
  abbrev pub IsRising : F32 → List (F32 × F32) → F32 → Type 0
  IsRising before [] last = IsAfter before (unit32 last)
  IsRising before ((alpha, dt) ∷ fs) last =
      IsAfter before (unit32 alpha)
      × (le32 (nat32 1) (unit32 alpha) ≡ false)
      × IsRising (unit32 alpha) fs last

  -- The state of an address after one frame of a fade.
  abbrev IsFadingAt : ParamSpec → Comps → Comps → F32 → Option ParamState → Type 0
  IsFadingAt spec start to alpha none = ⊥
  IsFadingAt spec start to alpha (some st) = IsFading spec start to alpha st

  abbrev AimsAt : ParamSpec → Comps → Comps → F32 → Option ParamState → Type 0
  AimsAt spec start to alpha none = ⊥
  AimsAt spec start to alpha (some st) = Aims spec start to alpha st

  skip_false : (b : Bool) (x y : ParamState) → b ≡ false → (if b then x else y) ≡ y
  skip_false b x y e = rw e refl

  blend_state-free :
      (want : ParamValue) (alpha : F32) (st : ParamState) {c : Comps}
      → st.live_override ≡ false
      → to_comps (st.spec).kind want ≡ some c
      → blend_state want alpha st ≡ blend_comps (some c) alpha st
  blend_state-free want alpha st l e =
      skip_false st.live_override _ _ l ∙ ap (λ o. blend_comps o alpha st) e

  aims-next :
      (spec : ParamSpec) (start c : Comps) (want : ParamValue) (before alpha : F32)
      (o : Option ParamState)
      → to_comps spec.kind want ≡ some c
      → comps_eq (clamp spec.kind c) (clamp spec.kind c) ≡ true
      → IsFadingAt spec start (clamp spec.kind c) before o
      → IsAfter before alpha
      → AimsAt spec start (clamp spec.kind c) alpha (map_option (blend_state want alpha) o)
  aims-next spec start c want before alpha none e n h a = absurd h
  aims-next spec start c want before alpha (some st) e n h a =
      subst (Aims spec start (clamp spec.kind c) alpha)
        (sym (
          blend_state-free want alpha st h.free (ap (λ sp. to_comps sp.kind want) h.spec_same ∙ e)))
        (next-Aims spec start c before alpha st h n a)

  -- One frame of a fade under way.
  frame-IsFading :
      (m : ParamMap) (spec : ParamSpec) (start c : Comps) (want : ParamValue) (before alpha : F32)
      (dt : F32) (r : Registry) (addr : Text)
      → m addr ≡ some want
      → to_comps spec.kind want ≡ some c
      → comps_eq (clamp spec.kind c) (clamp spec.kind c) ≡ true
      → IsFadingAt spec start (clamp spec.kind c) before (r addr)
      → IsAfter before (unit32 alpha)
      → AimsAt spec start (clamp spec.kind c) (unit32 alpha) (blend_toward m alpha r addr)
  unfolding blend_toward
  frame-IsFading m spec start c want before alpha dt r addr w e n h a =
      rw w (aims-next spec start c want before (unit32 alpha) (r addr) e n h a)

  ticked-IsFading :
      (m : ParamMap) (spec : ParamSpec) (start to : Comps) (alpha dt : F32) (r : Registry)
      (addr : Text)
      → AimsAt spec start to alpha (r addr)
      → le32 (nat32 1) alpha ≡ false
      → IsFadingAt spec start to alpha (tick_registry dt r addr)
  unfolding tick_registry
  ticked-IsFading m spec start to alpha dt r addr h l = elim (Option-cases (r addr)) [
    | inl n ↦ absurd (rw n at h)
    | inr (st, p) ↦ rw p (tick-IsFading spec start to alpha _ st ((rw p at h).1 l))
  ]

  first-frame :
      (m : ParamMap) (c : Comps) (want : ParamValue) (st : ParamState) (alpha : F32) (r : Registry)
      (addr : Text)
      → r addr ≡ some st
      → st.blend_active ≡ false
      → st.live_override ≡ false
      → m addr ≡ some want
      → to_comps (st.spec).kind want ≡ some c
      → AimsAt st.spec st.current
          (clamp (st.spec).kind c)
          (unit32 alpha)
          (blend_toward m alpha r addr)
  unfolding blend_toward
  first-frame m c want st alpha r addr p b l w e =
      rw (w, p)
        (subst (Aims st.spec st.current (clamp (st.spec).kind c) (unit32 alpha))
          (sym (blend_state-free want (unit32 alpha) st l e))
          (first-Aims st.spec c (unit32 alpha) st refl b l))

  fade-on :
      (m : ParamMap) (spec : ParamSpec) (start c : Comps) (want : ParamValue) (before : F32)
      (fs : List (F32 × F32)) (last : F32) (r : Registry) (addr : Text)
      → m addr ≡ some want
      → to_comps spec.kind want ≡ some c
      → comps_eq (clamp spec.kind c) (clamp spec.kind c) ≡ true
      → IsFadingAt spec start (clamp spec.kind c) before (r addr)
      → IsRising before fs last
      → AimsAt spec start
          (clamp spec.kind c)
          (unit32 last)
          (blend_toward m last (fade_frames m fs r) addr)
  fade-on m spec start c want before [] last r addr w e n h a =
      frame-IsFading m spec start c want before last last r addr w e n h a
  fade-on m spec start c want before ((alpha, dt) ∷ fs) last r addr w e n h a =
      fade-on m spec start c want (unit32 alpha) fs last (tick_registry dt (blend_toward m alpha r))
        addr w e n
        (ticked-IsFading m spec start (clamp spec.kind c) (unit32 alpha) dt (blend_toward m alpha r)
          addr (frame-IsFading m spec start c want before alpha dt r addr w e n h a.0) a.1)
        a.2

  -- The target that a registry has for an address.
  abbrev pub target_comps : Option ParamState → Option Comps
  target_comps none = none
  target_comps (some st) = some st.target

  AimsAt-target_comps :
      (spec : ParamSpec) (start to : Comps) (alpha : F32) (o : Option ParamState)
      → AimsAt spec start to alpha o
      → target_comps o ≡ some (interp spec.kind start to alpha)
  AimsAt-target_comps spec start to alpha none h = absurd h
  AimsAt-target_comps spec start to alpha (some st) h = ap some h.0

  -- A fade towards the values of a cue, frame after frame with ticks between, starts once: whatever
  -- the smoothing has done meanwhile, the target is the interpolation from the value at the first
  -- frame to the clamped value of the cue, at the last alpha. The alphas do not step back and only
  -- the last one may arrive, no blend was active and no live fader holds the parameter, and the
  -- value of the cue fits the kind and is no NaN.
  pub fade-starts_once :
      (m : ParamMap) (c : Comps) (want : ParamValue) (st : ParamState) (alpha dt : F32)
      (fs : List (F32 × F32)) (last : F32) (r : Registry) (addr : Text)
      → r addr ≡ some st
      → st.blend_active ≡ false
      → st.live_override ≡ false
      → m addr ≡ some want
      → to_comps (st.spec).kind want ≡ some c
      → comps_eq (clamp (st.spec).kind c) (clamp (st.spec).kind c) ≡ true
      → le32 (nat32 1) (unit32 alpha) ≡ false
      → IsRising (unit32 alpha) fs last
      → target_comps (blend_toward m last (fade_frames m ((alpha, dt) ∷ fs) r) addr)
        ≡ some (interp (st.spec).kind st.current (clamp (st.spec).kind c) (unit32 last))
  fade-starts_once m c want st alpha dt fs last r addr p b l w e n u a =
      AimsAt-target_comps st.spec st.current (clamp (st.spec).kind c) (unit32 last) _ (
        fade-on m st.spec st.current c want (unit32 alpha) fs last
          (tick_registry dt (blend_toward m alpha r)) addr w e n
          (ticked-IsFading m st.spec st.current (clamp (st.spec).kind c) (unit32 alpha) dt
            (blend_toward m alpha r) addr (first-frame m c want st alpha r addr p b l w e) u)
          a)
