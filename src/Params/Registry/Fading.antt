-- ===== src/Params/Registry/Fading.antt =====
-- crates/params/src/registry.rs: one parameter in a fade, from its first frame to its last.
use videocuelist.Prelude.{
  if◌then◌else◌, ◌&&◌, not, subst, sym, ap, ◌∙◌, some, ◌≡◌, refl, arith, Bool-cases, inl, inr, true,
  false, Bool,
}
use videocuelist.Float.{Floats, clamp32, nat32}
use videocuelist.Params.{interp, clamp, Comps, ParamSpec, comps_eq}
use videocuelist.Params.Registry.{
  tick_state, blend_comps, ParamState, snaps_immediately, snap, begin_blend, alpha_backstep,
}

module _ ⦃F : Floats⦄ where
  open F use {F32, F64, le32, lt32, add32}

  abbrev pub unit32 : F32 → F32
  unit32 alpha = clamp32 alpha (nat32 0) (nat32 1)

  -- A blend from `start` to `to` is under way, and `alpha` was its last.
  pub record IsFading (spec : ParamSpec) (start to : Comps) (alpha : F32) (st : ParamState)
      : Type 0 where
    pub spec_same : st.spec ≡ spec
    pub from_start : st.blend_from ≡ start
    pub to_target : st.blend_to ≡ to
    pub active : st.blend_active ≡ true
    pub at_alpha : st.last_alpha ≡ alpha
    pub free : st.live_override ≡ false

  -- The alpha does not step back.
  abbrev pub IsAfter : F32 → F32 → Type 0
  IsAfter before alpha = lt32 (add32 alpha alpha_backstep) before ≡ false

  snap-lem :
      (st : ParamState)
      → ((snap st).spec ≡ st.spec)
        × ((snap st).blend_from ≡ st.blend_from)
        × ((snap st).blend_to ≡ st.blend_to)
        × ((snap st).blend_active ≡ st.blend_active)
        × ((snap st).last_alpha ≡ st.last_alpha)
        × ((snap st).live_override ≡ st.live_override)
        × ((snap st).target ≡ st.target)
  snap-lem st = elim (Bool-cases (snaps_immediately st)) [
    | inl b ↦ rw b (refl, refl, refl, refl, refl, refl, refl)
    | inr b ↦ rw b (refl, refl, refl, refl, refl, refl, refl)
  ]

  -- A blend that was not active starts from the current value.
  begin-fresh :
      (to : Comps) (alpha : F32) (st : ParamState)
      → st.blend_active ≡ false
      → begin_blend to alpha st
        ≡ record st { blend_from = st.current; blend_to = to; blend_active = true }
  begin-fresh to alpha st e = ground (arith, e)

  -- One that is active towards the same target, by an alpha that does not step back, goes on.
  begin-goes_on :
      (spec : ParamSpec) (start to : Comps) (before alpha : F32) (st : ParamState)
      → IsFading spec start to before st
      → comps_eq to to ≡ true
      → IsAfter before alpha
      → begin_blend to alpha st ≡ st
  begin-goes_on spec start to before alpha st h n a =
      ground (arith, h.to_target, h.active, h.at_alpha, n, a)

  -- What the rest of a blend does once the start is settled.
  abbrev blended : Comps → F32 → ParamState → ParamState
  blended to alpha b = snap (record b {
    last_alpha = alpha;
    target = interp (b.spec).kind b.blend_from to alpha;
    blend_active = b.blend_active && not (le32 (nat32 1) alpha);
  })

  -- Such a blend aims between the start and the target, and goes on unless it has arrived.
  abbrev pub Aims : ParamSpec → Comps → Comps → F32 → ParamState → Type 0
  Aims spec start to alpha st =
      (st.target ≡ interp spec.kind start to alpha)
      × (le32 (nat32 1) alpha ≡ false → IsFading spec start to alpha st)

  blended-Aims :
      (spec : ParamSpec) (start to : Comps) (before alpha : F32) (b : ParamState)
      → IsFading spec start to before b
      → Aims spec start to alpha (blended to alpha b)
  blended-Aims spec start to before alpha b h =
      let x = record b {
        last_alpha = alpha;
        target = interp (b.spec).kind b.blend_from to alpha;
        blend_active = b.blend_active && not (le32 (nat32 1) alpha);
      } in
      let k = snap-lem x in
      (
        k.6 ∙ cc (h.spec_same, h.from_start),
        λ l. record {
          spec_same = k.0 ∙ h.spec_same;
          from_start = k.1 ∙ h.from_start;
          to_target = k.2 ∙ h.to_target;
          active = k.3 ∙ ground (arith, h.active, l);
          at_alpha = k.4;
          free = k.5 ∙ h.free;
        },
      )

  pub first-Aims :
      (spec : ParamSpec) (c : Comps) (alpha : F32) (st : ParamState)
      → st.spec ≡ spec
      → st.blend_active ≡ false
      → st.live_override ≡ false
      → Aims spec st.current (clamp spec.kind c) alpha (blend_comps (some c) alpha st)
  first-Aims spec c alpha st e a l =
      let to = clamp (st.spec).kind c in
      let b : ParamState = record st {
        blend_from = st.current;
        blend_to = to;
        blend_active = true;
      } in
      subst (λ z. Aims spec st.current (clamp spec.kind c) alpha (blended to alpha z))
        (sym (begin-fresh to alpha st a))
        (subst (λ t. Aims spec st.current t alpha (blended to alpha b))
          (ap (λ sp. clamp sp.kind c) e)
          (blended-Aims spec st.current to st.last_alpha alpha b (record {
            spec_same = e;
            from_start = refl;
            to_target = refl;
            active = refl;
            at_alpha = refl;
            free = l;
          })))

  pub next-Aims :
      (spec : ParamSpec) (start c : Comps) (before alpha : F32) (st : ParamState)
      → IsFading spec start (clamp spec.kind c) before st
      → comps_eq (clamp spec.kind c) (clamp spec.kind c) ≡ true
      → IsAfter before alpha
      → Aims spec start (clamp spec.kind c) alpha (blend_comps (some c) alpha st)
  next-Aims spec start c before alpha st h n a =
      let to = clamp spec.kind c in
      let e : clamp (st.spec).kind c ≡ to = ap (λ sp. clamp sp.kind c) h.spec_same in
      subst (λ t. Aims spec start to alpha (blended t alpha (begin_blend t alpha st))) (sym e)
        (subst (λ z. Aims spec start to alpha (blended to alpha z))
          (sym (begin-goes_on spec start to before alpha st h n a))
          (blended-Aims spec start to before alpha st h))

  both_if :
      (P : ParamState → Type 0) (b : Bool) (x y : ParamState) → P x → P y → P (if b then x else y)
  both_if P true x y p q = p
  both_if P false x y p q = q

  moved-IsFading :
      (spec : ParamSpec) (start to : Comps) (alpha : F32) (c : Comps) (st : ParamState)
      → IsFading spec start to alpha st
      → IsFading spec start to alpha (record st { current = c })
  moved-IsFading spec start to alpha c st h = record {
    spec_same = h.spec_same;
    from_start = h.from_start;
    to_target = h.to_target;
    active = h.active;
    at_alpha = h.at_alpha;
    free = h.free;
  }

  pub tick-IsFading :
      (spec : ParamSpec) (start to : Comps) (alpha : F32) (dt : F64) (st : ParamState)
      → IsFading spec start to alpha st
      → IsFading spec start to alpha (tick_state dt st)
  tick-IsFading spec start to alpha dt st h =
      both_if (IsFading spec start to alpha) (snaps_immediately st) _ _
        (moved-IsFading spec start to alpha st.target st h)
        (moved-IsFading spec start to alpha _ st h)
  -- Frames of a fade: each blends towards the same values and ticks.
