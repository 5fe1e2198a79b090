-- ===== src/Midi/Pickup/Takeover.antt =====
-- crates/control-midi/src/pickup.rs: the size of the cache, and when a fader has the hand.
use videocuelist.Prelude.{
  ap, ◌∙◌, lt_or_le, ℕ, ◌≤◌, ◌<◌, ◌≡◌, refl, Bool, true, false, List, [], ◌∷◌, Option, none, some,
  leb, length, unwrap_or, if◌then◌else◌, arith, Bool-cases, Option-cases, inl, inr,
}
use videocuelist.Text.{Text, text_eq}
use videocuelist.Table.{lookup, insert, lookup-insert, length-erase, length-erase-some}
use videocuelist.Text.Words.{text_eq-IsEq}
use videocuelist.Float.{Floats}
use videocuelist.Midi.Cc14.{Key, key_eq}
use videocuelist.Midi.Cc14.Range.{key_eq-IsEq}
use videocuelist.Midi.Pickup.{
  PickupDecision, pass, blocked, FaderState, Pickup, max_logical_entries, evict_one, insert_logical,
  update_logical, fader_of, engages, filter,
}

module _ ⦃F : Floats⦄ where
  open F use {F32, lt32, le32, sub32, abs32}

  found : (k : Text) (v : F32) (m : List (Text × F32)) → lookup text_eq k ((k, v) ∷ m) ≡ some v
  found k v m = rw (lookup, (text_eq-IsEq).refl_test k) refl

  evict_one-length : (m : List (Text × F32)) → 0 < length m → length (evict_one m) < length m
  unfolding evict_one
  evict_one-length [] l = absurd (omega arith)
  evict_one-length ((k, v) ∷ m) l = length-erase-some text_eq k ((k, v) ∷ m) {v = v} (found k v m)

  -- The cache never holds more than 4096 values.
  insert_logical-length :
      (addr : Text) (value : F32) (m : List (Text × F32))
      → length m ≤ max_logical_entries
      → length (insert_logical addr value m) ≤ max_logical_entries
  unfolding insert_logical
  insert_logical-length addr value m l = elim (Option-cases (lookup text_eq addr m)) [
    | inr (v, e) ↦ rw e (omega (arith, length-erase-some text_eq addr m e))
    | inl e ↦ elim (lt_or_le (length m) max_logical_entries) [
      | inl few ↦ rw (e, not_full (length m) few) (omega (arith, few, length-erase text_eq addr m))
      | inr many ↦
          rw (e, is_full (length m) many)
            (omega (
              arith,
              length-erase text_eq addr (evict_one m),
              evict_one-length m (omega (arith, many)),
            ))
    ]
  ]
    where
      not_full : (n : ℕ) → n < max_logical_entries → leb max_logical_entries n ≡ false
      not_full n l = ground arith

      is_full : (n : ℕ) → max_logical_entries ≤ n → leb max_logical_entries n ≡ true
      is_full n l = ground arith

  -- No update and no fader makes the cache larger than 4096 values.
  pub filter-bounded :
      (k : Key) (addr : Text) (incoming tolerance : F32) (p : Pickup)
      → length p.logical ≤ max_logical_entries
      → (length (update_logical addr incoming p).logical ≤ max_logical_entries)
        × (length (filter k addr incoming tolerance p).1.logical ≤ max_logical_entries)
  unfolding filter
  filter-bounded k addr incoming tolerance p l =
      let b = insert_logical-length addr incoming p.logical l in
      (
        b,
        either (engages incoming tolerance (fader_of k addr p) (lookup text_eq addr p.logical)) _ _
            l b,
      )
    where
      either :
          (e : Bool) (x y : PickupDecision × Pickup)
          → length y.1.logical ≤ max_logical_entries
          → length x.1.logical ≤ max_logical_entries
          → length (if e then x else y).1.logical ≤ max_logical_entries
      either true x y l r = r
      either false x y l r = l

  -- The two decisions, by the test of the code.
  filter-pass :
      (k : Key) (addr : Text) (incoming tolerance : F32) (p : Pickup)
      → engages incoming tolerance (fader_of k addr p) (lookup text_eq addr p.logical) ≡ true
      → filter k addr incoming tolerance p ≡ (
        pass incoming,
        record {
          logical = insert_logical addr incoming p.logical;
          faders =
              insert key_eq k
                (record { addr = addr; engaged = true; last = some incoming })
                p.faders;
        },
      )
  unfolding filter
  filter-pass k addr incoming tolerance p e = rw e refl

  filter-block :
      (k : Key) (addr : Text) (incoming tolerance : F32) (p : Pickup)
      → engages incoming tolerance (fader_of k addr p) (lookup text_eq addr p.logical) ≡ false
      → filter k addr incoming tolerance p ≡ (
        blocked (unwrap_or (lookup text_eq addr p.logical) incoming) incoming,
        record {
          logical = p.logical;
          faders =
              insert key_eq k
                (record { addr = addr; engaged = false; last = some incoming })
                p.faders;
        },
      )
  unfolding filter
  filter-block k addr incoming tolerance p e = rw e refl

  -- A parameter without a known value is taken at once.
  engages-known :
      (incoming tolerance : F32) (fs : FaderState) (known : Option F32)
      → engages incoming tolerance fs known ≡ false
      → (c : F32) × (known ≡ some c)
  unfolding engages
  engages-known incoming tolerance fs none e = ground arith
  engages-known incoming tolerance fs (some c) e = (c, refl)

  -- What a fader that is not let through leaves: the values as they were, and the value of its
  -- parameter, which is known.
  pub filter-blocked :
      (k : Key) (addr : Text) (incoming tolerance current given : F32) (p : Pickup)
      → (filter k addr incoming tolerance p).0 ≡ blocked current given
      → (lookup text_eq addr p.logical ≡ some current)
        × ((filter k addr incoming tolerance p).1.logical ≡ p.logical)
        × (given ≡ incoming)
  filter-blocked k addr incoming tolerance current given p e =
      let known = lookup text_eq addr p.logical in
      elim (Bool-cases (engages incoming tolerance (fader_of k addr p) known)) [
        | inl t ↦
            let q = filter-pass k addr incoming tolerance p t in
            absurd (ground (arith, ap (λ r. r.0) q, e))
        | inr f ↦
            let q = filter-block k addr incoming tolerance p f in
            let n = engages-known incoming tolerance (fader_of k addr p) known f in
            ground (arith, ap (λ r. r.0) q, n, ap (λ r. r.1.logical) q, e)
      ]

  -- A fader that has the hand keeps it on the value that it has set.
  engages-held :
      (addr : Text) (first next tolerance : F32)
      → lt32 tolerance (abs32 (sub32 first first)) ≡ false
      → engages next tolerance
          (record { addr = addr; engaged = true; last = some first })
          (some first)
        ≡ true
  unfolding engages
  engages-held addr first next tolerance law = rw law refl

  fader_of-insert :
      (k : Key) (addr : Text) (v : F32) (l : List (Text × F32)) (m : List (Key × FaderState))
      → fader_of k addr (record {
        logical = l;
        faders = insert key_eq k (record { addr = addr; engaged = true; last = some v }) m;
      })
        ≡ record { addr = addr; engaged = true; last = some v }
  unfolding fader_of
  fader_of-insert k addr v l m =
      rw
        (
          lookup-insert key_eq key_eq-IsEq k (record { addr = addr; engaged = true; last = some v })
              m,
          (text_eq-IsEq).refl_test addr,
        )
        refl

  lookup-insert_logical :
      (addr : Text) (v : F32) (m : List (Text × F32))
      → lookup text_eq addr (insert_logical addr v m) ≡ some v
  unfolding insert_logical
  lookup-insert_logical addr v m = lookup-insert text_eq text_eq-IsEq addr v _

  -- A fader that was let through has the hand: while its parameter is not set elsewhere, the next
  -- value is let through, wherever it is, if a value is no farther from itself than the tolerance.
  pub filter-holds :
      (k : Key) (addr : Text) (first next tolerance : F32) (p : Pickup)
      → lt32 tolerance (abs32 (sub32 first first)) ≡ false
      → (filter k addr first tolerance p).0 ≡ pass first
      → (filter k addr next tolerance (filter k addr first tolerance p).1).0 ≡ pass next
  filter-holds k addr first next tolerance p law e =
      elim (Bool-cases
        (engages first tolerance (fader_of k addr p) (lookup text_eq addr p.logical))) [
          | inl t ↦
              let l = insert_logical addr first p.logical in
              let q : Pickup = record {
                logical = l;
                faders =
                    insert key_eq k (record { addr = addr; engaged = true; last = some first })
                      p.faders;
              } in
              ap (λ r. (filter k addr next tolerance r.1).0)
                (filter-pass k addr first tolerance p t)
              ∙ ap (λ r. r.0)
                  (filter-pass k addr next tolerance q (
                    rw
                      (
                        fader_of-insert k addr first l p.faders,
                        lookup-insert_logical addr first p.logical,
                      )
                      (engages-held addr first next tolerance law)))
          | inr f ↦
              let q = filter-block k addr first tolerance p f in
              absurd (ground (arith, ap (λ r. r.0) q, e))
        ]
