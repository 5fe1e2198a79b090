-- ===== src/Cue/Landing/Chase/Triggers.antt =====
-- crates/cue/src/lib.rs: the triggers that an advance fires and the one that a seek goes to.
use videocuelist.Prelude.{
  sym, inl, ◌∙◌, inr, lt_or_le, or_else, suc, ℕ, ◌<◌, ◌≤◌, ◌≡◌, refl, Option, none, some, List, [],
  ◌∷◌, ◌++◌, arith, last?, ap,
}
use videocuelist.Core.Timecode.{TcRate}
use videocuelist.Float.{Floats}
use videocuelist.Cue.Types.{CueEngine}
use videocuelist.Cue.Chase.{
  Trigger, insert_trigger, sort_triggers, fired_between, take_until, seek_target, triggers_from,
  cue_of, chase_triggers,
}

-- No trigger of the list lies before the position.
abbrev pub AllFrom : ℕ → List Trigger → Type 0
AllFrom g [] = Unit
AllFrom g ((f, i) ∷ ts) = (g ≤ f) × AllFrom g ts

-- The triggers stand in the order of their positions.
abbrev pub InOrder : List Trigger → Type 0
InOrder [] = Unit
InOrder ((f, i) ∷ ts) = AllFrom f ts × InOrder ts

AllFrom-mono : (g h : ℕ) (ts : List Trigger) → g ≤ h → AllFrom h ts → AllFrom g ts
AllFrom-mono g h [] l a = tt
AllFrom-mono g h ((f, i) ∷ ts) l a = (omega arith, AllFrom-mono g h ts l a.1)

AllFrom-insert_trigger :
    (g f i : ℕ) (ts : List Trigger) → g ≤ f → AllFrom g ts → AllFrom g (insert_trigger (f, i) ts)
unfolding insert_trigger
AllFrom-insert_trigger g f i [] l a = (l, tt)
AllFrom-insert_trigger g f i ((f', j) ∷ ts) l a =
    ground (arith, AllFrom-insert_trigger g f i ts l a.1)

insert_trigger-InOrder :
    (f i : ℕ) (ts : List Trigger) → InOrder ts → InOrder (insert_trigger (f, i) ts)
unfolding insert_trigger
insert_trigger-InOrder f i [] o = (tt, tt)
insert_trigger-InOrder f i ((g, j) ∷ ts) o =
    ground (
      arith,
      insert_trigger-InOrder f i ts o.1,
      AllFrom-mono f g ts,
      AllFrom-insert_trigger g f i ts,
    )

pub sort_triggers-InOrder : (ts : List Trigger) → InOrder (sort_triggers ts)
unfolding sort_triggers
sort_triggers-InOrder [] = tt
sort_triggers-InOrder ((f, i) ∷ ts) =
    insert_trigger-InOrder f i (sort_triggers ts) (sort_triggers-InOrder ts)

fired_between-AllFrom :
    (a b : ℕ) (ts : List Trigger) → AllFrom (suc b) ts → fired_between a b ts ≡ []
unfolding fired_between
fired_between-AllFrom a b [] l = refl
fired_between-AllFrom a b ((f, i) ∷ ts) l = ground (arith, fired_between-AllFrom a b ts l.1)

fired_between-nil : (a b : ℕ) → fired_between a b [] ≡ []
unfolding fired_between
fired_between-nil a b = refl

fired_hit :
    (a b f i : ℕ) (ts : List Trigger)
    → a < f
    → f ≤ b
    → fired_between a b ((f, i) ∷ ts) ≡ i ∷ fired_between a b ts
unfolding fired_between
fired_hit a b f i ts l m = ground arith

fired_before :
    (a b f i : ℕ) (ts : List Trigger)
    → f ≤ a
    → fired_between a b ((f, i) ∷ ts) ≡ fired_between a b ts
unfolding fired_between
fired_before a b f i ts l = ground arith

-- A trigger after the interval fires nothing, and nothing behind it does.
fired_after :
    (a b f i : ℕ) (ts : List Trigger) → AllFrom f ts → b < f → fired_between a b ((f, i) ∷ ts) ≡ []
fired_after a b f i ts all l =
    fired_between-AllFrom a b ((f, i) ∷ ts) (l, AllFrom-mono (suc b) f ts l all)

fired_between-split :
    (a b c : ℕ) (ts : List Trigger)
    → InOrder ts
    → a ≤ b
    → b ≤ c
    → fired_between a c ts ≡ fired_between a b ts ++ fired_between b c ts
fired_between-split a b c [] o l m = unfold fired_between in refl
fired_between-split a b c ((f, i) ∷ ts) o l m = elim (lt_or_le a f) [
  | inr before ↦
      rw
        (
          fired_before a c f i ts before,
          fired_before a b f i ts before,
          fired_before b c f i ts (omega arith),
        )
        (fired_between-split a b c ts o.1 l m)
  | inl after ↦ elim (lt_or_le b f) [
    | inr first ↦
        rw
          (
            fired_hit a c f i ts after (omega arith),
            fired_hit a b f i ts after first,
            fired_before b c f i ts first,
          )
          (ap (◌∷◌ i) (fired_between-split a b c ts o.1 l m))
    | inl second ↦ elim (lt_or_le c f) [
      | inl none_left ↦
          rw
            (
              fired_after a c f i ts o.0 none_left,
              fired_after a b f i ts o.0 second,
              fired_after b c f i ts o.0 none_left,
            )
            refl
      | inr hit ↦
          rw
            (
              fired_hit a c f i ts after hit,
              fired_after a b f i ts o.0 second,
              fired_hit b c f i ts second hit,
            )
            (ap (◌∷◌ i) (
              fired_between-split a b c ts o.1 l m
              ∙ ap (λ z. z ++ fired_between b c ts)
                  (fired_between-AllFrom a b ts (AllFrom-mono (suc b) f ts second o.0))))
    ]
  ]
]

take_until-AllFrom : (c : ℕ) (ts : List Trigger) → AllFrom (suc c) ts → take_until c ts ≡ []
unfolding take_until
take_until-AllFrom c [] a = refl
take_until-AllFrom c ((f, i) ∷ ts) a = ground arith

take_hit :
    (c f i : ℕ) (ts : List Trigger) → f ≤ c → take_until c ((f, i) ∷ ts) ≡ (f, i) ∷ take_until c ts
unfolding take_until
take_hit c f i ts l = ground arith

cue_of-last_cons :
    (f i : ℕ) (ts : List Trigger)
    → cue_of (last? ((f, i) ∷ ts)) ≡ or_else (cue_of (last? ts)) (some i)
cue_of-last_cons f i [] = refl
cue_of-last_cons f i ((g, j) ∷ []) = refl
cue_of-last_cons f i ((g, j) ∷ t ∷ ts) = cue_of-last_cons f i (t ∷ ts)

last-cons : (i : ℕ) (is : List ℕ) → last? (i ∷ is) ≡ or_else (last? is) (some i)
last-cons i [] = refl
last-cons i (j ∷ []) = refl
last-cons i (j ∷ k ∷ is) = last-cons i (k ∷ is)

-- With every trigger after `a`, an advance from `a` ends at the target of a seek.
last-take_until :
    (a c : ℕ) (ts : List Trigger)
    → InOrder ts
    → AllFrom (suc a) ts
    → last? (fired_between a c ts) ≡ cue_of (last? (take_until c ts))
last-take_until a c [] o l = unfold fired_between take_until in refl
last-take_until a c ((f, i) ∷ ts) o l = elim (lt_or_le c f) [
  | inl after ↦
      rw
        (
          fired_after a c f i ts o.0 after,
          take_until-AllFrom c ((f, i) ∷ ts) (after, AllFrom-mono (suc c) f ts after o.0),
        )
        refl
  | inr hit ↦
      rw (fired_hit a c f i ts l.0 hit, take_hit c f i ts hit)
        (last-cons i (fired_between a c ts)
          ∙ ap (λ z. or_else z (some i)) (last-take_until a c ts o.1 l.1)
          ∙ sym (cue_of-last_cons f i (take_until c ts)))
]

-- Where an advance fires something, its last cue is the target of a seek to its end.
last-seek_target :
    (a c x : ℕ) (ts : List Trigger)
    → InOrder ts
    → last? (fired_between a c ts) ≡ some x
    → seek_target c ts ≡ some x
unfolding seek_target
last-seek_target a c x [] o q = cc (ap last? (fired_between-nil a c))
last-seek_target a c x ((f, i) ∷ ts) o q = elim (lt_or_le a f) [
  | inl after ↦
      sym (last-take_until a c ((f, i) ∷ ts) o (after, AllFrom-mono (suc a) f ts after o.0)) ∙ q
  | inr before ↦ elim (lt_or_le c f) [
    | inl late ↦ let e = fired_after a c f i ts o.0 late in cc (ap last? e)
    | inr hit ↦ rw (take_hit c f i ts hit) (
        cue_of-last_cons f i (take_until c ts)
        ∙ ap (λ z. or_else z (some i))
            (last-seek_target a c x ts o.1 (sym (ap last? (fired_before a c f i ts before)) ∙ q)))
  ]
]

-- The cue of the last trigger that is not after the position; none if all triggers are after it.
abbrev pub LastUpTo : ℕ → List Trigger → Option ℕ → Type 0
LastUpTo frames ts none = AllFrom (suc frames) ts
LastUpTo frames ts (some i) =
    (f : ℕ) × (before : List Trigger) × (after : List Trigger) × (ts ≡ before ++ ((f, i) ∷ after))
    × (f ≤ frames)
    × AllFrom (suc frames) after

LastUpTo-cons :
    (frames f i : ℕ) (ts : List Trigger) (o : Option ℕ)
    → f ≤ frames
    → LastUpTo frames ts o
    → LastUpTo frames ((f, i) ∷ ts) (or_else o (some i))
LastUpTo-cons frames f i ts none h l = (f, [], ts, refl, h, l)
LastUpTo-cons frames f i ts (some j) h (g, before, after, e, k, l) =
    (g, (f, i) ∷ before, after, ap (λ z. (f, i) ∷ z) e, k, l)

pub seek_target-LastUpTo :
    (frames : ℕ) (ts : List Trigger) → InOrder ts → LastUpTo frames ts (seek_target frames ts)
unfolding seek_target
seek_target-LastUpTo frames [] o = unfold take_until in tt
seek_target-LastUpTo frames ((f, i) ∷ ts) o = elim (lt_or_le frames f) [
  | inl after ↦
      let all : AllFrom (suc frames) ((f, i) ∷ ts) =
        (after, AllFrom-mono (suc frames) f ts after o.0) in
      rw (take_until-AllFrom frames ((f, i) ∷ ts) all) all
  | inr hit ↦
      rw (take_hit frames f i ts hit, cue_of-last_cons f i (take_until frames ts))
        (LastUpTo-cons frames f i ts _ hit (seek_target-LastUpTo frames ts o.1))
]

module _ ⦃F : Floats⦄ where
  pub chase_triggers-InOrder : (e : CueEngine) (rate : TcRate) → InOrder (chase_triggers e rate)
  unfolding chase_triggers
  chase_triggers-InOrder e rate = sort_triggers-InOrder (triggers_from rate 0 e.cues)

  -- Cutting an advance of the timecode at any point between fires the same cues in the same order:
  -- no trigger is missed, and none fires twice.
  pub fired_between-cut :
      (a b c : ℕ) (e : CueEngine) (rate : TcRate)
      → a ≤ b
      → b ≤ c
      → let ts = chase_triggers e rate in
        fired_between a c ts ≡ fired_between a b ts ++ fired_between b c ts
  unfolding chase_triggers
  fired_between-cut a b c e rate l m =
      fired_between-split a b c (chase_triggers e rate)
        (sort_triggers-InOrder (triggers_from rate 0 e.cues)) l m

  -- If an advance to a position plays some cue in the end, a seek to that position plays the same.
  pub seek_target-advance :
      (a c x : ℕ) (e : CueEngine) (rate : TcRate)
      → let ts = chase_triggers e rate in
        last? (fired_between a c ts) ≡ some x → seek_target c ts ≡ some x
  unfolding chase_triggers
  seek_target-advance a c x e rate =
      last-seek_target a c x (chase_triggers e rate)
        (sort_triggers-InOrder (triggers_from rate 0 e.cues))
