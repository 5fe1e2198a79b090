-- ===== src/Osc/Feedback/Throttle.antt =====
-- crates/control-osc/src/feedback.rs: the rate of the messages about progress and remaining time.
use videocuelist.Prelude.{
  subst, ℕ, ◌+◌, ◌≤◌, ◌≡◌, refl, sym, ap, false, List, [], ◌∷◌, Option, none, some, last?,
  push_back, arith, Bool-cases, inl, inr, if◌then◌else◌,
}
use videocuelist.Text.{Text, text_eq}
use videocuelist.Float.{Floats}
use videocuelist.Osc.Argument.{Rosc}
use videocuelist.Osc.Feedback.{
  FeedbackState, throttle_interval, throttled, progress_addr, remaining_addr, last_at, remember,
  stamp,
}
use videocuelist.Osc.Feedback.Steps.{Log, Reached, Survives, Reached-Survives}

-- Any two times that follow each other are 100 ms apart.
abbrev pub Spaced : List ℕ → Type 0
Spaced [] = Unit
Spaced (t ∷ []) = Unit
Spaced (t ∷ u ∷ ts) = (t + throttle_interval ≤ u) × Spaced (u ∷ ts)

-- Times that are spaced, with the last of them.
abbrev SpacedTo : List ℕ → Option ℕ → Type 0
SpacedTo ts o = Spaced ts × (last? ts ≡ o)

later : (now t : ℕ) → throttled now (some t) ≡ false → t + throttle_interval ≤ now
later now t e = ground arith

push_back-SpacedTo :
    (ts : List ℕ) (o : Option ℕ) (now : ℕ)
    → throttled now o ≡ false
    → SpacedTo ts o
    → SpacedTo (push_back ts now) (some now)
push_back-SpacedTo [] o now e s = (tt, refl)
push_back-SpacedTo (t ∷ []) none now e s = ground arith
push_back-SpacedTo (t ∷ []) (some u) now e s = ground arith
push_back-SpacedTo (t ∷ u ∷ ts) o now e s =
    let k = push_back-SpacedTo (u ∷ ts) o now e (s.0.1, s.1) in ((s.0.0, k.0), k.1)

module _ ⦃F : Floats⦄ ⦃R : Rosc⦄ where
  open R use {OscType}

  -- When messages were sent to an address.
  abbrev pub times : Text → Log → List ℕ
  times addr [] = []
  times addr ((t, (a, args)) ∷ log) =
      let rest = times addr log in if text_eq a addr then t ∷ rest else rest

  times-push_back :
      (addr a : Text) (now : ℕ) (args : List OscType) (log : Log)
      → times addr (push_back log (now, (a, args)))
        ≡ (if text_eq a addr then push_back (times addr log) now else times addr log)
  times-push_back addr a now args [] = elim (Bool-cases (text_eq a addr)) [
    | inl b ↦ rw b refl
    | inr b ↦ rw b refl
  ]
  times-push_back addr a now args ((t, (c, d)) ∷ log) =
      let k = times-push_back addr a now args log in
      elim (Bool-cases (text_eq a addr)) [
        | inl b ↦ elim (Bool-cases (text_eq c addr)) [
          | inl q ↦ rw (q, k, b) refl
          | inr q ↦ rw (q, k, b) refl
        ]
        | inr b ↦ elim (Bool-cases (text_eq c addr)) [
          | inl q ↦ rw (q, k, b) refl
          | inr q ↦ rw (q, k, b) refl
        ]
      ]

  -- Both rates are kept, and the state knows when the last message of each went out.
  abbrev Keeps : Log → FeedbackState → Type 0
  Keeps log st =
      SpacedTo (times progress_addr log) st.last_progress
      × SpacedTo (times remaining_addr log) st.last_remaining

  says-Keeps :
      (addr : Text) (args : List OscType) (now : ℕ) (log : Log) (st : FeedbackState)
      → text_eq addr progress_addr ≡ false
      → text_eq addr remaining_addr ≡ false
      → Keeps log st
      → Keeps (push_back log (now, (addr, args))) (remember addr args st)
  says-Keeps addr args now log st p q k =
      rw
        (
          times-push_back progress_addr addr now args log,
          times-push_back remaining_addr addr now args log,
          p,
          q,
        )
        k

  progresses-Keeps :
      (args : List OscType) (now : ℕ) (log : Log) (st : FeedbackState)
      → throttled now st.last_progress ≡ false
      → Keeps log st
      → Keeps
          (push_back log (now, (progress_addr, args)))
          (remember progress_addr args (stamp progress_addr now st))
  progresses-Keeps args now log st t k =
      rw
        (
          times-push_back progress_addr progress_addr now args log,
          times-push_back remaining_addr progress_addr now args log,
        )
        (push_back-SpacedTo (times progress_addr log) st.last_progress now t k.0, k.1)

  remains-Keeps :
      (args : List OscType) (now : ℕ) (log : Log) (st : FeedbackState)
      → throttled now st.last_remaining ≡ false
      → Keeps log st
      → Keeps
          (push_back log (now, (remaining_addr, args)))
          (remember remaining_addr args (stamp remaining_addr now st))
  remains-Keeps args now log st t k =
      rw
        (
          times-push_back progress_addr remaining_addr now args log,
          times-push_back remaining_addr remaining_addr now args log,
        )
        (k.0, push_back-SpacedTo (times remaining_addr log) st.last_remaining now t k.1)

  abbrev Progresses : List OscType → ℕ → Log → FeedbackState → Text → Type 0
  Progresses args now log st addr =
      throttled now (last_at addr st) ≡ false
      → Keeps log st
      → Keeps (push_back log (now, (addr, args))) (remember addr args (stamp addr now st))

  Keeps-Survives : Survives Keeps
  Keeps-Survives = record {
    says = λ addr args now log st a. elim a [
      | inl e ↦
          says-Keeps addr args now log st (ap (λ x. text_eq x progress_addr) e)
            (ap (λ x. text_eq x remaining_addr) e)
      | inr e ↦
          says-Keeps addr args now log st (ap (λ x. text_eq x progress_addr) e)
            (ap (λ x. text_eq x remaining_addr) e)
    ];
    progresses = λ addr args now log st a. elim a [
      | inl e ↦ subst (Progresses args now log st) (sym e) (progresses-Keeps args now log st)
      | inr e ↦ subst (Progresses args now log st) (sym e) (remains-Keeps args now log st)
    ];
  }

  -- Whatever the events and their times, two messages about the progress that follow each other are
  -- 100 ms apart at least, and so are two about the remaining time.
  pub Reached-Spaced_feedback :
      {log : Log} {st : FeedbackState}
      → Reached log st
      → Spaced (times progress_addr log) × Spaced (times remaining_addr log)
  Reached-Spaced_feedback r =
      let k = Reached-Survives Keeps Keeps-Survives ((tt, refl), (tt, refl)) r in (k.0.0, k.1.0)
