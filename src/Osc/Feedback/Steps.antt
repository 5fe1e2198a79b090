-- ===== src/Osc/Feedback/Steps.antt =====
-- crates/control-osc/src/feedback.rs: the states that the loop of the feedback reaches, with the
-- messages sent so far, and what it takes for a property of both to hold in all of them.
use videocuelist.Prelude.{
  ℕ, ◌≡◌, refl, subst, sym, ap, false, List, [], ◌∷◌, ◌++◌, push_back, Bool-cases, inl, inr, ◌⊎◌,
}
use videocuelist.Text.{Text, text_eq}
use videocuelist.Table.{lookup}
use videocuelist.Float.{Floats}
use videocuelist.Core.Event.{
  StateEvent, cue_changed, standby_changed, transition_progress, edit_applied, health_tick,
  log_line, mode_changed, show_loaded, bpm_changed, master_changed, dbo_changed, warning,
  recovery_available, diagnostic_ready,
}
use videocuelist.Osc.Argument.{Rosc}
use videocuelist.Osc.Feedback.{
  transition_progress, standby_changed, cue_changed, FeedbackState, FeedbackEvent, OscMessage,
  new_feedback, translate, push_if_changed, push_progress, remember, stamp, last_at, throttled,
  unchanged, active_addr, standby_addr, progress_addr, remaining_addr, translate_state, state_event,
  status_event,
}

module _ ⦃F : Floats⦄ ⦃R : Rosc⦄ where
  open F use {F32}
  open R use {OscType, float_of}

  abbrev pub Log : Type 0
  Log = List (ℕ × OscMessage)

  -- The messages with the time at which they are sent.
  abbrev pub stamped : ℕ → List OscMessage → Log
  stamped now [] = []
  stamped now (m ∷ ms) = (now, m) ∷ stamped now ms

  pub data Reached : Log → FeedbackState → Type 0 where
    started : Reached [] new_feedback
    translated :
        {log : Log} {st : FeedbackState} (event : FeedbackEvent) (now : ℕ)
        → Reached log st
        → Reached (log ++ stamped now (translate event now st).0) (translate event now st).1

  abbrev pub IsCueAddr : Text → Type 0
  IsCueAddr addr = (addr ≡ active_addr) ⊎ (addr ≡ standby_addr)

  abbrev pub IsProgressAddr : Text → Type 0
  IsProgressAddr addr = (addr ≡ progress_addr) ⊎ (addr ≡ remaining_addr)

  -- The property survives each message that is sent.
  pub record Survives (P : Log → FeedbackState → Type 0) : Type 0 where
    pub says :
        (addr : Text) (args : List OscType) (now : ℕ) (log : Log) (st : FeedbackState)
        → IsCueAddr addr
        → P log st
        → P (push_back log (now, (addr, args))) (remember addr args st)
    pub progresses :
        (addr : Text) (args : List OscType) (now : ℕ) (log : Log) (st : FeedbackState)
        → IsProgressAddr addr
        → throttled now (last_at addr st) ≡ false
        → P log st
        → P (push_back log (now, (addr, args))) (remember addr args (stamp addr now st))

  module _ (P : Log → FeedbackState → Type 0) (s : Survives P) (log : Log) (now : ℕ) where
    -- The property of what has been sent, with what is about to be.
    abbrev After : List OscMessage × FeedbackState → Type 0
    After r = P (log ++ stamped now r.0) r.1

    stamped-push_back :
        (out : List OscMessage) (m : OscMessage)
        → push_back (log ++ stamped now out) (now, m) ≡ log ++ stamped now (push_back out m)
    stamped-push_back out m = go log
      where
        stamps :
            (ms : List OscMessage)
            → push_back (stamped now ms) (now, m) ≡ stamped now (push_back ms m)
        stamps [] = refl
        stamps (x ∷ ms) = ap (λ l. (now, x) ∷ l) (stamps ms)

        go :
            (l : Log)
            → push_back (l ++ stamped now out) (now, m) ≡ l ++ stamped now (push_back out m)
        go [] = stamps out
        go (x ∷ l) = ap (λ k. x ∷ k) (go l)

    push_if_changed-After :
        (addr : Text) (args : List OscType) (r : List OscMessage × FeedbackState)
        → IsCueAddr addr
        → After r
        → After (push_if_changed addr args r)
    unfolding push_if_changed
    push_if_changed-After addr args (out, st) a p =
        elim (Bool-cases (unchanged (lookup text_eq addr st.last_sent) args)) [
          | inl b ↦ rw b p
          | inr b ↦ rw b (
              subst (λ l. P l (remember addr args st)) (stamped-push_back out (addr, args))
                (s.says addr args now _ st a p))
        ]

    push_progress-After :
        (addr : Text) (v : F32) (r : List OscMessage × FeedbackState)
        → IsProgressAddr addr
        → After r
        → After (push_progress addr v now r)
    unfolding push_progress
    push_progress-After addr v (out, st) a p =
        let args = float_of v ∷ [] in
        elim (Bool-cases (throttled now (last_at addr st))) [
          | inl t ↦ rw t p
          | inr t ↦ elim (Bool-cases (unchanged (lookup text_eq addr st.last_sent) args)) [
            | inl b ↦ rw (t, b) p
            | inr b ↦
                rw (t, b)
                  (subst (λ l. P l (remember addr args (stamp addr now st)))
                    (stamped-push_back out (addr, args)) (s.progresses addr args now _ st a t p))
          ]
        ]

    append_nil : (l : Log) → l ++ [] ≡ l
    append_nil [] = refl
    append_nil (x ∷ l) = ap (λ k. x ∷ k) (append_nil l)

    translate_state-After :
        (e : StateEvent) (st : FeedbackState) → After ([], st) → After (translate_state e now st)
    translate_state-After (cue_changed n) st p =
        push_if_changed-After active_addr _ ([], st) (inl refl) p
    translate_state-After (standby_changed n) st p =
        push_if_changed-After standby_addr _ ([], st) (inr refl) p
    translate_state-After (transition_progress v) st p =
        push_progress-After progress_addr v ([], st) (inl refl) p
    translate_state-After (edit_applied op) st p = p
    translate_state-After (health_tick h) st p = p
    translate_state-After (log_line a b c) st p = p
    translate_state-After (mode_changed m) st p = p
    translate_state-After (show_loaded n) st p = p
    translate_state-After (bpm_changed b) st p = p
    translate_state-After (master_changed v) st p = p
    translate_state-After (dbo_changed b) st p = p
    translate_state-After (warning w) st p = p
    translate_state-After (recovery_available a b) st p = p
    translate_state-After (diagnostic_ready a) st p = p

    pub translate-After :
        (event : FeedbackEvent) (st : FeedbackState) → P log st → After (translate event now st)
    unfolding translate
    translate-After (state_event e) st p =
        translate_state-After e st (subst (λ l. P l st) (sym (append_nil log)) p)
    translate-After (status_event q) st p = push_progress-After remaining_addr _ _ (inr refl) (
        push_progress-After progress_addr _ _ (inl refl) (
          push_if_changed-After standby_addr _ _ (inr refl) (
            push_if_changed-After active_addr _ ([], st) (inl refl)
              (subst (λ l. P l st) (sym (append_nil log)) p))))

  -- A property that holds at the start and survives each message holds in every state reached.
  pub Reached-Survives :
      (P : Log → FeedbackState → Type 0)
      → Survives P
      → P [] new_feedback
      → {log : Log} {st : FeedbackState} → Reached log st
      → P log st
  Reached-Survives P s p started = p
  Reached-Survives P s p (translated {log = log} {st = st} event now r) =
      translate-After P s log now event st (Reached-Survives P s p r)
