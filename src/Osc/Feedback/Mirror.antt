-- ===== src/Osc/Feedback/Mirror.antt =====
-- crates/control-osc/src/feedback.rs: what a remote surface knows that takes every message.
use videocuelist.Prelude.{
  ℕ, ◌≡◌, refl, sym, ap, ◌∙◌, subst, true, false, List, [], ◌∷◌, ◌++◌, Option, none, some,
  push_back, arith, Bool-cases, inl, inr,
}
use videocuelist.Text.{Text, text_eq}
use videocuelist.Text.Words.{text_eq-IsEq}
use videocuelist.Table.{lookup, insert, lookup-insert, lookup-insert_other}
use videocuelist.Float.{Floats}
use videocuelist.Core.Model.{CueNumber}
use videocuelist.Core.Number.{to_string}
use videocuelist.Core.Event.{RuntimeStatus}
use videocuelist.Osc.Argument.{Rosc, StringLaws}
use videocuelist.Osc.Feedback.{
  FeedbackState, OscMessage, status_event, translate, push_if_changed, push_progress, cue_args,
  unchanged, throttled, last_at, stamp, active_addr, standby_addr, progress_addr, remaining_addr,
}
use videocuelist.Osc.Feedback.Steps.{Log, Reached, translated, stamped, Survives, Reached-Survives}

module _ ⦃F : Floats⦄ ⦃R : Rosc⦄ where
  open F use {F32}
  open R use {OscType, string_of, float_of, osc_eq}

  -- A surface that takes every message, and keeps the last one of each address.
  abbrev pub shown_after : List (Text × List OscType) → Log → List (Text × List OscType)
  shown_after board [] = board
  shown_after board ((t, (addr, args)) ∷ log) = shown_after (insert text_eq addr args board) log

  shown_after-push_back :
      (board : List (Text × List OscType)) (log : Log) (t : ℕ) (addr : Text) (args : List OscType)
      → shown_after board (push_back log (t, (addr, args)))
        ≡ insert text_eq addr args (shown_after board log)
  shown_after-push_back board [] t addr args = refl
  shown_after-push_back board ((u, (a, b)) ∷ log) t addr args =
      shown_after-push_back (insert text_eq a b board) log t addr args

  -- What the surface shows is what the feedback remembers.
  abbrev Mirrors : Log → FeedbackState → Type 0
  Mirrors log st = shown_after [] log ≡ st.last_sent

  stamp-last_sent :
      (addr : Text) (now : ℕ) (st : FeedbackState) → (stamp addr now st).last_sent ≡ st.last_sent
  stamp-last_sent addr now st = elim (Bool-cases (text_eq addr progress_addr)) [
    | inl b ↦ rw b refl
    | inr b ↦ rw b refl
  ]

  Mirrors-Survives : Survives Mirrors
  Mirrors-Survives = record {
    says = λ addr args now log st a m.
        shown_after-push_back [] log now addr args ∙ ap (insert text_eq addr args) m;
    progresses = λ addr args now log st a t m.
        shown_after-push_back [] log now addr args
        ∙ ap (insert text_eq addr args) (m ∙ sym (stamp-last_sent addr now st));
  }

  cue_text : Option CueNumber → Text
  cue_text none = []
  cue_text (some n) = to_string n

  cue_args-lem : (o : Option CueNumber) → cue_args o ≡ string_of (cue_text o) ∷ []
  unfolding cue_text
  cue_args-lem none = refl
  cue_args-lem (some n) = refl

  -- A text that counts as sent is the text.
  unchanged-some :
      StringLaws R
      → (o : Option (List OscType)) (s : Text) → unchanged o (string_of s ∷ []) ≡ true
      → o ≡ some (string_of s ∷ [])
  unchanged-some l none s e = ground arith
  unchanged-some l (some []) s e = ground arith
  unchanged-some l (some (a ∷ [])) s e =
      ap (λ x. some (x ∷ [])) (l.eq_string a s (ground (arith, e)))
  unchanged-some l (some (a ∷ b ∷ rest)) s e = ground arith

  says-lookup :
      StringLaws R
      → (addr s : Text) (r : List OscMessage × FeedbackState)
      → lookup text_eq addr (push_if_changed addr (string_of s ∷ []) r).1.last_sent
        ≡ some (string_of s ∷ [])
  unfolding push_if_changed
  says-lookup l addr s (out, st) =
      let args = string_of s ∷ [] in
      elim (Bool-cases (unchanged (lookup text_eq addr st.last_sent) args)) [
        | inl b ↦ rw b (unchanged-some l _ s b)
        | inr b ↦ rw b (lookup-insert text_eq text_eq-IsEq addr args st.last_sent)
      ]

  says-lookup_other :
      (addr other : Text) (args : List OscType) (r : List OscMessage × FeedbackState)
      → text_eq addr other ≡ false
      → lookup text_eq addr (push_if_changed other args r).1.last_sent
        ≡ lookup text_eq addr r.1.last_sent
  unfolding push_if_changed
  says-lookup_other addr other args (out, st) n =
      elim (Bool-cases (unchanged (lookup text_eq other st.last_sent) args)) [
        | inl b ↦ rw b refl
        | inr b ↦ rw b (lookup-insert_other text_eq text_eq-IsEq addr other args st.last_sent n)
      ]

  progresses-lookup :
      (addr other : Text) (v : F32) (now : ℕ) (r : List OscMessage × FeedbackState)
      → text_eq addr other ≡ false
      → lookup text_eq addr (push_progress other v now r).1.last_sent
        ≡ lookup text_eq addr r.1.last_sent
  unfolding push_progress
  progresses-lookup addr other v now (out, st) n =
      let args = float_of v ∷ [] in
      elim (Bool-cases (throttled now (last_at other st))) [
        | inl t ↦ rw t refl
        | inr t ↦ elim (Bool-cases (unchanged (lookup text_eq other st.last_sent) args)) [
          | inl b ↦ rw (t, b) refl
          | inr b ↦
              rw (t, b)
                (lookup-insert_other text_eq text_eq-IsEq addr other args _ n
                  ∙ ap (lookup text_eq addr) (stamp-last_sent other now st))
        ]
      ]

  -- What the feedback remembers after a status.
  status-lookup :
      StringLaws R
      → (q : RuntimeStatus) (now : ℕ) (st : FeedbackState)
      → (lookup text_eq active_addr (translate (status_event q) now st).1.last_sent
          ≡ some (cue_args q.active))
        × (lookup text_eq standby_addr (translate (status_event q) now st).1.last_sent
            ≡ some (cue_args q.standby))
  unfolding translate
  status-lookup l q now st =
      let a = push_if_changed active_addr (cue_args q.active) ([], st) in
      let b = push_if_changed standby_addr (cue_args q.standby) a in
      let c = push_progress progress_addr q.progress now b in
      (
        progresses-lookup active_addr remaining_addr q.remaining_s now c refl
            ∙ progresses-lookup active_addr progress_addr q.progress now b refl
            ∙ says-lookup_other active_addr standby_addr (cue_args q.standby) a refl
            ∙ cue-lookup active_addr q.active ([], st),
        progresses-lookup standby_addr remaining_addr q.remaining_s now c refl
            ∙ progresses-lookup standby_addr progress_addr q.progress now b refl
            ∙ cue-lookup standby_addr q.standby a,
      )
    where
      cue-lookup :
          (addr : Text) (o : Option CueNumber) (r : List OscMessage × FeedbackState)
          → lookup text_eq addr (push_if_changed addr (cue_args o) r).1.last_sent
            ≡ some (cue_args o)
      cue-lookup addr o r = rw (cue_args-lem o) (says-lookup l addr (cue_text o) r)

  -- However few messages the feedback sends, a surface that takes them all shows the active cue and
  -- the standby of the last status, whatever the events before it: a text that is left out is the one
  -- that the surface shows already.
  pub Reached-Mirrors :
      StringLaws R
      → {log : Log} {st : FeedbackState} → Reached log st
      → (q : RuntimeStatus) (now : ℕ)
      → let board = shown_after [] (log ++ stamped now (translate (status_event q) now st).0) in
        (lookup text_eq active_addr board ≡ some (cue_args q.active))
        × (lookup text_eq standby_addr board ≡ some (cue_args q.standby))
  Reached-Mirrors l {log} {st} r q now =
      let m = Reached-Survives Mirrors Mirrors-Survives refl (translated (status_event q) now r) in
      subst
        (λ b.
          (lookup text_eq active_addr b ≡ some (cue_args q.active))
          × (lookup text_eq standby_addr b ≡ some (cue_args q.standby)))
        (sym m) (status-lookup l q now st)
