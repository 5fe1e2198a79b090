-- ===== src/Midi/Msc/Meaning.antt =====
-- crates/control-midi/src/msc.rs: which frames give a command, and which command.
use videocuelist.Prelude.{
  ℕ, ◌≡◌, refl, sym, ap, ◌∙◌, subst, ◌⊎◌, inl, inr, ◌↔◌, Bool, true, ◌&&◌, List, [], ◌∷◌, Option,
  none, some, arith, pop_back, push_back-pop_back, Ensures-mono, Bool-cases, ◌==◌, Ensures,
  Ensures-if,
}
use videocuelist.Float.{Floats, nat32}
use videocuelist.Core.Model.{CueNumber}
use videocuelist.Core.Command.{Command, cue_go, cue_goto, cue_standby, cue_panic}
use videocuelist.Midi.Msc.{
  valid, go_command, load_command, parse_msc, msc_body, msc_command, is_addressed, parse_cue_field,
  first_field, field_value, read_number, cue_field_of,
}
use videocuelist.Midi.Msc.Go.{msc_frame, frame-body}

-- The frame is for one receiver, or for all, or the receiver takes all.
abbrev pub IsFor : ℕ → ℕ → Type 0
IsFor dev device_id = (dev ≡ 0x7F) ⊎ (device_id ≡ 0x7F) ⊎ (dev ≡ device_id)

module _ ⦃F : Floats⦄ where
  -- What a command of the protocol means with the first field of its data: GO and LOAD take a number,
  -- GO may have none; STOP and RESUME take whatever follows.
  pub data Means : ℕ → List ℕ → Command → Type 0 where
    go_next : Means 1 [] cue_go
    go_to : (w : List ℕ) (n : CueNumber) → read_number w ≡ some n → Means 1 w (cue_goto n)
    stop : (w : List ℕ) → Means 2 w (cue_panic (nat32 0))
    resume : (w : List ℕ) → Means 3 w cue_go
    load_to : (w : List ℕ) (n : CueNumber) → read_number w ≡ some n → Means 4 w (cue_standby n)

  -- A frame that tells a receiver to carry out a command.
  pub record Tells (device_id : ℕ) (frame : List ℕ) (c : Command) : Type 0 where
    pub dev : ℕ
    pub format : ℕ
    pub command : ℕ
    pub content : List ℕ
    pub framed : frame ≡ msc_frame dev format command content
    pub for_it : IsFor dev device_id
    pub means : Means command (first_field content) c

  no_number : (n : CueNumber) → read_number [] ≡ some n → ⊥
  unfolding videocuelist.Core.Number.from_str videocuelist.Text.Utf8.from_utf8
      videocuelist.Text.trim
  no_number n e = ground (arith, e)

  number-valid : (w : List ℕ) (n : CueNumber) → read_number w ≡ some n → field_value w ≡ valid n
  number-valid [] n e = absurd (no_number n e)
  number-valid (b ∷ bs) n e = rw e refl

  Means-msc_command :
      (command : ℕ) (w : List ℕ) (c : Command)
      → Means command w c
      → msc_command command (field_value w) ≡ some c
  Means-msc_command _ _ _ go_next = refl
  Means-msc_command _ _ _ (go_to w n e) = rw (number-valid w n e) refl
  Means-msc_command _ _ _ (stop w) = refl
  Means-msc_command _ _ _ (resume w) = refl
  Means-msc_command _ _ _ (load_to w n e) = rw (number-valid w n e) refl

  field_of-cases :
      (w : List ℕ) (o : Option CueNumber)
      → read_number w ≡ o
      → Ensures (Means 1 w) (go_command (cue_field_of o))
        × Ensures (Means 4 w) (load_command (cue_field_of o))
  field_of-cases w none e = (tt, tt)
  field_of-cases w (some n) e = (go_to w n e, load_to w n e)

  go_command-Means : (w : List ℕ) → Ensures (Means 1 w) (go_command (field_value w))
  go_command-Means [] = go_next
  go_command-Means (b ∷ bs) = (field_of-cases (b ∷ bs) _ refl).0

  load_command-Means : (w : List ℕ) → Ensures (Means 4 w) (load_command (field_value w))
  load_command-Means [] = tt
  load_command-Means (b ∷ bs) = (field_of-cases (b ∷ bs) _ refl).1

  test_eq : (a b : ℕ) → (a == b) ≡ true → b ≡ a
  test_eq a b e = ground (arith, e)

  msc_command-Means :
      (command : ℕ) (w : List ℕ) → Ensures (Means command w) (msc_command command (field_value w))
  msc_command-Means command w =
      Ensures-if (Means command w) (command == 1) _ _
        (λ b.
          subst (λ k. Ensures (Means k w) (go_command (field_value w))) (test_eq command 1 b)
            (go_command-Means w))
        (λ d1.
          Ensures-if (Means command w) (command == 2) _ _
            (λ b. subst (λ k. Means k w (cue_panic (nat32 0))) (test_eq command 2 b) (stop w))
            (λ d2.
              Ensures-if (Means command w) (command == 3) _ _
                (λ b. subst (λ k. Means k w cue_go) (test_eq command 3 b) (resume w))
                (λ d3.
                  Ensures-if (Means command w) (command == 4) _ none
                    (λ b.
                      subst (λ k. Ensures (Means k w) (load_command (field_value w)))
                        (test_eq command 4 b) (load_command-Means w))
                    (λ d4. tt))))

  is_addressed-IsFor : (dev device_id : ℕ) → is_addressed dev device_id ≡ true → IsFor dev device_id
  is_addressed-IsFor dev device_id e = elim (Bool-cases (dev == 0x7F)) [
    | inl a ↦ inl (sym (test_eq dev 0x7F a))
    | inr a ↦ elim (Bool-cases (device_id == 0x7F)) [
      | inl b ↦ inr (inl (sym (test_eq device_id 0x7F b)))
      | inr b ↦ inr (inr (ground (arith, a, b, e)))
    ]
  ]

  IsFor-is_addressed : (dev device_id : ℕ) → IsFor dev device_id → is_addressed dev device_id ≡ true
  IsFor-is_addressed dev device_id f = ground (arith, f)

  header_lem :
      (b0 b1 b3 : ℕ) (a : Bool)
      → (b0 == 0xF0 && b1 == 0x7F && b3 == 0x02 && a) ≡ true
      → (b0 ≡ 0xF0) × (b1 ≡ 0x7F) × (b3 ≡ 0x02) × (a ≡ true)
  header_lem b0 b1 b3 a e = ground (arith, e)

  msc_body-Tells :
      (b0 b1 dev b3 format command device_id : ℕ) (rest : List ℕ) (o : Option (List ℕ × ℕ))
      → (b0 == 0xF0 && b1 == 0x7F && b3 == 0x02 && is_addressed dev device_id) ≡ true
      → pop_back rest ≡ o
      → Ensures
          (Tells device_id (b0 ∷ b1 ∷ dev ∷ b3 ∷ format ∷ command ∷ rest))
          (msc_body command o)
  unfolding parse_cue_field
  msc_body-Tells b0 b1 dev b3 format command device_id rest none h q = tt
  msc_body-Tells b0 b1 dev b3 format command device_id rest (some (bytes, last)) h q =
      let Goal = Tells device_id (b0 ∷ b1 ∷ dev ∷ b3 ∷ format ∷ command ∷ rest) in
      let k = header_lem b0 b1 b3 (is_addressed dev device_id) h in
      Ensures-if Goal (last == 0xF7) (msc_command command (field_value (first_field bytes))) none
        (λ l.
          Ensures-mono (Means command (first_field bytes)) Goal _
            (λ c m. record {
              dev = dev;
              format = format;
              command = command;
              content = bytes;
              framed =
                  rw (k.0, k.1, k.2, push_back-pop_back rest q, sym (test_eq last 0xF7 l)) refl;
              for_it = is_addressed-IsFor dev device_id k.3;
              means = m;
            })
            (msc_command-Means command (first_field bytes)))
        (λ l. tt)

  parse_msc-Tells :
      (frame : List ℕ) (device_id : ℕ) → Ensures (Tells device_id frame) (parse_msc frame device_id)
  unfolding parse_msc
  parse_msc-Tells (b0 ∷ b1 ∷ dev ∷ b3 ∷ format ∷ command ∷ rest) device_id =
      Ensures-if (Tells device_id (b0 ∷ b1 ∷ dev ∷ b3 ∷ format ∷ command ∷ rest))
        (b0 == 0xF0 && b1 == 0x7F && b3 == 0x02 && is_addressed dev device_id)
        (msc_body command (pop_back rest)) none
        (λ h. msc_body-Tells b0 b1 dev b3 format command device_id rest (pop_back rest) h refl)
        (λ h. tt)
  parse_msc-Tells [] device_id = tt
  parse_msc-Tells (a ∷ []) device_id = tt
  parse_msc-Tells (a ∷ b ∷ []) device_id = tt
  parse_msc-Tells (a ∷ b ∷ c ∷ []) device_id = tt
  parse_msc-Tells (a ∷ b ∷ c ∷ d ∷ []) device_id = tt
  parse_msc-Tells (a ∷ b ∷ c ∷ d ∷ e ∷ []) device_id = tt

  -- A frame gives a command exactly if it is a frame of the protocol for this receiver, or for all, or
  -- this receiver takes all, and the command is what it means: GO goes to the cue whose number the
  -- first field of its data reads as, and to the next one only if that field is empty; LOAD puts the
  -- cue of that number on standby; STOP is a panic and RESUME a GO, whatever data they carry; a number
  -- that cannot be read, or any other frame, gives nothing.
  pub parse_msc-Means :
      (frame : List ℕ) (device_id : ℕ) (c : Command)
      → (parse_msc frame device_id ≡ some c) ↔ Tells device_id frame c
  unfolding parse_cue_field
  parse_msc-Means frame device_id c = (
    λ e. subst (Ensures (Tells device_id frame)) e (parse_msc-Tells frame device_id),
    λ t.
        ap (λ f. parse_msc f device_id) t.framed
        ∙ frame-body t.dev t.format t.command device_id t.content
            (IsFor-is_addressed t.dev device_id t.for_it)
        ∙ Means-msc_command t.command (first_field t.content) c t.means,
  )
