-- ===== src/Midi/Engine/Routing.antt =====
-- crates/control-midi/src/engine.rs: the declared pairs are those of the bindings, so that no
-- controller of 14 bits is lost between the assembler and the bindings.
use videocuelist.Prelude.{
  ℕ, ◌≡◌, refl, sym, ◌∙◌, ap, subst, inl, inr, List, [], ◌∷◌, Bool, true, false, Option, none, some,
  arith, Bool-cases, Option-cases, if◌then◌else◌, ==_iff,
}
use videocuelist.Text.{Text}
use videocuelist.Float.{Floats}
use videocuelist.Core.Patch.{CcBinding, MidiBinding, note_binding, cc_binding_of}
use videocuelist.Midi.Msg.{
  MidiMsg, note_on, note_off, control_change, control_change14, pitch_bend, sys_ex, parse_midi,
}
use videocuelist.Midi.Msg.Codec.{IsWire, parse_midi-IsWire}
use videocuelist.Midi.Mtc.{is_mtc}
use videocuelist.Midi.Cc14.{
  Key, Cc14Assembler, contains, valid_pairs, set_pairs, flush, feed, key_eq,
}
use videocuelist.Midi.Cc14.Range.{
  AllOutput, IsOutput, IsPair, Sound, feed-Sound, flush-Sound, set_pairs-IsWellFormed,
}
use videocuelist.Midi.Resolve.{CcMatch, find_cc, match_of, fits_cc}
use videocuelist.Midi.Engine.{
  EngineEvent, MidiEngine, new_engine, fourteen_pairs, set_bindings, engine_update_logical,
  learn_arm, learn_disarm, cc_matched, cc_found, cc_event, play_msg, learning, process, process_all,
  process_out, handle_msg, handle, flush_learn, flush_engine,
}

module _ ⦃F : Floats⦄ where
  open F use {F32}

  -- The engine's assembler is well-formed, and its pairs are those of the bindings.
  pub record IsWellFormed (e : MidiEngine) : Type 0 where
    pub assembler : videocuelist.Midi.Cc14.Range.IsWellFormed e.cc14
    pub declared : (e.cc14).pairs ≡ valid_pairs (fourteen_pairs e.bindings)

  -- What processing a message keeps.
  abbrev Keeps : MidiEngine → MidiEngine → Type 0
  Keeps e e' = (e'.bindings ≡ e.bindings) × (e'.cc14 ≡ e.cc14)

  cc_matched-Keeps :
      (k : Key) (m : CcMatch) (v : F32) (e : MidiEngine) → Keeps e (cc_matched k m v e).1
  cc_matched-Keeps k m v e = elim (Bool-cases m.pickup) [
    | inl b ↦ rw b (refl, refl)
    | inr b ↦ rw b (refl, refl)
  ]

  cc_found-Keeps :
      (k : Key) (o : Option CcMatch) (t : F32) (e : MidiEngine) → Keeps e (cc_found k o t e).1
  cc_found-Keeps k none t e = (refl, refl)
  cc_found-Keeps k (some m) t e = cc_matched-Keeps k m _ e

  play_msg-Keeps : (msg : MidiMsg) (e : MidiEngine) → Keeps e (play_msg msg e).1
  unfolding cc_event
  play_msg-Keeps (control_change c n v) e = cc_found-Keeps (c, n) (find_cc e.bindings c n false) _ e
  play_msg-Keeps (control_change14 c n v) e =
      cc_found-Keeps (c, n) (find_cc e.bindings c n true) _ e
  play_msg-Keeps (note_on c n v) e = (refl, refl)
  play_msg-Keeps (note_off c n) e = (refl, refl)
  play_msg-Keeps (pitch_bend c v) e = (refl, refl)
  play_msg-Keeps (sys_ex b) e = (refl, refl)

  if-Keeps :
      (e : MidiEngine) (b : Bool) (x y : List EngineEvent × MidiEngine)
      → Keeps e x.1
      → Keeps e y.1
      → Keeps e (if b then x else y).1
  if-Keeps e true x y p q = p
  if-Keeps e false x y p q = q

  process-Keeps : (msg : MidiMsg) (now : ℕ) (e : MidiEngine) → Keeps e (process msg now e).1
  unfolding process
  process-Keeps msg now e =
      if-Keeps e (e.learn).armed (learning msg now e) (play_msg msg e) (refl, refl)
        (play_msg-Keeps msg e)

  process_all-Keeps :
      (ms : List MidiMsg) (now : ℕ) (e : MidiEngine) → Keeps e (process_all ms now e).1
  process_all-Keeps [] now e = (refl, refl)
  process_all-Keeps (m ∷ ms) now e =
      let k = process-Keeps m now e in
      let rest = process_all-Keeps ms now (process m now e).1 in (rest.0 ∙ k.0, rest.1 ∙ k.1)

  Keeps-IsWellFormed : (e e' : MidiEngine) → Keeps e e' → IsWellFormed e → IsWellFormed e'
  Keeps-IsWellFormed e e' k w = record {
    assembler = subst videocuelist.Midi.Cc14.Range.IsWellFormed (sym k.1) w.assembler;
    declared =
        ap (λ a. a.pairs) k.1 ∙ w.declared ∙ ap (λ bs. valid_pairs (fourteen_pairs bs)) (sym k.0);
  }

  -- The messages of an assembler that is sound for the bindings, processed.
  process_out-IsWellFormed :
      (now : ℕ) (e : MidiEngine) (r : List MidiMsg × Cc14Assembler)
      → Sound (valid_pairs (fourteen_pairs e.bindings)) r
      → IsWellFormed (process_out now e r).1
  process_out-IsWellFormed now e (ms, a) s =
      Keeps-IsWellFormed (record e { cc14 = a }) _
        (process_all-Keeps ms now (record e { cc14 = a }))
        (record { assembler = s.1; declared = s.2 })

  fed-IsWellFormed :
      (msg : MidiMsg) (now : ℕ) (e : MidiEngine)
      → IsWire msg
      → IsWellFormed e
      → IsWellFormed (process_out now e (feed msg now e.cc14)).1
  fed-IsWellFormed msg now e h w = process_out-IsWellFormed now e (feed msg now e.cc14) (
      subst (λ ps. Sound ps (feed msg now e.cc14)) w.declared
        (feed-Sound msg now e.cc14 h w.assembler))

  some_msg-IsWellFormed :
      (msg : MidiMsg) (now : ℕ) (e : MidiEngine)
      → IsWire msg
      → IsWellFormed e
      → IsWellFormed (handle_msg (some msg) now e).1
  some_msg-IsWellFormed (sys_ex b) now e h w = w
  some_msg-IsWellFormed (note_on c n v) now e h w = fed-IsWellFormed (note_on c n v) now e h w
  some_msg-IsWellFormed (note_off c n) now e h w = fed-IsWellFormed (note_off c n) now e h w
  some_msg-IsWellFormed (control_change c n v) now e h w =
      fed-IsWellFormed (control_change c n v) now e h w
  some_msg-IsWellFormed (control_change14 c n v) now e h w = absurd h
  some_msg-IsWellFormed (pitch_bend c v) now e h w = fed-IsWellFormed (pitch_bend c v) now e h w

  handle-IsWellFormed :
      (bytes : List ℕ) (now : ℕ) (e : MidiEngine)
      → IsWellFormed e
      → IsWellFormed (handle bytes now e).1
  unfolding handle
  handle-IsWellFormed bytes now e w = elim (Bool-cases (is_mtc bytes)) [
    | inl b ↦ rw b (record { assembler = w.assembler; declared = w.declared })
    | inr b ↦ elim (Option-cases (parse_midi bytes)) [
      | inl n ↦ rw (b, n) w
      | inr (msg, p) ↦ rw (b, p) (some_msg-IsWellFormed msg now e (parse_midi-IsWire bytes p) w)
    ]
  ]

  flush_learn-IsWellFormed :
      (now : ℕ) (r : List EngineEvent × MidiEngine)
      → IsWellFormed r.1
      → IsWellFormed (flush_learn now r).1
  flush_learn-IsWellFormed now (out, e) w = record {
    assembler = w.assembler;
    declared = w.declared;
  }

  flush_engine-IsWellFormed :
      (now : ℕ) (e : MidiEngine) → IsWellFormed e → IsWellFormed (flush_engine now e).1
  unfolding flush_engine
  flush_engine-IsWellFormed now e w =
      flush_learn-IsWellFormed now (process_out now e (flush now e.cc14)) (
        process_out-IsWellFormed now e (flush now e.cc14) (
          subst (λ ps. Sound ps (flush now e.cc14)) w.declared
            (flush-Sound now e.cc14 w.assembler)))

  set_bindings-IsWellFormed :
      (bs : List MidiBinding) (e : MidiEngine) → IsWellFormed e → IsWellFormed (set_bindings bs e)
  unfolding set_bindings set_pairs
  set_bindings-IsWellFormed bs e w = record {
    assembler = set_pairs-IsWellFormed (fourteen_pairs bs) e.cc14 w.assembler;
    declared = refl;
  }

  -- The engines that its operations reach.
  pub data Reached : MidiEngine → Type 0 where
    started : (msc_device_id : ℕ) → Reached (new_engine msc_device_id)
    bound : {e : MidiEngine} (bs : List MidiBinding) → Reached e → Reached (set_bindings bs e)
    updated :
        {e : MidiEngine} (addr : Text) (v : F32)
        → Reached e
        → Reached (engine_update_logical addr v e)
    armed : {e : MidiEngine} → Reached e → Reached (learn_arm e)
    disarmed : {e : MidiEngine} → Reached e → Reached (learn_disarm e)
    handled :
        {e : MidiEngine} (bytes : List ℕ) (now : ℕ) → Reached e → Reached (handle bytes now e).1
    flushed : {e : MidiEngine} (now : ℕ) → Reached e → Reached (flush_engine now e).1

  -- In every engine that the operations reach, whatever the bytes, the assembler is well-formed and
  -- its pairs are those of the bindings.
  pub Reached-IsWellFormed_engine : {e : MidiEngine} → Reached e → IsWellFormed e
  Reached-IsWellFormed_engine (started d) = record {
    assembler = record { upper = tt; waiting = tt; known = tt; window = omega arith };
    declared = refl;
  }
  Reached-IsWellFormed_engine (bound bs r) =
      set_bindings-IsWellFormed bs _ (Reached-IsWellFormed_engine r)
  Reached-IsWellFormed_engine (updated addr v r) =
      let w = Reached-IsWellFormed_engine r in
      record { assembler = w.assembler; declared = w.declared }
  Reached-IsWellFormed_engine (armed r) =
      let w = Reached-IsWellFormed_engine r in
      record { assembler = w.assembler; declared = w.declared }
  Reached-IsWellFormed_engine (disarmed r) =
      let w = Reached-IsWellFormed_engine r in
      record { assembler = w.assembler; declared = w.declared }
  Reached-IsWellFormed_engine (handled bytes now r) =
      handle-IsWellFormed bytes now _ (Reached-IsWellFormed_engine r)
  Reached-IsWellFormed_engine (flushed now r) =
      flush_engine-IsWellFormed now _ (Reached-IsWellFormed_engine r)

  contains-rest :
      (b : CcBinding) (ks : List Key) (c n : ℕ)
      → fits_cc c n true b ≡ false
      → contains (valid_pairs (if b.fourteen_bits then (b.channel, b.cc) ∷ ks else ks)) (c, n)
        ≡ true
      → contains (valid_pairs ks) (c, n) ≡ true
  contains-rest b ks c n f h =
      ground (arith, f, h, ==_iff b.channel c, ==_iff b.cc n, ==_iff c b.channel, ==_iff n b.cc)

  -- A pair of the bindings has a binding of 14 bits.
  find_cc-declared :
      (bs : List MidiBinding) (c n : ℕ)
      → contains (valid_pairs (fourteen_pairs bs)) (c, n) ≡ true
      → (m : CcMatch) × (find_cc bs c n true ≡ some m)
  unfolding find_cc
  find_cc-declared [] c n h = ground arith
  find_cc-declared (note_binding d m command ∷ bs) c n h = find_cc-declared bs c n h
  find_cc-declared (cc_binding_of b ∷ bs) c n h = elim (Bool-cases (fits_cc c n true b)) [
    | inl t ↦ (match_of b, rw t refl)
    | inr f ↦
        let k = find_cc-declared bs c n (contains-rest b (fourteen_pairs bs) c n f h) in
        (k.0, rw f k.1)
  ]

  -- The controllers of 14 bits among the messages have a binding.
  abbrev pub AllBound : List MidiBinding → List MidiMsg → Type 0
  AllBound bs [] = Unit
  AllBound bs (control_change14 c n v ∷ ms) =
      ((m : CcMatch) × (find_cc bs c n true ≡ some m)) × AllBound bs ms
  AllBound bs (note_on c n v ∷ ms) = AllBound bs ms
  AllBound bs (note_off c n ∷ ms) = AllBound bs ms
  AllBound bs (control_change c n v ∷ ms) = AllBound bs ms
  AllBound bs (pitch_bend c v ∷ ms) = AllBound bs ms
  AllBound bs (sys_ex b ∷ ms) = AllBound bs ms

  AllOutput-AllBound :
      (bs : List MidiBinding) (ms : List MidiMsg)
      → AllOutput (valid_pairs (fourteen_pairs bs)) ms
      → AllBound bs ms
  AllOutput-AllBound bs [] a = tt
  AllOutput-AllBound bs (control_change14 c n v ∷ ms) a =
      (find_cc-declared bs c n a.0.0.2, AllOutput-AllBound bs ms a.1)
  AllOutput-AllBound bs (note_on c n v ∷ ms) a = AllOutput-AllBound bs ms a.1
  AllOutput-AllBound bs (note_off c n ∷ ms) a = AllOutput-AllBound bs ms a.1
  AllOutput-AllBound bs (control_change c n v ∷ ms) a = AllOutput-AllBound bs ms a.1
  AllOutput-AllBound bs (pitch_bend c v ∷ ms) a = AllOutput-AllBound bs ms a.1
  AllOutput-AllBound bs (sys_ex b ∷ ms) a = AllOutput-AllBound bs ms a.1

  -- No controller of 14 bits is lost between the assembler and the bindings: in every engine that
  -- the operations reach, each one that a message of the wire lets out has a binding.
  pub Reached-AllBound :
      {e : MidiEngine}
      → Reached e
      → (msg : MidiMsg) (now : ℕ) → IsWire msg
      → AllBound e.bindings (feed msg now e.cc14).0
  Reached-AllBound {e = e} r msg now h =
      let w = Reached-IsWellFormed_engine r in
      AllOutput-AllBound e.bindings (feed msg now e.cc14).0 (
        subst (λ ps. AllOutput ps (feed msg now e.cc14).0) w.declared
          (feed-Sound msg now e.cc14 h w.assembler).0)
