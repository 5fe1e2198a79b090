-- ===== src/Midi/Engine.antt =====
-- crates/control-midi/src/engine.rs: the pure MIDI engine, from bytes to events: time code, MIDI Show
-- Control, the pairing of controllers, learning, bindings and the soft takeover of faders.
pub mod Routing
pub mod Armed
use videocuelist.Prelude.{
  ℕ, ◌+◌, ◌*◌, ◌-◌, Bool, true, false, not, ◌&&◌, List, [], ◌∷◌, ◌++◌, Option, none, some, ◌==◌,
  leb, if◌then◌else◌,
}
use videocuelist.Text.{Text}
use videocuelist.Float.{Floats, nat32}
use videocuelist.Core.Model.{linear, ParamValue}
use videocuelist.Core.Template.{Source}
use videocuelist.Core.Command.{Command, param_set}
use videocuelist.Core.Patch.{CcBinding, MidiBinding, note_binding, cc_binding_of}
use videocuelist.Midi.Msg.{MidiMsg, control_change, control_change14, sys_ex, parse_midi}
use videocuelist.Midi.Msc.{parse_msc}
use videocuelist.Midi.Mtc.{MtcEvent, MtcAssembler, is_mtc, push}
use videocuelist.Midi.Cc14.{Key, Cc14Assembler, set_pairs, flush, feed}
use videocuelist.Midi.Learn.{Learn, arm, disarm, learn_feed, learn_flush, new_learn}
use videocuelist.Midi.Pickup.{
  Pickup, PickupDecision, pass, blocked, update_logical, is_engaged, filter,
}
use videocuelist.Midi.Resolve.{CcMatch, find_cc, scale, resolve, seven, fourteen_of}

module _ ⦃F : Floats⦄ where
  open F use {F32, sub32, div32, abs32}

  pub data EngineEvent : Type 0 where
    command_event : Command → EngineEvent
    learned : MidiBinding → EngineEvent
    pickup_blocked : (addr : Text) (current incoming : F32) → EngineEvent
    pickup_engaged : Text → EngineEvent
    mtc_event : MtcEvent → EngineEvent

  pub record MidiEngine : Type 0 where
    pub bindings : List MidiBinding
    pub cc14 : Cc14Assembler
    pub pickup : Pickup
    pub learn : Learn
    pub mtc : MtcAssembler
    pub msc_device_id : ℕ

  abbrev pub new_engine : ℕ → MidiEngine
  new_engine msc_device_id = record {
    bindings = [];
    cc14 = videocuelist.Midi.Cc14.new;
    pickup = videocuelist.Midi.Pickup.new;
    learn = new_learn;
    mtc = videocuelist.Midi.Mtc.new;
    msc_device_id = msc_device_id;
  }

  -- The controllers of 14 bits among the bindings.
  abbrev pub fourteen_pairs : List MidiBinding → List Key
  fourteen_pairs [] = []
  fourteen_pairs (note_binding c n command ∷ bs) = fourteen_pairs bs
  fourteen_pairs (cc_binding_of b ∷ bs) =
      let rest = fourteen_pairs bs in if b.fourteen_bits then (b.channel, b.cc) ∷ rest else rest

  unfoldable pub set_bindings : List MidiBinding → MidiEngine → MidiEngine
  unfolding set_pairs
  set_bindings bs e = record e { cc14 = set_pairs (fourteen_pairs bs) e.cc14; bindings = bs }

  abbrev pub engine_update_logical : Text → F32 → MidiEngine → MidiEngine
  engine_update_logical addr value e = record e { pickup = update_logical addr value e.pickup }

  abbrev pub learn_arm : MidiEngine → MidiEngine
  learn_arm e = record e { learn = arm e.learn }

  abbrev pub learn_disarm : MidiEngine → MidiEngine
  learn_disarm e = record e { learn = disarm e.learn }

  abbrev pub param_event : Text → F32 → EngineEvent
  param_event addr v = command_event (param_set addr (ParamValue.f v) Source.midi)

  -- What the decision of the soft takeover emits.
  abbrev pub decided : Text → Bool → PickupDecision → List EngineEvent
  decided addr was_engaged (pass v) =
      if was_engaged then param_event addr v ∷ [] else pickup_engaged addr ∷ param_event addr v ∷ []
  decided addr was_engaged (blocked current incoming) = pickup_blocked addr current incoming ∷ []

  -- A controller that has a binding.
  abbrev pub cc_matched : Key → CcMatch → F32 → MidiEngine → List EngineEvent × MidiEngine
  cc_matched k m v e =
      let tolerance = div32 (abs32 (sub32 m.max m.min)) (nat32 127) in
      let r = filter k m.addr v tolerance e.pickup in
      if not m.pickup
      then (param_event m.addr v ∷ [], engine_update_logical m.addr v e)
      else (decided m.addr (is_engaged k e.pickup) r.0, record e { pickup = r.1 })

  abbrev pub cc_found : Key → Option CcMatch → F32 → MidiEngine → List EngineEvent × MidiEngine
  cc_found k none t e = ([], e)
  cc_found k (some m) t e = cc_matched k m (scale t m.min m.max linear) e

  unfoldable pub cc_event : ℕ → ℕ → Bool → F32 → MidiEngine → List EngineEvent × MidiEngine
  unfolding find_cc scale filter
  cc_event channel cc fourteen t e =
      cc_found (channel, cc) (find_cc e.bindings channel cc fourteen) t e

  abbrev pub learned_events : Option MidiBinding → List EngineEvent
  learned_events none = []
  learned_events (some b) = learned b ∷ []

  abbrev pub resolved_events : Option (Source × Command) → List EngineEvent
  resolved_events none = []
  resolved_events (some (source, c)) = command_event c ∷ []

  abbrev pub play_msg : MidiMsg → MidiEngine → List EngineEvent × MidiEngine
  play_msg (control_change channel cc v) e = cc_event channel cc false (seven v) e
  play_msg (control_change14 channel cc v) e = cc_event channel cc true (fourteen_of v) e
  play_msg other e = (resolved_events (resolve e.bindings other), e)

  abbrev pub learning : MidiMsg → ℕ → MidiEngine → List EngineEvent × MidiEngine
  learning msg now e =
      let r = learn_feed msg now e.learn in (learned_events r.0, record e { learn = r.1 })

  unfoldable pub process : MidiMsg → ℕ → MidiEngine → List EngineEvent × MidiEngine
  unfolding cc_event resolve learn_feed
  process msg now e = if (e.learn).armed then learning msg now e else play_msg msg e

  abbrev pub process_all : List MidiMsg → ℕ → MidiEngine → List EngineEvent × MidiEngine
  process_all [] now e = ([], e)
  process_all (m ∷ ms) now e =
      let r = process m now e in let rest = process_all ms now r.1 in (r.0 ++ rest.0, rest.1)

  -- The messages that the assembler lets out, each processed.
  abbrev pub process_out :
      ℕ → MidiEngine → List MidiMsg × Cc14Assembler → List EngineEvent × MidiEngine
  process_out now e (ms, a) = process_all ms now (record e { cc14 = a })

  abbrev pub mtc_events : Option MtcEvent → List EngineEvent
  mtc_events none = []
  mtc_events (some ev) = mtc_event ev ∷ []

  abbrev pub msc_events : Option Command → List EngineEvent
  msc_events none = []
  msc_events (some c) = command_event c ∷ []

  abbrev pub handle_msg : Option MidiMsg → ℕ → MidiEngine → List EngineEvent × MidiEngine
  handle_msg none now e = ([], e)
  handle_msg (some (sys_ex frame)) now e = (msc_events (parse_msc frame e.msc_device_id), e)
  handle_msg (some msg) now e = process_out now e (feed msg now e.cc14)

  unfoldable pub handle : List ℕ → ℕ → MidiEngine → List EngineEvent × MidiEngine
  unfolding process feed parse_msc parse_midi is_mtc push
  handle bytes now e =
      let timed = push bytes e.mtc in
      if is_mtc bytes
      then (mtc_events timed.0, record e { mtc = timed.1 })
      else handle_msg (parse_midi bytes) now e

  -- After the assembler, a capture that waits for its lower half.
  abbrev pub flush_learn : ℕ → List EngineEvent × MidiEngine → List EngineEvent × MidiEngine
  flush_learn now (out, e) =
      let r = learn_flush now e.learn in (out ++ learned_events r.0, record e { learn = r.1 })

  unfoldable pub flush_engine : ℕ → MidiEngine → List EngineEvent × MidiEngine
  unfolding process flush learn_flush
  flush_engine now e = flush_learn now (process_out now e (flush now e.cc14))
