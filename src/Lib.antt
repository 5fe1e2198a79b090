-- ===== src/Lib.antt =====
-- A verification library for Conduite (videocuelist), a cue player for live video. An operator
-- steps through a list of numbered cues; each cue sets a scene, and a transition leads from the
-- scene at the programme to the next. A show is driven by hand (GO, BACK, GOTO, STANDBY, PANIC), by
-- the follow of a cue, and by an external timecode; MIDI controllers and the web surface send the
-- commands. This library models the parts that decide what plays, and states what they do.
--
-- The parts, and how they interact:
--   Core, of crates/core/src: the data of a show (Core.Model and Core.Show, model.rs and
--     modulation.rs: `Cue`, `Curve::apply`, `Show` ...), the text of a cue number (Core.Number:
--     `CueNumber::new`, `Display`, `FromStr`), SMPTE positions (Core.Timecode, timecode.rs:
--     `TcTime::to_frames`, `from_frames`, its order, and in Parse its text), the commands and their
--     templates (Core.Command and Core.Template, command.rs: `Command`,
--     `CommandTemplate::to_command`), the edits (Core.Edit: `EditOp::apply`), the patch
--     (Core.Patch, patch.rs) and the events that tell the state (Core.Event, event.rs).
--   Cue, of crates/cue/src/lib.rs: the cue engine. Cue.Types has its state, one record
--     `CueEngine` with the fields of the source, and its inputs and outputs. Cue.Search has the
--     sort, the binary search and the walks to an armed cue; Cue.Fade the curves, `eval_transition`
--     and `panic_black`; Cue.Transitions `start_go`, `activate`, `standby_after` and
--     `snap_transition`; Cue.Commands the latched commands and `apply_pending`; Cue.Follow
--     `check_follow`; Cue.Chase `check_chase`, `chase_triggers`, `chase_advance` and `chase_seek`;
--     Cue.Load `new`, `load` and `load_hot`; Cue.Tick `tick`; Cue.Status `status` and
--     `media_progress`. Cue.Safety is about the indices of the engine, Cue.Landing about the state
--     in which each operation leaves it.
--   Midi, of crates/control-midi/src: Midi.Msg (msg.rs: `parse_midi`), Midi.Cc14 (cc14.rs: the
--     assembler of 14-bit controllers), Midi.Mtc (mtc.rs: the assembler of MIDI time code, whose
--     positions are those of Core.Timecode and feed the chase of Cue.Chase, and in Clock the clock
--     that runs between them), Midi.Msc (msc.rs: `parse_msc`), Midi.Learn (learn.rs: the
--     capture of a binding), Midi.Resolve (resolve.rs: from a message to the command of its
--     binding), Midi.Pickup (pickup.rs: the soft takeover of faders), and Midi.Engine (engine.rs:
--     `MidiEngine::handle`, which sends the bytes through all of these).
--   Params, of crates/params/src: Params (spec.rs, and the arithmetic of registry.rs on the
--     components of a value) and Params.Registry (registry.rs: `Registry::set`, `blend_toward`,
--     `apply_modulation`, `tick`, `snapshot_scripted` ...), which a cue, a live fader and the
--     modulation drive together.
--   Artnet, of crates/control-artnet/src: Artnet.Packet (packet.rs: `parse_artdmx`,
--     `parse_artpoll` and their builders) and Artnet.Mapper (mapper.rs: `DmxMapper::apply`, from a
--     frame to commands, and `SequenceTracker::observe`).
--   Media, of crates/engine/src: Media.Pacing (pacing.rs: `Pacer::choose`, the frame to show by the
--     clock of the media), Media.Ring (ring.rs: the bounded queue between the reading thread and
--     the display, what its lock protects one step, a waiting `push` asleep on the condition
--     variable until a notification or a wake-up of its own) and Media.Pool (pool.rs: the reserve
--     of frame buffers).
--   Osc, of crates/control-osc/src: Osc.Map (map.rs: `map_message`, from a message to a command),
--     Osc.Feedback (feedback.rs: `FeedbackState::translate`, from an event to the messages that tell
--     a remote surface), and Osc.Ratelimit (ratelimit.rs: `WarnLimiter`, each access to an atomic a
--     step of its own, so that the calls of several threads interleave).
--   Session, of crates/app/src/session.rs: the branches of `Session::handle_command` that send a
--     command to the cue engine, with the guard against a double GO, over the fields that they use.
--   Undo, of crates/app/src/undo.rs: the history of edits, `UndoStack`.
--   Prelude, Text and Table are shared: lists, options and numbers; text, the parsers' string
--     operations and the decoding of UTF-8; hash maps. Float is the interface of floating-point
--     numbers. Tests runs the models, and each theorem that has hypotheses, at concrete inputs.
--
-- How code becomes a definition:
--   A method that changes `self` takes the state last and returns the new one. A panic (an index
--   out of range) is `none` of Option, and a do block stops at it: `Returns P m` says that `m` does
--   not panic and that its result satisfies P, `Ensures P m` that its result, if there is one, does.
--   Integers are natural numbers; a cast to a narrower type is written as a remainder, saturating
--   subtraction is the subtraction of natural numbers, checked and saturating operations are tests.
--   A closure over a BTreeMap or a HashMap that is only looked up is a function; a table that is
--   walked is an association list, and no theorem depends on its order. The text of a warning is a
--   constructor of `Message` with the numbers it names. Logging is left out.
--   Loops are structural recursion. The one loop on fuel is `halve` in Cue.Search, of the binary
--   search of the standard library that `index_of` and the edits call: its fuel is the length of the
--   list, enough since each round makes the interval shorter (Cue.Search.Binary). The digits of a
--   number take ten rounds, enough for 32 bits.
--   Floats: IEEE arithmetic is not defined. The models take a record `Floats` of the types f32 and
--   f64 with the operations that the code calls, and the theorems hold for every such record, hence
--   for the machine's, NaN included; the few that need the order of f64 or its conversions name
--   what they need as hypotheses. Float.Milli is one record, for the tests.
--   Code that is not in the repository is a parameter: the size of a show's JSON (serde_json) in
--   Undo, and the type of OSC arguments (rosc), with the cases that the code takes of it, in Osc.
--
-- Not modelled: devices, windows, threads, files, sockets and processes (crates/app but for the
-- history and the GO of the session, the ffmpeg processes of crates/engine, crates/compositor,
-- crates/media-library, crates/system, the hub of crates/control-midi, the servers of
-- crates/control-osc, control-artnet and control-http), since they are input and output; shader
-- text (crates/isf) and signal processing (crates/modulation), which are over JSON and floats; the
-- rest of the session of crates/app, which ties the parts together and is a part of its own.
pub mod Prelude
pub mod Text
pub mod Float
pub mod Core
pub mod Cue
pub mod Artnet
pub mod Osc
pub mod Undo
pub mod Session
pub mod Params
pub mod Media
pub mod Table
pub mod Midi
mod Tests
