-- ===== src/Midi/Learn.antt =====
-- crates/control-midi/src/learn.rs: learning a binding from the next message that counts.
pub mod Capture
use videocuelist.Prelude.{
  ℕ, ◌+◌, ◌-◌, Bool, true, false, not, ◌&&◌, [], Option, none, some, ◌==◌, leb, if◌then◌else◌,
}
use videocuelist.Float.{Floats, nat32}
use videocuelist.Core.Template.{go}
use videocuelist.Core.Patch.{MidiBinding, note_binding, cc_binding_of}
use videocuelist.Midi.Msg.{MidiMsg, note_on, control_change, control_change14}
use videocuelist.Midi.Cc14.{default_pair_timeout_ms}

pub record PendingCc : Type 0 where
  pub channel : ℕ
  pub cc : ℕ
  pub at_ms : ℕ

pub record Learn : Type 0 where
  pub armed : Bool
  pub pending : Option PendingCc
  pub timeout_ms : ℕ

abbrev pub new_learn : Learn
new_learn = record { armed = false; pending = none; timeout_ms = default_pair_timeout_ms }

abbrev pub arm : Learn → Learn
arm l = record l { armed = true; pending = none }

abbrev pub disarm : Learn → Learn
disarm l = record l { armed = false; pending = none }

module _ ⦃F : Floats⦄ where
  abbrev pub cc_binding : ℕ → ℕ → Bool → MidiBinding
  cc_binding channel cc fourteen_bits = cc_binding_of (record {
    channel = channel;
    cc = cc;
    fourteen_bits = fourteen_bits;
    addr = [];
    min = nat32 0;
    max = nat32 1;
    pickup = true;
  })

  -- The binding goes out, and nothing more is learned.
  abbrev pub captured : MidiBinding → Learn → Option MidiBinding × Learn
  captured b l = (some b, disarm l)

  abbrev pub is_over : ℕ → Learn → PendingCc → Bool
  is_over now l p = leb l.timeout_ms (now - p.at_ms)

  abbrev pub flush_pending : ℕ → Option PendingCc → Learn → Option MidiBinding × Learn
  flush_pending now none l = (none, l)
  flush_pending now (some p) l =
      if is_over now l p then captured (cc_binding p.channel p.cc false) l else (none, l)

  unfoldable pub learn_flush : ℕ → Learn → Option MidiBinding × Learn
  learn_flush now l = flush_pending now l.pending l

  -- A controller: the lower half of the one that waits, another one, or the first.
  abbrev pub learn_cc : ℕ → ℕ → ℕ → Option PendingCc → Learn → Option MidiBinding × Learn
  learn_cc channel cc now (some p) l =
      captured (cc_binding p.channel p.cc (p.channel == channel && cc == p.cc + 32)) l
  learn_cc channel cc now none l =
      if leb cc 31
      then (none, record l { pending = some (record { channel = channel; cc = cc; at_ms = now }) })
      else captured (cc_binding channel cc false) l

  abbrev pub learn_msg : MidiMsg → ℕ → Learn → Option MidiBinding × Learn
  learn_msg (note_on channel note velocity) now l = captured (note_binding channel note go) l
  learn_msg (control_change channel cc v) now l = learn_cc channel cc now l.pending l
  learn_msg (control_change14 channel cc v) now l = captured (cc_binding channel cc true) l
  learn_msg other now l = (none, l)

  -- Once the upper half that waited has gone out, the message is left.
  abbrev pub learn_after : MidiMsg → ℕ → Option MidiBinding × Learn → Option MidiBinding × Learn
  learn_after msg now (some b, l) = (some b, l)
  learn_after msg now (none, l) = learn_msg msg now l

  unfoldable pub learn_feed : MidiMsg → ℕ → Learn → Option MidiBinding × Learn
  unfolding learn_flush
  learn_feed msg now l = if not l.armed then (none, l) else learn_after msg now (learn_flush now l)
