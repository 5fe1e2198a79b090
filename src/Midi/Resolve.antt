-- ===== src/Midi/Resolve.antt =====
-- crates/control-midi/src/resolve.rs: from a message to the command of the first binding that fits.
use videocuelist.Prelude.{
  ℕ, Bool, true, false, not, ◌&&◌, List, [], ◌∷◌, Option, none, some, ◌==◌, if◌then◌else◌,
}
use videocuelist.Text.{Text}
use videocuelist.Float.{Floats, nat32}
use videocuelist.Core.Model.{Curve, linear, apply, ParamValue}
use videocuelist.Core.Template.{Source}
use videocuelist.Core.Command.{Command, param_set, to_command}
use videocuelist.Core.Patch.{CcBinding, MidiBinding, note_binding, cc_binding_of}
use videocuelist.Midi.Msg.{MidiMsg, note_on, control_change, control_change14}

abbrev pub same_width : Bool → Bool → Bool
same_width true b = b
same_width false b = not b

module _ ⦃F : Floats⦄ where
  open F use {F32, add32, sub32, mul32, div32}

  pub record CcMatch : Type 0 where
    pub addr : Text
    pub min : F32
    pub max : F32
    pub pickup : Bool

  abbrev pub match_of : CcBinding → CcMatch
  match_of b = record { addr = b.addr; min = b.min; max = b.max; pickup = b.pickup }

  abbrev pub fits_cc : ℕ → ℕ → Bool → CcBinding → Bool
  fits_cc channel cc fourteen b =
      b.channel == channel && b.cc == cc && same_width b.fourteen_bits fourteen

  unfoldable pub find_cc : List MidiBinding → ℕ → ℕ → Bool → Option CcMatch
  find_cc [] channel cc fourteen = none
  find_cc (note_binding c n command ∷ bs) channel cc fourteen = find_cc bs channel cc fourteen
  find_cc (cc_binding_of b ∷ bs) channel cc fourteen =
      let rest = find_cc bs channel cc fourteen in
      if fits_cc channel cc fourteen b then some (match_of b) else rest

  unfoldable pub scale : F32 → F32 → F32 → Curve → F32
  unfolding apply
  scale t min max curve = add32 min (mul32 (apply curve t) (sub32 max min))

  -- The command of the first binding of a note.
  unfoldable pub find_note : List MidiBinding → ℕ → ℕ → Option (Source × Command)
  find_note [] channel note = none
  find_note (cc_binding_of b ∷ bs) channel note = find_note bs channel note
  find_note (note_binding c n command ∷ bs) channel note =
      let rest = find_note bs channel note in
      if c == channel && n == note then some (Source.midi, to_command command Source.midi) else rest

  abbrev pub set_command : F32 → CcMatch → Command
  set_command t m = param_set m.addr (ParamValue.f (scale t m.min m.max linear)) Source.midi

  abbrev pub cc_command : List MidiBinding → ℕ → ℕ → Bool → F32 → Option (Source × Command)
  cc_command bs channel cc fourteen t = elim (find_cc bs channel cc fourteen) [
    | none ↦ none
    | some m ↦ some (Source.midi, set_command t m)
  ]

  abbrev pub seven : ℕ → F32
  seven v = div32 (nat32 v) (nat32 127)

  abbrev pub fourteen_of : ℕ → F32
  fourteen_of v = div32 (nat32 v) (nat32 16_383)

  unfoldable pub resolve : List MidiBinding → MidiMsg → Option (Source × Command)
  unfolding find_note find_cc scale
  resolve bs (note_on channel note velocity) = find_note bs channel note
  resolve bs (control_change channel cc v) = cc_command bs channel cc false (seven v)
  resolve bs (control_change14 channel cc v) = cc_command bs channel cc true (fourteen_of v)
  resolve bs other = none
