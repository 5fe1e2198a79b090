-- ===== src/Tests/Controls.antt =====
-- Runs of MIDI Show Control, of learning and of the MIDI engine, crates/control-midi/src.
use videocuelist.Prelude.{
  ℕ, ◌≡◌, ◌↔◌, List, refl, ◌⊎◌, [], ◌∷◌, ◌++◌, true, false, none, some, arith,
}
use videocuelist.Prelude.Int.{pos}
use videocuelist.Text.{parse_uint}
use videocuelist.Midi.Pickup.{engages}
use videocuelist.Midi.Mtc.{is_mtc}
use videocuelist.Float.Milli.{milli}
use videocuelist.Core.Model.{ParamValue}
use videocuelist.Core.Number.{to_string}
use videocuelist.Core.Template.{Source, go}
use videocuelist.Core.Command.{param_set, cue_goto, cue_go, cue_standby}
use videocuelist.Core.Patch.{MidiBinding, note_binding, cc_binding_of}
use videocuelist.Midi.Msg.{note_on, control_change, parse_midi}
use videocuelist.Midi.Cc14.{feed}
use videocuelist.Midi.Msc.{parse_msc, msc_all_call}
use videocuelist.Midi.Msc.Go.{msc_frame, parse_msc-number, parse_msc-other}
use videocuelist.Midi.Msc.Meaning.{Tells, parse_msc-Means}
use videocuelist.Midi.Learn.{new_learn, arm, disarm, cc_binding, learn_feed}
use videocuelist.Midi.Learn.Capture.{learn_feed-pair, learn_feed-ends, Captures}
use videocuelist.Midi.Engine.{
  MidiEngine, command_event, pickup_engaged, learned, new_engine, set_bindings, learn_arm, handle,
}
use videocuelist.Midi.Engine.Routing.{
  started, bound, handled, Reached-IsWellFormed_engine, IsWellFormed, Reached-AllBound, AllBound,
}
use videocuelist.Midi.Engine.Armed.{IsPlayed, LearnsFirst, handle-LearnsFirst}

reads_list :
    parse_msc (0xF0 ∷ 0x7F ∷ 5 ∷ 2 ∷ 1 ∷ 1 ∷ b'1' ∷ b'2' ∷ b'.' ∷ b'5' ∷ 0 ∷ b'3' ∷ 0xF7 ∷ []) 5
    ≡ some (cue_goto 12_500)
unfolding parse_msc parse_uint
reads_list = refl

unreadable : parse_msc (0xF0 ∷ 0x7F ∷ 5 ∷ 2 ∷ 1 ∷ 1 ∷ b'x' ∷ 0xF7 ∷ []) 5 ≡ none
unfolding parse_msc
unreadable = refl

parse_msc-number_example :
    (parse_msc (msc_frame 5 1 0x01 (to_string 12_500)) 5 ≡ some (cue_goto 12_500))
    × (parse_msc (msc_frame 5 1 0x01 (to_string 12_500 ++ (0 ∷ b'3' ∷ []))) 5
        ≡ some (cue_goto 12_500))
    × (parse_msc (msc_frame 5 1 0x04 (to_string 12_500)) 5 ≡ some (cue_standby 12_500))
parse_msc-number_example = parse_msc-number 5 1 5 12_500 (b'3' ∷ []) refl (omega arith)

parse_msc-other_example : parse_msc (0xF0 ∷ 0x7F ∷ 6 ∷ 2 ∷ 1 ∷ 1 ∷ 0xF7 ∷ []) 5 ≡ none
parse_msc-other_example = parse_msc-other 0xF0 0x7F 6 2 1 1 (0xF7 ∷ []) 5 refl refl refl

abbrev loads_seven : List ℕ
loads_seven = 0xF0 ∷ 0x7F ∷ 5 ∷ 2 ∷ 1 ∷ 4 ∷ b'7' ∷ 0xF7 ∷ []

parse_msc-Means_example :
    (parse_msc loads_seven 5 ≡ some (cue_standby 7_000)) ↔ Tells 5 loads_seven (cue_standby 7_000)
parse_msc-Means_example = parse_msc-Means loads_seven 5 (cue_standby 7_000)

learn_feed-pair_example :
    learn_feed
      (control_change 0 39 5)
      130
      (learn_feed (control_change 0 7 64) 100 (arm new_learn)).1
    ≡ (some (cc_binding 0 7 true), disarm new_learn)
learn_feed-pair_example = learn_feed-pair 0 7 64 5 100 130 new_learn (omega arith) (omega arith)

learn_feed-ends_example :
    Captures (learn_feed (control_change 0 7 64) 100 (arm new_learn))
    ⊎ Captures (
        learn_feed (note_on 0 60 90) 110 (learn_feed (control_change 0 7 64) 100 (arm new_learn)).1)
learn_feed-ends_example =
    learn_feed-ends (control_change 0 7 64) (note_on 0 60 90) 100 110 (arm new_learn) refl tt tt

abbrev fader : MidiBinding
fader = cc_binding_of (record {
  channel = 0;
  cc = 7;
  fourteen_bits = true;
  addr = 97 ∷ [];
  min = pos 0;
  max = pos 1000;
  pickup = true;
})

abbrev bound_engine : MidiEngine
bound_engine = set_bindings (note_binding 0 60 go ∷ fader ∷ []) (new_engine msc_all_call)

plays_note : (handle (0x90 ∷ 60 ∷ 100 ∷ []) 10 bound_engine).0 ≡ command_event cue_go ∷ []
unfolding handle set_bindings
plays_note = refl

plays_fader :
    (handle (0xB0 ∷ 39 ∷ 127 ∷ []) 20 (handle (0xB0 ∷ 7 ∷ 127 ∷ []) 10 bound_engine).1).0
    ≡ pickup_engaged (97 ∷ [])
      ∷ command_event (param_set (97 ∷ []) (ParamValue.f (pos 1000)) Source.midi)
      ∷ []
unfolding handle set_bindings engages
plays_fader = refl

learns_note :
    (handle (0x90 ∷ 61 ∷ 100 ∷ []) 10 (learn_arm bound_engine)).0
    ≡ learned (note_binding 0 61 go) ∷ []
unfolding handle set_bindings
learns_note = refl

Reached-IsWellFormed_engine_example : IsWellFormed (handle (0xB0 ∷ 7 ∷ 127 ∷ []) 10 bound_engine).1
Reached-IsWellFormed_engine_example = Reached-IsWellFormed_engine (
    handled (0xB0 ∷ 7 ∷ 127 ∷ []) 10
      (bound (note_binding 0 60 go ∷ fader ∷ []) (started msc_all_call)))

Reached-AllBound_example :
    AllBound bound_engine.bindings (feed (control_change 0 39 5) 20 bound_engine.cc14).0
Reached-AllBound_example =
    Reached-AllBound (bound (note_binding 0 60 go ∷ fader ∷ []) (started msc_all_call))
      (control_change 0 39 5) 20 (ground arith)

not_mtc : is_mtc (0x90 ∷ 61 ∷ 100 ∷ []) ≡ false
unfolding is_mtc
not_mtc = refl

note-IsPlayed : IsPlayed (parse_midi (0x90 ∷ 61 ∷ 100 ∷ []))
unfolding parse_midi
note-IsPlayed = tt

handle-LearnsFirst_example : LearnsFirst (handle (0x90 ∷ 61 ∷ 100 ∷ []) 10 (learn_arm bound_engine))
handle-LearnsFirst_example =
    handle-LearnsFirst (0x90 ∷ 61 ∷ 100 ∷ []) 10 (learn_arm bound_engine) not_mtc note-IsPlayed refl
