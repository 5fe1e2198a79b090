-- ===== src/Tests/Midi.antt =====
-- crates/control-midi at concrete messages.
use videocuelist.Prelude.{
  ◌≤◌, ap, length, true, inr, false, some, none, List, [], ◌∷◌, ◌≡◌, refl, arith, push_back,
}
use videocuelist.Prelude.Int.{pos}
use videocuelist.Text.{Text, text_eq}
use videocuelist.Float.Milli.{milli}
use videocuelist.Midi.Pickup.{
  Pickup, pass, blocked, update_logical, filter, max_logical_entries, engages, fader_of,
}
use videocuelist.Midi.Pickup.Takeover.{filter-holds, filter-blocked, filter-bounded}
use videocuelist.Core.Timecode.{TcTime, fps2997_df, to_frames, from_frames}
use videocuelist.Core.Timecode.Frames.{IsLabel}
use videocuelist.Midi.Mtc.{MtcAssembler, time, full_frame, push, add_frames}
use videocuelist.Midi.Mtc.Pieces.{
  push_all, forward_group, backward_group, pieces_forward, pieces_backward,
}
use videocuelist.Midi.Mtc.Groups.{at, forward_group-lem, backward_group-lem, full_frame-lem}
use videocuelist.Midi.Mtc.Valid.{Fits, push-Fits}
use videocuelist.Table.{lookup}
use videocuelist.Midi.Msg.{
  MidiMsg, control_change, control_change14, note_off, pitch_bend, parse_midi,
}
use videocuelist.Midi.Msg.Codec.{IsWire, parse_midi-wire, parse_midi-IsWire}
use videocuelist.Midi.Cc14.{Cc14Assembler, key_eq, new, set_pairs, feed, flush}
use videocuelist.Midi.Cc14.Range.{IsWellFormed, set_pairs-IsWellFormed, feed-Sound, Sound}
use videocuelist.Midi.Cc14.Pairing.{feed-pair, flush-alone, after_msb}

parse_midi-wire_example : parse_midi (0xE3 ∷ 5 ∷ 64 ∷ []) ≡ some (pitch_bend 3 8197)
parse_midi-wire_example = parse_midi-wire (pitch_bend 3 8197) (ground arith)

silent : parse_midi (0x92 ∷ 60 ∷ 0 ∷ []) ≡ some (note_off 2 60)
unfolding parse_midi
silent = refl

parse_midi-IsWire_example : IsWire (note_off 2 60)
parse_midi-IsWire_example = parse_midi-IsWire (0x92 ∷ 60 ∷ 0 ∷ []) silent

-- Controller 7 of the first channel is paired; 40 is no upper half.
abbrev paired : Cc14Assembler
paired = set_pairs ((0, 7) ∷ (0, 40) ∷ []) new

new-IsWellFormed : IsWellFormed new
new-IsWellFormed = record { upper = tt; waiting = tt; known = tt; window = omega arith }

paired-IsWellFormed : IsWellFormed paired
paired-IsWellFormed = set_pairs-IsWellFormed ((0, 7) ∷ (0, 40) ∷ []) new new-IsWellFormed

feed-pair_example :
    ((feed (control_change 0 39 3) 120 (after_msb 0 7 100 90 paired)).0
      ≡ push_back (flush 120 (after_msb 0 7 100 90 paired)).0 (control_change14 0 7 12_803))
    × (lookup key_eq
          (0, 7)
          (feed (control_change 0 39 3) 120 (after_msb 0 7 100 90 paired)).1.pending
        ≡ none)
unfolding set_pairs
feed-pair_example =
    feed-pair 0 7 100 3 90 120 paired paired-IsWellFormed refl (omega arith) (omega arith)
      (omega arith) (omega arith)

flush-alone_example :
    ((others : List MidiMsg) × ((flush 140 (after_msb 0 7 100 90 paired)).0
        ≡ control_change14 0 7 12_800 ∷ others))
    × (lookup key_eq (0, 7) (flush 140 (after_msb 0 7 100 90 paired)).1.pending ≡ none)
unfolding set_pairs
flush-alone_example = flush-alone 0 7 100 90 140 paired refl (omega arith)

feed-Sound_example : Sound paired.pairs (feed (control_change 0 7 100) 90 paired)
feed-Sound_example =
    feed-Sound (control_change 0 7 100) 90 paired (ground arith) paired-IsWellFormed

-- A drop-frame position just before two labels that do not exist.
abbrev late : TcTime
late = record { h = 1; m = 0; s = 59; f = 28 }

late-IsLabel : IsLabel fps2997_df late
late-IsLabel = ground arith

abbrev running : MtcAssembler
running = at true true (some fps2997_df) (λ i. 0) 0xFF (some 7)

abbrev rewinding : MtcAssembler
rewinding = at false true (some fps2997_df) (λ i. 0) 0xFF (some 0)

forward_group_example : push_all (forward_group fps2997_df late) running ≡ (
  time (record { h = 1; m = 1; s = 0; f = 2 }) ∷ [],
  at true true (some fps2997_df) (pieces_forward fps2997_df late (λ i. 0)) 0xFF (some 7),
)
unfolding add_frames to_frames from_frames
forward_group_example = forward_group-lem fps2997_df late running late-IsLabel refl (inr refl)

backward_group_example : push_all (backward_group fps2997_df late) rewinding ≡ (
  time late ∷ [],
  at false true (some fps2997_df) (pieces_backward fps2997_df late (λ i. 0)) 0xFF (some 0),
)
backward_group_example = backward_group-lem fps2997_df late rewinding late-IsLabel refl (inr refl)

full_frame_example : push (0xF0 ∷ 0x7F ∷ 0x7F ∷ 1 ∷ 1 ∷ 65 ∷ 0 ∷ 59 ∷ 28 ∷ 0xF7 ∷ []) running ≡ (
  some (full_frame late),
  record running { mask = 0; prev = none; is_locked = false; rate = some fps2997_df },
)
full_frame_example = full_frame-lem fps2997_df late 0x7F running late-IsLabel

push-Fits_example : Fits (push (0xF1 ∷ 0x75 ∷ []) running)
push-Fits_example = push-Fits (0xF1 ∷ 0x75 ∷ []) running

-- One parameter at a half, and a fader below it.
abbrev opacity : Text
opacity = b'o' ∷ []

abbrev half_open : Pickup
half_open = record { logical = (opacity, pos 500) ∷ []; faders = [] }

abbrev below : Pickup
below = record {
  logical = (opacity, pos 500) ∷ [];
  faders = ((0, 7), record { addr = opacity; engaged = false; last = some (pos 200) }) ∷ [];
}

blocked_below :
    filter (0, 7) opacity (pos 200) (pos 8) half_open ≡ (blocked (pos 500) (pos 200), below)
unfolding filter engages fader_of
blocked_below = refl

-- The fader crosses the value, and is let through.
crossed : (filter (0, 7) opacity (pos 600) (pos 8) below).0 ≡ pass (pos 600)
unfolding filter engages fader_of
crossed = refl

filter-holds_example :
    (filter (0, 7) opacity (pos 100) (pos 8) (filter (0, 7) opacity (pos 600) (pos 8) below).1).0
    ≡ pass (pos 100)
filter-holds_example = filter-holds (0, 7) opacity (pos 600) (pos 100) (pos 8) below refl crossed

filter-blocked_example :
    (lookup text_eq opacity half_open.logical ≡ some (pos 500))
    × ((filter (0, 7) opacity (pos 200) (pos 8) half_open).1.logical ≡ half_open.logical)
    × (pos 200 ≡ pos 200)
filter-blocked_example =
    filter-blocked (0, 7) opacity (pos 200) (pos 8) (pos 500) (pos 200) half_open
      (ap (λ r. r.0) blocked_below)

filter-bounded_example :
    (length (update_logical opacity (pos 600) below).logical ≤ max_logical_entries)
    × (length (filter (0, 7) opacity (pos 600) (pos 8) below).1.logical ≤ max_logical_entries)
filter-bounded_example = filter-bounded (0, 7) opacity (pos 600) (pos 8) below (omega arith)
