-- ===== src/Tests/Dmx.antt =====
-- Runs of the DMX mapper, crates/control-artnet/src/mapper.rs.
use videocuelist.Prelude.{◌≡◌, refl, [], ◌∷◌, none, some, arith, Returns, leb, if◌then◌else◌}
use videocuelist.Prelude.Int.{pos}
use videocuelist.Float.Milli.{milli}
use videocuelist.Core.Model.{ParamValue}
use videocuelist.Core.Template.{Source}
use videocuelist.Core.Command.{param_set}
use videocuelist.Core.Patch.{PatchEntry, eight, sixteen}
use videocuelist.Artnet.Mapper.{DmxMapper, new_mapper, set_entries, apply_frame, observe}
use videocuelist.Artnet.Mapper.Replay.{
  apply_frames, apply_frame-replay, all_commands, set_entries-emits,
}
use videocuelist.Artnet.Mapper.Sequence.{observe-lost, later}

-- A dimmer on channel 1, and a fine one on channels 2 and 3, both of universe 0.
abbrev dimmer : PatchEntry
dimmer = record {
  universe = 0;
  channel = 1;
  bits = eight;
  addr = 97 ∷ [];
  min = pos 0;
  max = pos 1000;
  smoothing_ms = pos 0;
}

abbrev fine : PatchEntry
fine = record dimmer { channel = 2; bits = sixteen; addr = 98 ∷ [] }

abbrev patched : DmxMapper
patched = new_mapper (dimmer ∷ fine ∷ [])

first_frame :
    apply_frame 0 (255 ∷ 255 ∷ 255 ∷ []) patched
    ≡ some (
      param_set (97 ∷ []) (ParamValue.f (pos 1000)) Source.artnet
          ∷ param_set (98 ∷ []) (ParamValue.f (pos 1000)) Source.artnet
          ∷ [],
      record patched { last_raw = some 255 ∷ some 65_535 ∷ [] },
    )
unfolding apply_frame
first_frame = refl

short_frame :
    apply_frame 0 (0 ∷ 255 ∷ []) patched
    ≡ some (
      param_set (97 ∷ []) (ParamValue.f (pos 0)) Source.artnet ∷ [],
      record patched { last_raw = some 0 ∷ none ∷ [] },
    )
unfolding apply_frame
short_frame = refl

apply_frame-replay_example :
    Returns
      (λ r.
        Returns
          (λ m'. apply_frame 0 (255 ∷ 1 ∷ 2 ∷ []) m' ≡ some ([], m'))
          (apply_frames ((1, 9 ∷ []) ∷ (2, []) ∷ []) r.1))
      (apply_frame 0 (255 ∷ 1 ∷ 2 ∷ []) patched)
apply_frame-replay_example =
    apply_frame-replay 0 (255 ∷ 1 ∷ 2 ∷ []) ((1, 9 ∷ []) ∷ (2, []) ∷ []) patched tt
      (ground arith, (ground arith, tt))

set_entries-emits_example :
    Returns
      (λ r. r.0 ≡ all_commands 0 (7 ∷ 8 ∷ 9 ∷ []) (dimmer ∷ fine ∷ []))
      (apply_frame 0 (7 ∷ 8 ∷ 9 ∷ []) (set_entries (dimmer ∷ fine ∷ []) patched))
set_entries-emits_example = set_entries-emits 0 (7 ∷ 8 ∷ 9 ∷ []) (dimmer ∷ fine ∷ []) patched

-- Ten frames are lost around the end of the count: after 250 comes 6.
observe-lost_example :
    (observe 3 (later 250 11) (observe 3 250 (record { last = [] })).1).0
    ≡ (if leb 8 10 then some 10 else none)
observe-lost_example =
    observe-lost 3 250 10 (record { last = [] }) (omega arith) (omega arith) (omega arith)
