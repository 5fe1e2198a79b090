-- ===== src/Tests/Edits.antt =====
-- Runs of the edits of a show, crates/core/src/command.rs.
use videocuelist.Prelude.{ℕ, ◌≡◌, refl, [], ◌∷◌, none, some, true, false, arith, Returns}
use videocuelist.Prelude.Int.{pos}
use videocuelist.Float.Milli.{milli}
use videocuelist.Core.Model.{Cue, manual, default_transition}
use videocuelist.Core.Show.{Show, ShowSettings}
use videocuelist.Core.Edit.{cue_add, cue_remove, apply_edit, add_cue}
use videocuelist.Core.Edit.Order.{IsOrdered, put_cue, add_cue-put_cue, apply_edit-IsOrdered}

abbrev cue : ℕ → Cue
cue n = record {
  number = n;
  name = "";
  color = none;
  notes = "";
  armed = true;
  transition = default_transition;
  follow = manual;
  goto_after = none;
  states = [];
  mod_routes = [];
  triggers = record { midi_note = none; osc = none; timecode = none };
}

abbrev pub default_settings : ShowSettings
default_settings = record {
  osc_in_port = 9_000;
  osc_out_port = 9_001;
  artnet_enabled = false;
  artnet_universes = [];
  language = "fr";
  mjpeg_fps = 10;
  mjpeg_width = 480;
  mjpeg_height = 270;
  autosave_debounce_s = pos 2_000;
  autosave_interval_s = pos 60_000;
  audio_input = none;
  min_go_interval_ms = 0;
  cue_defaults = record { transition = none; follow = none; color = none };
  update_check = false;
  update_url = "";
  boost_priority = false;
  timecode_chase = false;
}

abbrev pub two_cues : Show
two_cues = record {
  format_version = 1;
  name = "demo";
  outputs = [];
  slices = [];
  media = [];
  materials = [];
  cues = cue 1_000 ∷ cue 3_000 ∷ [];
  patch = record { artnet = []; midi = []; osc_out = none; keys = [] };
  modulators = [];
  routes = [];
  settings = default_settings;
}

two_cues-IsOrdered : IsOrdered two_cues
two_cues-IsOrdered = ((omega arith, tt), (tt, tt))

adds_between :
    apply_edit (cue_add (cue 2_000)) two_cues
    ≡ some (record two_cues { cues = cue 1_000 ∷ cue 2_000 ∷ cue 3_000 ∷ [] })
unfolding apply_edit
adds_between = refl

add_cue-put_cue_example :
    Returns
      (λ r. r ≡ put_cue (cue 2_000) (cue 1_000 ∷ cue 3_000 ∷ []))
      (add_cue (cue 2_000) (cue 1_000 ∷ cue 3_000 ∷ []))
add_cue-put_cue_example =
    add_cue-put_cue (cue 2_000) (cue 1_000 ∷ cue 3_000 ∷ []) two_cues-IsOrdered

apply_edit-IsOrdered_example : Returns IsOrdered (apply_edit (cue_remove 1_000) two_cues)
apply_edit-IsOrdered_example = apply_edit-IsOrdered (cue_remove 1_000) two_cues two_cues-IsOrdered
