-- ===== src/Tests/Shows.antt =====
-- A small show, on the concrete numbers of `Milli`.
use videocuelist.Prelude.{ℕ, Bool, true, false, Option, none, some, List, [], ◌∷◌, Returns, ◌≡◌}
use videocuelist.Prelude.Int.{pos}
use videocuelist.Core.Timecode.{TcTime}
use videocuelist.Core.Model.{Cue, TransitionKind, cut, crossfade, through_black, linear, manual}
use videocuelist.Float.Milli.{milli}
use videocuelist.Cue.Tick.{tick}
use videocuelist.Cue.Commands.{latch}
use videocuelist.Cue.Safety.Tick.{tick-IsWellFormed, latch-IsWellFormed}
use videocuelist.Cue.Types.{CueFrame, go, CueEngine, EngineTick}
use videocuelist.Cue.Load.{new, load}
use videocuelist.Cue.Safety.{IsWellFormed}
use videocuelist.Cue.Safety.Load.{load-IsWellFormed}

-- A cue with a transition of two seconds, and a trigger at a second of the first minute.
abbrev pub cue_at : ℕ → TransitionKind → Bool → Option ℕ → Option ℕ → Cue
cue_at n kind armed loop trigger = record {
  number = n;
  name = "cue";
  color = none;
  notes = "";
  armed = armed;
  transition = record { kind = kind; dur_s = pos 2_000; curve = linear };
  follow = manual;
  goto_after = loop;
  states = [];
  mod_routes = [];
  triggers = record { midi_note = none; osc = none; timecode = trigger_at trigger };
}
  where
    trigger_at : Option ℕ → Option TcTime
    trigger_at none = none
    trigger_at (some s) = some (record { h = 0; m = 0; s = s; f = 0 })

-- Out of order, with a disarmed cue.
abbrev pub show : List Cue
show =
    cue_at 3_000 through_black true none (some 20)
    ∷ cue_at 1_000 cut true none (some 10)
    ∷ cue_at 2_000 crossfade false none (some 15)
    ∷ cue_at 2_500 crossfade true (some 1_000) none
    ∷ []

abbrev pub loaded : CueEngine
loaded = load show new

pub loaded-IsWellFormed : IsWellFormed loaded
loaded-IsWellFormed = load-IsWellFormed show new

abbrev pub tick_at : ℕ → EngineTick
tick_at s = record { now_s = pos s; media_eof = λ k. false; tc = none }

-- The engine after a tick; a tick that panicked would leave it.
abbrev engine_of : CueEngine → Option (CueFrame × CueEngine) → CueEngine
engine_of e none = e
engine_of e (some r) = r.1

abbrev pub after_tick : EngineTick → CueEngine → CueEngine
after_tick t e = engine_of e (tick t e)

engine_of-IsWellFormed :
    (e : CueEngine) (m : Option (CueFrame × CueEngine))
    → Returns (λ r. IsWellFormed r.1 × (r.1.cues ≡ e.cues)) m
    → IsWellFormed (engine_of e m)
engine_of-IsWellFormed e none r = absurd r
engine_of-IsWellFormed e (some a) r = r.0

pub after_tick-IsWellFormed :
    (t : EngineTick) (e : CueEngine) → IsWellFormed e → IsWellFormed (after_tick t e)
after_tick-IsWellFormed t e v = engine_of-IsWellFormed e (tick t e) (tick-IsWellFormed t e v)

-- A GO that is ticked: the first cue is at the programme.
abbrev pub first : CueEngine
first = after_tick (tick_at 1_000) (latch go loaded)

pub first-IsWellFormed : IsWellFormed first
first-IsWellFormed =
    after_tick-IsWellFormed (tick_at 1_000) (latch go loaded)
      (latch-IsWellFormed go loaded loaded-IsWellFormed)

-- A second GO, in the middle of its crossfade.
abbrev pub fading : CueEngine
fading = after_tick (tick_at 2_000) (latch go first)

pub fading-IsWellFormed : IsWellFormed fading
fading-IsWellFormed =
    after_tick-IsWellFormed (tick_at 2_000) (latch go first)
      (latch-IsWellFormed go first first-IsWellFormed)
