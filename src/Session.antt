-- ===== src/Session.antt =====
-- crates/app/src/session.rs: the commands GO, BACK, GOTO and STANDBY on their way to the cue engine,
-- with the guard against a GO that comes twice. Of the session's fields those that they use.
pub mod Pace
use videocuelist.Prelude.{
  ℕ, ◌-◌, ◌*◌, Bool, true, false, ◌&&◌, List, [], ◌∷◌, ◌++◌, Option, none, some, ltb, if◌then◌else◌,
}
use videocuelist.Text.{Text, codes, digits}
use videocuelist.Float.{Floats}
use videocuelist.Core.Model.{CueNumber}
use videocuelist.Core.Event.{StateEvent, warning}
use videocuelist.Core.Show.{Show}
use videocuelist.Cue.Types.{CueEngine, go, back, goto, standby}
use videocuelist.Cue.Commands.{latch}

-- `Duration::from_millis` and `from_secs`, in nanoseconds.
abbrev pub from_millis : ℕ → ℕ
from_millis ms = ms * 1_000_000

abbrev pub one_second : ℕ
one_second = 1_000_000_000

-- `map(|t| now.duration_since(t) < min).unwrap_or(false)`: the difference of two instants is 0 if the
-- second is the later one.
abbrev pub within : ℕ → ℕ → Option ℕ → Bool
within min now none = false
within min now (some t) = ltb (now - t) min

module _ ⦃F : Floats⦄ where
  pub record Session : Type 0 where
    pub show : Show
    pub cue : CueEngine
    pub last_go : Option ℕ
    pub last_go_warn : Option ℕ

  abbrev pub min_go_interval_ms : Session → ℕ
  min_go_interval_ms s = ((s.show).settings).min_go_interval_ms

  abbrev pub too_soon : ℕ → Session → Bool
  too_soon now s =
      ltb 0 (from_millis (min_go_interval_ms s))
      && within (from_millis (min_go_interval_ms s)) now s.last_go

  abbrev pub refused_message : ℕ → Text
  refused_message ms =
      codes "GO refusé : moins de " ++ digits 10 ms ++ codes " ms depuis le GO précédent"

  -- A GO that comes too soon is refused, with a warning at most once a second.
  unfoldable pub refuse_go : ℕ → Session → List StateEvent × Session
  unfolding digits
  refuse_go now s = if within one_second now s.last_go_warn then ([], s) else (
    warning (refused_message (min_go_interval_ms s)) ∷ [],
    record s { last_go_warn = some now },
  )

  -- The branch `Command::CueGo` of `handle_command`.
  unfoldable pub command_go : ℕ → Session → List StateEvent × Session
  unfolding refuse_go latch
  command_go now s =
      if too_soon now s
      then refuse_go now s
      else ([], record s { last_go = some now; cue = latch go s.cue })

  -- The branches that only latch a command.
  abbrev pub command_back : Session → Session
  command_back s = record s { cue = latch back s.cue }

  abbrev pub command_goto : CueNumber → Session → Session
  command_goto n s = record s { cue = latch (goto n) s.cue }

  abbrev pub command_standby : CueNumber → Session → Session
  command_standby n s = record s { cue = latch (standby n) s.cue }
