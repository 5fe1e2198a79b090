-- ===== src/Tests/Session.antt =====
-- crates/app/src/session.rs: a GO, one that comes too soon, and one in time.
use videocuelist.Prelude.{ℕ, ◌≡◌, refl, List, [], ◌∷◌, none}
use videocuelist.Float.Milli.{milli}
use videocuelist.Core.Show.{Show}
use videocuelist.Cue.Types.{CueEngine}
use videocuelist.Tests.Edits.{two_cues, default_settings}
use videocuelist.Session.{Session, command_go}
use videocuelist.Session.Pace.{opened, asked, counted, warned, Paced, Rare, Reached-Paced}

-- Half a second between two GOs.
abbrev guarded : Show
guarded = record two_cues { settings = record default_settings { min_go_interval_ms = 500 } }

abbrev empty_engine : CueEngine
empty_engine = videocuelist.Cue.Load.new

abbrev at_open : Session
at_open = record { show = guarded; cue = empty_engine; last_go = none; last_go_warn = none }

abbrev after_one : Session
after_one = (command_go 1_000_000_000 at_open).1

abbrev after_two : Session
after_two = (command_go 1_200_000_000 after_one).1

abbrev after_three : Session
after_three = (command_go 1_600_000_000 after_two).1

abbrev gos : List (ℕ × ℕ)
gos =
    counted 1_600_000_000 after_two after_three
      (counted 1_200_000_000 after_one after_two (counted 1_000_000_000 at_open after_one []))

abbrev warnings : List ℕ
warnings = warned 1_600_000_000 (command_go 1_600_000_000 after_two).0 (
    warned 1_200_000_000 (command_go 1_200_000_000 after_one).0
      (warned 1_000_000_000 (command_go 1_000_000_000 at_open).0 []))

two_of_three :
    (gos ≡ (1_600_000_000, 500_000_000) ∷ (1_000_000_000, 500_000_000) ∷ [])
    × (warnings ≡ 1_200_000_000 ∷ [])
unfolding command_go videocuelist.Cue.Load.new
two_of_three = (refl, refl)

Reached-Paced_example : Paced gos × Rare warnings
Reached-Paced_example =
    Reached-Paced (
      asked 1_600_000_000 (asked 1_200_000_000 (asked 1_000_000_000 (opened guarded empty_engine))))
