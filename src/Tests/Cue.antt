-- ===== src/Tests/Cue.antt =====
-- The cue engine on a small show.
use mathlib.Core.List.{Perm}
use videocuelist.Prelude.{
  ◌⊎◌, ap, ℕ, ◌≡◌, refl, ◌++◌, true, some, none, [], ◌∷◌, Returns, arith, last?,
}
use videocuelist.Prelude.Int.{pos}
use videocuelist.Core.Timecode.{to_frames, fps25}
use videocuelist.Core.Model.{cut, crossfade}
use videocuelist.Float.Milli.{milli}
use videocuelist.Cue.Types.{CueEngine, goto_missing}
use videocuelist.Cue.Search.{sort_cues, numbers, binary_search, find_range}
use videocuelist.Cue.Search.Sorted.{sort_cues-Sorts, IsSorted}
use videocuelist.Cue.Search.Binary.{Finds}
use videocuelist.Cue.Load.{load, load_hot}
use videocuelist.Cue.Transitions.{
  warn_event, activate, start_go, standby_after, snap_transition, launch, next_armed,
}
use videocuelist.Cue.Commands.{
  apply_pending, latch, apply_go, apply_back, apply_goto, effective_active,
}
use videocuelist.Cue.Chase.{
  chase_triggers, fired_between, seek_target, chase_advance, chase_seek, check_chase,
}
use videocuelist.Cue.Follow.{check_follow}
use videocuelist.Cue.Tick.{tick}
use videocuelist.Cue.Safety.{IsWellFormed}
use videocuelist.Cue.Safety.Tick.{tick-IsWellFormed}
use videocuelist.Cue.Safety.Load.{load_hot-IsWellFormed}
use videocuelist.Cue.Landing.Commands.{
  GoesOn, apply_go-lands, apply_back-lands, apply_goto-lands, Goes, Backs,
}
use videocuelist.Cue.Landing.Chase.{SeeksTo, chase_advance-lands, chase_seek-lands, Crosses}
use videocuelist.Cue.Landing.Chase.Triggers.{fired_between-cut, seek_target-advance}
use videocuelist.Cue.Landing.Load.{load_hot-Keeps, Keeps}
use videocuelist.Cue.Landing.Standby.{standby_after-StandbyAfter, StandbyAfter}
use videocuelist.Cue.Landing.Frames.{tick-Shows, Shows}
use videocuelist.Tests.Shows.{
  fading, fading-IsWellFormed, show, cue_at, loaded, loaded-IsWellFormed, tick_at,
}

sorted_numbers : numbers (sort_cues show) ≡ 1_000 ∷ 2_000 ∷ 2_500 ∷ 3_000 ∷ []
unfolding sort_cues
sorted_numbers = refl

found : binary_search (1_000 ∷ 2_000 ∷ 2_500 ∷ 3_000 ∷ []) 2_500 ≡ some (some 2)
unfolding binary_search
found = refl

fired : fired_between 200 600 (chase_triggers loaded fps25) ≡ 0 ∷ 3 ∷ []
unfolding fired_between chase_triggers load sort_cues to_frames
fired = refl

fading_lands : effective_active fading ≡ some 2
unfolding load sort_cues tick latch standby_after binary_search find_range start_go activate
    apply_pending snap_transition launch next_armed check_chase check_follow
fading_lands = refl

tick-IsWellFormed_example :
    Returns (λ r. IsWellFormed r.1 × (r.1.cues ≡ fading.cues)) (tick (tick_at 4_500) fading)
tick-IsWellFormed_example = tick-IsWellFormed (tick_at 4_500) fading fading-IsWellFormed

load_hot-IsWellFormed_example :
    Returns
      (λ r. IsWellFormed r × (r.cues ≡ sort_cues (show ++ show)))
      (load_hot (show ++ show) fading)
load_hot-IsWellFormed_example = load_hot-IsWellFormed (show ++ show) fading fading-IsWellFormed

load_hot-Keeps_example :
    Returns (Keeps fading) (load_hot (cue_at 2_500 cut true none none ∷ []) fading)
load_hot-Keeps_example =
    load_hot-Keeps (cue_at 2_500 cut true none none ∷ []) fading fading-IsWellFormed

tick-Shows_example : Returns (λ r. Shows r.0 r.1) (tick (tick_at 3_500) fading)
tick-Shows_example = tick-Shows (tick_at 3_500) fading fading-IsWellFormed

sort_cues-Sorts_example :
    Perm (sort_cues (show ++ show)) (show ++ show) × IsSorted (numbers (sort_cues (show ++ show)))
sort_cues-Sorts_example = sort_cues-Sorts (show ++ show)

apply_go-lands_example :
    (e₁ : CueEngine) × (snap_transition (pos 2_500) fading ≡ some e₁)
    × Returns (GoesOn e₁.standby fading) (apply_go (pos 2_500) fading)
apply_go-lands_example = apply_go-lands (pos 2_500) fading fading-IsWellFormed

apply_back-lands_example :
    Returns (Backs fading (effective_active fading)) (apply_back (pos 2_500) fading)
apply_back-lands_example = apply_back-lands (pos 2_500) fading fading-IsWellFormed

apply_goto-lands_example :
    Returns
      (λ e'.
        ((to : ℕ) × Finds (numbers fading.cues) 2_000 (some to) × Goes to fading e')
        ⊎ (Finds (numbers fading.cues) 2_000 none × (e' ≡ warn_event (goto_missing 2_000) fading)))
      (apply_goto 2_000 (pos 2_500) fading)
apply_goto-lands_example = apply_goto-lands 2_000 (pos 2_500) fading fading-IsWellFormed

chase_advance-lands_example :
    Returns
      (Crosses (fired_between 200 600 (chase_triggers fading fps25)) fading)
      (chase_advance 200 600 fps25 (pos 2_500) fading)
chase_advance-lands_example =
    chase_advance-lands 200 600 fps25 (pos 2_500) fading fading-IsWellFormed

chase_seek-lands_example :
    Returns
      (SeeksTo 300 (chase_triggers fading fps25) fading)
      (chase_seek 300 fps25 (pos 2_500) fading)
chase_seek-lands_example = chase_seek-lands 300 fps25 (pos 2_500) fading fading-IsWellFormed

fired_between-cut_example :
    fired_between 200 600 (chase_triggers loaded fps25)
    ≡ fired_between 200 300 (chase_triggers loaded fps25)
      ++ fired_between 300 600 (chase_triggers loaded fps25)
fired_between-cut_example = fired_between-cut 200 300 600 loaded fps25 (omega arith) (omega arith)

seek_target-advance_example : seek_target 600 (chase_triggers loaded fps25) ≡ some 3
seek_target-advance_example = seek_target-advance 200 600 3 loaded fps25 (ap last? fired)

standby_after-StandbyAfter_example :
    Returns
      (StandbyAfter loaded.cues 2 (cue_at 2_500 crossfade true (some 1_000) none))
      (standby_after loaded 2)
unfolding load sort_cues
standby_after-StandbyAfter_example =
    standby_after-StandbyAfter 2 (cue_at 2_500 crossfade true (some 1_000) none) loaded
      loaded-IsWellFormed refl
