-- ===== src/Cue/Transitions.antt =====
-- crates/cue/src/lib.rs: the start and the end of a transition, `start_go`, `activate`,
-- `standby_after` and `snap_transition`. `none` is a panic, of an index out of range.
use videocuelist.Prelude.{
  ℕ, ◌+◌, ◌-◌, Bool, true, false, ◌||◌, Option, none, some, [], ◌∷◌, ◌++◌, if◌then◌else◌, length,
  get_elem?, or_else, ◌>>=◌,
}
use videocuelist.Prelude.Int.{pos}
use videocuelist.Core.Model.{
  CueNumber, ParamMap, Transition, TransitionKind, cut, crossfade, through_black, FollowMode,
  manual, after_media, wait,
}
use videocuelist.Float.{Floats, nat32}
use videocuelist.Cue.Types.{
  CueEngine, CueEvent, cue_started, transition_finished, follow_armed, warning, Message,
}
use videocuelist.Cue.Search.{find_range, binary_search, numbers, armed_at}

module _ ⦃F : Floats⦄ where
  open F use {F32, F64, lit64, le32, add64, mul64, from_f32}

  abbrev pub emit : CueEvent → CueEngine → CueEngine
  emit ev e = record e { events = e.events ++ ev ∷ [] }

  abbrev pub warn_event : Message → CueEngine → CueEngine
  warn_event m e = emit (warning m) e

  -- `BTreeMap::extend`: the new entries win.
  abbrev pub extend : ParamMap → ParamMap → ParamMap
  extend old new = λ k. or_else (new k) (old k)

  -- `get_or_insert_with(BTreeMap::new).extend(..)`.
  abbrev pub merge_finished : Option ParamMap → ParamMap → Option ParamMap
  merge_finished none new = some (extend (λ k. none) new)
  merge_finished (some old) new = some (extend old new)

  unfoldable pub index_of : CueEngine → CueNumber → Option (Option ℕ)
  index_of e n = binary_search (numbers e.cues) n

  -- `(idx + 1..self.cues.len()).find(|&i| self.cues[i].armed)`.
  unfoldable pub next_armed : CueEngine → ℕ → Option (Option ℕ)
  next_armed e idx = find_range (armed_at e.cues) (length e.cues - (idx + 1)) (idx + 1)

  unfoldable pub standby_after : CueEngine → ℕ → Option (Option ℕ)
  standby_after e idx = do
    c ← get_elem? e.cues idx
    elim c.goto_after [
      | none ↦ next_armed e idx
      | some n ↦ index_of e n >>= elim [ none ↦ next_armed e idx | some i ↦ some (some i) ]
    ]

  abbrev pub is_manual : FollowMode → Bool
  is_manual manual = true
  is_manual after_media = false
  is_manual (wait s) = false

  -- The event for a follow that is armed.
  unfoldable pub arm_follow : ℕ → CueEngine → Option CueEngine
  arm_follow idx e = do
    c ← get_elem? e.cues idx
    if is_manual c.follow then some e else elim e.standby [
      | none ↦ some e
      | some sb ↦ get_elem? e.cues sb >>= λ d. some (emit (follow_armed c.number d.number) e)
    ]

  unfoldable pub activate : ℕ → F64 → CueEngine → Option CueEngine
  unfolding arm_follow
  activate idx now e = do
    t ← get_elem? e.targets idx
    let e₁ = record e {
      transition = none;
      active = some idx;
      cue_start_s = now;
      follow_fired = false;
      finished_params = merge_finished e.finished_params t.params;
    }
    sb ← standby_after e₁ idx
    c ← get_elem? e.cues idx
    arm_follow idx (emit (transition_finished c.number) (record e₁ { standby = sb }))

  abbrev pub is_cut : TransitionKind → Bool
  is_cut cut = true
  is_cut crossfade = false
  is_cut through_black = false

  abbrev media_start : Transition → F64 → TransitionKind → F64
  media_start tr now through_black = add64 now (mul64 (from_f32 tr.dur_s) (lit64 (pos 1) 2))
  media_start tr now cut = now
  media_start tr now crossfade = now

  unfoldable pub start_go : ℕ → Transition → F64 → CueEngine → Option CueEngine
  start_go to tr now e = do
    c ← get_elem? e.cues to
    let e₁ = emit (cue_started c.number) e
    if is_cut tr.kind || le32 tr.dur_s (nat32 0)
        then activate to now (record e₁ { media_start_s = now })
        else some (record e₁ {
          media_start_s = media_start tr now tr.kind;
          transition = some (record {
            to = to;
            kind = tr.kind;
            dur_s = tr.dur_s;
            curve = tr.curve;
            start_s = now;
          });
        })

  unfoldable pub snap_transition : F64 → CueEngine → Option CueEngine
  snap_transition now e = elim e.transition [
    | none ↦ some e
    | some tr ↦ activate tr.to now (record e { transition = none })
  ]

  -- `let tr = self.cues[by].transition.clone(); self.start_go(to, tr, now)`.
  unfoldable pub launch : ℕ → ℕ → F64 → CueEngine → Option CueEngine
  launch by to now e = do c ← get_elem? e.cues by; start_go to c.transition now e
