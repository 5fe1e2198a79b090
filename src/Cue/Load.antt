-- ===== src/Cue/Load.antt =====
-- crates/cue/src/lib.rs: the loading of a cue list: `new`, `load`, `load_hot`, `resolve_scene`.
use videocuelist.Prelude.{
  ℕ, false, Option, none, some, List, [], ◌∷◌, map, if◌then◌else◌, get_elem?, ◌>>=◌,
}
use videocuelist.Core.Model.{CueNumber, Cue, SliceState, ParamMap}
use videocuelist.Float.{Floats, nat64}
use videocuelist.Cue.Types.{CueEngine, SceneTarget, SliceTarget}
use videocuelist.Cue.Search.{position, sort_cues, armed_at}
use videocuelist.Cue.Transitions.{extend, index_of, standby_after, snap_transition}

module _ ⦃F : Floats⦄ where
  open F use {F64}

  -- The parameters of all states: a later state wins.
  unfoldable pub merge_params : ParamMap → List SliceState → ParamMap
  merge_params acc [] = acc
  merge_params acc (st ∷ sts) = merge_params (extend acc st.params) sts

  abbrev pub slice_target : SliceState → SliceTarget
  slice_target st = record { slice = st.slice; content = st.content; playback = st.playback }

  unfoldable pub resolve_scene : Cue → SceneTarget
  unfolding merge_params
  resolve_scene c = record {
    per_slice = map slice_target c.states;
    params = merge_params (λ k. none) c.states;
  }

  unfoldable pub new : CueEngine
  new = record {
    cues = [];
    targets = [];
    active = none;
    standby = none;
    transition = none;
    cue_start_s = nat64 0;
    follow_fired = false;
    panic = none;
    pending = [];
    events = [];
    last_now_s = nat64 0;
    finished_params = none;
    media_start_s = nat64 0;
    speed_mult = λ k. none;
    chase = none;
  }

  unfoldable pub load : List Cue → CueEngine → CueEngine
  load cues e =
      let sorted = sort_cues cues in
      record e {
        targets = map resolve_scene sorted;
        cues = sorted;
        active = none;
        standby = position (λ c. c.armed) sorted;
        transition = none;
        cue_start_s = nat64 0;
        follow_fired = false;
        panic = none;
        pending = [];
        events = [];
        finished_params = none;
        media_start_s = nat64 0;
        speed_mult = λ k. none;
        chase = none;
      }

  -- `self.active.map(|i| self.cues[i].number)`.
  unfoldable pub number_at : CueEngine → Option ℕ → Option (Option CueNumber)
  number_at e none = some none
  number_at e (some i) = get_elem? e.cues i >>= λ c. some (some c.number)

  -- `n.and_then(|n| self.index_of(n))`.
  unfoldable pub find_number : CueEngine → Option CueNumber → Option (Option ℕ)
  find_number e none = some none
  find_number e (some n) = index_of e n

  -- `filter(|&i| self.cues[i].armed)`.
  unfoldable pub keep_armed : CueEngine → Option ℕ → Option (Option ℕ)
  keep_armed e none = some none
  keep_armed e (some i) = armed_at e.cues i >>= λ a. some (if a then some i else none)

  -- The old standby by its number, if it is there and armed.
  unfoldable pub kept_standby : CueEngine → Option CueNumber → Option (Option ℕ)
  unfolding find_number keep_armed
  kept_standby e n = find_number e n >>= keep_armed e

  -- The active cue is found at `i`: it stays, with its clocks and its follow.
  unfoldable pub place_at : CueEngine → ℕ → CueEngine → CueEngine
  place_at old i e = record e {
    active = some i;
    cue_start_s = old.cue_start_s;
    media_start_s = old.media_start_s;
    follow_fired = old.follow_fired;
  }

  -- The kept standby, or else the one that follows the active cue `i`.
  unfoldable pub settle : Option ℕ → ℕ → CueEngine → Option CueEngine
  settle (some j) i e = some (record e { standby = some j })
  settle none i e = standby_after e i >>= λ sb. some (record e { standby = sb })

  -- With no active cue: the kept standby, or else the one that `load` has set.
  unfoldable pub settle_idle : Option ℕ → CueEngine → CueEngine
  settle_idle (some j) e = record e { standby = some j }
  settle_idle none e = e

  unfoldable pub reposition_at :
      CueEngine → Option CueNumber → CueEngine → Option ℕ → Option CueEngine
  unfolding kept_standby place_at settle settle_idle
  reposition_at old standby_n e (some i) =
      kept_standby (place_at old i e) standby_n >>= λ kept. settle kept i (place_at old i e)
  reposition_at old standby_n e none =
      kept_standby e standby_n >>= λ kept. some (settle_idle kept e)

  -- The position in the new list, by the numbers of the active cue and of the standby.
  unfoldable pub reposition :
      CueEngine → Option CueNumber → Option CueNumber → CueEngine → Option CueEngine
  unfolding reposition_at
  reposition old active_n standby_n e = find_number e active_n >>= reposition_at old standby_n e

  unfoldable pub load_hot : List Cue → CueEngine → Option CueEngine
  unfolding load number_at reposition
  load_hot cues e = do
    old ← snap_transition e.last_now_s e
    active_n ← number_at old old.active
    standby_n ← number_at old old.standby
    let fresh = record (load cues old) {
      events = old.events;
      finished_params = old.finished_params;
      panic = old.panic;
      speed_mult = old.speed_mult;
      chase = old.chase;
    }
    reposition old active_n standby_n fresh
