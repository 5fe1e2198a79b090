-- ===== src/Cue/Follow.antt =====
-- crates/cue/src/lib.rs: `check_follow`, the automatic go after a wait or at the end of a media.
use videocuelist.Prelude.{
  ℕ, Bool, true, false, ◌&&◌, Option, none, some, any, if◌then◌else◌, get_elem?, ◌>>=◌,
}
use videocuelist.Core.Model.{
  Cue, Playback, EndMode, follow_next, FollowMode, manual, after_media, wait,
}
use videocuelist.Float.{Floats}
use videocuelist.Cue.Types.{CueEngine, follow_fired, follow_no_standby}
use videocuelist.Cue.Transitions.{emit, warn_event, launch}

abbrev pub is_follow_next : EndMode → Bool
is_follow_next follow_next = true
is_follow_next _ = false

module _ ⦃F : Floats⦄ where
  open F use {F64, le64, sub64, from_f32}

  -- `matches!(playback.map(|p| p.end), Some(EndMode::FollowNext))`.
  abbrev pub ends_in_follow : Option Playback → Bool
  ends_in_follow none = false
  ends_in_follow (some p) = is_follow_next p.end

  unfoldable pub due_of : FollowMode → Cue → F64 → (ℕ → Bool) → CueEngine → Bool
  due_of manual c now eof e = false
  due_of (wait s) c now eof e = le64 (from_f32 s) (sub64 now e.cue_start_s)
  due_of after_media c now eof e = any (λ st. ends_in_follow st.playback && eof st.slice) c.states

  -- The follow of the cue `ai` fires.
  unfoldable pub fire_follow : ℕ → F64 → CueEngine → Option CueEngine
  fire_follow ai now e = do
    c ← get_elem? e.cues ai
    elim e.standby [
      | none ↦ some (warn_event (follow_no_standby c.number) e)
      | some to ↦
          get_elem? e.cues to >>= λ d. launch to to now (emit (follow_fired c.number d.number) e)
    ]

  unfoldable pub check_active_follow : ℕ → F64 → (ℕ → Bool) → CueEngine → Option CueEngine
  unfolding due_of fire_follow
  check_active_follow ai now eof e = do
    c ← get_elem? e.cues ai
    if due_of c.follow c now eof e
        then fire_follow ai now (record e { follow_fired = true })
        else some e

  unfoldable pub check_follow : F64 → (ℕ → Bool) → CueEngine → Option CueEngine
  unfolding check_active_follow
  check_follow now eof e = elim e.transition [
    | some tr ↦ some e
    | none ↦
        if e.follow_fired
        then some e
        else elim e.active [ none ↦ some e | some ai ↦ check_active_follow ai now eof e ]
  ]
