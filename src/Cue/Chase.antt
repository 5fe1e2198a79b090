-- ===== src/Cue/Chase.antt =====
-- crates/cue/src/lib.rs: the timecode chase, `check_chase`, `chase_triggers`, `chase_advance` and
-- `chase_seek`.
use videocuelist.Prelude.{
  ℕ, suc, ◌+◌, ◌-◌, ◌%◌, ◌^◌, Bool, true, false, ◌&&◌, ◌||◌, Option, none, some, List, [], ◌∷◌, ltb,
  leb, ◌==◌, if◌then◌else◌, head?, last?, ◌>>=◌,
}
use videocuelist.Core.Timecode.{TcRate, fps24, fps25, fps2997_df, fps30, nominal_fps, to_frames}
use videocuelist.Core.Model.{Cue, default_transition}
use videocuelist.Float.{Floats, nat64}
use videocuelist.Cue.Types.{CueEngine, TcState, ChaseState}
use videocuelist.Cue.Transitions.{snap_transition, start_go, launch}

-- A trigger: its position in frames, and the index of its cue.
abbrev pub Trigger : Type 0
Trigger = ℕ × ℕ

-- `sort_unstable` on pairs. The pairs differ in their index, so every sort gives this list.
unfoldable pub insert_trigger : Trigger → List Trigger → List Trigger
insert_trigger t [] = t ∷ []
insert_trigger (f, i) ((g, j) ∷ ts) =
    if ltb f g || (f == g && leb i j)
    then (f, i) ∷ (g, j) ∷ ts
    else (g, j) ∷ insert_trigger (f, i) ts

unfoldable pub sort_triggers : List Trigger → List Trigger
unfolding insert_trigger
sort_triggers [] = []
sort_triggers (t ∷ ts) = insert_trigger t (sort_triggers ts)

-- `filter(|(f, _)| *f > from && *f <= to).map(|(_, i)| i)`.
unfoldable pub fired_between : ℕ → ℕ → List Trigger → List ℕ
fired_between from to [] = []
fired_between from to ((f, i) ∷ ts) =
    let rest = fired_between from to ts in if ltb from f && leb f to then i ∷ rest else rest

-- `take_while(|(f, _)| *f <= frames)`.
unfoldable pub take_until : ℕ → List Trigger → List Trigger
take_until frames [] = []
take_until frames ((f, i) ∷ ts) = if leb f frames then (f, i) ∷ take_until frames ts else []

abbrev pub cue_of : Option Trigger → Option ℕ
cue_of none = none
cue_of (some (f, i)) = some i

-- The cue of the last trigger at or before the position.
unfoldable pub seek_target : ℕ → List Trigger → Option ℕ
unfolding take_until
seek_target frames ts = cue_of (last? (take_until frames ts))

abbrev pub rate_eq : TcRate → TcRate → Bool
rate_eq fps24 fps24 = true
rate_eq fps25 fps25 = true
rate_eq fps2997_df fps2997_df = true
rate_eq fps30 fps30 = true
rate_eq _ _ = false

abbrev pub u64_mod : ℕ
u64_mod = 2 ^ 64

module _ ⦃F : Floats⦄ where
  open F use {F64, le64, add64, sub64, mul64, div64, min64, max64, round64, from_u32, as_u64}

  -- `TcRate::fps`.
  unfoldable pub fps : TcRate → F64
  fps fps2997_df = div64 (nat64 30_000) (nat64 1_001)
  fps other = from_u32 (nominal_fps other)

  abbrev pub tc_freewheel_s : F64
  tc_freewheel_s = nat64 2

  abbrev pub tc_seek_fwd_s : F64
  tc_seek_fwd_s = nat64 1

  -- The armed cues with a timecode trigger, from index `i` on.
  unfoldable pub triggers_from : TcRate → ℕ → List Cue → List Trigger
  triggers_from rate i [] = []
  triggers_from rate i (c ∷ cs) =
      let rest = triggers_from rate (suc i) cs in
      if c.armed
      then elim c.triggers.timecode [ none ↦ rest | some t ↦ (to_frames t rate, i) ∷ rest ]
      else rest

  unfoldable pub chase_triggers : CueEngine → TcRate → List Trigger
  unfolding triggers_from sort_triggers
  chase_triggers e rate = sort_triggers (triggers_from rate 0 e.cues)

  -- All cues but the last are crossed by a cut; the last plays with its own transition.
  unfoldable pub cross : List ℕ → F64 → CueEngine → Option CueEngine
  cross [] now e = some e
  cross (last ∷ []) now e = do e₁ ← snap_transition now e; launch last last now e₁
  cross (i ∷ j ∷ rest) now e = do
    e₁ ← snap_transition now e
    e₂ ← start_go i default_transition now e₁
    cross (j ∷ rest) now e₂

  unfoldable pub chase_advance : ℕ → ℕ → TcRate → F64 → CueEngine → Option CueEngine
  unfolding cross fired_between
  chase_advance from to rate now e = cross (fired_between from to (chase_triggers e rate)) now e

  abbrev pub is_active : CueEngine → ℕ → Bool
  is_active e i = elim e.active [ none ↦ false | some a ↦ a == i ]

  -- The seek to the cue `i`: nothing if it is at the programme already, a snap if the transition is
  -- on its way there.
  unfoldable pub seek_to : ℕ → F64 → CueEngine → Option CueEngine
  seek_to i now e = elim e.transition [
    | none ↦ if is_active e i then some e else launch i i now e
    | some tr ↦
        if tr.to == i then snap_transition now e else (snap_transition now e >>= launch i i now)
  ]

  -- No trigger before the position: nothing at the programme, the first trigger on standby.
  unfoldable pub seek_black : List Trigger → CueEngine → CueEngine
  seek_black ts e = elim e.active [
    | none ↦ elim e.transition [ none ↦ e | some tr ↦ blackened ]
    | some a ↦ blackened
  ]
    where
      blackened : CueEngine
      blackened = record e {
        transition = none;
        active = none;
        follow_fired = false;
        standby = cue_of (head? ts);
      }

  -- With no trigger in the list the chase does nothing.
  unfoldable pub seek_among : ℕ → List Trigger → F64 → CueEngine → Option CueEngine
  unfolding seek_to seek_black seek_target
  seek_among frames [] now e = some e
  seek_among frames (t ∷ ts) now e = elim (seek_target frames (t ∷ ts)) [
    | some i ↦ seek_to i now e
    | none ↦ some (seek_black (t ∷ ts) e)
  ]

  unfoldable pub chase_seek : ℕ → TcRate → F64 → CueEngine → Option CueEngine
  unfolding seek_among chase_triggers
  chase_seek frames rate now e = seek_among frames (chase_triggers e rate) now e

  -- The position has moved forward by at most `TC_SEEK_FWD_S`.
  unfoldable pub is_advance : ℕ → ℕ → TcRate → Bool
  is_advance last frames rate =
      let fwd_max = as_u64 (mul64 tc_seek_fwd_s (from_u32 (nominal_fps rate))) in
      ltb last frames && leb (frames - last) fwd_max

  -- A locked signal whose last position is known at the same rate.
  unfoldable pub follow_signal : ℕ → ℕ → TcRate → F64 → CueEngine → Option CueEngine
  follow_signal last frames rate now e =
      if is_advance last frames rate
      then chase_advance last frames rate now e
      else (if frames == last then some e else chase_seek frames rate now e)

  unfoldable pub chase_locked : TcState → F64 → CueEngine → Option CueEngine
  unfolding follow_signal
  chase_locked st now e = do
    let frames = to_frames st.time st.rate
    let e₀ = record e { chase = none }
    e₁ ← elim e.chase [
      | none ↦ chase_seek frames st.rate now e₀
      | some cs ↦
          if cs.locked && rate_eq cs.rate st.rate
          then follow_signal cs.frames frames st.rate now e₀
          else chase_seek frames st.rate now e₀
    ]
    some (record e₁ {
      chase = some (record { frames = frames; rate = st.rate; locked = true; freewheel = none });
    })

  -- The position estimated during the freewheel.
  unfoldable pub estimate : F64 → ℕ → TcRate → ℕ
  estimate elapsed f₀ rate =
      (f₀ + as_u64 (round64 (mul64 (min64 elapsed tc_freewheel_s) (fps rate)))) % u64_mod

  -- The estimate fires the triggers that it passes; `wheel` is what is left of the freewheel.
  unfoldable pub freewheel_to :
      ChaseState → ℕ → Option (F64 × ℕ) → F64 → CueEngine → Option CueEngine
  freewheel_to cs est wheel now e = do
    e₁ ← if ltb cs.frames est then chase_advance cs.frames est cs.rate now e else some e
    let reached = if ltb cs.frames est then est else cs.frames
    some (record e₁ { chase = some (record cs { frames = reached; freewheel = wheel }) })

  -- The freewheel that began at `t₀` on the frame `f₀`.
  unfoldable pub freewheel_from : ChaseState → F64 → ℕ → F64 → CueEngine → Option CueEngine
  freewheel_from cs t₀ f₀ now e =
      let elapsed = max64 (sub64 now t₀) (nat64 0) in
      let wheel : Option (F64 × ℕ) = if le64 tc_freewheel_s elapsed then none else cs.freewheel in
      freewheel_to cs (estimate elapsed f₀ cs.rate) wheel now e

  abbrev pub lose_lock : ChaseState → F64 → ChaseState
  lose_lock cs now =
      if cs.locked then record cs { locked = false; freewheel = some (now, cs.frames) } else cs

  unfoldable pub chase_lost : ChaseState → F64 → CueEngine → Option CueEngine
  unfolding freewheel_from
  chase_lost cs₀ now e =
      let cs = lose_lock cs₀ now in
      elim cs.freewheel [
        | none ↦ some (record e { chase = some cs })
        | some (t₀, f₀) ↦ freewheel_from cs t₀ f₀ now (record e { chase = none })
      ]

  unfoldable pub check_chase : F64 → Option TcState → CueEngine → Option CueEngine
  unfolding chase_locked chase_lost
  check_chase now none e = some (record e { chase = none })
  check_chase now (some st) e =
      if st.locked
      then chase_locked st now e
      else elim e.chase [ none ↦ some e | some cs ↦ chase_lost cs now e ]
