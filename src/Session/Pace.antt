-- ===== src/Session/Pace.antt =====
-- crates/app/src/session.rs: the pace of the GOs that reach the cue engine, whatever sends them.
use videocuelist.Prelude.{
  ℕ, ◌+◌, ◌≤◌, ◌≡◌, refl, true, false, List, [], ◌∷◌, Option, none, some, length, ltb,
  length-append, arith, if◌then◌else◌, ◌-◌, ◌&&◌, zero, suc, inl, inr, ◌⊎◌, Bool-cases,
}
use videocuelist.Float.{Floats}
use videocuelist.Core.Event.{StateEvent}
use videocuelist.Core.Show.{Show}
use videocuelist.Cue.Types.{CueEngine, go}
use videocuelist.Cue.Commands.{latch}
use videocuelist.Session.{
  Session, from_millis, one_second, within, command_go, too_soon, min_go_interval_ms,
}

-- The GOs, newest first, each with the least interval in nanoseconds that was set when it came: each
-- came at least its interval after the one before it.
abbrev pub Paced : List (ℕ × ℕ) → Type 0
Paced [] = Unit
Paced (g ∷ []) = Unit
Paced ((t, min) ∷ (u, m) ∷ gs) = ((min ≡ 0) ⊎ (u + min ≤ t)) × Paced ((u, m) ∷ gs)

-- Warnings, newest first, a second apart.
abbrev pub Rare : List ℕ → Type 0
Rare [] = Unit
Rare (t ∷ []) = Unit
Rare (t ∷ u ∷ ts) = (u + one_second ≤ t) × Rare (u ∷ ts)

module _ ⦃F : Floats⦄ where
  -- A GO counts if the engine has one command more than before.
  abbrev pub counted : ℕ → Session → Session → List (ℕ × ℕ) → List (ℕ × ℕ)
  counted now s s' gos =
      if ltb (length (s.cue).pending) (length (s'.cue).pending)
      then (now, from_millis (min_go_interval_ms s)) ∷ gos
      else gos

  abbrev pub warned : ℕ → List StateEvent → List ℕ → List ℕ
  warned now [] ws = ws
  warned now (e ∷ es) ws = now ∷ ws

  -- The sessions that are reached, with the GOs that the engine got and the times of the warnings.
  -- The engine ticks and the show changes as they will.
  pub data Reached : Session → List (ℕ × ℕ) → List ℕ → Type 0 where
    opened :
        (show : Show) (cue : CueEngine)
        → Reached (record { show = show; cue = cue; last_go = none; last_go_warn = none }) [] []
    asked :
        {s : Session} {gos : List (ℕ × ℕ)} {ws : List ℕ} (now : ℕ)
        → Reached s gos ws
        → Reached
            (command_go now s).1
            (counted now s (command_go now s).1 gos)
            (warned now (command_go now s).0 ws)
    moved_on :
        {s : Session} {gos : List (ℕ × ℕ)} {ws : List ℕ} (show : Show) (cue : CueEngine)
        → Reached s gos ws
        → Reached (record s { show = show; cue = cue }) gos ws

  newest : List (ℕ × ℕ) → Option ℕ
  newest [] = none
  newest ((t, m) ∷ gos) = some t

  latest : List ℕ → Option ℕ
  latest [] = none
  latest (t ∷ ts) = some t

  newest_now : (now min : ℕ) (gos : List (ℕ × ℕ)) → some now ≡ newest ((now, min) ∷ gos)
  unfolding newest
  newest_now now min gos = refl

  latest_now : (now : ℕ) (ws : List ℕ) → some now ≡ latest (now ∷ ws)
  unfolding latest
  latest_now now ws = refl

  abbrev Keeps : Session → List (ℕ × ℕ) → List ℕ → Type 0
  Keeps s gos ws = (Paced gos × (s.last_go ≡ newest gos)) × (Rare ws × (s.last_go_warn ≡ latest ws))

  next-Paced :
      (min now : ℕ) (o : Option ℕ) (gos : List (ℕ × ℕ))
      → Paced gos
      → o ≡ newest gos
      → (ltb 0 min && within min now o) ≡ false
      → Paced ((now, min) ∷ gos)
  unfolding newest
  next-Paced min now o [] p e b = tt
  next-Paced min now o ((u, m) ∷ gos) p e b = (apart min (rw e at b), p)
    where
      apart : (k : ℕ) → (ltb 0 k && ltb (now - u) k) ≡ false → (k ≡ 0) ⊎ (u + k ≤ now)
      apart zero b = inl refl
      apart (suc k) b = inr (ground (arith, b))

  next-Rare :
      (now : ℕ) (o : Option ℕ) (ws : List ℕ)
      → Rare ws
      → o ≡ latest ws
      → within one_second now o ≡ false
      → Rare (now ∷ ws)
  unfolding latest
  next-Rare now o [] r e b = tt
  next-Rare now o (t ∷ ts) r e b = (apart (rw e at b), r)
    where
      apart : ltb (now - t) one_second ≡ false → t + one_second ≤ now
      apart b = ground (arith, b)

  same_length : (n : ℕ) → ltb n n ≡ false
  same_length n = ground arith

  one_more : (s : Session) → ltb (length (s.cue).pending) (length (latch go s.cue).pending) ≡ true
  unfolding latch
  one_more s = ground (arith, length-append (s.cue).pending (go ∷ []))

  asked-Keeps :
      (now : ℕ) (s : Session) (gos : List (ℕ × ℕ)) (ws : List ℕ)
      → Keeps s gos ws
      → Keeps
          (command_go now s).1
          (counted now s (command_go now s).1 gos)
          (warned now (command_go now s).0 ws)
  unfolding command_go
  asked-Keeps now s gos ws k = elim (Bool-cases (too_soon now s)) [
    | inl b ↦ elim (Bool-cases (within one_second now s.last_go_warn)) [
      | inl w ↦ rw (b, w, same_length (length (s.cue).pending)) k
      | inr w ↦
          rw (b, w, same_length (length (s.cue).pending))
            (k.0, (next-Rare now s.last_go_warn ws k.1.0 k.1.1 w, latest_now now ws))
    ]
    | inr b ↦
        rw (b, one_more s)
          (
            (
              next-Paced (from_millis (min_go_interval_ms s)) now s.last_go gos k.0.0 k.0.1 b,
              newest_now now _ gos,
            ),
            k.1,
          )
  ]

  -- Whatever sends the GOs and whenever they come, two GOs that reach the cue engine one after the
  -- other are apart by the least interval that is set when the second comes, if one is set, and the
  -- warnings about refused ones are a second apart.
  pub Reached-Paced :
      {s : Session} {gos : List (ℕ × ℕ)} {ws : List ℕ} → Reached s gos ws → Paced gos × Rare ws
  unfolding newest latest
  Reached-Paced r = let k = keeps r in (k.0.0, k.1.0)
    where
      keeps : {s : Session} {gos : List (ℕ × ℕ)} {ws : List ℕ} → Reached s gos ws → Keeps s gos ws
      keeps (opened show cue) = ((tt, refl), (tt, refl))
      keeps (asked {s = s} {gos = gos} {ws = ws} now r) = asked-Keeps now s gos ws (keeps r)
      keeps (moved_on show cue r) = keeps r
