-- ===== src/Osc/Ratelimit/Races.antt =====
-- crates/control-osc/src/ratelimit.rs: the emissions of calls that run at once.
use videocuelist.Prelude.{
  ℕ, ◌+◌, max, ◌≤◌, ◌≡◌, refl, ◌&&◌, List, [], ◌∷◌, ◌++◌, arith, ◌==◌, none, some, length,
  Bool-cases, inl, inr, ◌⊎◌, true,
}
use videocuelist.Osc.Ratelimit.{
  WarnLimiter, Call, entered, loaded, won, silent, returned, is_open, step, window_ms, new,
}

-- The log after an access: a call that was about to exchange, and has won by it, emits at the time
-- that it was given. The second argument is the call after the access.
abbrev pub logged : Call → Call → List ℕ → List ℕ
logged (loaded now last) won log = now ∷ log
logged c c' log = log

-- The calls that are going to emit, or have returned with the number to publish.
abbrev pub emits : Call → ℕ
emits won = 1
emits (returned (some n)) = 1
emits (returned none) = 0
emits (entered now) = 0
emits (loaded now last) = 0
emits silent = 0

abbrev pub emitting : List Call → ℕ
emitting [] = 0
emitting (c ∷ cs) = emits c + emitting cs

-- The states that calls reach from a new limiter, in any order of their accesses, with the times of
-- the emissions, newest first.
pub data Reached : List Call → WarnLimiter → List ℕ → Type 0 where
  start : Reached [] new []
  called :
      {cs : List Call} {l : WarnLimiter} {log : List ℕ} (now : ℕ)
      → Reached cs l log
      → Reached (entered now ∷ cs) l log
  stepped :
      {l : WarnLimiter} {log : List ℕ} (before : List Call) (c : Call) (after : List Call)
      → Reached (before ++ (c ∷ after)) l log
      → Reached (before ++ ((step c l).0 ∷ after)) (step c l).1 (logged c (step c l).0 log)

-- Any two emissions that follow each other are a window apart.
abbrev pub Spaced : List ℕ → Type 0
Spaced [] = Unit
Spaced (t ∷ []) = Unit
Spaced (t ∷ u ∷ ts) = (u + window_ms ≤ t) × Spaced (u ∷ ts)

-- The limiter holds the time of the newest emission, or 1 if that is 0; 0 is none.
abbrev Holds : ℕ → List ℕ → Type 0
Holds last [] = last ≡ 0
Holds last (t ∷ ts) = last ≡ max t 1

-- What one access does to the emissions that are under way.
step-lem :
    (c : Call) (l : WarnLimiter) (log : List ℕ)
    → Spaced log
    → Holds l.last_emit_ms log
    → Spaced (logged c (step c l).0 log)
      × Holds (step c l).1.last_emit_ms (logged c (step c l).0 log)
      × (length (logged c (step c l).0 log) + emits c ≡ length log + emits (step c l).0)
unfolding step
step-lem (entered now) l log s h = (s, h, refl)
step-lem won l log s h = (s, h, refl)
step-lem silent l log s h = (s, h, refl)
step-lem (returned (some n)) l log s h = (s, h, refl)
step-lem (returned none) l log s h = (s, h, refl)
step-lem (loaded now last) l log s h =
    elim (Bool-cases (is_open now last && l.last_emit_ms == last)) [
      | inl b ↦ rw b (emitted log s h (is_open_lem b), refl, omega arith)
      | inr b ↦ rw b (s, h, refl)
    ]
  where
    is_open_lem :
        (is_open now last && l.last_emit_ms == last) ≡ true
        → (l.last_emit_ms ≡ 0) ⊎ (l.last_emit_ms + window_ms ≤ now)
    is_open_lem b = elim (Bool-cases (last == 0)) [
      | inl z ↦ inl (ground (arith, z, b))
      | inr z ↦ inr (ground (arith, z, b))
    ]

    emitted :
        (log : List ℕ)
        → Spaced log
        → Holds l.last_emit_ms log
        → (l.last_emit_ms ≡ 0) ⊎ (l.last_emit_ms + window_ms ≤ now)
        → Spaced (now ∷ log)
    emitted [] s h o = tt
    emitted (t ∷ ts) s h o = (ground (arith, o, h), s)

emitting-append : (cs ds : List Call) → emitting (cs ++ ds) ≡ emitting cs + emitting ds
emitting-append [] ds = omega arith
emitting-append (c ∷ cs) ds = omega (arith, emitting-append cs ds)

Reached-Holds :
    {cs : List Call} {l : WarnLimiter} {log : List ℕ}
    → Reached cs l log
    → Spaced log × Holds l.last_emit_ms log × (emitting cs ≡ length log)
Reached-Holds start = (tt, refl, refl)
Reached-Holds (called now r) = let k = Reached-Holds r in (k.0, k.1, omega (arith, k.2))
Reached-Holds (stepped {l = l} {log = log} before c after r) =
    let k = Reached-Holds r in
    let s = step-lem c l log k.0 k.1 in
    (
      s.0,
      s.1,
      omega (
        arith,
        k.2,
        s.2,
        emitting-append before (c ∷ after),
        emitting-append before ((step c l).0 ∷ after),
      ),
    )

-- However the accesses of the calls are ordered, two emissions that follow each other are at least
-- a second apart, by the times that the calls were given, and the calls that return a number to
-- publish, or are about to, are as many as the emissions.
pub Reached-Spaced :
    {cs : List Call} {l : WarnLimiter} {log : List ℕ}
    → Reached cs l log
    → Spaced log × (emitting cs ≡ length log)
Reached-Spaced r = let k = Reached-Holds r in (k.0, k.2)
