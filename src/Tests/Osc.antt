-- ===== src/Tests/Osc.antt =====
-- crates/control-osc/src/ratelimit.rs: two calls that race.
use videocuelist.Prelude.{[], ◌∷◌, some, ◌≡◌, refl}
use videocuelist.Osc.Ratelimit.{entered, loaded, won, silent, returned, step, allow, new}
use videocuelist.Osc.Ratelimit.Races.{
  Reached, start, called, stepped, Spaced, emitting, Reached-Spaced,
}

-- The first warning is emitted at once, even at time 0.
first_call : allow 0 new ≡ (returned (some 0), record { last_emit_ms = 1; suppressed = 0 })
unfolding allow
first_call = refl

-- Both calls load before either exchanges; one wins.
race : Reached (silent ∷ won ∷ []) (record { last_emit_ms = 5; suppressed = 0 }) (5 ∷ [])
unfolding step
race = stepped [] (loaded 6 0) (won ∷ []) (
    stepped (loaded 6 0 ∷ []) (loaded 5 0) [] (
      stepped (loaded 6 0 ∷ []) (entered 5) []
        (stepped [] (entered 6) (entered 5 ∷ []) (called 6 (called 5 start)))))

-- A second later a warning is emitted again.
second :
    Reached
      (won ∷ silent ∷ won ∷ [])
      (record { last_emit_ms = 1_005; suppressed = 0 })
      (1_005 ∷ 5 ∷ [])
unfolding step
second =
    stepped [] (loaded 1_005 5) (silent ∷ won ∷ [])
      (stepped [] (entered 1_005) (silent ∷ won ∷ []) (called 1_005 race))

Reached-Spaced_example : Spaced (1_005 ∷ 5 ∷ []) × (emitting (won ∷ silent ∷ won ∷ []) ≡ 2)
Reached-Spaced_example = Reached-Spaced second
