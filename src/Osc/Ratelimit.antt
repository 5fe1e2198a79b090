-- ===== src/Osc/Ratelimit.antt =====
-- crates/control-osc/src/ratelimit.rs: the limiter of warnings, shared by threads. A call of `allow`
-- is the sequence of its accesses to the two atomics; any other call may run between two of them.
pub mod Races
use videocuelist.Prelude.{
  ℕ, ◌+◌, ◌-◌, ◌%◌, ◌^◌, max, Bool, true, false, ◌&&◌, ◌||◌, List, [], ◌∷◌, Option, none, some, leb,
  ◌==◌, if◌then◌else◌,
}

abbrev pub window_ms : ℕ
window_ms = 1_000

pub record WarnLimiter : Type 0 where
  pub last_emit_ms : ℕ
  pub suppressed : ℕ

abbrev pub new : WarnLimiter
new = record { last_emit_ms = 0; suppressed = 0 }

-- Where a call stands: before its load, before its exchange with the value that it has loaded,
-- before the swap of the count, before the increment of the count, or returned.
pub data Call : Type 0 where
  entered : (now : ℕ) → Call
  loaded : (now last : ℕ) → Call
  won : Call
  silent : Call
  returned : Option ℕ → Call

-- The window since the emission that was loaded is over, or there was none.
abbrev pub is_open : ℕ → ℕ → Bool
is_open now last = last == 0 || leb window_ms (now - last)

-- One access of a call, and what it leaves: the call and the limiter. A test without access goes
-- with the exchange that it guards.
unfoldable pub step : Call → WarnLimiter → Call × WarnLimiter
step (entered now) l = (loaded now l.last_emit_ms, l)
step (loaded now last) l =
    if is_open now last && l.last_emit_ms == last
    then (won, record l { last_emit_ms = max now 1 })
    else (silent, l)
step won l = (returned (some l.suppressed), record l { suppressed = 0 })
step silent l = (returned none, record l { suppressed = (l.suppressed + 1) % 2 ^ 64 })
step (returned r) l = (returned r, l)

-- A call that nothing interrupts.
unfoldable pub allow : ℕ → WarnLimiter → Call × WarnLimiter
unfolding step
allow now l = let a = step (entered now) l in let b = step a.0 a.1 in step b.0 b.1
