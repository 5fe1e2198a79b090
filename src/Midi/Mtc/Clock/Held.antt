-- ===== src/Midi/Mtc/Clock/Held.antt =====
-- crates/control-midi/src/mtc.rs: the position when the signal is lost, and when it comes back.
use videocuelist.Prelude.{
  ◌≡◌, refl, sym, ap, Bool, true, false, Option, none, some, arith, unwrap_or,
}
use videocuelist.Float.{Floats}
use videocuelist.Core.Timecode.{TcRate, TcTime}
use videocuelist.Midi.Mtc.{locked}
use videocuelist.Midi.Mtc.Clock.{
  Base, MtcClock, current, current_of, position_of, in_freewheel, feed_clock,
}

module _ ⦃F : Floats⦄ where
  open F use {F64}

  -- Once it is lost, the position of a base does not depend on the instant.
  position_of-lost :
      (b : Base) (c : MtcClock) (now_s later_s : F64)
      → in_freewheel now_s c ≡ false
      → in_freewheel later_s c ≡ false
      → position_of b now_s c ≡ position_of b later_s c
  position_of-lost b c now_s later_s n l = rw (n, l) refl

  lost_flag :
      (b : Base) (c : MtcClock) (now_s : F64) (t : TcTime) (f : Bool)
      → current_of (some b) now_s c ≡ some (t, f)
      → (position_of b now_s c ≡ t) × (in_freewheel now_s c ≡ f)
  lost_flag b c now_s t f e = (ap position e, ap flag e)
    where
      position : Option (TcTime × Bool) → TcTime
      position o = let r : TcTime × Bool = unwrap_or o (t, f) in r.0

      flag : Option (TcTime × Bool) → Bool
      flag o = let r : TcTime × Bool = unwrap_or o (t, f) in r.1

  lost-current :
      (c : MtcClock) (o : Option Base) (now_s later_s : F64) (t : TcTime)
      → c.base ≡ o
      → current now_s c ≡ some (t, false)
      → in_freewheel later_s c ≡ false
      → current later_s c ≡ some (t, false)
  unfolding current
  lost-current c none now_s later_s t b e l = ground (arith, b, e)
  lost-current c (some x) now_s later_s t b e l =
      let k = lost_flag x c now_s t false (rw b at e) in
      rw (b, sym (position_of-lost x c now_s later_s k.1 l), k.0, l) refl

  -- The clocks after a hole: the rate is announced, once or again, but no position has come yet.
  pub data Relocking (c : MtcClock) (now_s : F64) : MtcClock → Type 0 where
    found_again : (rate : TcRate) → Relocking c now_s (feed_clock (locked rate) now_s c)
    announced :
        {d : MtcClock} (rate : TcRate) (at_s : F64)
        → Relocking c now_s d
        → Relocking c now_s (feed_clock (locked rate) at_s d)

  -- The clock holds a position, whatever the instant.
  abbrev HoldsAt : TcTime → MtcClock → Type 0
  HoldsAt t c = (b : Base) × (c.base ≡ some b) × (b.position ≡ t) × (b.running ≡ false)

  lost-HoldsAt :
      (c : MtcClock) (now_s : F64) (t : TcTime) (rate : TcRate)
      → current now_s c ≡ some (t, false)
      → HoldsAt t (feed_clock (locked rate) now_s c)
  unfolding feed_clock
  lost-HoldsAt c now_s t rate e =
      rw e (record { position = t; at_s = now_s; running = false }, refl, refl, refl)

  HoldsAt-current :
      (c : MtcClock) (t : TcTime) (now_s : F64)
      → HoldsAt t c
      → current now_s c ≡ some (t, in_freewheel now_s c)
  unfolding current
  HoldsAt-current c t now_s (b, e, p, r) = rw (e, r, p) refl

  relocked-HoldsAt :
      (c : MtcClock) (now_s : F64) (t : TcTime) (rate : TcRate)
      → HoldsAt t c
      → HoldsAt t (feed_clock (locked rate) now_s c)
  unfolding feed_clock
  relocked-HoldsAt c now_s t rate h = again (in_freewheel now_s c) (HoldsAt-current c t now_s h)
    where
      again :
          (f : Bool) → current now_s c ≡ some (t, f) → HoldsAt t (feed_clock (locked rate) now_s c)
      again true e = rw e h
      again false e = lost-HoldsAt c now_s t rate e

  Relocking-HoldsAt :
      {c : MtcClock} {now_s : F64} {d : MtcClock} {t : TcTime}
      → current now_s c ≡ some (t, false)
      → Relocking c now_s d
      → HoldsAt t d
  Relocking-HoldsAt {c} {now_s} {t = t} e (found_again rate) = lost-HoldsAt c now_s t rate e
  Relocking-HoldsAt {t = t} e (announced {d = d} rate at_s r) =
      relocked-HoldsAt d at_s t rate (Relocking-HoldsAt e r)

  -- A position that is lost stays: at every other instant at which it is lost it is the same, and
  -- when the signal is announced again, at whatever rate and however often, it is shown unchanged,
  -- without a jump, at every instant until a position comes.
  pub lost-stays :
      (c : MtcClock) (now_s later_s : F64) (t : TcTime)
      → current now_s c ≡ some (t, false)
      → (in_freewheel later_s c ≡ false → current later_s c ≡ some (t, false))
        × ((d : MtcClock)
            → Relocking c now_s d
            → current later_s d ≡ some (t, in_freewheel later_s d))
  lost-stays c now_s later_s t e = (
    λ l. lost-current c c.base now_s later_s t refl e l,
    λ d r. HoldsAt-current d t later_s (Relocking-HoldsAt e r),
  )
