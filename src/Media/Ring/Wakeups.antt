-- ===== src/Media/Ring/Wakeups.antt =====
-- crates/engine/src/ring.rs: the producer that sleeps on the condition variable, and what wakes it.
use videocuelist.Prelude.{
  ◌≤◌, ◌<◌, ◌≡◌, refl, sym, ap, ◌∙◌, subst, List, [], ◌∷◌, Option, none, some, length, last?, min,
  push_back, push_back-last?, length-append, Bool, true, false, arith, unwrap_or, ◌⊎◌, inl, inr,
  ◌>>=◌,
}
use videocuelist.Float.{Floats}
use videocuelist.Media.Pacing.{Decision, hold, take_frame, choose, Pacer, deadline_of, stream_time}
use videocuelist.Media.Ring.{
  FrameRgba, RingState, FrameRing, ring_capacity, try_push, push_frame, push_outcome, close,
  clear_ring, close_ring, clear_frames, poll_frame, polled_ring, first_pts,
}
use videocuelist.Media.Ring.Timeline.{due, not_due, timeline, poll-timeline}
use videocuelist.Media.Ring.Threads.{
  Reached, made, called, stored, refused, fell_asleep, woke_up, polled_at, closed_now, reopened,
  cleared_now, Reached-IsFifo, split_due, poll_frame-poll, push_frame-asleep,
}

module _ ⦃F : Floats⦄ where
  open F use {F64, le64}

  shorter :
      (deadline : F64) (fs : List FrameRgba) (f : FrameRgba)
      → last? (due deadline fs) ≡ some f
      → length (not_due deadline fs) < length fs
  shorter deadline fs f e =
      let k = push_back-last? (due deadline fs) f e in
      omega (
        arith,
        ap length (split_due deadline fs),
        length-append (due deadline fs) (not_due deadline fs),
        ap length k.1,
        length-append k.0 (f ∷ []),
      )

  has_room :
      (f : FrameRgba) (st : RingState)
      → st.closed ≡ false
      → length st.frames < ring_capacity
      → try_push f st ≡ some (true, record st { frames = push_back st.frames f })
  unfolding try_push
  has_room f st c l = rw c (ground (arith, l))

  -- The ring has no room, and a push has to wait.
  abbrev IsFull : RingState → Type 0
  IsFull st = (ring_capacity ≤ length st.frames) × (st.closed ≡ false)

  blocked-IsFull : (f : FrameRgba) (st : RingState) → try_push f st ≡ none → IsFull st
  unfolding try_push
  blocked-IsFull f st e = ground arith

  IsFull-blocked : (f : FrameRgba) (st : RingState) → IsFull st → try_push f st ≡ none
  unfolding try_push
  IsFull-blocked f st k = ground (arith, k)

  returned-awake :
      (f : FrameRgba) (r r' : FrameRing) (ok : Bool)
      → push_frame f r ≡ (some ok, r')
      → r.asleep ≡ r'.asleep
  unfolding push_frame
  returned-awake f r r' ok e = of (try_push f r.state) e
    where
      of : (o : Option (Bool × RingState)) → push_outcome r o ≡ (some ok, r') → r.asleep ≡ r'.asleep
      of none e = ground (arith, e)
      of (some (b, st)) e = ap (λ x. (x.1).asleep) e

  asleep-blocked :
      (f : FrameRgba) (r r' : FrameRing) → push_frame f r ≡ (none, r') → try_push f r.state ≡ none
  unfolding push_frame
  asleep-blocked f r r' e = of (try_push f r.state) e
    where
      of : (o : Option (Bool × RingState)) → push_outcome r o ≡ (none, r') → o ≡ none
      of none e = refl
      of (some (b, st)) e = ground (arith, e)

  -- A poll that shows a frame wakes the producer; one that shows none changes nothing.
  poll_frame-wakes :
      (media_time_s : F64) (p p' : Pacer) (r r' : FrameRing) (o : Option FrameRgba)
      → poll_frame media_time_s p r ≡ some (o, p', r')
      → ((r'.asleep ≡ false) ⊎ ((o ≡ none) × (r ≡ r')))
  unfolding poll_frame choose
  poll_frame-wakes t p p' r r' o e =
      of (choose (first_pts (min (length r.state.frames) ring_capacity) r.state.frames) t p) e
    where
      ring : Option (Option FrameRgba × Pacer × FrameRing) → FrameRing
      ring none = r
      ring (some x) = x.2

      shown : Option (Option FrameRgba × Pacer × FrameRing) → Option FrameRgba
      shown none = none
      shown (some x) = x.0

      of :
          (c : Option (Decision × Pacer))
          → (c >>= λ d. some (polled_ring r d)) ≡ some (o, p', r')
          → ((r'.asleep ≡ false) ⊎ ((o ≡ none) × (r ≡ r')))
      of none e = ground (arith, e)
      of (some (hold, q)) e = inr (sym (ap shown e), ap ring e)
      of (some (take_frame i k, q)) e = inl (sym (ap (λ x. (ring x).asleep) e))

  awake : (a b : Bool) → a ≡ false → a ≡ b → b ≡ true → ⊥
  awake a b e k t = ground (arith, e, k, t)

  no_sleep : (a : Bool) → a ≡ false → a ≡ true → ⊥
  no_sleep a e k = ground (arith, e, k)

  no_frame : (f : FrameRgba) → none ≡ some f → ⊥
  no_frame f e = ground (arith, e)

  -- A producer that sleeps is in a push, and the ring is full and open.
  Reached-asleep :
      {r : FrameRing} {waiting : Option FrameRgba} {accepted shown : List FrameRgba}
      → Reached r waiting accepted shown
      → r.asleep ≡ true
      → IsFull r.state × ((f : FrameRgba) × (waiting ≡ some f))
  Reached-asleep made a = ground (arith, a)
  Reached-asleep (called f q) a = let k = Reached-asleep q a in (k.0, (f, refl))
  Reached-asleep (stored {r = r} {r' = r'} f q b e) a =
      absurd (awake r.asleep r'.asleep b (returned-awake f r r' true e) a)
  Reached-asleep (refused {r = r} {r' = r'} f q b e) a =
      absurd (awake r.asleep r'.asleep b (returned-awake f r r' false e) a)
  Reached-asleep (fell_asleep {r = r} {r' = r'} f q b e) a = (
    subst IsFull (push_frame-asleep f r r' e) (blocked-IsFull f r.state (asleep-blocked f r r' e)),
    (f, refl),
  )
  Reached-asleep (woke_up q) a = ground (arith, a)
  Reached-asleep (polled_at {r = r} {r' = r'} {waiting = waiting} {p' = p'} t p q e) a =
      elim (poll_frame-wakes t p p' r r' _ e) [
        | inl w ↦ absurd (no_sleep r'.asleep w a)
        | inr w ↦
            subst (λ x. IsFull x.state × ((f : FrameRgba) × (waiting ≡ some f))) w.1
              (Reached-asleep q (ap (λ x. x.asleep) w.1 ∙ a))
      ]
  Reached-asleep (closed_now q) a = ground (arith, a)
  Reached-asleep (reopened q) a = let k = Reached-asleep q a in absurd (no_frame (k.1).0 (k.1).1)
  Reached-asleep (cleared_now q) a = ground (arith, a)

  closed_refuses : (f : FrameRgba) (st : RingState) → try_push f (close st) ≡ some (false, close st)
  unfolding try_push
  closed_refuses f st = ground arith

  poll_room :
      {accepted shown : List FrameRgba} (f : FrameRgba) (media_time_s : F64) (p p' : Pacer)
      (g : FrameRgba) (r r' : FrameRing)
      → Reached r (some f) accepted shown
      → r.state.closed ≡ false
      → poll_frame media_time_s p r ≡ some (some g, p', r')
      → try_push f r'.state ≡ some (true, record r'.state { frames = push_back r'.state.frames f })
  poll_room f t p p' g r r' q c e =
      let w = Reached-IsFifo q in
      let st = r.state in
      let m = stream_time t p in
      let k : timeline (deadline_of m) m.1 st ≡ (some g, p', r'.state) =
        ap (λ x. unwrap_or x (some g, p', r'.state))
          (sym (poll-timeline t p st w.fits) ∙ poll_frame-poll t p p' r r' (some g) e) in
      has_room f r'.state (ap (λ x. (x.2).closed) (sym k) ∙ c) (
        subst (λ x. length x.frames < ring_capacity) (ap (λ x. x.2) k)
          (omega (arith, w.fits, shorter (deadline_of m) st.frames g (ap (λ x. x.0) k))))

  -- A producer that waits for room is not forgotten: if it sleeps on a ring that the threads reach, it
  -- has to, as a push would wait; a poll that shows a frame, a clear and a close each wake it, and then
  -- its push returns, with its frame in the ring after the poll and the clear, and refused after the
  -- close.
  pub blocked-goes_on :
      {r : FrameRing} {accepted shown : List FrameRgba} (f : FrameRgba) (media_time_s : F64)
      (p p' : Pacer) (g : FrameRgba) (r' : FrameRing)
      → Reached r (some f) accepted shown
      → r.asleep ≡ true
      → poll_frame media_time_s p r ≡ some (some g, p', r')
      → (try_push f r.state ≡ none)
        × (r'.asleep ≡ false)
        × (push_frame f r' ≡ (
          some true,
          record r' { state = record r'.state { frames = push_back r'.state.frames f } },
        ))
        × ((clear_frames r).asleep ≡ false)
        × (push_frame f (clear_frames r)
            ≡ (some true, record (clear_frames r) { state = record r.state { frames = f ∷ [] } }))
        × ((close_ring r).asleep ≡ false)
        × (push_frame f (close_ring r) ≡ (some false, close_ring r))
  unfolding push_frame
  blocked-goes_on {r = r} f t p p' g r' q a e =
      let k = (Reached-asleep q a).0 in
      (
        IsFull-blocked f r.state k,
        shown_awake (poll_frame-wakes t p p' r r' (some g) e),
        ap (push_outcome r') (poll_room f t p p' g r r' q k.1 e),
        refl,
        ap (push_outcome (clear_frames r)) (has_room f (clear_ring r.state) k.1 (omega arith)),
        refl,
        ap (push_outcome (close_ring r)) (closed_refuses f r.state),
      )
    where
      shown_awake : (r'.asleep ≡ false) ⊎ ((some g ≡ none) × (r ≡ r')) → r'.asleep ≡ false
      shown_awake (inl w) = w
      shown_awake (inr w) = ground (arith, w.0)
