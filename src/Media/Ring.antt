-- ===== src/Media/Ring.antt =====
-- crates/engine/src/ring.rs: the bounded queue of decoded frames. What a lock protects is one step.
-- RingState is the data under the lock, FrameRing has the condition variable too.
pub mod Timeline
pub mod Threads
pub mod Wakeups
use videocuelist.Prelude.{
  ℕ, zero, suc, ◌+◌, Bool, true, false, not, ◌&&◌, List, [], ◌∷◌, map, Option, none, some, length,
  leb, push_back, min, ◌>>=◌, if◌then◌else◌,
}
use videocuelist.Float.{Floats}
use videocuelist.Media.Pacing.{Decision, hold, take_frame, Pacer, choose}
use videocuelist.Media.Pool.{FrameData}

abbrev pub ring_capacity : ℕ
ring_capacity = 4

module _ ⦃F : Floats⦄ where
  open F use {F64}

  pub record FrameRgba : Type 0 where
    pub width : ℕ
    pub height : ℕ
    pub bytes : FrameData
    pub pts_s : F64

  pub record RingState : Type 0 where
    pub frames : List FrameRgba
    pub closed : Bool

  abbrev pub new_ring : RingState
  new_ring = record { frames = []; closed = false }

  -- `push` while it holds the lock: none while it has to wait.
  unfoldable pub try_push : FrameRgba → RingState → Option (Bool × RingState)
  try_push frame st =
      if leb ring_capacity (length st.frames) && not st.closed
      then none
      else if st.closed
      then some (false, st)
      else some (true, record st { frames = push_back st.frames frame })

  abbrev pub close : RingState → RingState
  close st = record st { closed = true }

  abbrev pub reopen : RingState → RingState
  reopen st = record st { closed = false }

  abbrev pub clear_ring : RingState → RingState
  clear_ring st = record st { frames = [] }

  abbrev pub is_drained : RingState → Bool
  is_drained st = elim st.frames [ [] ↦ st.closed | f ∷ fs ↦ false ]

  -- The presentation times of the first frames, as many as the array holds.
  abbrev pub first_pts : ℕ → List FrameRgba → List F64
  first_pts zero fs = []
  first_pts (suc n) [] = []
  first_pts (suc n) (f ∷ fs) = f.pts_s ∷ first_pts n fs

  -- `pop_front` so many times: the last frame that came off, and what is left.
  unfoldable pub pop_many :
      ℕ → Option FrameRgba → List FrameRgba → Option FrameRgba × List FrameRgba
  pop_many zero chosen fs = (chosen, fs)
  pop_many (suc n) chosen [] = pop_many n none []
  pop_many (suc n) chosen (f ∷ fs) = pop_many n (some f) fs

  abbrev pub taken : Decision → RingState → Option FrameRgba × RingState
  taken hold st = (none, st)
  taken (take_frame index skipped) st =
      let r = pop_many (suc index) none st.frames in (r.0, record st { frames = r.1 })

  abbrev pub polled : RingState → Decision × Pacer → Option FrameRgba × Pacer × RingState
  polled st (d, p) = let r = taken d st in (r.0, p, r.1)

  unfoldable pub poll : F64 → Pacer → RingState → Option (Option FrameRgba × Pacer × RingState)
  unfolding choose pop_many
  poll media_time_s pacer st = do
    r ← choose (first_pts (min (length st.frames) ring_capacity) st.frames) media_time_s pacer
    some (polled st r)

  -- The ring that the threads share: what the lock protects, and whether the producer sleeps on the
  -- condition variable `not_full`, which releases the lock.
  pub record FrameRing : Type 0 where
    pub state : RingState
    pub asleep : Bool

  abbrev pub new_frame_ring : FrameRing
  new_frame_ring = record { state = new_ring; asleep = false }

  -- `notify_all`. A sleeper may also wake up by itself.
  abbrev pub notify_all : FrameRing → FrameRing
  notify_all r = record r { asleep = false }

  abbrev pub push_outcome : FrameRing → Option (Bool × RingState) → Option Bool × FrameRing
  push_outcome r none = (none, record r { asleep = true })
  push_outcome r (some (ok, st)) = (some ok, record r { state = st })

  -- `push` from where it holds the lock, at its start or after a wake-up, until it returns or goes to
  -- sleep, which is none.
  unfoldable pub push_frame : FrameRgba → FrameRing → Option Bool × FrameRing
  unfolding try_push
  push_frame frame r = push_outcome r (try_push frame r.state)

  abbrev pub close_ring : FrameRing → FrameRing
  close_ring r = notify_all (record r { state = close r.state })

  abbrev pub reopen_ring : FrameRing → FrameRing
  reopen_ring r = record r { state = reopen r.state }

  abbrev pub clear_frames : FrameRing → FrameRing
  clear_frames r = notify_all (record r { state = clear_ring r.state })

  -- Only a frame that is taken wakes the producer.
  abbrev pub notified : Decision → FrameRing → FrameRing
  notified hold r = r
  notified (take_frame index skipped) r = notify_all r

  abbrev pub polled_ring : FrameRing → Decision × Pacer → Option FrameRgba × Pacer × FrameRing
  polled_ring r (d, p) =
      let q = polled r.state (d, p) in (q.0, q.1, notified d (record r { state = q.2 }))

  -- `poll`, with what it does to the condition variable.
  unfoldable pub poll_frame :
      F64 → Pacer → FrameRing → Option (Option FrameRgba × Pacer × FrameRing)
  unfolding choose pop_many
  poll_frame media_time_s pacer r = do
    d ←
        choose (first_pts (min (length r.state.frames) ring_capacity) r.state.frames) media_time_s
          pacer
    some (polled_ring r d)
