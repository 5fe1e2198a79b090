-- ===== src/Tests/Media.antt =====
-- Runs of the ring, the pacer and the pool, crates/engine/src.
use videocuelist.Prelude.{◌*◌, ℕ, ◌≡◌, ◌≤◌, refl, [], ◌∷◌, none, some, true, false, arith, length}
use videocuelist.Prelude.Int.{pos}
use videocuelist.Float.Milli.{milli}
use videocuelist.Media.Pacing.{Pacer, new_pacer, deadline_of, stream_time}
use videocuelist.Media.Ring.{
  FrameRgba, RingState, FrameRing, try_push, push_frame, poll, poll_frame, clear_frames, close_ring,
}
use videocuelist.Media.Ring.Timeline.{timeline, poll-timeline}
use videocuelist.Media.Ring.Threads.{
  Reached, made, called, stored, fell_asleep, polled_at, Reached-IsFifo, IsFifo,
}
use videocuelist.Media.Ring.Wakeups.{blocked-goes_on}
use videocuelist.Media.Pool.{new_pool, take_buffer, drop_buffer, pooled_data, from_vec}
use videocuelist.Media.Pool.Reserve.{took, dropped, AllSized, Reached-serves}

abbrev frame : ℕ → FrameRgba
frame n = record { width = 1; height = 1; bytes = from_vec (n ∷ []); pts_s = pos (n * 40) }

abbrev pacer : Pacer
pacer = record {
  frame_dur_s = pos 40;
  in_s = pos 0;
  seg_len_s = pos 1000;
  loop_offset_s = pos 0;
  last_pts_s = none;
}

fps_zero : new_pacer (pos 0) (pos 0) (pos 1000) ≡ record pacer { frame_dur_s = pos 33 }
unfolding new_pacer
fps_zero = refl

abbrev four : RingState
four = record { frames = frame 0 ∷ frame 1 ∷ frame 2 ∷ frame 3 ∷ []; closed = false }

-- At 85 ms the frame of 80 ms is shown and two are skipped.
skips :
    poll (pos 85) pacer four
    ≡ some (
      some (frame 2),
      record pacer { last_pts_s = some (pos 80) },
      record four { frames = frame 3 ∷ [] },
    )
unfolding poll
skips = refl

poll-timeline_example :
    poll (pos 85) pacer four
    ≡ some (timeline (deadline_of (stream_time (pos 85) pacer)) (stream_time (pos 85) pacer).1 four)
poll-timeline_example = poll-timeline (pos 85) pacer four (omega arith)

abbrev four_ring : FrameRing
four_ring = record { state = four; asleep = false }

abbrev full_ring : FrameRing
full_ring = record { state = four; asleep = true }

abbrev shown_ring : FrameRing
shown_ring = record { state = record four { frames = frame 3 ∷ [] }; asleep = false }

-- The poll above, by the display, while the producer sleeps.
wakes :
    poll_frame (pos 85) pacer full_ring
    ≡ some (some (frame 2), record pacer { last_pts_s = some (pos 80) }, shown_ring)
unfolding poll_frame
wakes = refl

four-Reached : Reached four_ring (some (frame 4)) (frame 0 ∷ frame 1 ∷ frame 2 ∷ frame 3 ∷ []) []
unfolding push_frame
four-Reached = called (frame 4) (
    stored (frame 3)
      (called (frame 3) (
        stored (frame 2)
          (called (frame 2) (
            stored (frame 1) (called (frame 1) (stored (frame 0) (called (frame 0) made) refl refl))
              refl refl))
          refl refl))
      refl refl)

full-Reached : Reached full_ring (some (frame 4)) (frame 0 ∷ frame 1 ∷ frame 2 ∷ frame 3 ∷ []) []
unfolding push_frame
full-Reached = fell_asleep (frame 4) four-Reached refl refl

Reached-IsFifo_example :
    IsFifo shown_ring.state (frame 0 ∷ frame 1 ∷ frame 2 ∷ frame 3 ∷ []) (frame 2 ∷ [])
Reached-IsFifo_example = Reached-IsFifo (polled_at (pos 85) pacer full-Reached wakes)

blocked-goes_on_example :
    (try_push (frame 4) four ≡ none)
    × (shown_ring.asleep ≡ false)
    × (push_frame (frame 4) shown_ring ≡ (
      some true,
      record shown_ring { state = record four { frames = frame 3 ∷ frame 4 ∷ [] } },
    ))
    × ((clear_frames full_ring).asleep ≡ false)
    × (push_frame (frame 4) (clear_frames full_ring)
        ≡ (some true, record four_ring { state = record four { frames = frame 4 ∷ [] } }))
    × ((close_ring full_ring).asleep ≡ false)
    × (push_frame (frame 4) (close_ring full_ring) ≡ (some false, close_ring full_ring))
blocked-goes_on_example =
    blocked-goes_on (frame 4) (pos 85) pacer (record pacer { last_pts_s = some (pos 80) }) (frame 2)
      shown_ring full-Reached refl wakes

Reached-serves_example :
    (length (drop_buffer (pooled_data (7 ∷ 7 ∷ [])) (new_pool 2 1)).spares ≤ 1)
    × AllSized 2 (drop_buffer (pooled_data (7 ∷ 7 ∷ [])) (new_pool 2 1)).spares
    × (length (take_buffer (drop_buffer (pooled_data (7 ∷ 7 ∷ [])) (new_pool 2 1))).0.bytes ≡ 2)
Reached-serves_example =
    Reached-serves (dropped (pooled_data (7 ∷ 7 ∷ [])) videocuelist.Media.Pool.Reserve.made)
