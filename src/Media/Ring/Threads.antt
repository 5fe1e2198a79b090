-- ===== src/Media/Ring/Threads.antt =====
-- crates/engine/src/ring.rs: the reading thread and the display share the ring, each lock a step.
use videocuelist.Prelude.{
  ◌≤◌, ◌≡◌, refl, sym, ap, ◌∙◌, subst, List, [], ◌∷◌, ◌++◌, Option, none, some, length, last?,
  push_back, push_back-last?, length-append, Bool, true, false, arith, Bool-cases, inl, inr,
  unwrap_or, if◌then◌else◌, ◌>>=◌, min,
}
use videocuelist.Float.{Floats}
use videocuelist.Media.Pacing.{Decision, hold, take_frame, choose, Pacer, deadline_of, stream_time}
use videocuelist.Media.Ring.{
  FrameRgba, RingState, FrameRing, ring_capacity, new_frame_ring, try_push, push_frame,
  push_outcome, close_ring, reopen_ring, clear_frames, notify_all, poll, poll_frame, first_pts,
  polled, polled_ring,
}
use videocuelist.Media.Ring.Timeline.{due, not_due, timeline, poll-timeline}

-- Some of the elements of a list, in their order.
pub data Sub {A : Type 0} : List A → List A → Type 0 where
  done : Sub [] []
  skip : {xs ys : List A} (y : A) → Sub xs ys → Sub xs (y ∷ ys)
  keep : {xs ys : List A} (y : A) → Sub xs ys → Sub (y ∷ xs) (y ∷ ys)

module _ {A : Type 0} where
  none-Sub : (zs : List A) → Sub [] zs
  none-Sub [] = done
  none-Sub (z ∷ zs) = skip z (none-Sub zs)

  append-Sub : {xs ys : List A} (zs : List A) → Sub xs ys → Sub xs (ys ++ zs)
  append-Sub zs done = none-Sub zs
  append-Sub zs (skip y s) = skip y (append-Sub zs s)
  append-Sub zs (keep y s) = keep y (append-Sub zs s)

  push_back-Sub : {xs ys : List A} (z : A) → Sub xs ys → Sub (push_back xs z) (push_back ys z)
  push_back-Sub z done = keep z done
  push_back-Sub z (skip y s) = skip y (push_back-Sub z s)
  push_back-Sub z (keep y s) = keep y (push_back-Sub z s)

  append_assoc : (xs ys zs : List A) → (xs ++ ys) ++ zs ≡ xs ++ (ys ++ zs)
  append_assoc [] ys zs = refl
  append_assoc (x ∷ xs) ys zs = ap (λ l. x ∷ l) (append_assoc xs ys zs)

  append_nil : (xs : List A) → xs ++ [] ≡ xs
  append_nil [] = refl
  append_nil (x ∷ xs) = ap (λ l. x ∷ l) (append_nil xs)

module _ ⦃F : Floats⦄ where
  open F use {F64, le64}

  -- What the display was given after what it was given before.
  abbrev pub shown_next : List FrameRgba → Option FrameRgba → List FrameRgba
  shown_next shown none = shown
  shown_next shown (some f) = push_back shown f

  -- The rings that the threads reach, with the frame for which the producer is in `push`, the frames
  -- that were accepted and those that were shown. A producer that sleeps takes no step but to wake up,
  -- by a notification or by itself; the ring is opened again between two producers.
  pub data Reached : FrameRing → Option FrameRgba → List FrameRgba → List FrameRgba → Type 0 where
    made : Reached new_frame_ring none [] []
    called :
        {r : FrameRing} {accepted shown : List FrameRgba} (f : FrameRgba)
        → Reached r none accepted shown
        → Reached r (some f) accepted shown
    stored :
        {r r' : FrameRing} {accepted shown : List FrameRgba} (f : FrameRgba)
        → Reached r (some f) accepted shown
        → r.asleep ≡ false
        → push_frame f r ≡ (some true, r')
        → Reached r' none (push_back accepted f) shown
    refused :
        {r r' : FrameRing} {accepted shown : List FrameRgba} (f : FrameRgba)
        → Reached r (some f) accepted shown
        → r.asleep ≡ false
        → push_frame f r ≡ (some false, r')
        → Reached r' none accepted shown
    fell_asleep :
        {r r' : FrameRing} {accepted shown : List FrameRgba} (f : FrameRgba)
        → Reached r (some f) accepted shown
        → r.asleep ≡ false
        → push_frame f r ≡ (none, r')
        → Reached r' (some f) accepted shown
    woke_up :
        {r : FrameRing} {waiting : Option FrameRgba} {accepted shown : List FrameRgba}
        → Reached r waiting accepted shown
        → Reached (notify_all r) waiting accepted shown
    polled_at :
        {r r' : FrameRing} {waiting o : Option FrameRgba} {accepted shown : List FrameRgba}
        {p' : Pacer} (media_time_s : F64) (p : Pacer)
        → Reached r waiting accepted shown
        → poll_frame media_time_s p r ≡ some (o, p', r')
        → Reached r' waiting accepted (shown_next shown o)
    closed_now :
        {r : FrameRing} {waiting : Option FrameRgba} {accepted shown : List FrameRgba}
        → Reached r waiting accepted shown
        → Reached (close_ring r) waiting accepted shown
    reopened :
        {r : FrameRing} {accepted shown : List FrameRgba}
        → Reached r none accepted shown
        → Reached (reopen_ring r) none accepted shown
    cleared_now :
        {r : FrameRing} {waiting : Option FrameRgba} {accepted shown : List FrameRgba}
        → Reached r waiting accepted shown
        → Reached (clear_frames r) waiting accepted shown

  -- The frames that were accepted are those that have left the ring and then those in it, the shown
  -- ones are among those that have left, in their order, and the ring is not above its capacity.
  pub record IsFifo (st : RingState) (accepted shown : List FrameRgba) : Type 0 where
    pub gone : List FrameRgba
    pub in_order : accepted ≡ gone ++ st.frames
    pub shown_once : Sub shown gone
    pub fits : length st.frames ≤ ring_capacity

  push-lem :
      (f : FrameRgba) (st st' : RingState) (ok : Bool)
      → length st.frames ≤ ring_capacity
      → try_push f st ≡ some (ok, st')
      → (length st'.frames ≤ ring_capacity)
        × (st'.frames ≡ (if ok then push_back st.frames f else st.frames))
  unfolding try_push
  push-lem f st st' ok l e = ground (arith, length-append st.frames (f ∷ []))

  pub split_due :
      (deadline : F64) (fs : List FrameRgba) → fs ≡ due deadline fs ++ not_due deadline fs
  split_due deadline [] = refl
  split_due deadline (f ∷ fs) = elim (Bool-cases (le64 f.pts_s deadline)) [
    | inl b ↦ rw b (ap (λ l. f ∷ l) (split_due deadline fs))
    | inr b ↦ rw b refl
  ]

  shown-Sub :
      (shown gone ds : List FrameRgba) (o : Option FrameRgba)
      → last? ds ≡ o
      → Sub shown gone
      → Sub (shown_next shown o) (gone ++ ds)
  shown-Sub shown gone ds none e s = append-Sub ds s
  shown-Sub shown gone ds (some f) e s =
      let k = push_back-last? ds f e in
      subst (λ l. Sub (push_back shown f) (gone ++ l)) (sym k.1)
        (subst (Sub (push_back shown f)) (append_assoc gone k.0 (f ∷ []))
          (push_back-Sub f (append-Sub k.0 s)))

  timeline-IsFifo :
      (deadline : F64) (p : Pacer) (st : RingState) (accepted shown : List FrameRgba)
      → IsFifo st accepted shown
      → IsFifo (timeline deadline p st).2 accepted (shown_next shown (timeline deadline p st).0)
  timeline-IsFifo deadline p st accepted shown w = record {
    gone = w.gone ++ due deadline st.frames;
    in_order =
        w.in_order
        ∙ ap (λ l. w.gone ++ l) (split_due deadline st.frames)
        ∙ sym (append_assoc w.gone (due deadline st.frames) (not_due deadline st.frames));
    shown_once = shown-Sub shown w.gone (due deadline st.frames) _ refl w.shown_once;
    fits = omega (
      arith,
      w.fits,
      ap length (split_due deadline st.frames),
      length-append (due deadline st.frames) (not_due deadline st.frames),
    );
  }

  poll-IsFifo :
      (media_time_s : F64) (p p' : Pacer) (st st' : RingState) (o : Option FrameRgba)
      (accepted shown : List FrameRgba)
      → poll media_time_s p st ≡ some (o, p', st')
      → IsFifo st accepted shown
      → IsFifo st' accepted (shown_next shown o)
  poll-IsFifo media_time_s p p' st st' o accepted shown e w =
      let q = stream_time media_time_s p in
      let r : timeline (deadline_of q) q.1 st ≡ (o, p', st') =
        ap (λ x. unwrap_or x (o, p', st')) (sym (poll-timeline media_time_s p st w.fits) ∙ e) in
      subst (λ x. IsFifo x.2 accepted (shown_next shown x.0)) r
        (timeline-IsFifo (deadline_of q) q.1 st accepted shown w)

  -- What a push does, if it returns.
  push_frame-try_push :
      (f : FrameRgba) (r r' : FrameRing) (ok : Bool)
      → push_frame f r ≡ (some ok, r')
      → try_push f r.state ≡ some (ok, r'.state)
  unfolding push_frame
  push_frame-try_push f r r' ok e = of (try_push f r.state) e
    where
      result : Option Bool × FrameRing → Option (Bool × RingState)
      result x = elim x.0 [ none ↦ none | some b ↦ some (b, (x.1).state) ]

      of :
          (o : Option (Bool × RingState))
          → push_outcome r o ≡ (some ok, r')
          → o ≡ some (ok, r'.state)
      of none e = ap result e
      of (some (b, st)) e = ap result e

  -- A producer that goes to sleep leaves the data as they are.
  pub push_frame-asleep :
      (f : FrameRgba) (r r' : FrameRing) → push_frame f r ≡ (none, r') → r.state ≡ r'.state
  unfolding push_frame
  push_frame-asleep f r r' e = of (try_push f r.state) e
    where
      of : (o : Option (Bool × RingState)) → push_outcome r o ≡ (none, r') → r.state ≡ r'.state
      of none e = ap (λ x. (x.1).state) e
      of (some (b, st)) e = ground (arith, e)

  -- The poll of the shared ring is that of its data.
  pub poll_frame-poll :
      (media_time_s : F64) (p p' : Pacer) (r r' : FrameRing) (o : Option FrameRgba)
      → poll_frame media_time_s p r ≡ some (o, p', r')
      → poll media_time_s p r.state ≡ some (o, p', r'.state)
  unfolding poll_frame poll choose
  poll_frame-poll t p p' r r' o e = sym (of (choose_from r.state)) ∙ ap data_of e
    where
      choose_from : RingState → Option (Decision × Pacer)
      choose_from st = choose (first_pts (min (length st.frames) ring_capacity) st.frames) t p

      data_of :
          Option (Option FrameRgba × Pacer × FrameRing)
          → Option (Option FrameRgba × Pacer × RingState)
      data_of none = none
      data_of (some (o, p, r)) = some (o, p, r.state)

      of :
          (c : Option (Decision × Pacer))
          → data_of (c >>= λ d. some (polled_ring r d)) ≡ (c >>= λ d. some (polled r.state d))
      of none = refl
      of (some (hold, p)) = refl
      of (some (take_frame i k, p)) = refl

  -- However the threads interleave, the ring is a queue of at most 4 frames: the accepted frames
  -- are those that have left it and then those in it, and the display was given some of those that
  -- have left, in their order, each at most once.
  pub Reached-IsFifo :
      {r : FrameRing} {waiting : Option FrameRgba} {accepted shown : List FrameRgba}
      → Reached r waiting accepted shown
      → IsFifo r.state accepted shown
  Reached-IsFifo made = record { gone = []; in_order = refl; shown_once = done; fits = omega arith }
  Reached-IsFifo (called f q) = Reached-IsFifo q
  Reached-IsFifo (stored {r = r} {r' = r'} f q a e) =
      let w = Reached-IsFifo q in
      let k = push-lem f r.state r'.state true w.fits (push_frame-try_push f r r' true e) in
      record {
        gone = w.gone;
        in_order =
            ap (λ l. push_back l f) w.in_order
            ∙ append_assoc w.gone r.state.frames (f ∷ [])
            ∙ ap (λ l. w.gone ++ l) (sym k.1);
        shown_once = w.shown_once;
        fits = k.0;
      }
  Reached-IsFifo (refused {r = r} {r' = r'} f q a e) =
      let w = Reached-IsFifo q in
      let k = push-lem f r.state r'.state false w.fits (push_frame-try_push f r r' false e) in
      record {
        gone = w.gone;
        in_order = w.in_order ∙ ap (λ l. w.gone ++ l) (sym k.1);
        shown_once = w.shown_once;
        fits = k.0;
      }
  Reached-IsFifo (fell_asleep {r = r} {r' = r'} {accepted = accepted} {shown = shown} f q a e) =
      subst (λ st. IsFifo st accepted shown) (push_frame-asleep f r r' e) (Reached-IsFifo q)
  Reached-IsFifo (woke_up q) = Reached-IsFifo q
  Reached-IsFifo
        (polled_at {r = r} {r' = r'} {accepted = accepted} {shown = shown} {p' = p'} t p q e) =
      poll-IsFifo t p p' r.state r'.state _ accepted shown (poll_frame-poll t p p' r r' _ e)
        (Reached-IsFifo q)
  Reached-IsFifo (closed_now q) =
      let w = Reached-IsFifo q in
      record { gone = w.gone; in_order = w.in_order; shown_once = w.shown_once; fits = w.fits }
  Reached-IsFifo (reopened q) =
      let w = Reached-IsFifo q in
      record { gone = w.gone; in_order = w.in_order; shown_once = w.shown_once; fits = w.fits }
  Reached-IsFifo (cleared_now {r = r} q) =
      let w = Reached-IsFifo q in
      record {
        gone = w.gone ++ r.state.frames;
        in_order = w.in_order ∙ sym (append_nil (w.gone ++ r.state.frames));
        shown_once = append-Sub r.state.frames w.shown_once;
        fits = omega arith;
      }
