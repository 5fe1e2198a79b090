-- ===== src/Media/Ring/Timeline.antt =====
-- crates/engine/src/ring.rs and pacing.rs: the poll of the ring against what it promises, a timeline
-- of frames of which the last one that is due is shown.
use videocuelist.Prelude.{
  ℕ, zero, suc, ◌+◌, ◌≤◌, ◌≡◌, refl, sym, ap, ◌∙◌, subst, List, [], ◌∷◌, map, Option, none, some,
  length, last?, min, or_else, arith, Bool-cases, inl, inr, get_elem?, ◌>>=◌, if◌then◌else◌,
}
use videocuelist.Float.{Floats}
use videocuelist.Media.Pacing.{
  take_frame, Pacer, choose, best_from, decide, deadline_of, stream_time,
}
use videocuelist.Media.Ring.{FrameRgba, RingState, ring_capacity, first_pts, pop_many, polled, poll}

module _ ⦃F : Floats⦄ where
  open F use {F64, le64}

  -- The specification: the frames that are due, and those from the first that is not.
  abbrev pub due : F64 → List FrameRgba → List FrameRgba
  due deadline [] = []
  due deadline (f ∷ fs) =
      let rest = due deadline fs in if le64 f.pts_s deadline then f ∷ rest else []

  abbrev pub not_due : F64 → List FrameRgba → List FrameRgba
  not_due deadline [] = []
  not_due deadline (f ∷ fs) =
      let rest = not_due deadline fs in if le64 f.pts_s deadline then rest else f ∷ fs

  all_pts : List FrameRgba → List F64
  all_pts fs = map (λ f. f.pts_s) fs

  first_pts-all : (n : ℕ) (fs : List FrameRgba) → length fs ≤ n → first_pts n fs ≡ all_pts fs
  unfolding all_pts
  first_pts-all zero [] l = refl
  first_pts-all zero (f ∷ fs) l = absurd (omega arith)
  first_pts-all (suc n) [] l = refl
  first_pts-all (suc n) (f ∷ fs) l = ap (λ ps. f.pts_s ∷ ps) (first_pts-all n fs (omega arith))

  -- The index that the loop finds, counted from where it starts.
  abbrev due_index : ℕ → List FrameRgba → Option ℕ
  due_index i [] = none
  due_index i (f ∷ fs) = some (i + length fs)

  due_index-next :
      (i : ℕ) (ds : List FrameRgba) (f : FrameRgba)
      → or_else (due_index (suc i) ds) (some i) ≡ due_index i (f ∷ ds)
  due_index-next i [] f = ap some (omega arith)
  due_index-next i (d ∷ ds) f = ap some (omega arith)

  best_from-due :
      (deadline : F64) (i : ℕ) (fs : List FrameRgba)
      → best_from deadline i (all_pts fs) ≡ due_index i (due deadline fs)
  unfolding best_from all_pts
  best_from-due deadline i [] = refl
  best_from-due deadline i (f ∷ fs) = elim (Bool-cases (le64 f.pts_s deadline)) [
    | inl b ↦ rw b (
        ap (λ o. or_else o (some i)) (best_from-due deadline (suc i) fs)
        ∙ due_index-next i (due deadline fs) f)
    | inr b ↦ rw b refl
  ]

  -- The last frame of a list, or the one before it.
  abbrev last_or : Option FrameRgba → List FrameRgba → Option FrameRgba
  last_or o [] = o
  last_or o (f ∷ fs) = last_or (some f) fs

  pop_many-due :
      (deadline : F64) (o : Option FrameRgba) (fs : List FrameRgba)
      → pop_many (length (due deadline fs)) o fs
        ≡ (last_or o (due deadline fs), not_due deadline fs)
  unfolding pop_many
  pop_many-due deadline o [] = refl
  pop_many-due deadline o (f ∷ fs) = elim (Bool-cases (le64 f.pts_s deadline)) [
    | inl b ↦ rw b (pop_many-due deadline (some f) fs)
    | inr b ↦ rw b refl
  ]

  length-zero : (ds : List FrameRgba) → length ds ≡ 0 → ds ≡ []
  length-zero [] e = refl
  length-zero (d ∷ ds) e = absurd (omega arith)

  zero_suc : (n : ℕ) → 0 ≡ suc n → ⊥
  zero_suc n e = omega arith

  length-next : (ds : List FrameRgba) (n : ℕ) → suc (length ds) ≡ suc n → length ds ≡ n
  length-next ds n e = omega arith

  -- The last frame that is due stands at the index that the loop finds.
  last-due :
      (deadline : F64) (o : Option FrameRgba) (fs : List FrameRgba) (n : ℕ)
      → length (due deadline fs) ≡ suc n
      → (x : FrameRgba) × (last_or o (due deadline fs) ≡ some x)
        × (get_elem? (all_pts fs) n ≡ some x.pts_s)
  unfolding all_pts
  last-due deadline o [] n e = absurd (omega arith)
  last-due deadline o (f ∷ fs) zero e = elim (Bool-cases (le64 f.pts_s deadline)) [
    | inl b ↦ rw b (
      f,
      rw (length-zero (due deadline fs) (length-next (due deadline fs) 0 (rw b at e))) refl,
      refl,
    )
    | inr b ↦ absurd (zero_suc 0 (rw b at e))
  ]
  last-due deadline o (f ∷ fs) (suc m) e = elim (Bool-cases (le64 f.pts_s deadline)) [
    | inl b ↦
        rw b (last-due deadline (some f) fs m (length-next (due deadline fs) (suc m) (rw b at e)))
    | inr b ↦ absurd (zero_suc (suc m) (rw b at e))
  ]

  -- What is left where nothing is due.
  not_due-all :
      (deadline : F64) (fs : List FrameRgba) → due deadline fs ≡ [] → not_due deadline fs ≡ fs
  not_due-all deadline [] e = refl
  not_due-all deadline (f ∷ fs) e = elim (Bool-cases (le64 f.pts_s deadline)) [
    | inl b ↦ absurd (zero_suc _ (sym (ap length (rw b at e))))
    | inr b ↦ rw b refl
  ]

  last_or-last? :
      (o : Option FrameRgba) (f : FrameRgba) (fs : List FrameRgba)
      → last_or o (f ∷ fs) ≡ last? (f ∷ fs)
  last_or-last? o f [] = refl
  last_or-last? o f (g ∷ fs) = last_or-last? (some f) g fs

  -- The pacer after a frame is shown, if one is.
  abbrev pub served : Option FrameRgba → Pacer → Pacer
  served none p = p
  served (some f) p = record p { last_pts_s = some f.pts_s }

  -- What the timeline shows at a deadline, and what it leaves.
  abbrev pub timeline : F64 → Pacer → RingState → Option FrameRgba × Pacer × RingState
  timeline deadline p st =
      let shown = last? (due deadline st.frames) in
      (shown, served shown p, record st { frames = not_due deadline st.frames })

  -- The poll once its deadline is known.
  decided : Pacer → RingState → Option ℕ → Option (Option FrameRgba × Pacer × RingState)
  decided p st o = decide (all_pts st.frames) p o >>= λ r. some (polled st r)

  decided-some :
      (p : Pacer) (st : RingState) (i : ℕ) (pts : F64)
      → get_elem? (all_pts st.frames) i ≡ some pts
      → decided p st (some i)
        ≡ some (polled st (take_frame i i, record p { last_pts_s = some pts }))
  unfolding decided
  decided-some p st i pts h = rw h refl

  -- The frame that comes off the ring is the last one that is due.
  polled-timeline :
      (deadline : F64) (p : Pacer) (st : RingState) (d : FrameRgba) (ds : List FrameRgba)
      (x : FrameRgba)
      → due deadline st.frames ≡ d ∷ ds
      → last? (d ∷ ds) ≡ some x
      → polled st (take_frame (length ds) (length ds), record p { last_pts_s = some x.pts_s })
        ≡ timeline deadline p st
  polled-timeline deadline p st d ds x e h =
      let t : pop_many (suc (length ds)) none st.frames ≡ (some x, not_due deadline st.frames) =
        subst
          (λ l. pop_many (length l) none st.frames ≡ (last_or none l, not_due deadline st.frames)) e
          (pop_many-due deadline none st.frames)
        ∙ ap (λ o. (o, not_due deadline st.frames)) (last_or-last? none d ds ∙ h) in
      rw (t, e, h) refl

  decided-timeline :
      (deadline : F64) (p : Pacer) (st : RingState) (ds : List FrameRgba)
      → due deadline st.frames ≡ ds
      → decided p st (due_index 0 ds) ≡ some (timeline deadline p st)
  unfolding decided
  decided-timeline deadline p st [] e = rw (e, not_due-all deadline st.frames e) refl
  decided-timeline deadline p st (d ∷ ds) e =
      let k = last-due deadline none st.frames (length ds) (ap length e) in
      let x = sym (last_or-last? none d ds) ∙ subst (λ l. last_or none l ≡ some k.0) e k.1 in
      ap (λ i. decided p st (some i)) (zero_plus (length ds))
      ∙ decided-some p st (length ds) (k.0).pts_s k.2
      ∙ ap some (polled-timeline deadline p st d ds k.0 e x)
    where
      zero_plus : (n : ℕ) → 0 + n ≡ n
      zero_plus n = omega arith

  min-small : (n : ℕ) → n ≤ ring_capacity → min n ring_capacity ≡ n
  min-small n l = omega arith

  -- On a ring of at most 4 frames, a poll does not panic and does what the timeline promises: of the
  -- frames that are due at the time of the stream, with half a frame of tolerance, it shows the last
  -- and drops the ones before, it leaves the others in their order, and it shows nothing and leaves
  -- all if none is due.
  pub poll-timeline :
      (media_time_s : F64) (p : Pacer) (st : RingState)
      → length st.frames ≤ ring_capacity
      → poll media_time_s p st
        ≡ some
            (timeline (deadline_of (stream_time media_time_s p)) (stream_time media_time_s p).1 st)
  unfolding poll choose decided
  poll-timeline media_time_s p st l =
      let q = stream_time media_time_s p in
      rw
        (
          min-small (length st.frames) l,
          first_pts-all (length st.frames) st.frames (omega arith),
          best_from-due (deadline_of q) 0 st.frames,
        )
        (decided-timeline (deadline_of q) q.1 st (due (deadline_of q) st.frames) refl)
