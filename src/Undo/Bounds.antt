-- ===== src/Undo/Bounds.antt =====
-- crates/app/src/undo.rs: the size of the histories that the operations reach.
use videocuelist.Prelude.{
  length-append, pop_back-none, suc, Option-cases, ℕ, ◌+◌, ◌≤◌, ◌<◌, ◌≡◌, ◌⊎◌, inl, inr, refl, List,
  [], ◌∷◌, Option, some, length, push_back, pop_back, arith,
}
use videocuelist.Undo.{
  total_bytes, make_room, Entry, UndoStack, undo_cap, undo_byte_cap, sum_bytes, evict,
  enforce_byte_cap, estimate_bytes, entry_of, push, undo, redo, new, clear,
}

module _ {Show : Type 0} where
  evict-length : (r : ℕ) (es : List (Entry Show)) → length (evict r es) ≤ length es
  unfolding evict
  evict-length r [] = ground arith
  evict-length r (e ∷ []) = ground arith
  evict-length r (e ∷ e' ∷ es) = ground (arith, evict-length r (e' ∷ es))

  -- The loop ends under the cap, or with a single entry.
  evict-fits :
      (r : ℕ) (es : List (Entry Show))
      → (sum_bytes (evict r es) + r ≤ undo_byte_cap) ⊎ (length (evict r es) ≤ 1)
  unfolding evict
  evict-fits r [] = inr (omega arith)
  evict-fits r (e ∷ []) = inr (omega arith)
  evict-fits r (e ∷ e' ∷ es) = ground (arith, evict-fits r (e' ∷ es))

module _ {Show : Type 0} (to_vec : Show → Option (List ℕ)) where
  -- The bytes of every entry are the estimate of its show.
  abbrev pub AllMeasured : List (Entry Show) → Type 0
  AllMeasured [] = Unit
  AllMeasured (e ∷ es) = (e.bytes ≡ estimate_bytes to_vec e.show) × AllMeasured es

  -- The histories that the operations reach from an empty one.
  pub data Reached : UndoStack Show → Type 0 where
    start : Reached new
    pushed : {st : UndoStack Show} (s : Show) → Reached st → Reached (push to_vec st s)
    undid :
        {st st' : UndoStack Show} {s : Show} (cur : Show)
        → Reached st
        → undo to_vec st cur ≡ some (s, st')
        → Reached st'
    redid :
        {st st' : UndoStack Show} {s : Show} (cur : Show)
        → Reached st
        → redo to_vec st cur ≡ some (s, st')
        → Reached st'
    cleared : {st : UndoStack Show} → Reached st → Reached (clear st)

  pub record IsWellFormed (st : UndoStack Show) : Type 0 where
    pub count : length st.undone + length st.redone ≤ undo_cap
    pub undone_measured : AllMeasured st.undone
    pub redone_measured : AllMeasured st.redone

  AllMeasured-push_back :
      (es : List (Entry Show)) (e : Entry Show)
      → AllMeasured es
      → e.bytes ≡ estimate_bytes to_vec e.show
      → AllMeasured (push_back es e)
  AllMeasured-push_back [] e a q = (q, tt)
  AllMeasured-push_back (x ∷ es) e a q = (a.0, AllMeasured-push_back es e a.1 q)

  AllMeasured-evict : (r : ℕ) (es : List (Entry Show)) → AllMeasured es → AllMeasured (evict r es)
  unfolding evict
  AllMeasured-evict r [] a = tt
  AllMeasured-evict r (e ∷ []) a = a
  AllMeasured-evict r (e ∷ e' ∷ es) a = ground (arith, AllMeasured-evict r (e' ∷ es) a.1)

  -- `pop` keeps the rest and takes one entry, measured like the others.
  pub pop_back-lem :
      (es : List (Entry Show)) {rest : List (Entry Show)} {e : Entry Show}
      → pop_back es ≡ some (rest, e)
      → AllMeasured es
      → AllMeasured rest
        × (e.bytes ≡ estimate_bytes to_vec e.show)
        × (length es ≡ suc (length rest))
  pop_back-lem [] q a = ground arith
  pop_back-lem (x ∷ es) q a = elim (Option-cases (pop_back es)) [
    | inl n ↦ ground (arith, pop_back-none es n)
    | inr (r, p) ↦ ground (arith, pop_back-lem es p a.1)
  ]

  make_room-lem :
      (es : List (Entry Show))
      → length es ≤ undo_cap
      → AllMeasured es
      → (length (make_room es) < undo_cap) × AllMeasured (make_room es)
  make_room-lem [] l a = ground arith
  make_room-lem (e ∷ es) l a = ground arith

  push-IsWellFormed :
      (st : UndoStack Show) (s : Show) → IsWellFormed st → IsWellFormed (push to_vec st s)
  unfolding push enforce_byte_cap
  push-IsWellFormed st s w =
      let m = make_room-lem st.undone (omega (arith, w.count)) w.undone_measured in
      let es = push_back (make_room st.undone) (entry_of to_vec s) in
      record {
        count = omega (
          arith,
          m.0,
          evict-length 0 es,
          length-append (make_room st.undone) (entry_of to_vec s ∷ []),
        );
        undone_measured =
            AllMeasured-evict 0 es (AllMeasured-push_back (make_room st.undone) _ m.1 refl);
        redone_measured = tt;
      }

  undo-IsWellFormed :
      (st : UndoStack Show) {st' : UndoStack Show} (cur : Show) {s : Show}
      → undo to_vec st cur ≡ some (s, st')
      → IsWellFormed st
      → IsWellFormed st'
  unfolding undo
  undo-IsWellFormed st cur e w = elim (Option-cases (pop_back st.undone)) [
    | inl n ↦ ground arith
    | inr (r, p) ↦
        let k = pop_back-lem st.undone p w.undone_measured in
        ground (
          arith,
          k,
          length-append st.redone (entry_of to_vec cur ∷ []),
          AllMeasured-push_back st.redone (entry_of to_vec cur) w.redone_measured refl,
        )
  ]

  redo-IsWellFormed :
      (st : UndoStack Show) {st' : UndoStack Show} (cur : Show) {s : Show}
      → redo to_vec st cur ≡ some (s, st')
      → IsWellFormed st
      → IsWellFormed st'
  unfolding redo
  redo-IsWellFormed st cur e w = elim (Option-cases (pop_back st.redone)) [
    | inl n ↦ ground arith
    | inr (r, p) ↦
        let k = pop_back-lem st.redone p w.redone_measured in
        ground (
          arith,
          k,
          length-append st.undone (entry_of to_vec cur ∷ []),
          AllMeasured-push_back st.undone (entry_of to_vec cur) w.undone_measured refl,
        )
  ]

  -- Every history that the operations reach holds at most 100 snapshots, those to undo and those
  -- to redo together, and the bytes of each are the estimate of its show.
  pub Reached-IsWellFormed : {st : UndoStack Show} → Reached st → IsWellFormed st
  Reached-IsWellFormed start = record {
    count = omega arith;
    undone_measured = tt;
    redone_measured = tt;
  }
  Reached-IsWellFormed (pushed s r) = push-IsWellFormed _ s (Reached-IsWellFormed r)
  Reached-IsWellFormed (undid cur r e) = undo-IsWellFormed _ cur e (Reached-IsWellFormed r)
  Reached-IsWellFormed (redid cur r e) = redo-IsWellFormed _ cur e (Reached-IsWellFormed r)
  Reached-IsWellFormed (cleared r) = record {
    count = omega arith;
    undone_measured = tt;
    redone_measured = tt;
  }

  -- After an edit nothing is left to redo, and the history fits the byte cap or holds at most one
  -- snapshot.
  pub push-fits :
      (st : UndoStack Show) (s : Show)
      → (((push to_vec st s).redone) ≡ [])
        × ((total_bytes (push to_vec st s) ≤ undo_byte_cap)
            ⊎ (length (push to_vec st s).undone ≤ 1))
  unfolding push enforce_byte_cap
  push-fits st s = (refl, evict-fits 0 (push_back (make_room st.undone) (entry_of to_vec s)))
