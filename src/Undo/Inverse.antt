-- ===== src/Undo/Inverse.antt =====
-- crates/app/src/undo.rs: undo after an edit, and redo after undo.
use videocuelist.Prelude.{
  ℕ, ◌≡◌, refl, List, [], ◌∷◌, ◌+◌, ltb, Bool-cases, Option, some, push_back, pop_back, arith, inl,
  inr, Option-cases, pop_back-push_back, push_back-pop_back,
}
use videocuelist.Undo.{
  Entry, UndoStack, evict, sum_bytes, undo_byte_cap, enforce_byte_cap, entry_of, push, undo, redo,
  make_room,
}
use videocuelist.Undo.Bounds.{IsWellFormed, pop_back-lem}

-- The loop keeps the newest entry.
evict-push_back :
    {Show : Type 0} (r : ℕ) (es : List (Entry Show)) (e : Entry Show)
    → (rest : List (Entry Show)) × (evict r (push_back es e) ≡ push_back rest e)
unfolding evict
evict-push_back r [] e = ([], refl)
evict-push_back r (x ∷ []) e = elim (Bool-cases (ltb undo_byte_cap (sum_bytes (x ∷ e ∷ []) + r))) [
  | inl q ↦ ([], rw (q, evict) refl)
  | inr q ↦ (x ∷ [], rw (q, evict) refl)
]
evict-push_back r (x ∷ y ∷ es) e =
    elim (Bool-cases (ltb undo_byte_cap (sum_bytes (push_back (x ∷ y ∷ es) e) + r))) [
      | inl q ↦ let k = evict-push_back r (y ∷ es) e in (k.0, rw (q, evict) k.1)
      | inr q ↦ (x ∷ y ∷ es, rw (q, evict) refl)
    ]

module _ {Show : Type 0} (to_vec : Show → Option (List ℕ)) where
  -- Where undo returns a show, redo from there gives back the show that was current and the
  -- history as it was, if that history is well-formed.
  pub redo-undo :
      (st st' : UndoStack Show) (current previous : Show)
      → IsWellFormed to_vec st
      → undo to_vec st current ≡ some (previous, st')
      → redo to_vec st' previous ≡ some (current, st)
  unfolding undo redo
  redo-undo st st' current previous w e = elim (Option-cases (pop_back st.undone)) [
    | inl n ↦ ground arith
    | inr (r, p) ↦
        let k = pop_back-lem to_vec st.undone p w.undone_measured in
        ground (
          arith,
          k,
          push_back-pop_back st.undone p,
          pop_back-push_back st.redone (entry_of to_vec current),
        )
  ]

  -- Undo right after an edit gives back the show from before it, whatever the caps threw out.
  pub undo-push :
      (st : UndoStack Show) (before after : Show)
      → (st' : UndoStack Show) × (undo to_vec (push to_vec st before) after ≡ some (before, st'))
  unfolding undo push enforce_byte_cap
  undo-push st before after =
      let k = evict-push_back 0 (make_room st.undone) (entry_of to_vec before) in
      (
        record { undone = k.0; redone = push_back [] (entry_of to_vec after) },
        rw (k.1, undo, pop_back-push_back k.0 (entry_of to_vec before)) refl,
      )
