-- ===== src/Undo.antt =====
-- crates/app/src/undo.rs: the history of edits, two vectors of snapshots, oldest first.
pub mod Bounds
pub mod Inverse
use videocuelist.Prelude.{
  ℕ, ◌+◌, ◌*◌, List, [], ◌∷◌, Option, none, some, true, false, ltb, leb, length, push_back,
  pop_back, remove_first, if◌then◌else◌,
}

abbrev pub undo_cap : ℕ
undo_cap = 100

abbrev pub undo_byte_cap : ℕ
undo_byte_cap = 64 * 1024 * 1024

pub record Entry (Show : Type 0) : Type 0 where
  pub show : Show
  pub bytes : ℕ

pub record UndoStack (Show : Type 0) : Type 0 where
  pub undone : List (Entry Show)
  pub redone : List (Entry Show)

module _ {Show : Type 0} where
  abbrev pub new : UndoStack Show
  new = record { undone = []; redone = [] }

  abbrev pub clear : UndoStack Show → UndoStack Show
  clear st = record { undone = []; redone = [] }

  abbrev pub sum_bytes : List (Entry Show) → ℕ
  sum_bytes [] = 0
  sum_bytes (e ∷ es) = e.bytes + sum_bytes es

  abbrev pub total_bytes : UndoStack Show → ℕ
  total_bytes st = sum_bytes st.undone + sum_bytes st.redone

  -- A full history loses its oldest snapshot.
  abbrev pub make_room : List (Entry Show) → List (Entry Show)
  make_room es = if leb undo_cap (length es) then remove_first es else es

  -- The loop of `enforce_byte_cap`: the oldest entry goes while there are two and the total, with
  -- the bytes to be redone, is above the cap.
  unfoldable pub evict : ℕ → List (Entry Show) → List (Entry Show)
  evict redo_bytes [] = []
  evict redo_bytes (e ∷ []) = e ∷ []
  evict redo_bytes (e ∷ e' ∷ es) = elim (ltb undo_byte_cap (sum_bytes (e ∷ e' ∷ es) + redo_bytes)) [
    | true ↦ evict redo_bytes (e' ∷ es)
    | false ↦ e ∷ e' ∷ es
  ]

  unfoldable pub enforce_byte_cap : UndoStack Show → UndoStack Show
  unfolding evict
  enforce_byte_cap st = record st { undone = evict (sum_bytes st.redone) st.undone }

-- The stack reads nothing of a show but the size of its JSON: `to_vec` is `serde_json::to_vec`,
-- none where that fails.
module _ {Show : Type 0} (to_vec : Show → Option (List ℕ)) where
  unfoldable pub estimate_bytes : Show → ℕ
  estimate_bytes s = elim (to_vec s) [ some v ↦ length v | none ↦ 64 * 1024 ]

  abbrev pub entry_of : Show → Entry Show
  entry_of s = record { show = s; bytes = estimate_bytes s }

  unfoldable pub push : UndoStack Show → Show → UndoStack Show
  unfolding estimate_bytes enforce_byte_cap
  push st before =
      enforce_byte_cap
        (record { undone = push_back (make_room st.undone) (entry_of before); redone = [] })

  unfoldable pub undo : UndoStack Show → Show → Option (Show × UndoStack Show)
  unfolding estimate_bytes
  undo st current = elim (pop_back st.undone) [
    | none ↦ none
    | some (rest, prev) ↦
        some (prev.show, record { undone = rest; redone = push_back st.redone (entry_of current) })
  ]

  unfoldable pub redo : UndoStack Show → Show → Option (Show × UndoStack Show)
  unfolding estimate_bytes
  redo st current = elim (pop_back st.redone) [
    | none ↦ none
    | some (rest, next) ↦
        some (next.show, record { undone = push_back st.undone (entry_of current); redone = rest })
  ]
