-- ===== src/Tests/Undo.antt =====
-- crates/app/src/undo.rs at a history of numbers.
use videocuelist.Prelude.{ℕ, Option, some, List, [], ◌∷◌, ◌≡◌, ◌≤◌, ◌⊎◌, refl, length}
use videocuelist.Undo.{UndoStack, push, undo, redo, new, undo_byte_cap, total_bytes}
use videocuelist.Undo.Bounds.{
  start, pushed, Reached, undid, IsWellFormed, Reached-IsWellFormed, push-fits,
}
use videocuelist.Undo.Inverse.{redo-undo, undo-push}

-- A show stands for its own JSON.
abbrev json : List ℕ → Option (List ℕ)
json s = some s

abbrev two_edits : UndoStack (List ℕ)
two_edits = push json (push json new (1 ∷ [])) (1 ∷ 2 ∷ [])

abbrev one_back : UndoStack (List ℕ)
one_back = record {
  undone = record { show = 1 ∷ []; bytes = 1 } ∷ [];
  redone = record { show = 1 ∷ 2 ∷ 3 ∷ []; bytes = 3 } ∷ [];
}

undone_once : undo json two_edits (1 ∷ 2 ∷ 3 ∷ []) ≡ some (1 ∷ 2 ∷ [], one_back)
unfolding undo push
undone_once = refl

two_edits-Reached : Reached json two_edits
two_edits-Reached = pushed (1 ∷ 2 ∷ []) (pushed (1 ∷ []) start)

Reached-IsWellFormed_example : IsWellFormed json one_back
Reached-IsWellFormed_example =
    Reached-IsWellFormed json (undid (1 ∷ 2 ∷ 3 ∷ []) two_edits-Reached undone_once)

push-fits_example :
    ((push json one_back (7 ∷ [])).redone ≡ [])
    × ((total_bytes (push json one_back (7 ∷ [])) ≤ undo_byte_cap)
        ⊎ (length (push json one_back (7 ∷ [])).undone ≤ 1))
push-fits_example = push-fits json one_back (7 ∷ [])

redo-undo_example : redo json one_back (1 ∷ 2 ∷ []) ≡ some (1 ∷ 2 ∷ 3 ∷ [], two_edits)
redo-undo_example =
    redo-undo json two_edits one_back (1 ∷ 2 ∷ 3 ∷ []) (1 ∷ 2 ∷ [])
      (Reached-IsWellFormed json two_edits-Reached) undone_once

undo-push_example :
    (st : UndoStack (List ℕ)) × (undo json (push json one_back (7 ∷ [])) (8 ∷ [])
      ≡ some (7 ∷ [], st))
undo-push_example = undo-push json one_back (7 ∷ []) (8 ∷ [])
