-- ===== src/Core/Edit.antt =====
-- crates/core/src/command.rs: `EditOp`, the edits of a show, and what they do to it.
pub mod Slots
pub mod Order
use Prim.Native.String.{String}
use videocuelist.Prelude.{
  ℕ, zero, suc, ◌+◌, Bool, true, false, not, List, [], ◌∷◌, Option, none, some, push_back, length,
  ltb, ◌==◌, get_elem?, ◌>>=◌, if◌then◌else◌,
}
use videocuelist.Float.{Floats}
use videocuelist.Core.Model.{CueNumber, Cue, SliceState}
use videocuelist.Core.Patch.{PatchEntry, MidiBinding, OscOutCfg, KeyBinding, PatchTable}
use videocuelist.Core.Show.{
  OutputCfg, MaterialRef, Slice, MediaRef, ModulatorCfg, ModRoute, ShowSettings, Show,
}
use videocuelist.Cue.Search.{halve, numbers}

module _ {ℓ} {A : Type ℓ} where
  -- `Vec::retain`.
  abbrev pub retain_list : (A → Bool) → List A → List A
  retain_list p [] = []
  retain_list p (x ∷ xs) = let rest = retain_list p xs in if p x then x ∷ rest else rest

  -- `iter_mut().find(..)`, and what is done to the element that is found.
  abbrev pub update_first : (A → Bool) → (A → A) → List A → List A
  update_first p f [] = []
  update_first p f (x ∷ xs) = let rest = update_first p f xs in if p x then f x ∷ xs else x ∷ rest

  -- `get_mut`, and what is done to the element; nothing out of range.
  abbrev pub update_at : ℕ → (A → A) → List A → List A
  update_at i f [] = []
  update_at zero f (x ∷ xs) = f x ∷ xs
  update_at (suc i) f (x ∷ xs) = x ∷ update_at i f xs

  -- `if i < len { remove(i) }`.
  abbrev pub remove_at : ℕ → List A → List A
  remove_at i [] = []
  remove_at zero (x ∷ xs) = xs
  remove_at (suc i) (x ∷ xs) = x ∷ remove_at i xs

  -- `Vec::insert`, at an index that is at most the length.
  abbrev pub insert_at : ℕ → A → List A → List A
  insert_at zero x xs = x ∷ xs
  insert_at (suc i) x [] = x ∷ []
  insert_at (suc i) x (y ∷ xs) = y ∷ insert_at i x xs

-- What `binary_search_by` answers: where the key stands, or where it may be inserted.
pub data Slot : Type 0 where
  taken free : ℕ → Slot

abbrev pub slot_of : ℕ → CueNumber → CueNumber → Slot
slot_of base k n = if k == n then taken base else if ltb k n then free (base + 1) else free base

unfoldable pub search_slot : List CueNumber → CueNumber → Option Slot
unfolding halve
search_slot [] n = some (free 0)
search_slot (k ∷ ks) n = do
  base ← halve (k ∷ ks) n (length (k ∷ ks)) 0 (length (k ∷ ks))
  key ← get_elem? (k ∷ ks) base
  some (slot_of base key n)

module _ ⦃F : Floats⦄ where
  open F use {F32}

  pub data EditOp : Type 0 where
    slice_add : Slice → EditOp
    slice_remove : ℕ → EditOp
    slice_update : Slice → EditOp
    corner_set : (slice index : ℕ) (x y : F32) → EditOp
    output_add : OutputCfg → EditOp
    output_remove : ℕ → EditOp
    output_update : OutputCfg → EditOp
    cue_add : Cue → EditOp
    cue_remove : CueNumber → EditOp
    cue_update : Cue → EditOp
    cue_update_state : CueNumber → SliceState → EditOp
    media_add : MediaRef → EditOp
    media_remove : ℕ → EditOp
    media_update : MediaRef → EditOp
    material_add : MaterialRef → EditOp
    material_remove : ℕ → EditOp
    material_update : MaterialRef → EditOp
    modulator_add : ModulatorCfg → EditOp
    modulator_remove : ℕ → EditOp
    modulator_update : ModulatorCfg → EditOp
    route_add : ModRoute → EditOp
    route_remove : ℕ → EditOp
    route_update : ModRoute → EditOp
    patch_artnet_add : PatchEntry → EditOp
    patch_artnet_remove : ℕ → EditOp
    patch_artnet_update : ℕ → PatchEntry → EditOp
    patch_midi_add : MidiBinding → EditOp
    patch_midi_remove : ℕ → EditOp
    patch_midi_update : ℕ → MidiBinding → EditOp
    patch_osc_out_set : Option OscOutCfg → EditOp
    key_binding_add : KeyBinding → EditOp
    key_binding_remove : ℕ → EditOp
    show_rename : String → EditOp
    settings_update : ShowSettings → EditOp

  abbrev pub put_slot : Cue → List Cue → Slot → List Cue
  put_slot c cues (taken i) = update_at i (λ old. c) cues
  put_slot c cues (free i) = insert_at i c cues

  -- Sorted insertion; a cue of the same number is replaced.
  unfoldable pub add_cue : Cue → List Cue → Option (List Cue)
  unfolding search_slot
  add_cue c cues = do slot ← search_slot (numbers cues) c.number; some (put_slot c cues slot)

  abbrev pub has_state : ℕ → List SliceState → Bool
  has_state slice [] = false
  has_state slice (s ∷ ss) =
      let rest = has_state slice ss in if s.slice == slice then true else rest

  -- The state of a slice is replaced, or added.
  abbrev pub put_state : SliceState → List SliceState → List SliceState
  put_state state ss =
      if has_state state.slice ss
      then update_first (λ s. s.slice == state.slice) (λ s. state) ss
      else push_back ss state

  abbrev pub with_corner : ℕ → F32 → F32 → Slice → Slice
  with_corner index x y s = record s { corners = update_at index (λ c. (x, y)) s.corners }

  abbrev pub with_state : SliceState → Cue → Cue
  with_state state c = record c { states = put_state state c.states }

  abbrev pub patched : (PatchTable → PatchTable) → Show → Show
  patched f s = record s { patch = f s.patch }

  -- `EditOp::apply`: none is a panic.
  unfoldable pub apply_edit : EditOp → Show → Option Show
  unfolding add_cue
  apply_edit (slice_add slice) s = some (record s { slices = push_back s.slices slice })
  apply_edit (slice_remove id) s =
      some (record s { slices = retain_list (λ x. not (x.id == id)) s.slices })
  apply_edit (slice_update slice) s =
      some (record s { slices = update_first (λ x. x.id == slice.id) (λ x. slice) s.slices })
  apply_edit (corner_set slice index x y) s =
      some
        (record s { slices = update_first (λ t. t.id == slice) (with_corner index x y) s.slices })
  apply_edit (output_add output) s = some (record s { outputs = push_back s.outputs output })
  apply_edit (output_remove id) s =
      some (record s { outputs = retain_list (λ x. not (x.id == id)) s.outputs })
  apply_edit (output_update output) s =
      some (record s { outputs = update_first (λ x. x.id == output.id) (λ x. output) s.outputs })
  apply_edit (cue_add c) s = add_cue c s.cues >>= λ cues. some (record s { cues = cues })
  apply_edit (cue_remove n) s =
      some (record s { cues = retain_list (λ c. not (c.number == n)) s.cues })
  apply_edit (cue_update c) s =
      some (record s { cues = update_first (λ d. d.number == c.number) (λ d. c) s.cues })
  apply_edit (cue_update_state n state) s =
      some (record s { cues = update_first (λ c. c.number == n) (with_state state) s.cues })
  apply_edit (media_add media) s = some (record s { media = push_back s.media media })
  apply_edit (media_remove id) s =
      some (record s { media = retain_list (λ x. not (x.id == id)) s.media })
  apply_edit (media_update media) s =
      some (record s { media = update_first (λ x. x.id == media.id) (λ x. media) s.media })
  apply_edit (material_add m) s = some (record s { materials = push_back s.materials m })
  apply_edit (material_remove id) s =
      some (record s { materials = retain_list (λ x. not (x.id == id)) s.materials })
  apply_edit (material_update m) s =
      some (record s { materials = update_first (λ x. x.id == m.id) (λ x. m) s.materials })
  apply_edit (modulator_add m) s = some (record s { modulators = push_back s.modulators m })
  apply_edit (modulator_remove id) s =
      some (record s { modulators = retain_list (λ x. not (x.id == id)) s.modulators })
  apply_edit (modulator_update m) s =
      some (record s { modulators = update_first (λ x. x.id == m.id) (λ x. m) s.modulators })
  apply_edit (route_add r) s = some (record s { routes = push_back s.routes r })
  apply_edit (route_remove id) s =
      some (record s { routes = retain_list (λ x. not (x.id == id)) s.routes })
  apply_edit (route_update r) s =
      some (record s { routes = update_first (λ x. x.id == r.id) (λ x. r) s.routes })
  apply_edit (patch_artnet_add e) s =
      some (patched (λ p. record p { artnet = push_back p.artnet e }) s)
  apply_edit (patch_artnet_remove i) s =
      some (patched (λ p. record p { artnet = remove_at i p.artnet }) s)
  apply_edit (patch_artnet_update i e) s =
      some (patched (λ p. record p { artnet = update_at i (λ x. e) p.artnet }) s)
  apply_edit (patch_midi_add b) s = some (patched (λ p. record p { midi = push_back p.midi b }) s)
  apply_edit (patch_midi_remove i) s =
      some (patched (λ p. record p { midi = remove_at i p.midi }) s)
  apply_edit (patch_midi_update i b) s =
      some (patched (λ p. record p { midi = update_at i (λ x. b) p.midi }) s)
  apply_edit (patch_osc_out_set cfg) s = some (patched (λ p. record p { osc_out = cfg }) s)
  apply_edit (key_binding_add b) s = some (patched (λ p. record p { keys = push_back p.keys b }) s)
  apply_edit (key_binding_remove i) s =
      some (patched (λ p. record p { keys = remove_at i p.keys }) s)
  apply_edit (show_rename name) s = some (record s { name = name })
  apply_edit (settings_update settings) s = some (record s { settings = settings })
