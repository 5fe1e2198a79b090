-- ===== src/Media/Pool.antt =====
-- crates/engine/src/pool.rs: the pool of frame buffers. A pool that is gone is none; the buffers in
-- use are the callers'.
pub mod Reserve
use videocuelist.Prelude.{
  ℕ, zero, suc, Bool, true, false, not, List, [], ◌∷◌, Option, none, some, length, ltb, ◌==◌,
  pop_back, push_back, if◌then◌else◌,
}

pub data PixelOrder : Type 0 where
  rgba bgra : PixelOrder

pub record BufferPool : Type 0 where
  pub frame_size : ℕ
  pub max_spares : ℕ
  pub spares : List (List ℕ)

-- A buffer, and whether it goes back to the pool.
pub record FrameData : Type 0 where
  pub bytes : List ℕ
  pub pooled : Bool
  pub order : PixelOrder

abbrev pub new_pool : ℕ → ℕ → BufferPool
new_pool frame_size max_spares = record {
  frame_size = frame_size;
  max_spares = max_spares;
  spares = [];
}

-- `vec![0; n]`.
abbrev pub zeroed : ℕ → List ℕ
zeroed zero = []
zeroed (suc n) = 0 ∷ zeroed n

abbrev pub pooled_data : List ℕ → FrameData
pooled_data bytes = record { bytes = bytes; pooled = true; order = rgba }

-- The buffer that came off the reserve, if it has the size.
abbrev pub reused : ℕ → List ℕ → List ℕ
reused size v = if length v == size then v else zeroed size

abbrev pub buffer_of : Option (List (List ℕ) × List ℕ) → BufferPool → FrameData × BufferPool
buffer_of none p = (pooled_data (zeroed p.frame_size), p)
buffer_of (some (rest, v)) p = (pooled_data (reused p.frame_size v), record p { spares = rest })

unfoldable pub take_buffer : BufferPool → FrameData × BufferPool
take_buffer p = buffer_of (pop_back p.spares) p

-- The buffer goes back if the pool is there, it has the size, and the reserve is not full.
unfoldable pub drop_buffer : FrameData → BufferPool → BufferPool
drop_buffer d p =
    if not d.pooled
    then p
    else if not (length d.bytes == p.frame_size)
    then p
    else if ltb (length p.spares) p.max_spares
    then record p { spares = push_back p.spares d.bytes }
    else p

abbrev pub from_vec : List ℕ → FrameData
from_vec bytes = record { bytes = bytes; pooled = false; order = rgba }

abbrev pub clone_data : FrameData → FrameData
clone_data d = record d { pooled = false }

abbrev pub set_pixel_order : PixelOrder → FrameData → FrameData
set_pixel_order o d = record d { order = o }
