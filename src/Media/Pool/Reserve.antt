-- ===== src/Media/Pool/Reserve.antt =====
-- crates/engine/src/pool.rs: the reserve of the pool and the buffers in use.
use videocuelist.Prelude.{
  ℕ, zero, suc, ◌≤◌, ◌<◌, ◌≡◌, refl, ap, subst, ◌∙◌, List, [], ◌∷◌, Option, none, some, length, ltb,
  ◌==◌, ==_iff, pop_back, push_back, length-append, arith, Bool, true, false, not, Bool-cases,
  Option-cases, inl, inr, if◌then◌else◌,
}
use videocuelist.Media.Pool.{
  BufferPool, FrameData, new_pool, zeroed, reused, buffer_of, take_buffer, drop_buffer,
}

-- Buffers of one size.
abbrev pub AllSized : ℕ → List (List ℕ) → Type 0
AllSized n [] = Unit
AllSized n (v ∷ vs) = (length v ≡ n) × AllSized n vs

-- The reserve is not above its bound, and its buffers have the size.
pub record IsWellFormed (p : BufferPool) : Type 0 where
  pub bounded : length p.spares ≤ p.max_spares
  pub sized : AllSized p.frame_size p.spares

length-zeroed : (n : ℕ) → length (zeroed n) ≡ n
length-zeroed zero = refl
length-zeroed (suc n) = ap suc (length-zeroed n)

AllSized-push_back :
    (n : ℕ) (vs : List (List ℕ)) (v : List ℕ)
    → AllSized n vs
    → length v ≡ n
    → AllSized n (push_back vs v)
AllSized-push_back n [] v a e = (e, tt)
AllSized-push_back n (w ∷ vs) v a e = (a.0, AllSized-push_back n vs v a.1 e)

AllSized-pop_back :
    (n : ℕ) (vs : List (List ℕ)) {rest : List (List ℕ)} {v : List ℕ}
    → pop_back vs ≡ some (rest, v)
    → AllSized n vs
    → AllSized n rest × (length rest < length vs)
AllSized-pop_back n [] e a = ground arith
AllSized-pop_back n (w ∷ vs) e a = elim (Option-cases (pop_back vs)) [
  | inl m ↦ ground arith
  | inr (r, p) ↦ ground (arith, AllSized-pop_back n vs p a.1)
]

length-reused : (n : ℕ) (v : List ℕ) → length (reused n v) ≡ n
length-reused n v = elim (Bool-cases (length v == n)) [
  | inl b ↦ rw b (ground (arith, ==_iff (length v) n))
  | inr b ↦ rw b (length-zeroed n)
]

-- The pools that taking and dropping buffers reach, of a size and a bound.
pub data Reached (size bound : ℕ) : BufferPool → Type 0 where
  made : Reached size bound (new_pool size bound)
  took : {p : BufferPool} → Reached size bound p → Reached size bound (take_buffer p).1
  dropped :
      {p : BufferPool} (d : FrameData) → Reached size bound p → Reached size bound (drop_buffer d p)

-- What a reached pool is: well-formed, with its size and its bound.
abbrev IsPool : ℕ → ℕ → BufferPool → Type 0
IsPool size bound p = IsWellFormed p × (p.frame_size ≡ size) × (p.max_spares ≡ bound)

buffer_of-IsPool :
    (size bound : ℕ) (o : Option (List (List ℕ) × List ℕ)) (p : BufferPool)
    → pop_back p.spares ≡ o
    → IsPool size bound p
    → IsPool size bound (buffer_of o p).1 × (length ((buffer_of o p).0).bytes ≡ p.frame_size)
buffer_of-IsPool size bound none p e w = (w, length-zeroed p.frame_size)
buffer_of-IsPool size bound (some (rest, v)) p e w =
    let k = AllSized-pop_back p.frame_size p.spares e w.0.sized in
    (
      (record { bounded = omega (arith, k.1, w.0.bounded); sized = k.0 }, w.1, w.2),
      length-reused p.frame_size v,
    )

take-IsPool :
    (size bound : ℕ) (p : BufferPool)
    → IsPool size bound p
    → IsPool size bound (take_buffer p).1 × (length ((take_buffer p).0).bytes ≡ p.frame_size)
unfolding take_buffer
take-IsPool size bound p w = buffer_of-IsPool size bound (pop_back p.spares) p refl w

if-IsPool :
    (size bound : ℕ) (b : Bool) (x y : BufferPool)
    → (b ≡ true → IsPool size bound x)
    → (b ≡ false → IsPool size bound y)
    → IsPool size bound (if b then x else y)
if-IsPool size bound true x y f g = f refl
if-IsPool size bound false x y f g = g refl

drop-IsPool :
    (size bound : ℕ) (d : FrameData) (p : BufferPool)
    → IsPool size bound p
    → IsPool size bound (drop_buffer d p)
unfolding drop_buffer
drop-IsPool size bound d p w =
    if-IsPool size bound (not d.pooled) p _ (λ e. w)
      (λ e.
        if-IsPool size bound (not (length d.bytes == p.frame_size)) p _ (λ e. w)
          (λ s.
            if-IsPool size bound (ltb (length p.spares) p.max_spares) _ p
              (λ l. (
                record {
                  bounded = ground (arith, l, length-append p.spares (d.bytes ∷ []));
                  sized =
                      AllSized-push_back p.frame_size p.spares d.bytes w.0.sized
                        (ground (arith, s, ==_iff (length d.bytes) p.frame_size));
                },
                w.1,
                w.2,
              ))
              (λ l. w)))

Reached-IsPool : {size bound : ℕ} {p : BufferPool} → Reached size bound p → IsPool size bound p
Reached-IsPool made = (record { bounded = omega arith; sized = tt }, refl, refl)
Reached-IsPool (took {p = p} r) = (take-IsPool _ _ p (Reached-IsPool r)).0
Reached-IsPool (dropped {p = p} d r) = drop-IsPool _ _ d p (Reached-IsPool r)

-- However buffers are taken and dropped, from the pool or not and of any size, the reserve holds at
-- most its bound of buffers, all of the size of a frame, and every buffer that is taken has it.
pub Reached-serves :
    {size bound : ℕ} {p : BufferPool}
    → Reached size bound p
    → (length p.spares ≤ bound) × AllSized size p.spares × (length ((take_buffer p).0).bytes ≡ size)
Reached-serves {size = size} {bound = bound} {p = p} r =
    let w = Reached-IsPool r in
    (
      omega (arith, w.0.bounded, w.2),
      subst (λ n. AllSized n p.spares) w.1 w.0.sized,
      (take-IsPool size bound p w).1 ∙ w.1,
    )
