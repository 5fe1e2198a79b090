-- ===== src/Midi/Mtc/Groups.antt =====
-- crates/control-midi/src/mtc.rs: the eight pieces of a position, sent forward or backward, and
-- the full frame.
use videocuelist.Prelude.{
  ap, ◌∙◌, inr, inl, ◌⊎◌, ℕ, ◌+◌, ◌*◌, ◌/◌, ◌%◌, ◌<◌, ◌≡◌, refl, true, List, [], ◌∷◌, Option, none,
  some, arith, false, Bool,
}
use videocuelist.Core.Timecode.{TcRate, fps24, fps25, fps2997_df, fps30, TcTime}
use videocuelist.Core.Timecode.Frames.{IsLabel}
use videocuelist.Midi.Mtc.{
  full_frame, full_frame_of, put, collect, turn, MtcEvent, MtcAssembler, add_frames, decode_rate,
  assemble, take_piece, push, position_bytes,
}
use videocuelist.Midi.Mtc.Valid.{IsLabel-is_valid}
use videocuelist.Midi.Mtc.Pieces.{
  rate_code, last_half, forward_group, backward_group, event_then, push_all, take_all, AllSmall,
  push-quarter, group_event, assemble-Holds, pieces_forward, pieces_backward, pieces_forward-Holds,
  pieces_backward-Holds,
}

push_all-take_all :
    (ps : List (ℕ × ℕ)) (a : MtcAssembler) → AllSmall ps → push_all ps a ≡ take_all ps a
unfolding take_all AllSmall
push_all-take_all [] a s = refl
push_all-take_all ((p, v) ∷ ps) a s =
    rw (push-quarter p v a s.0 s.1, push_all-take_all ps (take_piece p v a).1 s.2) refl

-- What a group leaves, once its last piece has completed it.
abbrev finish : MtcAssembler → List MtcEvent × MtcAssembler
finish a = let r = assemble a in (event_then r.0 [], r.1)

take_all-silent :
    (p v : ℕ) (ps : List (ℕ × ℕ)) (a b : MtcAssembler)
    → take_piece p v a ≡ (none, b)
    → take_all ((p, v) ∷ ps) a ≡ take_all ps b
unfolding take_all
take_all-silent p v ps a b e = rw e refl

take_all-last :
    (p v : ℕ) (a b : MtcAssembler)
    → take_piece p v a ≡ assemble b
    → take_all ((p, v) ∷ []) a ≡ finish b
unfolding take_all
take_all-last p v a b e = rw e refl

-- An assembler in the middle of a group.
abbrev pub at : Bool → Bool → Option TcRate → (ℕ → ℕ) → ℕ → Option ℕ → MtcAssembler
at fw k q d mask prev = record {
  pieces = d;
  mask = mask;
  prev = prev;
  forward = fw;
  is_locked = k;
  rate = q;
}

-- The first piece of a group starts it anew.
first_forward :
    (v m : ℕ) (p : Option ℕ) (k : Bool) (q : Option TcRate) (d : ℕ → ℕ)
    → (p ≡ none) ⊎ (p ≡ some 7)
    → take_piece 0 v (at true k q d m p) ≡ (none, at true k q (put 0 v d) 1 (some 0))
unfolding take_piece turn collect
first_forward v m p k q d (inl e) = rw e refl
first_forward v m p k q d (inr e) = rw e refl

first_backward :
    (v m : ℕ) (p : Option ℕ) (k : Bool) (q : Option TcRate) (d : ℕ → ℕ)
    → (p ≡ none) ⊎ (p ≡ some 0)
    → take_piece 7 v (at false k q d m p) ≡ (none, at false k q (put 7 v d) 0x80 (some 7))
unfolding take_piece turn collect
first_backward v m p k q d (inl e) = rw e refl
first_backward v m p k q d (inr e) = rw e refl

module _ (k : Bool) (q : Option TcRate) where
  forward-collects :
      (v1 v2 v3 v4 v5 v6 v7 : ℕ) (d : ℕ → ℕ)
      → take_all
          ((1, v1) ∷ (2, v2) ∷ (3, v3) ∷ (4, v4) ∷ (5, v5) ∷ (6, v6) ∷ (7, v7) ∷ [])
          (at true k q d 1 (some 0))
        ≡ finish (
            at true k q
              (put 7 v7 (put 6 v6 (put 5 v5 (put 4 v4 (put 3 v3 (put 2 v2 (put 1 v1 d)))))))
              0xFF
              (some 7))
  unfolding take_piece turn collect
  forward-collects v1 v2 v3 v4 v5 v6 v7 d =
      let d1 = put 1 v1 d in
      let d2 = put 2 v2 d1 in
      let d3 = put 3 v3 d2 in
      let d4 = put 4 v4 d3 in
      let d5 = put 5 v5 d4 in
      let d6 = put 6 v6 d5 in
      take_all-silent 1 v1 _ _ (at true k q d1 0x03 (some 1)) refl
      ∙ take_all-silent 2 v2 _ _ (at true k q d2 0x07 (some 2)) refl
      ∙ take_all-silent 3 v3 _ _ (at true k q d3 0x0F (some 3)) refl
      ∙ take_all-silent 4 v4 _ _ (at true k q d4 0x1F (some 4)) refl
      ∙ take_all-silent 5 v5 _ _ (at true k q d5 0x3F (some 5)) refl
      ∙ take_all-silent 6 v6 _ _ (at true k q d6 0x7F (some 6)) refl
      ∙ take_all-last 7 v7 _ (at true k q (put 7 v7 d6) 0xFF (some 7)) refl

  backward-collects :
      (v0 v1 v2 v3 v4 v5 v6 : ℕ) (d : ℕ → ℕ)
      → take_all
          ((6, v6) ∷ (5, v5) ∷ (4, v4) ∷ (3, v3) ∷ (2, v2) ∷ (1, v1) ∷ (0, v0) ∷ [])
          (at false k q d 0x80 (some 7))
        ≡ finish (
            at false k q
              (put 0 v0 (put 1 v1 (put 2 v2 (put 3 v3 (put 4 v4 (put 5 v5 (put 6 v6 d)))))))
              0xFF
              (some 0))
  unfolding take_piece turn collect
  backward-collects v0 v1 v2 v3 v4 v5 v6 d =
      let d6 = put 6 v6 d in
      let d5 = put 5 v5 d6 in
      let d4 = put 4 v4 d5 in
      let d3 = put 3 v3 d4 in
      let d2 = put 2 v2 d3 in
      let d1 = put 1 v1 d2 in
      take_all-silent 6 v6 _ _ (at false k q d6 0xC0 (some 6)) refl
      ∙ take_all-silent 5 v5 _ _ (at false k q d5 0xE0 (some 5)) refl
      ∙ take_all-silent 4 v4 _ _ (at false k q d4 0xF0 (some 4)) refl
      ∙ take_all-silent 3 v3 _ _ (at false k q d3 0xF8 (some 3)) refl
      ∙ take_all-silent 2 v2 _ _ (at false k q d2 0xFC (some 2)) refl
      ∙ take_all-silent 1 v1 _ _ (at false k q d1 0xFE (some 1)) refl
      ∙ take_all-last 0 v0 _ (at false k q (put 0 v0 d1) 0xFF (some 0)) refl

forward-AllSmall : (r : TcRate) (t : TcTime) → IsLabel r t → AllSmall (forward_group r t)
unfolding AllSmall
forward-AllSmall fps24 t l = ground arith
forward-AllSmall fps25 t l = ground arith
forward-AllSmall fps2997_df t l = ground arith
forward-AllSmall fps30 t l = ground arith

backward-AllSmall : (r : TcRate) (t : TcTime) → IsLabel r t → AllSmall (backward_group r t)
unfolding AllSmall
backward-AllSmall fps24 t l = ground arith
backward-AllSmall fps25 t l = ground arith
backward-AllSmall fps2997_df t l = ground arith
backward-AllSmall fps30 t l = ground arith

-- The eight pieces of a position that exists at its rate, sent forward to an assembler that expects
-- the first of them, give one event: the position two frames on, or the rate if the assembler was
-- not locked at it. The assembler is then locked at the rate and expects the next group.
pub forward_group-lem :
    (r : TcRate) (t : TcTime) (a : MtcAssembler)
    → IsLabel r t
    → a.forward ≡ true
    → (a.prev ≡ none) ⊎ (a.prev ≡ some 7)
    → push_all (forward_group r t) a ≡ (
      group_event r (add_frames t r 2) a ∷ [],
      at true true (some r) (pieces_forward r t a.pieces) 0xFF (some 7),
    )
forward_group-lem r t a l f e =
    let k = a.is_locked in
    let q = a.rate in
    push_all-take_all (forward_group r t) a (forward-AllSmall r t l)
    ∙ ap (λ b. take_all (forward_group r t) (at b k q a.pieces a.mask a.prev)) f
    ∙ take_all-silent 0 _ _ _ _ (first_forward (t.f % 16) a.mask a.prev k q a.pieces e)
    ∙ forward-collects k q _ _ _ _ _ _ _ _
    ∙ ap (λ x. (event_then x.0 [], x.1))
        (assemble-Holds r t (at true k q (pieces_forward r t a.pieces) 0xFF (some 7)) l
          (pieces_forward-Holds r t a.pieces l))

-- The eight pieces of a position that exists at its rate, sent backward to an assembler that
-- expects the last of them, give one event: the position itself, or the rate if the assembler was
-- not locked at it. The assembler is then locked at the rate and expects the next group.
pub backward_group-lem :
    (r : TcRate) (t : TcTime) (a : MtcAssembler)
    → IsLabel r t
    → a.forward ≡ false
    → (a.prev ≡ none) ⊎ (a.prev ≡ some 0)
    → push_all (backward_group r t) a ≡ (
      group_event r t a ∷ [],
      at false true (some r) (pieces_backward r t a.pieces) 0xFF (some 0),
    )
backward_group-lem r t a l f e =
    let k = a.is_locked in
    let q = a.rate in
    push_all-take_all (backward_group r t) a (backward-AllSmall r t l)
    ∙ ap (λ b. take_all (backward_group r t) (at b k q a.pieces a.mask a.prev)) f
    ∙ take_all-silent 7 _ _ _ _ (first_backward (last_half r t) a.mask a.prev k q a.pieces e)
    ∙ backward-collects k q _ _ _ _ _ _ _ _
    ∙ ap (λ x. (event_then x.0 [], x.1))
        (assemble-Holds r t (at false k q (pieces_backward r t a.pieces) 0xFF (some 0)) l
          (pieces_backward-Holds r t a.pieces l))

-- The bytes of a full frame, read field by field.
abbrev fields_of : TcRate → TcTime → TcTime
fields_of r t = record {
  h = (rate_code r * 32 + t.h) % 32;
  m = t.m % 128;
  s = t.s % 128;
  f = t.f % 128;
}

fields_of-lem : (r : TcRate) (t : TcTime) → IsLabel r t → fields_of r t ≡ t
fields_of-lem fps24 t l = ground arith
fields_of-lem fps25 t l = ground arith
fields_of-lem fps2997_df t l = ground arith
fields_of-lem fps30 t l = ground arith

decode_rate-rate_code :
    (r : TcRate) (t : TcTime) → t.h < 24 → decode_rate ((rate_code r * 32 + t.h) / 32 % 4) ≡ r
decode_rate-rate_code fps24 t l = ground arith
decode_rate-rate_code fps25 t l = ground arith
decode_rate-rate_code fps2997_df t l = ground arith
decode_rate-rate_code fps30 t l = ground arith

-- A full frame gives its position; the assembler is then unlocked and has no piece of a group.
pub full_frame-lem :
    (r : TcRate) (t : TcTime) (device : ℕ) (a : MtcAssembler)
    → IsLabel r t
    → push (0xF0 ∷ 0x7F ∷ device ∷ 1 ∷ 1 ∷ (rate_code r * 32 + t.h) ∷ t.m ∷ t.s ∷ t.f ∷ 0xF7 ∷ []) a
      ≡ (some (full_frame t), record a { mask = 0; prev = none; is_locked = false; rate = some r })
unfolding push position_bytes full_frame_of
full_frame-lem r t device a l =
    rw (decode_rate-rate_code r t l.hours, fields_of-lem r t l, IsLabel-is_valid t r l) refl
