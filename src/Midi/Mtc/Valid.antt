-- ===== src/Midi/Mtc/Valid.antt =====
-- crates/control-midi/src/mtc.rs: the positions of the events, against the labels of their rate.
use videocuelist.Prelude.{
  ℕ, ◌/◌, ◌%◌, ◌==◌, Option-cases, ◌≡◌, refl, Bool, true, false, not, List, [], ◌∷◌, Option, none,
  some, arith, inl, inr, if◌then◌else◌,
}
use videocuelist.Core.Timecode.{TcRate, fps24, fps25, fps2997_df, fps30, TcTime}
use videocuelist.Core.Timecode.Frames.{IsLabel, from_frames-IsLabel}
use videocuelist.Midi.Mtc.{
  MtcEvent, MtcAssembler, is_valid, add_frames, decode_rate, locked, time, full_frame, signal_lost,
  turn, collect, assemble, take_piece, quarter_frame, full_frame_of, push_quarter, push,
  position_bytes, is_complete, time_of,
}

-- The test of the code and the labels that exist agree.
pub is_valid-IsLabel : (t : TcTime) (rate : TcRate) → is_valid t rate ≡ true → IsLabel rate t
unfolding is_valid
is_valid-IsLabel t fps24 e = ground arith
is_valid-IsLabel t fps25 e = ground arith
is_valid-IsLabel t fps2997_df e = ground arith
is_valid-IsLabel t fps30 e = ground arith

pub IsLabel-is_valid : (t : TcTime) (rate : TcRate) → IsLabel rate t → is_valid t rate ≡ true
unfolding is_valid
IsLabel-is_valid t fps24 l = ground arith
IsLabel-is_valid t fps25 l = ground arith
IsLabel-is_valid t fps2997_df l = ground arith
IsLabel-is_valid t fps30 l = ground arith

-- The event of a step fits the assembler that it leaves: a position exists at the rate that the
-- assembler has then, and a rate that is announced is that rate.
abbrev pub Fits : Option MtcEvent × MtcAssembler → Type 0
Fits (none, a) = Unit
Fits (some signal_lost, a) = Unit
Fits (some (locked r), a) = a.rate ≡ some r
Fits (some (time t), a) = (r : TcRate) × (a.rate ≡ some r) × IsLabel r t
Fits (some (full_frame t), a) = (r : TcRate) × (a.rate ≡ some r) × IsLabel r t

Fits-if :
    (b : Bool) (x y : Option MtcEvent × MtcAssembler)
    → (b ≡ true → Fits x)
    → (b ≡ false → Fits y)
    → Fits (if b then x else y)
Fits-if true x y f g = f refl
Fits-if false x y f g = g refl

Fits-time :
    (newly : Bool) (r : TcRate) (t : TcTime) (a : MtcAssembler)
    → a.rate ≡ some r
    → IsLabel r t
    → Fits (some (if newly then locked r else time t), a)
Fits-time true r t a e l = e
Fits-time false r t a e l = (r, e, l)

IsLabel-if :
    (b : Bool) (r : TcRate) (t u : TcTime)
    → IsLabel r t
    → IsLabel r u
    → IsLabel r (if b then t else u)
IsLabel-if true r t u l k = l
IsLabel-if false r t u l k = k

assemble-Fits : (a : MtcAssembler) → Fits (assemble a)
unfolding assemble add_frames
assemble-Fits a =
    let r = decode_rate (a.pieces 7 / 2) in
    Fits-if (not (is_valid (time_of a.pieces) r)) _ _ (λ e. tt)
      (λ e. Fits-time _ r _ _ refl (
        IsLabel-if a.forward r _ _ (from_frames-IsLabel _ r)
          (is_valid-IsLabel (time_of a.pieces) r (ground (arith, e)))))

take_piece-Fits : (piece val : ℕ) (a : MtcAssembler) → Fits (take_piece piece val a)
unfolding take_piece
take_piece-Fits piece val a =
    let next = collect piece val (turn piece a).1 in
    Fits-if (turn piece a).0 _ _ (λ e. tt)
      (λ e. Fits-if (is_complete piece next) _ _ (λ d. assemble-Fits next) (λ d. tt))

full_frame_of-Fits : (hh m s f : ℕ) (a : MtcAssembler) → Fits (full_frame_of hh m s f a)
unfolding full_frame_of
full_frame_of-Fits hh m s f a =
    let r = decode_rate (hh / 32 % 4) in
    Fits-if (not (is_valid (record { h = hh % 32; m = m % 128; s = s % 128; f = f % 128 }) r)) _ _
      (λ e. tt) (λ e. (r, refl, is_valid-IsLabel _ r (ground (arith, e))))

push_quarter-Fits : (bytes : List ℕ) (a : MtcAssembler) → Fits (push_quarter bytes a)
unfolding push_quarter quarter_frame
push_quarter-Fits [] a = tt
push_quarter-Fits (b ∷ []) a = tt
push_quarter-Fits (b ∷ d ∷ rest) a =
    Fits-if (b == 0xF1) _ _ (λ e. take_piece-Fits (d % 128 / 16) (d % 128 % 16) a) (λ e. tt)

-- Whatever the bytes and the state, a position that is given exists at the rate that the assembler
-- has then, and a rate that is announced is that rate.
pub push-Fits : (bytes : List ℕ) (a : MtcAssembler) → Fits (push bytes a)
unfolding push
push-Fits bytes a = elim (Option-cases (position_bytes bytes)) [
  | inl n ↦ rw (n, push) (push_quarter-Fits bytes a)
  | inr ((hh, m, s, f), p) ↦ rw (p, push) (full_frame_of-Fits hh m s f a)
]
