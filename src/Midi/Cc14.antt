-- ===== src/Midi/Cc14.antt =====
-- crates/control-midi/src/cc14.rs: the pairing of the two halves of a 14-bit controller.
pub mod Pairing
pub mod Range
use videocuelist.Prelude.{
  ℕ, ◌+◌, ◌*◌, ◌-◌, max, Bool, true, false, not, ◌&&◌, List, [], ◌∷◌, ◌++◌, Option, none, some,
  ◌==◌, ltb, leb, any, or_else, unwrap_or, push_back, if◌then◌else◌,
}
use videocuelist.Table.{lookup, erase, insert, retain}
use videocuelist.Midi.Msg.{MidiMsg, control_change, control_change14, combine}

abbrev pub default_pair_timeout_ms : ℕ
default_pair_timeout_ms = 50

-- A channel and the controller of the upper half.
abbrev pub Key : Type 0
Key = ℕ × ℕ

abbrev pub key_eq : Key → Key → Bool
key_eq (c, n) (d, m) = c == d && n == m

pub record Pending : Type 0 where
  pub msb : ℕ
  pub at_ms : ℕ

pub record Cc14Assembler : Type 0 where
  -- The declared pairs: a set.
  pub pairs : List Key
  pub pending : List (Key × Pending)
  pub last_msb : List (Key × ℕ)
  pub timeout_ms : ℕ

abbrev pub contains : List Key → Key → Bool
contains pairs k = any (key_eq k) pairs

abbrev pub new : Cc14Assembler
new = record { pairs = []; pending = []; last_msb = []; timeout_ms = default_pair_timeout_ms }

abbrev pub with_timeout : ℕ → Cc14Assembler → Cc14Assembler
with_timeout t a = record a { timeout_ms = max t 1 }

-- A controller above 31 is no upper half.
abbrev pub valid_pairs : List Key → List Key
valid_pairs [] = []
valid_pairs ((channel, cc) ∷ ks) =
    let rest = valid_pairs ks in if ltb 31 cc then rest else (channel, cc) ∷ rest

unfoldable pub set_pairs : List Key → Cc14Assembler → Cc14Assembler
set_pairs ks a =
    let ps = valid_pairs ks in
    record a {
      pairs = ps;
      pending = retain (λ k p. contains ps k) a.pending;
      last_msb = retain (λ k v. contains ps k) a.last_msb;
    }

-- An upper half alone, `msb << 7`.
abbrev pub coarse : Key → ℕ → MidiMsg
coarse (channel, cc) msb = control_change14 channel cc (msb * 128)

-- The window of an upper half is over: `now_ms.saturating_sub(p.at_ms) >= timeout`.
abbrev pub is_expired : ℕ → ℕ → Pending → Bool
is_expired timeout now p = leb timeout (now - p.at_ms)

abbrev pub expired : ℕ → ℕ → List (Key × Pending) → List MidiMsg
expired timeout now [] = []
expired timeout now ((k, p) ∷ ps) =
    let rest = expired timeout now ps in
    if is_expired timeout now p then coarse k p.msb ∷ rest else rest

unfoldable pub flush : ℕ → Cc14Assembler → List MidiMsg × Cc14Assembler
flush now a = (
  expired a.timeout_ms now a.pending,
  record a { pending = retain (λ k p. not (is_expired a.timeout_ms now p)) a.pending },
)

-- An upper half waits for its lower half; one that was waiting goes out alone.
unfoldable pub feed_msb : Key → ℕ → ℕ → List MidiMsg → Cc14Assembler → List MidiMsg × Cc14Assembler
feed_msb k value now out a = (
  elim (lookup key_eq k a.pending) [ some p ↦ push_back out (coarse k p.msb) | none ↦ out ],
  record a {
    pending = insert key_eq k (record { msb = value; at_ms = now }) a.pending;
    last_msb = insert key_eq k value a.last_msb;
  },
)

-- The upper half that waits, or else the last one seen, or else 0.
abbrev pub msb_of : Key → Cc14Assembler → ℕ
msb_of k a = elim (lookup key_eq k a.pending) [
  | some p ↦ p.msb
  | none ↦ unwrap_or (lookup key_eq k a.last_msb) 0
]

unfoldable pub feed_lsb : Key → ℕ → List MidiMsg → Cc14Assembler → List MidiMsg × Cc14Assembler
feed_lsb (channel, cc) value out a = (
  push_back out (control_change14 channel cc (combine (msb_of (channel, cc) a) value)),
  record a { pending = erase key_eq (channel, cc) a.pending },
)

unfoldable pub feed_after :
    MidiMsg → ℕ → List MidiMsg → Cc14Assembler → List MidiMsg × Cc14Assembler
unfolding feed_msb feed_lsb
feed_after (control_change channel cc value) now out a =
    if contains a.pairs (channel, cc)
    then feed_msb (channel, cc) value now out a
    else if leb 32 cc && leb cc 63 && contains a.pairs (channel, cc - 32)
    then feed_lsb (channel, cc - 32) value out a
    else (push_back out (control_change channel cc value), a)
feed_after other now out a = (push_back out other, a)

unfoldable pub feed : MidiMsg → ℕ → Cc14Assembler → List MidiMsg × Cc14Assembler
unfolding flush feed_after
feed msg now a = let r = flush now a in feed_after msg now r.0 r.1
