-- ===== src/Midi/Msc/Go.antt =====
-- crates/control-midi/src/msc.rs: the frames for other receivers, and the number of a GO.
use videocuelist.Prelude.{
  ℕ, ◌≤◌, ◌≡◌, refl, true, false, List, [], ◌∷◌, ◌++◌, leb, none, some, arith, pop_back-push_back,
  push_back, ◌==◌,
}
use videocuelist.Text.{is_whitespace}
use videocuelist.Text.Words.{free, trim-free}
use videocuelist.Text.Decimal.{digit-is_whitespace}
use videocuelist.Text.Utf8.{from_utf8-ascii}
use videocuelist.Float.{Floats}
use videocuelist.Core.Model.{CueNumber}
use videocuelist.Core.Number.{to_string, u32_max, is_empty}
use videocuelist.Core.Number.RoundTrip.{from_str-to_string_number, to_string-free, to_string-some}
use videocuelist.Core.Command.{cue_goto, cue_standby}
use videocuelist.Midi.Msc.{
  parse_msc, msc_command, msc_all_call, is_addressed, parse_cue_field, first_field, field_value,
  valid, read_number,
}

module _ ⦃F : Floats⦄ where
  -- The frame of a command with its data, as a console sends it.
  abbrev pub msc_frame : ℕ → ℕ → ℕ → List ℕ → List ℕ
  msc_frame dev format command bytes =
      0xF0 ∷ 0x7F ∷ dev ∷ 0x02 ∷ format ∷ command ∷ push_back bytes 0xF7

  -- A frame for another device gives no command, whatever it holds: its device is neither this
  -- one nor the one for all, and this receiver does not take all.
  pub parse_msc-other :
      (b0 b1 dev b3 format command : ℕ) (rest : List ℕ) (device_id : ℕ)
      → (dev == msc_all_call) ≡ false
      → (device_id == msc_all_call) ≡ false
      → (dev == device_id) ≡ false
      → parse_msc (b0 ∷ b1 ∷ dev ∷ b3 ∷ format ∷ command ∷ rest) device_id ≡ none
  unfolding parse_msc
  parse_msc-other b0 b1 dev b3 format command rest device_id a b c = ground (arith, a, b, c)

  first_field-word :
      (w list : List ℕ) → free (λ c. c == 0) w ≡ true → first_field (w ++ (0 ∷ list)) ≡ w
  first_field-word [] list a = refl
  first_field-word (c ∷ w) list a = ground (arith, first_field-word w list)

  first_field-all : (w : List ℕ) → free (λ c. c == 0) w ≡ true → first_field w ≡ w
  first_field-all [] a = refl
  first_field-all (c ∷ w) a = ground (arith, first_field-all w)

  read_number-to_string : (n : CueNumber) → n ≤ u32_max → read_number (to_string n) ≡ some n
  read_number-to_string n l =
      rw
        (
          from_utf8-ascii (to_string n)
              (to_string-free (leb 0x80) (λ c d. ground (arith, d)) refl n),
          trim-free (to_string n) (to_string-free is_whitespace digit-is_whitespace refl n),
        )
        (from_str-to_string_number n l)

  field_value-number :
      (w : List ℕ) (n : CueNumber)
      → is_empty w ≡ false
      → read_number w ≡ some n
      → field_value w ≡ valid n
  field_value-number [] n e r = ground arith
  field_value-number (b ∷ bs) n e r = rw r refl

  field-number :
      (n : CueNumber) (list : List ℕ)
      → n ≤ u32_max
      → (parse_cue_field (to_string n) ≡ valid n)
        × (parse_cue_field (to_string n ++ (0 ∷ list)) ≡ valid n)
  unfolding parse_cue_field
  field-number n list l =
      let z = to_string-free (λ c. c == 0) (λ c d. ground (arith, d)) refl n in
      let v = field_value-number (to_string n) n (to_string-some n) (read_number-to_string n l) in
      (rw (first_field-all (to_string n) z) v, rw (first_field-word (to_string n) list z) v)

  pub frame-body :
      (dev format command device_id : ℕ) (bytes : List ℕ)
      → is_addressed dev device_id ≡ true
      → parse_msc (msc_frame dev format command bytes) device_id
        ≡ msc_command command (parse_cue_field bytes)
  unfolding parse_msc
  frame-body dev format command device_id bytes a = rw (a, pop_back-push_back bytes 0xF7) refl

  -- A GO or a LOAD for this receiver that carries the text of a cue number, alone or before the
  -- number of a list, is a GO to that cue, or puts it on standby.
  pub parse_msc-number :
      (dev format device_id : ℕ) (n : CueNumber) (list : List ℕ)
      → is_addressed dev device_id ≡ true
      → n ≤ u32_max
      → (parse_msc (msc_frame dev format 0x01 (to_string n)) device_id ≡ some (cue_goto n))
        × (parse_msc (msc_frame dev format 0x01 (to_string n ++ (0 ∷ list))) device_id
            ≡ some (cue_goto n))
        × (parse_msc (msc_frame dev format 0x04 (to_string n)) device_id ≡ some (cue_standby n))
  parse_msc-number dev format device_id n list a l =
      let k = field-number n list l in
      (
        rw (frame-body dev format 1 device_id (to_string n) a, k.0) refl,
        rw (frame-body dev format 1 device_id (to_string n ++ (0 ∷ list)) a, k.1) refl,
        rw (frame-body dev format 4 device_id (to_string n) a, k.0) refl,
      )
