-- ===== src/Artnet/Mapper.antt =====
-- crates/control-artnet/src/mapper.rs: the DMX patch on the frames that arrive, and the sequence
-- numbers of each universe.
pub mod Replay
pub mod Sequence
use videocuelist.Prelude.{
  ℕ, ◌+◌, ◌*◌, ◌-◌, Bool, false, ◌&&◌, List, [], ◌∷◌, map, Option, none, some, get_elem?, leb, ◌==◌,
  if◌then◌else◌, ◌>>=◌,
}
use videocuelist.Text.{Text}
use videocuelist.Core.Patch.{DmxBits, eight, sixteen, PatchEntry}
use videocuelist.Table.{lookup, insert}
use videocuelist.Float.{Floats, nat32}
use videocuelist.Core.Model.{ParamValue}
use videocuelist.Core.Template.{Source}
use videocuelist.Core.Command.{Command, param_set}

abbrev pub sequence_gap_warn : ℕ
sequence_gap_warn = 8

module _ ⦃F : Floats⦄ where
  open F use {F32, add32, sub32, mul32, div32}

  pub record DmxMapper : Type 0 where
    pub entries : List PatchEntry
    pub last_raw : List (Option ℕ)

  -- `vec![None; entries.len()]`.
  abbrev pub never_seen : List PatchEntry → List (Option ℕ)
  never_seen es = map (λ e. none) es

  abbrev pub new_mapper : List PatchEntry → DmxMapper
  new_mapper es = record { entries = es; last_raw = never_seen es }

  abbrev pub set_entries : List PatchEntry → DmxMapper → DmxMapper
  set_entries es m = record { entries = es; last_raw = never_seen es }

  abbrev pub raw_at : DmxBits → ℕ → List ℕ → Option ℕ
  raw_at eight i bytes = get_elem? bytes i
  raw_at sixteen i bytes = do
    msb ← get_elem? bytes i
    lsb ← get_elem? bytes (i + 1)
    some (msb * 256 + lsb)

  unfoldable pub raw_value : PatchEntry → List ℕ → Option ℕ
  raw_value e bytes =
      if leb 1 e.channel && leb e.channel 512 then raw_at e.bits (e.channel - 1) bytes else none

  abbrev pub norm_of : DmxBits → ℕ → F32
  norm_of eight raw = div32 (nat32 raw) (nat32 255)
  norm_of sixteen raw = div32 (nat32 raw) (nat32 65535)

  unfoldable pub entry_command : PatchEntry → ℕ → Command
  entry_command e raw =
      let v = add32 e.min (mul32 (norm_of e.bits raw) (sub32 e.max e.min)) in
      param_set e.addr (ParamValue.f v) Source.artnet

  -- What the frame has for an entry: nothing if it is of another universe or too short.
  unfoldable pub entry_raw : ℕ → List ℕ → PatchEntry → Option ℕ
  unfolding raw_value
  entry_raw universe bytes e = if e.universe == universe then raw_value e bytes else none

  -- The last value that was seen of the channel is this one.
  abbrev pub is_unchanged : Option ℕ → ℕ → Bool
  is_unchanged none raw = false
  is_unchanged (some last) raw = last == raw

  -- The commands and the values seen after one entry, before those of the entries that follow.
  abbrev pub apply_entry :
      PatchEntry
      → Option ℕ
      → Option ℕ
      → List Command × List (Option ℕ)
      → List Command × List (Option ℕ)
  apply_entry e last none (out, seen) = (out, last ∷ seen)
  apply_entry e last (some raw) (out, seen) =
      if is_unchanged last raw
      then (out, last ∷ seen)
      else (entry_command e raw ∷ out, some raw ∷ seen)

  -- The loop of `apply`, over the entries and the last values at the same index.
  unfoldable pub apply_entries :
      ℕ → List ℕ → List PatchEntry → List (Option ℕ) → Option (List Command × List (Option ℕ))
  unfolding entry_raw entry_command
  apply_entries universe bytes [] seen = some ([], seen)
  apply_entries universe bytes (e ∷ es) [] =
      let rest = apply_entries universe bytes es [] in
      elim (entry_raw universe bytes e) [ none ↦ rest | some raw ↦ none ]
  apply_entries universe bytes (e ∷ es) (last ∷ seen) = do
    rest ← apply_entries universe bytes es seen
    some (apply_entry e last (entry_raw universe bytes e) rest)

  unfoldable pub apply_frame : ℕ → List ℕ → DmxMapper → Option (List Command × DmxMapper)
  unfolding apply_entries
  apply_frame universe bytes m = do
    (out, seen) ← apply_entries universe bytes m.entries m.last_raw
    some (out, record m { last_raw = seen })

  abbrev pub smoothing_overrides : List PatchEntry → List (Text × F32)
  smoothing_overrides es = map (λ e. (e.addr, e.smoothing_ms)) es

-- The last sequence number of each universe.
pub record SequenceTracker : Type 0 where
  pub last : List (ℕ × ℕ)

abbrev pub gap_of : ℕ → ℕ → ℕ
gap_of last sequence =
    let expected = if last == 255 then 1 else last + 1 in
    if leb expected sequence then sequence - expected else 255 - expected + sequence

abbrev pub reported : Option ℕ → ℕ → Option ℕ
reported none sequence = none
reported (some last) sequence =
    let gap = gap_of last sequence in
    if last == 0 then none else if leb sequence_gap_warn gap then some gap else none

unfoldable pub observe : ℕ → ℕ → SequenceTracker → Option ℕ × SequenceTracker
observe universe sequence t = if sequence == 0 then (none, t) else (
  reported (lookup ◌==◌ universe t.last) sequence,
  record { last = insert ◌==◌ universe sequence t.last },
)
