-- ===== src/Midi/Pickup.antt =====
-- crates/control-midi/src/pickup.rs: the soft takeover of faders, with its bounded cache of values.
pub mod Takeover
use videocuelist.Prelude.{
  ℕ, Bool, true, false, not, ◌&&◌, ◌||◌, List, [], ◌∷◌, Option, none, some, leb, length, unwrap_or,
  if◌then◌else◌,
}
use videocuelist.Text.{Text, text_eq}
use videocuelist.Table.{lookup, erase, insert}
use videocuelist.Float.{Floats}
use videocuelist.Midi.Cc14.{Key, key_eq}

abbrev pub max_logical_entries : ℕ
max_logical_entries = 4096

module _ ⦃F : Floats⦄ where
  open F use {F32, lt32, le32, sub32, abs32}

  pub data PickupDecision : Type 0 where
    pass : F32 → PickupDecision
    blocked : (current incoming : F32) → PickupDecision

  pub record FaderState : Type 0 where
    pub addr : Text
    pub engaged : Bool
    pub last : Option F32

  pub record Pickup : Type 0 where
    pub logical : List (Text × F32)
    pub faders : List (Key × FaderState)

  abbrev pub new : Pickup
  new = record { logical = []; faders = [] }

  abbrev pub contains_key : Text → List (Text × F32) → Bool
  contains_key addr m = elim (lookup text_eq addr m) [ some v ↦ true | none ↦ false ]

  -- The first key of an iteration goes, whichever that is.
  unfoldable pub evict_one : List (Text × F32) → List (Text × F32)
  evict_one [] = []
  evict_one ((k, v) ∷ m) = erase text_eq k ((k, v) ∷ m)

  unfoldable pub insert_logical : Text → F32 → List (Text × F32) → List (Text × F32)
  insert_logical addr value m =
      let full = not (contains_key addr m) && leb max_logical_entries (length m) in
      insert text_eq addr value (if full then evict_one m else m)

  abbrev pub update_logical : Text → F32 → Pickup → Pickup
  update_logical addr value p = record p { logical = insert_logical addr value p.logical }

  abbrev pub is_engaged : Key → Pickup → Bool
  is_engaged k p = elim (lookup key_eq k p.faders) [ some f ↦ f.engaged | none ↦ false ]

  abbrev pub fresh : Text → FaderState
  fresh addr = record { addr = addr; engaged = false; last = none }

  -- The state of the fader, started anew if it is new or aims at another address.
  unfoldable pub fader_of : Key → Text → Pickup → FaderState
  fader_of k addr p =
      let fs = unwrap_or (lookup key_eq k p.faders) (fresh addr) in
      if text_eq fs.addr addr then fs else fresh addr

  -- The value has moved elsewhere since the fader was last seen.
  abbrev pub has_drifted : F32 → F32 → Option F32 → Bool
  has_drifted tolerance current none = false
  has_drifted tolerance current (some last) = lt32 tolerance (abs32 (sub32 current last))

  abbrev pub has_crossed : F32 → F32 → Option F32 → Bool
  has_crossed incoming current none = false
  has_crossed incoming current (some last) =
      (le32 last current && le32 current incoming) || (le32 current last && le32 incoming current)

  -- Whether the fader has the hand, against the known value of its parameter.
  unfoldable pub engages : F32 → F32 → FaderState → Option F32 → Bool
  engages incoming tolerance fs none = true
  engages incoming tolerance fs (some current) =
      let held = fs.engaged && not (has_drifted tolerance current fs.last) in
      held
      || le32 (abs32 (sub32 incoming current)) tolerance
      || has_crossed incoming current fs.last

  unfoldable pub filter : Key → Text → F32 → F32 → Pickup → PickupDecision × Pickup
  filter k addr incoming tolerance p =
      let known = lookup text_eq addr p.logical in
      let engaged = engages incoming tolerance (fader_of k addr p) known in
      let seen =
        insert key_eq k (record { addr = addr; engaged = engaged; last = some incoming })
          p.faders in
      if engaged
      then (
        pass incoming,
        record { logical = insert_logical addr incoming p.logical; faders = seen },
      )
      else (
        blocked (unwrap_or known incoming) incoming,
        record { logical = p.logical; faders = seen },
      )
