-- ===== src/Artnet/Packet/RoundTrip.antt =====
-- crates/control-artnet/src/packet.rs: what is built, parsed; and the range of what is parsed.
use videocuelist.Prelude.{
  ◌∙◌, Bool, ◌||◌, not, Option, none, if◌then◌else◌, true, ℕ, zero, suc, ◌+◌, ◌*◌, ◌/◌, ◌%◌, ◌<◌,
  ◌≤◌, ◌≡◌, refl, ap, List, [], ◌∷◌, some, length, arith, length-append, ◌==◌, Bool-cases, inl, inr,
  false, ltb,
}
use videocuelist.Text.{text_eq}
use videocuelist.Artnet.Packet.{
  header, ArtDmx, from_be_bytes, from_le_bytes, op_dmx, prot_ver, byte, artnet_id, pad, first,
  dmx_body, parse_artdmx, padded, build_artdmx,
}

first-length : (s : List ℕ) → first (length s) s ≡ s
unfolding first
first-length [] = refl
first-length (c ∷ s) = ap (λ z. c ∷ z) (first-length s)

length-first : (n : ℕ) (s : List ℕ) → n ≤ length s → length (first n s) ≡ n
unfolding first
length-first zero s l = refl
length-first (suc n) [] l = absurd (omega arith)
length-first (suc n) (c ∷ s) l = ap suc (length-first n s (omega arith))

first-le : (n : ℕ) (s : List ℕ) → (length (first n s) ≤ n) × (length (first n s) ≤ length s)
unfolding first
first-le zero s = (omega arith, omega arith)
first-le (suc n) [] = (omega arith, omega arith)
first-le (suc n) (c ∷ s) = let k = first-le n s in (omega (arith, k), omega (arith, k))

first-positive : (n : ℕ) (s : List ℕ) → 0 < n → 0 < length s → 0 < length (first n s)
unfolding first
first-positive zero s p q = absurd (omega arith)
first-positive (suc n) [] p q = absurd (omega arith)
first-positive (suc n) (c ∷ s) p q = omega arith

pad-length :
    (w : List ℕ) → 0 < length w → length w ≤ 512 → (0 < length (pad w)) × (length (pad w) ≤ 512)
pad-length w p l =
    let a = length-append w (0 ∷ []) in
    elim (Bool-cases (length w % 2 == 1)) [
      | inl e ↦ rw e (omega (arith, a), omega (arith, a, odd (length w) e))
      | inr e ↦ rw e (p, l)
    ]
  where
    odd : (n : ℕ) → (n % 2 == 1) ≡ true → n % 2 ≡ 1
    odd n e = ground arith

-- The channels that are sent are 1 to 512, if there is one.
padded-length : (s : List ℕ) → 0 < length s → (0 < length (padded s)) × (length (padded s) ≤ 512)
unfolding padded
padded-length s l =
    pad-length (first 512 s) (first-positive 512 s (omega arith) l) (first-le 512 s).0

join : (n : ℕ) → 256 * (n / 256) + n % 256 ≡ n
join n = omega arith

-- The body of a packet with all its channels.
dmx_body-lem :
    (sequence universe : ℕ) (sent : List ℕ)
    → 0 < length sent
    → length sent ≤ 512
    → dmx_body sequence
        (universe % 256)
        (universe / 256)
        (length sent / 256)
        (length sent % 256)
        sent
      ≡ some (record { universe = universe % 0x8000; sequence = sequence; channels = sent })
unfolding dmx_body
dmx_body-lem sequence universe sent p l = rw (join (length sent), first-length sent) (ground arith)

long : (packet : List ℕ) → 18 ≤ length packet → ltb (length packet) 18 ≡ false
long packet l = ground arith

-- Behind the header of an ArtDMX packet its body is read.
parse_artdmx-header :
    (sequence lo hi l0 l1 : ℕ) (sent : List ℕ)
    → parse_artdmx (header op_dmx (sequence ∷ 0 ∷ lo ∷ hi ∷ l0 ∷ l1 ∷ sent))
      ≡ dmx_body sequence lo hi l0 l1 sent
unfolding parse_artdmx first
parse_artdmx-header sequence lo hi l0 l1 sent =
    rw (long (header op_dmx (sequence ∷ 0 ∷ lo ∷ hi ∷ l0 ∷ l1 ∷ sent)) (omega arith)) refl

-- An ArtDMX packet with a channel at least comes back as it was built: its universe of 15 bits, its
-- sequence, and the channels that were sent.
pub parse_artdmx-build_artdmx :
    (universe sequence : ℕ) (channels : List ℕ)
    → 0 < length channels
    → parse_artdmx (build_artdmx universe sequence channels)
      ≡ some
          (record { universe = universe % 0x8000; sequence = sequence; channels = padded channels })
unfolding build_artdmx
parse_artdmx-build_artdmx universe sequence channels l =
    let k = padded-length channels l in
    parse_artdmx-header sequence (universe % 256) (universe / 256) (length (padded channels) / 256)
      (length (padded channels) % 256) (padded channels)
    ∙ dmx_body-lem sequence universe (padded channels) k.0 k.1

-- What a parsed packet holds.
abbrev pub InBounds : Option ArtDmx → Type 0
InBounds none = Unit
InBounds (some x) = (x.universe < 0x8000) × (0 < length x.channels) × (length x.channels ≤ 512)

InBounds-if :
    (b : Bool) (x : Option ArtDmx) → (b ≡ false → InBounds x) → InBounds (if b then none else x)
InBounds-if true x f = tt
InBounds-if false x f = f refl

dmx_body-InBounds :
    (sequence lo hi len_hi len_lo : ℕ) (rest : List ℕ)
    → InBounds (dmx_body sequence lo hi len_hi len_lo rest)
unfolding dmx_body
dmx_body-InBounds sequence lo hi len_hi len_lo rest =
    let len = from_be_bytes len_hi len_lo in
    InBounds-if (len == 0 || ltb 512 len || ltb (length rest) len) _ (λ e.
      let q = length-first len rest (ground (arith, e)) in
      (omega arith, rw q (ground (arith, e)), rw q (ground (arith, e))))

-- Whatever the packet, what is parsed has a universe of 15 bits and 1 to 512 channels.
pub parse_artdmx-InBounds : (packet : List ℕ) → InBounds (parse_artdmx packet)
unfolding parse_artdmx
parse_artdmx-InBounds packet =
    InBounds-if (ltb (length packet) 18 || not (text_eq (first 8 packet) artnet_id)) _ (λ a.
      InBounds-if (not (from_le_bytes (byte packet 8) (byte packet 9) == op_dmx)) _ (λ b.
        InBounds-if (ltb (from_be_bytes (byte packet 10) (byte packet 11)) prot_ver) _
          (λ c. dmx_body-InBounds _ _ _ _ _ _)))
