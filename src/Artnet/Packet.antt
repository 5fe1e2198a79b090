-- ===== src/Artnet/Packet.antt =====
-- crates/control-artnet/src/packet.rs: the parsing of ArtDMX and ArtPoll packets, and their builders.
-- A byte is a number below 256.
pub mod RoundTrip
use videocuelist.Prelude.{
  ℕ, zero, suc, ◌+◌, ◌*◌, ◌/◌, ◌%◌, Bool, true, false, not, ◌&&◌, ◌||◌, List, [], ◌∷◌, ◌++◌, Option,
  none, some, ltb, ◌==◌, length, if◌then◌else◌, push_back, get_elem?, unwrap_or,
}
use videocuelist.Text.{text_eq}

abbrev pub op_poll : ℕ
op_poll = 0x2000

abbrev pub op_dmx : ℕ
op_dmx = 0x5000

abbrev pub prot_ver : ℕ
prot_ver = 14

pub record ArtDmx : Type 0 where
  pub universe : ℕ
  pub sequence : ℕ
  pub channels : List ℕ

pub record ArtPoll : Type 0 where
  pub flags : ℕ
  pub priority : ℕ

-- `u16::from_le_bytes` and `u16::from_be_bytes`.
abbrev pub from_le_bytes : ℕ → ℕ → ℕ
from_le_bytes a b = a + 256 * b

abbrev pub from_be_bytes : ℕ → ℕ → ℕ
from_be_bytes a b = 256 * a + b

-- "Art-Net" and a zero byte.
abbrev pub artnet_id : List ℕ
artnet_id = b'A' ∷ b'r' ∷ b't' ∷ b'-' ∷ b'N' ∷ b'e' ∷ b't' ∷ 0 ∷ []

-- The slice of the first `n` bytes, shorter if there are fewer.
unfoldable pub first : ℕ → List ℕ → List ℕ
first zero s = []
first (suc n) [] = []
first (suc n) (c ∷ s) = c ∷ first n s

-- The body of an ArtDMX packet, after its header and its version were accepted.
unfoldable pub dmx_body : (sequence lo hi len_hi len_lo : ℕ) → List ℕ → Option ArtDmx
dmx_body sequence lo hi len_hi len_lo rest =
    let len = from_be_bytes len_hi len_lo in
    if len == 0 || ltb 512 len || ltb (length rest) len
    then none
    else some (record {
      universe = from_le_bytes lo hi % 0x8000;
      sequence = sequence;
      channels = first len rest;
    })

-- `packet[i]`, which every caller reads below the length that it has checked.
abbrev pub byte : List ℕ → ℕ → ℕ
byte packet i = unwrap_or (get_elem? packet i) 0

-- `&packet[n..]`.
abbrev pub rest_from : ℕ → List ℕ → List ℕ
rest_from zero s = s
rest_from (suc n) [] = []
rest_from (suc n) (c ∷ s) = rest_from n s

unfoldable pub parse_artdmx : List ℕ → Option ArtDmx
parse_artdmx packet =
    if ltb (length packet) 18 || not (text_eq (first 8 packet) artnet_id)
    then none
    else if not (from_le_bytes (byte packet 8) (byte packet 9) == op_dmx)
    then none
    else if ltb (from_be_bytes (byte packet 10) (byte packet 11)) prot_ver
    then none
    else dmx_body (byte packet 12) (byte packet 14) (byte packet 15) (byte packet 16)
        (byte packet 17) (rest_from 18 packet)

-- The flags and the priority are 0 where the packet ends before them.
unfoldable pub parse_artpoll : List ℕ → Option ArtPoll
parse_artpoll packet =
    if ltb (length packet) 12 || not (text_eq (first 8 packet) artnet_id)
    then none
    else if not (from_le_bytes (byte packet 8) (byte packet 9) == op_poll)
    then none
    else if ltb (from_be_bytes (byte packet 10) (byte packet 11)) prot_ver
    then none
    else some (record {
      flags = unwrap_or (get_elem? packet 12) 0;
      priority = unwrap_or (get_elem? packet 13) 0;
    })

-- "Art-Net", a zero byte, an operation, and the version.
abbrev pub header : ℕ → List ℕ → List ℕ
header op rest =
    b'A'
    ∷ b'r'
    ∷ b't'
    ∷ b'-'
    ∷ b'N'
    ∷ b'e'
    ∷ b't'
    ∷ 0
    ∷ (op % 256)
    ∷ (op / 256)
    ∷ 0
    ∷ prot_ver
    ∷ rest

-- A zero more where the number of channels is odd.
abbrev pub pad : List ℕ → List ℕ
pad kept = if length kept % 2 == 1 then push_back kept 0 else kept

-- The channels that are sent: 512 at most, and one more zero where their number is odd.
unfoldable pub padded : List ℕ → List ℕ
padded channels = pad (first 512 channels)

unfoldable pub build_artdmx : ℕ → ℕ → List ℕ → List ℕ
build_artdmx universe sequence channels =
    let sent = padded channels in
    header op_dmx (
      sequence
      ∷ 0
      ∷ (universe % 256)
      ∷ (universe / 256)
      ∷ (length sent / 256)
      ∷ (length sent % 256)
      ∷ sent)

unfoldable pub build_artpoll : List ℕ
build_artpoll = header op_poll (0 ∷ 0 ∷ [])
