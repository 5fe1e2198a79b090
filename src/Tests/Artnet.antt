-- ===== src/Tests/Artnet.antt =====
-- crates/control-artnet/src/packet.rs at concrete packets.
use videocuelist.Prelude.{some, [], ◌∷◌, ◌≡◌, refl, arith}
use videocuelist.Artnet.Packet.{
  parse_artdmx, build_artdmx, padded, parse_artpoll, build_artpoll, first,
}
use videocuelist.Artnet.Packet.RoundTrip.{
  parse_artdmx-build_artdmx, InBounds, parse_artdmx-InBounds,
}

-- Three channels are sent as four.
three_channels : padded (10 ∷ 20 ∷ 30 ∷ []) ≡ 10 ∷ 20 ∷ 30 ∷ 0 ∷ []
unfolding padded first
three_channels = refl

-- The packet of a console that looks for players.
poll : parse_artpoll build_artpoll ≡ some (record { flags = 0; priority = 0 })
unfolding parse_artpoll build_artpoll first
poll = refl

parse_artdmx-build_artdmx_example :
    parse_artdmx (build_artdmx 0x8003 7 (10 ∷ 20 ∷ 30 ∷ []))
    ≡ some (record { universe = 3; sequence = 7; channels = padded (10 ∷ 20 ∷ 30 ∷ []) })
parse_artdmx-build_artdmx_example =
    parse_artdmx-build_artdmx 0x8003 7 (10 ∷ 20 ∷ 30 ∷ []) (omega arith)

parse_artdmx-InBounds_example : InBounds (parse_artdmx (build_artdmx 3 7 (10 ∷ [])))
parse_artdmx-InBounds_example = parse_artdmx-InBounds (build_artdmx 3 7 (10 ∷ []))
