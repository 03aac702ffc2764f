-- ===== src/Tests/Packets.antt =====
-- packet/: packets and replay windows at concrete inputs.
use aurora_core.Common.{ℕ, ◌≡◌, refl, arith, List, [], ◌∷◌, none, length}
use aurora_core.Errors.{ok}
use aurora_core.Packet.Codec.{AuroraPacket, encode_aurora_packet, decode_aurora_packet}
use aurora_core.Packet.Codec.RoundTrip.{
  encode_aurora_packet-decode, decode_aurora_packet-encode, PacketFits,
}
use aurora_core.Common.{replicate, ◌++◌}
use aurora_core.Registry.{frame_route_forward}
use aurora_core.Wire.Encoder.{encode}
use aurora_core.Protocol.Frames.{AuroraFrame}
use aurora_core.Protocol.Route.{RouteForwardFrame, encode_route_forward, validate_route_forward}
use aurora_core.Packet.Onion.{decode_forwarded_packet, decode_forwarded_packet-carried}
use aurora_core.Packet.Window.Refinement.{window_answers, remembered_answers, window-remembers}

window-remembers_example :
    window_answers 3 none (5 ∷ 1 ∷ 3 ∷ 5 ∷ 9 ∷ 5 ∷ 7 ∷ 7 ∷ [])
    ≡ remembered_answers 3 [] (5 ∷ 1 ∷ 3 ∷ 5 ∷ 9 ∷ 5 ∷ 7 ∷ 7 ∷ [])
window-remembers_example = window-remembers 3 (5 ∷ 1 ∷ 3 ∷ 5 ∷ 9 ∷ 5 ∷ 7 ∷ 7 ∷ [])

abbrev small_packet : AuroraPacket
small_packet = record {
  route_instance_id = 300;
  hop_layer = 1;
  direction = 0;
  key_phase = 2;
  packet_number = 7;
  ciphertext = 1 ∷ 2 ∷ 3 ∷ [];
  auth_tag = 0 ∷ 1 ∷ 2 ∷ 3 ∷ 4 ∷ 5 ∷ 6 ∷ 7 ∷ 8 ∷ 9 ∷ 10 ∷ 11 ∷ 12 ∷ 13 ∷ 14 ∷ 15 ∷ [];
}

abbrev small_packet_bytes : List ℕ
small_packet_bytes = 65 ∷ 44 ∷ 1 ∷ 0 ∷ 2 ∷ 7 ∷ 0 ∷ 0 ∷ 3 ∷ 1 ∷ 2 ∷ 3 ∷ small_packet.auth_tag

small_packet_fits : PacketFits small_packet
small_packet_fits = record {
  route_fits = omega arith;
  number_fits = omega arith;
  ciphertext_fits = omega arith;
  tag_fits = refl;
}

encode_aurora_packet-decode_example :
    (b : List ℕ) × (encode_aurora_packet small_packet ≡ ok b)
    × (decode_aurora_packet b ≡ ok small_packet)
encode_aurora_packet-decode_example = encode_aurora_packet-decode small_packet small_packet_fits

small_packet_decoded : decode_aurora_packet small_packet_bytes ≡ ok small_packet
unfolding decode_aurora_packet aurora_core.Protocol.Validate.decode_whole
    aurora_core.Packet.Codec.read_packet aurora_core.Wire.Reader.read_opaque_fixed
    aurora_core.Wire.Reader.read_opaque24 aurora_core.Wire.Reader.read_varint
    aurora_core.Wire.Reader.read_uint8 aurora_core.Wire.Reader.new_reader
    aurora_core.Wire.Varint.decode_varint aurora_core.Common.Words.join2 aurora_core.Wire.Reader.eof
small_packet_decoded = refl

decode_aurora_packet-encode_example : encode_aurora_packet small_packet ≡ ok small_packet_bytes
decode_aurora_packet-encode_example =
    decode_aurora_packet-encode small_packet_bytes small_packet (ground arith) small_packet_decoded

-- A route-forward payload whose prelude is the packet above.
abbrev carrying : AuroraFrame
carrying = record {
  frame_type = frame_route_forward;
  flow_id = 0;
  flags = 0;
  payload =
      5
      ∷ 1
      ∷ (replicate 48 7
          ++ (replicate 48 8
              ++ (0
                  ∷ 16
                  ∷ (replicate 16 3
                      ++ (1 ∷ 0 ∷ 6 ∷ 127 ∷ 0 ∷ 0 ∷ 1 ∷ 1 ∷ 187 ∷ 0 ∷ 0 ∷ 28
                          ∷ small_packet_bytes)))));
}

carrying_decoded : decode_forwarded_packet (carrying ∷ []) ≡ ok small_packet
unfolding decode_forwarded_packet aurora_core.Packet.Onion.decode_route_forward_payload
    aurora_core.Protocol.Validate.decode_whole aurora_core.Protocol.Route.decode_route_forward
    aurora_core.Wire.Reader.read_opaque24 aurora_core.Wire.Reader.read_opaque16
    aurora_core.Wire.Reader.read_varint aurora_core.Wire.Reader.read_pre_hash
    aurora_core.Wire.Reader.read_uint8 aurora_core.Wire.Reader.new_reader
    aurora_core.Wire.Varint.decode_varint aurora_core.Wire.Reader.eof validate_route_forward
    decode_aurora_packet aurora_core.Packet.Codec.read_packet
carrying_decoded = refl

decode_forwarded_packet-carried_example :
    (f : AuroraFrame) × (w : RouteForwardFrame) × ((carrying ∷ []) ≡ f ∷ [])
    × (f.frame_type ≡ frame_route_forward)
    × (encode (encode_route_forward w) ≡ ok f.payload)
    × (validate_route_forward w ≡ ok tt)
    × (decode_aurora_packet w.opaque_next_hop_prelude ≡ ok small_packet)
decode_forwarded_packet-carried_example =
    decode_forwarded_packet-carried (carrying ∷ []) small_packet (ground arith) carrying_decoded
