-- ===== src/Packet/Codec.antt =====
-- packet/packet.go: the packet on the wire. The view decoder takes the same bytes; its borrowed slice
-- has no counterpart here.
pub mod RoundTrip
use aurora_core.Common.{
  ℕ, ◌+◌, ◌^◌, ◌-◌, Bool, true, false, not, Option, none, some, List, [], ◌∷◌, ltb, ◌==◌,
  if◌then◌else◌, length, ◌||◌,
}
use aurora_core.Errors.{Error, Result, ok, fail, trailing_packet}
use aurora_core.Wire.Varint.{varint_len}
use aurora_core.Wire.Encoder.{
  Write, ◌>>◌, encode, encode_with_capacity, write_varint, write_uint8, write_opaque24,
  write_opaque_fixed,
}
use aurora_core.Wire.Reader.{
  Read, ◌>>=◌, pure, read_varint, read_uint8, read_opaque24, read_opaque_fixed,
}
use aurora_core.Protocol.Validate.{decode_whole}

pub record AuroraPacket : Type 0 where
  pub route_instance_id : ℕ
  pub hop_layer : ℕ
  pub direction : ℕ
  pub key_phase : ℕ
  pub packet_number : ℕ
  pub ciphertext : List ℕ
  pub auth_tag : List ℕ

abbrev pub packet_auth_tag_bytes : ℕ
packet_auth_tag_bytes = 16

unfoldable pub packet_encoded_len : AuroraPacket → Option ℕ
packet_encoded_len p =
    if ltb 0xffffff (length p.ciphertext) || not (length p.auth_tag == packet_auth_tag_bytes)
    then none
    else elim (varint_len p.route_instance_id) [
      | fail _ ↦ none
      | ok route_id_length ↦ elim (varint_len p.packet_number) [
        | fail _ ↦ none
        | ok packet_number_length ↦ some (
            route_id_length
            + 3
            + packet_number_length
            + 3
            + length p.ciphertext
            + length p.auth_tag)
      ]
    ]

unfoldable pub write_packet : AuroraPacket → Write
write_packet p = do
  write_varint p.route_instance_id
  write_uint8 p.hop_layer
  write_uint8 p.direction
  write_uint8 p.key_phase
  write_varint p.packet_number
  write_opaque24 p.ciphertext
  write_opaque_fixed p.auth_tag packet_auth_tag_bytes

unfoldable pub encode_aurora_packet : AuroraPacket → Result (List ℕ)
encode_aurora_packet p = elim (packet_encoded_len p) [
  | some length ↦ encode_with_capacity (write_packet p) length
  | none ↦ encode (write_packet p)
]

unfoldable pub read_packet : Read AuroraPacket
read_packet = do
  route_instance_id ← read_varint
  hop_layer ← read_uint8
  direction ← read_uint8
  key_phase ← read_uint8
  packet_number ← read_varint
  ciphertext ← read_opaque24
  auth_tag ← read_opaque_fixed packet_auth_tag_bytes
  pure (record {
    route_instance_id = route_instance_id;
    hop_layer = hop_layer;
    direction = direction;
    key_phase = key_phase;
    packet_number = packet_number;
    ciphertext = ciphertext;
    auth_tag = auth_tag;
  })

unfoldable pub decode_aurora_packet : List ℕ → Result AuroraPacket
decode_aurora_packet encoded = decode_whole read_packet trailing_packet encoded
