-- ===== src/Packet/Codec/RoundTrip.antt =====
-- packet/packet.go: packets are read back as they were written, from one encoding only.
use aurora_core.Common.{ℕ, ◌≤◌, ◌≡◌, refl, ◌∙◌, List, length, Option-cases, inl, inr, some}
use aurora_core.Common.Words.{Bytes}
use aurora_core.Errors.{ok, trailing_packet}
use aurora_core.Wire.Varint.{max_varint}
use aurora_core.Wire.Encoder.{encode, encode_with_capacity}
use aurora_core.Wire.Format.Codes.{
  Codes, Codes-bind, Codes-last, Codes-encode, varint_Codes, uint8_Codes, opaque24_Codes,
  opaque_fixed_Codes,
}
use aurora_core.Wire.Format.Parses.{Canonical, Finishes-bind, Finishes-pure, Finishes-Canonical}
use aurora_core.Wire.Format.Parses.Scalars.{
  varint_Canonical, uint8_Canonical, opaque24_Canonical, opaque_fixed_Canonical,
}
use aurora_core.Protocol.Frames.Codec.{encode_expecting_lem}
use aurora_core.Protocol.Validate.Accepted.{decode_whole-encode, decode_whole-Codes}
use aurora_core.Packet.Codec.{
  AuroraPacket, packet_auth_tag_bytes, packet_encoded_len, write_packet, read_packet,
  encode_aurora_packet, decode_aurora_packet,
}

pub encode_aurora_packet_lem : (p : AuroraPacket) → encode_aurora_packet p ≡ encode (write_packet p)
unfolding encode_aurora_packet encode_with_capacity
encode_aurora_packet_lem p = elim (Option-cases (packet_encoded_len p)) [
  | inl e ↦ rw (e, encode_aurora_packet)
  | inr (n, e) ↦ rw (e, encode_aurora_packet) (encode_expecting_lem (write_packet p) (some n))
]

packet_Canonical : Canonical read_packet write_packet
unfolding read_packet write_packet
packet_Canonical = Finishes-Canonical (
    Finishes-bind varint_Canonical λ a. Finishes-bind uint8_Canonical λ b.
      Finishes-bind uint8_Canonical λ c. Finishes-bind uint8_Canonical λ d.
        Finishes-bind varint_Canonical λ e. Finishes-bind opaque24_Canonical λ f.
          Finishes-bind (opaque_fixed_Canonical packet_auth_tag_bytes) λ g. Finishes-pure _ refl)

-- What EncodedLen asks of a packet.
pub record PacketFits (p : AuroraPacket) : Type 0 where
  pub route_fits : p.route_instance_id ≤ max_varint
  pub number_fits : p.packet_number ≤ max_varint
  pub ciphertext_fits : length p.ciphertext ≤ 0xffffff
  pub tag_fits : length p.auth_tag ≡ packet_auth_tag_bytes

packet_Codes : (p : AuroraPacket) → PacketFits p → Codes 8 (write_packet p) read_packet p
unfolding read_packet write_packet
packet_Codes p h = Codes-bind (varint_Codes p.route_instance_id h.route_fits) λ a e.
    Codes-bind (uint8_Codes p.hop_layer) λ b f. Codes-bind (uint8_Codes p.direction) λ c g.
      Codes-bind (uint8_Codes p.key_phase) λ d i.
        Codes-bind (varint_Codes p.packet_number h.number_fits) λ k j.
          Codes-bind (opaque24_Codes p.ciphertext h.ciphertext_fits) λ l m.
            Codes-last (opaque_fixed_Codes p.auth_tag packet_auth_tag_bytes h.tag_fits) λ z n o.
              record {
                route_instance_id = e o;
                hop_layer = f o;
                direction = g o;
                key_phase = i o;
                packet_number = j o;
                ciphertext = m o;
                auth_tag = n o;
              }

-- A byte string that decodes is what the encoder returns for the packet: a packet has one encoding.
pub decode_aurora_packet-encode :
    (b : List ℕ) (p : AuroraPacket)
    → Bytes b
    → decode_aurora_packet b ≡ ok p
    → encode_aurora_packet p ≡ ok b
unfolding decode_aurora_packet
decode_aurora_packet-encode b p hb e =
    encode_aurora_packet_lem p ∙ decode_whole-encode trailing_packet packet_Canonical b hb e

-- A packet whose identifiers are below 2^62, with at most 2^24 - 1 bytes of ciphertext and a tag of
-- 16 bytes, is encoded, and decodes to itself.
pub encode_aurora_packet-decode :
    (p : AuroraPacket)
    → PacketFits p
    → (b : List ℕ) × (encode_aurora_packet p ≡ ok b) × (decode_aurora_packet b ≡ ok p)
unfolding decode_aurora_packet
encode_aurora_packet-decode p h =
    let c = packet_Codes p h in
    (c.bytes, encode_aurora_packet_lem p ∙ Codes-encode c, decode_whole-Codes trailing_packet c)
