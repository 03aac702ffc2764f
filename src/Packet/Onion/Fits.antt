-- ===== src/Packet/Onion/Fits.antt =====
-- protocol/frames.go, packet/packet.go: what is encoded without an error fits its encoding.
use aurora_core.Common.{ℕ, ◌≤◌, ◌≡◌, sym, ◌∙◌, List, [], ◌∷◌, length}
use aurora_core.Errors.{ok}
use aurora_core.Wire.Varint.{max_varint}
use aurora_core.Wire.Encoder.{encode, write_each}
use aurora_core.Wire.Format.Passes.{
  Passes, Passes-seq, Passes-varint, Passes-uint8, Passes-opaque_fixed, Passes-pre_hash,
  Passes-opaque16, Passes-opaque24, encode-Passes,
}
use aurora_core.Protocol.Frames.{AuroraFrame, encode_frame, encode_block}
use aurora_core.Protocol.Frames.Codec.{Fits}
use aurora_core.Protocol.Route.{RouteForwardFrame, encode_route_forward}
use aurora_core.Protocol.Route.Codec.{ForwardFits}
use aurora_core.Packet.Codec.{
  AuroraPacket, packet_auth_tag_bytes, write_packet, encode_aurora_packet,
}
use aurora_core.Packet.Codec.RoundTrip.{PacketFits, encode_aurora_packet_lem}

pub encode_aurora_packet-PacketFits :
    (p : AuroraPacket) (b : List ℕ) → encode_aurora_packet p ≡ ok b → PacketFits p
unfolding write_packet
encode_aurora_packet-PacketFits p b e =
    let (route, (hop, (direction, (phase, (number, (ciphertext, tag)))))) =
      encode-Passes b
        (Passes-seq (Passes-varint p.route_instance_id) (
          Passes-seq (Passes-uint8 p.hop_layer) (
            Passes-seq (Passes-uint8 p.direction) (
              Passes-seq (Passes-uint8 p.key_phase) (
                Passes-seq (Passes-varint p.packet_number) (
                  Passes-seq (Passes-opaque24 p.ciphertext)
                    (Passes-opaque_fixed p.auth_tag packet_auth_tag_bytes)))))))
        (sym (encode_aurora_packet_lem p) ∙ e) in
    record {
      route_fits = route;
      number_fits = number;
      ciphertext_fits = ciphertext;
      tag_fits = tag;
    }

pub encode_route_forward-ForwardFits :
    (f : RouteForwardFrame) (b : List ℕ) → encode (encode_route_forward f) ≡ ok b → ForwardFits f
unfolding encode_route_forward
encode_route_forward-ForwardFits f b e =
    let (route, (hop, (next, (previous, (record_id, (locator_type, (locator, prelude))))))) =
      encode-Passes b
        (Passes-seq (Passes-varint f.route_instance_id) (
          Passes-seq (Passes-uint8 f.hop_index) (
            Passes-seq (Passes-pre_hash f.next_relay_descriptor_hash) (
              Passes-seq (Passes-pre_hash f.previous_hop_relay_descriptor_hash) (
                Passes-seq (Passes-opaque16 f.next_relay_routing_record_id) (
                  Passes-seq (Passes-varint f.next_relay_locator_type) (
                    Passes-seq (Passes-opaque16 f.next_relay_locator)
                      (Passes-opaque24 f.opaque_next_hop_prelude))))))))
        e in
    record { route_fits = route; locator_fits = locator; prelude_fits = prelude }

Passes-frame :
    (f : AuroraFrame)
    → Passes (encode_frame f) (
        (f.frame_type ≤ max_varint)
        × ((f.flow_id ≤ max_varint) × ((f.flags ≤ max_varint) × (length f.payload ≤ 0xffffff))))
unfolding encode_frame
Passes-frame f = Passes-seq (Passes-varint f.frame_type) (
    Passes-seq (Passes-varint f.flow_id)
      (Passes-seq (Passes-varint f.flags) (Passes-opaque24 f.payload)))

pub encode_block-Fits :
    (f : AuroraFrame) (b : List ℕ) → encode (encode_block (f ∷ [])) ≡ ok b → Fits f
unfolding encode_block write_each
encode_block-Fits f b e =
    let one : Passes (write_each encode_frame (f ∷ [])) _ = record {
      passed = (Passes-frame f).passed;
    } in
    let (count, (type, (flow, (flags, payload)))) =
      encode-Passes b (Passes-seq (Passes-varint 1) one) e in
    record { type_fits = type; flow_fits = flow; flags_fit = flags; payload_fits = payload }
