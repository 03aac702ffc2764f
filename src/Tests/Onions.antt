-- ===== src/Tests/Onions.antt =====
-- packet/onion.go: a packet sealed for two hops.
use aurora_core.Common.{◌+◌, ◌%◌, ◌^◌, ℕ, ◌≡◌, refl, arith, List, [], ◌∷◌, ◌++◌, replicate}
use aurora_core.Errors.{ok, fail, split2_direction_mismatch}
use aurora_core.Protocol.Frames.{FrameBlock}
use aurora_core.Protocol.Route.{RouteForwardFrame}
use aurora_core.Packet.Codec.{AuroraPacket}
use aurora_core.Packet.Onion.{decode_forwarded_packet}
use aurora_core.Packet.Onion.Split.{seal_split2_onion, seal_split2_backward_onion}
use aurora_core.Packet.Onion.Layers.{open_packet-seal_split2_onion}
use aurora_core.Packet.Protector.{Protector, with_cache}
use aurora_core.Packet.Protector.Cache.{IsCached}
use aurora_core.Packet.Protector.Opening.{open_packet}
use aurora_core.Packet.Protector.RoundTrip.{SharesKeys}
use aurora_core.Tests.Toy.{toy, toy-IsAead, toy-TakesKeys}
use aurora_core.Tests.Receivers.{
  sender, sender-IsCached, sender_after, small_block, small_block-Fits, shares_keys, sender_aead,
}

abbrev entry : Protector
entry = record sender { hop_layer = 0; next_packet = 20 }

entry-IsCached : IsCached toy entry
entry-IsCached = record { cached = λ a e. absurd (ground (arith, e)) }

abbrev entry_after : Protector
entry_after = record (with_cache entry sender_aead) { next_packet = 21 }

entry_shares : SharesKeys entry entry
entry_shares = record {
  same_suite = refl;
  same_route = refl;
  same_hop = refl;
  same_direction = refl;
  same_phase = refl;
  same_key = refl;
  same_iv = refl;
}

abbrev to_exit : RouteForwardFrame
to_exit = record {
  route_instance_id = 300;
  hop_index = 1;
  next_relay_descriptor_hash = replicate 48 7;
  previous_hop_relay_descriptor_hash = replicate 48 8;
  next_relay_routing_record_id = replicate 16 3;
  next_relay_locator_type = 1;
  next_relay_locator = 127 ∷ 0 ∷ 0 ∷ 1 ∷ 1 ∷ 187 ∷ [];
  opaque_next_hop_prelude = [];
}

-- The ROUTE_FORWARD payload: the forward around the packet that small_block is sealed to.
abbrev wrapped_payload : List ℕ
wrapped_payload =
    65
    ∷ 44
    ∷ 1
    ∷ (replicate 48 7
        ++ replicate 48 8
        ++ 0
          ∷ 16
          ∷ (replicate 16 3
              ++ 1
                ∷ 0
                ∷ 6
                ∷ 127
                ∷ 0
                ∷ 0
                ∷ 1
                ∷ 1
                ∷ 187
                ∷ 0
                ∷ 0
                ∷ 35
                ∷ 65
                ∷ 44
                ∷ 1
                ∷ 0
                ∷ 4
                ∷ 7
                ∷ 0
                ∷ 0
                ∷ 10
                ∷ 1
                ∷ 1
                ∷ 7
                ∷ 0
                ∷ 0
                ∷ 0
                ∷ 3
                ∷ 1
                ∷ 2
                ∷ 3
                ∷ replicate 16 2))

abbrev outer : AuroraPacket
outer = record {
  route_instance_id = 300;
  hop_layer = 0;
  direction = 0;
  key_phase = 4;
  packet_number = 20;
  ciphertext = 1 ∷ 10 ∷ 0 ∷ 0 ∷ 0 ∷ 0 ∷ 164 ∷ wrapped_payload;
  auth_tag = replicate 16 2;
}

sealed_twice :
    seal_split2_onion toy small_block entry sender to_exit ≡ (ok outer, entry_after, sender_after)
unfolding aurora_core.Crypto.Aead.aead_seal aurora_core.Crypto.Aead.new_suite_aead
    aurora_core.Crypto.Aead.xor_nonce96 aurora_core.Crypto.Control.packet_ad
    aurora_core.Crypto.Control.packet_ad_preimage aurora_core.Crypto.Suite.suite_digest
    aurora_core.Crypto.Suite.suite_hash aurora_core.Packet.Codec.encode_aurora_packet
    aurora_core.Packet.Codec.packet_encoded_len aurora_core.Packet.Codec.write_packet
    aurora_core.Packet.Protector.Sealing.seal aurora_core.Packet.Protector.cached_aead
    aurora_core.Protocol.Frames.add_frame_lengths aurora_core.Protocol.Frames.block_encoded_len
    aurora_core.Protocol.Frames.encode_block aurora_core.Protocol.Frames.encode_frame
    aurora_core.Protocol.Frames.frame_encoded_len aurora_core.Protocol.Route.decode_route_forward
    aurora_core.Protocol.Route.encode_route_forward
    aurora_core.Protocol.Route.validate_route_forward aurora_core.Protocol.Validate.decode_whole
    aurora_core.Protocol.Validate.each_frame aurora_core.Protocol.Validate.validate_data_frame
    aurora_core.Protocol.Validate.validate_flow_management_frame
    aurora_core.Protocol.Validate.validate_frame aurora_core.Protocol.Validate.validate_frame_block
    aurora_core.Protocol.Validate.validate_frame_block_for_direction
    aurora_core.Protocol.Validate.validate_frame_for_direction
    aurora_core.Protocol.Validate.validate_frame_type
    aurora_core.Protocol.Validate.validate_key_update_frame
    aurora_core.Protocol.Validate.validate_key_update_frame_for_direction
    aurora_core.Protocol.Validate.validate_route_frame aurora_core.Wire.Encoder.bytes
    aurora_core.Wire.Encoder.encode aurora_core.Wire.Encoder.encode_expecting
    aurora_core.Wire.Encoder.encode_with_capacity
    aurora_core.Wire.Encoder.encode_with_reserved_capacity aurora_core.Wire.Encoder.new_encoder
    aurora_core.Wire.Encoder.set_err aurora_core.Wire.Encoder.write_bytes
    aurora_core.Wire.Encoder.write_each aurora_core.Wire.Encoder.write_opaque16
    aurora_core.Wire.Encoder.write_opaque24 aurora_core.Wire.Encoder.write_opaque_fixed
    aurora_core.Wire.Encoder.write_pre_hash aurora_core.Wire.Encoder.write_uint16
    aurora_core.Wire.Encoder.write_uint24 aurora_core.Wire.Encoder.write_uint8
    aurora_core.Wire.Encoder.write_varint aurora_core.Wire.Reader.eof
    aurora_core.Wire.Reader.new_reader aurora_core.Wire.Reader.read_opaque16
    aurora_core.Wire.Reader.read_opaque24 aurora_core.Wire.Reader.read_opaque_fixed
    aurora_core.Wire.Reader.read_pre_hash aurora_core.Wire.Reader.read_uint8
    aurora_core.Wire.Reader.read_varint aurora_core.Wire.Varint.append_varint
    aurora_core.Wire.Varint.decode_varint aurora_core.Wire.Varint.varint_len seal_split2_onion
sealed_twice = refl

open_packet-seal_split2_onion_example :
    (wrapped : FrameBlock) × (inner : AuroraPacket) × (open_packet toy entry outer ≡ ok wrapped)
    × (decode_forwarded_packet wrapped ≡ ok inner)
    × (open_packet toy sender inner ≡ ok small_block)
    × (entry_after.next_packet ≡ (entry.next_packet + 1) % 2 ^ 64)
    × (sender_after.next_packet ≡ (sender.next_packet + 1) % 2 ^ 64)
open_packet-seal_split2_onion_example =
    open_packet-seal_split2_onion toy small_block entry sender entry sender entry_after sender_after
      to_exit outer toy-IsAead toy-TakesKeys entry-IsCached sender-IsCached entry-IsCached
      sender-IsCached entry_shares shares_keys small_block-Fits (omega arith) sealed_twice

-- Protectors of the forward direction are refused by the backward function, and are left as they were.
forward_protectors :
    seal_split2_backward_onion toy small_block entry sender to_exit
    ≡ (fail split2_direction_mismatch, entry, sender)
unfolding seal_split2_backward_onion
forward_protectors = refl
