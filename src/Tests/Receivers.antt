-- ===== src/Tests/Receivers.antt =====
-- packet/: sealing and receiving a packet.
use aurora_core.Common.{
  ℕ, ◌≡◌, refl, arith, true, false, none, some, List, [], ◌∷◌, replicate, length, All,
}
use aurora_core.Errors.{Error, ok, fail}
use aurora_core.Registry.{suite_hybrid768_aes_gcm, frame_stream_data}
use aurora_core.Wire.Encoder.{encode}
use aurora_core.Protocol.Frames.{AuroraFrame, FrameBlock, encode_block, block_encoded_len}
use aurora_core.Protocol.Frames.Codec.{Fits}
use aurora_core.Protocol.Frames.Length.{block_encoded_len-encode}
use aurora_core.Crypto.{aes_gcm}
use aurora_core.Crypto.Aead.{SuiteAead, new_suite_aead}
use aurora_core.Packet.Codec.{AuroraPacket, encode_aurora_packet}
use aurora_core.Packet.Protector.{Protector, cached_aead, prepare, with_cache}
use aurora_core.Packet.Protector.Cache.{IsCached, cached_aead-IsCached}
use aurora_core.Packet.Protector.Sealing.{seal}
use aurora_core.Packet.Protector.InPlace.{seal_encoded}
use aurora_core.Packet.Protector.Opening.{open_packet}
use aurora_core.Packet.Protector.RoundTrip.{SharesKeys, open_packet-seal}
use aurora_core.Packet.Protector.Encoded.{seal_encoded-seal}
use aurora_core.Packet.Receiver.{
  Receiver, PreparedOpen, new_receiver, packet_number_key, check_packet_number_key,
  prepare_open_with_protector, commit_prepared_open, open_received,
}
use aurora_core.Packet.Receiver.Spaces.{packet_number_space}
use aurora_core.Packet.Receiver.Once.{Step, Reach, commit_prepared_open-Once, new-IsTracked}
use aurora_core.Packet.Receiver.Bounds.{IsBounded, reach-IsBounded}
use aurora_core.Packet.Receiver.Sessions.{open_received-seal}
use aurora_core.Tests.Toy.{toy, toy-IsAead, toy-TakesKeys}

abbrev pub small_block : FrameBlock
small_block =
    record { frame_type = frame_stream_data; flow_id = 7; flags = 0; payload = 1 ∷ 2 ∷ 3 ∷ [] } ∷ []

pub small_block-Fits : All Fits small_block
small_block-Fits = (
  record {
    type_fits = omega arith;
    flow_fits = omega arith;
    flags_fit = omega arith;
    payload_fits = omega arith;
  },
  tt,
)

small_block_length : block_encoded_len small_block ≡ some 10
unfolding block_encoded_len aurora_core.Wire.Varint.varint_len
small_block_length = refl

block_encoded_len-encode_example :
    (bytes : List ℕ) × (encode (encode_block small_block) ≡ ok bytes) × (length bytes ≡ 10)
block_encoded_len-encode_example =
    block_encoded_len-encode small_block 10 small_block-Fits (omega arith) small_block_length

abbrev pub sender : Protector
sender = record {
  suite = suite_hybrid768_aes_gcm;
  route_instance_id = 300;
  hop_layer = 1;
  direction = 0;
  key_phase = 4;
  key = replicate 32 2;
  static_iv = replicate 12 3;
  next_packet = 7;
  aead = none;
  cached_suite = 0;
  cached_key = replicate 32 0;
}

pub sender-IsCached : IsCached toy sender
sender-IsCached = record { cached = λ a e. absurd (ground (arith, e)) }

abbrev pub sender_aead : SuiteAead
sender_aead = record { cipher = aes_gcm; key = replicate 32 2 }

abbrev prepared_sender : Protector
prepared_sender = with_cache sender sender_aead

sender_cached : cached_aead toy sender ≡ (ok sender_aead, prepared_sender)
unfolding cached_aead new_suite_aead
sender_cached = refl

cached_aead-IsCached_example :
    ((cached_aead toy sender).0 ≡ new_suite_aead toy suite_hybrid768_aes_gcm (replicate 32 2))
    × IsCached toy (cached_aead toy sender).1
cached_aead-IsCached_example = cached_aead-IsCached toy sender toy-TakesKeys sender-IsCached

abbrev pub sender_after : Protector
sender_after = record prepared_sender { next_packet = 8 }

abbrev small_sealed : AuroraPacket
small_sealed = record {
  route_instance_id = 300;
  hop_layer = 1;
  direction = 0;
  key_phase = 4;
  packet_number = 7;
  ciphertext = 1 ∷ 1 ∷ 7 ∷ 0 ∷ 0 ∷ 0 ∷ 3 ∷ 1 ∷ 2 ∷ 3 ∷ [];
  auth_tag = replicate 16 2;
}

sealed_block : seal toy sender small_block ≡ (ok small_sealed, sender_after)
unfolding seal aurora_core.Protocol.Validate.validate_frame_block_for_direction
    aurora_core.Protocol.Validate.validate_frame_block aurora_core.Protocol.Validate.validate_frame
    aurora_core.Protocol.Validate.validate_frame_type
    aurora_core.Protocol.Validate.validate_data_frame
    aurora_core.Protocol.Validate.validate_key_update_frame
    aurora_core.Protocol.Validate.validate_route_frame
    aurora_core.Protocol.Validate.validate_flow_management_frame
    aurora_core.Protocol.Validate.validate_frame_for_direction
    aurora_core.Protocol.Validate.validate_key_update_frame_for_direction
    aurora_core.Protocol.Validate.each_frame block_encoded_len aurora_core.Wire.Varint.varint_len
    aurora_core.Wire.Encoder.encode_with_reserved_capacity aurora_core.Wire.Encoder.encode_expecting
    aurora_core.Wire.Encoder.write_opaque24 aurora_core.Wire.Encoder.write_varint
    aurora_core.Wire.Encoder.write_bytes aurora_core.Wire.Encoder.write_uint24
    aurora_core.Wire.Encoder.write_each aurora_core.Wire.Encoder.new_encoder
    aurora_core.Wire.Encoder.bytes aurora_core.Wire.Encoder.set_err encode_block
    aurora_core.Protocol.Frames.encode_frame aurora_core.Protocol.Frames.frame_encoded_len
    aurora_core.Protocol.Frames.add_frame_lengths aurora_core.Wire.Varint.append_varint
    aurora_core.Crypto.Control.packet_ad aurora_core.Crypto.Control.packet_ad_preimage
    aurora_core.Crypto.Suite.suite_hash aurora_core.Crypto.Suite.suite_digest
    aurora_core.Crypto.Aead.xor_nonce96 aurora_core.Crypto.Aead.aead_seal cached_aead new_suite_aead
sealed_block = refl

pub shares_keys : SharesKeys sender sender
shares_keys = record {
  same_suite = refl;
  same_route = refl;
  same_hop = refl;
  same_direction = refl;
  same_phase = refl;
  same_key = refl;
  same_iv = refl;
}

open_packet-seal_example : open_packet toy sender small_sealed ≡ ok small_block
open_packet-seal_example =
    open_packet-seal toy sender sender_after sender small_block small_sealed toy-IsAead
      toy-TakesKeys sender-IsCached sender-IsCached shares_keys small_block-Fits (omega arith)
      sealed_block

seal_encoded-seal_example :
    seal_encoded toy sender small_block ≡ (encode_aurora_packet small_sealed, sender_after)
seal_encoded-seal_example =
    seal_encoded-seal toy sender sender_after small_block small_sealed toy-IsAead small_block-Fits
      (omega arith) sealed_block

abbrev fresh : Receiver
fresh = new_receiver toy 1 sender 3

abbrev small_prepared : PreparedOpen
small_prepared = record {
  owner = 1;
  key = packet_number_key small_sealed;
  block = small_block;
  valid = true;
}

abbrev received : Receiver
received = record fresh {
  windows = (packet_number_space small_sealed, record { highest = 7; bits = 8 ∷ [] }) ∷ [];
}

committed_block :
    commit_prepared_open fresh small_prepared
    ≡ ok (received, record small_prepared { valid = false })
unfolding commit_prepared_open new_receiver
committed_block = refl

commit_prepared_open-Once_example :
    (e : Error) × (check_packet_number_key received (packet_number_key small_sealed) ≡ fail e)
    × ((later : PreparedOpen)
        → later.key ≡ packet_number_key small_sealed
        → (x : Error) × (commit_prepared_open received later ≡ fail x))
    × ((pkt : AuroraPacket) (p : Protector)
        → packet_number_key pkt ≡ packet_number_key small_sealed
        → prepare_open_with_protector toy received pkt p ≡ fail e)
commit_prepared_open-Once_example =
    commit_prepared_open-Once toy 1 3 sender fresh received received small_prepared
      (record small_prepared { valid = false }) Reach.here committed_block Reach.here

reach-IsBounded_example : IsBounded received
reach-IsBounded_example =
    reach-IsBounded toy (λ _. true) 1 3 sender received
      (Reach.next Reach.here
        (Step.commits small_prepared (record small_prepared { valid = false }) committed_block))

fresh-IsCached : IsCached toy fresh.protector
unfolding new_receiver prepare
fresh-IsCached = (cached_aead-IsCached toy sender toy-TakesKeys sender-IsCached).1

fresh_check : check_packet_number_key fresh (packet_number_key small_sealed) ≡ ok tt
unfolding check_packet_number_key new_receiver
fresh_check = refl

fresh_shares : SharesKeys sender fresh.protector
unfolding new_receiver new_suite_aead
fresh_shares = record {
  same_suite = refl;
  same_route = refl;
  same_hop = refl;
  same_direction = refl;
  same_phase = refl;
  same_key = refl;
  same_iv = refl;
}

open_received-seal_example :
    (t : Receiver) × (x : Error) × (open_received toy fresh small_sealed ≡ (ok small_block, t))
    × (open_received toy t small_sealed ≡ (fail x, t))
open_received-seal_example =
    open_received-seal toy sender sender_after fresh small_block small_sealed toy-IsAead
      toy-TakesKeys sender-IsCached fresh-IsCached fresh_shares small_block-Fits (omega arith)
      (new-IsTracked toy 1 sender 3) sealed_block fresh_check
