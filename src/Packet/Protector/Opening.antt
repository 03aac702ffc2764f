-- ===== src/Packet/Protector/Opening.antt =====
-- packet/packet.go: Open.
use aurora_core.Common.{not, ◌||◌, ◌++◌, ◌==◌, if◌then◌else◌}
use aurora_core.Errors.{Result, ok, fail, ◌>>=◌, metadata_mismatch}
use aurora_core.Protocol.Frames.{FrameBlock, decode_frame_block}
use aurora_core.Protocol.Validate.{validate_frame_block_for_direction}
use aurora_core.Crypto.{Primitives}
use aurora_core.Crypto.Aead.{aead_open, xor_nonce96}
use aurora_core.Crypto.Control.{packet_ad}
use aurora_core.Packet.Codec.{AuroraPacket}
use aurora_core.Packet.Protector.{Protector, cached_aead}

unfoldable pub validate_packet_metadata : Protector → AuroraPacket → Result (Unit {0})
validate_packet_metadata p pkt =
    if not (pkt.route_instance_id == p.route_instance_id)
      || not (pkt.hop_layer == p.hop_layer)
      || not (pkt.direction == p.direction)
      || not (pkt.key_phase == p.key_phase)
    then fail metadata_mismatch
    else ok tt

-- `p.open` and Open: Go passes the protector by value, so a cache that is filled here is dropped.
unfoldable pub open_packet : Primitives → Protector → AuroraPacket → Result FrameBlock
unfolding validate_packet_metadata cached_aead
open_packet c p pkt = validate_packet_metadata p pkt >>= λ _.
    packet_ad c p.suite pkt.route_instance_id pkt.hop_layer pkt.direction pkt.key_phase
      pkt.packet_number
    >>= λ aad. xor_nonce96 p.static_iv pkt.packet_number >>= λ nonce. (cached_aead c p).0 >>= λ a.
        aead_open c a nonce aad (pkt.ciphertext ++ pkt.auth_tag) >>= λ plaintext.
        decode_frame_block plaintext >>= λ block.
        validate_frame_block_for_direction block pkt.direction >>= λ _. ok block
