-- ===== src/Packet/Protector/Sealing.antt =====
-- packet/packet.go: Seal.
use aurora_core.Common.{
  ℕ, ◌+◌, ◌-◌, ◌%◌, ◌^◌, none, some, List, ltb, if◌then◌else◌, length, take, drop,
}
use aurora_core.Errors.{Result, ok, fail, ◌>>=◌, reserved_packet_direction, sealed_too_short}
use aurora_core.Wire.Encoder.{encode_with_reserved_capacity}
use aurora_core.Protocol.Frames.{
  FrameBlock, max_int, block_encoded_len, encode_block, encode_frame_block,
}
use aurora_core.Protocol.Validate.{validate_frame_block_for_direction}
use aurora_core.Crypto.{Primitives}
use aurora_core.Crypto.Aead.{SuiteAead, aead_seal, xor_nonce96}
use aurora_core.Crypto.Control.{packet_ad}
use aurora_core.Packet.Codec.{AuroraPacket, packet_auth_tag_bytes}
use aurora_core.Packet.Protector.{Protector, cached_aead}

unfoldable pub encode_frame_block_for_seal : FrameBlock → Result (List ℕ)
encode_frame_block_for_seal block = elim (block_encoded_len block) [
  | none ↦ encode_frame_block block
  | some n ↦
      if ltb (max_int - packet_auth_tag_bytes) n
      then encode_frame_block block
      else encode_with_reserved_capacity (encode_block block) n (n + packet_auth_tag_bytes)
]

-- What Seal has before it asks for the cipher.
pub record SealInput : Type 0 where
  pub plaintext : List ℕ
  pub aad : List ℕ
  pub nonce : List ℕ

unfoldable pub seal_input : Primitives → Protector → FrameBlock → Result SealInput
unfolding encode_frame_block_for_seal
seal_input c p block =
    if ltb 1 p.direction
    then fail reserved_packet_direction
    else (validate_frame_block_for_direction block p.direction >>= λ _.
        encode_frame_block_for_seal block >>= λ plaintext.
        packet_ad c p.suite p.route_instance_id p.hop_layer p.direction p.key_phase p.next_packet
        >>= λ aad. xor_nonce96 p.static_iv p.next_packet >>= λ nonce.
            ok (record { plaintext = plaintext; aad = aad; nonce = nonce }))

abbrev pub sealed_packet : Protector → List ℕ → AuroraPacket
sealed_packet p sealed =
    let ciphertext_length = length sealed - packet_auth_tag_bytes in
    record {
      route_instance_id = p.route_instance_id;
      hop_layer = p.hop_layer;
      direction = p.direction;
      key_phase = p.key_phase;
      packet_number = p.next_packet;
      ciphertext = take ciphertext_length sealed;
      auth_tag = drop ciphertext_length sealed;
    }

abbrev pub next_number : Protector → Protector
next_number p = record p { next_packet = (p.next_packet + 1) % 2 ^ 64 }

unfoldable pub finish_seal : Protector → Result (List ℕ) → Result AuroraPacket × Protector
finish_seal p (fail x) = (fail x, p)
finish_seal p (ok sealed) =
    if ltb (length sealed) packet_auth_tag_bytes
    then (fail sealed_too_short, p)
    else (ok (sealed_packet p sealed), next_number p)

unfoldable pub seal_with :
    Primitives → SealInput → Result SuiteAead × Protector → Result AuroraPacket × Protector
unfolding finish_seal
seal_with c input (fail x, p) = (fail x, p)
seal_with c input (ok a, p) = finish_seal p (aead_seal c a input.nonce input.aad input.plaintext)

unfoldable pub seal : Primitives → Protector → FrameBlock → Result AuroraPacket × Protector
unfolding seal_input seal_with cached_aead
seal c p block = elim (seal_input c p block) [
  | fail x ↦ (fail x, p)
  | ok input ↦ seal_with c input (cached_aead c p)
]
