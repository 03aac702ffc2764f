-- ===== src/Packet/Protector/InPlace.antt =====
-- packet/packet.go: SealEncoded, which seals behind the header of the packet in one buffer.
use aurora_core.Common.{
  ℕ, ◌+◌, not, ◌||◌, Option, none, some, List, [], ◌++◌, ltb, ◌==◌, if◌then◌else◌, length, take,
  drop,
}
use aurora_core.Errors.{
  Result, ok, fail, ◌>>=◌, reserved_packet_direction, sealed_layout_mismatch, not_in_place,
}
use aurora_core.Wire.Varint.{varint_len}
use aurora_core.Wire.Encoder.{
  Write, ◌>>◌, new_encoder_with_buffer, buffer, write_varint, write_uint8, write_uint24,
}
use aurora_core.Protocol.Frames.{FrameBlock, block_encoded_len, encode_block}
use aurora_core.Protocol.Validate.{validate_frame_block_for_direction}
use aurora_core.Crypto.{Primitives}
use aurora_core.Crypto.Aead.{SuiteAead, aead_seal, xor_nonce96}
use aurora_core.Crypto.Control.{packet_ad}
use aurora_core.Packet.Codec.{packet_auth_tag_bytes, encode_aurora_packet}
use aurora_core.Packet.Protector.{Protector, cached_aead}
use aurora_core.Packet.Protector.Sealing.{seal, next_number}

-- The header's and the plaintext's lengths, where they are known before sealing.
unfoldable pub sealed_packet_layout : ℕ → ℕ → FrameBlock → Option (ℕ × ℕ)
sealed_packet_layout route_instance_id packet_number block = elim (block_encoded_len block) [
  | none ↦ none
  | some n ↦ if n == 0 || ltb 0xffffff n then none else elim (varint_len route_instance_id) [
    | fail _ ↦ none
    | ok route_id_length ↦ elim (varint_len packet_number) [
      | fail _ ↦ none
      | ok packet_number_length ↦ some (route_id_length + 3 + packet_number_length + 3, n)
    ]
  ]
]

unfoldable pub write_header : Protector → ℕ → Write
write_header p plaintext_length = do
  write_varint p.route_instance_id
  write_uint8 p.hop_layer
  write_uint8 p.direction
  write_uint8 p.key_phase
  write_varint p.next_packet
  write_uint24 plaintext_length

-- The packet's header and plaintext, and the plaintext sealed behind the header.
unfoldable pub in_place_buffer : Protector → ℕ → ℕ → FrameBlock → Result (List ℕ)
unfolding write_header
in_place_buffer p header_length plaintext_length block =
    buffer ((write_header p plaintext_length >> encode_block block) (new_encoder_with_buffer []))
    >>= λ encoded.
        if not (length encoded == header_length + plaintext_length)
        then fail sealed_layout_mismatch
        else ok encoded

unfoldable pub finish_in_place :
    Protector → ℕ → ℕ → List ℕ → Result (List ℕ) → Result (List ℕ) × Protector
finish_in_place p header_length plaintext_length encoded (fail x) = (fail x, p)
finish_in_place p header_length plaintext_length encoded (ok sealed) =
    if not (length sealed == plaintext_length + packet_auth_tag_bytes)
    then (fail not_in_place, p)
    else (ok (take header_length encoded ++ sealed), next_number p)

unfoldable pub seal_buffer :
    Primitives
    → ℕ
    → ℕ
    → List ℕ
    → List ℕ
    → FrameBlock
    → Result SuiteAead × Protector
    → Result (List ℕ) × Protector
unfolding in_place_buffer finish_in_place
seal_buffer c header_length plaintext_length nonce aad block (fail x, p) = (fail x, p)
seal_buffer c header_length plaintext_length nonce aad block (ok a, p) =
    elim (in_place_buffer p header_length plaintext_length block) [
      | fail x ↦ (fail x, p)
      | ok encoded ↦
          finish_in_place p header_length plaintext_length encoded
            (aead_seal c a nonce aad (drop header_length encoded))
    ]

unfoldable pub seal_in_place :
    Primitives → Protector → ℕ → ℕ → FrameBlock → Result (List ℕ) × Protector
unfolding seal_buffer cached_aead
seal_in_place c p header_length plaintext_length block =
    elim (packet_ad c p.suite p.route_instance_id p.hop_layer p.direction p.key_phase
      p.next_packet) [
        | fail x ↦ (fail x, p)
        | ok aad ↦ elim (xor_nonce96 p.static_iv p.next_packet) [
          | fail x ↦ (fail x, p)
          | ok nonce ↦
              seal_buffer c header_length plaintext_length nonce aad block (cached_aead c p)
        ]
      ]

unfoldable pub seal_encoded_by_copy :
    Primitives → Protector → FrameBlock → Result (List ℕ) × Protector
unfolding seal
seal_encoded_by_copy c p block = let (r, q) = seal c p block in (r >>= encode_aurora_packet, q)

unfoldable pub seal_encoded : Primitives → Protector → FrameBlock → Result (List ℕ) × Protector
unfolding sealed_packet_layout seal_in_place seal_encoded_by_copy
seal_encoded c p block =
    if ltb 1 p.direction
    then (fail reserved_packet_direction, p)
    else elim (validate_frame_block_for_direction block p.direction) [
      | fail x ↦ (fail x, p)
      | ok _ ↦ elim (sealed_packet_layout p.route_instance_id p.next_packet block) [
        | none ↦ seal_encoded_by_copy c p block
        | some (header_length, plaintext_length) ↦
            seal_in_place c p header_length plaintext_length block
      ]
    ]
