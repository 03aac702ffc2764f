-- ===== src/Packet/Protector/Bytes.antt =====
-- packet/packet.go: the bytes of a sealed packet, header first.
use aurora_core.Common.{
  ℕ, ◌+◌, ◌-◌, ◌≤◌, ◌≡◌, sym, ap, ◌∙◌, arith, List, [], ◌∷◌, ◌++◌, append_assoc, length,
  length-append, take, drop, take-append-drop, length-take_le, length-drop, All,
}
use aurora_core.Errors.{ok}
use aurora_core.Wire.Varint.{max_varint}
use aurora_core.Wire.Varint.RoundTrip.{varint_bytes}
use aurora_core.Wire.Encoder.{
  ◌>>◌, buffer, new_encoder_with_buffer, write_varint, write_uint8, write_uint24, write_opaque24,
  write_opaque_fixed,
}
use aurora_core.Wire.Format.Writes.{
  Writes, Writes-seq, Writes-uint8, Writes-uint24, Writes-varint, Writes-opaque24,
  Writes-opaque_fixed, encode-Writes, uint24_bytes,
}
use aurora_core.Protocol.Frames.{FrameBlock, encode_block, max_frame_block_frames}
use aurora_core.Protocol.Frames.Codec.{Fits}
use aurora_core.Protocol.Frames.Length.{block_bytes, block_Writes}
use aurora_core.Packet.Codec.{
  AuroraPacket, packet_auth_tag_bytes, write_packet, encode_aurora_packet,
}
use aurora_core.Packet.Codec.RoundTrip.{encode_aurora_packet_lem}
use aurora_core.Packet.Protector.{Protector}
use aurora_core.Packet.Protector.Sealing.{sealed_packet}
use aurora_core.Packet.Protector.InPlace.{write_header, in_place_buffer}

-- The bytes of a packet's header, and of the rest of it.
abbrev pub header_bytes : Protector → ℕ → List ℕ
header_bytes p n =
    varint_bytes p.route_instance_id
    ++ (p.hop_layer ∷ p.direction ∷ p.key_phase ∷ (varint_bytes p.next_packet ++ uint24_bytes n))

header_Writes :
    (p : Protector) (n : ℕ)
    → p.route_instance_id ≤ max_varint
    → p.next_packet ≤ max_varint
    → n ≤ 0xffffff
    → Writes (write_header p n) (header_bytes p n)
unfolding write_header
header_Writes p n r m h =
    let tail = write_varint p.next_packet >> write_uint24 n in
    Writes-seq (write_varint p.route_instance_id)
      (write_uint8 p.hop_layer >> write_uint8 p.direction >> write_uint8 p.key_phase >> tail)
      (varint_bytes p.route_instance_id) _ (Writes-varint p.route_instance_id r)
      (Writes-seq (write_uint8 p.hop_layer)
        (write_uint8 p.direction >> write_uint8 p.key_phase >> tail) (p.hop_layer ∷ []) _
        (Writes-uint8 p.hop_layer)
        (Writes-seq (write_uint8 p.direction) (write_uint8 p.key_phase >> tail) (p.direction ∷ []) _
          (Writes-uint8 p.direction)
          (Writes-seq (write_uint8 p.key_phase) tail (p.key_phase ∷ []) _ (Writes-uint8 p.key_phase)
            (Writes-seq (write_varint p.next_packet) (write_uint24 n) (varint_bytes p.next_packet) _
              (Writes-varint p.next_packet m) (Writes-uint24 n h)))))

pub header_bytes-length :
    (p : Protector) (n : ℕ)
    → length (header_bytes p n)
      ≡ length (varint_bytes p.route_instance_id) + 3 + length (varint_bytes p.next_packet) + 3
header_bytes-length p n = omega (
  arith,
  length-append (varint_bytes p.route_instance_id)
      (p.hop_layer ∷ p.direction ∷ p.key_phase ∷ (varint_bytes p.next_packet ++ uint24_bytes n)),
  length-append (varint_bytes p.next_packet) (uint24_bytes n),
)

abbrev fields_bytes : AuroraPacket → List ℕ
fields_bytes k =
    varint_bytes k.route_instance_id
    ++ (k.hop_layer
        ∷ k.direction
        ∷ k.key_phase
        ∷ (varint_bytes k.packet_number
            ++ ((uint24_bytes (length k.ciphertext) ++ k.ciphertext) ++ k.auth_tag)))

packet_Writes :
    (k : AuroraPacket)
    → k.route_instance_id ≤ max_varint
    → k.packet_number ≤ max_varint
    → length k.ciphertext ≤ 0xffffff
    → length k.auth_tag ≡ packet_auth_tag_bytes
    → Writes (write_packet k) (fields_bytes k)
unfolding write_packet
packet_Writes k r m h g =
    let last = write_opaque24 k.ciphertext >> write_opaque_fixed k.auth_tag packet_auth_tag_bytes in
    let tail = write_varint k.packet_number >> last in
    let phase = write_uint8 k.key_phase >> tail in
    let direction = write_uint8 k.direction >> phase in
    Writes-seq (write_varint k.route_instance_id) (write_uint8 k.hop_layer >> direction)
      (varint_bytes k.route_instance_id) _ (Writes-varint k.route_instance_id r)
      (Writes-seq (write_uint8 k.hop_layer) direction (k.hop_layer ∷ []) _
        (Writes-uint8 k.hop_layer)
        (Writes-seq (write_uint8 k.direction) phase (k.direction ∷ []) _ (Writes-uint8 k.direction)
          (Writes-seq (write_uint8 k.key_phase) tail (k.key_phase ∷ []) _ (Writes-uint8 k.key_phase)
            (Writes-seq (write_varint k.packet_number) last (varint_bytes k.packet_number) _
              (Writes-varint k.packet_number m)
              (Writes-seq (write_opaque24 k.ciphertext)
                (write_opaque_fixed k.auth_tag packet_auth_tag_bytes) _ _
                (Writes-opaque24 k.ciphertext h)
                (Writes-opaque_fixed k.auth_tag packet_auth_tag_bytes g))))))

-- The header and the sealed text in one list.
joined :
    (p : Protector) (text : List ℕ)
    → packet_auth_tag_bytes ≤ length text
    → fields_bytes (sealed_packet p text)
      ≡ header_bytes p (length text - packet_auth_tag_bytes) ++ text
joined p text h =
    let n = length text - packet_auth_tag_bytes in
    let whole = take-append-drop n text in
    let size = length-take_le n text (omega arith) in
    let number = varint_bytes p.next_packet in
    let front = λ (rest : List ℕ).
      varint_bytes p.route_instance_id ++ (p.hop_layer ∷ p.direction ∷ p.key_phase ∷ rest) in
    ap (λ (k : ℕ). front (number ++ ((uint24_bytes k ++ take n text) ++ drop n text))) size
    ∙ ap (λ (x : List ℕ). front (number ++ (uint24_bytes n ++ x))) whole
    ∙ ap front (sym (append_assoc number (uint24_bytes n) text))
    ∙ sym (
        append_assoc (varint_bytes p.route_instance_id)
          (p.hop_layer ∷ p.direction ∷ p.key_phase ∷ (number ++ uint24_bytes n)) text)

pub packet_bytes :
    (p : Protector) (text : List ℕ)
    → p.route_instance_id ≤ max_varint
    → p.next_packet ≤ max_varint
    → packet_auth_tag_bytes ≤ length text
    → length text ≤ 0xffffff + packet_auth_tag_bytes
    → encode_aurora_packet (sealed_packet p text)
      ≡ ok (header_bytes p (length text - packet_auth_tag_bytes) ++ text)
packet_bytes p text r m h g =
    let n = length text - packet_auth_tag_bytes in
    let k = sealed_packet p text in
    let size = length-take_le n text (omega arith) in
    encode_aurora_packet_lem k
    ∙ encode-Writes (write_packet k) (fields_bytes k)
        (packet_Writes k r m (omega (arith, size)) (omega (arith, length-drop n text)))
    ∙ ap ok (joined p text h)

-- What sealing in place starts from: the header and the plaintext.
pub filled_buffer :
    (p : Protector) (block : FrameBlock) (header_length n : ℕ)
    → All Fits block
    → length block ≤ max_frame_block_frames
    → p.route_instance_id ≤ max_varint
    → p.next_packet ≤ max_varint
    → n ≤ 0xffffff
    → header_length ≡ length (header_bytes p n)
    → length (block_bytes block) ≡ n
    → in_place_buffer p header_length n block ≡ ok (header_bytes p n ++ block_bytes block)
unfolding in_place_buffer buffer new_encoder_with_buffer
filled_buffer p block header_length n fits m r k h e f =
    let written =
      Writes-seq (write_header p n) (encode_block block) (header_bytes p n) (block_bytes block)
        (header_Writes p n r k h) (block_Writes block fits (omega (arith, m))) [] in
    ground (arith, written, e, f, length-append (header_bytes p n) (block_bytes block))
