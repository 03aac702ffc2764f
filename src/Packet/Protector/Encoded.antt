-- ===== src/Packet/Protector/Encoded.antt =====
-- packet/packet.go: SealEncoded returns the encoding of the packet that Seal returns.
use aurora_core.Common.{
  ℕ, ◌+◌, ◌-◌, ◌≤◌, ◌≡◌, sym, ap, ◌∙◌, arith, false, some, List, ◌++◌, ltb, length, take, drop,
  take-append_length, drop-append_length, Bool-cases, Option-cases, inl, inr, All,
}
use aurora_core.Errors.{Result, Result-cases, ok, fail}
use aurora_core.Wire.Varint.{max_varint}
use aurora_core.Wire.Varint.RoundTrip.{varint_bytes, varint_len-bytes}
use aurora_core.Wire.Format.Writes.{encode-Writes}
use aurora_core.Protocol.Frames.{
  FrameBlock, block_encoded_len, encode_block, max_frame_block_frames,
}
use aurora_core.Protocol.Frames.Codec.{Fits}
use aurora_core.Protocol.Frames.Length.{block_bytes, block_Writes, block_encoded_len-encode}
use aurora_core.Protocol.Validate.{validate_frame_block_for_direction}
use aurora_core.Crypto.{Primitives, IsAead}
use aurora_core.Crypto.Aead.{SuiteAead, aead_seal, xor_nonce96}
use aurora_core.Crypto.Control.{packet_ad, packet_ad_preimage}
use aurora_core.Crypto.Control.Binding.{preimage_metadata}
use aurora_core.Packet.Codec.{AuroraPacket, packet_auth_tag_bytes, encode_aurora_packet}
use aurora_core.Packet.Protector.{Protector, cached_aead}
use aurora_core.Packet.Protector.Sealing.{seal, next_number}
use aurora_core.Packet.Protector.Sealed.{Sealed, sealed, cached_keeps}
use aurora_core.Packet.Protector.InPlace.{
  sealed_packet_layout, in_place_buffer, finish_in_place, seal_buffer, seal_in_place,
  seal_encoded_by_copy, seal_encoded,
}
use aurora_core.Packet.Protector.Bytes.{
  header_bytes, header_bytes-length, packet_bytes, filled_buffer,
}

same_numbers :
    (c : Primitives) (p : Protector)
    → ((cached_aead c p).1.route_instance_id ≡ p.route_instance_id)
      × ((cached_aead c p).1.next_packet ≡ p.next_packet)
same_numbers c p = elim (cached_keeps c p) [
  | inl e ↦ (ap (λ (x : Protector). x.route_instance_id) e, ap (λ (x : Protector). x.next_packet) e)
  | inr (a, e) ↦
      (ap (λ (x : Protector). x.route_instance_id) e, ap (λ (x : Protector). x.next_packet) e)
]

numbers_fit :
    (c : Primitives) (suite r h d k n : ℕ) (aad : List ℕ)
    → packet_ad c suite r h d k n ≡ ok aad
    → (r ≤ max_varint) × (n ≤ max_varint)
unfolding packet_ad
numbers_fit c suite r h d k n aad e = elim (Result-cases (packet_ad_preimage r h d k n)) [
  | inr (x, q) ↦ absurd (ground (arith, e, q))
  | inl (b, q) ↦ let (u, v, w) = preimage_metadata r h d k n b q in (u, v)
]

record Layout (p : Protector) (block : FrameBlock) (header_length n : ℕ) : Type 0 where
  known : block_encoded_len block ≡ some n
  fits : n ≤ 0xffffff
  header :
      header_length
      ≡ length (varint_bytes p.route_instance_id) + 3 + length (varint_bytes p.next_packet) + 3

Layout-parts :
    (p : Protector) (block : FrameBlock) (header_length n : ℕ)
    → p.route_instance_id ≤ max_varint
    → p.next_packet ≤ max_varint
    → sealed_packet_layout p.route_instance_id p.next_packet block ≡ some (header_length, n)
    → Layout p block header_length n
unfolding sealed_packet_layout
Layout-parts p block header_length n r m e =
    let rl = varint_len-bytes p.route_instance_id r in
    let nl = varint_len-bytes p.next_packet m in
    elim (Option-cases (block_encoded_len block)) [
      | inl unknown ↦ absurd (ground (arith, e, unknown))
      | inr (k, q) ↦
          let same : k ≡ n = ground (arith, e, q, rl, nl) in
          record {
            known = q ∙ ap (λ (x : ℕ). some x) same;
            fits = ground (arith, e, q, rl, nl);
            header = ground (arith, e, q, rl, nl);
          }
    ]

seal_buffer_ok :
    (c : Primitives) (header_length n : ℕ) (nonce aad : List ℕ) (block : FrameBlock)
    (r : Result SuiteAead × Protector) (a : SuiteAead) (encoded text : List ℕ)
    → r.0 ≡ ok a
    → in_place_buffer r.1 header_length n block ≡ ok encoded
    → aead_seal c a nonce aad (drop header_length encoded) ≡ ok text
    → length text ≡ n + packet_auth_tag_bytes
    → seal_buffer c header_length n nonce aad block r
      ≡ (ok (take header_length encoded ++ text), next_number r.1)
unfolding seal_buffer finish_in_place
seal_buffer_ok c header_length n nonce aad block r a encoded text e f g h =
    ap (λ (x : Result SuiteAead). seal_buffer c header_length n nonce aad block (x, r.1)) e
    ∙ ground (arith, f, g, h)

tagged :
    (c : Primitives) (a : SuiteAead) (nonce aad plaintext text : List ℕ)
    → IsAead c
    → aead_seal c a nonce aad plaintext ≡ ok text
    → length text ≡ length plaintext + packet_auth_tag_bytes
unfolding aead_seal
tagged c a nonce aad plaintext text h e =
    let sealed_text : c.seal a.cipher a.key nonce aad plaintext ≡ text = ground (arith, e) in
    ap (λ (x : List ℕ). length x) (sym sealed_text) ∙ h.adds_tag a.cipher a.key nonce aad plaintext

in_direction :
    (block : FrameBlock) (direction : ℕ)
    → validate_frame_block_for_direction block direction ≡ ok tt
    → ltb 1 direction ≡ false
unfolding validate_frame_block_for_direction
in_direction block direction e = elim (Bool-cases (ltb 1 direction)) [
  | inl reserved ↦ absurd (ground (arith, e, reserved))
  | inr known ↦ known
]

in_place :
    (c : Primitives) (p q : Protector) (block : FrameBlock) (pkt : AuroraPacket)
    (header_length n : ℕ)
    → IsAead c
    → All Fits block
    → length block ≤ max_frame_block_frames
    → Sealed c p block pkt q
    → Layout p block header_length n
    → p.route_instance_id ≤ max_varint
    → p.next_packet ≤ max_varint
    → seal_in_place c p header_length n block ≡ (encode_aurora_packet pkt, q)
unfolding seal_in_place
in_place c p q block pkt header_length n h fits m o l r k =
    let p' = (cached_aead c p).1 in
    let (route, number) = same_numbers c p in
    let (bytes, e, size) = block_encoded_len-encode block n fits (omega (arith, m)) l.known in
    let whole =
      encode-Writes (encode_block block) (block_bytes block)
        (block_Writes block fits (omega (arith, m))) in
    let text_of : block_bytes block ≡ o.input.plaintext =
      ground (arith, sym whole ∙ o.parts.encoded) in
    let text_size : length (block_bytes block) ≡ n = ground (arith, sym whole ∙ e, size) in
    let head : header_length ≡ length (header_bytes p' n) = omega (
      arith,
      l.header,
      header_bytes-length p' n,
      ap (λ (x : ℕ). length (varint_bytes x)) route,
      ap (λ (x : ℕ). length (varint_bytes x)) number,
    ) in
    let buffer =
      filled_buffer p' block header_length n fits m (omega (arith, route)) (omega (arith, number))
        l.fits head text_size in
    let cut =
      ap (λ (x : ℕ). drop x (header_bytes p' n ++ block_bytes block)) head
      ∙ drop-append_length (header_bytes p' n) (block_bytes block)
      ∙ text_of in
    let sized = tagged c o.cipher o.input.nonce o.input.aad o.input.plaintext o.text h o.locked in
    let long : length o.text ≡ n + packet_auth_tag_bytes =
      omega (arith, sized, ap (λ (b : List ℕ). length b) text_of, text_size) in
    let locked =
      ap (λ (b : List ℕ). aead_seal c o.cipher o.input.nonce o.input.aad b) cut ∙ o.locked in
    let ended =
      seal_buffer_ok c header_length n o.input.nonce o.input.aad block (cached_aead c p) o.cipher _
        o.text o.made buffer locked long in
    let packet =
      packet_bytes p' o.text (omega (arith, route)) (omega (arith, number)) (omega (arith, long))
        (omega (arith, long, l.fits)) in
    let short : length o.text - packet_auth_tag_bytes ≡ n = omega (arith, long) in
    let prefix =
      ap (λ (x : ℕ). take x (header_bytes p' n ++ block_bytes block)) head
      ∙ take-append_length (header_bytes p' n) (block_bytes block) in
    let result =
      ap (λ (b : List ℕ). ok (b ++ o.text)) prefix
      ∙ ap (λ (x : ℕ). ok (header_bytes p' x ++ o.text)) (sym short)
      ∙ sym packet
      ∙ ap encode_aurora_packet o.packet in
    let run =
      ap
        (λ (x : Result (List ℕ)). elim x [
          | fail y ↦ (fail y, p)
          | ok aad ↦ elim (xor_nonce96 p.static_iv p.next_packet) [
            | fail y ↦ (fail y, p)
            | ok nonce ↦ seal_buffer c header_length n nonce aad block (cached_aead c p)
          ]
        ])
        o.parts.ad
      ∙ ap
          (λ (x : Result (List ℕ)). elim x [
            | fail y ↦ (fail y, p)
            | ok nonce ↦ seal_buffer c header_length n nonce o.input.aad block (cached_aead c p)
          ])
          o.parts.number in
    run
    ∙ ended
    ∙ ap (λ (x : Result (List ℕ)). (x, next_number p')) result
    ∙ ap (λ (x : Protector). (encode_aurora_packet pkt, x)) o.left

-- Where Seal returns a packet for a block of at most 4096 frames whose fields fit their encodings,
-- SealEncoded returns the encoding of that packet, and leaves the protector that Seal leaves. The
-- library's sealing adds the 16 bytes of the tag.
pub seal_encoded-seal :
    (c : Primitives) (p q : Protector) (block : FrameBlock) (pkt : AuroraPacket)
    → IsAead c
    → All Fits block
    → length block ≤ max_frame_block_frames
    → seal c p block ≡ (ok pkt, q)
    → seal_encoded c p block ≡ (encode_aurora_packet pkt, q)
unfolding seal_encoded seal_encoded_by_copy
seal_encoded-seal c p q block pkt h fits m e =
    let o = sealed c p q block pkt e in
    let (r, k) =
      numbers_fit c p.suite p.route_instance_id p.hop_layer p.direction p.key_phase p.next_packet
        o.input.aad o.parts.ad in
    let allowed = in_direction block p.direction o.parts.valid in
    elim (Option-cases (sealed_packet_layout p.route_instance_id p.next_packet block)) [
      | inl unknown ↦ ground (arith, allowed, o.parts.valid, unknown, e)
      | inr ((hl, n), known) ↦ ground (
        arith,
        allowed,
        o.parts.valid,
        known,
        in_place c p q block pkt hl n h fits m o (Layout-parts p block hl n r k known) r k,
      )
    ]
