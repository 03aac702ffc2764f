-- ===== src/Packet/Protector/RoundTrip.antt =====
-- packet/packet.go: what Seal seals, Open opens.
use aurora_core.Common.{
  ℕ, ◌-◌, ◌≤◌, ◌≡◌, sym, ap, ◌∙◌, arith, subst, List, ◌++◌, length, take-append-drop, All,
}
use aurora_core.Errors.{ok}
use aurora_core.Protocol.Frames.{FrameBlock, decode_frame_block, max_frame_block_frames}
use aurora_core.Protocol.Frames.Codec.{Fits, encode_frame_block_lem, encode_frame_block-decode}
use aurora_core.Protocol.Validate.{validate_frame_block_for_direction}
use aurora_core.Crypto.{Primitives, TakesKeys, IsAead}
use aurora_core.Crypto.Aead.{SuiteAead, new_suite_aead, aead_seal, aead_open, xor_nonce96}
use aurora_core.Crypto.Control.{packet_ad}
use aurora_core.Packet.Codec.{AuroraPacket, packet_auth_tag_bytes}
use aurora_core.Packet.Protector.{Protector, cached_aead}
use aurora_core.Packet.Protector.Cache.{IsCached, cached_aead-IsCached}
use aurora_core.Packet.Protector.Sealing.{seal, sealed_packet}
use aurora_core.Packet.Protector.Opening.{open_packet, validate_packet_metadata}
use aurora_core.Packet.Protector.Sealed.{sealed, cached_packet}

-- The keys and the identifiers that the two ends share.
pub record SharesKeys (p r : Protector) : Type 0 where
  pub same_suite : r.suite ≡ p.suite
  pub same_route : r.route_instance_id ≡ p.route_instance_id
  pub same_hop : r.hop_layer ≡ p.hop_layer
  pub same_direction : r.direction ≡ p.direction
  pub same_phase : r.key_phase ≡ p.key_phase
  pub same_key : r.key ≡ p.key
  pub same_iv : r.static_iv ≡ p.static_iv

metadata_fits :
    (p r : Protector) (text : List ℕ)
    → SharesKeys p r
    → validate_packet_metadata r (sealed_packet p text) ≡ ok tt
unfolding validate_packet_metadata
metadata_fits p r text s = ground (arith, s.same_route, s.same_hop, s.same_direction, s.same_phase)

opened :
    (c : Primitives) (r : Protector) (pkt : AuroraPacket) (aad nonce plaintext : List ℕ)
    (a : SuiteAead) (block : FrameBlock)
    → validate_packet_metadata r pkt ≡ ok tt
    → packet_ad c r.suite pkt.route_instance_id pkt.hop_layer pkt.direction pkt.key_phase
        pkt.packet_number
      ≡ ok aad
    → xor_nonce96 r.static_iv pkt.packet_number ≡ ok nonce
    → (cached_aead c r).0 ≡ ok a
    → aead_open c a nonce aad (pkt.ciphertext ++ pkt.auth_tag) ≡ ok plaintext
    → decode_frame_block plaintext ≡ ok block
    → validate_frame_block_for_direction block pkt.direction ≡ ok tt
    → open_packet c r pkt ≡ ok block
unfolding open_packet
opened c r pkt aad nonce plaintext a block e f g h i j k = ground (arith, e, f, g, h, i, j, k)

unlocked :
    (c : Primitives) (a : SuiteAead) (nonce aad plaintext text : List ℕ)
    → IsAead c
    → aead_seal c a nonce aad plaintext ≡ ok text
    → aead_open c a nonce aad text ≡ ok plaintext
unfolding aead_seal aead_open
unlocked c a nonce aad plaintext text h e =
    let sealed_text : c.seal a.cipher a.key nonce aad plaintext ≡ text = ground (arith, e) in
    let o : c.open_sealed a.cipher a.key nonce aad text ≡ ok plaintext =
      ap (λ (x : List ℕ). c.open_sealed a.cipher a.key nonce aad x) (sym sealed_text)
      ∙ h.opens a.cipher a.key nonce aad plaintext in
    ground (arith, e, o)

-- A packet that a protector seals, from a block of at most 4096 frames whose fields fit their encodings,
-- is opened to that block by a protector that shares its suite, identifiers, key and static IV, whatever
-- ciphers the two have cached for their keys. The library's ciphers open what they seal, and
-- ChaCha20-Poly1305 refuses keys that do not have 32 bytes.
pub open_packet-seal :
    (c : Primitives) (p q r : Protector) (block : FrameBlock) (pkt : AuroraPacket)
    → IsAead c
    → TakesKeys c
    → IsCached c p
    → IsCached c r
    → SharesKeys p r
    → All Fits block
    → length block ≤ max_frame_block_frames
    → seal c p block ≡ (ok pkt, q)
    → open_packet c r pkt ≡ ok block
open_packet-seal c p q r block pkt h k i j s fits m e =
    let o = sealed c p q block pkt e in
    let text = o.text in
    let n = length text - packet_auth_tag_bytes in
    let packet = sym (cached_packet c p text) ∙ o.packet in
    let (b, encoded, decoded) = encode_frame_block-decode block fits m in
    let same : b ≡ o.input.plaintext =
      ground (arith, sym encoded ∙ encode_frame_block_lem block ∙ o.parts.encoded) in
    let cipher =
      (cached_aead-IsCached c r k j).0
      ∙ ap (λ (x : ℕ). new_suite_aead c x r.key) s.same_suite
      ∙ ap (λ (x : List ℕ). new_suite_aead c p.suite x) s.same_key
      ∙ sym (cached_aead-IsCached c p k i).0
      ∙ o.made in
    subst (λ (x : AuroraPacket). open_packet c r x ≡ ok block) packet
      (opened c r (sealed_packet p text) o.input.aad o.input.nonce o.input.plaintext o.cipher block
        (metadata_fits p r text s)
        (ap
            (λ (x : ℕ).
              packet_ad c x p.route_instance_id p.hop_layer p.direction p.key_phase p.next_packet)
            s.same_suite
          ∙ o.parts.ad)
        (ap (λ (x : List ℕ). xor_nonce96 x p.next_packet) s.same_iv ∙ o.parts.number) cipher
        (ap (λ (x : List ℕ). aead_open c o.cipher o.input.nonce o.input.aad x)
            (take-append-drop n text)
          ∙ unlocked c o.cipher o.input.nonce o.input.aad o.input.plaintext text h o.locked)
        (ap decode_frame_block (sym same) ∙ decoded) o.parts.valid)
