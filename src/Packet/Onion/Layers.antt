-- ===== src/Packet/Onion/Layers.antt =====
-- packet/onion.go: what is sealed for two hops is opened by the two hops.
use aurora_core.Common.{
  ℕ, ◌+◌, ◌%◌, ◌^◌, ◌≤◌, ◌≡◌, sym, ap, ◌∙◌, arith, subst, List, length, All, inl, inr,
}
use aurora_core.Errors.{Result-cases, bind-ok, ok, trailing_forward_payload}
use aurora_core.Wire.Format.Codes.{Codes-encode}
use aurora_core.Protocol.Frames.{FrameBlock, max_frame_block_frames}
use aurora_core.Protocol.Frames.Codec.{Fits}
use aurora_core.Protocol.Route.{RouteForwardFrame, validate_route_forward, decode_route_forward}
use aurora_core.Protocol.Route.Codec.{route_forward_Codes}
use aurora_core.Protocol.Validate.{decode_whole}
use aurora_core.Protocol.Validate.Accepted.{decode_whole-Codes}
use aurora_core.Crypto.{Primitives, IsAead, TakesKeys}
use aurora_core.Packet.Codec.{AuroraPacket, encode_aurora_packet, decode_aurora_packet}
use aurora_core.Packet.Codec.RoundTrip.{encode_aurora_packet-decode}
use aurora_core.Packet.Onion.Fits.{
  encode_aurora_packet-PacketFits, encode_route_forward-ForwardFits, encode_block-Fits,
}
use aurora_core.Packet.Protector.Sealed.{sealed, cached_keeps}
use aurora_core.Packet.Onion.{decode_forwarded_packet, decode_route_forward_payload}
use aurora_core.Packet.Onion.Split.{
  forward_with, forward_block, encode_forward, seal_outer, seal_split2_onion,
}
use aurora_core.Packet.Protector.{Protector}
use aurora_core.Packet.Protector.Cache.{IsCached}
use aurora_core.Packet.Protector.Sealing.{seal}
use aurora_core.Packet.Protector.Opening.{open_packet}
use aurora_core.Packet.Protector.RoundTrip.{SharesKeys, open_packet-seal}

validate-forward_with :
    (f : RouteForwardFrame) (encoded : List ℕ)
    → validate_route_forward f ≡ ok tt
    → validate_route_forward (forward_with f encoded) ≡ ok tt
unfolding validate_route_forward
validate-forward_with f encoded e = e

-- The packet that is put into a valid forward is the one that is taken out of its block.
decode_forwarded_packet-encode_forward :
    (inner : AuroraPacket) (forward : RouteForwardFrame) (payload : List ℕ)
    → validate_route_forward forward ≡ ok tt
    → encode_forward (ok inner) forward ≡ ok payload
    → decode_forwarded_packet (forward_block payload) ≡ ok inner
unfolding encode_forward decode_forwarded_packet decode_route_forward_payload
decode_forwarded_packet-encode_forward inner forward payload valid e =
    let (encoded, packed, written) = bind-ok (encode_aurora_packet inner) _ e in
    let full = forward_with forward encoded in
    let (b, again, read) =
      encode_aurora_packet-decode inner (encode_aurora_packet-PacketFits inner encoded packed) in
    let same : b ≡ encoded = ground (arith, sym again ∙ packed) in
    let valid' = validate-forward_with forward encoded valid in
    let codes =
      route_forward_Codes full (encode_route_forward-ForwardFits full payload written) valid' in
    let whole_payload : codes.bytes ≡ payload =
      ground (arith, sym (Codes-encode codes) ∙ written) in
    let whole =
      subst (λ (x : List ℕ). decode_whole decode_route_forward trailing_forward_payload x ≡ ok full)
        whole_payload (decode_whole-Codes trailing_forward_payload codes) in
    let taken = ap decode_aurora_packet (sym same) ∙ read in ground (arith, whole, valid', taken)

-- What a packet sealed for two hops consists of.
pub record Split (c : Primitives) (block : FrameBlock) (entry exit : Protector)
    (forward : RouteForwardFrame) (outer : AuroraPacket) (entry_after exit_after : Protector)
    : Type 0 where
  pub inner : AuroraPacket
  pub payload : List ℕ
  pub valid : validate_route_forward forward ≡ ok tt
  pub for_exit : seal c exit block ≡ (ok inner, exit_after)
  pub wrapped : encode_forward (ok inner) forward ≡ ok payload
  pub for_entry : seal c entry (forward_block payload) ≡ (ok outer, entry_after)

split :
    (c : Primitives) (block : FrameBlock) (entry exit : Protector) (forward : RouteForwardFrame)
    (outer : AuroraPacket) (entry_after exit_after : Protector)
    → seal_split2_onion c block entry exit forward ≡ (ok outer, entry_after, exit_after)
    → Split c block entry exit forward outer entry_after exit_after
unfolding seal_split2_onion seal_outer encode_forward
split c block entry exit forward outer entry_after exit_after e =
    elim (Result-cases (validate_route_forward forward)) [
      | inr (x, refused) ↦ absurd (ground (arith, e, refused))
      | inl (u, valid) ↦ elim (Result-cases (seal c exit block).0) [
        | inr (x, unsealed) ↦ absurd (ground (arith, e, valid, unsealed))
        | inl (inner, q) ↦ elim (Result-cases (encode_forward (ok inner) forward)) [
          | inr (x, unwritten) ↦ absurd (ground (arith, e, valid, q, unwritten))
          | inl (payload, written) ↦ record {
            inner = inner;
            payload = payload;
            valid = valid;
            for_exit = ground (arith, e, valid, q, written);
            wrapped = written;
            for_entry = ground (arith, e, valid, q, written);
          }
        ]
      ]
    ]

-- Seal uses one number up.
seal-next_packet :
    (c : Primitives) (p q : Protector) (block : FrameBlock) (pkt : AuroraPacket)
    → seal c p block ≡ (ok pkt, q)
    → q.next_packet ≡ (p.next_packet + 1) % 2 ^ 64
seal-next_packet c p q block pkt e =
    let left = ap (λ (x : Protector). x.next_packet) (sym (sealed c p q block pkt e).left) in
    let after = λ (x : Protector). (x.next_packet + 1) % 2 ^ 64 in
    elim (cached_keeps c p) [
      | inl same ↦ left ∙ ap after same
      | inr (a, filled) ↦ left ∙ ap after filled
    ]

-- A packet sealed for two hops, from a block of at most 4096 frames whose fields fit their encodings, is
-- opened by the entry's peer to a block from which it takes a packet for the next hop, and this one is
-- opened by the exit's peer to the block. Each of the two protectors has used one number up. Peers share suite, identifiers, key and static IV; the
-- ciphers that protectors have cached are those of their keys; the library's ciphers open what they
-- seal, and ChaCha20-Poly1305 refuses keys that do not have 32 bytes.
pub open_packet-seal_split2_onion :
    (c : Primitives) (block : FrameBlock) (entry exit r s entry_after exit_after : Protector)
    (forward : RouteForwardFrame) (outer : AuroraPacket)
    → IsAead c
    → TakesKeys c
    → IsCached c entry
    → IsCached c exit
    → IsCached c r
    → IsCached c s
    → SharesKeys entry r
    → SharesKeys exit s
    → All Fits block
    → length block ≤ max_frame_block_frames
    → seal_split2_onion c block entry exit forward ≡ (ok outer, entry_after, exit_after)
    → (wrapped : FrameBlock) × (inner : AuroraPacket) × (open_packet c r outer ≡ ok wrapped)
      × (decode_forwarded_packet wrapped ≡ ok inner)
      × (open_packet c s inner ≡ ok block)
      × (entry_after.next_packet ≡ (entry.next_packet + 1) % 2 ^ 64)
      × (exit_after.next_packet ≡ (exit.next_packet + 1) % 2 ^ 64)
open_packet-seal_split2_onion c block entry exit r s entry_after exit_after forward outer h k i j m
      n p q fits few e =
    let x = split c block entry exit forward outer entry_after exit_after e in
    let wrapped = forward_block x.payload in
    let written = sealed c entry entry_after wrapped outer x.for_entry in
    let fit = encode_block-Fits _ written.input.plaintext written.parts.encoded in
    (
      wrapped,
      x.inner,
      open_packet-seal c entry entry_after r wrapped outer h k i m p (fit, tt) (omega arith)
          x.for_entry,
      decode_forwarded_packet-encode_forward x.inner forward x.payload x.valid x.wrapped,
      open_packet-seal c exit exit_after s block x.inner h k j n q fits few x.for_exit,
      seal-next_packet c entry entry_after wrapped outer x.for_entry,
      seal-next_packet c exit exit_after block x.inner x.for_exit,
    )
