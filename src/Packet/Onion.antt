-- ===== src/Packet/Onion.antt =====
-- packet/onion.go: the packet that a ROUTE_FORWARD frame carries to the next hop.
pub mod Split
pub mod Fits
pub mod Layers
use aurora_core.Common.{ℕ, not, List, [], ◌∷◌, ◌==◌, if◌then◌else◌}
use aurora_core.Common.{◌≡◌, refl, sym, ap, ◌∙◌, arith, inl, inr, All}
use aurora_core.Common.Words.{Bytes}
use aurora_core.Wire.Encoder.{encode}
use aurora_core.Protocol.Route.{encode_route_forward}
use aurora_core.Protocol.Route.Codec.{route_forward_Canonical}
use aurora_core.Protocol.Validate.Accepted.{decode_whole-encode}
use aurora_core.Errors.{Result-cases}
use aurora_core.Errors.{
  Result, ok, fail, ◌>>=◌, forward_block_size, not_route_forward, trailing_forward_payload,
}
use aurora_core.Registry.{frame_route_forward}
use aurora_core.Protocol.Frames.{AuroraFrame, FrameBlock}
use aurora_core.Protocol.Route.{RouteForwardFrame, decode_route_forward, validate_route_forward}
use aurora_core.Protocol.Validate.{decode_whole}
use aurora_core.Packet.Codec.{AuroraPacket, decode_aurora_packet}

unfoldable pub decode_route_forward_payload : List ℕ → Result RouteForwardFrame
decode_route_forward_payload payload =
    decode_whole decode_route_forward trailing_forward_payload payload >>= λ forward.
    validate_route_forward forward >>= λ _. ok forward

unfoldable pub decode_forwarded_packet : FrameBlock → Result AuroraPacket
decode_forwarded_packet (frame ∷ []) =
    if not (frame.frame_type == frame_route_forward)
    then fail not_route_forward
    else (decode_route_forward_payload frame.payload >>= λ forward.
        decode_aurora_packet forward.opaque_next_hop_prelude)
decode_forwarded_packet _ = fail forward_block_size

forward_payload :
    (payload : List ℕ) {w : RouteForwardFrame}
    → Bytes payload
    → decode_route_forward_payload payload ≡ ok w
    → (encode (encode_route_forward w) ≡ ok payload) × (validate_route_forward w ≡ ok tt)
unfolding decode_route_forward_payload
forward_payload payload {w} hb e =
    elim (Result-cases (decode_whole decode_route_forward trailing_forward_payload payload)) [
      | inl (v, q) ↦ elim (Result-cases (validate_route_forward v)) [
        | inl (u, r) ↦
            let same : v ≡ w = ground (arith, e, q, r) in
            (
              ap (λ x. encode (encode_route_forward x)) (sym same)
                  ∙ decode_whole-encode trailing_forward_payload route_forward_Canonical payload hb
                      q,
              ap validate_route_forward (sym same) ∙ r,
            )
        | inr (x, r) ↦ absurd (ground (arith, e, q, r))
      ]
      | inr (x, q) ↦ absurd (ground (arith, e, q))
    ]

-- A block from which a packet is taken for the next hop is one ROUTE_FORWARD frame; its payload is
-- the encoding of a valid forward, and the packet is decoded from the prelude that this one carries.
pub decode_forwarded_packet-carried :
    (block : FrameBlock) (p : AuroraPacket)
    → All (λ f. Bytes f.payload) block
    → decode_forwarded_packet block ≡ ok p
    → (f : AuroraFrame) × (w : RouteForwardFrame) × (block ≡ f ∷ [])
      × (f.frame_type ≡ frame_route_forward)
      × (encode (encode_route_forward w) ≡ ok f.payload)
      × (validate_route_forward w ≡ ok tt)
      × (decode_aurora_packet w.opaque_next_hop_prelude ≡ ok p)
unfolding decode_forwarded_packet
decode_forwarded_packet-carried [] p hb e = absurd (ground (arith, e))
decode_forwarded_packet-carried (f ∷ g ∷ block) p hb e = absurd (ground (arith, e))
decode_forwarded_packet-carried (f ∷ []) p hb e =
    elim (Result-cases (decode_route_forward_payload f.payload)) [
      | inl (w, q) ↦
          let t : f.frame_type ≡ frame_route_forward = ground (arith, e) in
          let (encoded, valid) = forward_payload f.payload hb.0 q in
          (f, w, refl, t, encoded, valid, ground (arith, e, q, t))
      | inr (x, q) ↦ absurd (ground (arith, e, q))
    ]
