-- ===== src/Packet/Onion/Split.antt =====
-- packet/onion.go: sealing for the exit and then for the entry. Both protectors are returned, also with an
-- error: the exit's number is used up where a later step fails. The two are different objects, and
-- neither is nil.
use aurora_core.Common.{ℕ, not, ◌||◌, List, [], ◌∷◌, ◌==◌, if◌then◌else◌}
use aurora_core.Errors.{
  Result, ok, fail, ◌>>=◌, forward_layer_mismatch, split2_route_mismatch, split2_hop_mismatch,
  split2_direction_mismatch,
}
use aurora_core.Wire.Encoder.{encode}
use aurora_core.Registry.{frame_route_forward}
use aurora_core.Protocol.Frames.{FrameBlock}
use aurora_core.Protocol.Route.{RouteForwardFrame, encode_route_forward, validate_route_forward}
use aurora_core.Crypto.{Primitives}
use aurora_core.Packet.Codec.{AuroraPacket, encode_aurora_packet}
use aurora_core.Packet.Protector.{Protector}
use aurora_core.Packet.Protector.Sealing.{seal}

abbrev pub forward_with : RouteForwardFrame → List ℕ → RouteForwardFrame
forward_with forward encoded = record forward { opaque_next_hop_prelude = encoded }

abbrev pub forward_block : List ℕ → FrameBlock
forward_block payload =
    record { frame_type = frame_route_forward; flow_id = 0; flags = 0; payload = payload } ∷ []

-- The steps between the two calls of Seal: the inner packet is put into the forward.
unfoldable pub encode_forward : Result AuroraPacket → RouteForwardFrame → Result (List ℕ)
encode_forward sealed forward = sealed >>= λ inner. encode_aurora_packet inner >>= λ encoded.
    encode (encode_route_forward (forward_with forward encoded))

unfoldable pub seal_outer :
    Primitives
    → Protector
    → Protector
    → Result (List ℕ)
    → Result AuroraPacket × Protector × Protector
seal_outer c entry exit (fail x) = (fail x, entry, exit)
seal_outer c entry exit (ok payload) =
    let (sealed, entry_after) = seal c entry (forward_block payload) in (sealed, entry_after, exit)

unfoldable pub seal_split2_onion :
    Primitives
    → FrameBlock
    → Protector
    → Protector
    → RouteForwardFrame
    → Result AuroraPacket × Protector × Protector
unfolding encode_forward seal_outer
seal_split2_onion c exit_block entry exit forward =
    if not (forward.route_instance_id == exit.route_instance_id)
      || not (forward.hop_index == exit.hop_layer)
    then (fail forward_layer_mismatch, entry, exit)
    else elim (validate_route_forward forward) [
      | fail x ↦ (fail x, entry, exit)
      | ok _ ↦
          let (sealed, exit_after) = seal c exit exit_block in
          seal_outer c entry exit_after (encode_forward sealed forward)
    ]

unfoldable pub seal_split2_backward_onion :
    Primitives
    → FrameBlock
    → Protector
    → Protector
    → RouteForwardFrame
    → Result AuroraPacket × Protector × Protector
unfolding seal_split2_onion
seal_split2_backward_onion c exit_block entry exit forward =
    if not (entry.route_instance_id == exit.route_instance_id)
    then (fail split2_route_mismatch, entry, exit)
    else if not (entry.hop_layer == 0) || not (exit.hop_layer == 1)
    then (fail split2_hop_mismatch, entry, exit)
    else if not (entry.direction == 1) || not (exit.direction == 1)
    then (fail split2_direction_mismatch, entry, exit)
    else seal_split2_onion c exit_block entry exit forward
