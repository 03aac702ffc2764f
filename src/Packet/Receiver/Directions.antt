-- ===== src/Packet/Receiver/Directions.antt =====
-- packet/receiver.go: opening with the keys of a direction's current or last phase.
use aurora_core.Common.{ℕ, Bool, ◌&&◌, none, some, ltb, ◌==◌, if◌then◌else◌, bytes_equal}
use aurora_core.Errors.{Result, ok, fail, ◌>>=◌, receiver_destroyed}
use aurora_core.Protocol.Frames.{FrameBlock}
use aurora_core.Crypto.{Primitives}
use aurora_core.Packet.Codec.{AuroraPacket}
use aurora_core.Packet.KeyPhase.{KeyMaterial}
use aurora_core.Packet.Direction.{
  DirectionState, material_for_packet_view, drain_info, expire_drain,
}
use aurora_core.Packet.Protector.{Protector, new_protector}
use aurora_core.Packet.Receiver.Spaces.{Space, packet_number_space, find, put, delete}
use aurora_core.Packet.Receiver.{
  Receiver, PreparedOpen, prepare_open_with_protector, take_block, forget_packet_number_space,
}

unfoldable pub protector_serves : Protector → DirectionState → ℕ → ℕ → KeyMaterial → Bool
protector_serves p state suite key_phase material =
    p.suite == suite
    && p.route_instance_id == state.route_instance_id
    && p.hop_layer == state.hop_layer
    && p.direction == state.direction
    && p.key_phase == key_phase
    && bytes_equal p.key material.key
    && bytes_equal p.static_iv material.iv

unfoldable pub keep_protector : Receiver → Space → Result Protector → Result Protector × Receiver
unfolding delete put
keep_protector r space (fail x) =
    (fail x, record r { direction_protectors = delete space r.direction_protectors })
keep_protector r space (ok p) =
    (ok p, record r { direction_protectors = put space p r.direction_protectors })

-- The protector that the receiver keeps for the packet's space, made again when it is not the state's.
unfoldable pub direction_protector :
    Primitives
    → Receiver
    → AuroraPacket
    → DirectionState
    → ℕ
    → KeyMaterial
    → Result Protector × Receiver
unfolding protector_serves keep_protector find
direction_protector c r pkt state suite material =
    let space = packet_number_space pkt in
    let made = keep_protector r space (
      new_protector c suite state.route_instance_id state.hop_layer state.direction pkt.key_phase
        material.key material.iv) in
    if r.destroyed then (fail receiver_destroyed, r) else elim (find space r.direction_protectors) [
      | none ↦ made
      | some p ↦ if protector_serves p state suite pkt.key_phase material then (ok p, r) else made
    ]

unfoldable pub prepare_open_with_direction_state :
    Primitives → Receiver → AuroraPacket → DirectionState → ℕ → ℕ → Result PreparedOpen × Receiver
unfolding direction_protector prepare_open_with_protector
prepare_open_with_direction_state c r pkt state suite now =
    elim (material_for_packet_view state pkt now) [
      | fail x ↦ (fail x, r)
      | ok material ↦
          let (p, r') = direction_protector c r pkt state suite material in
          (p >>= λ protector. prepare_open_with_protector c r' pkt protector, r')
    ]

-- Forgets the space of the phase whose drain this call ends.
forget_drained : Receiver → DirectionState → DirectionState → ℕ → Receiver
unfolding drain_info forget_packet_number_space
forget_drained r before state now = elim (drain_info before) [
  | none ↦ r
  | some (previous_phase, deadline) ↦ elim state.drain_until [
    | some _ ↦ r
    | none ↦
        if ltb deadline now
        then forget_packet_number_space r (record {
          route_instance_id = state.route_instance_id;
          hop_layer = state.hop_layer;
          direction = state.direction;
          key_phase = previous_phase;
        })
        else r
  ]
]

finish_open :
    DirectionState
    → ℕ
    → Result FrameBlock × Receiver
    → Result FrameBlock × Receiver × DirectionState
unfolding forget_drained expire_drain
finish_open state now (fail x, r) = (fail x, r, state)
finish_open state now (ok block, r) =
    let t = expire_drain state now in (ok block, forget_drained r state t now, t)

unfoldable pub open_with_direction_state :
    Primitives
    → Receiver
    → AuroraPacket
    → DirectionState
    → ℕ
    → ℕ
    → Result FrameBlock × Receiver × DirectionState
unfolding prepare_open_with_direction_state take_block finish_open
open_with_direction_state c r pkt state suite now =
    let (prepared, r') = prepare_open_with_direction_state c r pkt state suite now in
    finish_open state now (take_block r' prepared)
