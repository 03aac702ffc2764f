-- ===== src/Packet/Direction/Agreement.antt =====
-- packet/key_update.go: the two ends of a direction go through an update together.
use aurora_core.Common.{ℕ, ◌≡◌, none, some, List, if◌then◌else◌}
use aurora_core.Protocol.KeyUpdate.{KeyUpdate}
use aurora_core.Packet.KeyPhase.{KeyMaterial, KeyUpdateResult, ack_for}
use aurora_core.Packet.Direction.{DirectionState, clear_drain_state, advanced}

-- Two ends that use the same keys for the same direction.
pub record IsPaired (s r : DirectionState) : Type 0 where
  pub same_route : s.route_instance_id ≡ r.route_instance_id
  pub same_hop : s.hop_layer ≡ r.hop_layer
  pub same_direction : s.direction ≡ r.direction
  pub same_phase : s.key_phase ≡ r.key_phase
  pub same_material : s.material ≡ r.material

abbrev answer : KeyUpdate → KeyMaterial → List ℕ → KeyUpdateResult
answer frame next ack_nonce = record {
  next_material = next;
  ack = if frame.ack_required then some (ack_for frame ack_nonce) else none;
}

abbrev moved_on : DirectionState → KeyUpdate → List ℕ → KeyUpdateResult → ℕ → DirectionState
moved_on r frame bytes result now =
    record (advanced (clear_drain_state r) frame.new_key_phase result.next_material now) {
      last_received_update = some (bytes, result);
    }
