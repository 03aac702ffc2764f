-- ===== src/Packet/Direction.antt =====
-- packet/key_update.go: the key phase of one direction. A time is a count of nanoseconds, and Go's zero
-- time is `none`; a method on `*DirectionState` returns the state that it leaves.
pub mod Steps
pub mod Phases
pub mod Keys
pub mod Agreement
use aurora_core.Common.{
  ℕ, ◌+◌, ◌*◌, ◌^◌, Bool, true, false, not, ◌&&◌, ◌||◌, Option, none, some, List, [], ltb, leb,
  ◌==◌, if◌then◌else◌, length, bytes_equal,
}
use aurora_core.Errors.{
  Error, Result, ok, fail, ◌>>=◌, already_draining, key_phase_exhausted, route_instance_mismatch,
  hop_layer_mismatch, direction_mismatch, source_phase_mismatch, source_material_mismatch,
  key_phase_not_active, no_pending_ack, ack_nonce_too_long, acked_phase_mismatch,
  old_phase_mismatch,
}
use aurora_core.Wire.Encoder.{encode}
use aurora_core.Protocol.KeyUpdate.{KeyUpdate, KeyUpdateAck, encode_key_update, validate_key_update}
use aurora_core.Crypto.{Primitives}
use aurora_core.Packet.Codec.{AuroraPacket}
use aurora_core.Packet.KeyPhase.{
  KeyMaterial, erased, KeyUpdateResult, derive_key_update, apply_received_key_update,
  max_opaque16_bytes,
}

-- 10 s.
abbrev pub max_drain_window : ℕ
max_drain_window = 10 * 10 ^ 9

pub record PreparedKeyUpdate : Type 0 where
  pub frame : KeyUpdate
  pub next_material : KeyMaterial
  pub source_phase : ℕ
  pub source_material : KeyMaterial

-- The pending update and the flag that says whether there is one are one option; so are the bytes of
-- the last update received and its result, whose bytes are never empty while there is one.
pub record DirectionState : Type 0 where
  pub route_instance_id : ℕ
  pub hop_layer : ℕ
  pub direction : ℕ
  pub key_phase : ℕ
  pub material : KeyMaterial
  pub drain_until : Option ℕ
  pub previous_key_phase : ℕ
  pub previous_material : KeyMaterial
  pub pending_sent_update : Option KeyUpdate
  pub last_received_update : Option (List ℕ × KeyUpdateResult)

unfoldable pub clear_drain_state : DirectionState → DirectionState
clear_drain_state s = record s {
  previous_key_phase = 0;
  previous_material = erased;
  drain_until = none;
  pending_sent_update = none;
  last_received_update = none;
}

unfoldable pub drain_active : DirectionState → ℕ → Bool
drain_active s now = elim s.drain_until [ none ↦ false | some until ↦ leb now until ]

unfoldable pub expire_drain : DirectionState → ℕ → DirectionState
unfolding clear_drain_state
expire_drain s now = elim s.drain_until [
  | none ↦ s
  | some until ↦ if ltb until now then clear_drain_state s else s
]

abbrev pub next_frame : DirectionState → List ℕ → Bool → ℕ → KeyUpdate
next_frame s update_nonce ack_required reason = record {
  route_instance_id = s.route_instance_id;
  hop_layer = s.hop_layer;
  direction = s.direction;
  old_key_phase = s.key_phase;
  new_key_phase = s.key_phase + 1;
  update_nonce = update_nonce;
  ack_required = ack_required;
  update_reason = reason;
}

unfoldable pub prepare_update :
    Primitives → DirectionState → ℕ → List ℕ → Bool → ℕ → ℕ → Result PreparedKeyUpdate
unfolding drain_active
prepare_update c s suite update_nonce ack_required reason now =
    let frame = next_frame s update_nonce ack_required reason in
    if drain_active s now
    then fail already_draining
    else if s.key_phase == 255
    then fail key_phase_exhausted
    else (validate_key_update frame >>= λ _.
        derive_key_update c suite s.material.app_secret frame >>= λ next. ok (record {
          frame = frame;
          next_material = next;
          source_phase = s.key_phase;
          source_material = s.material;
        }))

abbrev material_equal : KeyMaterial → KeyMaterial → Bool
material_equal a b =
    bytes_equal a.app_secret b.app_secret && bytes_equal a.key b.key && bytes_equal a.iv b.iv

-- The state after an update: a new phase and its material, the old ones kept until the deadline.
abbrev pub advanced : DirectionState → ℕ → KeyMaterial → ℕ → DirectionState
advanced s new_key_phase next now = record s {
  previous_key_phase = s.key_phase;
  previous_material = s.material;
  key_phase = new_key_phase;
  material = next;
  drain_until = some (now + max_drain_window);
}

unfoldable pub commit_prepared_update :
    DirectionState → PreparedKeyUpdate → ℕ → Result DirectionState
unfolding clear_drain_state
commit_prepared_update s prepared now =
    let frame = prepared.frame in
    validate_key_update frame >>= λ _.
    if not (frame.route_instance_id == s.route_instance_id)
    then fail route_instance_mismatch
    else if not (frame.hop_layer == s.hop_layer)
    then fail hop_layer_mismatch
    else if not (frame.direction == s.direction)
    then fail direction_mismatch
    else if not (frame.old_key_phase == prepared.source_phase)
        || not (s.key_phase == prepared.source_phase)
    then fail source_phase_mismatch
    else if not (material_equal s.material prepared.source_material)
    then fail source_material_mismatch
    else ok
        (record (advanced (clear_drain_state s) frame.new_key_phase prepared.next_material now) {
          pending_sent_update = if frame.ack_required then some frame else none;
        })

unfoldable pub initiate_update :
    Primitives → DirectionState → ℕ → List ℕ → Bool → ℕ → ℕ → Result (KeyUpdate × DirectionState)
initiate_update c s suite update_nonce ack_required reason now =
    prepare_update c s suite update_nonce ack_required reason now >>= λ prepared.
    commit_prepared_update s prepared now >>= λ t. ok (prepared.frame, t)

unfoldable pub material_for_packet_view : DirectionState → AuroraPacket → ℕ → Result KeyMaterial
unfolding drain_active
material_for_packet_view s pkt now =
    if not (pkt.route_instance_id == s.route_instance_id)
    then fail route_instance_mismatch
    else if not (pkt.hop_layer == s.hop_layer)
    then fail hop_layer_mismatch
    else if not (pkt.direction == s.direction)
    then fail direction_mismatch
    else if pkt.key_phase == s.key_phase
    then ok s.material
    else if pkt.key_phase == s.previous_key_phase && drain_active s now
    then ok s.previous_material
    else fail key_phase_not_active

unfoldable pub material_for_packet :
    DirectionState → AuroraPacket → ℕ → Result KeyMaterial × DirectionState
material_for_packet s pkt now =
    let t = expire_drain s now in (material_for_packet_view t pkt now, t)

unfoldable pub drain_info : DirectionState → Option (ℕ × ℕ)
drain_info s = elim s.drain_until [ none ↦ none | some until ↦ some (s.previous_key_phase, until) ]

unfoldable pub pending_key_update_retransmission :
    DirectionState → ℕ → Option (KeyUpdate × KeyMaterial) × DirectionState
pending_key_update_retransmission s now =
    let t = expire_drain s now in
    (elim t.pending_sent_update [ none ↦ none | some frame ↦ some (frame, t.previous_material) ], t)

unfoldable pub acknowledges_completed_key_update : DirectionState → KeyUpdateAck → Bool
acknowledges_completed_key_update s ack = elim s.pending_sent_update [
  | some _ ↦ false
  | none ↦
      not (s.key_phase == 0)
      && ack.route_instance_id == s.route_instance_id
      && ack.hop_layer == s.hop_layer
      && ack.acked_direction == s.direction
      && ack.acked_key_phase == s.key_phase
      && leb (length ack.ack_nonce) max_opaque16_bytes
]

unfoldable pub check_ack : DirectionState → KeyUpdateAck → Result (Unit {0})
check_ack s ack = elim s.pending_sent_update [
  | none ↦ fail no_pending_ack
  | some _ ↦
      if ltb max_opaque16_bytes (length ack.ack_nonce)
      then fail ack_nonce_too_long
      else if not (ack.route_instance_id == s.route_instance_id)
      then fail route_instance_mismatch
      else if not (ack.hop_layer == s.hop_layer)
      then fail hop_layer_mismatch
      else if not (ack.acked_direction == s.direction)
      then fail direction_mismatch
      else if not (ack.acked_key_phase == s.key_phase)
      then fail acked_phase_mismatch
      else ok tt
]

unfoldable pub apply_key_update_ack :
    DirectionState → KeyUpdateAck → ℕ → Result (Unit {0}) × DirectionState
unfolding check_ack
apply_key_update_ack s ack now =
    let t = expire_drain s now in
    (check_ack t ack, elim (check_ack t ack) [ ok _ ↦ clear_drain_state t | fail _ ↦ t ])

unfoldable pub duplicate_received_update :
    DirectionState → KeyUpdate → List ℕ → ℕ → Option KeyUpdateResult
unfolding drain_active
duplicate_received_update s frame encoded_frame now = elim s.last_received_update [
  | none ↦ none
  | some (bytes, result) ↦
      if length bytes == 0 || not (drain_active s now)
      then none
      else if not (frame.new_key_phase == s.key_phase)
      then none
      else if bytes_equal bytes encoded_frame
      then some result
      else none
]

unfoldable pub apply_received_update_at :
    Primitives
    → DirectionState
    → ℕ
    → KeyUpdate
    → List ℕ
    → ℕ
    → Result (KeyUpdateResult × DirectionState)
apply_received_update_at c s suite frame ack_nonce now =
    if not (frame.route_instance_id == s.route_instance_id)
    then fail route_instance_mismatch
    else if not (frame.hop_layer == s.hop_layer)
    then fail hop_layer_mismatch
    else if not (frame.direction == s.direction)
    then fail direction_mismatch
    else (encode (encode_key_update frame) >>= λ encoded_frame.
        if not (frame.old_key_phase == s.key_phase)
        then elim (duplicate_received_update s frame encoded_frame now) [
          | some result ↦ ok (result, s)
          | none ↦ fail old_phase_mismatch
        ]
        else (apply_received_key_update c suite s.material.app_secret frame ack_nonce >>= λ result.
            ok (
              result,
              record (advanced (clear_drain_state s) frame.new_key_phase result.next_material now) {
                last_received_update = some (encoded_frame, result);
              },
            )))
