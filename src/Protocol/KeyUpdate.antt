-- ===== src/Protocol/KeyUpdate.antt =====
-- protocol/frames.go: KEY_UPDATE, KEY_UPDATE_ACK and KEY_UPDATE_REQUEST payloads.
pub mod Codec
use aurora_core.Common.{
  ℕ, ◌+◌, ◌%◌, ◌^◌, Bool, true, false, not, Option, none, some, List, [], ltb, ◌==◌, if◌then◌else◌,
}
use aurora_core.Errors.{
  Error, Result, ok, fail, key_update_reserved_direction, key_update_skipped_phase,
  ack_reserved_direction, request_reserved_direction,
}
use aurora_core.Wire.Encoder.{Write, ◌>>◌, write_varint, write_uint8, write_opaque16}
use aurora_core.Wire.Reader.{Read, ◌>>=◌, pure, read_varint, read_uint8, read_opaque16, read_bool}

pub record KeyUpdate : Type 0 where
  pub route_instance_id : ℕ
  pub hop_layer : ℕ
  pub direction : ℕ
  pub old_key_phase : ℕ
  pub new_key_phase : ℕ
  pub update_nonce : List ℕ
  pub ack_required : Bool
  pub update_reason : ℕ

unfoldable pub encode_key_update : KeyUpdate → Write
encode_key_update k = do
  write_varint k.route_instance_id
  write_uint8 k.hop_layer
  write_uint8 k.direction
  write_uint8 k.old_key_phase
  write_uint8 k.new_key_phase
  write_opaque16 k.update_nonce
  if k.ack_required then write_uint8 1 else write_uint8 0
  write_varint k.update_reason

unfoldable pub decode_key_update : Read KeyUpdate
decode_key_update = do
  route_instance_id ← read_varint
  hop_layer ← read_uint8
  direction ← read_uint8
  old_key_phase ← read_uint8
  new_key_phase ← read_uint8
  update_nonce ← read_opaque16
  ack_required ← read_bool
  update_reason ← read_varint
  pure (record {
    route_instance_id = route_instance_id;
    hop_layer = hop_layer;
    direction = direction;
    old_key_phase = old_key_phase;
    new_key_phase = new_key_phase;
    update_nonce = update_nonce;
    ack_required = ack_required;
    update_reason = update_reason;
  })

pub record KeyUpdateAck : Type 0 where
  pub route_instance_id : ℕ
  pub hop_layer : ℕ
  pub acked_direction : ℕ
  pub acked_key_phase : ℕ
  pub ack_nonce : List ℕ

unfoldable pub encode_key_update_ack : KeyUpdateAck → Write
encode_key_update_ack a = do
  write_varint a.route_instance_id
  write_uint8 a.hop_layer
  write_uint8 a.acked_direction
  write_uint8 a.acked_key_phase
  write_opaque16 a.ack_nonce

unfoldable pub decode_key_update_ack : Read KeyUpdateAck
decode_key_update_ack = do
  route_instance_id ← read_varint
  hop_layer ← read_uint8
  acked_direction ← read_uint8
  acked_key_phase ← read_uint8
  ack_nonce ← read_opaque16
  pure (record {
    route_instance_id = route_instance_id;
    hop_layer = hop_layer;
    acked_direction = acked_direction;
    acked_key_phase = acked_key_phase;
    ack_nonce = ack_nonce;
  })

pub record KeyUpdateRequest : Type 0 where
  pub route_instance_id : ℕ
  pub hop_layer : ℕ
  pub requested_direction : ℕ
  pub request_nonce : List ℕ
  pub request_reason : ℕ

unfoldable pub encode_key_update_request : KeyUpdateRequest → Write
encode_key_update_request r = do
  write_varint r.route_instance_id
  write_uint8 r.hop_layer
  write_uint8 r.requested_direction
  write_opaque16 r.request_nonce
  write_varint r.request_reason

unfoldable pub decode_key_update_request : Read KeyUpdateRequest
decode_key_update_request = do
  route_instance_id ← read_varint
  hop_layer ← read_uint8
  requested_direction ← read_uint8
  request_nonce ← read_opaque16
  request_reason ← read_varint
  pure (record {
    route_instance_id = route_instance_id;
    hop_layer = hop_layer;
    requested_direction = requested_direction;
    request_nonce = request_nonce;
    request_reason = request_reason;
  })

-- `uint16(new) != uint16(old)+1`, so phase 255 has no successor.
unfoldable pub validate_key_update : KeyUpdate → Result (Unit {0})
validate_key_update update =
    if ltb 1 update.direction
    then fail key_update_reserved_direction
    else if not (update.new_key_phase == (update.old_key_phase + 1) % 2 ^ 16)
    then fail key_update_skipped_phase
    else ok tt

unfoldable pub validate_key_update_ack : KeyUpdateAck → Result (Unit {0})
validate_key_update_ack ack =
    if ltb 1 ack.acked_direction then fail ack_reserved_direction else ok tt

unfoldable pub validate_key_update_request : KeyUpdateRequest → Result (Unit {0})
validate_key_update_request req =
    if ltb 1 req.requested_direction then fail request_reserved_direction else ok tt
