-- ===== src/Protocol/Route.antt =====
-- protocol/frames.go: ROUTE_FORWARD payloads and the route prelude envelope.
pub mod Codec
use aurora_core.Common.{
  ℕ, Bool, true, false, not, Option, none, some, List, [], ◌∷◌, ltb, ◌==◌, if◌then◌else◌, length,
}
use aurora_core.Errors.{
  Error, Result, ok, fail, next_hash_length, previous_hash_length, routing_record_id_length,
  ipv4_locator_length, ipv6_locator_length, empty_locator, reserved_locator_type,
  trailing_authority, empty_authority, zero_authority_port,
}
use aurora_core.Registry.{locator_ipv4_port, locator_ipv6_port, locator_authority, locator_opaque}
use aurora_core.Wire.Encoder.{
  Write, ◌>>◌, write_varint, write_uint8, write_uint64, write_pre_hash, write_opaque_fixed,
  write_opaque16, write_opaque24,
}
use aurora_core.Wire.Reader.{
  Reader, Read, ◌>>=◌, pure, read_varint, read_uint8, read_uint16, read_uint64, read_pre_hash,
  read_opaque_fixed, read_opaque16, read_opaque24, new_reader, eof,
}

pub record RouteForwardFrame : Type 0 where
  pub route_instance_id : ℕ
  pub hop_index : ℕ
  pub next_relay_descriptor_hash : List ℕ
  pub previous_hop_relay_descriptor_hash : List ℕ
  pub next_relay_routing_record_id : List ℕ
  pub next_relay_locator_type : ℕ
  pub next_relay_locator : List ℕ
  pub opaque_next_hop_prelude : List ℕ

unfoldable pub encode_route_forward : RouteForwardFrame → Write
encode_route_forward f = do
  write_varint f.route_instance_id
  write_uint8 f.hop_index
  write_pre_hash f.next_relay_descriptor_hash
  write_pre_hash f.previous_hop_relay_descriptor_hash
  write_opaque16 f.next_relay_routing_record_id
  write_varint f.next_relay_locator_type
  write_opaque16 f.next_relay_locator
  write_opaque24 f.opaque_next_hop_prelude

unfoldable pub decode_route_forward : Read RouteForwardFrame
decode_route_forward = do
  route_instance_id ← read_varint
  hop_index ← read_uint8
  next_relay_descriptor_hash ← read_pre_hash
  previous_hop_relay_descriptor_hash ← read_pre_hash
  next_relay_routing_record_id ← read_opaque16
  next_relay_locator_type ← read_varint
  next_relay_locator ← read_opaque16
  opaque_next_hop_prelude ← read_opaque24
  pure (record {
    route_instance_id = route_instance_id;
    hop_index = hop_index;
    next_relay_descriptor_hash = next_relay_descriptor_hash;
    previous_hop_relay_descriptor_hash = previous_hop_relay_descriptor_hash;
    next_relay_routing_record_id = next_relay_routing_record_id;
    next_relay_locator_type = next_relay_locator_type;
    next_relay_locator = next_relay_locator;
    opaque_next_hop_prelude = opaque_next_hop_prelude;
  })

unfoldable pub validate_authority_locator : List ℕ → Result (Unit {0})
validate_authority_locator locator =
    let (authority, r) = read_opaque16 (new_reader locator) in
    let (port, r') = read_uint16 r in
    elim r'.err [
      | some x ↦ fail x
      | none ↦
          if not (eof r')
          then fail trailing_authority
          else if length authority == 0
          then fail empty_authority
          else if port == 0
          then fail zero_authority_port
          else ok tt
    ]

validate_locator : ℕ → List ℕ → Result (Unit {0})
unfolding validate_authority_locator
validate_locator locator_type locator =
    if locator_type == locator_ipv4_port
    then (if length locator == 6 then ok tt else fail ipv4_locator_length)
    else if locator_type == locator_ipv6_port
    then (if length locator == 18 then ok tt else fail ipv6_locator_length)
    else if locator_type == locator_authority
    then validate_authority_locator locator
    else if locator_type == locator_opaque
    then (if length locator == 0 then fail empty_locator else ok tt)
    else fail reserved_locator_type

unfoldable pub validate_route_forward : RouteForwardFrame → Result (Unit {0})
unfolding validate_locator
validate_route_forward forward =
    if not (length forward.next_relay_descriptor_hash == 48)
    then fail next_hash_length
    else if not (length forward.previous_hop_relay_descriptor_hash == 48)
    then fail previous_hash_length
    else if not (length forward.next_relay_routing_record_id == 16)
    then fail routing_record_id_length
    else validate_locator forward.next_relay_locator_type forward.next_relay_locator

pub record RoutePreludeEnvelope : Type 0 where
  pub route_instance_id : ℕ
  pub hop_index : ℕ
  pub previous_hop_relay_descriptor_hash : List ℕ
  pub next_relay_descriptor_hash : List ℕ
  pub hint_issuer_id : List ℕ
  pub relay_bucket_id : List ℕ
  pub hint_epoch_id : ℕ
  pub hint_selector : List ℕ
  pub wrap_suite_id : ℕ
  pub wrap_nonce : List ℕ
  pub sealed_route_prelude0 : List ℕ

unfoldable pub encode_route_prelude_envelope : RoutePreludeEnvelope → Write
encode_route_prelude_envelope r = do
  write_varint r.route_instance_id
  write_uint8 r.hop_index
  write_pre_hash r.previous_hop_relay_descriptor_hash
  write_pre_hash r.next_relay_descriptor_hash
  write_opaque_fixed r.hint_issuer_id 16
  write_opaque_fixed r.relay_bucket_id 16
  write_uint64 r.hint_epoch_id
  write_opaque_fixed r.hint_selector 16
  write_varint r.wrap_suite_id
  write_opaque_fixed r.wrap_nonce 16
  write_opaque24 r.sealed_route_prelude0

unfoldable pub decode_route_prelude_envelope : Read RoutePreludeEnvelope
decode_route_prelude_envelope = do
  route_instance_id ← read_varint
  hop_index ← read_uint8
  previous_hop_relay_descriptor_hash ← read_pre_hash
  next_relay_descriptor_hash ← read_pre_hash
  hint_issuer_id ← read_opaque_fixed 16
  relay_bucket_id ← read_opaque_fixed 16
  hint_epoch_id ← read_uint64
  hint_selector ← read_opaque_fixed 16
  wrap_suite_id ← read_varint
  wrap_nonce ← read_opaque_fixed 16
  sealed_route_prelude0 ← read_opaque24
  pure (record {
    route_instance_id = route_instance_id;
    hop_index = hop_index;
    previous_hop_relay_descriptor_hash = previous_hop_relay_descriptor_hash;
    next_relay_descriptor_hash = next_relay_descriptor_hash;
    hint_issuer_id = hint_issuer_id;
    relay_bucket_id = relay_bucket_id;
    hint_epoch_id = hint_epoch_id;
    hint_selector = hint_selector;
    wrap_suite_id = wrap_suite_id;
    wrap_nonce = wrap_nonce;
    sealed_route_prelude0 = sealed_route_prelude0;
  })
