-- ===== src/Protocol/Policies.antt =====
-- protocol/admission.go: policies that are offered and accepted.
pub mod Codec
use aurora_core.Common.{ℕ, Bool, List, Option}
use aurora_core.Wire.Encoder.{
  Write, ◌>>◌, write_opaque16, write_opaque8, write_opaque_fixed, write_uint16, write_uint64,
  write_uint8, write_varint, write_varint_vector,
}
use aurora_core.Wire.Reader.{
  Read, ◌>>=◌, pure, read_opaque16, read_opaque8, read_opaque_fixed, read_uint16, read_uint64,
  read_uint8, read_varint, read_varint_vector,
}
use aurora_core.Protocol.Optional.{read_optional, write_optional}
use aurora_core.Protocol.Extensions.{Extension, encode_extensions, decode_extensions}

pub record ClientTransportHints : Type 0 where
  pub hint_flags : ℕ
  pub observed_path_mtu_bucket : ℕ
  pub recent_quic_result : ℕ
  pub recent_h2_result : ℕ
  pub congestion_class : ℕ
  pub max_datagram_payload_hint : ℕ
  pub network_cohort_hint : List ℕ
  pub padding : List ℕ
  pub extensions : List Extension

unfoldable pub encode_client_transport_hints : ClientTransportHints → Write
encode_client_transport_hints x = do
  write_uint16 x.hint_flags
  write_uint8 x.observed_path_mtu_bucket
  write_uint8 x.recent_quic_result
  write_uint8 x.recent_h2_result
  write_uint8 x.congestion_class
  write_uint16 x.max_datagram_payload_hint
  write_opaque8 x.network_cohort_hint
  write_opaque16 x.padding
  encode_extensions x.extensions

unfoldable pub decode_client_transport_hints : Read ClientTransportHints
decode_client_transport_hints = do
  hint_flags ← read_uint16
  observed_path_mtu_bucket ← read_uint8
  recent_quic_result ← read_uint8
  recent_h2_result ← read_uint8
  congestion_class ← read_uint8
  max_datagram_payload_hint ← read_uint16
  network_cohort_hint ← read_opaque8
  padding ← read_opaque16
  extensions ← decode_extensions
  pure (record {
    hint_flags = hint_flags;
    observed_path_mtu_bucket = observed_path_mtu_bucket;
    recent_quic_result = recent_quic_result;
    recent_h2_result = recent_h2_result;
    congestion_class = congestion_class;
    max_datagram_payload_hint = max_datagram_payload_hint;
    network_cohort_hint = network_cohort_hint;
    padding = padding;
    extensions = extensions;
  })

pub record PolicyOffer : Type 0 where
  pub offered_versions : List ℕ
  pub offered_suites : List ℕ
  pub offered_methods : List ℕ
  pub minimum_policy_id : ℕ
  pub requested_policy_id : ℕ
  pub requested_route_mode_id : ℕ
  pub requested_shape_id : ℕ
  pub tunnel_personality_offers : List ℕ
  pub flow_capabilities : ℕ
  pub max_padding_overhead_pct : ℕ
  pub extensions : List Extension

unfoldable pub encode_policy_offer : PolicyOffer → Write
encode_policy_offer x = do
  write_varint_vector x.offered_versions
  write_varint_vector x.offered_suites
  write_varint_vector x.offered_methods
  write_varint x.minimum_policy_id
  write_varint x.requested_policy_id
  write_varint x.requested_route_mode_id
  write_varint x.requested_shape_id
  write_varint_vector x.tunnel_personality_offers
  write_uint64 x.flow_capabilities
  write_uint8 x.max_padding_overhead_pct
  encode_extensions x.extensions

unfoldable pub decode_policy_offer : Read PolicyOffer
decode_policy_offer = do
  offered_versions ← read_varint_vector
  offered_suites ← read_varint_vector
  offered_methods ← read_varint_vector
  minimum_policy_id ← read_varint
  requested_policy_id ← read_varint
  requested_route_mode_id ← read_varint
  requested_shape_id ← read_varint
  tunnel_personality_offers ← read_varint_vector
  flow_capabilities ← read_uint64
  max_padding_overhead_pct ← read_uint8
  extensions ← decode_extensions
  pure (record {
    offered_versions = offered_versions;
    offered_suites = offered_suites;
    offered_methods = offered_methods;
    minimum_policy_id = minimum_policy_id;
    requested_policy_id = requested_policy_id;
    requested_route_mode_id = requested_route_mode_id;
    requested_shape_id = requested_shape_id;
    tunnel_personality_offers = tunnel_personality_offers;
    flow_capabilities = flow_capabilities;
    max_padding_overhead_pct = max_padding_overhead_pct;
    extensions = extensions;
  })

pub record VirtualAddressAssignment : Type 0 where
  pub lease_id : List ℕ
  pub address_family : ℕ
  pub client_address : List ℕ
  pub prefix_length : ℕ
  pub dns_server_hint : Option (List ℕ)
  pub lease_expiry_unix : ℕ

unfoldable pub encode_virtual_address_assignment : VirtualAddressAssignment → Write
encode_virtual_address_assignment x = do
  write_opaque_fixed x.lease_id 16
  write_varint x.address_family
  write_opaque8 x.client_address
  write_uint8 x.prefix_length
  write_optional write_opaque8 x.dns_server_hint
  write_uint64 x.lease_expiry_unix

unfoldable pub decode_virtual_address_assignment : Read VirtualAddressAssignment
decode_virtual_address_assignment = do
  lease_id ← read_opaque_fixed 16
  address_family ← read_varint
  client_address ← read_opaque8
  prefix_length ← read_uint8
  dns_server_hint ← read_optional read_opaque8
  lease_expiry_unix ← read_uint64
  pure (record {
    lease_id = lease_id;
    address_family = address_family;
    client_address = client_address;
    prefix_length = prefix_length;
    dns_server_hint = dns_server_hint;
    lease_expiry_unix = lease_expiry_unix;
  })

pub record PolicyAccept : Type 0 where
  pub selected_version : ℕ
  pub selected_suite : ℕ
  pub selected_method : ℕ
  pub selected_policy : ℕ
  pub selected_route_mode_id : ℕ
  pub selected_shape : ℕ
  pub selected_tunnel_personality : ℕ
  pub fallback_methods : List ℕ
  pub retry_policy_id : ℕ
  pub path_validation_policy_id : ℕ
  pub virtual_address_assignment : Option VirtualAddressAssignment
  pub extensions : List Extension

unfoldable pub encode_policy_accept : PolicyAccept → Write
encode_policy_accept x = do
  write_varint x.selected_version
  write_varint x.selected_suite
  write_varint x.selected_method
  write_varint x.selected_policy
  write_varint x.selected_route_mode_id
  write_varint x.selected_shape
  write_varint x.selected_tunnel_personality
  write_varint_vector x.fallback_methods
  write_varint x.retry_policy_id
  write_varint x.path_validation_policy_id
  write_optional encode_virtual_address_assignment x.virtual_address_assignment
  encode_extensions x.extensions

unfoldable pub decode_policy_accept : Read PolicyAccept
decode_policy_accept = do
  selected_version ← read_varint
  selected_suite ← read_varint
  selected_method ← read_varint
  selected_policy ← read_varint
  selected_route_mode_id ← read_varint
  selected_shape ← read_varint
  selected_tunnel_personality ← read_varint
  fallback_methods ← read_varint_vector
  retry_policy_id ← read_varint
  path_validation_policy_id ← read_varint
  virtual_address_assignment ← read_optional decode_virtual_address_assignment
  extensions ← decode_extensions
  pure (record {
    selected_version = selected_version;
    selected_suite = selected_suite;
    selected_method = selected_method;
    selected_policy = selected_policy;
    selected_route_mode_id = selected_route_mode_id;
    selected_shape = selected_shape;
    selected_tunnel_personality = selected_tunnel_personality;
    fallback_methods = fallback_methods;
    retry_policy_id = retry_policy_id;
    path_validation_policy_id = path_validation_policy_id;
    virtual_address_assignment = virtual_address_assignment;
    extensions = extensions;
  })
