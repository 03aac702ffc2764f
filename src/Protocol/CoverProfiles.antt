-- ===== src/Protocol/CoverProfiles.antt =====
-- protocol/directory.go: the profiles of cover carriers.
pub mod Codec
use aurora_core.Common.{ℕ, Bool, List}
use aurora_core.Wire.Encoder.{Write, ◌>>◌, write_bool, write_opaque_fixed, write_varint}
use aurora_core.Wire.Reader.{Read, ◌>>=◌, pure, read_bool, read_opaque_fixed, read_varint}

pub record H2CoverProfile : Type 0 where
  pub profile_id : ℕ
  pub h2_settings_family_id : ℕ
  pub pseudo_header_order_family_id : ℕ
  pub hpack_behavior_family_id : ℕ
  pub max_concurrent_streams_bucket : ℕ
  pub initial_window_bucket : ℕ
  pub request_graph_family_id : ℕ
  pub record_size_distribution_id : List ℕ
  pub idle_timeout_policy_id : ℕ

unfoldable pub encode_h2_cover_profile : H2CoverProfile → Write
encode_h2_cover_profile x = do
  write_varint x.profile_id
  write_varint x.h2_settings_family_id
  write_varint x.pseudo_header_order_family_id
  write_varint x.hpack_behavior_family_id
  write_varint x.max_concurrent_streams_bucket
  write_varint x.initial_window_bucket
  write_varint x.request_graph_family_id
  write_opaque_fixed x.record_size_distribution_id 16
  write_varint x.idle_timeout_policy_id

unfoldable pub decode_h2_cover_profile : Read H2CoverProfile
decode_h2_cover_profile = do
  profile_id ← read_varint
  h2_settings_family_id ← read_varint
  pseudo_header_order_family_id ← read_varint
  hpack_behavior_family_id ← read_varint
  max_concurrent_streams_bucket ← read_varint
  initial_window_bucket ← read_varint
  request_graph_family_id ← read_varint
  record_size_distribution_id ← read_opaque_fixed 16
  idle_timeout_policy_id ← read_varint
  pure (record {
    profile_id = profile_id;
    h2_settings_family_id = h2_settings_family_id;
    pseudo_header_order_family_id = pseudo_header_order_family_id;
    hpack_behavior_family_id = hpack_behavior_family_id;
    max_concurrent_streams_bucket = max_concurrent_streams_bucket;
    initial_window_bucket = initial_window_bucket;
    request_graph_family_id = request_graph_family_id;
    record_size_distribution_id = record_size_distribution_id;
    idle_timeout_policy_id = idle_timeout_policy_id;
  })

pub record H3CoverProfile : Type 0 where
  pub profile_id : ℕ
  pub h3_settings_family_id : ℕ
  pub qpack_behavior_family_id : ℕ
  pub supports_h3_datagram : Bool
  pub supports_web_transport_h3 : Bool
  pub web_transport_profile_id : ℕ
  pub quic_datagram_required : Bool
  pub reset_stream_at_required : Bool
  pub request_graph_family_id : ℕ
  pub datagram_size_distribution_id : List ℕ
  pub datagram_rate_distribution_id : List ℕ
  pub fallback_method_id : ℕ

unfoldable pub encode_h3_cover_profile : H3CoverProfile → Write
encode_h3_cover_profile x = do
  write_varint x.profile_id
  write_varint x.h3_settings_family_id
  write_varint x.qpack_behavior_family_id
  write_bool x.supports_h3_datagram
  write_bool x.supports_web_transport_h3
  write_varint x.web_transport_profile_id
  write_bool x.quic_datagram_required
  write_bool x.reset_stream_at_required
  write_varint x.request_graph_family_id
  write_opaque_fixed x.datagram_size_distribution_id 16
  write_opaque_fixed x.datagram_rate_distribution_id 16
  write_varint x.fallback_method_id

unfoldable pub decode_h3_cover_profile : Read H3CoverProfile
decode_h3_cover_profile = do
  profile_id ← read_varint
  h3_settings_family_id ← read_varint
  qpack_behavior_family_id ← read_varint
  supports_h3_datagram ← read_bool
  supports_web_transport_h3 ← read_bool
  web_transport_profile_id ← read_varint
  quic_datagram_required ← read_bool
  reset_stream_at_required ← read_bool
  request_graph_family_id ← read_varint
  datagram_size_distribution_id ← read_opaque_fixed 16
  datagram_rate_distribution_id ← read_opaque_fixed 16
  fallback_method_id ← read_varint
  pure (record {
    profile_id = profile_id;
    h3_settings_family_id = h3_settings_family_id;
    qpack_behavior_family_id = qpack_behavior_family_id;
    supports_h3_datagram = supports_h3_datagram;
    supports_web_transport_h3 = supports_web_transport_h3;
    web_transport_profile_id = web_transport_profile_id;
    quic_datagram_required = quic_datagram_required;
    reset_stream_at_required = reset_stream_at_required;
    request_graph_family_id = request_graph_family_id;
    datagram_size_distribution_id = datagram_size_distribution_id;
    datagram_rate_distribution_id = datagram_rate_distribution_id;
    fallback_method_id = fallback_method_id;
  })

pub record WebSocketCoverProfile : Type 0 where
  pub profile_id : ℕ
  pub upgrade_family_id : ℕ
  pub subprotocol_family_id : ℕ
  pub frame_size_distribution_id : List ℕ
  pub ping_policy_id : ℕ
  pub close_behavior_id : ℕ
  pub stream_lifetime_policy_id : ℕ

unfoldable pub encode_web_socket_cover_profile : WebSocketCoverProfile → Write
encode_web_socket_cover_profile x = do
  write_varint x.profile_id
  write_varint x.upgrade_family_id
  write_varint x.subprotocol_family_id
  write_opaque_fixed x.frame_size_distribution_id 16
  write_varint x.ping_policy_id
  write_varint x.close_behavior_id
  write_varint x.stream_lifetime_policy_id

unfoldable pub decode_web_socket_cover_profile : Read WebSocketCoverProfile
decode_web_socket_cover_profile = do
  profile_id ← read_varint
  upgrade_family_id ← read_varint
  subprotocol_family_id ← read_varint
  frame_size_distribution_id ← read_opaque_fixed 16
  ping_policy_id ← read_varint
  close_behavior_id ← read_varint
  stream_lifetime_policy_id ← read_varint
  pure (record {
    profile_id = profile_id;
    upgrade_family_id = upgrade_family_id;
    subprotocol_family_id = subprotocol_family_id;
    frame_size_distribution_id = frame_size_distribution_id;
    ping_policy_id = ping_policy_id;
    close_behavior_id = close_behavior_id;
    stream_lifetime_policy_id = stream_lifetime_policy_id;
  })
