-- ===== src/Protocol/Preludes.antt =====
-- protocol/bootstrap.go: preludes.
pub mod Codec
use aurora_core.Common.{ℕ, Bool, List}
use aurora_core.Wire.Encoder.{
  Write, ◌>>◌, write_opaque16, write_opaque_fixed, write_pre_hash, write_uint64, write_uint8,
  write_varint, write_varint_vector,
}
use aurora_core.Wire.Reader.{
  Read, ◌>>=◌, pure, read_opaque16, read_opaque_fixed, read_pre_hash, read_uint64, read_uint8,
  read_varint, read_varint_vector,
}
use aurora_core.Protocol.Extensions.{Extension, encode_extensions, decode_extensions}

pub record CoverPrelude0 : Type 0 where
  pub msg_type : ℕ
  pub version : ℕ
  pub suite_offers : List ℕ
  pub client_nonce : List ℕ
  pub client_classical_eph_pub : List ℕ
  pub client_mlkem_encapsulation_key : List ℕ
  pub relay_descriptor_hash : List ℕ
  pub cover_template_hash : List ℕ
  pub request_class_id : ℕ
  pub hint_issuer_id : List ℕ
  pub relay_bucket_id : List ℕ
  pub hint_epoch_id : ℕ
  pub hint_selector : List ℕ
  pub access_hint : List ℕ
  pub client_cover_random : List ℕ
  pub padding : List ℕ
  pub extensions : List Extension

unfoldable pub encode_cover_prelude0 : CoverPrelude0 → Write
encode_cover_prelude0 x = do
  write_varint x.msg_type
  write_varint x.version
  write_varint_vector x.suite_offers
  write_opaque_fixed x.client_nonce 32
  write_opaque16 x.client_classical_eph_pub
  write_opaque16 x.client_mlkem_encapsulation_key
  write_pre_hash x.relay_descriptor_hash
  write_pre_hash x.cover_template_hash
  write_varint x.request_class_id
  write_opaque_fixed x.hint_issuer_id 16
  write_opaque_fixed x.relay_bucket_id 16
  write_uint64 x.hint_epoch_id
  write_opaque_fixed x.hint_selector 16
  write_opaque_fixed x.access_hint 16
  write_opaque_fixed x.client_cover_random 32
  write_opaque16 x.padding
  encode_extensions x.extensions

unfoldable pub decode_cover_prelude0 : Read CoverPrelude0
decode_cover_prelude0 = do
  msg_type ← read_varint
  version ← read_varint
  suite_offers ← read_varint_vector
  client_nonce ← read_opaque_fixed 32
  client_classical_eph_pub ← read_opaque16
  client_mlkem_encapsulation_key ← read_opaque16
  relay_descriptor_hash ← read_pre_hash
  cover_template_hash ← read_pre_hash
  request_class_id ← read_varint
  hint_issuer_id ← read_opaque_fixed 16
  relay_bucket_id ← read_opaque_fixed 16
  hint_epoch_id ← read_uint64
  hint_selector ← read_opaque_fixed 16
  access_hint ← read_opaque_fixed 16
  client_cover_random ← read_opaque_fixed 32
  padding ← read_opaque16
  extensions ← decode_extensions
  pure (record {
    msg_type = msg_type;
    version = version;
    suite_offers = suite_offers;
    client_nonce = client_nonce;
    client_classical_eph_pub = client_classical_eph_pub;
    client_mlkem_encapsulation_key = client_mlkem_encapsulation_key;
    relay_descriptor_hash = relay_descriptor_hash;
    cover_template_hash = cover_template_hash;
    request_class_id = request_class_id;
    hint_issuer_id = hint_issuer_id;
    relay_bucket_id = relay_bucket_id;
    hint_epoch_id = hint_epoch_id;
    hint_selector = hint_selector;
    access_hint = access_hint;
    client_cover_random = client_cover_random;
    padding = padding;
    extensions = extensions;
  })

pub record CoverPrelude1 : Type 0 where
  pub msg_type : ℕ
  pub version : ℕ
  pub selected_suite : ℕ
  pub relay_descriptor_hash : List ℕ
  pub cover_template_hash : List ℕ
  pub relay_epoch_id : ℕ
  pub server_nonce : List ℕ
  pub server_classical_eph_pub : List ℕ
  pub server_mlkem_ciphertext_to_client : List ℕ
  pub selected_cover_profile_id : List ℕ
  pub selected_bootstrap_envelope_id : List ℕ
  pub server_prelude_signature_classical : List ℕ
  pub server_prelude_signature_pq : List ℕ
  pub response_padding : List ℕ
  pub extensions : List Extension

unfoldable pub encode_cover_prelude1 : CoverPrelude1 → Write
encode_cover_prelude1 x = do
  write_varint x.msg_type
  write_varint x.version
  write_varint x.selected_suite
  write_pre_hash x.relay_descriptor_hash
  write_pre_hash x.cover_template_hash
  write_uint64 x.relay_epoch_id
  write_opaque_fixed x.server_nonce 32
  write_opaque16 x.server_classical_eph_pub
  write_opaque16 x.server_mlkem_ciphertext_to_client
  write_opaque_fixed x.selected_cover_profile_id 16
  write_opaque_fixed x.selected_bootstrap_envelope_id 16
  write_opaque16 x.server_prelude_signature_classical
  write_opaque16 x.server_prelude_signature_pq
  write_opaque16 x.response_padding
  encode_extensions x.extensions

unfoldable pub decode_cover_prelude1 : Read CoverPrelude1
decode_cover_prelude1 = do
  msg_type ← read_varint
  version ← read_varint
  selected_suite ← read_varint
  relay_descriptor_hash ← read_pre_hash
  cover_template_hash ← read_pre_hash
  relay_epoch_id ← read_uint64
  server_nonce ← read_opaque_fixed 32
  server_classical_eph_pub ← read_opaque16
  server_mlkem_ciphertext_to_client ← read_opaque16
  selected_cover_profile_id ← read_opaque_fixed 16
  selected_bootstrap_envelope_id ← read_opaque_fixed 16
  server_prelude_signature_classical ← read_opaque16
  server_prelude_signature_pq ← read_opaque16
  response_padding ← read_opaque16
  extensions ← decode_extensions
  pure (record {
    msg_type = msg_type;
    version = version;
    selected_suite = selected_suite;
    relay_descriptor_hash = relay_descriptor_hash;
    cover_template_hash = cover_template_hash;
    relay_epoch_id = relay_epoch_id;
    server_nonce = server_nonce;
    server_classical_eph_pub = server_classical_eph_pub;
    server_mlkem_ciphertext_to_client = server_mlkem_ciphertext_to_client;
    selected_cover_profile_id = selected_cover_profile_id;
    selected_bootstrap_envelope_id = selected_bootstrap_envelope_id;
    server_prelude_signature_classical = server_prelude_signature_classical;
    server_prelude_signature_pq = server_prelude_signature_pq;
    response_padding = response_padding;
    extensions = extensions;
  })

pub record RoutePrelude1 : Type 0 where
  pub msg_type : ℕ
  pub version : ℕ
  pub route_instance_id : ℕ
  pub hop_index : ℕ
  pub previous_hop_relay_descriptor_hash : List ℕ
  pub next_relay_descriptor_hash : List ℕ
  pub next_relay_epoch_id : ℕ
  pub selected_suite : ℕ
  pub server_nonce : List ℕ
  pub server_classical_eph_pub : List ℕ
  pub server_mlkem_ciphertext_to_client : List ℕ
  pub selected_shape_id : ℕ
  pub server_prelude_signature_classical : List ℕ
  pub server_prelude_signature_pq : List ℕ
  pub padding : List ℕ
  pub extensions : List Extension

unfoldable pub encode_route_prelude1 : RoutePrelude1 → Write
encode_route_prelude1 x = do
  write_varint x.msg_type
  write_varint x.version
  write_varint x.route_instance_id
  write_uint8 x.hop_index
  write_pre_hash x.previous_hop_relay_descriptor_hash
  write_pre_hash x.next_relay_descriptor_hash
  write_uint64 x.next_relay_epoch_id
  write_varint x.selected_suite
  write_opaque_fixed x.server_nonce 32
  write_opaque16 x.server_classical_eph_pub
  write_opaque16 x.server_mlkem_ciphertext_to_client
  write_varint x.selected_shape_id
  write_opaque16 x.server_prelude_signature_classical
  write_opaque16 x.server_prelude_signature_pq
  write_opaque16 x.padding
  encode_extensions x.extensions

unfoldable pub decode_route_prelude1 : Read RoutePrelude1
decode_route_prelude1 = do
  msg_type ← read_varint
  version ← read_varint
  route_instance_id ← read_varint
  hop_index ← read_uint8
  previous_hop_relay_descriptor_hash ← read_pre_hash
  next_relay_descriptor_hash ← read_pre_hash
  next_relay_epoch_id ← read_uint64
  selected_suite ← read_varint
  server_nonce ← read_opaque_fixed 32
  server_classical_eph_pub ← read_opaque16
  server_mlkem_ciphertext_to_client ← read_opaque16
  selected_shape_id ← read_varint
  server_prelude_signature_classical ← read_opaque16
  server_prelude_signature_pq ← read_opaque16
  padding ← read_opaque16
  extensions ← decode_extensions
  pure (record {
    msg_type = msg_type;
    version = version;
    route_instance_id = route_instance_id;
    hop_index = hop_index;
    previous_hop_relay_descriptor_hash = previous_hop_relay_descriptor_hash;
    next_relay_descriptor_hash = next_relay_descriptor_hash;
    next_relay_epoch_id = next_relay_epoch_id;
    selected_suite = selected_suite;
    server_nonce = server_nonce;
    server_classical_eph_pub = server_classical_eph_pub;
    server_mlkem_ciphertext_to_client = server_mlkem_ciphertext_to_client;
    selected_shape_id = selected_shape_id;
    server_prelude_signature_classical = server_prelude_signature_classical;
    server_prelude_signature_pq = server_prelude_signature_pq;
    padding = padding;
    extensions = extensions;
  })
