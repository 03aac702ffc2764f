-- ===== src/Protocol/Routing.antt =====
-- protocol/directory.go: signatures of a consensus and routing records.
pub mod Codec
use aurora_core.Common.{ℕ, Bool, List}
use aurora_core.Wire.Encoder.{
  Write, ◌>>◌, write_opaque16, write_opaque_fixed, write_uint64, write_varint,
}
use aurora_core.Wire.Reader.{
  Read, ◌>>=◌, pure, read_opaque16, read_opaque_fixed, read_uint64, read_varint,
}

pub record SignatureEntry : Type 0 where
  pub authority_id : List ℕ
  pub authority_key_id : List ℕ
  pub signature_scheme : ℕ
  pub key_encoding : ℕ
  pub signature : List ℕ

unfoldable pub encode_signature_entry : SignatureEntry → Write
encode_signature_entry x = do
  write_opaque_fixed x.authority_id 16
  write_opaque_fixed x.authority_key_id 16
  write_varint x.signature_scheme
  write_varint x.key_encoding
  write_opaque16 x.signature

unfoldable pub decode_signature_entry : Read SignatureEntry
decode_signature_entry = do
  authority_id ← read_opaque_fixed 16
  authority_key_id ← read_opaque_fixed 16
  signature_scheme ← read_varint
  key_encoding ← read_varint
  signature ← read_opaque16
  pure (record {
    authority_id = authority_id;
    authority_key_id = authority_key_id;
    signature_scheme = signature_scheme;
    key_encoding = key_encoding;
    signature = signature;
  })

pub record RoutingRecord : Type 0 where
  pub routing_record_id : List ℕ
  pub transport_family_id : ℕ
  pub locator_type : ℕ
  pub locator_body : List ℕ
  pub priority : ℕ
  pub not_before_unix : ℕ
  pub not_after_unix : ℕ

unfoldable pub encode_routing_record : RoutingRecord → Write
encode_routing_record x = do
  write_opaque16 x.routing_record_id
  write_varint x.transport_family_id
  write_varint x.locator_type
  write_opaque16 x.locator_body
  write_varint x.priority
  write_uint64 x.not_before_unix
  write_uint64 x.not_after_unix

unfoldable pub decode_routing_record : Read RoutingRecord
decode_routing_record = do
  routing_record_id ← read_opaque16
  transport_family_id ← read_varint
  locator_type ← read_varint
  locator_body ← read_opaque16
  priority ← read_varint
  not_before_unix ← read_uint64
  not_after_unix ← read_uint64
  pure (record {
    routing_record_id = routing_record_id;
    transport_family_id = transport_family_id;
    locator_type = locator_type;
    locator_body = locator_body;
    priority = priority;
    not_before_unix = not_before_unix;
    not_after_unix = not_after_unix;
  })
