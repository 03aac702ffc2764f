-- ===== src/Protocol/Issuer.antt =====
-- protocol/issuer.go: the records of token issuers.
pub mod Codec
use aurora_core.Common.{ℕ, Bool, List}
use aurora_core.Wire.Encoder.{
  Write, ◌>>◌, write_bool, write_opaque16, write_opaque_fixed, write_uint16, write_uint64,
  write_uint8, write_varint, write_varint_vector,
}
use aurora_core.Wire.Reader.{
  Read, ◌>>=◌, pure, read_bool, read_opaque16, read_opaque_fixed, read_uint16, read_uint64,
  read_uint8, read_varint, read_varint_vector,
}
use aurora_core.Protocol.Records.{
  TokenVerificationKeyRecord, encode_token_verification_key_record,
  decode_token_verification_key_record,
}

pub record IssuerTokenKeyRecord : Type 0 where
  pub proof_type : ℕ
  pub token_key_id : List ℕ
  pub token_verification_key : TokenVerificationKeyRecord
  pub valid_from_unix : ℕ
  pub valid_until_unix : ℕ
  pub key_status : ℕ

unfoldable pub encode_issuer_token_key_record : IssuerTokenKeyRecord → Write
encode_issuer_token_key_record x = do
  write_varint x.proof_type
  write_opaque_fixed x.token_key_id 32
  encode_token_verification_key_record x.token_verification_key
  write_uint64 x.valid_from_unix
  write_uint64 x.valid_until_unix
  write_uint8 x.key_status

unfoldable pub decode_issuer_token_key_record : Read IssuerTokenKeyRecord
decode_issuer_token_key_record = do
  proof_type ← read_varint
  token_key_id ← read_opaque_fixed 32
  token_verification_key ← decode_token_verification_key_record
  valid_from_unix ← read_uint64
  valid_until_unix ← read_uint64
  key_status ← read_uint8
  pure (record {
    proof_type = proof_type;
    token_key_id = token_key_id;
    token_verification_key = token_verification_key;
    valid_from_unix = valid_from_unix;
    valid_until_unix = valid_until_unix;
    key_status = key_status;
  })

pub record OriginInfoPolicy : Type 0 where
  pub policy_id : ℕ
  pub origin_info : List ℕ
  pub allow_empty_origin_info : Bool
  pub valid_from_unix : ℕ
  pub valid_until_unix : ℕ

unfoldable pub encode_origin_info_policy : OriginInfoPolicy → Write
encode_origin_info_policy x = do
  write_varint x.policy_id
  write_opaque16 x.origin_info
  write_bool x.allow_empty_origin_info
  write_uint64 x.valid_from_unix
  write_uint64 x.valid_until_unix

unfoldable pub decode_origin_info_policy : Read OriginInfoPolicy
decode_origin_info_policy = do
  policy_id ← read_varint
  origin_info ← read_opaque16
  allow_empty_origin_info ← read_bool
  valid_from_unix ← read_uint64
  valid_until_unix ← read_uint64
  pure (record {
    policy_id = policy_id;
    origin_info = origin_info;
    allow_empty_origin_info = allow_empty_origin_info;
    valid_from_unix = valid_from_unix;
    valid_until_unix = valid_until_unix;
  })

pub record RelayBucketScope : Type 0 where
  pub relay_bucket_id : List ℕ
  pub token_scope_id : List ℕ
  pub allowed_origin_policy_id : List ℕ
  pub valid_from_unix : ℕ
  pub valid_until_unix : ℕ

unfoldable pub encode_relay_bucket_scope : RelayBucketScope → Write
encode_relay_bucket_scope x = do
  write_opaque_fixed x.relay_bucket_id 16
  write_opaque_fixed x.token_scope_id 16
  write_varint_vector x.allowed_origin_policy_id
  write_uint64 x.valid_from_unix
  write_uint64 x.valid_until_unix

unfoldable pub decode_relay_bucket_scope : Read RelayBucketScope
decode_relay_bucket_scope = do
  relay_bucket_id ← read_opaque_fixed 16
  token_scope_id ← read_opaque_fixed 16
  allowed_origin_policy_id ← read_varint_vector
  valid_from_unix ← read_uint64
  valid_until_unix ← read_uint64
  pure (record {
    relay_bucket_id = relay_bucket_id;
    token_scope_id = token_scope_id;
    allowed_origin_policy_id = allowed_origin_policy_id;
    valid_from_unix = valid_from_unix;
    valid_until_unix = valid_until_unix;
  })

pub record AuxiliaryBindingPolicy : Type 0 where
  pub proof_type : ℕ
  pub binding_proof_required : Bool
  pub max_binding_proof_len : ℕ
  pub binding_policy_id : ℕ

unfoldable pub encode_auxiliary_binding_policy : AuxiliaryBindingPolicy → Write
encode_auxiliary_binding_policy x = do
  write_varint x.proof_type
  write_bool x.binding_proof_required
  write_uint16 x.max_binding_proof_len
  write_varint x.binding_policy_id

unfoldable pub decode_auxiliary_binding_policy : Read AuxiliaryBindingPolicy
decode_auxiliary_binding_policy = do
  proof_type ← read_varint
  binding_proof_required ← read_bool
  max_binding_proof_len ← read_uint16
  binding_policy_id ← read_varint
  pure (record {
    proof_type = proof_type;
    binding_proof_required = binding_proof_required;
    max_binding_proof_len = max_binding_proof_len;
    binding_policy_id = binding_policy_id;
  })
