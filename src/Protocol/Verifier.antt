-- ===== src/Protocol/Verifier.antt =====
-- protocol/issuer.go: requests to an issuer's verifier and its answers.
pub mod Codec
use aurora_core.Common.{ℕ, Bool, List}
use aurora_core.Wire.Encoder.{
  Write, ◌>>◌, write_opaque16, write_opaque_fixed, write_pre_hash, write_uint64, write_uint8,
  write_varint,
}
use aurora_core.Wire.Reader.{
  Read, ◌>>=◌, pure, read_opaque16, read_opaque_fixed, read_pre_hash, read_uint64, read_uint8,
  read_varint,
}

pub record IssuerVerifierRequest : Type 0 where
  pub request_version : ℕ
  pub service_id : List ℕ
  pub issuer_id : List ℕ
  pub issuer_metadata_hash : List ℕ
  pub relay_descriptor_hash : List ℕ
  pub relay_bucket_id : List ℕ
  pub route_instance_id : ℕ
  pub hop_index : ℕ
  pub proof_type : ℕ
  pub token_key_id : List ℕ
  pub token_nonce : List ℕ
  pub challenge_digest : List ℕ
  pub authenticator_input_hash : List ℕ
  pub token_authenticator : List ℕ
  pub token_spent_key : List ℕ
  pub replay_epoch_id : ℕ
  pub replay_epoch_valid_until_unix : ℕ
  pub request_nonce : List ℕ
  pub request_time_unix : ℕ

unfoldable pub encode_issuer_verifier_request : IssuerVerifierRequest → Write
encode_issuer_verifier_request x = do
  write_varint x.request_version
  write_opaque_fixed x.service_id 16
  write_opaque_fixed x.issuer_id 16
  write_pre_hash x.issuer_metadata_hash
  write_pre_hash x.relay_descriptor_hash
  write_opaque_fixed x.relay_bucket_id 16
  write_varint x.route_instance_id
  write_uint8 x.hop_index
  write_varint x.proof_type
  write_opaque_fixed x.token_key_id 32
  write_opaque_fixed x.token_nonce 32
  write_opaque_fixed x.challenge_digest 32
  write_pre_hash x.authenticator_input_hash
  write_opaque16 x.token_authenticator
  write_pre_hash x.token_spent_key
  write_uint64 x.replay_epoch_id
  write_uint64 x.replay_epoch_valid_until_unix
  write_opaque_fixed x.request_nonce 32
  write_uint64 x.request_time_unix

unfoldable pub decode_issuer_verifier_request : Read IssuerVerifierRequest
decode_issuer_verifier_request = do
  request_version ← read_varint
  service_id ← read_opaque_fixed 16
  issuer_id ← read_opaque_fixed 16
  issuer_metadata_hash ← read_pre_hash
  relay_descriptor_hash ← read_pre_hash
  relay_bucket_id ← read_opaque_fixed 16
  route_instance_id ← read_varint
  hop_index ← read_uint8
  proof_type ← read_varint
  token_key_id ← read_opaque_fixed 32
  token_nonce ← read_opaque_fixed 32
  challenge_digest ← read_opaque_fixed 32
  authenticator_input_hash ← read_pre_hash
  token_authenticator ← read_opaque16
  token_spent_key ← read_pre_hash
  replay_epoch_id ← read_uint64
  replay_epoch_valid_until_unix ← read_uint64
  request_nonce ← read_opaque_fixed 32
  request_time_unix ← read_uint64
  pure (record {
    request_version = request_version;
    service_id = service_id;
    issuer_id = issuer_id;
    issuer_metadata_hash = issuer_metadata_hash;
    relay_descriptor_hash = relay_descriptor_hash;
    relay_bucket_id = relay_bucket_id;
    route_instance_id = route_instance_id;
    hop_index = hop_index;
    proof_type = proof_type;
    token_key_id = token_key_id;
    token_nonce = token_nonce;
    challenge_digest = challenge_digest;
    authenticator_input_hash = authenticator_input_hash;
    token_authenticator = token_authenticator;
    token_spent_key = token_spent_key;
    replay_epoch_id = replay_epoch_id;
    replay_epoch_valid_until_unix = replay_epoch_valid_until_unix;
    request_nonce = request_nonce;
    request_time_unix = request_time_unix;
  })

pub record IssuerVerifierResponse : Type 0 where
  pub response_version : ℕ
  pub service_id : List ℕ
  pub request_hash : List ℕ
  pub decision : ℕ
  pub decision_detail : ℕ
  pub token_spent_key : List ℕ
  pub valid_until_unix : ℕ
  pub response_nonce : List ℕ
  pub service_signature : List ℕ

unfoldable pub encode_issuer_verifier_response : IssuerVerifierResponse → Write
encode_issuer_verifier_response x = do
  write_varint x.response_version
  write_opaque_fixed x.service_id 16
  write_pre_hash x.request_hash
  write_uint8 x.decision
  write_uint8 x.decision_detail
  write_pre_hash x.token_spent_key
  write_uint64 x.valid_until_unix
  write_opaque_fixed x.response_nonce 32
  write_opaque16 x.service_signature

unfoldable pub decode_issuer_verifier_response : Read IssuerVerifierResponse
decode_issuer_verifier_response = do
  response_version ← read_varint
  service_id ← read_opaque_fixed 16
  request_hash ← read_pre_hash
  decision ← read_uint8
  decision_detail ← read_uint8
  token_spent_key ← read_pre_hash
  valid_until_unix ← read_uint64
  response_nonce ← read_opaque_fixed 32
  service_signature ← read_opaque16
  pure (record {
    response_version = response_version;
    service_id = service_id;
    request_hash = request_hash;
    decision = decision;
    decision_detail = decision_detail;
    token_spent_key = token_spent_key;
    valid_until_unix = valid_until_unix;
    response_nonce = response_nonce;
    service_signature = service_signature;
  })
