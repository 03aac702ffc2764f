-- ===== src/Protocol/Admission.antt =====
-- protocol/admission.go: admission proofs.
pub mod Codec
use aurora_core.Common.{ℕ, Bool, List}
use aurora_core.Wire.Encoder.{
  Write, ◌>>◌, write_opaque16, write_opaque_fixed, write_pre_hash, write_uint16, write_uint64,
  write_varint,
}
use aurora_core.Wire.Reader.{
  Read, ◌>>=◌, pure, read_opaque16, read_opaque_fixed, read_pre_hash, read_uint16, read_uint64,
  read_varint,
}
use aurora_core.Protocol.Extensions.{Extension, encode_extensions, decode_extensions}

pub record AdmissionProof : Type 0 where
  pub proof_version : ℕ
  pub proof_type : ℕ
  pub issuer_id : List ℕ
  pub token_key_id : List ℕ
  pub relay_bucket_id : List ℕ
  pub token_scope_id : List ℕ
  pub expiry_unix : ℕ
  pub token_nonce : List ℕ
  pub redemption_context_hash : List ℕ
  pub token_public_metadata : List ℕ
  pub token_authenticator : List ℕ
  pub binding_proof : List ℕ
  pub extensions : List Extension

unfoldable pub encode_admission_proof : AdmissionProof → Write
encode_admission_proof x = do
  write_varint x.proof_version
  write_varint x.proof_type
  write_opaque_fixed x.issuer_id 16
  write_opaque_fixed x.token_key_id 32
  write_opaque_fixed x.relay_bucket_id 16
  write_opaque_fixed x.token_scope_id 16
  write_uint64 x.expiry_unix
  write_opaque_fixed x.token_nonce 32
  write_pre_hash x.redemption_context_hash
  write_opaque16 x.token_public_metadata
  write_opaque16 x.token_authenticator
  write_opaque16 x.binding_proof
  encode_extensions x.extensions

unfoldable pub decode_admission_proof : Read AdmissionProof
decode_admission_proof = do
  proof_version ← read_varint
  proof_type ← read_varint
  issuer_id ← read_opaque_fixed 16
  token_key_id ← read_opaque_fixed 32
  relay_bucket_id ← read_opaque_fixed 16
  token_scope_id ← read_opaque_fixed 16
  expiry_unix ← read_uint64
  token_nonce ← read_opaque_fixed 32
  redemption_context_hash ← read_pre_hash
  token_public_metadata ← read_opaque16
  token_authenticator ← read_opaque16
  binding_proof ← read_opaque16
  extensions ← decode_extensions
  pure (record {
    proof_version = proof_version;
    proof_type = proof_type;
    issuer_id = issuer_id;
    token_key_id = token_key_id;
    relay_bucket_id = relay_bucket_id;
    token_scope_id = token_scope_id;
    expiry_unix = expiry_unix;
    token_nonce = token_nonce;
    redemption_context_hash = redemption_context_hash;
    token_public_metadata = token_public_metadata;
    token_authenticator = token_authenticator;
    binding_proof = binding_proof;
    extensions = extensions;
  })

pub record AuroraTokenMetadata : Type 0 where
  pub rfc9577_token_type : ℕ
  pub rfc9577_challenge_digest : List ℕ
  pub rfc9577_token_key_id : List ℕ
  pub issuer_name : List ℕ
  pub origin_info : List ℕ
  pub issuer_metadata_hash : List ℕ

unfoldable pub encode_aurora_token_metadata : AuroraTokenMetadata → Write
encode_aurora_token_metadata x = do
  write_uint16 x.rfc9577_token_type
  write_opaque_fixed x.rfc9577_challenge_digest 32
  write_opaque_fixed x.rfc9577_token_key_id 32
  write_opaque16 x.issuer_name
  write_opaque16 x.origin_info
  write_pre_hash x.issuer_metadata_hash

unfoldable pub decode_aurora_token_metadata : Read AuroraTokenMetadata
decode_aurora_token_metadata = do
  rfc9577_token_type ← read_uint16
  rfc9577_challenge_digest ← read_opaque_fixed 32
  rfc9577_token_key_id ← read_opaque_fixed 32
  issuer_name ← read_opaque16
  origin_info ← read_opaque16
  issuer_metadata_hash ← read_pre_hash
  pure (record {
    rfc9577_token_type = rfc9577_token_type;
    rfc9577_challenge_digest = rfc9577_challenge_digest;
    rfc9577_token_key_id = rfc9577_token_key_id;
    issuer_name = issuer_name;
    origin_info = origin_info;
    issuer_metadata_hash = issuer_metadata_hash;
  })

pub record ReplayProof : Type 0 where
  pub proof_version : ℕ
  pub replay_epoch_id : ℕ
  pub token_redemption_hash : List ℕ
  pub client_replay_nonce : List ℕ
  pub replay_context_hash : List ℕ
  pub replay_window_id : List ℕ
  pub extensions : List Extension

unfoldable pub encode_replay_proof : ReplayProof → Write
encode_replay_proof x = do
  write_varint x.proof_version
  write_uint64 x.replay_epoch_id
  write_pre_hash x.token_redemption_hash
  write_opaque_fixed x.client_replay_nonce 32
  write_pre_hash x.replay_context_hash
  write_opaque_fixed x.replay_window_id 16
  encode_extensions x.extensions

unfoldable pub decode_replay_proof : Read ReplayProof
decode_replay_proof = do
  proof_version ← read_varint
  replay_epoch_id ← read_uint64
  token_redemption_hash ← read_pre_hash
  client_replay_nonce ← read_opaque_fixed 32
  replay_context_hash ← read_pre_hash
  replay_window_id ← read_opaque_fixed 16
  extensions ← decode_extensions
  pure (record {
    proof_version = proof_version;
    replay_epoch_id = replay_epoch_id;
    token_redemption_hash = token_redemption_hash;
    client_replay_nonce = client_replay_nonce;
    replay_context_hash = replay_context_hash;
    replay_window_id = replay_window_id;
    extensions = extensions;
  })
