-- ===== src/Protocol/Records.antt =====
-- protocol/records.go: keys and signatures.
pub mod Codec
use aurora_core.Common.{ℕ, Bool, List}
use aurora_core.Wire.Encoder.{
  Write, ◌>>◌, write_opaque16, write_opaque_fixed, write_uint32, write_uint64, write_uint8,
  write_varint,
}
use aurora_core.Wire.Reader.{
  Read, ◌>>=◌, pure, read_opaque16, read_opaque_fixed, read_uint32, read_uint64, read_uint8,
  read_varint,
}

pub record PublicKeyRecord : Type 0 where
  pub signature_scheme : ℕ
  pub key_encoding : ℕ
  pub public_key : List ℕ

unfoldable pub encode_public_key_record : PublicKeyRecord → Write
encode_public_key_record x = do
  write_varint x.signature_scheme
  write_varint x.key_encoding
  write_opaque16 x.public_key

unfoldable pub decode_public_key_record : Read PublicKeyRecord
decode_public_key_record = do
  signature_scheme ← read_varint
  key_encoding ← read_varint
  public_key ← read_opaque16
  pure (record {
    signature_scheme = signature_scheme;
    key_encoding = key_encoding;
    public_key = public_key;
  })

pub record AuthorityKeyRecord : Type 0 where
  pub authority_id : List ℕ
  pub authority_key_id : List ℕ
  pub authority_role : ℕ
  pub public_key : PublicKeyRecord
  pub valid_from_unix : ℕ
  pub valid_until_unix : ℕ
  pub key_status : ℕ
  pub usage_flags : ℕ

unfoldable pub encode_authority_key_record : AuthorityKeyRecord → Write
encode_authority_key_record x = do
  write_opaque_fixed x.authority_id 16
  write_opaque_fixed x.authority_key_id 16
  write_varint x.authority_role
  encode_public_key_record x.public_key
  write_uint64 x.valid_from_unix
  write_uint64 x.valid_until_unix
  write_uint8 x.key_status
  write_uint32 x.usage_flags

unfoldable pub decode_authority_key_record : Read AuthorityKeyRecord
decode_authority_key_record = do
  authority_id ← read_opaque_fixed 16
  authority_key_id ← read_opaque_fixed 16
  authority_role ← read_varint
  public_key ← decode_public_key_record
  valid_from_unix ← read_uint64
  valid_until_unix ← read_uint64
  key_status ← read_uint8
  usage_flags ← read_uint32
  pure (record {
    authority_id = authority_id;
    authority_key_id = authority_key_id;
    authority_role = authority_role;
    public_key = public_key;
    valid_from_unix = valid_from_unix;
    valid_until_unix = valid_until_unix;
    key_status = key_status;
    usage_flags = usage_flags;
  })

pub record ObjectSignature : Type 0 where
  pub signer_key_id : List ℕ
  pub signature_scheme : ℕ
  pub key_encoding : ℕ
  pub signature : List ℕ

unfoldable pub encode_object_signature : ObjectSignature → Write
encode_object_signature x = do
  write_opaque_fixed x.signer_key_id 16
  write_varint x.signature_scheme
  write_varint x.key_encoding
  write_opaque16 x.signature

unfoldable pub decode_object_signature : Read ObjectSignature
decode_object_signature = do
  signer_key_id ← read_opaque_fixed 16
  signature_scheme ← read_varint
  key_encoding ← read_varint
  signature ← read_opaque16
  pure (record {
    signer_key_id = signer_key_id;
    signature_scheme = signature_scheme;
    key_encoding = key_encoding;
    signature = signature;
  })

pub record TokenVerificationKeyRecord : Type 0 where
  pub token_verification_key_scheme : ℕ
  pub token_verification_key : List ℕ

unfoldable pub encode_token_verification_key_record : TokenVerificationKeyRecord → Write
encode_token_verification_key_record x = do
  write_varint x.token_verification_key_scheme
  write_opaque16 x.token_verification_key

unfoldable pub decode_token_verification_key_record : Read TokenVerificationKeyRecord
decode_token_verification_key_record = do
  token_verification_key_scheme ← read_varint
  token_verification_key ← read_opaque16
  pure (record {
    token_verification_key_scheme = token_verification_key_scheme;
    token_verification_key = token_verification_key;
  })
