-- ===== src/Protocol/Records/Codec.antt =====
-- protocol/records.go: keys and signatures. The decoders against the encoders.
use aurora_core.Common.{refl}
use aurora_core.Wire.Format.Parses.{Canonical, Finishes-bind, Finishes-pure, Finishes-Canonical}
use aurora_core.Wire.Format.Parses.Scalars.{
  opaque16_Canonical, opaque_fixed_Canonical, uint32_Canonical, uint64_Canonical, uint8_Canonical,
  varint_Canonical,
}
use aurora_core.Protocol.Records.{
  decode_authority_key_record, decode_object_signature, decode_public_key_record,
  decode_token_verification_key_record, encode_authority_key_record, encode_object_signature,
  encode_public_key_record, encode_token_verification_key_record,
}

pub public_key_record_Canonical : Canonical decode_public_key_record encode_public_key_record
unfolding decode_public_key_record encode_public_key_record
public_key_record_Canonical = Finishes-Canonical (
    Finishes-bind varint_Canonical λ v0.
      Finishes-bind varint_Canonical
        λ v1. Finishes-bind opaque16_Canonical λ v2. Finishes-pure _ refl)

pub authority_key_record_Canonical :
    Canonical decode_authority_key_record encode_authority_key_record
unfolding decode_authority_key_record encode_authority_key_record
authority_key_record_Canonical = Finishes-Canonical (
    Finishes-bind (opaque_fixed_Canonical 16) λ v0. Finishes-bind (opaque_fixed_Canonical 16) λ v1.
      Finishes-bind varint_Canonical λ v2. Finishes-bind public_key_record_Canonical λ v3.
        Finishes-bind uint64_Canonical λ v4. Finishes-bind uint64_Canonical λ v5.
          Finishes-bind uint8_Canonical
            λ v6. Finishes-bind uint32_Canonical λ v7. Finishes-pure _ refl)

pub object_signature_Canonical : Canonical decode_object_signature encode_object_signature
unfolding decode_object_signature encode_object_signature
object_signature_Canonical = Finishes-Canonical (
    Finishes-bind (opaque_fixed_Canonical 16) λ v0. Finishes-bind varint_Canonical λ v1.
      Finishes-bind varint_Canonical
        λ v2. Finishes-bind opaque16_Canonical λ v3. Finishes-pure _ refl)

pub token_verification_key_record_Canonical :
    Canonical decode_token_verification_key_record encode_token_verification_key_record
unfolding decode_token_verification_key_record encode_token_verification_key_record
token_verification_key_record_Canonical = Finishes-Canonical (
    Finishes-bind varint_Canonical
      λ v0. Finishes-bind opaque16_Canonical λ v1. Finishes-pure _ refl)
