-- ===== src/Protocol/Issuer/Codec.antt =====
-- protocol/issuer.go: the records of token issuers. The decoders against the encoders.
use aurora_core.Common.{refl}
use aurora_core.Wire.Format.Parses.{Canonical, Finishes-bind, Finishes-pure, Finishes-Canonical}
use aurora_core.Wire.Format.Parses.Scalars.{
  bool_Canonical, opaque16_Canonical, opaque_fixed_Canonical, uint16_Canonical, uint64_Canonical,
  uint8_Canonical, varint_Canonical,
}
use aurora_core.Wire.Format.Items.{varint_vector_Canonical}
use aurora_core.Protocol.Records.Codec.{token_verification_key_record_Canonical}
use aurora_core.Protocol.Issuer.{
  decode_auxiliary_binding_policy, decode_issuer_token_key_record, decode_origin_info_policy,
  decode_relay_bucket_scope, encode_auxiliary_binding_policy, encode_issuer_token_key_record,
  encode_origin_info_policy, encode_relay_bucket_scope,
}

pub issuer_token_key_record_Canonical :
    Canonical decode_issuer_token_key_record encode_issuer_token_key_record
unfolding decode_issuer_token_key_record encode_issuer_token_key_record
issuer_token_key_record_Canonical = Finishes-Canonical (
    Finishes-bind varint_Canonical λ v0. Finishes-bind (opaque_fixed_Canonical 32) λ v1.
      Finishes-bind token_verification_key_record_Canonical λ v2.
        Finishes-bind uint64_Canonical λ v3.
          Finishes-bind uint64_Canonical
            λ v4. Finishes-bind uint8_Canonical λ v5. Finishes-pure _ refl)

pub origin_info_policy_Canonical : Canonical decode_origin_info_policy encode_origin_info_policy
unfolding decode_origin_info_policy encode_origin_info_policy
origin_info_policy_Canonical = Finishes-Canonical (
    Finishes-bind varint_Canonical λ v0. Finishes-bind opaque16_Canonical λ v1.
      Finishes-bind bool_Canonical λ v2.
        Finishes-bind uint64_Canonical
          λ v3. Finishes-bind uint64_Canonical λ v4. Finishes-pure _ refl)

pub relay_bucket_scope_Canonical : Canonical decode_relay_bucket_scope encode_relay_bucket_scope
unfolding decode_relay_bucket_scope encode_relay_bucket_scope
relay_bucket_scope_Canonical = Finishes-Canonical (
    Finishes-bind (opaque_fixed_Canonical 16) λ v0. Finishes-bind (opaque_fixed_Canonical 16) λ v1.
      Finishes-bind varint_vector_Canonical λ v2.
        Finishes-bind uint64_Canonical
          λ v3. Finishes-bind uint64_Canonical λ v4. Finishes-pure _ refl)

pub auxiliary_binding_policy_Canonical :
    Canonical decode_auxiliary_binding_policy encode_auxiliary_binding_policy
unfolding decode_auxiliary_binding_policy encode_auxiliary_binding_policy
auxiliary_binding_policy_Canonical = Finishes-Canonical (
    Finishes-bind varint_Canonical λ v0. Finishes-bind bool_Canonical λ v1.
      Finishes-bind uint16_Canonical
        λ v2. Finishes-bind varint_Canonical λ v3. Finishes-pure _ refl)
