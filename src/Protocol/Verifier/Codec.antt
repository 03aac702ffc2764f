-- ===== src/Protocol/Verifier/Codec.antt =====
-- protocol/issuer.go: requests to an issuer's verifier and its answers. The decoders against the encoders.
use aurora_core.Common.{refl}
use aurora_core.Wire.Format.Parses.{Canonical, Finishes-bind, Finishes-pure, Finishes-Canonical}
use aurora_core.Wire.Format.Parses.Scalars.{
  opaque16_Canonical, opaque_fixed_Canonical, pre_hash_Canonical, uint64_Canonical, uint8_Canonical,
  varint_Canonical,
}
use aurora_core.Protocol.Verifier.{
  decode_issuer_verifier_request, decode_issuer_verifier_response, encode_issuer_verifier_request,
  encode_issuer_verifier_response,
}

pub issuer_verifier_request_Canonical :
    Canonical decode_issuer_verifier_request encode_issuer_verifier_request
unfolding decode_issuer_verifier_request encode_issuer_verifier_request
issuer_verifier_request_Canonical = Finishes-Canonical (
    Finishes-bind varint_Canonical λ v0. Finishes-bind (opaque_fixed_Canonical 16) λ v1.
      Finishes-bind (opaque_fixed_Canonical 16) λ v2. Finishes-bind pre_hash_Canonical λ v3.
        Finishes-bind pre_hash_Canonical λ v4. Finishes-bind (opaque_fixed_Canonical 16) λ v5.
          Finishes-bind varint_Canonical λ v6. Finishes-bind uint8_Canonical λ v7.
            Finishes-bind varint_Canonical λ v8. Finishes-bind (opaque_fixed_Canonical 32) λ v9.
              Finishes-bind (opaque_fixed_Canonical 32) λ v10.
                Finishes-bind (opaque_fixed_Canonical 32) λ v11.
                  Finishes-bind pre_hash_Canonical λ v12. Finishes-bind opaque16_Canonical λ v13.
                    Finishes-bind pre_hash_Canonical λ v14. Finishes-bind uint64_Canonical λ v15.
                      Finishes-bind uint64_Canonical λ v16.
                        Finishes-bind (opaque_fixed_Canonical 32)
                          λ v17. Finishes-bind uint64_Canonical λ v18. Finishes-pure _ refl)

pub issuer_verifier_response_Canonical :
    Canonical decode_issuer_verifier_response encode_issuer_verifier_response
unfolding decode_issuer_verifier_response encode_issuer_verifier_response
issuer_verifier_response_Canonical = Finishes-Canonical (
    Finishes-bind varint_Canonical λ v0. Finishes-bind (opaque_fixed_Canonical 16) λ v1.
      Finishes-bind pre_hash_Canonical λ v2. Finishes-bind uint8_Canonical λ v3.
        Finishes-bind uint8_Canonical λ v4. Finishes-bind pre_hash_Canonical λ v5.
          Finishes-bind uint64_Canonical λ v6.
            Finishes-bind (opaque_fixed_Canonical 32)
              λ v7. Finishes-bind opaque16_Canonical λ v8. Finishes-pure _ refl)
