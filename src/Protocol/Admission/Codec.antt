-- ===== src/Protocol/Admission/Codec.antt =====
-- protocol/admission.go: admission proofs. The decoders against the encoders.
use aurora_core.Common.{refl}
use aurora_core.Wire.Format.Parses.{Canonical, Finishes-bind, Finishes-pure, Finishes-Canonical}
use aurora_core.Wire.Format.Parses.Scalars.{
  opaque16_Canonical, opaque_fixed_Canonical, pre_hash_Canonical, uint16_Canonical,
  uint64_Canonical, varint_Canonical,
}
use aurora_core.Protocol.Extensions.Codec.{extensions_Canonical}
use aurora_core.Protocol.Admission.{
  decode_admission_proof, decode_aurora_token_metadata, decode_replay_proof, encode_admission_proof,
  encode_aurora_token_metadata, encode_replay_proof,
}

pub admission_proof_Canonical : Canonical decode_admission_proof encode_admission_proof
unfolding decode_admission_proof encode_admission_proof
admission_proof_Canonical = Finishes-Canonical (
    Finishes-bind varint_Canonical λ v0. Finishes-bind varint_Canonical λ v1.
      Finishes-bind (opaque_fixed_Canonical 16) λ v2.
        Finishes-bind (opaque_fixed_Canonical 32) λ v3.
          Finishes-bind (opaque_fixed_Canonical 16) λ v4.
            Finishes-bind (opaque_fixed_Canonical 16) λ v5. Finishes-bind uint64_Canonical λ v6.
              Finishes-bind (opaque_fixed_Canonical 32) λ v7. Finishes-bind pre_hash_Canonical λ v8.
                Finishes-bind opaque16_Canonical λ v9. Finishes-bind opaque16_Canonical λ v10.
                  Finishes-bind opaque16_Canonical
                    λ v11. Finishes-bind extensions_Canonical λ v12. Finishes-pure _ refl)

pub aurora_token_metadata_Canonical :
    Canonical decode_aurora_token_metadata encode_aurora_token_metadata
unfolding decode_aurora_token_metadata encode_aurora_token_metadata
aurora_token_metadata_Canonical = Finishes-Canonical (
    Finishes-bind uint16_Canonical λ v0. Finishes-bind (opaque_fixed_Canonical 32) λ v1.
      Finishes-bind (opaque_fixed_Canonical 32) λ v2. Finishes-bind opaque16_Canonical λ v3.
        Finishes-bind opaque16_Canonical
          λ v4. Finishes-bind pre_hash_Canonical λ v5. Finishes-pure _ refl)

pub replay_proof_Canonical : Canonical decode_replay_proof encode_replay_proof
unfolding decode_replay_proof encode_replay_proof
replay_proof_Canonical = Finishes-Canonical (
    Finishes-bind varint_Canonical λ v0. Finishes-bind uint64_Canonical λ v1.
      Finishes-bind pre_hash_Canonical λ v2. Finishes-bind (opaque_fixed_Canonical 32) λ v3.
        Finishes-bind pre_hash_Canonical λ v4.
          Finishes-bind (opaque_fixed_Canonical 16)
            λ v5. Finishes-bind extensions_Canonical λ v6. Finishes-pure _ refl)
