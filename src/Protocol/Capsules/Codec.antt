-- ===== src/Protocol/Capsules/Codec.antt =====
-- protocol/bootstrap.go: capsules. The decoders against the encoders.
use aurora_core.Common.{refl}
use aurora_core.Wire.Format.Parses.{Canonical, Finishes-bind, Finishes-pure, Finishes-Canonical}
use aurora_core.Wire.Format.Parses.Scalars.{opaque16_Canonical, uint8_Canonical, varint_Canonical}
use aurora_core.Protocol.Extensions.Codec.{extensions_Canonical}
use aurora_core.Protocol.Admission.Codec.{admission_proof_Canonical, replay_proof_Canonical}
use aurora_core.Protocol.Policies.Codec.{
  client_transport_hints_Canonical, policy_accept_Canonical, policy_offer_Canonical,
}
use aurora_core.Protocol.Capsules.{
  decode_cover_capsule1_plain, decode_cover_capsule2_plain, decode_route_capsule1_plain,
  decode_route_capsule2_plain, encode_cover_capsule1_plain, encode_cover_capsule2_plain,
  encode_route_capsule1_plain, encode_route_capsule2_plain,
}

pub cover_capsule1_plain_Canonical :
    Canonical decode_cover_capsule1_plain encode_cover_capsule1_plain
unfolding decode_cover_capsule1_plain encode_cover_capsule1_plain
cover_capsule1_plain_Canonical = Finishes-Canonical (
    Finishes-bind varint_Canonical λ v0. Finishes-bind varint_Canonical λ v1.
      Finishes-bind admission_proof_Canonical λ v2. Finishes-bind replay_proof_Canonical λ v3.
        Finishes-bind policy_offer_Canonical λ v4.
          Finishes-bind client_transport_hints_Canonical λ v5.
            Finishes-bind opaque16_Canonical λ v6.
              Finishes-bind opaque16_Canonical
                λ v7. Finishes-bind extensions_Canonical λ v8. Finishes-pure _ refl)

pub cover_capsule2_plain_Canonical :
    Canonical decode_cover_capsule2_plain encode_cover_capsule2_plain
unfolding decode_cover_capsule2_plain encode_cover_capsule2_plain
cover_capsule2_plain_Canonical = Finishes-Canonical (
    Finishes-bind varint_Canonical λ v0. Finishes-bind varint_Canonical λ v1.
      Finishes-bind policy_accept_Canonical λ v2. Finishes-bind opaque16_Canonical λ v3.
        Finishes-bind opaque16_Canonical
          λ v4. Finishes-bind extensions_Canonical λ v5. Finishes-pure _ refl)

pub route_capsule1_plain_Canonical :
    Canonical decode_route_capsule1_plain encode_route_capsule1_plain
unfolding decode_route_capsule1_plain encode_route_capsule1_plain
route_capsule1_plain_Canonical = Finishes-Canonical (
    Finishes-bind varint_Canonical λ v0. Finishes-bind varint_Canonical λ v1.
      Finishes-bind uint8_Canonical λ v2. Finishes-bind admission_proof_Canonical λ v3.
        Finishes-bind replay_proof_Canonical λ v4. Finishes-bind policy_offer_Canonical λ v5.
          Finishes-bind opaque16_Canonical λ v6.
            Finishes-bind opaque16_Canonical
              λ v7. Finishes-bind extensions_Canonical λ v8. Finishes-pure _ refl)

pub route_capsule2_plain_Canonical :
    Canonical decode_route_capsule2_plain encode_route_capsule2_plain
unfolding decode_route_capsule2_plain encode_route_capsule2_plain
route_capsule2_plain_Canonical = Finishes-Canonical (
    Finishes-bind varint_Canonical λ v0. Finishes-bind varint_Canonical λ v1.
      Finishes-bind uint8_Canonical λ v2. Finishes-bind policy_accept_Canonical λ v3.
        Finishes-bind opaque16_Canonical λ v4.
          Finishes-bind opaque16_Canonical
            λ v5. Finishes-bind extensions_Canonical λ v6. Finishes-pure _ refl)
