-- ===== src/Protocol/Policies/Codec.antt =====
-- protocol/admission.go: policies that are offered and accepted. The decoders against the encoders.
use aurora_core.Common.{refl}
use aurora_core.Wire.Format.Parses.{Canonical, Finishes-bind, Finishes-pure, Finishes-Canonical}
use aurora_core.Wire.Format.Parses.Scalars.{
  opaque16_Canonical, opaque8_Canonical, opaque_fixed_Canonical, uint16_Canonical, uint64_Canonical,
  uint8_Canonical, varint_Canonical,
}
use aurora_core.Wire.Format.Items.{varint_vector_Canonical}
use aurora_core.Protocol.Optional.{optional_Canonical}
use aurora_core.Protocol.Extensions.Codec.{extensions_Canonical}
use aurora_core.Protocol.Policies.{
  decode_client_transport_hints, decode_policy_accept, decode_policy_offer,
  decode_virtual_address_assignment, encode_client_transport_hints, encode_policy_accept,
  encode_policy_offer, encode_virtual_address_assignment,
}

pub client_transport_hints_Canonical :
    Canonical decode_client_transport_hints encode_client_transport_hints
unfolding decode_client_transport_hints encode_client_transport_hints
client_transport_hints_Canonical = Finishes-Canonical (
    Finishes-bind uint16_Canonical λ v0. Finishes-bind uint8_Canonical λ v1.
      Finishes-bind uint8_Canonical λ v2. Finishes-bind uint8_Canonical λ v3.
        Finishes-bind uint8_Canonical λ v4. Finishes-bind uint16_Canonical λ v5.
          Finishes-bind opaque8_Canonical λ v6.
            Finishes-bind opaque16_Canonical
              λ v7. Finishes-bind extensions_Canonical λ v8. Finishes-pure _ refl)

pub policy_offer_Canonical : Canonical decode_policy_offer encode_policy_offer
unfolding decode_policy_offer encode_policy_offer
policy_offer_Canonical = Finishes-Canonical (
    Finishes-bind varint_vector_Canonical λ v0. Finishes-bind varint_vector_Canonical λ v1.
      Finishes-bind varint_vector_Canonical λ v2. Finishes-bind varint_Canonical λ v3.
        Finishes-bind varint_Canonical λ v4. Finishes-bind varint_Canonical λ v5.
          Finishes-bind varint_Canonical λ v6. Finishes-bind varint_vector_Canonical λ v7.
            Finishes-bind uint64_Canonical λ v8.
              Finishes-bind uint8_Canonical
                λ v9. Finishes-bind extensions_Canonical λ v10. Finishes-pure _ refl)

pub virtual_address_assignment_Canonical :
    Canonical decode_virtual_address_assignment encode_virtual_address_assignment
unfolding decode_virtual_address_assignment encode_virtual_address_assignment
virtual_address_assignment_Canonical = Finishes-Canonical (
    Finishes-bind (opaque_fixed_Canonical 16) λ v0. Finishes-bind varint_Canonical λ v1.
      Finishes-bind opaque8_Canonical λ v2. Finishes-bind uint8_Canonical λ v3.
        Finishes-bind (optional_Canonical opaque8_Canonical)
          λ v4. Finishes-bind uint64_Canonical λ v5. Finishes-pure _ refl)

pub policy_accept_Canonical : Canonical decode_policy_accept encode_policy_accept
unfolding decode_policy_accept encode_policy_accept
policy_accept_Canonical = Finishes-Canonical (
    Finishes-bind varint_Canonical λ v0. Finishes-bind varint_Canonical λ v1.
      Finishes-bind varint_Canonical λ v2. Finishes-bind varint_Canonical λ v3.
        Finishes-bind varint_Canonical λ v4. Finishes-bind varint_Canonical λ v5.
          Finishes-bind varint_Canonical λ v6. Finishes-bind varint_vector_Canonical λ v7.
            Finishes-bind varint_Canonical λ v8. Finishes-bind varint_Canonical λ v9.
              Finishes-bind (optional_Canonical virtual_address_assignment_Canonical)
                λ v10. Finishes-bind extensions_Canonical λ v11. Finishes-pure _ refl)
