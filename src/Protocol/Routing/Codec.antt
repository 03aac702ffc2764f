-- ===== src/Protocol/Routing/Codec.antt =====
-- protocol/directory.go: signatures of a consensus and routing records. The decoders against the encoders.
use aurora_core.Common.{refl}
use aurora_core.Wire.Format.Parses.{Canonical, Finishes-bind, Finishes-pure, Finishes-Canonical}
use aurora_core.Wire.Format.Parses.Scalars.{
  opaque16_Canonical, opaque_fixed_Canonical, uint64_Canonical, varint_Canonical,
}
use aurora_core.Protocol.Routing.{
  decode_routing_record, decode_signature_entry, encode_routing_record, encode_signature_entry,
}

pub signature_entry_Canonical : Canonical decode_signature_entry encode_signature_entry
unfolding decode_signature_entry encode_signature_entry
signature_entry_Canonical = Finishes-Canonical (
    Finishes-bind (opaque_fixed_Canonical 16) λ v0. Finishes-bind (opaque_fixed_Canonical 16) λ v1.
      Finishes-bind varint_Canonical λ v2.
        Finishes-bind varint_Canonical
          λ v3. Finishes-bind opaque16_Canonical λ v4. Finishes-pure _ refl)

pub routing_record_Canonical : Canonical decode_routing_record encode_routing_record
unfolding decode_routing_record encode_routing_record
routing_record_Canonical = Finishes-Canonical (
    Finishes-bind opaque16_Canonical λ v0. Finishes-bind varint_Canonical λ v1.
      Finishes-bind varint_Canonical λ v2. Finishes-bind opaque16_Canonical λ v3.
        Finishes-bind varint_Canonical λ v4.
          Finishes-bind uint64_Canonical
            λ v5. Finishes-bind uint64_Canonical λ v6. Finishes-pure _ refl)
