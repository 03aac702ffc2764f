-- ===== src/Protocol/Preludes/Codec.antt =====
-- protocol/bootstrap.go: preludes. The decoders against the encoders.
use aurora_core.Common.{refl}
use aurora_core.Wire.Format.Parses.{Canonical, Finishes-bind, Finishes-pure, Finishes-Canonical}
use aurora_core.Wire.Format.Parses.Scalars.{
  opaque16_Canonical, opaque_fixed_Canonical, pre_hash_Canonical, uint64_Canonical, uint8_Canonical,
  varint_Canonical,
}
use aurora_core.Wire.Format.Items.{varint_vector_Canonical}
use aurora_core.Protocol.Extensions.Codec.{extensions_Canonical}
use aurora_core.Protocol.Preludes.{
  decode_cover_prelude0, decode_cover_prelude1, decode_route_prelude1, encode_cover_prelude0,
  encode_cover_prelude1, encode_route_prelude1,
}

pub cover_prelude0_Canonical : Canonical decode_cover_prelude0 encode_cover_prelude0
unfolding decode_cover_prelude0 encode_cover_prelude0
cover_prelude0_Canonical = Finishes-Canonical (
    Finishes-bind varint_Canonical λ v0. Finishes-bind varint_Canonical λ v1.
      Finishes-bind varint_vector_Canonical λ v2. Finishes-bind (opaque_fixed_Canonical 32) λ v3.
        Finishes-bind opaque16_Canonical λ v4. Finishes-bind opaque16_Canonical λ v5.
          Finishes-bind pre_hash_Canonical λ v6. Finishes-bind pre_hash_Canonical λ v7.
            Finishes-bind varint_Canonical λ v8. Finishes-bind (opaque_fixed_Canonical 16) λ v9.
              Finishes-bind (opaque_fixed_Canonical 16) λ v10. Finishes-bind uint64_Canonical λ v11.
                Finishes-bind (opaque_fixed_Canonical 16) λ v12.
                  Finishes-bind (opaque_fixed_Canonical 16) λ v13.
                    Finishes-bind (opaque_fixed_Canonical 32) λ v14.
                      Finishes-bind opaque16_Canonical
                        λ v15. Finishes-bind extensions_Canonical λ v16. Finishes-pure _ refl)

pub cover_prelude1_Canonical : Canonical decode_cover_prelude1 encode_cover_prelude1
unfolding decode_cover_prelude1 encode_cover_prelude1
cover_prelude1_Canonical = Finishes-Canonical (
    Finishes-bind varint_Canonical λ v0. Finishes-bind varint_Canonical λ v1.
      Finishes-bind varint_Canonical λ v2. Finishes-bind pre_hash_Canonical λ v3.
        Finishes-bind pre_hash_Canonical λ v4. Finishes-bind uint64_Canonical λ v5.
          Finishes-bind (opaque_fixed_Canonical 32) λ v6. Finishes-bind opaque16_Canonical λ v7.
            Finishes-bind opaque16_Canonical λ v8. Finishes-bind (opaque_fixed_Canonical 16) λ v9.
              Finishes-bind (opaque_fixed_Canonical 16) λ v10.
                Finishes-bind opaque16_Canonical λ v11. Finishes-bind opaque16_Canonical λ v12.
                  Finishes-bind opaque16_Canonical
                    λ v13. Finishes-bind extensions_Canonical λ v14. Finishes-pure _ refl)

pub route_prelude1_Canonical : Canonical decode_route_prelude1 encode_route_prelude1
unfolding decode_route_prelude1 encode_route_prelude1
route_prelude1_Canonical = Finishes-Canonical (
    Finishes-bind varint_Canonical λ v0. Finishes-bind varint_Canonical λ v1.
      Finishes-bind varint_Canonical λ v2. Finishes-bind uint8_Canonical λ v3.
        Finishes-bind pre_hash_Canonical λ v4. Finishes-bind pre_hash_Canonical λ v5.
          Finishes-bind uint64_Canonical λ v6. Finishes-bind varint_Canonical λ v7.
            Finishes-bind (opaque_fixed_Canonical 32) λ v8. Finishes-bind opaque16_Canonical λ v9.
              Finishes-bind opaque16_Canonical λ v10. Finishes-bind varint_Canonical λ v11.
                Finishes-bind opaque16_Canonical λ v12. Finishes-bind opaque16_Canonical λ v13.
                  Finishes-bind opaque16_Canonical
                    λ v14. Finishes-bind extensions_Canonical λ v15. Finishes-pure _ refl)
