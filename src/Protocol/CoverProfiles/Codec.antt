-- ===== src/Protocol/CoverProfiles/Codec.antt =====
-- protocol/directory.go: the profiles of cover carriers. The decoders against the encoders.
use aurora_core.Common.{refl}
use aurora_core.Wire.Format.Parses.{Canonical, Finishes-bind, Finishes-pure, Finishes-Canonical}
use aurora_core.Wire.Format.Parses.Scalars.{
  bool_Canonical, opaque_fixed_Canonical, varint_Canonical,
}
use aurora_core.Protocol.CoverProfiles.{
  decode_h2_cover_profile, decode_h3_cover_profile, decode_web_socket_cover_profile,
  encode_h2_cover_profile, encode_h3_cover_profile, encode_web_socket_cover_profile,
}

pub h2_cover_profile_Canonical : Canonical decode_h2_cover_profile encode_h2_cover_profile
unfolding decode_h2_cover_profile encode_h2_cover_profile
h2_cover_profile_Canonical = Finishes-Canonical (
    Finishes-bind varint_Canonical λ v0. Finishes-bind varint_Canonical λ v1.
      Finishes-bind varint_Canonical λ v2. Finishes-bind varint_Canonical λ v3.
        Finishes-bind varint_Canonical λ v4. Finishes-bind varint_Canonical λ v5.
          Finishes-bind varint_Canonical λ v6.
            Finishes-bind (opaque_fixed_Canonical 16)
              λ v7. Finishes-bind varint_Canonical λ v8. Finishes-pure _ refl)

pub h3_cover_profile_Canonical : Canonical decode_h3_cover_profile encode_h3_cover_profile
unfolding decode_h3_cover_profile encode_h3_cover_profile
h3_cover_profile_Canonical = Finishes-Canonical (
    Finishes-bind varint_Canonical λ v0. Finishes-bind varint_Canonical λ v1.
      Finishes-bind varint_Canonical λ v2. Finishes-bind bool_Canonical λ v3.
        Finishes-bind bool_Canonical λ v4. Finishes-bind varint_Canonical λ v5.
          Finishes-bind bool_Canonical λ v6. Finishes-bind bool_Canonical λ v7.
            Finishes-bind varint_Canonical λ v8. Finishes-bind (opaque_fixed_Canonical 16) λ v9.
              Finishes-bind (opaque_fixed_Canonical 16)
                λ v10. Finishes-bind varint_Canonical λ v11. Finishes-pure _ refl)

pub web_socket_cover_profile_Canonical :
    Canonical decode_web_socket_cover_profile encode_web_socket_cover_profile
unfolding decode_web_socket_cover_profile encode_web_socket_cover_profile
web_socket_cover_profile_Canonical = Finishes-Canonical (
    Finishes-bind varint_Canonical λ v0. Finishes-bind varint_Canonical λ v1.
      Finishes-bind varint_Canonical λ v2. Finishes-bind (opaque_fixed_Canonical 16) λ v3.
        Finishes-bind varint_Canonical λ v4.
          Finishes-bind varint_Canonical
            λ v5. Finishes-bind varint_Canonical λ v6. Finishes-pure _ refl)
