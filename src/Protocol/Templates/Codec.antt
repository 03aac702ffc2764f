-- ===== src/Protocol/Templates/Codec.antt =====
-- protocol/directory.go: the parts of a cover template. The decoders against the encoders.
use aurora_core.Common.{refl}
use aurora_core.Wire.Format.Parses.{Canonical, Finishes-bind, Finishes-pure, Finishes-Canonical}
use aurora_core.Wire.Format.Parses.Scalars.{
  bool_Canonical, opaque_fixed_Canonical, varint_Canonical,
}
use aurora_core.Wire.Format.Items.{varint_vector_Canonical}
use aurora_core.Protocol.Templates.{
  decode_cache_cookie_policy, decode_capsule_envelope, decode_prelude_envelope,
  decode_request_class, decode_timing_envelope, encode_cache_cookie_policy, encode_capsule_envelope,
  encode_prelude_envelope, encode_request_class, encode_timing_envelope,
}

pub request_class_Canonical : Canonical decode_request_class encode_request_class
unfolding decode_request_class encode_request_class
request_class_Canonical = Finishes-Canonical (
    Finishes-bind varint_Canonical λ v0. Finishes-bind varint_Canonical λ v1.
      Finishes-bind varint_Canonical λ v2. Finishes-bind (opaque_fixed_Canonical 16) λ v3.
        Finishes-bind varint_Canonical λ v4. Finishes-bind varint_Canonical λ v5.
          Finishes-bind bool_Canonical
            λ v6. Finishes-bind bool_Canonical λ v7. Finishes-pure _ refl)

pub prelude_envelope_Canonical : Canonical decode_prelude_envelope encode_prelude_envelope
unfolding decode_prelude_envelope encode_prelude_envelope
prelude_envelope_Canonical = Finishes-Canonical (
    Finishes-bind varint_Canonical λ v0. Finishes-bind varint_Canonical λ v1.
      Finishes-bind (opaque_fixed_Canonical 16) λ v2. Finishes-bind varint_Canonical λ v3.
        Finishes-bind varint_Canonical λ v4. Finishes-bind (opaque_fixed_Canonical 16) λ v5.
          Finishes-bind varint_Canonical λ v6.
            Finishes-bind varint_Canonical
              λ v7. Finishes-bind varint_Canonical λ v8. Finishes-pure _ refl)

pub capsule_envelope_Canonical : Canonical decode_capsule_envelope encode_capsule_envelope
unfolding decode_capsule_envelope encode_capsule_envelope
capsule_envelope_Canonical = Finishes-Canonical (
    Finishes-bind (opaque_fixed_Canonical 16) λ v0. Finishes-bind varint_Canonical λ v1.
      Finishes-bind varint_Canonical λ v2. Finishes-bind (opaque_fixed_Canonical 16) λ v3.
        Finishes-bind varint_vector_Canonical λ v4. Finishes-bind varint_Canonical λ v5.
          Finishes-bind varint_Canonical
            λ v6. Finishes-bind bool_Canonical λ v7. Finishes-pure _ refl)

pub cache_cookie_policy_Canonical : Canonical decode_cache_cookie_policy encode_cache_cookie_policy
unfolding decode_cache_cookie_policy encode_cache_cookie_policy
cache_cookie_policy_Canonical = Finishes-Canonical (
    Finishes-bind varint_Canonical λ v0. Finishes-bind varint_Canonical λ v1.
      Finishes-bind varint_Canonical λ v2. Finishes-bind varint_Canonical λ v3.
        Finishes-bind varint_Canonical
          λ v4. Finishes-bind varint_Canonical λ v5. Finishes-pure _ refl)

pub timing_envelope_Canonical : Canonical decode_timing_envelope encode_timing_envelope
unfolding decode_timing_envelope encode_timing_envelope
timing_envelope_Canonical = Finishes-Canonical (
    Finishes-bind varint_Canonical λ v0. Finishes-bind varint_Canonical λ v1.
      Finishes-bind varint_Canonical λ v2. Finishes-bind (opaque_fixed_Canonical 16) λ v3.
        Finishes-bind varint_Canonical λ v4.
          Finishes-bind varint_Canonical
            λ v5. Finishes-bind varint_Canonical λ v6. Finishes-pure _ refl)
