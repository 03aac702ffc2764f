-- ===== src/Protocol/Extensions.antt =====
-- protocol/types.go and protocol/vector_limits.go: extensions and bounded vector counts.
pub mod Codec
use aurora_core.Common.{
  ℕ, ◌-◌, ◌/◌, Bool, true, false, ◌&&◌, not, Option, none, some, List, [], ◌∷◌, ltb, ◌==◌,
  if◌then◌else◌, length,
}
use aurora_core.Errors.{
  Error, Result, ok, fail, ◌>>=◌ as bind_result, extension_count_unfit, unknown_critical_extension,
  minimum_size_invalid, count_unfit,
}
use aurora_core.Wire.Encoder.{Write, ◌>>◌, write_varint, write_uint8, write_opaque24, write_each}
use aurora_core.Wire.Reader.{
  Reader, Read, ◌>>=◌, pure, read_varint, read_bool, read_opaque24, read_vector_count, read_each,
  remaining, set_err,
}

pub record Extension : Type 0 where
  pub extension_type : ℕ
  pub critical : Bool
  pub body : List ℕ

-- A varint, a flag and an opaque24 length.
abbrev pub minimum_encoded_extension_bytes : ℕ
minimum_encoded_extension_bytes = 5

unfoldable pub encode_extension : Extension → Write
encode_extension x = do
  write_varint x.extension_type
  if x.critical then write_uint8 1 else write_uint8 0
  write_opaque24 x.body

unfoldable pub encode_extensions : List Extension → Write
unfolding encode_extension write_each
encode_extensions xs = write_varint (length xs) >> write_each encode_extension xs

unfoldable pub decode_extension : Read Extension
decode_extension = do
  extension_type ← read_varint
  critical ← read_bool
  body ← read_opaque24
  pure (record { extension_type = extension_type; critical = critical; body = body })

unfoldable pub decode_extensions : Read (List Extension)
unfolding decode_extension read_each
decode_extensions r =
    let (n, r') = read_vector_count r in
    elim r'.err [
      | some x ↦ ([], r')
      | none ↦
          if ltb (remaining r' / minimum_encoded_extension_bytes) n
          then ([], set_err extension_count_unfit r')
          else read_each n decode_extension r'
    ]

-- `known` is nil at every call in frames.go: a nil map knows no type.
unfoldable pub validate_extensions : List Extension → (ℕ → Bool) → Result (Unit {0})
validate_extensions [] known = ok tt
validate_extensions (x ∷ xs) known =
    let rest = validate_extensions xs known in
    if x.critical && not (known x.extension_type) then fail unknown_critical_extension else rest

abbrev pub no_extension_known : ℕ → Bool
no_extension_known t = false

unfoldable pub read_vector_count_with_minimum : ℕ → Read ℕ
read_vector_count_with_minimum minimum r =
    let (count, r') = read_vector_count r in
    elim r'.err [
      | some x ↦ (0, r')
      | none ↦
          if minimum == 0
          then (0, set_err minimum_size_invalid r')
          else if ltb (remaining r' / minimum) count
          then (0, set_err count_unfit r')
          else (count, r')
    ]
