-- ===== src/Wire/Encoder.antt =====
-- wire/encoder.go. An encoder is its buffer and its first error, and a method is a function on
-- encoders, so `EncodeTo` of a type is one too. Slices are values: what `Buffer` and `Bytes` return
-- differs only in who owns the storage. A capacity is a hint to the allocator.
use aurora_core.Common.{
  ℕ, ◌%◌, ◌^◌, Bool, Option, none, some, List, [], ◌∷◌, ◌++◌, ltb, ◌==◌, if◌then◌else◌, length,
}
use aurora_core.Common.Words.{byte, shr}
use aurora_core.Errors.{
  Error, Result, ok, fail, uint24_out_of_range, fixed_opaque_length, opaque8_too_long,
  opaque16_too_long, opaque24_too_long,
}
use aurora_core.Wire.Varint.{append_varint}

pub record Encoder : Type 0 where
  pub buf : List ℕ
  pub err : Option Error

abbrev pub Write : Type 0
Write = Encoder → Encoder

infixr 5 ◌>>◌
abbrev pub ◌>>◌ : Write → Write → Write
(w >> u) e = u (w e)

unfoldable pub new_encoder : Encoder
new_encoder = record { buf = []; err = none }

unfoldable pub new_encoder_with_buffer : List ℕ → Encoder
new_encoder_with_buffer buf = record { buf = buf; err = none }

unfoldable pub set_err : Error → Write
set_err x e = elim e.err [ none ↦ record e { err = some x } | some y ↦ e ]

unfoldable pub buffer : Encoder → Result (List ℕ)
buffer e = elim e.err [ none ↦ ok e.buf | some x ↦ fail x ]

unfoldable pub bytes : Encoder → Result (List ℕ)
bytes e = elim e.err [ none ↦ ok e.buf | some x ↦ fail x ]

unfoldable pub write_bytes : List ℕ → Write
write_bytes b e = elim e.err [ none ↦ record e { buf = e.buf ++ b } | some x ↦ e ]

unfoldable pub write_uint8 : ℕ → Write
write_uint8 v e = elim e.err [ none ↦ record e { buf = e.buf ++ v ∷ [] } | some x ↦ e ]

unfoldable pub write_bool : Bool → Write
write_bool v = if v then write_uint8 1 else write_uint8 0

unfoldable pub write_uint16 : ℕ → Write
write_uint16 v e = elim e.err [
  | none ↦ record e { buf = e.buf ++ byte (shr v 8) ∷ byte v ∷ [] }
  | some x ↦ e
]

unfoldable pub write_uint24 : ℕ → Write
unfolding set_err
write_uint24 v e = elim e.err [
  | none ↦
      if ltb 0xffffff v
      then set_err uint24_out_of_range e
      else record e { buf = e.buf ++ byte (shr v 16) ∷ byte (shr v 8) ∷ byte v ∷ [] }
  | some x ↦ e
]

unfoldable pub write_uint32 : ℕ → Write
write_uint32 v e = elim e.err [
  | none ↦ record e {
    buf = e.buf ++ byte (shr v 24) ∷ byte (shr v 16) ∷ byte (shr v 8) ∷ byte v ∷ [];
  }
  | some x ↦ e
]

-- EncodeUint64 as well.
unfoldable pub encode_uint64 : ℕ → List ℕ
encode_uint64 v =
    byte (shr v 56)
    ∷ byte (shr v 48)
    ∷ byte (shr v 40)
    ∷ byte (shr v 32)
    ∷ byte (shr v 24)
    ∷ byte (shr v 16)
    ∷ byte (shr v 8)
    ∷ byte v
    ∷ []

unfoldable pub write_uint64 : ℕ → Write
unfolding encode_uint64
write_uint64 v e = elim e.err [ none ↦ record e { buf = e.buf ++ encode_uint64 v } | some x ↦ e ]

unfoldable pub write_varint : ℕ → Write
unfolding set_err
write_varint v e = elim e.err [
  | none ↦ elim (append_varint e.buf v) [ ok buf ↦ record e { buf = buf } | fail x ↦ set_err x e ]
  | some x ↦ e
]

unfoldable pub write_opaque_fixed : List ℕ → ℕ → Write
unfolding set_err write_bytes
write_opaque_fixed b n = if length b == n then write_bytes b else set_err fixed_opaque_length

unfoldable pub write_opaque8 : List ℕ → Write
unfolding set_err write_bytes write_uint8
write_opaque8 b =
    if ltb 0xff (length b)
    then set_err opaque8_too_long
    else write_uint8 (length b % 2 ^ 8) >> write_bytes b

unfoldable pub write_opaque16 : List ℕ → Write
unfolding set_err write_bytes write_uint16
write_opaque16 b =
    if ltb 0xffff (length b)
    then set_err opaque16_too_long
    else write_uint16 (length b % 2 ^ 16) >> write_bytes b

unfoldable pub write_opaque24 : List ℕ → Write
unfolding set_err write_bytes write_uint24
write_opaque24 b =
    if ltb 0xffffff (length b)
    then set_err opaque24_too_long
    else write_uint24 (length b % 2 ^ 32) >> write_bytes b

unfoldable pub write_opaque32 : List ℕ → Write
unfolding write_bytes write_uint32
write_opaque32 b = write_uint32 (length b % 2 ^ 32) >> write_bytes b

unfoldable pub write_pre_hash : List ℕ → Write
unfolding write_opaque_fixed
write_pre_hash b = write_opaque_fixed b 48

-- The loop `for _, item := range items { write(item) }`.
unfoldable pub write_each {ℓ} : {A : Type ℓ} → (A → Write) → List A → Write
write_each w [] e = e
write_each w (x ∷ xs) e = write_each w xs (w x e)

unfoldable pub write_varint_vector : List ℕ → Write
unfolding write_varint write_each
write_varint_vector items = write_varint (length items) >> write_each write_varint items

-- `encode` with the expected length of its callers: none for -1.
unfoldable pub encode_expecting : Write → Option ℕ → Result (List ℕ)
unfolding new_encoder bytes
encode_expecting v expected =
    let e = v new_encoder in
    elim e.err [
      | some x ↦ fail x
      | none ↦ elim expected [
        | none ↦ bytes e
        | some n ↦ if length e.buf == n then ok e.buf else bytes e
      ]
    ]

unfoldable pub encode : Write → Result (List ℕ)
unfolding encode_expecting
encode v = encode_expecting v none

unfoldable pub encode_with_capacity : Write → ℕ → Result (List ℕ)
unfolding encode_expecting
encode_with_capacity v capacity = encode_expecting v (some capacity)

unfoldable pub encode_with_reserved_capacity : Write → ℕ → ℕ → Result (List ℕ)
unfolding encode encode_expecting
encode_with_reserved_capacity v expected_length capacity =
    if ltb capacity expected_length then encode v else encode_expecting v (some expected_length)
