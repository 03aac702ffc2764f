-- ===== src/Wire/Varint.antt =====
-- wire/varint.go: integers below 2^62 in one, two, four or eight bytes. The two top bits of the first
-- byte give the length, and the decoder refuses a longer form than is needed.
-- A byte slice is a list of numbers, an index is `get_or` under the code's own length test, and an
-- `(value, error)` pair is a `Result`.
pub mod RoundTrip
pub mod Canonical
use aurora_core.Common.{
  ℕ, ◌-◌, ◌/◌, ◌%◌, ◌^◌, bit_and, bit_or, List, [], ◌∷◌, ◌++◌, ltb, leb, ◌==◌, if◌then◌else◌,
  length, get_or,
}
use aurora_core.Common.Words.{byte, shr, shl, join2, join4, join8}
use aurora_core.Errors.{
  Result, ok, fail, varint_out_of_range, short_varint, short_varint2, short_varint4, short_varint8,
  non_minimal_varint,
}

abbrev pub max_varint : ℕ
max_varint = 2 ^ 62 - 1

unfoldable pub append_varint : List ℕ → ℕ → Result (List ℕ)
append_varint dst v =
    if ltb max_varint v
    then fail varint_out_of_range
    else if leb v 63
    then ok (dst ++ byte v ∷ [])
    else if leb v 16383
    then (let x = bit_or (v % 2 ^ 16) 0x4000 in ok (dst ++ byte (shr x 8) ∷ byte x ∷ []))
    else if leb v 1073741823
    then (let x = bit_or (v % 2 ^ 32) 0x80000000 in
        ok (dst ++ byte (shr x 24) ∷ byte (shr x 16) ∷ byte (shr x 8) ∷ byte x ∷ []))
    else (let x = bit_or v 0xc000000000000000 in
        ok (
          dst
          ++ byte (shr x 56)
            ∷ byte (shr x 48)
            ∷ byte (shr x 40)
            ∷ byte (shr x 32)
            ∷ byte (shr x 24)
            ∷ byte (shr x 16)
            ∷ byte (shr x 8)
            ∷ byte x
            ∷ []))

unfoldable pub encode_varint : ℕ → Result (List ℕ)
encode_varint v = append_varint [] v

unfoldable pub varint_len : ℕ → Result ℕ
varint_len v =
    if ltb max_varint v
    then fail varint_out_of_range
    else if leb v 63
    then ok 1
    else if leb v 16383
    then ok 2
    else if leb v 1073741823
    then ok 4
    else ok 8

-- The value and the number of bytes read.
unfoldable pub decode_varint : List ℕ → Result (ℕ × ℕ)
decode_varint b =
    let prefix = shr (get_or b 0 0) 6 in
    if length b == 0
    then fail short_varint
    else if prefix == 0
    then ok (get_or b 0 0, 1)
    else if prefix == 1
    then (if ltb (length b) 2
        then fail short_varint2
        else (let v = join2 64 (bit_and (get_or b 0 0) 0x3f) (get_or b 1 0) in
            if leb v 63 then fail non_minimal_varint else ok (v, 2)))
    else if prefix == 2
    then (if ltb (length b) 4
        then fail short_varint4
        else (let v =
              join4 64 (bit_and (get_or b 0 0) 0x3f) (get_or b 1 0) (get_or b 2 0) (get_or b 3 0) in
            if leb v 16383 then fail non_minimal_varint else ok (v, 4)))
    else if ltb (length b) 8
    then fail short_varint8
    else (let v =
          join8 64 (bit_and (get_or b 0 0) 0x3f) (get_or b 1 0) (get_or b 2 0) (get_or b 3 0)
            (get_or b 4 0) (get_or b 5 0) (get_or b 6 0) (get_or b 7 0) in
        if leb v 1073741823 then fail non_minimal_varint else ok (v, 8))
