-- ===== src/Wire/Varint/RoundTrip.antt =====
-- The encoder and the decoder of wire/varint.go against one description of the format.
use aurora_core.Common.{
  ℕ, ◌+◌, ◌/◌, ◌%◌, ◌^◌, ◌≤◌, ◌<◌, ◌≡◌, arith, List, [], ◌∷◌, ◌++◌, leb, if◌then◌else◌, length,
}
use aurora_core.Common.Bits.{shifted_or, and_low}
use aurora_core.Common.Words.{join2-64, join4-64, join8-64}
use aurora_core.Errors.{ok, fail, varint_out_of_range}
use aurora_core.Wire.Varint.{max_varint, append_varint, varint_len, decode_varint}

-- The format in plain arithmetic: the number in `n` bytes, with the length code added on top.
unfoldable pub varint_bytes : ℕ → List ℕ
varint_bytes v =
    if leb v 63
    then v ∷ []
    else if leb v 16383
    then (64 + v / 2 ^ 8) ∷ v % 2 ^ 8 ∷ []
    else if leb v 1073741823
    then (128 + v / 2 ^ 24) ∷ v / 2 ^ 16 % 2 ^ 8 ∷ v / 2 ^ 8 % 2 ^ 8 ∷ v % 2 ^ 8 ∷ []
    else (192 + v / 2 ^ 56)
      ∷ v / 2 ^ 48 % 2 ^ 8
      ∷ v / 2 ^ 40 % 2 ^ 8
      ∷ v / 2 ^ 32 % 2 ^ 8
      ∷ v / 2 ^ 24 % 2 ^ 8
      ∷ v / 2 ^ 16 % 2 ^ 8
      ∷ v / 2 ^ 8 % 2 ^ 8
      ∷ v % 2 ^ 8
      ∷ []

pub append_varint-bytes :
    (dst : List ℕ) (v : ℕ) → v ≤ max_varint → append_varint dst v ≡ ok (dst ++ varint_bytes v)
unfolding append_varint varint_bytes
append_varint-bytes dst v h =
    ground (arith, shifted_or 14 1 (v % 2 ^ 16), shifted_or 30 2 (v % 2 ^ 32), shifted_or 62 3 v)

pub append_varint_fails :
    (dst : List ℕ) (v : ℕ) → max_varint < v → append_varint dst v ≡ fail varint_out_of_range
unfolding append_varint
append_varint_fails dst v h = ground arith

-- One lemma for each length of the format: the decoder on the bytes of a number.
decode_one : (v : ℕ) (rest : List ℕ) → v ≤ 63 → decode_varint (v ∷ rest) ≡ ok (v, 1)
unfolding decode_varint
decode_one v rest h = ground arith

decode_two :
    (v : ℕ) (rest : List ℕ)
    → 63 < v
    → v ≤ 16383
    → decode_varint ((64 + v / 2 ^ 8) ∷ v % 2 ^ 8 ∷ rest) ≡ ok (v, 2)
unfolding decode_varint
decode_two v rest l h = ground (arith, and_low 6 1 (v / 2 ^ 8), join2-64 (v / 2 ^ 8) (v % 2 ^ 8))

decode_four :
    (v : ℕ) (rest : List ℕ)
    → 16383 < v
    → v ≤ 1073741823
    → decode_varint ((128 + v / 2 ^ 24) ∷ v / 2 ^ 16 % 2 ^ 8 ∷ v / 2 ^ 8 % 2 ^ 8 ∷ v % 2 ^ 8 ∷ rest)
      ≡ ok (v, 4)
unfolding decode_varint
decode_four v rest l h = ground (
  arith,
  and_low 6 2 (v / 2 ^ 24),
  join4-64 (v / 2 ^ 24) (v / 2 ^ 16 % 2 ^ 8) (v / 2 ^ 8 % 2 ^ 8) (v % 2 ^ 8),
)

decode_eight :
    (v : ℕ) (rest : List ℕ)
    → 1073741823 < v
    → v ≤ max_varint
    → decode_varint (
        (192 + v / 2 ^ 56)
        ∷ v / 2 ^ 48 % 2 ^ 8
        ∷ v / 2 ^ 40 % 2 ^ 8
        ∷ v / 2 ^ 32 % 2 ^ 8
        ∷ v / 2 ^ 24 % 2 ^ 8
        ∷ v / 2 ^ 16 % 2 ^ 8
        ∷ v / 2 ^ 8 % 2 ^ 8
        ∷ v % 2 ^ 8
        ∷ rest)
      ≡ ok (v, 8)
unfolding decode_varint
decode_eight v rest l h = ground (
  arith,
  and_low 6 3 (v / 2 ^ 56),
  join8-64 (v / 2 ^ 56) (v / 2 ^ 48 % 2 ^ 8) (v / 2 ^ 40 % 2 ^ 8) (v / 2 ^ 32 % 2 ^ 8)
      (v / 2 ^ 24 % 2 ^ 8) (v / 2 ^ 16 % 2 ^ 8) (v / 2 ^ 8 % 2 ^ 8) (v % 2 ^ 8),
)

pub decode_varint-bytes :
    (v : ℕ) (rest : List ℕ)
    → v ≤ max_varint
    → decode_varint (varint_bytes v ++ rest) ≡ ok (v, length (varint_bytes v))
unfolding varint_bytes
decode_varint-bytes v rest h =
    ground (arith, decode_one v rest, decode_two v rest, decode_four v rest, decode_eight v rest)

pub varint_len-bytes : (v : ℕ) → v ≤ max_varint → varint_len v ≡ ok (length (varint_bytes v))
unfolding varint_len varint_bytes
varint_len-bytes v h = ground arith

-- A number up to 2^62 - 1 is appended to the buffer as a form whose length VarintLen reports, and
-- the decoder reads the number and that length back, whatever follows.
pub append_varint-decode :
    (dst rest : List ℕ) (v : ℕ)
    → v ≤ max_varint
    → (form : List ℕ) × (append_varint dst v ≡ ok (dst ++ form))
      × (varint_len v ≡ ok (length form))
      × (decode_varint (form ++ rest) ≡ ok (v, length form))
append_varint-decode dst rest v h = (
  varint_bytes v,
  append_varint-bytes dst v h,
  varint_len-bytes v h,
  decode_varint-bytes v rest h,
)
