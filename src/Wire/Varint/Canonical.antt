-- ===== src/Wire/Varint/Canonical.antt =====
-- Whatever the decoder of wire/varint.go accepts is the encoding of the number it returns.
use aurora_core.Common.{
  ℕ, ◌/◌, ◌%◌, ◌^◌, ◌≤◌, ◌≡◌, ◌⊎◌, ◌∙◌, ap, sym, arith, List, [], ◌∷◌, length, take,
}
use aurora_core.Common.Bits.{and_low}
use aurora_core.Common.Words.{IsByte, Bytes, join2-64, join4-64, join8-64}
use aurora_core.Errors.{ok}
use aurora_core.Wire.Varint.{max_varint, encode_varint, decode_varint}
use aurora_core.Wire.Varint.RoundTrip.{varint_bytes, append_varint-bytes}

-- What a successful decoding says: the value is in range, and its bytes are those read.
pub record Accepts (b : List ℕ) (v n : ℕ) : Type 0 where
  pub in_range : v ≤ max_varint
  pub read : n ≡ length (varint_bytes v)
  pub fits : n ≤ length b
  pub bytes : take n b ≡ varint_bytes v

one_Accepts :
    (b0 v n : ℕ) (rest : List ℕ)
    → b0 / 2 ^ 6 ≡ 0
    → decode_varint (b0 ∷ rest) ≡ ok (v, n)
    → Accepts (b0 ∷ rest) v n
unfolding decode_varint varint_bytes
one_Accepts b0 v n rest p e = ground arith

two_Accepts :
    (b0 b1 v n : ℕ) (rest : List ℕ)
    → IsByte b0
    → IsByte b1
    → b0 / 2 ^ 6 ≡ 1
    → decode_varint (b0 ∷ b1 ∷ rest) ≡ ok (v, n)
    → Accepts (b0 ∷ b1 ∷ rest) v n
unfolding decode_varint varint_bytes
two_Accepts b0 b1 v n rest h0 h1 p e =
    ground (arith, and_low 6 (b0 / 2 ^ 6) (b0 % 2 ^ 6), join2-64 (b0 % 2 ^ 6) b1)

four_Accepts :
    (b0 b1 b2 b3 v n : ℕ) (rest : List ℕ)
    → IsByte b0
    → IsByte b1
    → IsByte b2
    → IsByte b3
    → b0 / 2 ^ 6 ≡ 2
    → decode_varint (b0 ∷ b1 ∷ b2 ∷ b3 ∷ rest) ≡ ok (v, n)
    → Accepts (b0 ∷ b1 ∷ b2 ∷ b3 ∷ rest) v n
unfolding decode_varint varint_bytes
four_Accepts b0 b1 b2 b3 v n rest h0 h1 h2 h3 p e =
    ground (arith, and_low 6 (b0 / 2 ^ 6) (b0 % 2 ^ 6), join4-64 (b0 % 2 ^ 6) b1 b2 b3)

eight_Accepts :
    (b0 b1 b2 b3 b4 b5 b6 b7 v n : ℕ) (rest : List ℕ)
    → Bytes (b0 ∷ b1 ∷ b2 ∷ b3 ∷ b4 ∷ b5 ∷ b6 ∷ b7 ∷ [])
    → 3 ≤ b0 / 2 ^ 6
    → decode_varint (b0 ∷ b1 ∷ b2 ∷ b3 ∷ b4 ∷ b5 ∷ b6 ∷ b7 ∷ rest) ≡ ok (v, n)
    → Accepts (b0 ∷ b1 ∷ b2 ∷ b3 ∷ b4 ∷ b5 ∷ b6 ∷ b7 ∷ rest) v n
unfolding decode_varint varint_bytes
eight_Accepts b0 b1 b2 b3 b4 b5 b6 b7 v n rest h p e =
    ground (arith, and_low 6 (b0 / 2 ^ 6) (b0 % 2 ^ 6), join8-64 (b0 % 2 ^ 6) b1 b2 b3 b4 b5 b6 b7)

-- A long form needs its bytes: a decoding that succeeds has them.
needs :
    (b0 v n : ℕ) (bs : List ℕ)
    → decode_varint (b0 ∷ bs) ≡ ok (v, n)
    → (b0 / 2 ^ 6 ≡ 0)
      ⊎ ((b0 / 2 ^ 6 ≡ 1) × (1 ≤ length bs))
      ⊎ ((b0 / 2 ^ 6 ≡ 2) × (3 ≤ length bs))
      ⊎ ((3 ≤ b0 / 2 ^ 6) × (7 ≤ length bs))
unfolding decode_varint
needs b0 v n bs e = ground arith

pub decode_varint-Accepts :
    (b : List ℕ) (v n : ℕ) → Bytes b → decode_varint b ≡ ok (v, n) → Accepts b v n
decode_varint-Accepts [] v n h e = unfold decode_varint in cc
decode_varint-Accepts (b0 ∷ []) v n h e = ground (arith, needs b0 v n [] e, one_Accepts b0 v n [])
decode_varint-Accepts (b0 ∷ b1 ∷ []) v n h e =
    ground (arith, needs b0 v n (b1 ∷ []) e, one_Accepts b0 v n (b1 ∷ []), two_Accepts b0 b1 v n [])
decode_varint-Accepts (b0 ∷ b1 ∷ b2 ∷ []) v n h e = ground (
  arith,
  needs b0 v n (b1 ∷ b2 ∷ []) e,
  one_Accepts b0 v n (b1 ∷ b2 ∷ []),
  two_Accepts b0 b1 v n (b2 ∷ []),
)
decode_varint-Accepts (b0 ∷ b1 ∷ b2 ∷ b3 ∷ []) v n h e = ground (
  arith,
  needs b0 v n (b1 ∷ b2 ∷ b3 ∷ []) e,
  one_Accepts b0 v n (b1 ∷ b2 ∷ b3 ∷ []),
  two_Accepts b0 b1 v n (b2 ∷ b3 ∷ []),
  four_Accepts b0 b1 b2 b3 v n [],
)
decode_varint-Accepts (b0 ∷ b1 ∷ b2 ∷ b3 ∷ b4 ∷ []) v n h e = ground (
  arith,
  needs b0 v n (b1 ∷ b2 ∷ b3 ∷ b4 ∷ []) e,
  one_Accepts b0 v n (b1 ∷ b2 ∷ b3 ∷ b4 ∷ []),
  two_Accepts b0 b1 v n (b2 ∷ b3 ∷ b4 ∷ []),
  four_Accepts b0 b1 b2 b3 v n (b4 ∷ []),
)
decode_varint-Accepts (b0 ∷ b1 ∷ b2 ∷ b3 ∷ b4 ∷ b5 ∷ []) v n h e = ground (
  arith,
  needs b0 v n (b1 ∷ b2 ∷ b3 ∷ b4 ∷ b5 ∷ []) e,
  one_Accepts b0 v n (b1 ∷ b2 ∷ b3 ∷ b4 ∷ b5 ∷ []),
  two_Accepts b0 b1 v n (b2 ∷ b3 ∷ b4 ∷ b5 ∷ []),
  four_Accepts b0 b1 b2 b3 v n (b4 ∷ b5 ∷ []),
)
decode_varint-Accepts (b0 ∷ b1 ∷ b2 ∷ b3 ∷ b4 ∷ b5 ∷ b6 ∷ []) v n h e = ground (
  arith,
  needs b0 v n (b1 ∷ b2 ∷ b3 ∷ b4 ∷ b5 ∷ b6 ∷ []) e,
  one_Accepts b0 v n (b1 ∷ b2 ∷ b3 ∷ b4 ∷ b5 ∷ b6 ∷ []),
  two_Accepts b0 b1 v n (b2 ∷ b3 ∷ b4 ∷ b5 ∷ b6 ∷ []),
  four_Accepts b0 b1 b2 b3 v n (b4 ∷ b5 ∷ b6 ∷ []),
)
decode_varint-Accepts (b0 ∷ b1 ∷ b2 ∷ b3 ∷ b4 ∷ b5 ∷ b6 ∷ b7 ∷ rest) v n h e = ground (
  arith,
  needs b0 v n (b1 ∷ b2 ∷ b3 ∷ b4 ∷ b5 ∷ b6 ∷ b7 ∷ rest) e,
  one_Accepts b0 v n (b1 ∷ b2 ∷ b3 ∷ b4 ∷ b5 ∷ b6 ∷ b7 ∷ rest),
  two_Accepts b0 b1 v n (b2 ∷ b3 ∷ b4 ∷ b5 ∷ b6 ∷ b7 ∷ rest),
  four_Accepts b0 b1 b2 b3 v n (b4 ∷ b5 ∷ b6 ∷ b7 ∷ rest),
  eight_Accepts b0 b1 b2 b3 b4 b5 b6 b7 v n rest,
)

-- Where the decoder succeeds on bytes, the number is at most 2^62 - 1, the bytes read are there, and
-- they are the encoding of the number: no longer form of it is accepted.
pub decode_varint-encode :
    (b : List ℕ) (v n : ℕ)
    → Bytes b
    → decode_varint b ≡ ok (v, n)
    → (v ≤ max_varint) × (n ≤ length b) × (encode_varint v ≡ ok (take n b))
unfolding encode_varint
decode_varint-encode b v n hb e =
    let a = decode_varint-Accepts b v n hb e in
    (a.in_range, a.fits, append_varint-bytes [] v a.in_range ∙ ap ok (sym a.bytes))
