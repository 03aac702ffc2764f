-- ===== src/Common/Words.antt =====
-- Fixed-width words as native numbers: Go's conversions and shifts, and the big-endian
-- combinations `b0<<8 | b1 | ...` of bytes that the decoders compute.
use Prim.Native.Nat.{ℕ, ◌+◌, ◌*◌, ◌/◌, ◌%◌, ◌^◌, ◌<◌, bit_or}
use mathlib.Core.Path.{◌≡◌, ◌∙◌}
use mathlib.Core.List.{List, [], ◌∷◌}
use native.Mathlib.Omega.{arith}
use aurora_core.Common.Bits.{or_shifted}
use aurora_core.Common.Lists.{All}

-- Go's `byte(x)`, `x >> k`, and `x << k` in a word of `w` bits.
abbrev pub byte : ℕ → ℕ
byte x = x % 2 ^ 8

abbrev pub shr : ℕ → ℕ → ℕ
shr x k = x / 2 ^ k

abbrev pub shl : ℕ → ℕ → ℕ → ℕ
shl w x k = x * 2 ^ k % 2 ^ w

abbrev pub IsByte : ℕ → Type 0
IsByte b = b < 2 ^ 8

abbrev pub Bytes : List ℕ → Type 0
Bytes = All IsByte

-- `b0<<8 | b1` and its longer kin, in a word of `w` bits.
unfoldable pub join2 : ℕ → ℕ → ℕ → ℕ
join2 w b0 b1 = bit_or (shl w b0 8) b1

unfoldable pub join3 : ℕ → ℕ → ℕ → ℕ → ℕ
join3 w b0 b1 b2 = bit_or (bit_or (shl w b0 16) (shl w b1 8)) b2

unfoldable pub join4 : ℕ → ℕ → ℕ → ℕ → ℕ → ℕ
join4 w b0 b1 b2 b3 = bit_or (bit_or (bit_or (shl w b0 24) (shl w b1 16)) (shl w b2 8)) b3

unfoldable pub join8 : ℕ → ℕ → ℕ → ℕ → ℕ → ℕ → ℕ → ℕ → ℕ → ℕ
join8 w b0 b1 b2 b3 b4 b5 b6 b7 =
    let hi = bit_or (bit_or (bit_or (shl w b0 56) (shl w b1 48)) (shl w b2 40)) (shl w b3 32) in
    bit_or (bit_or (bit_or (bit_or hi (shl w b4 24)) (shl w b5 16)) (shl w b6 8)) b7

-- A field joined below a multiple of `2 ^ k` adds.
or_sum : (k y x b : ℕ) → x ≡ y * 2 ^ k → b < 2 ^ k → bit_or x b ≡ x + b
or_sum k y x b e h = rw e (or_shifted k y b h)

-- The same with the sum written out.
or_total : (k y x b t : ℕ) → x ≡ y * 2 ^ k → b < 2 ^ k → x + b ≡ t → bit_or x b ≡ t
or_total k y x b t e h f = or_sum k y x b e h ∙ f

-- Big-endian numbers of two to eight bytes.
abbrev pub be2 : ℕ → ℕ → ℕ
be2 b0 b1 = b0 * 2 ^ 8 + b1

abbrev pub be4 : ℕ → ℕ → ℕ → ℕ → ℕ
be4 b0 b1 b2 b3 = be2 b0 b1 * 2 ^ 16 + be2 b2 b3

abbrev pub be8 : ℕ → ℕ → ℕ → ℕ → ℕ → ℕ → ℕ → ℕ → ℕ
be8 b0 b1 b2 b3 b4 b5 b6 b7 = be4 b0 b1 b2 b3 * 2 ^ 32 + be4 b4 b5 b6 b7

pub join2-16 : (b0 b1 : ℕ) → IsByte b0 → IsByte b1 → join2 16 b0 b1 ≡ be2 b0 b1
unfolding join2
join2-16 b0 b1 h0 h1 = or_total 8 b0 _ b1 _ (omega arith) h1 (omega arith)

pub join2-64 : (b0 b1 : ℕ) → IsByte b0 → IsByte b1 → join2 64 b0 b1 ≡ be2 b0 b1
unfolding join2
join2-64 b0 b1 h0 h1 = or_total 8 b0 _ b1 _ (omega arith) h1 (omega arith)

pub join3-32 :
    (b0 b1 b2 : ℕ) → IsByte b0 → IsByte b1 → IsByte b2 → join3 32 b0 b1 b2 ≡ be2 b0 b1 * 2 ^ 8 + b2
unfolding join3
join3-32 b0 b1 b2 h0 h1 h2 =
    let s : bit_or (shl 32 b0 16) (shl 32 b1 8) ≡ be2 b0 b1 * 2 ^ 8 =
      or_total 16 b0 (shl 32 b0 16) (shl 32 b1 8) _ (omega arith) (omega arith) (omega arith) in
    or_total 8 (be2 b0 b1) _ b2 _ s h2 (omega (arith, s))

-- The two halves of `join4`, in a word that has room for the bytes.
join4_from :
    (w b0 b1 b2 b3 : ℕ)
    → shl w b0 24 ≡ b0 * 2 ^ 24
    → shl w b1 16 ≡ b1 * 2 ^ 16
    → shl w b2 8 ≡ b2 * 2 ^ 8
    → IsByte b1
    → IsByte b2
    → IsByte b3
    → join4 w b0 b1 b2 b3 ≡ be4 b0 b1 b2 b3
unfolding join4
join4_from w b0 b1 b2 b3 e0 e1 e2 h1 h2 h3 =
    rw (e0, e1, e2)
      (let s : bit_or (b0 * 2 ^ 24) (b1 * 2 ^ 16) ≡ be2 b0 b1 * 2 ^ 16 =
          or_total 24 b0 (b0 * 2 ^ 24) (b1 * 2 ^ 16) _ (omega arith) (omega arith) (omega arith) in
        let t : bit_or (bit_or (b0 * 2 ^ 24) (b1 * 2 ^ 16)) (b2 * 2 ^ 8)
            ≡ (be2 b0 b1 * 2 ^ 8 + b2) * 2 ^ 8 =
          or_total 16 (be2 b0 b1) _ (b2 * 2 ^ 8) _ s (omega arith) (omega (arith, s)) in
        or_total 8 (be2 b0 b1 * 2 ^ 8 + b2) _ b3 _ t h3 (omega (arith, t)))

pub join4-32 :
    (b0 b1 b2 b3 : ℕ)
    → IsByte b0
    → IsByte b1
    → IsByte b2
    → IsByte b3
    → join4 32 b0 b1 b2 b3 ≡ be4 b0 b1 b2 b3
join4-32 b0 b1 b2 b3 h0 h1 h2 h3 =
    join4_from 32 b0 b1 b2 b3 (omega arith) (omega arith) (omega arith) h1 h2 h3

pub join4-64 :
    (b0 b1 b2 b3 : ℕ)
    → IsByte b0
    → IsByte b1
    → IsByte b2
    → IsByte b3
    → join4 64 b0 b1 b2 b3 ≡ be4 b0 b1 b2 b3
join4-64 b0 b1 b2 b3 h0 h1 h2 h3 =
    join4_from 64 b0 b1 b2 b3 (omega arith) (omega arith) (omega arith) h1 h2 h3

-- The upper half of `join8`, with the lower bytes still to come.
join8_upper :
    (b0 b1 b2 b3 : ℕ)
    → IsByte b0
    → IsByte b1
    → IsByte b2
    → IsByte b3
    → bit_or (bit_or (bit_or (shl 64 b0 56) (shl 64 b1 48)) (shl 64 b2 40)) (shl 64 b3 32)
      ≡ be4 b0 b1 b2 b3 * 2 ^ 32
join8_upper b0 b1 b2 b3 h0 h1 h2 h3 =
    let s : bit_or (shl 64 b0 56) (shl 64 b1 48) ≡ be2 b0 b1 * 2 ^ 48 =
      or_total 56 b0 _ (shl 64 b1 48) _ (omega arith) (omega arith) (omega arith) in
    let t : bit_or (bit_or (shl 64 b0 56) (shl 64 b1 48)) (shl 64 b2 40)
        ≡ (be2 b0 b1 * 2 ^ 8 + b2) * 2 ^ 40 =
      or_total 48 (be2 b0 b1) _ (shl 64 b2 40) _ s (omega arith) (omega (arith, s)) in
    or_total 40 (be2 b0 b1 * 2 ^ 8 + b2) _ (shl 64 b3 32) _ t (omega arith) (omega (arith, t))

join8_lower :
    (hi x b4 b5 b6 b7 : ℕ)
    → x ≡ hi * 2 ^ 32
    → IsByte b4
    → IsByte b5
    → IsByte b6
    → IsByte b7
    → bit_or (bit_or (bit_or (bit_or x (shl 64 b4 24)) (shl 64 b5 16)) (shl 64 b6 8)) b7
      ≡ hi * 2 ^ 32 + be4 b4 b5 b6 b7
join8_lower hi x b4 b5 b6 b7 e h4 h5 h6 h7 =
    let s : bit_or x (shl 64 b4 24) ≡ (hi * 2 ^ 8 + b4) * 2 ^ 24 =
      or_total 32 hi x (shl 64 b4 24) _ e (omega arith) (omega arith) in
    let t : bit_or (bit_or x (shl 64 b4 24)) (shl 64 b5 16) ≡ (hi * 2 ^ 16 + be2 b4 b5) * 2 ^ 16 =
      or_total 24 (hi * 2 ^ 8 + b4) _ (shl 64 b5 16) _ s (omega arith) (omega (arith, s)) in
    let u : bit_or (bit_or (bit_or x (shl 64 b4 24)) (shl 64 b5 16)) (shl 64 b6 8)
        ≡ (hi * 2 ^ 24 + be2 b4 b5 * 2 ^ 8 + b6) * 2 ^ 8 =
      or_total 16 (hi * 2 ^ 16 + be2 b4 b5) _ (shl 64 b6 8) _ t (omega arith) (omega (arith, t)) in
    or_total 8 (hi * 2 ^ 24 + be2 b4 b5 * 2 ^ 8 + b6) _ b7 _ u h7 (omega (arith, u))

pub join8-64 :
    (b0 b1 b2 b3 b4 b5 b6 b7 : ℕ)
    → Bytes (b0 ∷ b1 ∷ b2 ∷ b3 ∷ b4 ∷ b5 ∷ b6 ∷ b7 ∷ [])
    → join8 64 b0 b1 b2 b3 b4 b5 b6 b7 ≡ be8 b0 b1 b2 b3 b4 b5 b6 b7
unfolding join8
join8-64 b0 b1 b2 b3 b4 b5 b6 b7 (h0, (h1, (h2, (h3, (h4, (h5, (h6, (h7, _)))))))) =
    join8_lower (be4 b0 b1 b2 b3) _ b4 b5 b6 b7 (join8_upper b0 b1 b2 b3 h0 h1 h2 h3) h4 h5 h6 h7
