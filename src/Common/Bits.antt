-- ===== src/Common/Bits.antt =====
-- The native bit operations at variables: a law for the lowest digit, the single bits of a result,
-- and shifted fields as sums.
use Prim.Native.Nat.{
  ℕ, zero, suc, ◌+◌, ◌-◌, ◌*◌, ◌/◌, ◌%◌, ◌^◌, ◌≤◌, ◌<◌, min, max, digits, bitwise, differ, bit_and,
  bit_or, bit_xor, bit_and-bitwise, bit_or-bitwise, bit_xor-bitwise,
}
use mathlib.Core.Path.{◌≡◌, refl, ap, ◌∙◌}
use native.Mathlib.Nat.{pow-suc, one-le-pow}
use native.Mathlib.Omega.{arith}
use aurora_core.Common.Tests.{◌==◌, if◌then◌else◌}

differ-lt : (a b : ℕ) → a < 2 → b < 2 → differ a b < 2
differ-lt zero b p q = q
differ-lt (suc a) zero p q = p
differ-lt (suc a) (suc zero) p q = ground arith
differ-lt (suc a) (suc (suc b)) p q = absurd (omega arith)

differ-min : (a b : ℕ) → a < 2 → b < 2 → differ a (min a b) ≡ a - b
differ-min zero b p q = omega arith
differ-min (suc zero) zero p q = refl
differ-min (suc zero) (suc zero) p q = refl
differ-min (suc zero) (suc (suc b)) p q = absurd (omega arith)
differ-min (suc (suc a)) b p q = absurd (omega arith)

-- The fuel of the digit recursion does not matter once it covers the left number.
module _ (z : ℕ → ℕ) (f : ℕ → ℕ → ℕ) where
  digits_enough : (n m x y : ℕ) → x ≤ n → x ≤ m → digits z f n x y ≡ digits z f m x y
  digits_enough zero zero x y p q = refl
  digits_enough (suc n) zero zero y p q = refl
  digits_enough (suc n) zero (suc x) y p q = absurd (omega arith)
  digits_enough zero (suc m) zero y p q = refl
  digits_enough zero (suc m) (suc x) y p q = absurd (omega arith)
  digits_enough (suc n) (suc m) zero y p q = refl
  digits_enough (suc n) (suc m) (suc x) y p q =
      rw (digits_enough n m (suc x / 2) (y / 2) (omega arith) (omega arith))

  bitwise_digit :
      (x y : ℕ)
      → bitwise z f (suc x) y ≡ bitwise z f (suc x / 2) (y / 2) * 2 + f (suc x % 2) (y % 2)
  bitwise_digit x y =
      omega (arith, digits_enough x (suc x / 2) (suc x / 2) (y / 2) (omega arith) (omega arith))

pub bit_or_digit : (a b : ℕ) → bit_or a b ≡ bit_or (a / 2) (b / 2) * 2 + max (a % 2) (b % 2)
bit_or_digit zero b = simp bit_or-bitwise (omega arith)
bit_or_digit (suc a) b = simp bit_or-bitwise (bitwise_digit (λ y. y) max a b)

pub bit_and_digit : (a b : ℕ) → bit_and a b ≡ bit_and (a / 2) (b / 2) * 2 + min (a % 2) (b % 2)
bit_and_digit zero b = simp bit_and-bitwise (omega arith)
bit_and_digit (suc a) b = simp bit_and-bitwise (bitwise_digit (λ y. 0) min a b)

pub bit_xor_digit : (a b : ℕ) → bit_xor a b ≡ bit_xor (a / 2) (b / 2) * 2 + differ (a % 2) (b % 2)
bit_xor_digit zero b = simp bit_xor-bitwise (omega arith)
bit_xor_digit (suc a) b = simp bit_xor-bitwise (bitwise_digit (λ y. y) differ a b)

pub bit_and-zero : (n a : ℕ) → a ≤ n → bit_and a 0 ≡ 0
bit_and-zero n zero h = omega (arith, bit_and-bitwise 0 0)
bit_and-zero zero (suc a) h = absurd (omega arith)
bit_and-zero (suc n) (suc a) h =
    omega (arith, bit_and_digit (suc a) 0, bit_and-zero n (suc a / 2) (omega arith))

bit_or-zero : (n a : ℕ) → a ≤ n → bit_or a 0 ≡ a
bit_or-zero n zero h = omega (arith, bit_or-bitwise 0 0)
bit_or-zero zero (suc a) h = absurd (omega arith)
bit_or-zero (suc n) (suc a) h =
    omega (arith, bit_or_digit (suc a) 0, bit_or-zero n (suc a / 2) (omega arith))

zero-bit_or : (a : ℕ) → bit_or 0 a ≡ a
zero-bit_or a = bit_or-bitwise 0 a

-- Twice as wide: a field of `k + 1` bits is a field of `k` bits and a digit.
field_width : (a k : ℕ) → a * 2 ^ suc k ≡ 2 * (a * 2 ^ k)
field_width a k = omega (arith, ap (λ (t : ℕ). a * t) (pow-suc 2 k))

-- `(a << k) | b` is a sum where `b` has at most `k` bits, and so is `b | (a << k)`.
pub or_shifted : (k a b : ℕ) → b < 2 ^ k → bit_or (a * 2 ^ k) b ≡ a * 2 ^ k + b
or_shifted zero a b h = ground (arith, bit_or-zero a a)
or_shifted (suc k) a b h = ground (
  arith,
  bit_or_digit (a * 2 ^ suc k) b,
  field_width a k,
  pow-suc 2 k,
  or_shifted k a (b / 2) (omega (arith, pow-suc 2 k)),
)

pub shifted_or : (k a b : ℕ) → b < 2 ^ k → bit_or b (a * 2 ^ k) ≡ a * 2 ^ k + b
shifted_or zero a b h = ground (arith, zero-bit_or a)
shifted_or (suc k) a b h = ground (
  arith,
  bit_or_digit b (a * 2 ^ suc k),
  field_width a k,
  pow-suc 2 k,
  shifted_or k a (b / 2) (omega (arith, pow-suc 2 k)),
)

-- `a & (2^k - 1)` keeps the low `k` bits.
pub and_low : (k q b : ℕ) → b < 2 ^ k → bit_and (q * 2 ^ k + b) (2 ^ k - 1) ≡ b
and_low zero q b h = ground (arith, bit_and-zero (q + b) (q + b), bit_and-zero q q)
and_low (suc k) q b h = ground (
  arith,
  bit_and_digit (q * 2 ^ suc k + b) (2 ^ suc k - 1),
  field_width q k,
  pow-suc 2 k,
  one-le-pow k 2,
  and_low k q (b / 2) (omega (arith, pow-suc 2 k)),
)

-- Bit `k` of a word.
pub bit : ℕ → ℕ → ℕ
bit w zero = w % 2
bit w (suc k) = bit (w / 2) k

pub bit-lt : (w k : ℕ) → bit w k < 2
unfolding bit
bit-lt w zero = omega arith
bit-lt w (suc k) = bit-lt (w / 2) k

pub bit-zero : (k : ℕ) → bit 0 k ≡ 0
unfolding bit
bit-zero zero = refl
bit-zero (suc k) = bit-zero k

pub bit-bit_or : (a b k : ℕ) → bit (bit_or a b) k ≡ max (bit a k) (bit b k)
unfolding bit
bit-bit_or a b zero = omega (arith, bit_or_digit a b)
bit-bit_or a b (suc k) =
    let half : bit_or a b / 2 ≡ bit_or (a / 2) (b / 2) = omega (arith, bit_or_digit a b) in
    rw half (bit-bit_or (a / 2) (b / 2) k)

pub bit-bit_and : (a b k : ℕ) → bit (bit_and a b) k ≡ min (bit a k) (bit b k)
unfolding bit
bit-bit_and a b zero = omega (arith, bit_and_digit a b)
bit-bit_and a b (suc k) =
    let half : bit_and a b / 2 ≡ bit_and (a / 2) (b / 2) = omega (arith, bit_and_digit a b) in
    rw half (bit-bit_and (a / 2) (b / 2) k)

pub bit-bit_xor : (a b k : ℕ) → bit (bit_xor a b) k ≡ differ (bit a k) (bit b k)
unfolding bit
bit-bit_xor a b zero =
    omega (arith, bit_xor_digit a b, differ-lt (a % 2) (b % 2) (omega arith) (omega arith))
bit-bit_xor a b (suc k) =
    let half : bit_xor a b / 2 ≡ bit_xor (a / 2) (b / 2) =
      omega (arith, bit_xor_digit a b, differ-lt (a % 2) (b % 2) (omega arith) (omega arith)) in
    rw half (bit-bit_xor (a / 2) (b / 2) k)

pub bit_two_pow : (k j : ℕ) → bit (2 ^ k) j ≡ (if k == j then 1 else 0)
unfolding bit
bit_two_pow zero zero = refl
bit_two_pow zero (suc j) = ground (arith, bit-zero j)
bit_two_pow (suc k) zero = ground (arith, pow-suc 2 k)
bit_two_pow (suc k) (suc j) =
    let half : 2 ^ suc k / 2 ≡ 2 ^ k = omega (arith, pow-suc 2 k) in
    rw half (ground (arith, bit_two_pow k j))

-- Go's test `w & (1 << k) != 0` reads bit `k`.
pub and_two_pow : (k w : ℕ) → bit_and w (2 ^ k) ≡ bit w k * 2 ^ k
unfolding bit
and_two_pow zero w = omega (arith, bit_and_digit w 1, bit_and-zero (w / 2) (w / 2) (omega arith))
and_two_pow (suc k) w =
    let half : 2 ^ suc k / 2 ≡ 2 ^ k = omega (arith, pow-suc 2 k) in
    let even : 2 ^ suc k % 2 ≡ 0 = omega (arith, pow-suc 2 k) in
    bit_and_digit w (2 ^ suc k)
    ∙ rw (half, even, and_two_pow k (w / 2), field_width (bit (w / 2) k) k) (omega arith)

-- Go's `a &^ b`.
abbrev pub and_not : ℕ → ℕ → ℕ
and_not a b = bit_xor a (bit_and a b)

pub bit-and_not : (a b k : ℕ) → bit (and_not a b) k ≡ bit a k - bit b k
bit-and_not a b k =
    rw (bit-bit_xor a (bit_and a b) k, bit-bit_and a b k)
      (differ-min (bit a k) (bit b k) (bit-lt a k) (bit-lt b k))

differ_cancel : (a x y : ℕ) → a < 2 → x < 2 → y < 2 → differ a x ≡ differ a y → x ≡ y
differ_cancel zero x y p q r e = e
differ_cancel (suc a) zero zero p q r e = refl
differ_cancel (suc a) zero (suc y) p q r e = ground (arith, e)
differ_cancel (suc a) (suc x) zero p q r e = ground (arith, e)
differ_cancel (suc a) (suc x) (suc y) p q r e = omega arith

-- The same number joined by xor gives different results for different numbers.
pub xor_cancel : (n a x y : ℕ) → a ≤ n → x ≤ n → y ≤ n → bit_xor a x ≡ bit_xor a y → x ≡ y
xor_cancel zero a x y p q r e = omega arith
xor_cancel (suc n) a x y p q r e =
    let dx = bit_xor_digit a x in
    let dy = bit_xor_digit a y in
    let lx = differ-lt (a % 2) (x % 2) (omega arith) (omega arith) in
    let ly = differ-lt (a % 2) (y % 2) (omega arith) (omega arith) in
    let halves : x / 2 ≡ y / 2 =
      xor_cancel n (a / 2) (x / 2) (y / 2) (omega arith) (omega arith) (omega arith)
        (omega (arith, dx, dy, lx, ly, e)) in
    let low : x % 2 ≡ y % 2 =
      differ_cancel (a % 2) (x % 2) (y % 2) (omega arith) (omega arith) (omega arith)
        (omega (arith, dx, dy, lx, ly, e)) in
    omega arith
