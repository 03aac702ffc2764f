-- ===== src/Packet/Window/Slots.antt =====
-- Single slots of the ring bitmap.
use aurora_core.Common.{
  ℕ, ◌/◌, ◌%◌, ◌^◌, ◌<◌, ◌≡◌, arith, bit_or, List, ◌==◌, if◌then◌else◌, Bool-cases, inl, inr,
  get_or, length, length-set, get_or-set_self, get_or-set_ne,
}
use aurora_core.Common.{set as update}
use aurora_core.Common.Bits.{
  bit, bit-lt, bit-bit_or, bit_two_pow, and_two_pow, and_not, bit-and_not,
}
use native.Mathlib.Nat.{one-le-pow}
use aurora_core.Packet.Window.{ReplayWindow, contains, set_bit, clear_bit}

-- Bit `i` of the bitmap.
unfoldable pub slot : List ℕ → ℕ → ℕ
slot bits i = bit (get_or bits (i / 64) 0) (i % 64)

pub contains-slot : (w : ReplayWindow) (n k : ℕ) → contains w n k ≡ (slot w.bits (n % k) == 1)
unfolding contains slot
contains-slot w n k = ground (
  arith,
  and_two_pow (n % k % 64) (get_or w.bits (n % k / 64) 0),
  bit-lt (get_or w.bits (n % k / 64) 0) (n % k % 64),
  one-le-pow (n % k % 64) 2,
)

pub length-set_bit : (bits : List ℕ) (i : ℕ) → length (set_bit bits i) ≡ length bits
unfolding set_bit
length-set_bit bits i = length-set bits (i / 64) _

pub length-clear_bit : (bits : List ℕ) (i : ℕ) → length (clear_bit bits i) ≡ length bits
unfolding clear_bit
length-clear_bit bits i = length-set bits (i / 64) _

-- A word is written where a slot of it changes: two slots of one word, or of two.
get_or-set :
    (bits : List ℕ) (i j v : ℕ)
    → i < length bits
    → get_or (update bits i v) j 0 ≡ (if i == j then v else get_or bits j 0)
get_or-set bits i j v h = elim (Bool-cases (i == j)) [
  | inl same ↦ ground (arith, get_or-set_self bits i v 0 h, same)
  | inr other ↦ ground (arith, get_or-set_ne bits i j v 0 (ground (arith, other)), other)
]

pub slot-set_bit :
    (bits : List ℕ) (i j : ℕ)
    → i / 64 < length bits
    → slot (set_bit bits i) j ≡ (if i == j then 1 else slot bits j)
unfolding slot set_bit
slot-set_bit bits i j h =
    let w = get_or bits (i / 64) 0 in
    ground (
      arith,
      get_or-set bits (i / 64) (j / 64) (bit_or w (2 ^ (i % 64))) h,
      bit-bit_or w (2 ^ (i % 64)) (j % 64),
      bit_two_pow (i % 64) (j % 64),
      bit-lt w (j % 64),
      bit-lt (get_or bits (j / 64) 0) (j % 64),
    )

pub slot-clear_bit :
    (bits : List ℕ) (i j : ℕ)
    → i / 64 < length bits
    → slot (clear_bit bits i) j ≡ (if i == j then 0 else slot bits j)
unfolding slot clear_bit
slot-clear_bit bits i j h =
    let w = get_or bits (i / 64) 0 in
    ground (
      arith,
      get_or-set bits (i / 64) (j / 64) (and_not w (2 ^ (i % 64))) h,
      bit-and_not w (2 ^ (i % 64)) (j % 64),
      bit_two_pow (i % 64) (j % 64),
      bit-lt w (j % 64),
      bit-lt (get_or bits (j / 64) 0) (j % 64),
    )
