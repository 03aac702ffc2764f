-- ===== src/Crypto/Aead/Nonce.antt =====
-- crypto/aead.go: under one static IV, different packet numbers have different nonces.
use aurora_core.Common.{
  ℕ, zero, suc, ◌+◌, ◌*◌, ◌-◌, ◌/◌, ◌^◌, ◌≤◌, ◌<◌, ◌≡◌, ◌≢◌, bit_xor, refl, sym, ap, ◌∙◌, arith,
  List, ◌==◌, length, length-set, get_or, get_or-set_self, get_or-set_ne, Bool-cases, inl, inr,
}
use aurora_core.Common.Bits.{xor_cancel}
use aurora_core.Common.Words.{byte}
use aurora_core.Errors.{ok}
use aurora_core.Crypto.Aead.{xor_bytes, xor_nonce96}

pub length-xor_bytes : (k : ℕ) (out : List ℕ) (n : ℕ) → length (xor_bytes k out n) ≡ length out
unfolding xor_bytes
length-xor_bytes zero out n = refl
length-xor_bytes (suc i) out n =
    length-set (xor_bytes i out n) (length out - 1 - i) _ ∙ length-xor_bytes i out n

-- Rounds leave the bytes alone that no round is for.
xor_bytes_keeps :
    (k i : ℕ) (out : List ℕ) (n : ℕ)
    → k ≤ i
    → i < length out
    → get_or (xor_bytes k out n) (length out - 1 - i) 0 ≡ get_or out (length out - 1 - i) 0
unfolding xor_bytes
xor_bytes_keeps zero i out n h g = refl
xor_bytes_keeps (suc k) i out n h g =
    let ne : length out - 1 - k ≢ length out - 1 - i = λ e. omega arith in
    get_or-set_ne (xor_bytes k out n) (length out - 1 - k) (length out - 1 - i) _ 0 ne
    ∙ xor_bytes_keeps k i out n (omega arith) g

get_or-xor_bytes :
    (k i : ℕ) (out : List ℕ) (n : ℕ)
    → i < k
    → k ≤ length out
    → get_or (xor_bytes k out n) (length out - 1 - i) 0
      ≡ bit_xor (get_or out (length out - 1 - i) 0) (byte (n / 2 ^ (8 * i)))
unfolding xor_bytes
get_or-xor_bytes zero i out n h g = elim h [ ]
get_or-xor_bytes (suc k) i out n h g = elim (Bool-cases (i == k)) [
  | inl same ↦
      let e : i ≡ k = ground arith in
      rw e (
        get_or-set_self (xor_bytes k out n) (length out - 1 - k) _ 0
          (omega (arith, length-xor_bytes k out n))
        ∙ ap (λ (v : ℕ). bit_xor v (byte (n / 2 ^ (8 * k))))
            (xor_bytes_keeps k k out n (omega arith) (omega arith)))
  | inr other ↦
      let ne : length out - 1 - k ≢ length out - 1 - i = λ e. ground (arith, other, e) in
      get_or-set_ne (xor_bytes k out n) (length out - 1 - k) (length out - 1 - i) _ 0 ne
      ∙ get_or-xor_bytes k i out n (ground (arith, other)) (omega arith)
]

byte_of :
    (iv : List ℕ) (m n i : ℕ)
    → i < 8
    → length iv ≡ 12
    → xor_bytes 8 iv m ≡ xor_bytes 8 iv n
    → byte (m / 2 ^ (8 * i)) ≡ byte (n / 2 ^ (8 * i))
byte_of iv m n i h l e =
    let a = get_or iv (length iv - 1 - i) 0 in
    let p = byte (m / 2 ^ (8 * i)) in
    let q = byte (n / 2 ^ (8 * i)) in
    xor_cancel (a + 256) a p q (omega arith) (omega arith) (omega arith) (
      sym (get_or-xor_bytes 8 i iv m h (omega arith))
      ∙ ap (λ (b : List ℕ). get_or b (length iv - 1 - i) 0) e
      ∙ get_or-xor_bytes 8 i iv n h (omega arith))

-- Two packet numbers of 64 bits that give the same nonce under one static IV are the same number.
pub xor_nonce96_injective :
    (static_iv nonce : List ℕ) (m n : ℕ)
    → m < 2 ^ 64
    → n < 2 ^ 64
    → xor_nonce96 static_iv m ≡ ok nonce
    → xor_nonce96 static_iv n ≡ ok nonce
    → m ≡ n
unfolding xor_nonce96
xor_nonce96_injective iv nonce m n p q e f =
    let l : length iv ≡ 12 = ground (arith, e) in
    let s : xor_bytes 8 iv m ≡ xor_bytes 8 iv n = ground (arith, e, f) in
    omega (
      arith,
      byte_of iv m n 0 (omega arith) l s,
      byte_of iv m n 1 (omega arith) l s,
      byte_of iv m n 2 (omega arith) l s,
      byte_of iv m n 3 (omega arith) l s,
      byte_of iv m n 4 (omega arith) l s,
      byte_of iv m n 5 (omega arith) l s,
      byte_of iv m n 6 (omega arith) l s,
      byte_of iv m n 7 (omega arith) l s,
    )
