-- ===== src/Packet/Window/Ring.antt =====
-- Advancing the ring: which slots it clears, and which it keeps.
use aurora_core.Common.{
  ℕ, zero, suc, ◌+◌, ◌-◌, ◌*◌, ◌/◌, ◌%◌, ◌≤◌, ◌<◌, ◌≡◌, ◌≢◌, refl, sym, ap, ◌∙◌, arith, List, leb,
  ◌==◌, if◌then◌else◌, Bool-cases, inl, inr, length, replicate, get_or-replicate, length-replicate,
  leb→le,
}
use aurora_core.Common.Bits.{bit, bit-zero}
use native.Mathlib.Nat.{mul-le-mul_right, mod-lt, div-add-mod, mul_comm}
use aurora_core.Packet.Window.{ReplayWindow, set, clear_bit, clear_slots, advance}
use aurora_core.Packet.Window.Slots.{
  slot, length-set_bit, length-clear_bit, slot-set_bit, slot-clear_bit,
}

quotient_le : (k m n : ℕ) → m - n < k → m % k ≡ n % k → m / k ≤ n / k
quotient_le k m n h e = elim (Bool-cases (leb (m / k) (n / k))) [
  | inl at_most ↦ leb→le (m / k) (n / k) at_most
  | inr above ↦ absurd (
      let over : n / k + 1 ≤ m / k = ground (arith, above) in
      omega (
        arith,
        mul-le-mul_right k over,
        div-add-mod m k,
        div-add-mod n k,
        mul_comm k (m / k),
        mul_comm k (n / k),
      ))
]

-- Two numbers less than a ring apart share a slot only if they are equal.
pub share_slot : (k m n : ℕ) → m - n < k → n - m < k → m % k ≡ n % k → m ≡ n
share_slot k m n h g e =
    let q : m / k ≡ n / k = ground (arith, quotient_le k m n h e, quotient_le k n m g (sym e)) in
    omega (arith, ap (λ (q : ℕ). k * q) q, div-add-mod m k, div-add-mod n k)

pub index_in_range : (k n l : ℕ) → 0 < k → k ≤ 64 * l → n % k / 64 < l
index_in_range k n l h g = omega (arith, mod-lt (n % k) h, mod-lt n h)

pub length-clear_slots : (c n k : ℕ) (bits : List ℕ) → length (clear_slots c n k bits) ≡ length bits
unfolding clear_slots
length-clear_slots zero n k bits = refl
length-clear_slots (suc c) n k bits =
    length-clear_slots c (n + 1) k (clear_bit bits (n % k)) ∙ length-clear_bit bits (n % k)

pub clear_slots_keeps :
    (c n k j : ℕ) (bits : List ℕ)
    → 0 < k
    → k ≤ 64 * length bits
    → ((i : ℕ) → n ≤ i → i < n + c → i % k ≢ j)
    → slot (clear_slots c n k bits) j ≡ slot bits j
unfolding clear_slots
clear_slots_keeps zero n k j bits h g o = refl
clear_slots_keeps (suc c) n k j bits h g o =
    let rest =
      clear_slots_keeps c (n + 1) k j (clear_bit bits (n % k)) h
        (omega (arith, length-clear_bit bits (n % k))) (λ i a b. o i (omega arith) (omega arith)) in
    ground (
      arith,
      rest,
      slot-clear_bit bits (n % k) j (index_in_range k n (length bits) h g),
      o n (omega arith) (omega arith),
    )

pub clear_slots_clears :
    (c n k i : ℕ) (bits : List ℕ)
    → 0 < k
    → k ≤ 64 * length bits
    → n ≤ i
    → i < n + c
    → c ≤ k
    → slot (clear_slots c n k bits) (i % k) ≡ 0
unfolding clear_slots
clear_slots_clears zero n k i bits h g a b r = ground arith
clear_slots_clears (suc c) n k i bits h g a b r =
    let bits' = clear_bit bits (n % k) in
    let g' : k ≤ 64 * length bits' = omega (arith, length-clear_bit bits (n % k)) in
    elim (Bool-cases (n == i)) [
      | inl same ↦
          let e : n ≡ i = ground arith in
          clear_slots_keeps c (n + 1) k (i % k) bits' h g'
            (λ m p q s. absurd (omega (arith, share_slot k m i (omega arith) (omega arith) s)))
          ∙ ground
              (arith, e, slot-clear_bit bits (n % k) (i % k) (index_in_range k n (length bits) h g))
      | inr other ↦
          clear_slots_clears c (n + 1) k i bits' h g' (ground arith) (omega arith) (omega arith)
    ]

pub length-advance : (w : ReplayWindow) (n k : ℕ) → length (advance w n k).bits ≡ length w.bits
unfolding advance
length-advance w n k = ground (
  arith,
  length-replicate {A = ℕ} (length w.bits) 0,
  length-clear_slots (n - w.highest) (w.highest + 1) k w.bits,
)

pub slot-replicate : (l j : ℕ) → slot (replicate l 0) j ≡ 0
unfolding slot
slot-replicate l j =
    ap (λ (v : ℕ). bit v (j % 64)) (get_or-replicate l (j / 64) 0) ∙ bit-zero (j % 64)

-- Of the ring that ends at the new highest number, an advance keeps the slots up to the old one.
pub slot-advance :
    (w : ReplayWindow) (n k m : ℕ)
    → 0 < k
    → k ≤ 64 * length w.bits
    → w.highest < n
    → m ≤ n
    → n - m < k
    → slot (advance w n k).bits (m % k) ≡ (if leb m w.highest then slot w.bits (m % k) else 0)
unfolding advance
slot-advance w n k m p g h le near =
    let c = n - w.highest in
    elim (Bool-cases (leb k c)) [
      | inl far ↦ ground (arith, slot-replicate (length w.bits) (m % k))
      | inr close ↦ elim (Bool-cases (leb m w.highest)) [
        | inl old ↦
            let o : m ≤ w.highest = leb→le m w.highest old in
            ground (
              arith,
              clear_slots_keeps c (w.highest + 1) k (m % k) w.bits p g (λ i a b e.
                  absurd (omega (arith, share_slot k i m (omega arith) (omega arith) e))),
            )
        | inr new ↦
            let o : w.highest + 1 ≤ m = ground (arith, new) in
            let r : c ≤ k = ground (arith, close) in
            ground (arith, clear_slots_clears c (w.highest + 1) k m w.bits p g o (omega arith) r)
      ]
    ]

pub slot-set :
    (w : ReplayWindow) (n k m : ℕ)
    → 0 < k
    → k ≤ 64 * length w.bits
    → m - n < k
    → n - m < k
    → slot (set w n k).bits (m % k) ≡ (if n == m then 1 else slot w.bits (m % k))
unfolding set
slot-set w n k m p g a b =
    let step = slot-set_bit w.bits (n % k) (m % k) (index_in_range k n (length w.bits) p g) in
    elim (Bool-cases (n % k == m % k)) [
      | inl same ↦
          let e : n ≡ m = share_slot k n m b a (ground (arith, same)) in ground (arith, step)
      | inr other ↦ ground (arith, step)
    ]

pub length-set_window : (w : ReplayWindow) (n k : ℕ) → length (set w n k).bits ≡ length w.bits
unfolding set
length-set_window w n k = length-set_bit w.bits (n % k)
