-- ===== src/Packet/Window.antt =====
-- packet/receiver.go: the replay window, a ring bitmap over 64-bit words. Bit `n % windowBits`
-- records packet number `n`. An index is always inside the bitmap (Window.Slots), so `get_or` and
-- `set` meet no index out of range. Packet numbers are below 2^64 and `highest + offset` does not pass
-- the new highest number, so no sum wraps.
pub mod Slots
pub mod Ring
pub mod Refinement
use aurora_core.Common.{
  ℕ, zero, suc, ◌+◌, ◌-◌, ◌/◌, ◌%◌, ◌^◌, bit_and, bit_or, Bool, true, false, not, Option, none,
  some, List, [], ◌∷◌, ltb, leb, ◌==◌, if◌then◌else◌, get_or, replicate, length,
}
use aurora_core.Common.{set as update}
use aurora_core.Common.Bits.{and_not}
use aurora_core.Errors.{Error, Result, ok, fail, outside_receiver_window, duplicate_packet_number}

pub record ReplayWindow : Type 0 where
  pub highest : ℕ
  pub bits : List ℕ

unfoldable pub contains : ReplayWindow → ℕ → ℕ → Bool
contains w packet_number window_bits =
    let index = packet_number % window_bits in
    not (bit_and (get_or w.bits (index / 64) 0) (2 ^ (index % 64)) == 0)

unfoldable pub set_bit : List ℕ → ℕ → List ℕ
set_bit bits index =
    update bits (index / 64) (bit_or (get_or bits (index / 64) 0) (2 ^ (index % 64)))

unfoldable pub set : ReplayWindow → ℕ → ℕ → ReplayWindow
unfolding set_bit
set w packet_number window_bits = record w { bits = set_bit w.bits (packet_number % window_bits) }

unfoldable pub clear_bit : List ℕ → ℕ → List ℕ
clear_bit bits index =
    update bits (index / 64) (and_not (get_or bits (index / 64) 0) (2 ^ (index % 64)))

-- The loop of `advance`: `count` slots from that of packet number `n` on.
unfoldable pub clear_slots : ℕ → ℕ → ℕ → List ℕ → List ℕ
unfolding clear_bit
clear_slots zero n window_bits bits = bits
clear_slots (suc count) n window_bits bits =
    clear_slots count (n + 1) window_bits (clear_bit bits (n % window_bits))

unfoldable pub advance : ReplayWindow → ℕ → ℕ → ReplayWindow
unfolding clear_slots
advance w highest window_bits =
    let distance = highest - w.highest in
    if leb window_bits distance
    then record { highest = highest; bits = replicate (length w.bits) 0 }
    else record {
      highest = highest;
      bits = clear_slots distance (w.highest + 1) window_bits w.bits;
    }

-- checkPacketNumberKeyLocked on the window of the packet's space.
unfoldable pub check_number : ℕ → Option ReplayWindow → ℕ → Result (Unit {0})
check_number window_size none n = ok tt
check_number window_size (some w) n =
    if ltb w.highest n
    then ok tt
    else if ltb window_size (w.highest - n)
    then fail outside_receiver_window
    else if contains w n (window_size + 1)
    then fail duplicate_packet_number
    else ok tt

-- markPacketNumberKeyLocked on the window of the packet's space.
unfoldable pub mark_number : ℕ → Option ReplayWindow → ℕ → ReplayWindow
unfolding set
mark_number window_size none n =
    set (record { highest = n; bits = replicate ((window_size + 1 + 63) / 64) 0 }) n
      (window_size + 1)
mark_number window_size (some w) n =
    if ltb w.highest n
    then set (advance w n (window_size + 1)) n (window_size + 1)
    else if ltb window_size (w.highest - n)
    then w
    else set w n (window_size + 1)
