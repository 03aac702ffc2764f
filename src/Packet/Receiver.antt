-- ===== src/Packet/Receiver.antt =====
-- packet/receiver.go: the receiver, which opens packets and accepts each number of a space once. Calls
-- follow one another, so no protector is in use when one is retired: the use counts, the retired
-- protectors and the lock are not in the model, nor is the zeroing of plaintext and keys. A receiver's
-- `identity` stands for its address.
pub mod Spaces
pub mod Directions
pub mod Memory
pub mod Preparing
pub mod Once
pub mod Bounds
pub mod Sessions
use aurora_core.Common.{
  ℕ, zero, suc, ◌+◌, ◌-◌, ◌/◌, ◌%◌, Bool, true, false, not, ◌&&◌, ◌||◌, Option, none, some, List,
  [], ◌∷◌, ltb, ◌==◌, if◌then◌else◌, length, bytes_equal, replicate,
}
use aurora_core.Errors.{Error, Result, ok, fail, ◌>>=◌, receiver_destroyed, invalid_prepared_open}
use aurora_core.Protocol.Frames.{FrameBlock}
use aurora_core.Crypto.{Primitives}
use aurora_core.Packet.Codec.{AuroraPacket}
use aurora_core.Packet.KeyPhase.{KeyMaterial}
use aurora_core.Packet.Direction.{
  DirectionState, material_for_packet_view, drain_info, expire_drain,
}
use aurora_core.Packet.Window.{ReplayWindow, check_number, mark_number}
use aurora_core.Packet.Protector.{Protector, cached_aead, prepare, new_protector}
use aurora_core.Packet.Protector.{destroy as destroy_protector}
use aurora_core.Packet.Protector.Opening.{open_packet}
use aurora_core.Packet.Receiver.Spaces.{Space, packet_number_space, find, put, delete}

abbrev pub default_receiver_window_size : ℕ
default_receiver_window_size = 1024

abbrev pub max_receiver_window_size : ℕ
max_receiver_window_size = 0x100000

pub record Receiver : Type 0 where
  pub identity : ℕ
  pub protector : Protector
  pub direction_protectors : List (Space × Protector)
  pub window_size : ℕ
  pub window_bits : ℕ
  pub windows : List (Space × ReplayWindow)
  pub destroyed : Bool

pub record PacketNumberKey : Type 0 where
  pub space : Space
  pub packet_number : ℕ

pub record PreparedOpen : Type 0 where
  pub owner : ℕ
  pub key : PacketNumberKey
  pub block : FrameBlock
  pub valid : Bool

-- The caller's protector without its cache and its scratch.
abbrev clone_protector : Protector → Protector
clone_protector p = record p { aead = none; cached_suite = 0; cached_key = replicate 32 0 }

unfoldable pub clamp_window_size : ℕ → ℕ
clamp_window_size n =
    let size = if n == 0 then default_receiver_window_size else n in
    if ltb max_receiver_window_size size then max_receiver_window_size else size

unfoldable pub new_receiver : Primitives → ℕ → Protector → ℕ → Receiver
unfolding clamp_window_size prepare
new_receiver c identity source window_size = record {
  identity = identity;
  protector = (prepare c (clone_protector source)).1;
  direction_protectors = [];
  window_size = clamp_window_size window_size;
  window_bits = clamp_window_size window_size + 1;
  windows = [];
  destroyed = false;
}

unfoldable pub destroy : Receiver → Receiver
destroy r = record r {
  destroyed = true;
  protector = destroy_protector;
  direction_protectors = [];
  windows = [];
}

unfoldable pub forget_packet_number_space : Receiver → Space → Receiver
unfolding delete
forget_packet_number_space r space = record r {
  direction_protectors = delete space r.direction_protectors;
  windows = delete space r.windows;
}

unfoldable pub check_packet_number_key : Receiver → PacketNumberKey → Result (Unit {0})
unfolding find check_number
check_packet_number_key r key =
    if r.destroyed
    then fail receiver_destroyed
    else check_number r.window_size (find key.space r.windows) key.packet_number

unfoldable pub mark_packet_number_key : Receiver → PacketNumberKey → Receiver
unfolding find put mark_number
mark_packet_number_key r key = if r.destroyed then r else record r {
  windows =
      put key.space (mark_number r.window_size (find key.space r.windows) key.packet_number)
        r.windows;
}

abbrev pub packet_number_key : AuroraPacket → PacketNumberKey
packet_number_key pkt = record {
  space = packet_number_space pkt;
  packet_number = pkt.packet_number;
}

unfoldable pub prepare_open_with_protector :
    Primitives → Receiver → AuroraPacket → Protector → Result PreparedOpen
unfolding check_packet_number_key open_packet
prepare_open_with_protector c r pkt protector =
    let key = packet_number_key pkt in
    check_packet_number_key r key >>= λ _. open_packet c protector pkt >>= λ block.
    check_packet_number_key r key >>= λ _.
    ok (record { owner = r.identity; key = key; block = block; valid = true })

unfoldable pub acquire_protector : Receiver → Protector → Result Protector
acquire_protector r protector = if r.destroyed then fail receiver_destroyed else ok protector

unfoldable pub prepare_open : Primitives → Receiver → AuroraPacket → Result PreparedOpen
unfolding prepare_open_with_protector acquire_protector
prepare_open c r pkt =
    acquire_protector r r.protector >>= λ protector. prepare_open_with_protector c r pkt protector

unfoldable pub commit_prepared_open : Receiver → PreparedOpen → Result (Receiver × PreparedOpen)
unfolding check_packet_number_key mark_packet_number_key
commit_prepared_open r prepared =
    if not prepared.valid || not (prepared.owner == r.identity)
    then fail invalid_prepared_open
    else (check_packet_number_key r prepared.key >>= λ _.
        ok (mark_packet_number_key r prepared.key, record prepared { valid = false }))

-- Open and OpenWithDirectionState after the preparation.
unfoldable pub take_block : Receiver → Result PreparedOpen → Result FrameBlock × Receiver
unfolding commit_prepared_open
take_block r (fail x) = (fail x, r)
take_block r (ok prepared) = elim (commit_prepared_open r prepared) [
  | fail x ↦ (fail x, r)
  | ok (t, used) ↦ (ok prepared.block, t)
]

unfoldable pub open_received : Primitives → Receiver → AuroraPacket → Result FrameBlock × Receiver
unfolding prepare_open take_block
open_received c r pkt = take_block r (prepare_open c r pkt)

-- `bits.OnesCount64` on the first `width` bits of a word.
ones_count : ℕ → ℕ → ℕ
ones_count zero word = 0
ones_count (suc width) word = word % 2 + ones_count width (word / 2)

words_count : List ℕ → ℕ
unfolding ones_count
words_count [] = 0
words_count (word ∷ words) = ones_count 64 word + words_count words

unfoldable pub count : ReplayWindow → ℕ
unfolding words_count
count w = words_count w.bits

windows_count : List (Space × ReplayWindow) → ℕ
unfolding count
windows_count [] = 0
windows_count ((space, w) ∷ rest) = count w + windows_count rest

-- The packet number spaces and the seen packets.
unfoldable pub stats : Receiver → ℕ × ℕ
unfolding windows_count
stats r = (length r.windows, windows_count r.windows)
