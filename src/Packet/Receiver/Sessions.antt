-- ===== src/Packet/Receiver/Sessions.antt =====
-- packet/: a protector that seals and a receiver that opens.
use aurora_core.Common.{◌≤◌, ◌≡◌, ap, ◌∙◌, arith, true, false, length, All, inl, inr, Bool-cases}
use aurora_core.Errors.{Error, ok, fail}
use aurora_core.Protocol.Frames.{FrameBlock, max_frame_block_frames}
use aurora_core.Protocol.Frames.Codec.{Fits}
use aurora_core.Crypto.{Primitives, IsAead, TakesKeys}
use aurora_core.Packet.Codec.{AuroraPacket}
use aurora_core.Packet.Window.{check_number}
use aurora_core.Packet.Protector.{Protector}
use aurora_core.Packet.Protector.Cache.{IsCached}
use aurora_core.Packet.Protector.Sealing.{seal}
use aurora_core.Packet.Protector.Opening.{open_packet}
use aurora_core.Packet.Protector.RoundTrip.{SharesKeys, open_packet-seal}
use aurora_core.Packet.Receiver.{
  Receiver, PreparedOpen, PacketNumberKey, check_packet_number_key, mark_packet_number_key,
  packet_number_key, acquire_protector, prepare_open_with_protector, prepare_open,
  commit_prepared_open, take_block, open_received,
}
use aurora_core.Packet.Receiver.Spaces.{find}
use aurora_core.Packet.Receiver.Memory.{IsTracked, put_mark, new-Remembers}
use aurora_core.Packet.Receiver.Once.{Spent, Spent-fails}

abbrev prepared_open : Receiver → AuroraPacket → FrameBlock → PreparedOpen
prepared_open r pkt block = record {
  owner = r.identity;
  key = packet_number_key pkt;
  block = block;
  valid = true;
}

live_check :
    (r : Receiver) (key : PacketNumberKey)
    → check_packet_number_key r key ≡ ok tt
    → (r.destroyed ≡ false)
      × (check_number r.window_size (find key.space r.windows) key.packet_number ≡ ok tt)
unfolding check_packet_number_key
live_check r key e = elim (Bool-cases r.destroyed) [
  | inl gone ↦ absurd (ground (arith, e, gone))
  | inr live ↦ (live, ground (arith, e, live))
]

prepares_block :
    (c : Primitives) (r : Receiver) (pkt : AuroraPacket) (block : FrameBlock)
    → r.destroyed ≡ false
    → check_packet_number_key r (packet_number_key pkt) ≡ ok tt
    → open_packet c r.protector pkt ≡ ok block
    → prepare_open c r pkt ≡ ok (prepared_open r pkt block)
unfolding prepare_open acquire_protector prepare_open_with_protector
prepares_block c r pkt block live e f = ground (arith, live, e, f)

commits_block :
    (r : Receiver) (pkt : AuroraPacket) (block : FrameBlock)
    → r.destroyed ≡ false
    → check_packet_number_key r (packet_number_key pkt) ≡ ok tt
    → take_block r (ok (prepared_open r pkt block)) ≡ (ok block, put_mark r (packet_number_key pkt))
unfolding take_block commit_prepared_open mark_packet_number_key
commits_block r pkt block live e = ground (arith, live, e)

refuses :
    (c : Primitives) (r : Receiver) (pkt : AuroraPacket) (x : Error)
    → r.destroyed ≡ false
    → check_packet_number_key r (packet_number_key pkt) ≡ fail x
    → open_received c r pkt ≡ (fail x, r)
unfolding open_received prepare_open acquire_protector prepare_open_with_protector take_block
refuses c r pkt x live e = ground (arith, live, e)

-- A packet that a protector seals is opened to its block by a receiver whose protector shares its keys
-- and whose window takes the packet's number, and the receiver that is left refuses the packet and
-- keeps its state. The block's fields fit their encodings, the ciphers cached are those of the keys, and
-- the receiver's windows show the numbers of some lists. The library's ciphers open what they seal, and
-- ChaCha20-Poly1305 refuses keys that do not have 32 bytes.
pub open_received-seal :
    (c : Primitives) (p q : Protector) (r : Receiver) (block : FrameBlock) (pkt : AuroraPacket)
    → IsAead c
    → TakesKeys c
    → IsCached c p
    → IsCached c r.protector
    → SharesKeys p r.protector
    → All Fits block
    → length block ≤ max_frame_block_frames
    → IsTracked r
    → seal c p block ≡ (ok pkt, q)
    → check_packet_number_key r (packet_number_key pkt) ≡ ok tt
    → (t : Receiver) × (x : Error) × (open_received c r pkt ≡ (ok block, t))
      × (open_received c t pkt ≡ (fail x, t))
unfolding open_received Spent
open_received-seal c p q r block pkt h k i j s fits m tracked e passed =
    let key = packet_number_key pkt in
    let (live, taken) = live_check r key passed in
    let t = put_mark r key in
    let opened = open_packet-seal c p q r.protector block pkt h k i j s fits m e in
    let (x, refused) = Spent-fails t key (inr (new-Remembers r key tracked taken)) in
    (
      t,
      x,
      ap (take_block r) (prepares_block c r pkt block live passed opened)
          ∙ commits_block r pkt block live passed,
      refuses c t pkt x live refused,
    )
