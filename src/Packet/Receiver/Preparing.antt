-- ===== src/Packet/Receiver/Preparing.antt =====
-- packet/receiver.go: preparing to open changes no window.
use aurora_core.Common.{ℕ, ◌≡◌, refl, Bool, true, false, Option, none, some, if◌then◌else◌}
use aurora_core.Errors.{Result, ok, fail, ◌>>=◌, receiver_destroyed}
use aurora_core.Crypto.{Primitives}
use aurora_core.Packet.Codec.{AuroraPacket}
use aurora_core.Packet.Direction.{DirectionState}
use aurora_core.Packet.Protector.{Protector}
use aurora_core.Packet.Receiver.{Receiver, PreparedOpen, prepare_open_with_protector}
use aurora_core.Packet.Receiver.Directions.{prepare_open_with_direction_state}
use aurora_core.Packet.Receiver.Spaces.{Space, find}
use aurora_core.Packet.KeyPhase.{KeyMaterial}
use aurora_core.Packet.Direction.{material_for_packet_view}
use aurora_core.Packet.Receiver.Spaces.{packet_number_space}
use aurora_core.Packet.Receiver.Directions.{keep_protector, protector_serves, direction_protector}

pub record SameWindows (r t : Receiver) : Type 0 where
  pub windows_same : t.windows ≡ r.windows
  pub size_same : t.window_size ≡ r.window_size
  pub destroyed_same : t.destroyed ≡ r.destroyed
  pub bits_same : t.window_bits ≡ r.window_bits

abbrev unchanged : (r : Receiver) → SameWindows r r
unchanged r = record {
  windows_same = refl;
  size_same = refl;
  destroyed_same = refl;
  bits_same = refl;
}

made_keeps :
    (r : Receiver) (space : Space) (p : Result Protector)
    → SameWindows r (keep_protector r space p).1
unfolding keep_protector
made_keeps r space (fail x) = record {
  windows_same = refl;
  size_same = refl;
  destroyed_same = refl;
  bits_same = refl;
}
made_keeps r space (ok p) = record {
  windows_same = refl;
  size_same = refl;
  destroyed_same = refl;
  bits_same = refl;
}

served_keeps :
    (r : Receiver) (kept : Bool) (p : Protector) (made : Result Protector × Receiver)
    → SameWindows r made.1
    → SameWindows r (if kept then (ok p, r) else made).1
served_keeps r true p made h = unchanged r
served_keeps r false p made h = h

abbrev found_or :
    Receiver
    → Option Protector
    → (Protector → Bool)
    → Result Protector × Receiver
    → Result Protector × Receiver
found_or r o serves made = elim o [ none ↦ made | some p ↦ if serves p then (ok p, r) else made ]

found_keeps :
    (r : Receiver) (o : Option Protector) (serves : Protector → Bool)
    (made : Result Protector × Receiver)
    → SameWindows r made.1
    → SameWindows r (found_or r o serves made).1
found_keeps r none serves made h = h
found_keeps r (some p) serves made h = served_keeps r (serves p) p made h

live_keeps :
    (r : Receiver) (b : Bool) (rest : Result Protector × Receiver)
    → SameWindows r rest.1
    → SameWindows r (if b then (fail receiver_destroyed, r) else rest).1
live_keeps r true rest h = unchanged r
live_keeps r false rest h = h

direction_protector_keeps :
    (c : Primitives) (r : Receiver) (pkt : AuroraPacket) (state : DirectionState) (suite : ℕ)
    (material : KeyMaterial)
    → SameWindows r (direction_protector c r pkt state suite material).1
unfolding direction_protector
direction_protector_keeps c r pkt state suite material = live_keeps r r.destroyed _ (
    found_keeps r (find (packet_number_space pkt) r.direction_protectors)
      (λ p. protector_serves p state suite pkt.key_phase material) _
      (made_keeps r (packet_number_space pkt) _))

abbrev prepare_with :
    Primitives
    → Receiver
    → AuroraPacket
    → DirectionState
    → ℕ
    → Result KeyMaterial
    → Result PreparedOpen × Receiver
prepare_with c r pkt state suite m = elim m [
  | fail x ↦ (fail x, r)
  | ok material ↦
      let (p, r') = direction_protector c r pkt state suite material in
      (p >>= λ protector. prepare_open_with_protector c r' pkt protector, r')
]

with_material_keeps :
    (c : Primitives) (r : Receiver) (pkt : AuroraPacket) (state : DirectionState) (suite : ℕ)
    (m : Result KeyMaterial)
    → SameWindows r (prepare_with c r pkt state suite m).1
with_material_keeps c r pkt state suite (fail x) = unchanged r
with_material_keeps c r pkt state suite (ok material) =
    direction_protector_keeps c r pkt state suite material

pub prepares_keeps :
    (c : Primitives) (r : Receiver) (pkt : AuroraPacket) (state : DirectionState) (suite now : ℕ)
    → SameWindows r (prepare_open_with_direction_state c r pkt state suite now).1
unfolding prepare_open_with_direction_state
prepares_keeps c r pkt state suite now =
    with_material_keeps c r pkt state suite (material_for_packet_view state pkt now)
