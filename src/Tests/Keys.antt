-- ===== src/Tests/Keys.antt =====
-- packet/key_update.go: an update between two ends.
use aurora_core.Common.{
  ℕ, ◌+◌, ◌*◌, ◌^◌, ◌≤◌, ◌<◌, ◌≡◌, refl, arith, Bool, true, false, Option, none, some, [], ◌∷◌,
  replicate, ◌⊎◌, inl, inr, length,
}
use aurora_core.Errors.{ok}
use aurora_core.Protocol.KeyUpdate.{KeyUpdate}
use aurora_core.Packet.Codec.{AuroraPacket}
use aurora_core.Packet.KeyPhase.{KeyMaterial, erased}
use aurora_core.Packet.Direction.{
  DirectionState, PreparedKeyUpdate, clear_drain_state, expire_drain, advanced, next_frame,
  commit_prepared_update, material_for_packet, max_drain_window,
}
use aurora_core.Packet.Direction.Steps.{here, next, commits}
use aurora_core.Packet.Direction.Phases.{IsPhased, Held, reach-IsPhased}
use aurora_core.Packet.Direction.Keys.{material_for_packet-Current}
use aurora_core.Tests.Toy.{toy}

abbrev first_material : KeyMaterial
first_material = record { app_secret = replicate 48 1; key = replicate 32 2; iv = replicate 12 3 }

abbrev first_phase : DirectionState
first_phase = record {
  route_instance_id = 300;
  hop_layer = 1;
  direction = 0;
  key_phase = 4;
  material = first_material;
  drain_until = none;
  previous_key_phase = 0;
  previous_material = erased;
  pending_sent_update = none;
  last_received_update = none;
}

abbrev first_frame : KeyUpdate
first_frame = next_frame first_phase (9 ∷ []) true 1

first_phase-IsPhased : IsPhased first_phase
unfolding clear_drain_state
first_phase-IsPhased = record { fits = omega arith; idle = λ e. refl; draining = λ u e. cc }

abbrev second_material : KeyMaterial
second_material = record { app_secret = []; key = []; iv = [] }

prepared : PreparedKeyUpdate
prepared = record {
  frame = first_frame;
  next_material = second_material;
  source_phase = 4;
  source_material = first_material;
}

abbrev second_phase : DirectionState
second_phase = record first_phase {
  previous_key_phase = 4;
  previous_material = first_material;
  key_phase = 5;
  material = second_material;
  drain_until = some (100 + max_drain_window);
  pending_sent_update = some first_frame;
}

committed : commit_prepared_update first_phase prepared 100 ≡ ok second_phase
unfolding commit_prepared_update aurora_core.Protocol.KeyUpdate.validate_key_update prepared
    aurora_core.Common.bytes_equal
committed = refl

reach-IsPhased_example :
    IsPhased second_phase
    × (first_phase.key_phase ≤ second_phase.key_phase)
    × Held toy first_phase second_phase
unfolding prepared
reach-IsPhased_example =
    reach-IsPhased toy first_phase second_phase first_phase-IsPhased
      (next here (commits prepared 100 (omega arith) committed))

-- A packet of the phase before, inside the drain.
abbrev late_packet : AuroraPacket
late_packet = record {
  route_instance_id = 300;
  hop_layer = 1;
  direction = 0;
  key_phase = 4;
  packet_number = 7;
  ciphertext = [];
  auth_tag = [];
}

late_material : material_for_packet second_phase late_packet 200 ≡ (ok first_material, second_phase)
unfolding material_for_packet aurora_core.Packet.Direction.material_for_packet_view expire_drain
late_material = refl

material_for_packet-Current_example :
    ((4 ≡ second_phase.key_phase) × (first_material ≡ second_phase.material)
      ⊎ ((until : ℕ) × (second_phase.drain_until ≡ some until)
          × (200 ≤ until)
          × (4 ≡ second_phase.previous_key_phase)
          × (first_material ≡ second_phase.previous_material)))
    × ((until : ℕ)
        → second_phase.drain_until ≡ some until
        → until < 200
        → (second_phase.previous_material ≡ erased)
          × (second_phase.material ≡ second_phase.material))
material_for_packet-Current_example =
    material_for_packet-Current second_phase second_phase late_packet 200 first_material
      late_material

abbrev derived_material : KeyMaterial
derived_material = record {
  app_secret = replicate 48 53;
  key = replicate 32 14;
  iv = replicate 12 13;
}

abbrev updated_phase : DirectionState
updated_phase = record second_phase { material = derived_material }
