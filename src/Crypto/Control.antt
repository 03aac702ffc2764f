-- ===== src/Crypto/Control.antt =====
-- crypto/control.go: the associated data of packets and of control messages.
pub mod Binding
use aurora_core.Common.{
  ℕ, ◌-◌, ◌^◌, Bool, ◌&&◌, ◌||◌, not, List, [], ◌∷◌, ◌++◌, ltb, ◌==◌, if◌then◌else◌, length, get_or,
  drop, bit_and,
}
use aurora_core.Common.Text.{ascii}
use aurora_core.Common.Words.{join8}
use aurora_core.Errors.{
  Error, Result, ok, fail, ◌>>=◌, reserved_control_direction, control_message_direction,
  suite_hash_too_short, reserved_packet_direction,
}
use aurora_core.Registry.{
  msg_cover_capsule1, msg_cover_capsule2, msg_route_capsule1, msg_route_capsule2,
}
use aurora_core.Wire.Varint.{append_varint}
use aurora_core.Wire.Encoder.{
  Write, ◌>>◌, bytes, new_encoder, write_bytes, write_varint, write_uint8, write_opaque16,
}
use aurora_core.Crypto.{Primitives}
use aurora_core.Crypto.Suite.{suite_hash}

pub record ControlAadInput : Type 0 where
  pub selected_version : ℕ
  pub selected_suite : ℕ
  pub msg_type : ℕ
  pub route_instance_id : ℕ
  pub hop_index : ℕ
  pub control_direction : ℕ
  pub handshake_binding_context : List ℕ
  pub prelude_transcript_hash_for_this_hop : List ℕ

unfoldable pub validate_control_aad_input : ControlAadInput → Result (Unit {0})
validate_control_aad_input input =
    if ltb 1 input.control_direction
    then fail reserved_control_direction
    else if input.msg_type == msg_cover_capsule1 || input.msg_type == msg_route_capsule1
    then (if not (input.control_direction == 0) then fail control_message_direction else ok tt)
    else if input.msg_type == msg_cover_capsule2 || input.msg_type == msg_route_capsule2
    then (if not (input.control_direction == 1) then fail control_message_direction else ok tt)
    else ok tt

write_control_aad : ControlAadInput → Write
write_control_aad input = do
  write_bytes (ascii "aurora v2.0 control aad")
  write_varint input.selected_version
  write_varint input.selected_suite
  write_varint input.msg_type
  write_varint input.route_instance_id
  write_uint8 input.hop_index
  write_uint8 input.control_direction
  write_opaque16 input.handshake_binding_context
  write_opaque16 input.prelude_transcript_hash_for_this_hop

unfoldable pub control_aad_preimage : ControlAadInput → Result (List ℕ)
unfolding write_control_aad
control_aad_preimage input =
    validate_control_aad_input input >>= λ _. bytes (write_control_aad input new_encoder)

unfoldable pub control_aad : Primitives → ControlAadInput → Result (List ℕ)
control_aad c input =
    control_aad_preimage input >>= λ preimage. suite_hash c input.selected_suite (preimage ∷ [])

unfoldable pub first_hop_route_instance_id :
    Primitives → ℕ → List ℕ → List ℕ → List ℕ → List ℕ → Result ℕ
first_hop_route_instance_id c suite transcript descriptor binding client_nonce =
    suite_hash c suite (
      ascii "aurora v2.0 first-hop route id"
      ∷ transcript
      ∷ descriptor
      ∷ binding
      ∷ client_nonce
      ∷ [])
    >>= λ sum.
        let tail = drop (length sum - 8) sum in
        if ltb (length sum) 8
        then fail suite_hash_too_short
        else ok (
            bit_and
              (join8 64 (get_or tail 0 0) (get_or tail 1 0) (get_or tail 2 0) (get_or tail 3 0)
                (get_or tail 4 0) (get_or tail 5 0) (get_or tail 6 0) (get_or tail 7 0))
              (2 ^ 62 - 1))

-- The bytes that AppendPacketAD hashes.
unfoldable pub packet_ad_preimage : ℕ → ℕ → ℕ → ℕ → ℕ → Result (List ℕ)
packet_ad_preimage route_instance_id hop_layer direction key_phase packet_number =
    if ltb 1 direction
    then fail reserved_packet_direction
    else (append_varint (ascii "aurora v2.0 packet") route_instance_id >>= λ preimage.
        append_varint (preimage ++ (hop_layer ∷ direction ∷ key_phase ∷ [])) packet_number)

unfoldable pub packet_ad : Primitives → ℕ → ℕ → ℕ → ℕ → ℕ → ℕ → Result (List ℕ)
packet_ad c suite route_instance_id hop_layer direction key_phase packet_number =
    packet_ad_preimage route_instance_id hop_layer direction key_phase packet_number >>= λ preimage.
    suite_hash c suite (preimage ∷ [])
