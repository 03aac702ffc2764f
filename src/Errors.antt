-- ===== src/Errors.antt =====
-- The errors of wire/ and protocol/, one constructor for each message (without the numbers that the
-- message prints), and Go's `(value, error)` results.
use mathlib.Core.Path.{◌≡◌, refl}
use mathlib.Core.Logic.{◌⊎◌, inl, inr}

pub data Error : Type 0 where
  -- wire/varint.go
  varint_out_of_range short_varint short_varint2 short_varint4 short_varint8 : Error
  non_minimal_varint : Error
  -- wire/encoder.go
  uint24_out_of_range fixed_opaque_length opaque8_too_long opaque16_too_long : Error
  opaque24_too_long : Error
  -- wire/reader.go
  short_read malformed_bool count_exceeds_remaining : Error
  -- protocol/types.go, protocol/vector_limits.go
  extension_count_unfit unknown_critical_extension minimum_size_invalid count_unfit : Error
  -- protocol/frames.go: frames and blocks
  frame_count_limit trailing_frame_block reserved_packet_direction flow_open_backward : Error
  unknown_reserved_frame_type unknown_lab_frame_type data_zero_flow_id data_empty_payload : Error
  -- protocol/frames.go: key updates
  trailing_key_update trailing_key_update_ack trailing_key_update_request : Error
  key_update_direction_mismatch key_update_reserved_direction key_update_skipped_phase : Error
  ack_reserved_direction request_reserved_direction : Error
  -- protocol/frames.go: flow management
  unsupported_flow_open_version flow_open_zero_flow_id reserved_flow_kind ipv4_target_length : Error
  ipv6_target_length reserved_target_kind reserved_udp_fqdn_mode name_binding_length : Error
  answer_hash_length reserved_local_binding_mode reserved_priority_class : Error
  domain_empty domain_too_long domain_trailing_dot label_starts_with_hyphen label_empty : Error
  label_ends_with_hyphen domain_not_lower_case label_too_long : Error
  trailing_flow_management flow_id_mismatch confirm_zero_flow_id confirm_ipv4_length : Error
  confirm_ipv6_length confirm_target_kind confirm_answer_hash_length confirm_ttl : Error
  reserved_resolution_source close_zero_flow_id reserved_close_code : Error
  -- protocol/frames.go: routes
  trailing_route_forward next_hash_length previous_hash_length routing_record_id_length : Error
  ipv4_locator_length ipv6_locator_length empty_locator reserved_locator_type : Error
  trailing_authority empty_authority zero_authority_port : Error
  -- packet/packet.go, packet/onion.go
  trailing_packet forward_block_size not_route_forward trailing_forward_payload : Error
  forward_layer_mismatch split2_route_mismatch split2_hop_mismatch : Error
  split2_direction_mismatch : Error
  -- packet/receiver.go
  outside_receiver_window duplicate_packet_number : Error
  receiver_destroyed invalid_prepared_open : Error
  -- packet/key_update.go
  already_draining key_phase_exhausted route_instance_mismatch hop_layer_mismatch : Error
  direction_mismatch source_phase_mismatch source_material_mismatch key_phase_not_active : Error
  no_pending_ack ack_nonce_too_long acked_phase_mismatch old_phase_mismatch : Error
  -- packet/packet.go: protectors
  static_iv_length sealed_too_short sealed_layout_mismatch not_in_place : Error
  metadata_mismatch : Error
  -- crypto/
  unsupported_suite hkdf_label_too_long hkdf_context_too_long aes_key_length nonce_length : Error
  reserved_control_direction control_message_direction suite_hash_too_short : Error
  -- what Go's crypto library reports
  cipher_key_length authentication_failed : Error
  -- flow/scheduler.go
  empty_stream_chunk scheduler_buffer_limit : Error
  -- flow/flow.go
  domain_not_canonical binding_lengths udp_domain_mode udp_domain_hint : Error
  fake_ip_relay_resolved duplicate_flow_id unknown_flow_id not_udp_flow : Error
  confirm_target_mismatch confirm_answer_hash_mismatch not_udp_target_confirm not_flow_close : Error
  -- transport/record.go
  empty_record record_too_large invalid_record_maximum short_write : Error
  -- io.EOF and io.ErrUnexpectedEOF
  end_of_file unexpected_end_of_file : Error
  -- carrier/codec.go
  empty_body token_nonce_length_wrong redemption_context_length_wrong : Error
  issue_request_length_wrong metadata_hash_length_wrong metadata_too_large : Error
  metadata_length_missing metadata_length_mismatch : Error

pub data Result {ℓ} (A : Type ℓ) : Type ℓ where
  ok : A → Result A
  fail : Error → Result A

infixl 5 ◌>>=◌
abbrev pub ◌>>=◌ {ℓ κ} : {A : Type ℓ} {C : Type κ} → Result A → (A → Result C) → Result C
ok mid >>= rest = rest mid
fail x >>= rest = fail x

pub Result-cases {ℓ} :
    {A : Type ℓ} (r : Result A) → ((a : A) × (r ≡ ok a)) ⊎ ((e : Error) × (r ≡ fail e))
Result-cases (ok a) = inl (a, refl)
Result-cases (fail e) = inr (e, refl)

-- Inversion of a chain that succeeds.
pub bind-ok {ℓ κ} :
    {A : Type ℓ} {C : Type κ} (first : Result A) (rest : A → Result C) {c : C}
    → (first >>= rest) ≡ ok c
    → (mid : A) × (first ≡ ok mid) × (rest mid ≡ ok c)
bind-ok (ok mid) rest e = (mid, refl, e)
bind-ok (fail x) rest e = cc
