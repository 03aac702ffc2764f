-- ===== src/Tests/Payloads.antt =====
-- protocol/frames.go: payloads of the control frames at concrete inputs.
use aurora_core.Common.{ℕ, ◌≡◌, refl, arith, true, false, List, [], ◌∷◌, ◌++◌, replicate}
use aurora_core.Errors.{Error, ok, trailing_key_update}
use aurora_core.Wire.Encoder.{encode}
use aurora_core.Protocol.KeyUpdate.{KeyUpdateAck, encode_key_update_ack, decode_key_update_ack}
use aurora_core.Protocol.Route.{
  RouteForwardFrame, encode_route_forward, decode_route_forward, RoutePreludeEnvelope,
  encode_route_prelude_envelope, decode_route_prelude_envelope,
}
use aurora_core.Protocol.Flows.{
  FlowOpen, encode_flow_open, decode_flow_open, UdpTargetConfirm, encode_udp_target_confirm,
  decode_udp_target_confirm, FlowClose, encode_flow_close, decode_flow_close,
}
use aurora_core.Protocol.Validate.{decode_whole}
use aurora_core.Protocol.Validate.Payloads.{
  decode_key_update_ack-encode, decode_route_forward-encode, decode_route_prelude_envelope-encode,
  decode_flow_open-encode, decode_udp_target_confirm-encode, decode_flow_close-encode,
}

-- The error is that of a payload with bytes left over, which none of these has.
abbrev trailing : Error
trailing = trailing_key_update

abbrev sample_ack : KeyUpdateAck
sample_ack = record {
  route_instance_id = 5;
  hop_layer = 1;
  acked_direction = 0;
  acked_key_phase = 4;
  ack_nonce = 8 ∷ 9 ∷ [];
}

abbrev sample_ack_bytes : List ℕ
sample_ack_bytes = 5 ∷ 1 ∷ 0 ∷ 4 ∷ 0 ∷ 2 ∷ 8 ∷ 9 ∷ []

sample_ack_decoded : decode_whole decode_key_update_ack trailing sample_ack_bytes ≡ ok sample_ack
unfolding decode_whole decode_key_update_ack aurora_core.Wire.Reader.read_opaque16
    aurora_core.Wire.Reader.read_uint8 aurora_core.Wire.Reader.read_varint
    aurora_core.Wire.Reader.new_reader aurora_core.Wire.Varint.decode_varint
    aurora_core.Wire.Reader.eof
sample_ack_decoded = refl

decode_key_update_ack-encode_example :
    encode (encode_key_update_ack sample_ack) ≡ ok sample_ack_bytes
decode_key_update_ack-encode_example =
    decode_key_update_ack-encode sample_ack_bytes sample_ack trailing (ground arith)
      sample_ack_decoded

abbrev sample_forward : RouteForwardFrame
sample_forward = record {
  route_instance_id = 5;
  hop_index = 1;
  next_relay_descriptor_hash = replicate 48 7;
  previous_hop_relay_descriptor_hash = replicate 48 8;
  next_relay_routing_record_id = 3 ∷ 4 ∷ [];
  next_relay_locator_type = 1;
  next_relay_locator = 127 ∷ 0 ∷ 0 ∷ 1 ∷ 1 ∷ 187 ∷ [];
  opaque_next_hop_prelude = 9 ∷ [];
}

abbrev sample_forward_bytes : List ℕ
sample_forward_bytes =
    5
    ∷ 1
    ∷ (replicate 48 7
        ++ (replicate 48 8
            ++ (0 ∷ 2 ∷ 3 ∷ 4 ∷ 1 ∷ 0 ∷ 6 ∷ 127 ∷ 0 ∷ 0 ∷ 1 ∷ 1 ∷ 187 ∷ 0 ∷ 0 ∷ 1 ∷ 9 ∷ [])))

sample_forward_decoded :
    decode_whole decode_route_forward trailing sample_forward_bytes ≡ ok sample_forward
unfolding decode_whole decode_route_forward aurora_core.Wire.Reader.read_opaque24
    aurora_core.Wire.Reader.read_opaque16 aurora_core.Wire.Reader.read_varint
    aurora_core.Wire.Reader.read_pre_hash aurora_core.Wire.Reader.read_uint8
    aurora_core.Wire.Reader.new_reader aurora_core.Wire.Varint.decode_varint
    aurora_core.Wire.Reader.eof
sample_forward_decoded = refl

decode_route_forward-encode_example :
    encode (encode_route_forward sample_forward) ≡ ok sample_forward_bytes
decode_route_forward-encode_example =
    decode_route_forward-encode sample_forward_bytes sample_forward trailing (ground arith)
      sample_forward_decoded

abbrev sample_prelude : RoutePreludeEnvelope
sample_prelude = record {
  route_instance_id = 5;
  hop_index = 1;
  previous_hop_relay_descriptor_hash = replicate 48 7;
  next_relay_descriptor_hash = replicate 48 8;
  hint_issuer_id = replicate 16 1;
  relay_bucket_id = replicate 16 2;
  hint_epoch_id = 258;
  hint_selector = replicate 16 3;
  wrap_suite_id = 1;
  wrap_nonce = replicate 16 4;
  sealed_route_prelude0 = 9 ∷ [];
}

abbrev sample_prelude_bytes : List ℕ
sample_prelude_bytes =
    5
    ∷ 1
    ∷ (replicate 48 7
        ++ (replicate 48 8
            ++ (replicate 16 1
                ++ (replicate 16 2
                    ++ (0
                        ∷ 0
                        ∷ 0
                        ∷ 0
                        ∷ 0
                        ∷ 0
                        ∷ 1
                        ∷ 2
                        ∷ (replicate 16 3 ++ (1 ∷ (replicate 16 4 ++ (0 ∷ 0 ∷ 1 ∷ 9 ∷ [])))))))))

sample_prelude_decoded :
    decode_whole decode_route_prelude_envelope trailing sample_prelude_bytes ≡ ok sample_prelude
unfolding decode_whole decode_route_prelude_envelope aurora_core.Wire.Reader.read_opaque24
    aurora_core.Wire.Reader.read_varint aurora_core.Wire.Reader.read_uint64
    aurora_core.Wire.Reader.read_pre_hash aurora_core.Wire.Reader.read_uint8
    aurora_core.Wire.Reader.new_reader aurora_core.Wire.Varint.decode_varint
    aurora_core.Wire.Reader.eof
sample_prelude_decoded = refl

decode_route_prelude_envelope-encode_example :
    encode (encode_route_prelude_envelope sample_prelude) ≡ ok sample_prelude_bytes
decode_route_prelude_envelope-encode_example =
    decode_route_prelude_envelope-encode sample_prelude_bytes sample_prelude trailing (ground arith)
      sample_prelude_decoded

abbrev sample_flow : FlowOpen
sample_flow = record {
  flow_open_version = 1;
  flow_id = 9;
  flow_kind = 1;
  target_kind = 1;
  target_host = 10 ∷ 0 ∷ 0 ∷ 1 ∷ [];
  target_port = 443;
  udp_fqdn_mode = 0;
  name_binding_id = replicate 16 0;
  original_domain_hint = [];
  dns_answer_set_hash = replicate 48 0;
  local_binding_mode = 0;
  priority_class = 1;
  extensions = [];
}

abbrev sample_flow_bytes : List ℕ
sample_flow_bytes =
    1
    ∷ 9
    ∷ 1
    ∷ 1
    ∷ 0
    ∷ 4
    ∷ 10
    ∷ 0
    ∷ 0
    ∷ 1
    ∷ 1
    ∷ 187
    ∷ 0
    ∷ (replicate 16 0 ++ (0 ∷ 0 ∷ (replicate 48 0 ++ (0 ∷ 1 ∷ 0 ∷ []))))

sample_flow_decoded : decode_whole decode_flow_open trailing sample_flow_bytes ≡ ok sample_flow
unfolding decode_whole decode_flow_open aurora_core.Protocol.Extensions.decode_extensions
    aurora_core.Wire.Reader.read_vector_count aurora_core.Wire.Reader.read_uint8
    aurora_core.Wire.Reader.read_pre_hash aurora_core.Wire.Reader.read_opaque16
    aurora_core.Wire.Reader.new_reader aurora_core.Wire.Varint.decode_varint
    aurora_core.Wire.Reader.eof
sample_flow_decoded = refl

decode_flow_open-encode_example : encode (encode_flow_open sample_flow) ≡ ok sample_flow_bytes
decode_flow_open-encode_example =
    decode_flow_open-encode sample_flow_bytes sample_flow trailing (ground arith)
      sample_flow_decoded

abbrev sample_confirm : UdpTargetConfirm
sample_confirm = record {
  flow_id = 9;
  target_kind = 1;
  selected_ip = 10 ∷ 0 ∷ 0 ∷ 1 ∷ [];
  selected_port = 53;
  dns_answer_set_hash = replicate 48 6;
  ttl_seconds = 300;
  resolution_source = 1;
  extensions = record { extension_type = 4; critical = false; body = 1 ∷ [] } ∷ [];
}

abbrev sample_confirm_bytes : List ℕ
sample_confirm_bytes =
    9
    ∷ 1
    ∷ 0
    ∷ 4
    ∷ 10
    ∷ 0
    ∷ 0
    ∷ 1
    ∷ 0
    ∷ 53
    ∷ (replicate 48 6 ++ (0 ∷ 0 ∷ 1 ∷ 44 ∷ 1 ∷ 1 ∷ 4 ∷ 0 ∷ 0 ∷ 0 ∷ 1 ∷ 1 ∷ []))

sample_confirm_decoded :
    decode_whole decode_udp_target_confirm trailing sample_confirm_bytes ≡ ok sample_confirm
unfolding decode_whole decode_udp_target_confirm aurora_core.Protocol.Extensions.decode_extensions
    aurora_core.Wire.Reader.read_vector_count aurora_core.Wire.Reader.read_uint8
    aurora_core.Wire.Reader.read_uint32 aurora_core.Wire.Reader.read_pre_hash
    aurora_core.Wire.Reader.read_uint16 aurora_core.Wire.Reader.read_opaque16
    aurora_core.Wire.Reader.new_reader aurora_core.Wire.Varint.decode_varint
    aurora_core.Wire.Reader.read_opaque24 aurora_core.Wire.Reader.read_bool
    aurora_core.Wire.Reader.eof
sample_confirm_decoded = refl

decode_udp_target_confirm-encode_example :
    encode (encode_udp_target_confirm sample_confirm) ≡ ok sample_confirm_bytes
decode_udp_target_confirm-encode_example =
    decode_udp_target_confirm-encode sample_confirm_bytes sample_confirm trailing (ground arith)
      sample_confirm_decoded

abbrev sample_closing : FlowClose
sample_closing = record {
  flow_id = 9;
  close_code = 0;
  final_sequence_hint_present = true;
  final_sequence_hint = 70;
  reason = 111 ∷ 107 ∷ [];
  extensions = [];
}

abbrev sample_closing_bytes : List ℕ
sample_closing_bytes = 9 ∷ 0 ∷ 1 ∷ 0 ∷ 0 ∷ 0 ∷ 0 ∷ 0 ∷ 0 ∷ 0 ∷ 70 ∷ 0 ∷ 2 ∷ 111 ∷ 107 ∷ 0 ∷ []

sample_closing_decoded :
    decode_whole decode_flow_close trailing sample_closing_bytes ≡ ok sample_closing
unfolding decode_whole decode_flow_close aurora_core.Protocol.Extensions.decode_extensions
    aurora_core.Wire.Reader.read_vector_count aurora_core.Wire.Reader.read_opaque16
    aurora_core.Protocol.Flows.read_hint aurora_core.Wire.Reader.read_bool
    aurora_core.Wire.Reader.new_reader aurora_core.Wire.Varint.decode_varint
    aurora_core.Wire.Reader.read_uint64 aurora_core.Wire.Reader.eof
sample_closing_decoded = refl

decode_flow_close-encode_example :
    encode (encode_flow_close sample_closing) ≡ ok sample_closing_bytes
decode_flow_close-encode_example =
    decode_flow_close-encode sample_closing_bytes sample_closing trailing (ground arith)
      sample_closing_decoded
