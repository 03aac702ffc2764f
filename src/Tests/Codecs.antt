-- ===== src/Tests/Codecs.antt =====
-- wire/ and protocol/: integers, frame blocks and payloads at concrete inputs.
use aurora_core.Common.{
  ℕ, ◌≡◌, ◌≤◌, refl, arith, Bool, true, false, All, List, [], ◌∷◌, ◌++◌, length, take,
}
use aurora_core.Common.Words.{Bytes}
use aurora_core.Errors.{ok}
use aurora_core.Registry.{frame_stream_data, frame_key_update}
use aurora_core.Wire.Varint.{max_varint, append_varint, encode_varint, varint_len, decode_varint}
use aurora_core.Wire.Varint.RoundTrip.{append_varint-decode}
use aurora_core.Wire.Varint.Canonical.{decode_varint-encode}
use aurora_core.Protocol.Frames.{
  AuroraFrame, FrameBlock, max_frame_block_frames, encode_frame_block, decode_frame_block,
}
use aurora_core.Protocol.Frames.Codec.{decode_frame_block-encode, encode_frame_block-decode}
use aurora_core.Protocol.KeyUpdate.{
  KeyUpdate, decode_key_update, KeyUpdateAck, encode_key_update_ack, decode_key_update_ack,
  KeyUpdateRequest, encode_key_update_request, decode_key_update_request,
}
use aurora_core.Protocol.Route.{
  RouteForwardFrame, encode_route_forward, decode_route_forward, RoutePreludeEnvelope,
  encode_route_prelude_envelope, decode_route_prelude_envelope,
}
use aurora_core.Protocol.Flows.{
  FlowOpen, encode_flow_open, decode_flow_open, UdpTargetConfirm, encode_udp_target_confirm,
  decode_udp_target_confirm, FlowClose, encode_flow_close, decode_flow_close,
}
use aurora_core.Protocol.Validate.{decode_whole, validate_frame_block_for_direction}
use aurora_core.Protocol.Validate.Accepted.{Accepted, validate_frame_block_for_direction-Accepted}

append_varint-decode_example :
    (form : List ℕ) × (append_varint (1 ∷ []) 15293 ≡ ok (1 ∷ form))
    × (varint_len 15293 ≡ ok (length form))
    × (decode_varint (form ++ (9 ∷ [])) ≡ ok (15293, length form))
append_varint-decode_example = append_varint-decode (1 ∷ []) (9 ∷ []) 15293 (omega arith)

varint_decoded : decode_varint (0x7b ∷ 0xbd ∷ 0x25 ∷ []) ≡ ok (15293, 2)
unfolding decode_varint aurora_core.Common.Words.join2
varint_decoded = refl

decode_varint-encode_example :
    (15293 ≤ max_varint) × (2 ≤ 3) × (encode_varint 15293 ≡ ok (0x7b ∷ 0xbd ∷ []))
decode_varint-encode_example =
    decode_varint-encode (0x7b ∷ 0xbd ∷ 0x25 ∷ []) 15293 2 (ground arith) varint_decoded

abbrev sample_update : KeyUpdate
sample_update = record {
  route_instance_id = 5;
  hop_layer = 1;
  direction = 0;
  old_key_phase = 3;
  new_key_phase = 4;
  update_nonce = 8 ∷ 9 ∷ [];
  ack_required = true;
  update_reason = 1;
}

abbrev sample_block : FrameBlock
sample_block =
    record { frame_type = frame_stream_data; flow_id = 70; flags = 0; payload = 1 ∷ 2 ∷ [] }
    ∷ record {
      frame_type = frame_key_update;
      flow_id = 0;
      flags = 0;
      payload = 5 ∷ 1 ∷ 0 ∷ 3 ∷ 4 ∷ 0 ∷ 2 ∷ 8 ∷ 9 ∷ 1 ∷ 1 ∷ [];
    }
    ∷ []

abbrev sample_block_bytes : List ℕ
sample_block_bytes =
    2 ∷ 1 ∷ 64 ∷ 70 ∷ 0 ∷ 0 ∷ 0 ∷ 2 ∷ 1 ∷ 2 ∷ 7 ∷ 0 ∷ 0 ∷ 0 ∷ 0 ∷ 11 ∷ 5 ∷ 1 ∷ 0 ∷ 3 ∷ 4 ∷ 0 ∷ 2 ∷ 8
    ∷ 9 ∷ 1 ∷ 1 ∷ []

encode_frame_block-decode_example :
    (b : List ℕ) × (encode_frame_block sample_block ≡ ok b)
    × (decode_frame_block b ≡ ok sample_block)
encode_frame_block-decode_example =
    encode_frame_block-decode sample_block
      (
        record {
          type_fits = omega arith;
          flow_fits = omega arith;
          flags_fit = omega arith;
          payload_fits = omega arith;
        },
        (
          record {
            type_fits = omega arith;
            flow_fits = omega arith;
            flags_fit = omega arith;
            payload_fits = omega arith;
          },
          tt,
        ),
      )
      (omega arith)

sample_block_decoded : decode_frame_block sample_block_bytes ≡ ok sample_block
unfolding decode_frame_block aurora_core.Wire.Reader.read_vector_count
    aurora_core.Wire.Reader.new_reader decode_varint aurora_core.Wire.Reader.read_each
    aurora_core.Protocol.Frames.decode_aurora_frame aurora_core.Wire.Reader.read_opaque24
    aurora_core.Common.Words.join2 aurora_core.Wire.Reader.eof
sample_block_decoded = refl

decode_frame_block-encode_example : encode_frame_block sample_block ≡ ok sample_block_bytes
decode_frame_block-encode_example =
    decode_frame_block-encode sample_block_bytes sample_block (ground arith) sample_block_decoded

sample_block_valid : validate_frame_block_for_direction sample_block 0 ≡ ok tt
unfolding validate_frame_block_for_direction aurora_core.Protocol.Validate.validate_frame_block
    aurora_core.Protocol.Validate.validate_frame aurora_core.Protocol.Validate.validate_frame_type
    aurora_core.Protocol.Validate.validate_data_frame
    aurora_core.Protocol.Validate.validate_key_update_frame
    aurora_core.Protocol.Validate.validate_route_frame
    aurora_core.Protocol.Validate.validate_flow_management_frame decode_whole decode_key_update
    aurora_core.Wire.Reader.read_varint aurora_core.Wire.Reader.read_bool
    aurora_core.Wire.Reader.read_opaque16 aurora_core.Wire.Reader.new_reader decode_varint
    aurora_core.Wire.Reader.eof aurora_core.Protocol.KeyUpdate.validate_key_update
    aurora_core.Common.Words.join2 aurora_core.Common.Words.join3 aurora_core.Common.Words.join4
    aurora_core.Common.Words.join8 aurora_core.Protocol.Extensions.decode_extension
    aurora_core.Protocol.Extensions.decode_extensions
    aurora_core.Protocol.Extensions.validate_extensions decode_flow_close decode_flow_open
    decode_udp_target_confirm aurora_core.Protocol.Flows.domain_labels
    aurora_core.Protocol.Flows.read_hint aurora_core.Protocol.Flows.validate_flow_close
    aurora_core.Protocol.Flows.validate_flow_open
    aurora_core.Protocol.Flows.validate_flow_open_domain_target
    aurora_core.Protocol.Flows.validate_udp_target_confirm decode_key_update_ack
    decode_key_update_request aurora_core.Protocol.KeyUpdate.validate_key_update_ack
    aurora_core.Protocol.KeyUpdate.validate_key_update_request decode_route_forward
    aurora_core.Protocol.Route.validate_authority_locator
    aurora_core.Protocol.Route.validate_route_forward aurora_core.Protocol.Validate.each_frame
    aurora_core.Protocol.Validate.validate_frame_for_direction
    aurora_core.Protocol.Validate.validate_key_update_frame_for_direction
    aurora_core.Wire.Reader.read_each aurora_core.Wire.Reader.read_opaque24
    aurora_core.Wire.Reader.read_opaque_fixed aurora_core.Wire.Reader.read_pre_hash
    aurora_core.Wire.Reader.read_uint16 aurora_core.Wire.Reader.read_uint24
    aurora_core.Wire.Reader.read_uint32 aurora_core.Wire.Reader.read_uint64
    aurora_core.Wire.Reader.read_uint8 aurora_core.Wire.Reader.read_vector_count
    aurora_core.Wire.Reader.remaining aurora_core.Wire.Reader.set_err aurora_core.Wire.Reader.take
sample_block_valid = refl

validate_frame_block_for_direction-Accepted_example :
    All (Accepted 0) sample_block × (2 ≤ max_frame_block_frames) × (0 ≤ 1)
validate_frame_block_for_direction-Accepted_example =
    validate_frame_block_for_direction-Accepted sample_block 0 (ground arith) sample_block_valid
