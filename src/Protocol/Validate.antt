-- ===== src/Protocol/Validate.antt =====
-- protocol/frames.go: validation of frames and of frame blocks, and the frame constructors.
pub mod Accepted
pub mod Payloads
use aurora_core.Common.{
  ℕ, Bool, true, false, ◌&&◌, ◌||◌, not, Option, none, some, List, [], ◌∷◌, ltb, leb, ◌==◌,
  if◌then◌else◌, length,
}
use aurora_core.Errors.{
  Error, Result, ok, fail, ◌>>=◌, frame_count_limit, reserved_packet_direction, flow_open_backward,
  unknown_reserved_frame_type, unknown_lab_frame_type, data_zero_flow_id, data_empty_payload,
  trailing_key_update, trailing_key_update_ack, trailing_key_update_request,
  key_update_direction_mismatch, trailing_flow_management, flow_id_mismatch, trailing_route_forward,
}
use aurora_core.Registry.{
  frame_stream_data, frame_datagram_data, frame_dns_message, frame_key_update, frame_key_update_ack,
  frame_key_update_request, frame_flow_open, frame_udp_target_confirm, frame_flow_close,
  frame_route_forward,
}
use aurora_core.Wire.Encoder.{encode}
use aurora_core.Wire.Reader.{Reader, Read, new_reader, eof}
use aurora_core.Protocol.Extensions.{Extension, validate_extensions, no_extension_known}
use aurora_core.Protocol.Frames.{AuroraFrame, FrameBlock, max_frame_block_frames}
use aurora_core.Protocol.KeyUpdate.{
  KeyUpdate, decode_key_update, decode_key_update_ack, decode_key_update_request,
  validate_key_update, validate_key_update_ack, validate_key_update_request,
}
use aurora_core.Protocol.Route.{decode_route_forward, validate_route_forward}
use aurora_core.Protocol.Flows.{
  FlowOpen, UdpTargetConfirm, FlowClose, decode_flow_open, decode_udp_target_confirm,
  decode_flow_close, validate_flow_open, validate_udp_target_confirm, validate_flow_close,
  encode_flow_open, encode_udp_target_confirm, encode_flow_close,
}

-- The registered types are the numbers 0x01 to 0x11.
unfoldable pub validate_frame_type : ℕ → Result (Unit {0})
validate_frame_type frame_type =
    if leb frame_stream_data frame_type && leb frame_type frame_flow_close
    then ok tt
    else if leb frame_type 0x6fff
    then fail unknown_reserved_frame_type
    else if leb 0x7f00 frame_type && leb frame_type 0x7fff
    then fail unknown_lab_frame_type
    else ok tt

abbrev pub is_data : ℕ → Bool
is_data t = t == frame_stream_data || t == frame_datagram_data || t == frame_dns_message

unfoldable pub validate_data_frame : AuroraFrame → Result (Unit {0})
validate_data_frame frame =
    if not (is_data frame.frame_type)
    then ok tt
    else if frame.flow_id == 0
    then fail data_zero_flow_id
    else if length frame.payload == 0
    then fail data_empty_payload
    else ok tt

unfoldable pub new_data_frame : ℕ → ℕ → List ℕ → ℕ → Result AuroraFrame
new_data_frame frame_type flow_id payload flags =
    let frame : AuroraFrame = record {
      frame_type = frame_type;
      flow_id = flow_id;
      flags = flags;
      payload = payload;
    } in
    elim (validate_data_frame frame) [ fail x ↦ fail x | ok _ ↦ ok frame ]

-- The value of a payload that `m` takes whole.
unfoldable pub decode_whole {ℓ} : {A : Type ℓ} → Read A → Error → List ℕ → Result A
decode_whole m trailing payload =
    let (a, r) = m (new_reader payload) in
    elim r.err [ some x ↦ fail x | none ↦ if not (eof r) then fail trailing else ok a ]

unfoldable pub validate_key_update_frame : AuroraFrame → Result (Unit {0})
validate_key_update_frame frame =
    if frame.frame_type == frame_key_update
    then (decode_whole decode_key_update trailing_key_update frame.payload >>= validate_key_update)
    else if frame.frame_type == frame_key_update_ack
    then (decode_whole decode_key_update_ack trailing_key_update_ack frame.payload
        >>= validate_key_update_ack)
    else if frame.frame_type == frame_key_update_request
    then (decode_whole decode_key_update_request trailing_key_update_request frame.payload
        >>= validate_key_update_request)
    else ok tt

unfoldable pub validate_key_update_frame_for_direction : AuroraFrame → ℕ → Result (Unit {0})
validate_key_update_frame_for_direction frame direction =
    if not (frame.frame_type == frame_key_update)
    then ok tt
    else (decode_whole decode_key_update trailing_key_update frame.payload >>= λ update.
        validate_key_update update >>= λ _.
        if update.direction == direction then ok tt else fail key_update_direction_mismatch)

unfoldable pub validate_route_frame : AuroraFrame → Result (Unit {0})
validate_route_frame frame =
    if frame.frame_type == frame_route_forward
    then (decode_whole decode_route_forward trailing_route_forward frame.payload
        >>= validate_route_forward)
    else ok tt

-- What ValidateFlowManagementFrame does once a payload is decoded: `late` is the validation that
-- FLOW_CLOSE leaves until the reader is checked.
flow_management_tail :
    AuroraFrame → ℕ → List Extension → Result (Unit {0}) → Reader → Result (Unit {0})
flow_management_tail frame payload_flow_id extensions late r = elim r.err [
  | some x ↦ fail x
  | none ↦
      if not (eof r)
      then fail trailing_flow_management
      else (late >>= λ _. validate_extensions extensions no_extension_known >>= λ _.
          if payload_flow_id == frame.flow_id then ok tt else fail flow_id_mismatch)
]

unfoldable pub validate_flow_management_frame : AuroraFrame → Result (Unit {0})
unfolding flow_management_tail
validate_flow_management_frame frame =
    if frame.frame_type == frame_flow_open
    then (let (payload, r) = decode_flow_open (new_reader frame.payload) in
        validate_flow_open payload >>= λ _.
        flow_management_tail frame payload.flow_id payload.extensions (ok tt) r)
    else if frame.frame_type == frame_udp_target_confirm
    then (let (payload, r) = decode_udp_target_confirm (new_reader frame.payload) in
        validate_udp_target_confirm payload >>= λ _.
        flow_management_tail frame payload.flow_id payload.extensions (ok tt) r)
    else if frame.frame_type == frame_flow_close
    then (let (payload, r) = decode_flow_close (new_reader frame.payload) in
        flow_management_tail frame payload.flow_id payload.extensions (validate_flow_close payload)
          r)
    else ok tt

-- The body of the loop of ValidateFrameBlock.
unfoldable pub validate_frame : AuroraFrame → Result (Unit {0})
validate_frame frame = validate_frame_type frame.frame_type >>= λ _.
    validate_data_frame frame >>= λ _. validate_key_update_frame frame >>= λ _.
    validate_route_frame frame >>= λ _. validate_flow_management_frame frame

-- The body of the loop of ValidateFrameBlockForDirection.
unfoldable pub validate_frame_for_direction : ℕ → AuroraFrame → Result (Unit {0})
validate_frame_for_direction direction frame =
    validate_key_update_frame_for_direction frame direction >>= λ _.
    if direction == 1 && frame.frame_type == frame_flow_open then fail flow_open_backward else ok tt

-- A loop that ends at the first error.
unfoldable pub each_frame : (AuroraFrame → Result (Unit {0})) → FrameBlock → Result (Unit {0})
each_frame check [] = ok tt
each_frame check (frame ∷ frames) = let rest = each_frame check frames in check frame >>= λ _. rest

unfoldable pub validate_frame_block : FrameBlock → Result (Unit {0})
unfolding each_frame
validate_frame_block block =
    if ltb max_frame_block_frames (length block)
    then fail frame_count_limit
    else each_frame validate_frame block

unfoldable pub validate_frame_block_for_direction : FrameBlock → ℕ → Result (Unit {0})
unfolding each_frame
validate_frame_block_for_direction block direction =
    if ltb 1 direction
    then fail reserved_packet_direction
    else (validate_frame_block block >>= λ _.
        each_frame (validate_frame_for_direction direction) block)

-- The frame around an encoded payload, with no flags.
flow_frame : ℕ → ℕ → Result (List ℕ) → Result AuroraFrame
flow_frame frame_type flow_id encoded = encoded >>= λ payload.
    let frame : AuroraFrame = record {
      frame_type = frame_type;
      flow_id = flow_id;
      flags = 0;
      payload = payload;
    } in
    validate_flow_management_frame frame >>= λ _. ok frame

unfoldable pub new_udp_target_confirm_frame : UdpTargetConfirm → Result AuroraFrame
unfolding flow_frame
new_udp_target_confirm_frame confirm = validate_udp_target_confirm confirm >>= λ _.
    flow_frame frame_udp_target_confirm confirm.flow_id (encode (encode_udp_target_confirm confirm))

unfoldable pub new_flow_open_frame : FlowOpen → Result AuroraFrame
unfolding flow_frame
new_flow_open_frame flow = validate_flow_open flow >>= λ _.
    flow_frame frame_flow_open flow.flow_id (encode (encode_flow_open flow))

unfoldable pub new_flow_close_frame : FlowClose → Result AuroraFrame
unfolding flow_frame
new_flow_close_frame close = validate_flow_close close >>= λ _.
    flow_frame frame_flow_close close.flow_id (encode (encode_flow_close close))
