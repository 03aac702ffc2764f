-- ===== src/Protocol/Validate/Payloads.antt =====
-- protocol/frames.go: the payloads of the control frames, each taken whole.
use aurora_core.Common.{ℕ, ◌≡◌, List}
use aurora_core.Common.Words.{Bytes}
use aurora_core.Errors.{Error, ok}
use aurora_core.Wire.Encoder.{encode}
use aurora_core.Protocol.KeyUpdate.{
  KeyUpdate, KeyUpdateAck, encode_key_update_ack, decode_key_update_ack, KeyUpdateRequest,
  encode_key_update_request, decode_key_update_request,
}
use aurora_core.Protocol.KeyUpdate.Codec.{key_update_ack_Canonical, key_update_request_Canonical}
use aurora_core.Protocol.Route.{
  RouteForwardFrame, encode_route_forward, decode_route_forward, RoutePreludeEnvelope,
  encode_route_prelude_envelope, decode_route_prelude_envelope,
}
use aurora_core.Protocol.Route.Codec.{route_forward_Canonical, route_prelude_envelope_Canonical}
use aurora_core.Protocol.Flows.{
  FlowOpen, encode_flow_open, decode_flow_open, UdpTargetConfirm, encode_udp_target_confirm,
  decode_udp_target_confirm, FlowClose, encode_flow_close, decode_flow_close,
}
use aurora_core.Protocol.Flows.Codec.{
  flow_open_Canonical, udp_target_confirm_Canonical, flow_close_Canonical,
}
use aurora_core.Protocol.Validate.{decode_whole}
use aurora_core.Protocol.Validate.Accepted.{decode_whole-encode}

-- A KEY_UPDATE_ACK payload that decodes whole is the one that the encoder writes for it.
pub decode_key_update_ack-encode :
    (b : List ℕ) (ack : KeyUpdateAck) (trailing : Error)
    → Bytes b
    → decode_whole decode_key_update_ack trailing b ≡ ok ack
    → encode (encode_key_update_ack ack) ≡ ok b
decode_key_update_ack-encode b ack trailing hb e =
    decode_whole-encode trailing key_update_ack_Canonical b hb e

-- A KEY_UPDATE_REQUEST payload that decodes whole is the one that the encoder writes for it.
pub decode_key_update_request-encode :
    (b : List ℕ) (request : KeyUpdateRequest) (trailing : Error)
    → Bytes b
    → decode_whole decode_key_update_request trailing b ≡ ok request
    → encode (encode_key_update_request request) ≡ ok b
decode_key_update_request-encode b request trailing hb e =
    decode_whole-encode trailing key_update_request_Canonical b hb e

-- A ROUTE_FORWARD payload that decodes whole is the one that the encoder writes for it.
pub decode_route_forward-encode :
    (b : List ℕ) (forward : RouteForwardFrame) (trailing : Error)
    → Bytes b
    → decode_whole decode_route_forward trailing b ≡ ok forward
    → encode (encode_route_forward forward) ≡ ok b
decode_route_forward-encode b forward trailing hb e =
    decode_whole-encode trailing route_forward_Canonical b hb e

-- A route prelude payload that decodes whole is the one that the encoder writes for it.
pub decode_route_prelude_envelope-encode :
    (b : List ℕ) (prelude : RoutePreludeEnvelope) (trailing : Error)
    → Bytes b
    → decode_whole decode_route_prelude_envelope trailing b ≡ ok prelude
    → encode (encode_route_prelude_envelope prelude) ≡ ok b
decode_route_prelude_envelope-encode b prelude trailing hb e =
    decode_whole-encode trailing route_prelude_envelope_Canonical b hb e

-- A FLOW_OPEN payload that decodes whole is the one that the encoder writes for it.
pub decode_flow_open-encode :
    (b : List ℕ) (flow : FlowOpen) (trailing : Error)
    → Bytes b
    → decode_whole decode_flow_open trailing b ≡ ok flow
    → encode (encode_flow_open flow) ≡ ok b
decode_flow_open-encode b flow trailing hb e =
    decode_whole-encode trailing flow_open_Canonical b hb e

-- A UDP_TARGET_CONFIRM payload that decodes whole is the one that the encoder writes for it.
pub decode_udp_target_confirm-encode :
    (b : List ℕ) (confirm : UdpTargetConfirm) (trailing : Error)
    → Bytes b
    → decode_whole decode_udp_target_confirm trailing b ≡ ok confirm
    → encode (encode_udp_target_confirm confirm) ≡ ok b
decode_udp_target_confirm-encode b confirm trailing hb e =
    decode_whole-encode trailing udp_target_confirm_Canonical b hb e

-- A FLOW_CLOSE payload that decodes whole is the one that the encoder writes for it.
pub decode_flow_close-encode :
    (b : List ℕ) (closing : FlowClose) (trailing : Error)
    → Bytes b
    → decode_whole decode_flow_close trailing b ≡ ok closing
    → encode (encode_flow_close closing) ≡ ok b
decode_flow_close-encode b closing trailing hb e =
    decode_whole-encode trailing flow_close_Canonical b hb e
