-- ===== src/Flow/Manager.antt =====
-- flow/flow.go: the manager of flows. The map of flows is a list of states by flow identifier, newest
-- entry first, and an operation returns the map as it leaves it. Times are seconds in 64 bits.
pub mod Lookup
pub mod Closing
pub mod Datagrams
pub mod Confirming
use aurora_core.Common.{
  ℕ, zero, suc, ◌+◌, ◌-◌, ◌%◌, ◌^◌, Bool, true, false, not, ◌&&◌, ◌||◌, Option, none, some, List,
  [], ◌∷◌, map, ltb, leb, ◌==◌, if◌then◌else◌, length, bytes_equal,
}
use aurora_core.Errors.{
  Error, Result, ok, fail, ◌>>=◌, reserved_flow_kind, ipv4_target_length, ipv6_target_length,
  domain_not_canonical, reserved_target_kind, binding_lengths, udp_domain_mode, udp_domain_hint,
  fake_ip_relay_resolved, duplicate_flow_id, unknown_flow_id, not_udp_flow, confirm_target_mismatch,
  confirm_answer_hash_mismatch, not_udp_target_confirm, not_flow_close,
}
use aurora_core.Registry.{frame_udp_target_confirm, frame_flow_close}
use aurora_core.Wire.Reader.{Read, new_reader}
use aurora_core.Protocol.Frames.{AuroraFrame}
use aurora_core.Protocol.Flows.{
  FlowOpen, validate_flow_open, UdpTargetConfirm, decode_udp_target_confirm,
  validate_udp_target_confirm, FlowClose, decode_flow_close, validate_flow_close,
}
use aurora_core.Protocol.Validate.{validate_flow_management_frame}
use aurora_core.Flow.{priority_realtime}
pub use aurora_core.Flow.State.{
  flow_kind_udp_association, target_kind_ipv4, target_kind_ipv6, FlowState, FlowOptions,
  DatagramOptions, CloseOptions, Flows, store,
}
unfoldable pub use aurora_core.Flow.State.{lookup, delete}
unfoldable pub use aurora_core.Flow.Opening.{validate_open}

abbrev pub opened : FlowOpen → FlowOptions → FlowState
opened flow opts = record {
  flow_id = flow.flow_id;
  kind = flow.flow_kind;
  target_kind = flow.target_kind;
  target_host = flow.target_host;
  target_port = flow.target_port;
  udp_fqdn_mode = flow.udp_fqdn_mode;
  name_binding_id = flow.name_binding_id;
  dns_answer_set_hash = flow.dns_answer_set_hash;
  local_binding_mode = flow.local_binding_mode;
  priority_class = flow.priority_class;
  created_at_unix = opts.now_unix;
  last_activity_unix = opts.now_unix;
  ttl_seconds = opts.ttl_seconds;
  idle_timeout_secs = opts.idle_timeout_seconds;
  confirmed_host = [];
  confirmed_port = 0;
  confirmed_dns_answer_set_hash = [];
  confirmed_ttl_seconds = 0;
  confirmed_at_unix = 0;
  confirmed_resolution_source = 0;
  local_closed = false;
  peer_closed = false;
  close_code = 0;
  final_sequence_hint_present = false;
  final_sequence_hint = 0;
  drain_until_unix = 0;
}

unfoldable pub open_with_options : Flows → FlowOpen → FlowOptions → Result Flows
open_with_options flows flow opts = validate_open flow >>= λ _. elim (lookup flow.flow_id flows) [
  | some _ ↦ fail duplicate_flow_id
  | none ↦ ok (store flow.flow_id (opened flow opts) flows)
]

unfoldable pub validate_udp_confirm_against_flow : FlowState → UdpTargetConfirm → Result (Unit {0})
validate_udp_confirm_against_flow state confirm =
    if ltb 0x01 state.udp_fqdn_mode
    then ok tt
    else if not (state.target_kind == target_kind_ipv4)
        && not (state.target_kind == target_kind_ipv6)
    then ok tt
    else if not (confirm.target_kind == state.target_kind)
        || not (confirm.selected_port == state.target_port)
        || not (bytes_equal confirm.selected_ip state.target_host)
    then fail confirm_target_mismatch
    else if length state.dns_answer_set_hash == 48
        && not (bytes_equal confirm.dns_answer_set_hash state.dns_answer_set_hash)
    then fail confirm_answer_hash_mismatch
    else ok tt

unfoldable pub apply_udp_confirm_ttl : FlowState → ℕ → ℕ → FlowState
apply_udp_confirm_ttl state now ttl_seconds =
    let from = if ltb now state.created_at_unix then state.created_at_unix else now in
    let confirmed_ttl = (from - state.created_at_unix + ttl_seconds) % 2 ^ 64 in
    if now == 0 || ttl_seconds == 0
    then state
    else if state.ttl_seconds == 0 || ltb confirmed_ttl state.ttl_seconds
    then record state { ttl_seconds = confirmed_ttl }
    else state

abbrev pub confirmed : FlowState → UdpTargetConfirm → ℕ → FlowState
confirmed state confirm now = record state {
  confirmed_host = confirm.selected_ip;
  confirmed_port = confirm.selected_port;
  confirmed_dns_answer_set_hash = confirm.dns_answer_set_hash;
  confirmed_ttl_seconds = confirm.ttl_seconds;
  confirmed_at_unix = now;
  confirmed_resolution_source = confirm.resolution_source;
}

unfoldable pub confirm_udp_with_options : Flows → UdpTargetConfirm → ℕ → Result Flows
confirm_udp_with_options flows confirm now = validate_udp_target_confirm confirm >>= λ _.
    elim (lookup confirm.flow_id flows) [
      | none ↦ fail unknown_flow_id
      | some state ↦
          if not (state.kind == flow_kind_udp_association)
          then fail not_udp_flow
          else (validate_udp_confirm_against_flow state confirm >>= λ _. ok (
              store confirm.flow_id
                (apply_udp_confirm_ttl (confirmed state confirm now) now confirm.ttl_seconds)
                flows))
    ]

-- The payload of a frame that passed ValidateFlowManagementFrame, decoded again.
abbrev decode_managed : {A : Type 0} → ℕ → Error → Read A → AuroraFrame → Result A
decode_managed frame_type wrong m frame =
    let (a, r) = m (new_reader frame.payload) in
    if not (frame.frame_type == frame_type)
    then fail wrong
    else (validate_flow_management_frame frame >>= λ _. elim r.err [
      | some x ↦ fail x
      | none ↦ ok a
    ])

unfoldable pub decode_udp_target_confirm_frame : AuroraFrame → Result UdpTargetConfirm
decode_udp_target_confirm_frame frame =
    decode_managed frame_udp_target_confirm not_udp_target_confirm decode_udp_target_confirm frame

unfoldable pub decode_flow_close_frame : AuroraFrame → Result FlowClose
decode_flow_close_frame frame =
    decode_managed frame_flow_close not_flow_close decode_flow_close frame

unfoldable pub confirm_udp_frame_with_options : Flows → AuroraFrame → ℕ → Result Flows
confirm_udp_frame_with_options flows frame now =
    decode_udp_target_confirm_frame frame >>= λ confirm. confirm_udp_with_options flows confirm now

unfoldable pub expired : FlowState → ℕ → Bool
expired s now =
    if ltb 0 s.ttl_seconds && leb ((s.created_at_unix + s.ttl_seconds) % 2 ^ 64) now
    then true
    else if ltb 0 s.idle_timeout_secs
        && ltb ((s.last_activity_unix + s.idle_timeout_secs) % 2 ^ 64) now
    then true
    else false

unfoldable pub stale_realtime_datagram : FlowState → DatagramOptions → Bool
stale_realtime_datagram s opts =
    if not (s.priority_class == priority_realtime)
      || opts.max_realtime_age_seconds == 0
      || opts.sent_at_unix == 0
    then false
    else if leb opts.now_unix opts.sent_at_unix
    then false
    else ltb opts.max_realtime_age_seconds (opts.now_unix - opts.sent_at_unix)

unfoldable pub accept_datagram_with_options : Flows → ℕ → DatagramOptions → Option FlowState × Flows
accept_datagram_with_options flows flow_id opts = elim (lookup flow_id flows) [
  | none ↦ (none, flows)
  | some state ↦
      let touched = record state { last_activity_unix = opts.now_unix } in
      if not (state.kind == flow_kind_udp_association)
      then (none, flows)
      else if state.local_closed || state.peer_closed
      then (none, flows)
      else if expired state opts.now_unix
      then (none, delete flow_id flows)
      else if stale_realtime_datagram state opts
      then (none, flows)
      else (some touched, store flow_id touched flows)
]

-- `Close`.
unfoldable pub close_flow : Flows → FlowClose → Result Flows
close_flow flows closing = elim (lookup closing.flow_id flows) [
  | none ↦ fail unknown_flow_id
  | some _ ↦ ok (delete closing.flow_id flows)
]

unfoldable pub close_drain_until : CloseOptions → ℕ
close_drain_until opts = (opts.now_unix + opts.drain_seconds) % 2 ^ 64

-- The state of a flow once a side has closed it.
abbrev pub marked : FlowState → FlowClose → CloseOptions → Bool → FlowState
marked state closing opts is_local = record state {
  local_closed = if is_local then true else state.local_closed;
  peer_closed = if is_local then state.peer_closed else true;
  close_code = closing.close_code;
  final_sequence_hint_present = closing.final_sequence_hint_present;
  final_sequence_hint = closing.final_sequence_hint;
  drain_until_unix = close_drain_until opts;
}

unfoldable pub mark_close : Flows → FlowClose → CloseOptions → Bool → Result Flows
mark_close flows closing opts is_local = validate_flow_close closing >>= λ _.
    elim (lookup closing.flow_id flows) [
      | none ↦ fail unknown_flow_id
      | some state ↦
          let next = marked state closing opts is_local in
          if next.local_closed && next.peer_closed
          then ok (delete closing.flow_id flows)
          else ok (store closing.flow_id next flows)
    ]

unfoldable pub mark_close_frame : Flows → AuroraFrame → CloseOptions → Bool → Result Flows
mark_close_frame flows frame opts is_local =
    decode_flow_close_frame frame >>= λ closing. mark_close flows closing opts is_local

unfoldable pub purge_closed : Flows → ℕ → Flows
purge_closed [] now = []
purge_closed ((key, state) ∷ flows) now =
    let rest = purge_closed flows now in
    if (state.local_closed || state.peer_closed) && leb state.drain_until_unix now
    then rest
    else (key, state) ∷ rest
