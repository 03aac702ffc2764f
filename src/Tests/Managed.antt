-- ===== src/Tests/Managed.antt =====
-- flow/flow.go: the manager of flows at concrete inputs.
use aurora_core.Common.{
  ℕ, ◌≡◌, ◌≢◌, refl, arith, Bool, true, false, Option, none, some, List, [], ◌∷◌, replicate,
}
use aurora_core.Errors.{ok, fail, duplicate_flow_id}
use aurora_core.Protocol.Flows.{FlowOpen, FlowClose, UdpTargetConfirm}
use aurora_core.Flow.Manager.{
  FlowState, FlowOptions, DatagramOptions, CloseOptions, Flows, lookup, opened, validate_open,
  open_with_options, confirm_udp_with_options, accept_datagram_with_options, mark_close,
}
use aurora_core.Flow.Manager.Closing.{
  mark_close-accept_datagram, mark_close-both, open_with_options-lookup,
}
use aurora_core.Flow.Manager.Datagrams.{Carried, accept_datagram-Carried, accept_datagram-other}
use aurora_core.Flow.Manager.Confirming.{Confirmed, confirm_udp_with_options-Confirmed}

abbrev udp_request : FlowOpen
udp_request = record {
  flow_open_version = 512;
  flow_id = 9;
  flow_kind = 2;
  target_kind = 1;
  target_host = 10 ∷ 0 ∷ 0 ∷ 1 ∷ [];
  target_port = 53;
  udp_fqdn_mode = 0;
  name_binding_id = replicate 16 0;
  original_domain_hint = [];
  dns_answer_set_hash = replicate 48 0;
  local_binding_mode = 0;
  priority_class = 1;
  extensions = [];
}

abbrev at_100 : FlowOptions
at_100 = record { now_unix = 100; ttl_seconds = 60; idle_timeout_seconds = 30 }

abbrev udp_flows : Flows
udp_flows = (9, opened udp_request at_100) ∷ []

udp_request_valid : validate_open udp_request ≡ ok tt
unfolding validate_open aurora_core.Protocol.Flows.validate_flow_open
    aurora_core.Protocol.Extensions.validate_extensions
udp_request_valid = refl

udp_request_opened : open_with_options [] udp_request at_100 ≡ ok udp_flows
unfolding open_with_options validate_open aurora_core.Protocol.Flows.validate_flow_open
    aurora_core.Protocol.Extensions.validate_extensions lookup aurora_core.Flow.Manager.delete
udp_request_opened = refl

open_with_options-lookup_example :
    (lookup 9 [] ≡ none)
    × (lookup 9 udp_flows ≡ some (opened udp_request at_100))
    × (open_with_options udp_flows udp_request at_100 ≡ fail duplicate_flow_id)
open_with_options-lookup_example =
    open_with_options-lookup [] udp_request udp_request at_100 at_100 udp_flows udp_request_opened
      refl udp_request_valid

abbrev datagram_at : ℕ → DatagramOptions
datagram_at now = record { now_unix = now; sent_at_unix = 0; max_realtime_age_seconds = 0 }

abbrev carried_state : FlowState
carried_state = record (opened udp_request at_100) { last_activity_unix = 120 }

datagram_accepted :
    (accept_datagram_with_options udp_flows 9 (datagram_at 120)).0 ≡ some carried_state
unfolding accept_datagram_with_options aurora_core.Flow.State.lookup
    aurora_core.Flow.Manager.expired aurora_core.Flow.Manager.stale_realtime_datagram
datagram_accepted = refl

accept_datagram-Carried_example :
    ((accept_datagram_with_options udp_flows 9 (datagram_at 120)).0 ≡ some carried_state
      → Carried udp_flows 9 (datagram_at 120) carried_state)
    × (Carried udp_flows 9 (datagram_at 120) carried_state
        → ((accept_datagram_with_options udp_flows 9 (datagram_at 120)).0 ≡ some carried_state)
          × (lookup 9 (accept_datagram_with_options udp_flows 9 (datagram_at 120)).1
              ≡ some carried_state))
accept_datagram-Carried_example =
    accept_datagram-Carried udp_flows 9 (datagram_at 120) carried_state

-- The state that the run above returns.
carried_stored :
    lookup 9 (accept_datagram_with_options udp_flows 9 (datagram_at 120)).1 ≡ some carried_state
carried_stored =
    let (carries, accepts) = accept_datagram-Carried udp_flows 9 (datagram_at 120) carried_state in
    (accepts (carries datagram_accepted)).1

-- At second 170 the flow has expired: it is deleted, and flow 8 is as before.
accept_datagram-other_example :
    lookup 8 (accept_datagram_with_options udp_flows 9 (datagram_at 170)).1 ≡ lookup 8 udp_flows
accept_datagram-other_example = accept_datagram-other udp_flows 9 8 (datagram_at 170) (ground arith)

abbrev normal_close : FlowClose
normal_close = record {
  flow_id = 9;
  close_code = 0;
  final_sequence_hint_present = false;
  final_sequence_hint = 0;
  reason = [];
  extensions = [];
}

abbrev drain_5 : CloseOptions
drain_5 = record { now_unix = 110; drain_seconds = 5 }

abbrev half_closed : Flows
half_closed =
    (9, record (opened udp_request at_100) { local_closed = true; drain_until_unix = 115 }) ∷ []

closed_here : mark_close udp_flows normal_close drain_5 true ≡ ok half_closed
unfolding mark_close aurora_core.Protocol.Flows.validate_flow_close
    aurora_core.Protocol.Extensions.validate_extensions aurora_core.Flow.State.lookup
    aurora_core.Flow.Manager.close_drain_until aurora_core.Flow.State.delete
closed_here = refl

closed_there : mark_close half_closed normal_close drain_5 false ≡ ok []
unfolding mark_close aurora_core.Protocol.Flows.validate_flow_close
    aurora_core.Protocol.Extensions.validate_extensions aurora_core.Flow.State.lookup
    aurora_core.Flow.State.delete
closed_there = refl

mark_close-accept_datagram_example :
    (accept_datagram_with_options half_closed 9 (datagram_at 111)).0 ≡ none
mark_close-accept_datagram_example =
    mark_close-accept_datagram udp_flows normal_close drain_5 true half_closed (datagram_at 111)
      closed_here

mark_close-both_example : lookup 9 [] ≡ none
mark_close-both_example =
    mark_close-both udp_flows normal_close normal_close drain_5 drain_5 true half_closed [] refl
      closed_here closed_there

abbrev udp_confirm : UdpTargetConfirm
udp_confirm = record {
  flow_id = 9;
  target_kind = 1;
  selected_ip = 10 ∷ 0 ∷ 0 ∷ 1 ∷ [];
  selected_port = 53;
  dns_answer_set_hash = replicate 48 0;
  ttl_seconds = 20;
  resolution_source = 0;
  extensions = [];
}

abbrev confirmed_flows : Flows
confirmed_flows =
    (
      9,
      record (opened udp_request at_100) {
        ttl_seconds = 25;
        confirmed_host = 10 ∷ 0 ∷ 0 ∷ 1 ∷ [];
        confirmed_port = 53;
        confirmed_dns_answer_set_hash = replicate 48 0;
        confirmed_ttl_seconds = 20;
        confirmed_at_unix = 105;
        confirmed_resolution_source = 0;
      },
    )
    ∷ []

udp_confirmed : confirm_udp_with_options udp_flows udp_confirm 105 ≡ ok confirmed_flows
unfolding confirm_udp_with_options aurora_core.Protocol.Flows.validate_udp_target_confirm
    aurora_core.Protocol.Extensions.validate_extensions lookup
    aurora_core.Flow.Manager.validate_udp_confirm_against_flow aurora_core.Common.bytes_equal
    aurora_core.Flow.Manager.apply_udp_confirm_ttl aurora_core.Flow.Manager.delete
udp_confirmed = refl

confirm_udp_with_options-Confirmed_example : Confirmed udp_flows udp_confirm confirmed_flows
confirm_udp_with_options-Confirmed_example =
    confirm_udp_with_options-Confirmed udp_flows udp_confirm 105 confirmed_flows (omega arith)
      udp_confirmed
