-- ===== src/Flow/State.antt =====
-- flow/flow.go: the state of a flow, the options of the operations, and the map of flows.
use aurora_core.Common.{ℕ, Bool, Option, none, some, List, [], ◌∷◌, ◌==◌, if◌then◌else◌}

abbrev pub flow_kind_udp_association : ℕ
flow_kind_udp_association = 0x02

abbrev pub target_kind_ipv4 : ℕ
target_kind_ipv4 = 0x01

abbrev pub target_kind_ipv6 : ℕ
target_kind_ipv6 = 0x02

abbrev pub target_kind_domain_name : ℕ
target_kind_domain_name = 0x03

abbrev pub udp_fqdn_relay_resolved_flow_bound : ℕ
udp_fqdn_relay_resolved_flow_bound = 0x02

abbrev pub local_binding_transparent_fake_ip : ℕ
local_binding_transparent_fake_ip = 0x02

pub record FlowState : Type 0 where
  pub flow_id : ℕ
  pub kind : ℕ
  pub target_kind : ℕ
  pub target_host : List ℕ
  pub target_port : ℕ
  pub udp_fqdn_mode : ℕ
  pub name_binding_id : List ℕ
  pub dns_answer_set_hash : List ℕ
  pub local_binding_mode : ℕ
  pub priority_class : ℕ
  pub created_at_unix : ℕ
  pub last_activity_unix : ℕ
  pub ttl_seconds : ℕ
  pub idle_timeout_secs : ℕ
  pub confirmed_host : List ℕ
  pub confirmed_port : ℕ
  pub confirmed_dns_answer_set_hash : List ℕ
  pub confirmed_ttl_seconds : ℕ
  pub confirmed_at_unix : ℕ
  pub confirmed_resolution_source : ℕ
  pub local_closed : Bool
  pub peer_closed : Bool
  pub close_code : ℕ
  pub final_sequence_hint_present : Bool
  pub final_sequence_hint : ℕ
  pub drain_until_unix : ℕ

pub record FlowOptions : Type 0 where
  pub now_unix : ℕ
  pub ttl_seconds : ℕ
  pub idle_timeout_seconds : ℕ

pub record DatagramOptions : Type 0 where
  pub now_unix : ℕ
  pub sent_at_unix : ℕ
  pub max_realtime_age_seconds : ℕ

pub record CloseOptions : Type 0 where
  pub now_unix : ℕ
  pub drain_seconds : ℕ

-- The map of the manager: reading, writing and deleting a key.
abbrev pub Flows : Type 0
Flows = List (ℕ × FlowState)

unfoldable pub lookup : ℕ → Flows → Option FlowState
lookup flow_id [] = none
lookup flow_id ((key, state) ∷ flows) = if key == flow_id then some state else lookup flow_id flows

unfoldable pub delete : ℕ → Flows → Flows
delete flow_id [] = []
delete flow_id ((key, state) ∷ flows) =
    let rest = delete flow_id flows in if key == flow_id then rest else (key, state) ∷ rest

abbrev pub store : ℕ → FlowState → Flows → Flows
store flow_id state flows = (flow_id, state) ∷ delete flow_id flows
