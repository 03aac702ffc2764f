-- ===== src/Flow/Manager/Confirming.antt =====
-- flow/flow.go: confirmation of a UDP flow's target.
use aurora_core.Common.{
  ℕ, ◌+◌, ◌^◌, ◌≤◌, ◌<◌, ◌≡◌, arith, some, Option-cases, inl, inr, bytes_equal→eq,
}
use aurora_core.Errors.{ok}
use aurora_core.Protocol.Flows.{UdpTargetConfirm}
use aurora_core.Flow.Manager.{
  FlowState, Flows, lookup, confirm_udp_with_options, flow_kind_udp_association,
  validate_udp_confirm_against_flow, apply_udp_confirm_ttl, confirmed, target_kind_ipv4,
}
use aurora_core.Flow.Manager.Lookup.{lookup-store_self}

-- What a confirmation that succeeds says of the flow before and after.
pub record Confirmed (flows : Flows) (confirm : UdpTargetConfirm) (after : Flows) : Type 0 where
  pub before : FlowState
  pub now_stored : FlowState
  pub known : lookup confirm.flow_id flows ≡ some before
  pub stored : lookup confirm.flow_id after ≡ some now_stored
  pub udp : before.kind ≡ flow_kind_udp_association
  pub host : now_stored.confirmed_host ≡ confirm.selected_ip
  pub port : now_stored.confirmed_port ≡ confirm.selected_port
  -- A lifetime that is set stays set, and is not extended.
  pub lifetime :
      0 < before.ttl_seconds
      → (0 < now_stored.ttl_seconds) × (now_stored.ttl_seconds ≤ before.ttl_seconds)
  -- An IPv4 target that is authoritative is the target confirmed.
  pub same_host :
      before.udp_fqdn_mode ≤ 1
      → before.target_kind ≡ target_kind_ipv4
      → confirm.selected_ip ≡ before.target_host
  pub same_port :
      before.udp_fqdn_mode ≤ 1
      → before.target_kind ≡ target_kind_ipv4
      → confirm.selected_port ≡ before.target_port

ttl_le :
    (s : FlowState) (now ttl : ℕ)
    → now + ttl < 2 ^ 64
    → 0 < s.ttl_seconds
    → (0 < (apply_udp_confirm_ttl s now ttl).ttl_seconds)
      × ((apply_udp_confirm_ttl s now ttl).ttl_seconds ≤ s.ttl_seconds)
unfolding apply_udp_confirm_ttl
ttl_le s now ttl b h = (ground arith, ground arith)

ttl_keeps :
    (s : FlowState) (now ttl : ℕ)
    → ((apply_udp_confirm_ttl s now ttl).confirmed_host ≡ s.confirmed_host)
      × ((apply_udp_confirm_ttl s now ttl).confirmed_port ≡ s.confirmed_port)
unfolding apply_udp_confirm_ttl
ttl_keeps s now ttl = (ground arith, ground arith)

against_flow :
    (s : FlowState) (confirm : UdpTargetConfirm)
    → validate_udp_confirm_against_flow s confirm ≡ ok tt
    → s.udp_fqdn_mode ≤ 1
    → s.target_kind ≡ target_kind_ipv4
    → (confirm.selected_ip ≡ s.target_host) × (confirm.selected_port ≡ s.target_port)
unfolding validate_udp_confirm_against_flow
against_flow s confirm e m k = (
  bytes_equal→eq confirm.selected_ip s.target_host (ground (arith, e, m, k)),
  ground (arith, e, m, k),
)

-- Where the time and the confirmed lifetime have a sum below 2^64, a confirmation succeeds only for a
-- known UDP flow; it records the selected address and port, neither removes nor lengthens a lifetime
-- that is set, and for a flow whose IPv4 target is authoritative the selected address and port are
-- those of the flow's target.
pub confirm_udp_with_options-Confirmed :
    (flows : Flows) (confirm : UdpTargetConfirm) (now : ℕ) (after : Flows)
    → now + confirm.ttl_seconds < 2 ^ 64
    → confirm_udp_with_options flows confirm now ≡ ok after
    → Confirmed flows confirm after
unfolding confirm_udp_with_options
confirm_udp_with_options-Confirmed flows confirm now after b e =
    elim (Option-cases (lookup confirm.flow_id flows)) [
      | inl q ↦ absurd (ground (arith, e, q))
      | inr (s, q) ↦
          let t = confirmed s confirm now in
          let s' = apply_udp_confirm_ttl t now confirm.ttl_seconds in
          let against : validate_udp_confirm_against_flow s confirm ≡ ok tt =
            ground (arith, e, q) in
          record {
            before = s;
            now_stored = s';
            known = q;
            stored = ground (arith, e, q, lookup-store_self confirm.flow_id s' flows);
            udp = ground (arith, e, q);
            host = (ttl_keeps t now confirm.ttl_seconds).0;
            port = (ttl_keeps t now confirm.ttl_seconds).1;
            lifetime = ttl_le t now confirm.ttl_seconds b;
            same_host = λ m k. (against_flow s confirm against m k).0;
            same_port = λ m k. (against_flow s confirm against m k).1;
          }
    ]
