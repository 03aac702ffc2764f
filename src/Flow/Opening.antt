-- ===== src/Flow/Opening.antt =====
-- flow/flow.go: what `validateOpen` asks of a request, on top of the protocol's own validation. The
-- strings that canonicalDomain compares have passed that validation, so they are ASCII bytes.
use aurora_core.Common.{
  ℕ, ◌+◌, Bool, not, ◌&&◌, ◌||◌, List, [], ◌∷◌, map, ltb, leb, ◌==◌, if◌then◌else◌, length,
  bytes_equal,
}
use aurora_core.Errors.{
  Result, ok, fail, ◌>>=◌, reserved_flow_kind, ipv4_target_length, ipv6_target_length,
  domain_not_canonical, reserved_target_kind, binding_lengths, udp_domain_mode, udp_domain_hint,
  fake_ip_relay_resolved,
}
use aurora_core.Protocol.Flows.{FlowOpen, validate_flow_open}
use aurora_core.Flow.State.{
  flow_kind_udp_association, target_kind_ipv4, target_kind_ipv6, target_kind_domain_name,
  udp_fqdn_relay_resolved_flow_bound, local_binding_transparent_fake_ip,
}

-- strings.TrimSpace, strings.ToLower and strings.TrimSuffix on ASCII.
is_space : ℕ → Bool
is_space b = b == 32 || leb 9 b && leb b 13

trim_left : List ℕ → List ℕ
unfolding is_space
trim_left [] = []
trim_left (b ∷ bs) = let rest = trim_left bs in if is_space b then rest else b ∷ bs

trim_right : (ℕ → Bool) → List ℕ → List ℕ
trim_right drops [] = []
trim_right drops (b ∷ bs) =
    let rest = trim_right drops bs in if length rest == 0 && drops b then [] else b ∷ rest

trim_suffix : ℕ → List ℕ → List ℕ
trim_suffix suffix [] = []
trim_suffix suffix (b ∷ []) = if b == suffix then [] else b ∷ []
trim_suffix suffix (b ∷ c ∷ bs) = b ∷ trim_suffix suffix (c ∷ bs)

abbrev lower : ℕ → ℕ
lower b = if leb 65 b && leb b 90 then b + 32 else b

unfoldable pub canonical_domain : List ℕ → List ℕ
unfolding is_space trim_left trim_right trim_suffix
canonical_domain domain =
    let d = trim_suffix 46 (map lower (trim_right is_space (trim_left domain))) in
    if bytes_equal d (46 ∷ []) then [] else d

validate_open_udp : FlowOpen → Result (Unit {0})
validate_open_udp flow =
    let relay_resolved = flow.udp_fqdn_mode == udp_fqdn_relay_resolved_flow_bound in
    let is_domain = flow.target_kind == target_kind_domain_name in
    if is_domain && not relay_resolved
    then fail udp_domain_mode
    else if not (length flow.original_domain_hint == 0) && (not is_domain || not relay_resolved)
    then fail udp_domain_hint
    else if flow.local_binding_mode == local_binding_transparent_fake_ip && relay_resolved
    then fail fake_ip_relay_resolved
    else ok tt

validate_open_kind : FlowOpen → Result (Unit {0})
validate_open_kind flow =
    if ltb 0 flow.flow_kind && leb flow.flow_kind 0x03 then ok tt else fail reserved_flow_kind

validate_open_target : FlowOpen → Result (Unit {0})
unfolding canonical_domain
validate_open_target flow =
    if flow.target_kind == target_kind_ipv4
    then (if length flow.target_host == 4 then ok tt else fail ipv4_target_length)
    else if flow.target_kind == target_kind_ipv6
    then (if length flow.target_host == 16 then ok tt else fail ipv6_target_length)
    else if flow.target_kind == target_kind_domain_name
    then (if bytes_equal flow.target_host (canonical_domain flow.target_host)
        then ok tt
        else fail domain_not_canonical)
    else fail reserved_target_kind

unfoldable pub validate_open : FlowOpen → Result (Unit {0})
unfolding validate_open_udp validate_open_kind validate_open_target
validate_open flow = validate_flow_open flow >>= λ _. validate_open_kind flow >>= λ _.
    validate_open_target flow >>= λ _.
    if not (length flow.name_binding_id == 16) || not (length flow.dns_answer_set_hash == 48)
    then fail binding_lengths
    else if flow.flow_kind == flow_kind_udp_association
    then validate_open_udp flow
    else ok tt
