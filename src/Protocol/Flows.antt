-- ===== src/Protocol/Flows.antt =====
-- protocol/frames.go: FLOW_OPEN, UDP_TARGET_CONFIRM and FLOW_CLOSE payloads and their validation.
pub mod Codec
use aurora_core.Common.{
  ℕ, zero, suc, ◌+◌, ◌-◌, Bool, true, false, ◌&&◌, ◌||◌, not, Option, none, some, List, [], ◌∷◌,
  ltb, leb, ◌==◌, if◌then◌else◌, length, get_or,
}
use aurora_core.Errors.{
  Error, Result, ok, fail, ◌>>=◌ as bind_result, unsupported_flow_open_version,
  flow_open_zero_flow_id, reserved_flow_kind, ipv4_target_length, ipv6_target_length,
  reserved_target_kind, reserved_udp_fqdn_mode, name_binding_length, answer_hash_length,
  reserved_local_binding_mode, reserved_priority_class, domain_empty, domain_too_long,
  domain_trailing_dot, label_starts_with_hyphen, label_empty, label_ends_with_hyphen,
  domain_not_lower_case, label_too_long, confirm_zero_flow_id, confirm_ipv4_length,
  confirm_ipv6_length, confirm_target_kind, confirm_answer_hash_length, confirm_ttl,
  reserved_resolution_source, close_zero_flow_id, reserved_close_code,
}
use aurora_core.Registry.{version20}
use aurora_core.Wire.Encoder.{
  Write, ◌>>◌, write_varint, write_uint8, write_bool, write_uint16, write_uint32, write_uint64,
  write_pre_hash, write_opaque_fixed, write_opaque16,
}
use aurora_core.Wire.Reader.{
  Read, ◌>>=◌, pure, read_varint, read_uint8, read_bool, read_uint16, read_uint32, read_uint64,
  read_pre_hash, read_opaque_fixed, read_opaque16,
}
use aurora_core.Protocol.Extensions.{
  Extension, encode_extensions, decode_extensions, validate_extensions, no_extension_known,
}

pub record FlowOpen : Type 0 where
  pub flow_open_version : ℕ
  pub flow_id : ℕ
  pub flow_kind : ℕ
  pub target_kind : ℕ
  pub target_host : List ℕ
  pub target_port : ℕ
  pub udp_fqdn_mode : ℕ
  pub name_binding_id : List ℕ
  pub original_domain_hint : List ℕ
  pub dns_answer_set_hash : List ℕ
  pub local_binding_mode : ℕ
  pub priority_class : ℕ
  pub extensions : List Extension

unfoldable pub encode_flow_open : FlowOpen → Write
encode_flow_open f = do
  write_varint f.flow_open_version
  write_varint f.flow_id
  write_uint8 f.flow_kind
  write_uint8 f.target_kind
  write_opaque16 f.target_host
  write_uint16 f.target_port
  write_uint8 f.udp_fqdn_mode
  write_opaque_fixed f.name_binding_id 16
  write_opaque16 f.original_domain_hint
  write_pre_hash f.dns_answer_set_hash
  write_uint8 f.local_binding_mode
  write_uint8 f.priority_class
  encode_extensions f.extensions

unfoldable pub decode_flow_open : Read FlowOpen
decode_flow_open = do
  flow_open_version ← read_varint
  flow_id ← read_varint
  flow_kind ← read_uint8
  target_kind ← read_uint8
  target_host ← read_opaque16
  target_port ← read_uint16
  udp_fqdn_mode ← read_uint8
  name_binding_id ← read_opaque_fixed 16
  original_domain_hint ← read_opaque16
  dns_answer_set_hash ← read_pre_hash
  local_binding_mode ← read_uint8
  priority_class ← read_uint8
  extensions ← decode_extensions
  pure (record {
    flow_open_version = flow_open_version;
    flow_id = flow_id;
    flow_kind = flow_kind;
    target_kind = target_kind;
    target_host = target_host;
    target_port = target_port;
    udp_fqdn_mode = udp_fqdn_mode;
    name_binding_id = name_binding_id;
    original_domain_hint = original_domain_hint;
    dns_answer_set_hash = dns_answer_set_hash;
    local_binding_mode = local_binding_mode;
    priority_class = priority_class;
    extensions = extensions;
  })

-- One round of the loop of validateFlowOpenDomainTarget: `previous` is `host[i-1]`, which the code
-- reads at a dot only when the label before it is not empty. The new label length.
domain_byte : ℕ → ℕ → ℕ → Result ℕ
domain_byte label_len previous b =
    if (leb b'a' b && leb b b'z') || (leb b'0' b && leb b b'9')
    then (if ltb 63 (label_len + 1) then fail label_too_long else ok (label_len + 1))
    else if b == b'-'
    then (if label_len == 0
        then fail label_starts_with_hyphen
        else if ltb 63 (label_len + 1)
        then fail label_too_long
        else ok (label_len + 1))
    else if b == b'.'
    then (if label_len == 0
        then fail label_empty
        else if previous == b'-'
        then fail label_ends_with_hyphen
        else ok 0)
    else fail domain_not_lower_case

unfoldable pub domain_labels : ℕ → ℕ → List ℕ → Result ℕ
unfolding domain_byte
domain_labels label_len previous [] = ok label_len
domain_labels label_len previous (b ∷ bs) = elim (domain_byte label_len previous b) [
  | fail x ↦ fail x
  | ok n ↦ domain_labels n b bs
]

unfoldable pub validate_flow_open_domain_target : List ℕ → Result (Unit {0})
unfolding domain_labels
validate_flow_open_domain_target host =
    let last = get_or host (length host - 1) 0 in
    if length host == 0
    then fail domain_empty
    else if ltb 253 (length host)
    then fail domain_too_long
    else if last == b'.'
    then fail domain_trailing_dot
    else elim (domain_labels 0 0 host) [
      | fail x ↦ fail x
      | ok label_len ↦
          if label_len == 0
          then fail label_empty
          else if last == b'-'
          then fail label_ends_with_hyphen
          else ok tt
    ]

validate_target : ℕ → List ℕ → Result (Unit {0})
unfolding validate_flow_open_domain_target
validate_target kind host =
    if kind == 0x01
    then (if length host == 4 then ok tt else fail ipv4_target_length)
    else if kind == 0x02
    then (if length host == 16 then ok tt else fail ipv6_target_length)
    else if kind == 0x03
    then validate_flow_open_domain_target host
    else fail reserved_target_kind

-- The tests that follow the target's.
validate_binding : FlowOpen → Result (Unit {0})
validate_binding flow =
    if ltb 0x03 flow.udp_fqdn_mode
    then fail reserved_udp_fqdn_mode
    else if not (length flow.name_binding_id == 16)
    then fail name_binding_length
    else if not (length flow.dns_answer_set_hash == 48)
    then fail answer_hash_length
    else if ltb 0x03 flow.local_binding_mode
    then fail reserved_local_binding_mode
    else if ltb 0x03 flow.priority_class
    then fail reserved_priority_class
    else validate_extensions flow.extensions no_extension_known

unfoldable pub validate_flow_open : FlowOpen → Result (Unit {0})
unfolding validate_target validate_binding
validate_flow_open flow =
    if not (flow.flow_open_version == version20)
    then fail unsupported_flow_open_version
    else if flow.flow_id == 0
    then fail flow_open_zero_flow_id
    else if flow.flow_kind == 0 || ltb 0x03 flow.flow_kind
    then fail reserved_flow_kind
    else elim (validate_target flow.target_kind flow.target_host) [
      | fail x ↦ fail x
      | ok _ ↦ validate_binding flow
    ]

pub record UdpTargetConfirm : Type 0 where
  pub flow_id : ℕ
  pub target_kind : ℕ
  pub selected_ip : List ℕ
  pub selected_port : ℕ
  pub dns_answer_set_hash : List ℕ
  pub ttl_seconds : ℕ
  pub resolution_source : ℕ
  pub extensions : List Extension

unfoldable pub encode_udp_target_confirm : UdpTargetConfirm → Write
encode_udp_target_confirm u = do
  write_varint u.flow_id
  write_uint8 u.target_kind
  write_opaque16 u.selected_ip
  write_uint16 u.selected_port
  write_pre_hash u.dns_answer_set_hash
  write_uint32 u.ttl_seconds
  write_uint8 u.resolution_source
  encode_extensions u.extensions

unfoldable pub decode_udp_target_confirm : Read UdpTargetConfirm
decode_udp_target_confirm = do
  flow_id ← read_varint
  target_kind ← read_uint8
  selected_ip ← read_opaque16
  selected_port ← read_uint16
  dns_answer_set_hash ← read_pre_hash
  ttl_seconds ← read_uint32
  resolution_source ← read_uint8
  extensions ← decode_extensions
  pure (record {
    flow_id = flow_id;
    target_kind = target_kind;
    selected_ip = selected_ip;
    selected_port = selected_port;
    dns_answer_set_hash = dns_answer_set_hash;
    ttl_seconds = ttl_seconds;
    resolution_source = resolution_source;
    extensions = extensions;
  })

validate_confirm_target : ℕ → List ℕ → Result (Unit {0})
validate_confirm_target kind ip =
    if kind == 0x01
    then (if length ip == 4 then ok tt else fail confirm_ipv4_length)
    else if kind == 0x02
    then (if length ip == 16 then ok tt else fail confirm_ipv6_length)
    else fail confirm_target_kind

unfoldable pub validate_udp_target_confirm : UdpTargetConfirm → Result (Unit {0})
unfolding validate_confirm_target
validate_udp_target_confirm confirm =
    if confirm.flow_id == 0
    then fail confirm_zero_flow_id
    else elim (validate_confirm_target confirm.target_kind confirm.selected_ip) [
      | fail x ↦ fail x
      | ok _ ↦
          if not (length confirm.dns_answer_set_hash == 48)
          then fail confirm_answer_hash_length
          else if ltb 86400 confirm.ttl_seconds
          then fail confirm_ttl
          else if ltb 0x04 confirm.resolution_source
          then fail reserved_resolution_source
          else validate_extensions confirm.extensions no_extension_known
    ]

pub record FlowClose : Type 0 where
  pub flow_id : ℕ
  pub close_code : ℕ
  pub final_sequence_hint_present : Bool
  pub final_sequence_hint : ℕ
  pub reason : List ℕ
  pub extensions : List Extension

unfoldable pub write_hint : Bool → ℕ → Write
write_hint present hint e = if present then write_uint64 hint e else e

unfoldable pub read_hint : Bool → Read ℕ
read_hint present r = if present then read_uint64 r else (0, r)

unfoldable pub encode_flow_close : FlowClose → Write
encode_flow_close c = do
  write_varint c.flow_id
  write_varint c.close_code
  write_bool c.final_sequence_hint_present
  write_hint c.final_sequence_hint_present c.final_sequence_hint
  write_opaque16 c.reason
  encode_extensions c.extensions

unfoldable pub decode_flow_close : Read FlowClose
decode_flow_close = do
  flow_id ← read_varint
  close_code ← read_varint
  final_sequence_hint_present ← read_bool
  final_sequence_hint ← read_hint final_sequence_hint_present
  reason ← read_opaque16
  extensions ← decode_extensions
  pure (record {
    flow_id = flow_id;
    close_code = close_code;
    final_sequence_hint_present = final_sequence_hint_present;
    final_sequence_hint = final_sequence_hint;
    reason = reason;
    extensions = extensions;
  })

abbrev pub close_resource_limit : ℕ
close_resource_limit = 0x06

unfoldable pub validate_flow_close : FlowClose → Result (Unit {0})
validate_flow_close close =
    if close.flow_id == 0
    then fail close_zero_flow_id
    else if leb close.close_code close_resource_limit
        || (leb 0x7000 close.close_code && leb close.close_code 0x7eff)
    then validate_extensions close.extensions no_extension_known
    else fail reserved_close_code
