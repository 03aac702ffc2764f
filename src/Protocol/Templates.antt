-- ===== src/Protocol/Templates.antt =====
-- protocol/directory.go: the parts of a cover template.
pub mod Codec
use aurora_core.Common.{ℕ, Bool, List}
use aurora_core.Wire.Encoder.{
  Write, ◌>>◌, write_bool, write_opaque_fixed, write_varint, write_varint_vector,
}
use aurora_core.Wire.Reader.{
  Read, ◌>>=◌, pure, read_bool, read_opaque_fixed, read_varint, read_varint_vector,
}

pub record RequestClass : Type 0 where
  pub class_id : ℕ
  pub class_type : ℕ
  pub allowed_method_family : ℕ
  pub path_template_id : List ℕ
  pub body_policy_id : ℕ
  pub response_policy_id : ℕ
  pub may_carry_prelude : Bool
  pub may_carry_capsule : Bool

unfoldable pub encode_request_class : RequestClass → Write
encode_request_class x = do
  write_varint x.class_id
  write_varint x.class_type
  write_varint x.allowed_method_family
  write_opaque_fixed x.path_template_id 16
  write_varint x.body_policy_id
  write_varint x.response_policy_id
  write_bool x.may_carry_prelude
  write_bool x.may_carry_capsule

unfoldable pub decode_request_class : Read RequestClass
decode_request_class = do
  class_id ← read_varint
  class_type ← read_varint
  allowed_method_family ← read_varint
  path_template_id ← read_opaque_fixed 16
  body_policy_id ← read_varint
  response_policy_id ← read_varint
  may_carry_prelude ← read_bool
  may_carry_capsule ← read_bool
  pure (record {
    class_id = class_id;
    class_type = class_type;
    allowed_method_family = allowed_method_family;
    path_template_id = path_template_id;
    body_policy_id = body_policy_id;
    response_policy_id = response_policy_id;
    may_carry_prelude = may_carry_prelude;
    may_carry_capsule = may_carry_capsule;
  })

pub record PreludeEnvelope : Type 0 where
  pub min_request_body_size : ℕ
  pub max_request_body_size : ℕ
  pub request_size_distribution_id : List ℕ
  pub min_response_body_size : ℕ
  pub max_response_body_size : ℕ
  pub response_size_distribution_id : List ℕ
  pub content_type_family_id : ℕ
  pub chunking_policy_id : ℕ
  pub response_timing_policy_id : ℕ

unfoldable pub encode_prelude_envelope : PreludeEnvelope → Write
encode_prelude_envelope x = do
  write_varint x.min_request_body_size
  write_varint x.max_request_body_size
  write_opaque_fixed x.request_size_distribution_id 16
  write_varint x.min_response_body_size
  write_varint x.max_response_body_size
  write_opaque_fixed x.response_size_distribution_id 16
  write_varint x.content_type_family_id
  write_varint x.chunking_policy_id
  write_varint x.response_timing_policy_id

unfoldable pub decode_prelude_envelope : Read PreludeEnvelope
decode_prelude_envelope = do
  min_request_body_size ← read_varint
  max_request_body_size ← read_varint
  request_size_distribution_id ← read_opaque_fixed 16
  min_response_body_size ← read_varint
  max_response_body_size ← read_varint
  response_size_distribution_id ← read_opaque_fixed 16
  content_type_family_id ← read_varint
  chunking_policy_id ← read_varint
  response_timing_policy_id ← read_varint
  pure (record {
    min_request_body_size = min_request_body_size;
    max_request_body_size = max_request_body_size;
    request_size_distribution_id = request_size_distribution_id;
    min_response_body_size = min_response_body_size;
    max_response_body_size = max_response_body_size;
    response_size_distribution_id = response_size_distribution_id;
    content_type_family_id = content_type_family_id;
    chunking_policy_id = chunking_policy_id;
    response_timing_policy_id = response_timing_policy_id;
  })

pub record CapsuleEnvelope : Type 0 where
  pub envelope_id : List ℕ
  pub min_capsule_body_size : ℕ
  pub max_capsule_body_size : ℕ
  pub body_size_distribution_id : List ℕ
  pub allowed_content_type_ids : List ℕ
  pub chunking_policy_id : ℕ
  pub failure_response_family_id : ℕ
  pub consume_failed_body_locally : Bool

unfoldable pub encode_capsule_envelope : CapsuleEnvelope → Write
encode_capsule_envelope x = do
  write_opaque_fixed x.envelope_id 16
  write_varint x.min_capsule_body_size
  write_varint x.max_capsule_body_size
  write_opaque_fixed x.body_size_distribution_id 16
  write_varint_vector x.allowed_content_type_ids
  write_varint x.chunking_policy_id
  write_varint x.failure_response_family_id
  write_bool x.consume_failed_body_locally

unfoldable pub decode_capsule_envelope : Read CapsuleEnvelope
decode_capsule_envelope = do
  envelope_id ← read_opaque_fixed 16
  min_capsule_body_size ← read_varint
  max_capsule_body_size ← read_varint
  body_size_distribution_id ← read_opaque_fixed 16
  allowed_content_type_ids ← read_varint_vector
  chunking_policy_id ← read_varint
  failure_response_family_id ← read_varint
  consume_failed_body_locally ← read_bool
  pure (record {
    envelope_id = envelope_id;
    min_capsule_body_size = min_capsule_body_size;
    max_capsule_body_size = max_capsule_body_size;
    body_size_distribution_id = body_size_distribution_id;
    allowed_content_type_ids = allowed_content_type_ids;
    chunking_policy_id = chunking_policy_id;
    failure_response_family_id = failure_response_family_id;
    consume_failed_body_locally = consume_failed_body_locally;
  })

pub record CacheCookiePolicy : Type 0 where
  pub policy_id : ℕ
  pub cookie_behavior_family_id : ℕ
  pub cache_control_family_id : ℕ
  pub e_tag_behavior_family_id : ℕ
  pub vary_header_family_id : ℕ
  pub redirect_behavior_family_id : ℕ

unfoldable pub encode_cache_cookie_policy : CacheCookiePolicy → Write
encode_cache_cookie_policy x = do
  write_varint x.policy_id
  write_varint x.cookie_behavior_family_id
  write_varint x.cache_control_family_id
  write_varint x.e_tag_behavior_family_id
  write_varint x.vary_header_family_id
  write_varint x.redirect_behavior_family_id

unfoldable pub decode_cache_cookie_policy : Read CacheCookiePolicy
decode_cache_cookie_policy = do
  policy_id ← read_varint
  cookie_behavior_family_id ← read_varint
  cache_control_family_id ← read_varint
  e_tag_behavior_family_id ← read_varint
  vary_header_family_id ← read_varint
  redirect_behavior_family_id ← read_varint
  pure (record {
    policy_id = policy_id;
    cookie_behavior_family_id = cookie_behavior_family_id;
    cache_control_family_id = cache_control_family_id;
    e_tag_behavior_family_id = e_tag_behavior_family_id;
    vary_header_family_id = vary_header_family_id;
    redirect_behavior_family_id = redirect_behavior_family_id;
  })

pub record TimingEnvelope : Type 0 where
  pub timing_policy_id : ℕ
  pub min_response_delay_ms : ℕ
  pub max_response_delay_ms : ℕ
  pub jitter_distribution_id : List ℕ
  pub timeout_family_id : ℕ
  pub retry_family_id : ℕ
  pub close_timing_family_id : ℕ

unfoldable pub encode_timing_envelope : TimingEnvelope → Write
encode_timing_envelope x = do
  write_varint x.timing_policy_id
  write_varint x.min_response_delay_ms
  write_varint x.max_response_delay_ms
  write_opaque_fixed x.jitter_distribution_id 16
  write_varint x.timeout_family_id
  write_varint x.retry_family_id
  write_varint x.close_timing_family_id

unfoldable pub decode_timing_envelope : Read TimingEnvelope
decode_timing_envelope = do
  timing_policy_id ← read_varint
  min_response_delay_ms ← read_varint
  max_response_delay_ms ← read_varint
  jitter_distribution_id ← read_opaque_fixed 16
  timeout_family_id ← read_varint
  retry_family_id ← read_varint
  close_timing_family_id ← read_varint
  pure (record {
    timing_policy_id = timing_policy_id;
    min_response_delay_ms = min_response_delay_ms;
    max_response_delay_ms = max_response_delay_ms;
    jitter_distribution_id = jitter_distribution_id;
    timeout_family_id = timeout_family_id;
    retry_family_id = retry_family_id;
    close_timing_family_id = close_timing_family_id;
  })
