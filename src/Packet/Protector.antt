-- ===== src/Packet/Protector.antt =====
-- packet/packet.go: the protector, which seals and opens the packets of one key phase. A method on
-- `*Protector` returns the protector that it leaves, also with an error. Buffers are values: the scratch
-- for nonces, the zeroing of released storage and the capacity that sealing reuses are not in the model.
pub mod Sealing
pub mod InPlace
pub mod Opening
pub mod Cache
pub mod Sealed
pub mod RoundTrip
pub mod Bytes
pub mod Encoded
use aurora_core.Common.{
  ℕ, ◌+◌, ◌-◌, ◌%◌, ◌^◌, ◌≤◌, Bool, true, false, not, ◌&&◌, ◌||◌, Option, none, some, List, [],
  ◌++◌, ltb, leb, ◌==◌, if◌then◌else◌, length, take, drop, replicate, bytes_equal,
}
use aurora_core.Errors.{
  Error, Result, ok, fail, ◌>>=◌, reserved_packet_direction, sealed_too_short,
  sealed_layout_mismatch, not_in_place, metadata_mismatch, static_iv_length,
}
use aurora_core.Wire.Varint.{varint_len}
use aurora_core.Wire.Encoder.{
  Write, ◌>>◌, new_encoder_with_buffer, buffer, encode_with_reserved_capacity, write_varint,
  write_uint8, write_uint24,
}
use aurora_core.Protocol.Frames.{
  FrameBlock, max_int, block_encoded_len, encode_block, encode_frame_block, decode_frame_block,
}
use aurora_core.Protocol.Validate.{validate_frame_block_for_direction}
use aurora_core.Crypto.{Primitives}
use aurora_core.Crypto.Aead.{SuiteAead, new_suite_aead, aead_seal, aead_open, xor_nonce96}
use aurora_core.Crypto.Control.{packet_ad}
use aurora_core.Packet.Codec.{AuroraPacket, packet_auth_tag_bytes, encode_aurora_packet}

pub record Protector : Type 0 where
  pub suite : ℕ
  pub route_instance_id : ℕ
  pub hop_layer : ℕ
  pub direction : ℕ
  pub key_phase : ℕ
  pub key : List ℕ
  pub static_iv : List ℕ
  pub next_packet : ℕ
  pub aead : Option SuiteAead
  pub cached_suite : ℕ
  pub cached_key : List ℕ

-- `copy` into an array of 32 zero bytes.
abbrev pub copy_key : List ℕ → List ℕ
copy_key key = take 32 (key ++ replicate 32 0)

abbrev pub with_cache : Protector → SuiteAead → Protector
with_cache p a = record p { aead = some a; cached_suite = p.suite; cached_key = copy_key p.key }

unfoldable pub replace_material : Primitives → Protector → List ℕ → List ℕ → Result Protector
replace_material c p key static_iv =
    if not (length static_iv == 12)
    then fail static_iv_length
    else (new_suite_aead c p.suite key >>= λ a.
        ok (with_cache (record p { key = key; static_iv = static_iv }) a))

abbrev blank : ℕ → ℕ → ℕ → ℕ → ℕ → Protector
blank suite route_instance_id hop_layer direction key_phase = record {
  suite = suite;
  route_instance_id = route_instance_id;
  hop_layer = hop_layer;
  direction = direction;
  key_phase = key_phase;
  key = [];
  static_iv = [];
  next_packet = 0;
  aead = none;
  cached_suite = 0;
  cached_key = replicate 32 0;
}

unfoldable pub new_protector : Primitives → ℕ → ℕ → ℕ → ℕ → ℕ → List ℕ → List ℕ → Result Protector
unfolding replace_material
new_protector c suite route_instance_id hop_layer direction key_phase key static_iv =
    replace_material c (blank suite route_instance_id hop_layer direction key_phase) key static_iv

unfoldable pub cache_hit : Protector → Bool
cache_hit p = p.cached_suite == p.suite && length p.key == 32 && bytes_equal p.cached_key p.key

unfoldable pub fill_cache : Protector → Result SuiteAead → Result SuiteAead × Protector
fill_cache p (ok a) = (ok a, with_cache p a)
fill_cache p (fail x) = (fail x, p)

unfoldable pub cached_aead : Primitives → Protector → Result SuiteAead × Protector
unfolding cache_hit fill_cache
cached_aead c p =
    let fresh = fill_cache p (new_suite_aead c p.suite p.key) in
    elim p.aead [ none ↦ fresh | some a ↦ if cache_hit p then (ok a, p) else fresh ]

unfoldable pub prepare : Primitives → Protector → Result (Unit {0}) × Protector
unfolding cached_aead
prepare c p = let (r, q) = cached_aead c p in ((r >>= λ _. ok tt), q)

unfoldable pub destroy : Protector
destroy = blank 0 0 0 0 0
