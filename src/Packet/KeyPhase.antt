-- ===== src/Packet/KeyPhase.antt =====
-- packet/key_update.go: the traffic keys of a phase, and those of the next one. Copies of key material
-- are the same values, and erased material is empty.
use aurora_core.Common.{ℕ, Option, none, some, List, [], ltb, if◌then◌else◌, length}
use aurora_core.Common.Text.{ascii}
use aurora_core.Errors.{Result, ok, fail, ◌>>=◌, ack_nonce_too_long}
use aurora_core.Wire.Encoder.{
  Write, ◌>>◌, bytes, new_encoder, write_bytes, write_varint, write_uint8, write_opaque16,
}
use aurora_core.Protocol.KeyUpdate.{KeyUpdate, KeyUpdateAck, validate_key_update}
use aurora_core.Crypto.{Primitives}
use aurora_core.Crypto.Suite.{suite_hash_length, aead_key_length, hkdf_expand_label_for_suite}

pub record KeyMaterial : Type 0 where
  pub app_secret : List ℕ
  pub key : List ℕ
  pub iv : List ℕ

abbrev pub erased : KeyMaterial
erased = record { app_secret = []; key = []; iv = [] }

pub record KeyUpdateResult : Type 0 where
  pub next_material : KeyMaterial
  pub ack : Option KeyUpdateAck

write_context : KeyUpdate → Write
write_context frame = do
  write_bytes (ascii "aurora v2.0 key update")
  write_varint frame.route_instance_id
  write_uint8 frame.hop_layer
  write_uint8 frame.direction
  write_uint8 frame.old_key_phase
  write_uint8 frame.new_key_phase
  write_opaque16 frame.update_nonce

unfoldable pub key_update_context : KeyUpdate → Result (List ℕ)
unfolding write_context
key_update_context frame = bytes (write_context frame new_encoder)

unfoldable pub derive_key_update : Primitives → ℕ → List ℕ → KeyUpdate → Result KeyMaterial
derive_key_update c suite current_app_secret frame =
    let expand = hkdf_expand_label_for_suite c suite in
    validate_key_update frame >>= λ _. key_update_context frame >>= λ context.
    suite_hash_length suite >>= λ hash_len.
    expand current_app_secret (ascii "traffic upd") context hash_len >>= λ next_secret.
    aead_key_length suite >>= λ key_len. expand next_secret (ascii "key") [] key_len >>= λ key.
    expand next_secret (ascii "iv") [] 12 >>= λ iv.
    ok (record { app_secret = next_secret; key = key; iv = iv })

abbrev pub max_opaque16_bytes : ℕ
max_opaque16_bytes = 0xffff

abbrev pub ack_for : KeyUpdate → List ℕ → KeyUpdateAck
ack_for frame ack_nonce = record {
  route_instance_id = frame.route_instance_id;
  hop_layer = frame.hop_layer;
  acked_direction = frame.direction;
  acked_key_phase = frame.new_key_phase;
  ack_nonce = ack_nonce;
}

unfoldable pub apply_received_key_update :
    Primitives → ℕ → List ℕ → KeyUpdate → List ℕ → Result KeyUpdateResult
apply_received_key_update c suite current_read_secret frame ack_nonce =
    derive_key_update c suite current_read_secret frame >>= λ next.
    if frame.ack_required
    then (if ltb max_opaque16_bytes (length ack_nonce)
        then fail ack_nonce_too_long
        else ok (record { next_material = next; ack = some (ack_for frame ack_nonce) }))
    else ok (record { next_material = next; ack = none })
