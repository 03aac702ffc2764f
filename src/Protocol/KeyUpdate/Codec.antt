-- ===== src/Protocol/KeyUpdate/Codec.antt =====
-- Key update payloads: canonical, and read back.
use aurora_core.Common.{◌≤◌, refl, length}
use aurora_core.Wire.Varint.{max_varint}
use aurora_core.Wire.Encoder.{write_bool}
use aurora_core.Wire.Format.Codes.{
  Codes, Codes-bind, Codes-last, varint_Codes, uint8_Codes, bool_Codes, opaque16_Codes,
}
use aurora_core.Wire.Format.Parses.{Canonical, Finishes-bind, Finishes-pure, Finishes-Canonical}
use aurora_core.Wire.Format.Parses.Scalars.{
  varint_Canonical, uint8_Canonical, bool_Canonical, opaque16_Canonical,
}
use aurora_core.Protocol.KeyUpdate.{
  KeyUpdate, encode_key_update, decode_key_update, encode_key_update_ack, decode_key_update_ack,
  encode_key_update_request, decode_key_update_request,
}

pub key_update_Canonical : Canonical decode_key_update encode_key_update
unfolding decode_key_update encode_key_update write_bool
key_update_Canonical = Finishes-Canonical (
    Finishes-bind varint_Canonical λ a. Finishes-bind uint8_Canonical λ b.
      Finishes-bind uint8_Canonical λ c. Finishes-bind uint8_Canonical λ d.
        Finishes-bind uint8_Canonical λ e. Finishes-bind opaque16_Canonical λ f.
          Finishes-bind bool_Canonical
            λ g. Finishes-bind varint_Canonical λ h. Finishes-pure _ refl)

pub record UpdateFits (k : KeyUpdate) : Type 0 where
  pub route_fits : k.route_instance_id ≤ max_varint
  pub nonce_fits : length k.update_nonce ≤ 0xffff
  pub reason_fits : k.update_reason ≤ max_varint

pub key_update_Codes :
    (k : KeyUpdate) → UpdateFits k → Codes 9 (encode_key_update k) decode_key_update k
unfolding decode_key_update encode_key_update write_bool
key_update_Codes k h = Codes-bind (varint_Codes k.route_instance_id h.route_fits) λ a p.
    Codes-bind (uint8_Codes k.hop_layer) λ b q. Codes-bind (uint8_Codes k.direction) λ c r.
      Codes-bind (uint8_Codes k.old_key_phase) λ d s.
        Codes-bind (uint8_Codes k.new_key_phase) λ e t.
          Codes-bind (opaque16_Codes k.update_nonce h.nonce_fits) λ f u.
            Codes-bind (bool_Codes k.ack_required) λ g v.
              Codes-last (varint_Codes k.update_reason h.reason_fits) λ z w i. record {
                route_instance_id = p i;
                hop_layer = q i;
                direction = r i;
                old_key_phase = s i;
                new_key_phase = t i;
                update_nonce = u i;
                ack_required = v i;
                update_reason = w i;
              }

pub key_update_ack_Canonical : Canonical decode_key_update_ack encode_key_update_ack
unfolding decode_key_update_ack encode_key_update_ack
key_update_ack_Canonical = Finishes-Canonical (
    Finishes-bind varint_Canonical λ a. Finishes-bind uint8_Canonical λ b.
      Finishes-bind uint8_Canonical λ c.
        Finishes-bind uint8_Canonical
          λ d. Finishes-bind opaque16_Canonical λ e. Finishes-pure _ refl)

pub key_update_request_Canonical : Canonical decode_key_update_request encode_key_update_request
unfolding decode_key_update_request encode_key_update_request
key_update_request_Canonical = Finishes-Canonical (
    Finishes-bind varint_Canonical λ a. Finishes-bind uint8_Canonical λ b.
      Finishes-bind uint8_Canonical λ c.
        Finishes-bind opaque16_Canonical
          λ d. Finishes-bind varint_Canonical λ e. Finishes-pure _ refl)
