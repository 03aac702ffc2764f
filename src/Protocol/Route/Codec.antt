-- ===== src/Protocol/Route/Codec.antt =====
-- protocol/frames.go: route payloads are canonical, and a valid forward is read back.
use aurora_core.Common.{◌≤◌, ◌≡◌, refl, arith, length}
use aurora_core.Errors.{ok}
use aurora_core.Wire.Varint.{max_varint}
use aurora_core.Wire.Format.Codes.{
  Codes, Codes-bind, Codes-last, varint_Codes, uint8_Codes, pre_hash_Codes, opaque16_Codes,
  opaque24_Codes,
}
use aurora_core.Wire.Format.Parses.{Canonical, Finishes-bind, Finishes-pure, Finishes-Canonical}
use aurora_core.Wire.Format.Parses.Scalars.{
  varint_Canonical, uint8_Canonical, uint64_Canonical, pre_hash_Canonical, opaque_fixed_Canonical,
  opaque16_Canonical, opaque24_Canonical,
}
use aurora_core.Protocol.Route.{
  RouteForwardFrame, validate_route_forward, validate_locator, encode_route_forward,
  decode_route_forward, encode_route_prelude_envelope, decode_route_prelude_envelope,
}

pub route_forward_Canonical : Canonical decode_route_forward encode_route_forward
unfolding decode_route_forward encode_route_forward
route_forward_Canonical = Finishes-Canonical (
    Finishes-bind varint_Canonical λ a. Finishes-bind uint8_Canonical λ b.
      Finishes-bind pre_hash_Canonical λ c. Finishes-bind pre_hash_Canonical λ d.
        Finishes-bind opaque16_Canonical λ e. Finishes-bind varint_Canonical λ f.
          Finishes-bind opaque16_Canonical
            λ g. Finishes-bind opaque24_Canonical λ h. Finishes-pure _ refl)

-- The fields of a forward whose sizes its validation does not bound.
pub record ForwardFits (f : RouteForwardFrame) : Type 0 where
  pub route_fits : f.route_instance_id ≤ max_varint
  pub locator_fits : length f.next_relay_locator ≤ 0xffff
  pub prelude_fits : length f.opaque_next_hop_prelude ≤ 0xffffff

record Checked (f : RouteForwardFrame) : Type 0 where
  next_hash : length f.next_relay_descriptor_hash ≡ 48
  previous_hash : length f.previous_hop_relay_descriptor_hash ≡ 48
  record_id : length f.next_relay_routing_record_id ≤ 0xffff
  locator_type : f.next_relay_locator_type ≤ max_varint

checked : (f : RouteForwardFrame) → validate_route_forward f ≡ ok tt → Checked f
unfolding validate_route_forward validate_locator
checked f e = record {
  next_hash = ground (arith, e);
  previous_hash = ground (arith, e);
  record_id = ground (arith, e);
  locator_type = ground (arith, e);
}

pub route_forward_Codes :
    (f : RouteForwardFrame)
    → ForwardFits f
    → validate_route_forward f ≡ ok tt
    → Codes 106 (encode_route_forward f) decode_route_forward f
unfolding decode_route_forward encode_route_forward
route_forward_Codes f h valid =
    let v = checked f valid in
    Codes-bind (varint_Codes f.route_instance_id h.route_fits) λ a i.
      Codes-bind (uint8_Codes f.hop_index) λ b j.
        Codes-bind (pre_hash_Codes f.next_relay_descriptor_hash v.next_hash) λ c k.
          Codes-bind (pre_hash_Codes f.previous_hop_relay_descriptor_hash v.previous_hash) λ d l.
            Codes-bind (opaque16_Codes f.next_relay_routing_record_id v.record_id) λ e m.
              Codes-bind (varint_Codes f.next_relay_locator_type v.locator_type) λ g n.
                Codes-bind (opaque16_Codes f.next_relay_locator h.locator_fits) λ o p.
                  Codes-last (opaque24_Codes f.opaque_next_hop_prelude h.prelude_fits) λ z q r.
                    record {
                      route_instance_id = i r;
                      hop_index = j r;
                      next_relay_descriptor_hash = k r;
                      previous_hop_relay_descriptor_hash = l r;
                      next_relay_routing_record_id = m r;
                      next_relay_locator_type = n r;
                      next_relay_locator = p r;
                      opaque_next_hop_prelude = q r;
                    }

pub route_prelude_envelope_Canonical :
    Canonical decode_route_prelude_envelope encode_route_prelude_envelope
unfolding decode_route_prelude_envelope encode_route_prelude_envelope
route_prelude_envelope_Canonical = Finishes-Canonical (
    Finishes-bind varint_Canonical λ a. Finishes-bind uint8_Canonical λ b.
      Finishes-bind pre_hash_Canonical λ c. Finishes-bind pre_hash_Canonical λ d.
        Finishes-bind (opaque_fixed_Canonical 16) λ e.
          Finishes-bind (opaque_fixed_Canonical 16) λ f. Finishes-bind uint64_Canonical λ g.
            Finishes-bind (opaque_fixed_Canonical 16) λ h. Finishes-bind varint_Canonical λ i.
              Finishes-bind (opaque_fixed_Canonical 16)
                λ j. Finishes-bind opaque24_Canonical λ k. Finishes-pure _ refl)
