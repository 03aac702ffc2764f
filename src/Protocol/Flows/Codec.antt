-- ===== src/Protocol/Flows/Codec.antt =====
-- Flow management payloads: canonical.
use aurora_core.Common.{refl, Bool, true, false, []}
use aurora_core.Wire.Format.Parses.{
  Canonical, Finishes-bind, Finishes-pure, Finishes-Canonical, Writes-skip,
}
use aurora_core.Wire.Format.Parses.Scalars.{
  varint_Canonical, uint8_Canonical, bool_Canonical, uint16_Canonical, uint32_Canonical,
  uint64_Canonical, pre_hash_Canonical, opaque_fixed_Canonical, opaque16_Canonical,
}
use aurora_core.Protocol.Extensions.Codec.{extensions_Canonical}
use aurora_core.Protocol.Flows.{
  encode_flow_open, decode_flow_open, encode_udp_target_confirm, decode_udp_target_confirm,
  encode_flow_close, decode_flow_close, write_hint, read_hint,
}

pub flow_open_Canonical : Canonical decode_flow_open encode_flow_open
unfolding decode_flow_open encode_flow_open
flow_open_Canonical = Finishes-Canonical (
    Finishes-bind varint_Canonical λ a. Finishes-bind varint_Canonical λ b.
      Finishes-bind uint8_Canonical λ c. Finishes-bind uint8_Canonical λ d.
        Finishes-bind opaque16_Canonical λ e. Finishes-bind uint16_Canonical λ f.
          Finishes-bind uint8_Canonical λ g. Finishes-bind (opaque_fixed_Canonical 16) λ h.
            Finishes-bind opaque16_Canonical λ i. Finishes-bind pre_hash_Canonical λ j.
              Finishes-bind uint8_Canonical λ k.
                Finishes-bind uint8_Canonical
                  λ l. Finishes-bind extensions_Canonical λ m. Finishes-pure _ refl)

pub udp_target_confirm_Canonical : Canonical decode_udp_target_confirm encode_udp_target_confirm
unfolding decode_udp_target_confirm encode_udp_target_confirm
udp_target_confirm_Canonical = Finishes-Canonical (
    Finishes-bind varint_Canonical λ a. Finishes-bind uint8_Canonical λ b.
      Finishes-bind opaque16_Canonical λ c. Finishes-bind uint16_Canonical λ d.
        Finishes-bind pre_hash_Canonical λ e. Finishes-bind uint32_Canonical λ f.
          Finishes-bind uint8_Canonical
            λ g. Finishes-bind extensions_Canonical λ h. Finishes-pure _ refl)

-- The hint is read and written where its flag is set.
hint_Canonical : (present : Bool) → Canonical (read_hint present) (write_hint present)
unfolding read_hint write_hint
hint_Canonical true = uint64_Canonical
hint_Canonical false = record {
  sticky = λ r x e. e;
  parses = λ r bs hb h c. ([], bs, refl, h, Writes-skip);
}

pub flow_close_Canonical : Canonical decode_flow_close encode_flow_close
unfolding decode_flow_close encode_flow_close
flow_close_Canonical = Finishes-Canonical (
    Finishes-bind varint_Canonical λ a. Finishes-bind varint_Canonical λ b.
      Finishes-bind bool_Canonical λ c. Finishes-bind (hint_Canonical c) λ d.
        Finishes-bind opaque16_Canonical
          λ e. Finishes-bind extensions_Canonical λ f. Finishes-pure _ refl)
