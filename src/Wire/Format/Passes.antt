-- ===== src/Wire/Format/Passes.antt =====
-- wire/encoder.go: what the fields that an encoder wrote without an error satisfy.
use aurora_core.Common.{ℕ, ◌≤◌, ◌≡◌, arith, none, List, length, Option-cases, inl, inr}
use aurora_core.Errors.{ok}
use aurora_core.Wire.Varint.{max_varint, append_varint}
use aurora_core.Wire.Encoder.{
  Encoder, Write, ◌>>◌, new_encoder, set_err, write_bytes, write_uint8, write_uint16, write_uint24,
  write_varint, write_opaque_fixed, write_opaque16, write_opaque24, write_pre_hash, encode,
  encode_expecting,
}

-- A writer leaves no error only where there was none and `P` holds.
pub record Passes (w : Write) (P : Type 0) : Type 0 where
  pub passed : (e : Encoder) → (w e).err ≡ none → (e.err ≡ none) × P

pub Passes-seq : {w u : Write} {P Q : Type 0} → Passes w P → Passes u Q → Passes (w >> u) (P × Q)
Passes-seq {w} p q = record {
  passed = λ e h. let (f, b) = q.passed (w e) h in let (g, a) = p.passed e f in (g, (a, b));
}

pub Passes-varint : (v : ℕ) → Passes (write_varint v) (v ≤ max_varint)
unfolding write_varint set_err append_varint
Passes-varint v = record {
  passed = λ e h. elim (Option-cases e.err) [
    | inl clean ↦ (clean, ground (arith, h, clean))
    | inr (x, failed) ↦ absurd (ground (arith, h, failed))
  ];
}

pub Passes-uint8 : (v : ℕ) → Passes (write_uint8 v) (Unit {0})
unfolding write_uint8
Passes-uint8 v = record {
  passed = λ e h. elim (Option-cases e.err) [
    | inl clean ↦ (clean, tt)
    | inr (x, failed) ↦ absurd (ground (arith, h, failed))
  ];
}

pub Passes-opaque_fixed : (b : List ℕ) (n : ℕ) → Passes (write_opaque_fixed b n) (length b ≡ n)
unfolding write_opaque_fixed set_err write_bytes
Passes-opaque_fixed b n = record {
  passed = λ e h. elim (Option-cases e.err) [
    | inl clean ↦ (clean, ground (arith, h, clean))
    | inr (x, failed) ↦ absurd (ground (arith, h, failed))
  ];
}

pub Passes-pre_hash : (b : List ℕ) → Passes (write_pre_hash b) (length b ≡ 48)
unfolding write_pre_hash
Passes-pre_hash b = Passes-opaque_fixed b 48

pub Passes-opaque16 : (b : List ℕ) → Passes (write_opaque16 b) (length b ≤ 0xffff)
unfolding write_opaque16 set_err write_bytes write_uint16
Passes-opaque16 b = record {
  passed = λ e h. elim (Option-cases e.err) [
    | inl clean ↦ (clean, ground (arith, h, clean))
    | inr (x, failed) ↦ absurd (ground (arith, h, failed))
  ];
}

pub Passes-opaque24 : (b : List ℕ) → Passes (write_opaque24 b) (length b ≤ 0xffffff)
unfolding write_opaque24 set_err write_bytes write_uint24
Passes-opaque24 b = record {
  passed = λ e h. elim (Option-cases e.err) [
    | inl clean ↦ (clean, ground (arith, h, clean))
    | inr (x, failed) ↦ absurd (ground (arith, h, failed))
  ];
}

pub encode-Passes : {w : Write} {P : Type 0} (b : List ℕ) → Passes w P → encode w ≡ ok b → P
unfolding encode encode_expecting
encode-Passes {w} b p e = elim (Option-cases (w new_encoder).err) [
  | inl clean ↦ (p.passed new_encoder clean).1
  | inr (x, failed) ↦ absurd (ground (arith, e, failed))
]
