-- ===== src/Protocol/Extensions/Codec.antt =====
-- Extension lists (protocol/types.go): canonical, and read back.
use aurora_core.Common.{
  ℕ, ◌/◌, ◌≤◌, ◌≡◌, refl, sym, ap, ◌∙◌, subst, arith, none, some, List, ltb, if◌then◌else◌, length,
  All,
}
use mathlib.Core.Path.{fun_ext}
use aurora_core.Errors.{extension_count_unfit}
use aurora_core.Wire.Varint.{max_varint}
use aurora_core.Wire.Encoder.{write_bool}
use aurora_core.Wire.Reader.{Reader, Read, ◌>>=◌, read_vector_count, read_each, remaining, set_err}
use aurora_core.Wire.Format.Reads.{Holds, Holds-length}
use aurora_core.Wire.Format.Codes.{
  Codes, Codes-bind, Codes-last, varint_Codes, bool_Codes, opaque24_Codes,
}
use aurora_core.Wire.Format.Parses.{
  Sticky, Parses, Canonical, Finishes-bind, Finishes-pure, Finishes-Canonical,
}
use aurora_core.Wire.Format.Parses.Scalars.{varint_Canonical, bool_Canonical, opaque24_Canonical}
use aurora_core.Wire.Format.Vectors.{
  Count, Counts, Sticky-vector_count, vector_head_Parses, vector_Canonical, vector_Codes,
  read_vector_count-bytes,
}
use aurora_core.Protocol.Extensions.{
  Extension, encode_extension, encode_extensions, decode_extension, decode_extensions,
}

-- The values of an extension fit their encodings.
pub record Fits (x : Extension) : Type 0 where
  pub type_fits : x.extension_type ≤ max_varint
  pub body_fits : length x.body ≤ 0xffffff

pub extension_Canonical : Canonical decode_extension encode_extension
unfolding decode_extension encode_extension write_bool
extension_Canonical = Finishes-Canonical (
    Finishes-bind varint_Canonical λ t.
      Finishes-bind bool_Canonical λ c. Finishes-bind opaque24_Canonical λ b. Finishes-pure _ refl)

pub extension_Codes : (x : Extension) → Fits x → Codes 5 (encode_extension x) decode_extension x
unfolding encode_extension decode_extension write_bool
extension_Codes x h = Codes-bind (varint_Codes x.extension_type h.type_fits) λ t e.
    Codes-bind (bool_Codes x.critical) λ c e'.
      Codes-last (opaque24_Codes x.body h.body_fits)
        λ b e''. λ i. record { extension_type = e i; critical = e' i; body = e'' i }

-- `DecodeExtensions` is a guarded count and that many extensions.
extension_count : Read ℕ
extension_count r =
    let (n, r') = read_vector_count r in
    elim r'.err [
      | some x ↦ (0, r')
      | none ↦ if ltb (remaining r' / 5) n then (0, set_err extension_count_unfit r') else (n, r')
    ]

counted_Sticky : Sticky extension_count
unfolding extension_count
counted_Sticky r x e = ground (arith, Sticky-vector_count r x e)

counted_unguarded :
    (r : Reader) → (extension_count r).1.err ≡ none → extension_count r ≡ read_vector_count r
unfolding extension_count set_err
counted_unguarded r c = ground arith

counted_Parses : Parses extension_count Count
counted_Parses r bs hb hr c =
    let e = counted_unguarded r c in
    let mid = ap (λ (q : ℕ × Reader). q.1.err) (sym e) ∙ c in
    let (used, rest, s, h, q) = vector_head_Parses r bs hb hr mid in
    (
      used,
      rest,
      s,
      subst (λ (q : ℕ × Reader). Holds q.1 rest) (sym e) h,
      subst (λ (q : ℕ × Reader). Count q.0 used) (sym e) q,
    )

decode_extensions_lem :
    (r : Reader) → decode_extensions r ≡ (extension_count >>= λ n. read_each n decode_extension) r
unfolding decode_extensions extension_count
decode_extensions_lem r = ground arith

extension_count-Counts : Counts 5 extension_count
extension_count-Counts n r rest m room h =
    let q = read_vector_count-bytes n r rest m (omega arith) h in rw (passed q.0 q.1) (refl, q.1)
  where
    passed :
        (read_vector_count r).0 ≡ n
        → Holds (read_vector_count r).1 rest
        → extension_count r ≡ (n, (read_vector_count r).1)
    passed e k =
        unfold extension_count remaining in
        ground (arith, k.clean, Holds-length (read_vector_count r).1 rest k)

pub extensions_Canonical : Canonical decode_extensions encode_extensions
unfolding encode_extensions
extensions_Canonical =
    subst (λ m. Canonical m encode_extensions) (sym (fun_ext decode_extensions_lem))
      (vector_Canonical extension_count counted_Sticky counted_Parses extension_Canonical)

pub extensions_Codes :
    (xs : List Extension)
    → All Fits xs
    → length xs ≤ max_varint
    → Codes 1 (encode_extensions xs) decode_extensions xs
unfolding encode_extensions
extensions_Codes xs all fits =
    subst (λ m. Codes 1 (encode_extensions xs) m xs) (sym (fun_ext decode_extensions_lem))
      (vector_Codes extension_count extension_count-Counts extension_Codes xs all fits)
