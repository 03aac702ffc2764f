-- ===== src/Wire/Format/Vectors.antt =====
-- Counted vectors: `ReadVectorCount` and the loops over elements (wire/reader.go, wire/encoder.go).
use aurora_core.Common.{
  ℕ, zero, suc, ◌*◌, ◌≤◌, ◌≡◌, refl, sym, ap, ◌∙◌, subst, arith, none, List, [], ◌∷◌, ◌++◌,
  append_assoc, length, length-append, All,
}
use aurora_core.Common.Words.{Bytes}
use aurora_core.Wire.Varint.{max_varint}
use aurora_core.Wire.Varint.RoundTrip.{varint_bytes}
use aurora_core.Wire.Encoder.{Write, ◌>>◌, write_varint, write_each}
use aurora_core.Wire.Reader.{
  Reader, Read, ◌>>=◌, read_varint, read_vector_count, read_each, remaining, set_err,
}
use aurora_core.Wire.Format.Writes.{Writes, Writes-seq, Writes-varint}
use aurora_core.Wire.Format.Reads.{Holds, Holds-length, Reads-varint}
use aurora_core.Wire.Format.Codes.{Codes, varint_bytes_pos}
use aurora_core.Wire.Format.Parses.{
  Sticky, Parses, Canonical, Bytes-split, clean_before, Sticky-bind, Writes-skip,
}
use aurora_core.Wire.Format.Parses.Scalars.{Sticky-varint, varint_Parses}

-- The count read back, where as many bytes follow.
pub read_vector_count-bytes :
    (n : ℕ) (r : Reader) (rest : List ℕ)
    → n ≤ max_varint
    → n ≤ length rest
    → Holds r (varint_bytes n ++ rest)
    → ((read_vector_count r).0 ≡ n) × Holds (read_vector_count r).1 rest
read_vector_count-bytes n r rest m fits h =
    let q = Reads-varint n m r rest h in rw (counted q.0 q.1) (refl, q.1)
  where
    counted :
        (read_varint r).0 ≡ n
        → Holds (read_varint r).1 rest
        → read_vector_count r ≡ (n, (read_varint r).1)
    counted e k =
        unfold read_vector_count remaining in
        ground (arith, k.clean, Holds-length (read_varint r).1 rest k)

module _ {ℓ} {A : Type ℓ} where
  pub length-read_each : (n : ℕ) (m : Read A) (r : Reader) → length (read_each n m r).0 ≡ n
  unfolding read_each
  length-read_each zero m r = refl
  length-read_each (suc n) m r = ap suc (length-read_each n m (m r).1)

  -- Each element read back in turn.
  pub each_Codes {κ} :
      {P : A → Type κ} {k : ℕ} {w : A → Write} {m : Read A}
      → ((x : A) → P x → Codes k (w x) m x)
      → (xs : List A) → All P xs
      → Codes (length xs * k) (write_each w xs) (read_each (length xs) m) xs
  unfolding write_each read_each
  each_Codes h [] all = record {
    bytes = [];
    size = omega arith;
    writes = Writes-skip;
    reads = λ r rest hr. (refl, hr);
  }
  each_Codes {k} {w} {m} h (x ∷ xs) (px, all) =
      let c = h x px in
      let d = each_Codes h xs all in
      record {
        bytes = c.bytes ++ d.bytes;
        size = omega (arith, length-append c.bytes d.bytes, c.size, d.size);
        writes = Writes-seq (w x) (write_each w xs) c.bytes d.bytes c.writes d.writes;
        reads = λ r rest hr.
            let q =
              c.reads r (d.bytes ++ rest)
                (subst (Holds r) (append_assoc c.bytes d.bytes rest) hr) in
            let q' = d.reads (m r).1 rest q.1 in ((λ i. q.0 i ∷ q'.0 i), q'.1);
      }

  pub Sticky-each : (m : Read A) → Sticky m → (n : ℕ) → Sticky (read_each n m)
  unfolding read_each
  Sticky-each m h zero r x e = e
  Sticky-each m h (suc n) r x e = Sticky-each m h n (m r).1 x (h r x e)

  abbrev pub Listed : (A → Write) → ℕ → List A → List ℕ → Type 0
  Listed w n xs used = (length xs ≡ n) × Writes (write_each w xs) used

  pub each_Parses :
      {m : Read A} {w : A → Write} → Canonical m w → (n : ℕ) → Parses (read_each n m) (Listed w n)
  unfolding read_each write_each
  each_Parses h zero r bs hb hr c = ([], bs, refl, hr, (refl, Writes-skip))
  each_Parses {m} {w} h (suc n) r bs hb hr c =
      let mid = clean_before (read_each n m) (Sticky-each m h.sticky n) (m r).1 c in
      let (used, rest, e, h', wr) = h.parses r bs hb hr mid in
      let hb' = (Bytes-split used rest (subst Bytes e hb)).1 in
      let (used', rest', e', h'', q) = each_Parses {m = m} {w = w} h n (m r).1 rest hb' h' c in
      (
        used ++ used',
        rest',
        e ∙ ap (◌++◌ used) e' ∙ sym (append_assoc used used' rest'),
        h'',
        (
          ap suc q.0,
          Writes-seq (w (m r).0) (write_each w (read_each n m (m r).1).0) used used' wr q.1,
        ),
      )

abbrev pub Count : ℕ → List ℕ → Type 0
Count n used = (n ≤ max_varint) × (used ≡ varint_bytes n)

pub Sticky-vector_count : Sticky read_vector_count
unfolding read_vector_count
Sticky-vector_count r x e = ground (arith, Sticky-varint r x e)

-- Where no error is set the count is what `ReadVarint` returned.
counted_varint :
    (r : Reader) → (read_vector_count r).1.err ≡ none → read_vector_count r ≡ read_varint r
unfolding read_vector_count set_err
counted_varint r c = ground arith

pub vector_head_Parses : Parses read_vector_count Count
vector_head_Parses r bs hb hr c =
    let e = counted_varint r c in
    let mid = ap (λ (q : ℕ × Reader). q.1.err) (sym e) ∙ c in
    let (used, rest, s, h, q) = varint_Parses r bs hb hr mid in
    (
      used,
      rest,
      s,
      subst (λ (q : ℕ × Reader). Holds q.1 rest) (sym e) h,
      subst (λ (q : ℕ × Reader). Count q.0 used) (sym e) q,
    )

-- A count and as many elements, from any reader `c` of counts.
pub vector_Canonical {ℓ} :
    {A : Type ℓ} {m : Read A} {w : A → Write} (c : Read ℕ)
    → Sticky c
    → Parses c Count
    → Canonical m w
    → Canonical (c >>= λ n. read_each n m) (λ xs. write_varint (length xs) >> write_each w xs)
vector_Canonical {m} {w} c hs hc h = record {
  sticky = Sticky-bind c (λ n. read_each n m) hs (Sticky-each m h.sticky);
  parses = λ r bs hb hr clean.
      let n = (c r).0 in
      let mid = clean_before (read_each n m) (Sticky-each m h.sticky n) (c r).1 clean in
      let (used, rest, e, h', q) = hc r bs hb hr mid in
      let hb' = (Bytes-split used rest (subst Bytes e hb)).1 in
      let (used', rest', e', h'', q') = each_Parses {m = m} {w = w} h n (c r).1 rest hb' h' clean in
      let xs = (read_each n m (c r).1).0 in
      (
        used ++ used',
        rest',
        e ∙ ap (◌++◌ used) e' ∙ sym (append_assoc used used' rest'),
        h'',
        Writes-seq (write_varint (length xs)) (write_each w xs) used used'
            (subst (λ k. Writes (write_varint k) used) (sym q'.0)
              (subst (Writes (write_varint n)) (sym q.1) (Writes-varint n q.0)))
            q'.1,
      );
}

-- A reader of counts that returns the count wherever `k` bytes for each element follow.
abbrev pub Counts : ℕ → Read ℕ → Type 0
Counts k c =
    (n : ℕ) (r : Reader) (rest : List ℕ)
    → n ≤ max_varint
    → n * k ≤ length rest
    → Holds r (varint_bytes n ++ rest)
    → ((c r).0 ≡ n) × Holds (c r).1 rest

pub vector_Codes {ℓ κ} :
    {A : Type ℓ} {P : A → Type κ} {k : ℕ} {w : A → Write} {m : Read A} (c : Read ℕ)
    → Counts k c
    → ((x : A) → P x → Codes k (w x) m x)
    → (xs : List A) → All P xs
    → length xs ≤ max_varint
    → Codes 1 (write_varint (length xs) >> write_each w xs) (c >>= λ n. read_each n m) xs
vector_Codes {k} {w} {m} c hc h xs all fits =
    let v = varint_bytes (length xs) in
    let d = each_Codes h xs all in
    record {
      bytes = v ++ d.bytes;
      size = omega (arith, length-append v d.bytes, varint_bytes_pos (length xs));
      writes =
          Writes-seq (write_varint (length xs)) (write_each w xs) v d.bytes
            (Writes-varint (length xs) fits) d.writes;
      reads = λ r rest hr.
          let room : length xs * k ≤ length (d.bytes ++ rest) =
            omega (arith, d.size, length-append d.bytes rest) in
          let q =
            hc (length xs) r (d.bytes ++ rest) fits room
              (subst (Holds r) (append_assoc v d.bytes rest) hr) in
          let q' = d.reads (c r).1 rest q.1 in
          (
            ap (λ n. (read_each n m (c r).1).0) q.0 ∙ q'.0,
            subst (λ n. Holds (read_each n m (c r).1).1 rest) (sym q.0) q'.1,
          );
    }
