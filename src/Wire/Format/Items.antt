-- ===== src/Wire/Format/Items.antt =====
-- wire/reader.go: vectors of integers.
use aurora_core.Common.{
  ℕ, zero, suc, ◌≡◌, refl, ap, ◌∙◌, arith, subst, none, some, List, ◌++◌, Option-cases, inl, inr,
}
use aurora_core.Wire.Encoder.{Write, write_varint_vector}
use aurora_core.Wire.Reader.{
  Reader, Read, ◌>>=◌, read_varint, read_vector_count, read_each, read_items, read_varint_vector,
}
use aurora_core.Wire.Format.Reads.{Holds}
use aurora_core.Wire.Format.Writes.{Writes}
use aurora_core.Wire.Format.Parses.{Canonical, Sticky}
use aurora_core.Wire.Format.Parses.Scalars.{varint_Canonical, Sticky-varint}
use aurora_core.Wire.Format.Vectors.{Sticky-vector_count, vector_head_Parses, vector_Canonical}

-- A decoder that is another one wherever it ends without an error.
pub Canonical-agree {ℓ} :
    {A : Type ℓ} {m m' : Read A} {w : A → Write}
    → Sticky m
    → ((r : Reader) → (m r).1.err ≡ none → m' r ≡ m r)
    → Canonical m' w
    → Canonical m w
Canonical-agree {A} {m} {m'} {w} s agree c = record {
  sticky = s;
  parses = λ r bs hb hr clean.
      let e = agree r clean in
      subst
        (λ (q : A × Reader).
          (used : List ℕ) × (rest : List ℕ) × (bs ≡ used ++ rest)
          × Holds q.1 rest
          × Writes (w q.0) used)
        e (c.parses r bs hb hr (ap (λ (q : A × Reader). q.1.err) e ∙ clean));
}

items_each :
    (n : ℕ) (r : Reader)
    → (read_items n read_varint r).1.err ≡ none
    → read_items n read_varint r
      ≡ (some (read_each n read_varint r).0, (read_each n read_varint r).1)
unfolding read_items read_each
items_each zero r c = refl
items_each (suc n) r c = elim (Option-cases (read_varint r).1.err) [
  | inr (x, e) ↦ absurd (ground (arith, c, e))
  | inl e ↦
      let rest : (read_items n read_varint (read_varint r).1).1.err ≡ none = ground (arith, c, e) in
      ground (arith, e, items_each n (read_varint r).1 rest)
]

items_Sticky : (n : ℕ) → Sticky (read_items n read_varint)
unfolding read_items
items_Sticky zero r x e = e
items_Sticky (suc n) r x e = ground (arith, Sticky-varint r x e)

varint_vector_agrees :
    (r : Reader)
    → (read_varint_vector r).1.err ≡ none
    → (read_vector_count >>= λ n. read_each n read_varint) r ≡ read_varint_vector r
unfolding read_varint_vector
varint_vector_agrees r c = elim (Option-cases (read_vector_count r).1.err) [
  | inr (x, e) ↦ absurd (ground (arith, c, e))
  | inl e ↦
      let rest : (read_items (read_vector_count r).0 read_varint (read_vector_count r).1).1.err
          ≡ none =
        ground (arith, c, e) in
      ground (arith, e, items_each (read_vector_count r).0 (read_vector_count r).1 rest)
]

Sticky-varint_vector : Sticky read_varint_vector
unfolding read_varint_vector
Sticky-varint_vector r x e = ground (arith, Sticky-vector_count r x e)

pub varint_vector_Canonical : Canonical read_varint_vector write_varint_vector
unfolding write_varint_vector
varint_vector_Canonical =
    Canonical-agree Sticky-varint_vector varint_vector_agrees
      (vector_Canonical read_vector_count Sticky-vector_count vector_head_Parses varint_Canonical)
