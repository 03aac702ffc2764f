-- ===== src/Wire/Format/Reads.antt =====
-- The bytes that each reader method takes from the front of what is left (wire/reader.go).
use aurora_core.Common.{
  ℕ, ◌+◌, ◌^◌, ◌≤◌, ◌<◌, ◌≡◌, refl, sym, ap, ◌∙◌, subst, arith, Bool, true, false, none, some, List,
  [], ◌∷◌, ◌++◌, append_assoc, length, length-append, length-drop, drop-add, take-append_length,
  drop-append_length,
}
use aurora_core.Common.{take as prefix, drop as suffix}
use aurora_core.Common.Words.{byte, shr, join2-16, join3-32, join4-32, join8-64}
use aurora_core.Wire.Varint.{max_varint}
use aurora_core.Wire.Varint.RoundTrip.{varint_bytes, decode_varint-bytes}
use aurora_core.Wire.Encoder.{encode_uint64}
use aurora_core.Wire.Reader.{
  Reader, Read, ◌>>=◌, pure, take, read_uint8, read_bool, read_uint16, read_uint24, read_uint32,
  read_uint64, read_varint, read_opaque_fixed, read_opaque8, read_opaque16, read_opaque24, or_zero,
  or_empty, word8, word16, word24, word32, word64, read_pre_hash, new_reader, eof,
}
use aurora_core.Wire.Format.Writes.{bool_byte, uint16_bytes, uint24_bytes, uint32_bytes}

-- The reader has seen no error, and `bs` is what it has left.
pub record Holds (r : Reader) (bs : List ℕ) : Type 0 where
  pub clean : r.err ≡ none
  pub inside : r.off ≤ length r.b
  pub rest : suffix r.off r.b ≡ bs

pub new_reader-Holds : (b : List ℕ) → Holds (new_reader b) b
unfolding new_reader
new_reader-Holds b = record { clean = refl; inside = omega arith; rest = refl }

pub Holds-length : (r : Reader) (bs : List ℕ) → Holds r bs → r.off + length bs ≡ length r.b
Holds-length r bs h = omega (arith, h.inside, ap length h.rest, length-drop r.off r.b)

-- A reader at the end of its input has nothing left, and the other way round.
pub eof-Holds : (r : Reader) → Holds r [] → eof r ≡ true
unfolding eof
eof-Holds r h = rw (h.clean, eof) (ground (arith, Holds-length r [] h))

-- With `bs` in front, `m` takes `bs` and returns `a`.
abbrev pub Reads {ℓ} : {A : Type ℓ} → Read A → List ℕ → A → Type ℓ
Reads m bs a =
    (r : Reader) (rest : List ℕ) → Holds r (bs ++ rest) → ((m r).0 ≡ a) × Holds (m r).1 rest

module _ {ℓ κ} {A : Type ℓ} {B : Type κ} where
  pub Reads-bind :
      (m : Read A) (f : A → Read B) (bs cs : List ℕ) (a : A) (b : B)
      → Reads m bs a
      → Reads (f a) cs b
      → Reads (m >>= f) (bs ++ cs) b
  Reads-bind m f bs cs a b hm hf r rest h =
      let first = hm r (cs ++ rest) (subst (Holds r) (append_assoc bs cs rest) h) in
      let next = hf (m r).1 rest first.1 in
      (
        ap (λ x. (f x (m r).1).0) first.0 ∙ next.0,
        subst (λ x. Holds (f x (m r).1).1 rest) (sym first.0) next.1,
      )

  pub Reads-map :
      (m : Read A) (g : A → B) (bs : List ℕ) (a : A)
      → Reads m bs a
      → Reads (m >>= λ x. pure (g x)) bs (g a)
  Reads-map m g bs a hm r rest h = (ap g (hm r rest h).0, (hm r rest h).1)

-- Stepping over `bs`.
pub Holds-advance :
    (r : Reader) (bs rest : List ℕ) (n : ℕ)
    → length bs ≡ n
    → Holds r (bs ++ rest)
    → Holds (record r { off = r.off + n }) rest
Holds-advance r bs rest n e h = record {
  clean = h.clean;
  inside = omega (arith, Holds-length r (bs ++ rest) h, length-append bs rest);
  rest =
      drop-add r.off n r.b
      ∙ ap (suffix n) h.rest
      ∙ ap (λ k. suffix k (bs ++ rest)) (sym e)
      ∙ drop-append_length bs rest;
}

pub Reads-take : (n : ℕ) (bs : List ℕ) → length bs ≡ n → Reads (take n) bs (some bs)
Reads-take n bs e r rest h = rw (took) (refl, Holds-advance r bs rest n e h)
  where
    front : prefix n (suffix r.off r.b) ≡ bs
    front =
        ap (prefix n) h.rest ∙ ap (λ k. prefix k (bs ++ rest)) (sym e) ∙ take-append_length bs rest

    took : take n r ≡ (some bs, record r { off = r.off + n })
    took =
        unfold take in
        ground (arith, h.clean, front, Holds-length r (bs ++ rest) h, length-append bs rest)

Reads-eq {ℓ} :
    {A : Type ℓ} (m : Read A) (bs : List ℕ) (a a' : A) → a ≡ a' → Reads m bs a → Reads m bs a'
Reads-eq m bs a a' e = subst (Reads m bs) e

pub Reads-uint8 : (v : ℕ) → Reads read_uint8 (v ∷ []) v
unfolding read_uint8
Reads-uint8 v =
    Reads-map (take 1) (or_zero word8) (v ∷ []) (some (v ∷ [])) (Reads-take 1 (v ∷ []) refl)

pub Reads-uint16 : (v : ℕ) → v < 2 ^ 16 → Reads read_uint16 (uint16_bytes v) v
unfolding read_uint16
Reads-uint16 v h =
    Reads-eq read_uint16 (uint16_bytes v) _ v
      (join2-16 (byte (shr v 8)) (byte v) (omega arith) (omega arith) ∙ omega arith)
      (Reads-map (take 2) (or_zero word16) (uint16_bytes v) (some (uint16_bytes v))
        (Reads-take 2 _ refl))

pub Reads-uint24 : (v : ℕ) → v < 2 ^ 24 → Reads read_uint24 (uint24_bytes v) v
unfolding read_uint24
Reads-uint24 v h =
    Reads-eq read_uint24 (uint24_bytes v) _ v
      (join3-32 (byte (shr v 16)) (byte (shr v 8)) (byte v) (omega arith) (omega arith)
          (omega arith)
        ∙ omega arith)
      (Reads-map (take 3) (or_zero word24) (uint24_bytes v) (some (uint24_bytes v))
        (Reads-take 3 _ refl))

pub Reads-uint32 : (v : ℕ) → v < 2 ^ 32 → Reads read_uint32 (uint32_bytes v) v
unfolding read_uint32
Reads-uint32 v h =
    Reads-eq read_uint32 (uint32_bytes v) _ v
      (join4-32 (byte (shr v 24)) (byte (shr v 16)) (byte (shr v 8)) (byte v) (omega arith)
          (omega arith) (omega arith) (omega arith)
        ∙ omega arith)
      (Reads-map (take 4) (or_zero word32) (uint32_bytes v) (some (uint32_bytes v))
        (Reads-take 4 _ refl))

pub Reads-uint64 : (v : ℕ) → v < 2 ^ 64 → Reads read_uint64 (encode_uint64 v) v
unfolding read_uint64 encode_uint64
Reads-uint64 v h =
    Reads-eq read_uint64 (encode_uint64 v) _ v
      (join8-64 (byte (shr v 56)) (byte (shr v 48)) (byte (shr v 40)) (byte (shr v 32))
          (byte (shr v 24)) (byte (shr v 16)) (byte (shr v 8)) (byte v) (omega arith)
        ∙ omega arith)
      (Reads-map (take 8) (or_zero word64) (encode_uint64 v) (some (encode_uint64 v))
        (Reads-take 8 _ refl))

read_bool_lem :
    (v : Bool) (r : Reader)
    → (read_uint8 r).0 ≡ bool_byte v
    → (read_uint8 r).1.err ≡ none
    → read_bool r ≡ (v, (read_uint8 r).1)
unfolding read_bool
read_bool_lem true r e c = ground arith
read_bool_lem false r e c = ground arith

pub Reads-bool : (v : Bool) → Reads read_bool (bool_byte v ∷ []) v
Reads-bool v r rest h =
    let first = Reads-uint8 (bool_byte v) r rest h in
    rw (read_bool_lem v r first.0 first.1.clean) (refl, first.1)

pub Reads-varint : (v : ℕ) → v ≤ max_varint → Reads read_varint (varint_bytes v) v
Reads-varint v m r rest h =
    rw (took) (refl, Holds-advance r (varint_bytes v) rest (length (varint_bytes v)) refl h)
  where
    took : read_varint r ≡ (v, record r { off = r.off + length (varint_bytes v) })
    took = unfold read_varint in ground (arith, h.clean, h.rest, decode_varint-bytes v rest m)

pub Reads-opaque_fixed : (b : List ℕ) (n : ℕ) → length b ≡ n → Reads (read_opaque_fixed n) b b
unfolding read_opaque_fixed
Reads-opaque_fixed b n e = Reads-map (take n) or_empty b (some b) (Reads-take n b e)

pub Reads-pre_hash : (b : List ℕ) → length b ≡ 48 → Reads read_pre_hash b b
unfolding read_pre_hash
Reads-pre_hash b e = Reads-opaque_fixed b 48 e

pub Reads-opaque8 : (b : List ℕ) → length b ≤ 0xff → Reads read_opaque8 (length b ∷ b) b
unfolding read_opaque8
Reads-opaque8 b h =
    Reads-bind read_uint8 read_opaque_fixed (length b ∷ []) b (length b) b (Reads-uint8 (length b))
      (Reads-opaque_fixed b (length b) refl)

pub Reads-opaque16 :
    (b : List ℕ) → length b ≤ 0xffff → Reads read_opaque16 (uint16_bytes (length b) ++ b) b
unfolding read_opaque16
Reads-opaque16 b h =
    Reads-bind read_uint16 read_opaque_fixed (uint16_bytes (length b)) b (length b) b
      (Reads-uint16 (length b) (omega arith)) (Reads-opaque_fixed b (length b) refl)

pub Reads-opaque24 :
    (b : List ℕ) → length b ≤ 0xffffff → Reads read_opaque24 (uint24_bytes (length b) ++ b) b
unfolding read_opaque24
Reads-opaque24 b h =
    Reads-bind read_uint24 read_opaque_fixed (uint24_bytes (length b)) b (length b) b
      (Reads-uint24 (length b) (omega arith)) (Reads-opaque_fixed b (length b) refl)
