-- ===== src/Wire/Format/Parses/Scalars.antt =====
-- The fixed-width and length-prefixed reads of wire/reader.go are canonical.
use aurora_core.Common.{
  ℕ, ◌+◌, ◌≤◌, ◌≡◌, refl, sym, ap, ◌∙◌, subst, arith, Bool, true, false, Option, none, some, List,
  [], ◌∷◌, ◌++◌, inl, inr, length, take-append-drop, length-take_le, append_assoc,
}
use aurora_core.Common.{take as prefix, drop as suffix}
use aurora_core.Common.Words.{Bytes, join2-16, join3-32, join4-32, join8-64}
use aurora_core.Errors.{Result-cases}
use aurora_core.Wire.Varint.{max_varint, decode_varint}
use aurora_core.Wire.Varint.RoundTrip.{varint_bytes}
use aurora_core.Wire.Varint.Canonical.{Accepts, decode_varint-Accepts}
use aurora_core.Wire.Encoder.{
  Write, write_uint8, write_bool, write_uint16, write_uint24, write_uint32, write_uint64,
  encode_uint64, write_varint, write_opaque_fixed, write_opaque8, write_opaque16, write_opaque24,
  write_pre_hash,
}
use aurora_core.Wire.Reader.{
  Reader, Read, ◌>>=◌, pure, take, or_zero, or_empty, word8, word16, word24, word32, word64,
  read_uint8, read_bool, read_uint16, read_uint24, read_uint32, read_uint64, read_varint,
  read_opaque_fixed, read_opaque8, read_opaque16, read_opaque24, read_pre_hash,
}
use aurora_core.Wire.Format.Writes.{
  Writes, Writes-uint8, bool_byte, Writes-uint16, Writes-uint24, Writes-uint32, Writes-uint64,
  Writes-varint, Writes-opaque_fixed, Writes-opaque8, Writes-opaque16, Writes-opaque24,
  uint16_bytes, uint24_bytes,
}
use aurora_core.Wire.Format.Reads.{Holds, Holds-length, Holds-advance}
use aurora_core.Wire.Format.Parses.{
  Sticky, Parses, Canonical, Bytes-split, clean_before, Sticky-bind,
}

Sticky-take : (n : ℕ) → Sticky (take n)
unfolding take
Sticky-take n r x e = ground arith

-- A `take` that succeeds returns the first `n` bytes that were left.
record Took (n : ℕ) (r : Reader) (bs used rest : List ℕ) : Type 0 where
  split : bs ≡ used ++ rest
  size : length used ≡ n
  result : take n r ≡ (some used, record r { off = r.off + n })

take_room :
    (n : ℕ) (r : Reader) (bs : List ℕ) → Holds r bs → (take n r).1.err ≡ none → n ≤ length bs
unfolding take
take_room n r bs h c = ground (arith, Holds-length r bs h, h.clean)

take_Took :
    (n : ℕ) (r : Reader) (bs : List ℕ)
    → Holds r bs
    → n ≤ length bs
    → Took n r bs (prefix n bs) (suffix n bs)
unfolding take
take_Took n r bs h m = record {
  split = sym (take-append-drop n bs);
  size = length-take_le n bs m;
  result = ground (arith, Holds-length r bs h, h.clean, ap (prefix n) h.rest);
}

pub Parses-take : (n : ℕ) → Parses (take n) (λ b used. (b ≡ some used) × (length used ≡ n))
Parses-take n r bs hb h c =
    let t = take_Took n r bs h (take_room n r bs h c) in
    (
      prefix n bs,
      suffix n bs,
      t.split,
      subst (λ (q : Option (List ℕ) × Reader). Holds q.1 (suffix n bs)) (sym t.result)
          (Holds-advance r (prefix n bs) (suffix n bs) n t.size (subst (Holds r) t.split h)),
      (ap (λ (q : Option (List ℕ) × Reader). q.0) t.result, t.size),
    )

-- A read that only computes on `n` bytes.
word_Parses {ℓ κ} :
    {A : Type ℓ} (Q : A → List ℕ → Type κ) (n : ℕ) (g : Option (List ℕ) → A)
    → ((u : List ℕ) → Bytes u → length u ≡ n → Q (g (some u)) u)
    → Parses (take n >>= λ b. pure (g b)) Q
word_Parses Q n g h r bs hb hr c =
    let (used, rest, e, h', q) = Parses-take n r bs hb hr c in
    (
      used,
      rest,
      e,
      h',
      subst (λ b. Q (g b) used) (sym q.0) (h used (Bytes-split used rest (subst Bytes e hb)).0 q.1),
    )

word_Canonical {ℓ} :
    {A : Type ℓ} (n : ℕ) (g : Option (List ℕ) → A) (w : A → Write)
    → ((u : List ℕ) → Bytes u → length u ≡ n → Writes (w (g (some u))) u)
    → Canonical (take n >>= λ b. pure (g b)) w
word_Canonical n g w h = record {
  sticky = Sticky-take n;
  parses = word_Parses (λ a used. Writes (w a) used) n g h;
}

word16-Bytes : (u : List ℕ) → Bytes u → length u ≡ 2 → Writes (write_uint16 (word16 u)) u
word16-Bytes [] h e = absurd (omega arith)
word16-Bytes (b0 ∷ []) h e = absurd (omega arith)
word16-Bytes (b0 ∷ b1 ∷ []) h e =
    let v = join2-16 b0 b1 h.0 h.1.0 in
    subst (Writes (write_uint16 (word16 (b0 ∷ b1 ∷ [])))) (ground (arith, v))
      (Writes-uint16 (word16 (b0 ∷ b1 ∷ [])))
word16-Bytes (b0 ∷ b1 ∷ b2 ∷ u) h e = absurd (omega arith)

word24-Bytes : (u : List ℕ) → Bytes u → length u ≡ 3 → Writes (write_uint24 (word24 u)) u
word24-Bytes [] h e = absurd (omega arith)
word24-Bytes (b0 ∷ []) h e = absurd (omega arith)
word24-Bytes (b0 ∷ b1 ∷ []) h e = absurd (omega arith)
word24-Bytes (b0 ∷ b1 ∷ b2 ∷ []) h e =
    let v = join3-32 b0 b1 b2 h.0 h.1.0 h.1.1.0 in
    subst (Writes (write_uint24 (word24 (b0 ∷ b1 ∷ b2 ∷ [])))) (ground (arith, v))
      (Writes-uint24 (word24 (b0 ∷ b1 ∷ b2 ∷ [])) (omega (arith, v)))
word24-Bytes (b0 ∷ b1 ∷ b2 ∷ b3 ∷ u) h e = absurd (omega arith)

word32-Bytes : (u : List ℕ) → Bytes u → length u ≡ 4 → Writes (write_uint32 (word32 u)) u
word32-Bytes (b0 ∷ b1 ∷ b2 ∷ b3 ∷ []) h e =
    let v = join4-32 b0 b1 b2 b3 h.0 h.1.0 h.1.1.0 h.1.1.1.0 in
    subst (Writes (write_uint32 (word32 (b0 ∷ b1 ∷ b2 ∷ b3 ∷ [])))) (ground (arith, v))
      (Writes-uint32 (word32 (b0 ∷ b1 ∷ b2 ∷ b3 ∷ [])))
word32-Bytes _ h e = absurd (omega arith)

word64-Bytes : (u : List ℕ) → Bytes u → length u ≡ 8 → Writes (write_uint64 (word64 u)) u
unfolding encode_uint64
word64-Bytes (b0 ∷ b1 ∷ b2 ∷ b3 ∷ b4 ∷ b5 ∷ b6 ∷ b7 ∷ []) h e =
    let v = join8-64 b0 b1 b2 b3 b4 b5 b6 b7 h in
    let u = b0 ∷ b1 ∷ b2 ∷ b3 ∷ b4 ∷ b5 ∷ b6 ∷ b7 ∷ [] in
    subst (Writes (write_uint64 (word64 u))) (ground (arith, v)) (Writes-uint64 (word64 u))
word64-Bytes _ h e = absurd (omega arith)

word8-Bytes : (u : List ℕ) → Bytes u → length u ≡ 1 → Writes (write_uint8 (word8 u)) u
word8-Bytes (b0 ∷ []) h e = Writes-uint8 b0
word8-Bytes _ h e = absurd (omega arith)

pub uint8_Canonical : Canonical read_uint8 write_uint8
unfolding read_uint8
uint8_Canonical = word_Canonical 1 (or_zero word8) write_uint8 word8-Bytes

pub uint16_Canonical : Canonical read_uint16 write_uint16
unfolding read_uint16
uint16_Canonical = word_Canonical 2 (or_zero word16) write_uint16 word16-Bytes

pub uint24_Canonical : Canonical read_uint24 write_uint24
unfolding read_uint24
uint24_Canonical = word_Canonical 3 (or_zero word24) write_uint24 word24-Bytes

pub uint32_Canonical : Canonical read_uint32 write_uint32
unfolding read_uint32
uint32_Canonical = word_Canonical 4 (or_zero word32) write_uint32 word32-Bytes

pub uint64_Canonical : Canonical read_uint64 write_uint64
unfolding read_uint64
uint64_Canonical = word_Canonical 8 (or_zero word64) write_uint64 word64-Bytes

pub opaque_fixed_Canonical : (n : ℕ) → Canonical (read_opaque_fixed n) (λ b. write_opaque_fixed b n)
unfolding read_opaque_fixed
opaque_fixed_Canonical n =
    word_Canonical n or_empty (λ b. write_opaque_fixed b n) (λ u hu e. Writes-opaque_fixed u n e)

pub pre_hash_Canonical : Canonical read_pre_hash write_pre_hash
unfolding read_pre_hash write_pre_hash
pre_hash_Canonical = opaque_fixed_Canonical 48

-- A length of at most `limit`, written in the bytes `size n`.
abbrev Prefixed : (ℕ → List ℕ) → ℕ → ℕ → List ℕ → Type 0
Prefixed size limit n used = (used ≡ size n) × (n ≤ limit)

abbrev Exactly : ℕ → List ℕ → List ℕ → Type 0
Exactly n b used = (b ≡ used) × (length used ≡ n)

-- A length prefix in the bytes `size n`, then that many bytes.
opaque_Canonical :
    (m : Read ℕ) (limit : ℕ) (size : ℕ → List ℕ) (w : List ℕ → Write)
    → Sticky m
    → Parses m (Prefixed size limit)
    → ((b : List ℕ) → length b ≤ limit → Writes (w b) (size (length b) ++ b))
    → Canonical (m >>= read_opaque_fixed) w
opaque_Canonical m limit size w hs hm hw = record {
  sticky = Sticky-bind m read_opaque_fixed hs fixed_Sticky;
  parses = λ r bs hb hr c.
      let n = (m r).0 in
      let mid = clean_before (read_opaque_fixed n) (fixed_Sticky n) (m r).1 c in
      let (used, rest, e, h', q) = hm r bs hb hr mid in
      let hb' = (Bytes-split used rest (subst Bytes e hb)).1 in
      let (b, rest', e', h'', q') = fixed_Parses n (m r).1 rest hb' h' c in
      let written : Writes (w b) (used ++ b) =
        subst (λ u. Writes (w b) (u ++ b)) (ap size q'.1 ∙ sym q.0)
          (hw b (omega (arith, q'.1, q.1))) in
      (
        used ++ b,
        rest',
        e ∙ ap (◌++◌ used) e' ∙ sym (append_assoc used b rest'),
        h'',
        subst (λ a. Writes (w a) (used ++ b)) (sym q'.0) written,
      );
}
  where
    fixed_Sticky : (n : ℕ) → Sticky (read_opaque_fixed n)
    fixed_Sticky n = (opaque_fixed_Canonical n).sticky

    fixed_Parses : (n : ℕ) → Parses (read_opaque_fixed n) (Exactly n)
    fixed_Parses n =
        unfold read_opaque_fixed in word_Parses (Exactly n) n or_empty (λ u hu e. (refl, e))

size8 : (u : List ℕ) → Bytes u → length u ≡ 1 → (u ≡ word8 u ∷ []) × (word8 u ≤ 0xff)
size8 (b0 ∷ []) h e = (refl, omega (arith, h.0))
size8 _ h e = absurd (omega arith)

size16 : (u : List ℕ) → Bytes u → length u ≡ 2 → (u ≡ uint16_bytes (word16 u)) × (word16 u ≤ 0xffff)
size16 (b0 ∷ b1 ∷ []) h e =
    let v = join2-16 b0 b1 h.0 h.1.0 in (ground (arith, v), omega (arith, v, h.0, h.1.0))
size16 _ h e = absurd (omega arith)

size24 :
    (u : List ℕ) → Bytes u → length u ≡ 3 → (u ≡ uint24_bytes (word24 u)) × (word24 u ≤ 0xffffff)
size24 (b0 ∷ b1 ∷ b2 ∷ []) h e =
    let v = join3-32 b0 b1 b2 h.0 h.1.0 h.1.1.0 in
    (ground (arith, v), omega (arith, v, h.0, h.1.0, h.1.1.0))
size24 _ h e = absurd (omega arith)

pub opaque8_Canonical : Canonical read_opaque8 write_opaque8
unfolding read_opaque8 read_uint8
opaque8_Canonical =
    opaque_Canonical read_uint8 0xff (λ n. n ∷ []) write_opaque8 (Sticky-take 1)
      (word_Parses (Prefixed (λ n. n ∷ []) 0xff) 1 (or_zero word8) size8) Writes-opaque8

pub opaque16_Canonical : Canonical read_opaque16 write_opaque16
unfolding read_opaque16 read_uint16
opaque16_Canonical =
    opaque_Canonical read_uint16 0xffff uint16_bytes write_opaque16 (Sticky-take 2)
      (word_Parses (Prefixed uint16_bytes 0xffff) 2 (or_zero word16) size16) Writes-opaque16

pub opaque24_Canonical : Canonical read_opaque24 write_opaque24
unfolding read_opaque24 read_uint24
opaque24_Canonical =
    opaque_Canonical read_uint24 0xffffff uint24_bytes write_opaque24 (Sticky-take 3)
      (word_Parses (Prefixed uint24_bytes 0xffffff) 3 (or_zero word24) size24) Writes-opaque24

pub Sticky-varint : Sticky read_varint
unfolding read_varint
Sticky-varint r x e = ground arith

varint-Accepts :
    (r : Reader) (bs : List ℕ)
    → Bytes bs
    → Holds r bs
    → (read_varint r).1.err ≡ none
    → (v : ℕ) × (n : ℕ) × (read_varint r ≡ (v, record r { off = r.off + n })) × Accepts bs v n
varint-Accepts r bs hb hr c = elim (Result-cases (decode_varint bs)) [
  | inl ((v, n), e) ↦ (
    v,
    n,
    (unfold read_varint in ground (arith, hr.clean, hr.rest, e)),
    decode_varint-Accepts bs v n hb e,
  )
  | inr (x, e) ↦ absurd (unfold read_varint in ground (arith, hr.clean, hr.rest, e))
]

pub varint_Parses : Parses read_varint (λ v used. (v ≤ max_varint) × (used ≡ varint_bytes v))
varint_Parses r bs hb hr c =
    let (v, n, e, a) = varint-Accepts r bs hb hr c in
    let split : bs ≡ prefix n bs ++ suffix n bs = sym (take-append-drop n bs) in
    (
      prefix n bs,
      suffix n bs,
      split,
      subst (λ (q : ℕ × Reader). Holds q.1 (suffix n bs)) (sym e)
          (Holds-advance r (prefix n bs) (suffix n bs) n (length-take_le n bs a.fits)
            (subst (Holds r) split hr)),
      (
        subst (λ (q : ℕ × Reader). q.0 ≤ max_varint) (sym e) a.in_range,
        a.bytes ∙ ap varint_bytes (sym (ap (λ (q : ℕ × Reader). q.0) e)),
      ),
    )

pub varint_Canonical : Canonical read_varint write_varint
varint_Canonical = record {
  sticky = Sticky-varint;
  parses = λ r bs hb hr c.
      let (used, rest, e, h, q) = varint_Parses r bs hb hr c in
      (
        used,
        rest,
        e,
        h,
        subst (Writes (write_varint (read_varint r).0)) (sym q.1)
            (Writes-varint (read_varint r).0 q.0),
      );
}

Sticky-bool : Sticky read_bool
unfolding read_bool
Sticky-bool r x e = ground (arith, uint8_Canonical.sticky r x e)

-- What `read_bool` makes of the byte that it reads.
bool_of_byte :
    (r : Reader)
    → (read_bool r).1.err ≡ none
    → ((read_uint8 r).0 ≡ bool_byte (read_bool r).0) × ((read_bool r).1 ≡ (read_uint8 r).1)
unfolding read_bool
bool_of_byte r c = ground arith

pub bool_Canonical : Canonical read_bool write_bool
bool_Canonical = record {
  sticky = Sticky-bool;
  parses = λ r bs hb hr c.
      let q = bool_of_byte r c in
      let mid = ap (λ (s : Reader). s.err) (sym q.1) ∙ c in
      let (used, rest, e, h, wr) = uint8_Canonical.parses r bs hb hr mid in
      (
        used,
        rest,
        e,
        subst (λ s. Holds s rest) (sym q.1) h,
        bool_written (read_bool r).0 used (subst (λ v. Writes (write_uint8 v) used) q.0 wr),
      );
}
  where
    bool_written :
        (v : Bool) (used : List ℕ)
        → Writes (write_uint8 (bool_byte v)) used
        → Writes (write_bool v) used
    bool_written true used h = unfold write_bool in h
    bool_written false used h = unfold write_bool in h
