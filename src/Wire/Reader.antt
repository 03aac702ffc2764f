-- ===== src/Wire/Reader.antt =====
-- wire/reader.go. A reader is its input, an offset into it and its first error. A method takes a
-- reader and returns its result with the reader that it leaves. Borrowed views and copies of a slice
-- are the same value here, and `take` returns `none` for nil.
use aurora_core.Common.{
  ℕ, zero, suc, ◌+◌, ◌-◌, Bool, false, ◌&&◌, ◌||◌, not, Option, none, some, List, [], ◌∷◌, ltb,
  ◌==◌, if◌then◌else◌, length, get_or,
}
use aurora_core.Common.{take as prefix, drop as suffix}
use aurora_core.Common.Words.{join2, join3, join4, join8}
use aurora_core.Errors.{Error, ok, fail, short_read, malformed_bool, count_exceeds_remaining}
use aurora_core.Wire.Varint.{decode_varint}

pub record Reader : Type 0 where
  pub b : List ℕ
  pub off : ℕ
  pub err : Option Error

abbrev pub Read {ℓ} : Type ℓ → Type ℓ
Read A = Reader → A × Reader

infixl 5 ◌>>=◌
abbrev pub ◌>>=◌ {ℓ κ} : {A : Type ℓ} {B : Type κ} → Read A → (A → Read B) → Read B
◌>>=◌ m f r = let (a, r') = m r in f a r'

abbrev pub pure {ℓ} : {A : Type ℓ} → A → Read A
pure a r = (a, r)

unfoldable pub new_reader : List ℕ → Reader
new_reader b = record { b = b; off = 0; err = none }

unfoldable pub set_err : Error → Reader → Reader
set_err x r = elim r.err [ none ↦ record r { err = some x } | some y ↦ r ]

unfoldable pub remaining : Reader → ℕ
remaining r = length r.b - r.off

unfoldable pub eof : Reader → Bool
eof r = elim r.err [ none ↦ r.off == length r.b | some x ↦ false ]

unfoldable pub take : ℕ → Read (Option (List ℕ))
take n r = elim r.err [
  | some x ↦ (none, r)
  | none ↦
      if ltb (length r.b) r.off || ltb (length r.b - r.off) n
      then (none, record r { err = some short_read })
      else (some (prefix n (suffix r.off r.b)), record r { off = r.off + n })
]

-- `if b == nil { return 0 }`, and the value of the bytes otherwise.
abbrev pub or_zero : (List ℕ → ℕ) → Option (List ℕ) → ℕ
or_zero f none = 0
or_zero f (some b) = f b

-- The expressions on `b[0]`, `b[1]`, ... that the fixed-width reads return.
abbrev pub word8 : List ℕ → ℕ
word8 b = get_or b 0 0

abbrev pub word16 : List ℕ → ℕ
word16 b = join2 16 (get_or b 0 0) (get_or b 1 0)

abbrev pub word24 : List ℕ → ℕ
word24 b = join3 32 (get_or b 0 0) (get_or b 1 0) (get_or b 2 0)

abbrev pub word32 : List ℕ → ℕ
word32 b = join4 32 (get_or b 0 0) (get_or b 1 0) (get_or b 2 0) (get_or b 3 0)

abbrev pub word64 : List ℕ → ℕ
word64 b =
    join8 64 (get_or b 0 0) (get_or b 1 0) (get_or b 2 0) (get_or b 3 0) (get_or b 4 0)
      (get_or b 5 0) (get_or b 6 0) (get_or b 7 0)

unfoldable pub read_uint8 : Read ℕ
unfolding take
read_uint8 = do b ← take 1; pure (or_zero (λ b. get_or b 0 0) b)

unfoldable pub read_bool : Read Bool
unfolding read_uint8
read_bool r =
    let (v, r') = read_uint8 r in
    elim r'.err [
      | some x ↦ (false, r')
      | none ↦
          if not (v == 0) && not (v == 1)
          then (false, record r' { err = some malformed_bool })
          else (v == 1, r')
    ]

unfoldable pub read_uint16 : Read ℕ
unfolding take join2
read_uint16 = do b ← take 2; pure (or_zero (λ b. join2 16 (get_or b 0 0) (get_or b 1 0)) b)

unfoldable pub read_uint24 : Read ℕ
unfolding take join3
read_uint24 = do b ← take 3; pure (or_zero word24 b)

unfoldable pub read_uint32 : Read ℕ
unfolding take join4
read_uint32 = do b ← take 4; pure (or_zero word32 b)

unfoldable pub read_uint64 : Read ℕ
unfolding take join8
read_uint64 = do b ← take 8; pure (or_zero word64 b)

unfoldable pub read_varint : Read ℕ
read_varint r = elim r.err [
  | some x ↦ (0, r)
  | none ↦ elim (decode_varint (suffix r.off r.b)) [
    | ok (v, n) ↦ (v, record r { off = r.off + n })
    | fail x ↦ (0, record r { err = some x })
  ]
]

-- Nil stands for no bytes.
abbrev pub or_empty : Option (List ℕ) → List ℕ
or_empty none = []
or_empty (some b) = b

unfoldable pub read_opaque_fixed : ℕ → Read (List ℕ)
unfolding take
read_opaque_fixed n = do b ← take n; pure (or_empty b)

unfoldable pub read_opaque8 : Read (List ℕ)
unfolding read_uint8 read_opaque_fixed
read_opaque8 = do n ← read_uint8; read_opaque_fixed n

unfoldable pub read_opaque16 : Read (List ℕ)
unfolding read_uint16 read_opaque_fixed
read_opaque16 = do n ← read_uint16; read_opaque_fixed n

unfoldable pub read_opaque24 : Read (List ℕ)
unfolding read_uint24 read_opaque_fixed
read_opaque24 = do n ← read_uint24; read_opaque_fixed n

unfoldable pub read_pre_hash : Read (List ℕ)
unfolding read_opaque_fixed
read_pre_hash = read_opaque_fixed 48

unfoldable pub read_vector_count : Read ℕ
unfolding read_varint remaining set_err
read_vector_count r =
    let (n, r') = read_varint r in
    elim r'.err [
      | some x ↦ (0, r')
      | none ↦ if ltb (remaining r') n then (0, set_err count_exceeds_remaining r') else (n, r')
    ]

-- The loop `for i := 0; i < n; i++ { out = append(out, read(r)) }`.
unfoldable pub read_each {ℓ} : {A : Type ℓ} → ℕ → Read A → Read (List A)
read_each zero m r = ([], r)
read_each (suc n) m r = let (x, r') = m r in let (xs, r'') = read_each n m r' in (x ∷ xs, r'')

-- The same loop, left at the first error.
unfoldable pub read_items : ℕ → Read ℕ → Read (Option (List ℕ))
read_items zero m r = (some [], r)
read_items (suc n) m r =
    let (x, r') = m r in
    let (xs, r'') = read_items n m r' in
    elim r'.err [
      | some e ↦ (none, r')
      | none ↦ (elim xs [ none ↦ none | some ys ↦ some (x ∷ ys) ], r'')
    ]

unfoldable pub read_varint_vector : Read (List ℕ)
unfolding read_vector_count read_items read_varint
read_varint_vector r =
    let (n, r') = read_vector_count r in
    elim r'.err [
      | some x ↦ ([], r')
      | none ↦ let (xs, r'') = read_items n read_varint r' in (or_empty xs, r'')
    ]
