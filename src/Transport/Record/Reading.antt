-- ===== src/Transport/Record/Reading.antt =====
-- transport/record.go: what a reader returns of a stream of records.
use aurora_core.Common.{
  ℕ, zero, suc, ◌+◌, ◌≤◌, ◌<◌, ◌≡◌, refl, ap, ◌∙◌, arith, ◌||◌, Option, none, some, List, [], ◌∷◌,
  ◌++◌, append_assoc, ◌==◌, if◌then◌else◌, length, length-append, length-take_le, take,
  take-append_length, drop-append_length, All,
}
use aurora_core.Common.Words.{byte, shr, join3-32}
use aurora_core.Errors.{Error, Result, ok, fail, end_of_file, unexpected_end_of_file}
use aurora_core.Wire.Format.Writes.{each_bytes}
use aurora_core.Transport.Record.{
  RecordReader, max_record_body_bytes, read_full, check_length, read_length, read_body, read,
  record_prefix,
}

abbrev pub record_bytes : List ℕ → List ℕ
record_bytes body = record_prefix body ++ body

abbrev pub reader_of : ℕ → List ℕ → RecordReader
reader_of max rest = record { rest = rest; max = max }

-- The bodies that a reader accepts.
abbrev pub IsBody : ℕ → List ℕ → Type 0
IsBody max body = (1 ≤ length body) × (length body ≤ max)

-- A body before the bodies and the error that follow it.
abbrev with_first : Result (List ℕ) → List (List ℕ) × Option Error → List (List ℕ) × Option Error
with_first (fail x) later = ([], some x)
with_first (ok body) later = (body ∷ later.0, later.1)

-- Reads up to the first error.
abbrev pub read_all : ℕ → RecordReader → List (List ℕ) × Option Error
read_all zero r = ([], none)
read_all (suc n) r = with_first (read r).0 (read_all n (read r).1)

length_read :
    (max n : ℕ) (rest : List ℕ)
    → 1 ≤ n
    → n ≤ max
    → max ≤ max_record_body_bytes
    → read_length (reader_of max (byte (shr n 16) ∷ byte (shr n 8) ∷ byte n ∷ rest))
      ≡ (ok n, reader_of max rest)
unfolding read_length read_full check_length
length_read max n rest h g m = ground (
  arith,
  join3-32 (byte (shr n 16)) (byte (shr n 8)) (byte n) (omega arith) (omega arith) (omega arith),
)

read_record :
    (max : ℕ) (body rest : List ℕ)
    → IsBody max body
    → max ≤ max_record_body_bytes
    → read (reader_of max (record_bytes body ++ rest)) ≡ (ok body, reader_of max rest)
unfolding read read_body read_full
read_record max body rest (h, g) m =
    let n = length_read max (length body) (body ++ rest) h g m in
    ap (λ (p : Result ℕ × RecordReader). read_body p.1 p.0) n
    ∙ ground
        (arith, length-append body rest, take-append_length body rest, drop-append_length body rest)

-- The error of a stream that ends `k` bytes into a record.
abbrev pub cut_error : ℕ → Error
cut_error k = if k == 0 || k == 3 then end_of_file else unexpected_end_of_file

cut_body :
    (max j : ℕ) (body : List ℕ)
    → IsBody max body
    → max ≤ max_record_body_bytes
    → j < length body
    → (read (reader_of max (record_prefix body ++ take j body))).0
      ≡ fail (cut_error (suc (suc (suc j))))
unfolding read read_body read_full
cut_body max j body (h, g) m cut =
    let n = length_read max (length body) (take j body) h g m in
    let size = length-take_le j body (omega arith) in
    ap (λ (p : Result ℕ × RecordReader). (read_body p.1 p.0).0) n ∙ ground (arith, size)

cut_record :
    (max k : ℕ) (body : List ℕ)
    → IsBody max body
    → max ≤ max_record_body_bytes
    → k < length (record_bytes body)
    → (read (reader_of max (take k (record_bytes body)))).0 ≡ fail (cut_error k)
unfolding read read_length read_body read_full
cut_record max zero body b m h = refl
cut_record max (suc zero) body b m h = refl
cut_record max (suc (suc zero)) body b m h = refl
cut_record max (suc (suc (suc j))) body b m h = cut_body max j body b m (omega arith)

-- A reader of records and the first `k` bytes of one more, all of bodies that the reader accepts,
-- returns the bodies of the whole records in order, and then fails: with io.EOF where the stream ends
-- before a record or just after its length, and with io.ErrUnexpectedEOF elsewhere.
pub read_all-records :
    (max k : ℕ) (bodies : List (List ℕ)) (last : List ℕ)
    → max ≤ max_record_body_bytes
    → All (IsBody max) bodies
    → IsBody max last
    → k < length (record_bytes last)
    → read_all
        (length bodies + 1)
        (reader_of max (each_bytes record_bytes bodies ++ take k (record_bytes last)))
      ≡ (bodies, some (cut_error k))
read_all-records max k [] last m all b h =
    ap (λ (x : Result (List ℕ)). with_first x ([], none)) (cut_record max k last b m h)
read_all-records max k (body ∷ bodies) last m (first, all) b h =
    let tail = take k (record_bytes last) in
    let stream =
      ap (λ (x : List ℕ). read (reader_of max x))
        (append_assoc (record_bytes body) (each_bytes record_bytes bodies) tail)
      ∙ read_record max body (each_bytes record_bytes bodies ++ tail) first m in
    let more : length (body ∷ bodies) + 1 ≡ suc (length bodies + 1) = omega arith in
    ap (λ (n : ℕ). read_all n (reader_of max (each_bytes record_bytes (body ∷ bodies) ++ tail)))
      more
    ∙ ap (λ (p : Result (List ℕ) × RecordReader). with_first p.0 (read_all (length bodies + 1) p.1))
        stream
    ∙ ap (with_first (ok body)) (read_all-records max k bodies last m all b h)
