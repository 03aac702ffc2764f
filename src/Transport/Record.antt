-- ===== src/Transport/Record.antt =====
-- transport/record.go: records with a length prefix of 3 bytes. An io.Reader is the bytes that it still
-- yields before its end, and io.ReadFull fills a buffer from them or fails as it documents. An io.Writer
-- is a parameter: a state, and the count, the error and the state that one call of Write returns. A
-- count is a natural number, as io.Writer's contract has it, so the guard `n < 0` of writeRecordBytes
-- has no counterpart.
pub mod Streams
pub mod Reading
use aurora_core.Common.{
  ℕ, zero, suc, ◌+◌, ◌-◌, ◌/◌, ◌%◌, ◌^◌, ◌≤◌, Bool, true, false, not, ◌||◌, Option, none, some,
  List, [], ◌∷◌, ◌++◌, ltb, ◌==◌, if◌then◌else◌, length, take, drop, get_or, ◌⊎◌, inl, inr,
}
use aurora_core.Common.Words.{byte, shr, join3}
use aurora_core.Errors.{
  Error, Result, ok, fail, ◌>>=◌, empty_record, record_too_large, invalid_record_maximum,
  end_of_file, unexpected_end_of_file, short_write,
}

-- DefaultRecordBodyBytes of wire/.
abbrev pub default_max_record_body_bytes : ℕ
default_max_record_body_bytes = 0x100000

abbrev pub max_record_body_bytes : ℕ
max_record_body_bytes = 0xffffff

pub record RecordReader : Type 0 where
  pub rest : List ℕ
  pub max : ℕ

unfoldable pub normalize_record_maximum : ℕ → Result ℕ
normalize_record_maximum n =
    let max = if n == 0 then default_max_record_body_bytes else n in
    if ltb max_record_body_bytes max then fail invalid_record_maximum else ok max

unfoldable pub new_record_reader : List ℕ → ℕ → Result RecordReader
unfolding normalize_record_maximum
new_record_reader rest n =
    normalize_record_maximum n >>= λ max. ok (record { rest = rest; max = max })

-- io.ReadFull on the next `n` bytes.
unfoldable pub read_full : ℕ → RecordReader → Result (List ℕ) × RecordReader
read_full n r =
    if n == 0
    then (ok [], r)
    else if length r.rest == 0
    then (fail end_of_file, r)
    else if ltb (length r.rest) n
    then (fail unexpected_end_of_file, record r { rest = [] })
    else (ok (take n r.rest), record r { rest = drop n r.rest })

unfoldable pub check_length : ℕ → ℕ → Result ℕ
check_length max n =
    if n == 0 then fail empty_record else if ltb max n then fail record_too_large else ok n

unfoldable pub read_length : RecordReader → Result ℕ × RecordReader
unfolding read_full check_length
read_length r =
    let (prefix, r') = read_full 3 r in
    (
      (prefix >>= λ p. check_length r.max (join3 32 (get_or p 0 0) (get_or p 1 0) (get_or p 2 0))),
      r',
    )

unfoldable pub read_body : RecordReader → Result ℕ → Result (List ℕ) × RecordReader
unfolding read_full
read_body r (fail x) = (fail x, r)
read_body r (ok n) = read_full n r

unfoldable pub read : RecordReader → Result (List ℕ) × RecordReader
unfolding read_length read_body
read r = let (n, r') = read_length r in read_body r' n

-- One call of an io.Writer.
abbrev pub Writer : Type 0 → Type 0
Writer S = S → List ℕ → ℕ × Option Error × S

-- What a round of the loop of writeRecordBytes does: it ends, or goes on with the rest.
abbrev pub Round : Type 0 → Type 0
Round S = (Result (Unit {0}) × S) ⊎ (S × List ℕ)

unfoldable pub write_round : {S : Type 0} → Writer S → S → List ℕ → Round S
write_round call s p =
    let (n, err, t) = call s p in
    if ltb (length p) n then inl (fail short_write, t) else elim err [
      | some x ↦ inl (fail x, t)
      | none ↦ if n == 0 then inl (fail short_write, t) else inr (t, drop n p)
    ]

-- The loop, on fuel: `none` where that runs out.
unfoldable pub write_rounds :
    {S : Type 0} → Writer S → ℕ → S → List ℕ → Option (Result (Unit {0}) × S)
unfolding write_round
write_rounds call fuel s [] = some (ok tt, s)
write_rounds call zero s (x ∷ p) = none
write_rounds call (suc fuel) s (x ∷ p) = elim (write_round call s (x ∷ p)) [
  | inl ended ↦ some ended
  | inr (t, rest) ↦ write_rounds call fuel t rest
]

unfoldable pub write_record_bytes :
    {S : Type 0} → Writer S → S → List ℕ → Option (Result (Unit {0}) × S)
unfolding write_rounds
write_record_bytes call s p = write_rounds call (length p) s p

abbrev pub record_prefix : List ℕ → List ℕ
record_prefix body = let n = length body in byte (shr n 16) ∷ byte (shr n 8) ∷ byte n ∷ []

-- The body, once the prefix is written.
unfoldable pub write_body :
    {S : Type 0}
    → Writer S
    → List ℕ
    → Option (Result (Unit {0}) × S)
    → Option (Result (Unit {0}) × S)
unfolding write_record_bytes
write_body call body none = none
write_body call body (some (fail x, s)) = some (fail x, s)
write_body call body (some (ok _, s)) = write_record_bytes call s body

-- RecordWriter.Write.
unfoldable pub write : {S : Type 0} → Writer S → ℕ → S → List ℕ → Option (Result (Unit {0}) × S)
unfolding write_record_bytes write_body
write call max s body =
    if length body == 0
    then some (fail empty_record, s)
    else if ltb max (length body)
    then some (fail record_too_large, s)
    else write_body call body (write_record_bytes call s (record_prefix body))
