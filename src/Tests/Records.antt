-- ===== src/Tests/Records.antt =====
-- transport/record.go at concrete inputs: a writer that takes two bytes in a call.
use aurora_core.Common.{ℕ, ◌≤◌, ◌≡◌, refl, arith, none, some, List, [], ◌∷◌, ◌++◌, length, take}
use aurora_core.Errors.{Result, ok, unexpected_end_of_file}
use aurora_core.Wire.Format.Writes.{each_bytes}
use aurora_core.Transport.Record.{Writer, write, record_prefix}
use aurora_core.Transport.Record.Streams.{Appends, Wrote, write-Wrote}
use aurora_core.Transport.Record.Reading.{reader_of, record_bytes, read_all, read_all-records}

abbrev pair_writer : Writer (List ℕ)
pair_writer sunk p = (length (take 2 p), none, sunk ++ take 2 p)

pair_writer-Appends : Appends pair_writer (λ sunk. sunk)
pair_writer-Appends = record { appends = pair_appends }
  where
    pair_appends : (s p : List ℕ) → s ++ take 2 p ≡ s ++ take (length (take 2 p)) p
    pair_appends s [] = refl
    pair_appends s (x ∷ []) = refl
    pair_appends s (x ∷ y ∷ p) = refl

abbrev three_bytes : List ℕ
three_bytes = 7 ∷ 8 ∷ 9 ∷ []

write-Wrote_example :
    (r : Result (Unit {0})) × (t : List ℕ) × (write pair_writer 100 [] three_bytes ≡ some (r, t))
    × Wrote pair_writer (λ sunk. sunk) [] t (record_prefix three_bytes ++ three_bytes) r
    × (r ≡ ok tt → (1 ≤ length three_bytes) × (length three_bytes ≤ 100))
write-Wrote_example = write-Wrote pair_writer (λ sunk. sunk) 100 [] three_bytes pair_writer-Appends

written_pairs : write pair_writer 100 [] (7 ∷ 8 ∷ 9 ∷ []) ≡ some (ok tt, 0 ∷ 0 ∷ 3 ∷ 7 ∷ 8 ∷ 9 ∷ [])
unfolding write
written_pairs = refl

read_all-records_example :
    read_all 3
      (reader_of 100 (each_bytes record_bytes ((7 ∷ 8 ∷ []) ∷ (9 ∷ []) ∷ []) ++ 0 ∷ 0 ∷ 2 ∷ 5 ∷ []))
    ≡ ((7 ∷ 8 ∷ []) ∷ (9 ∷ []) ∷ [], some unexpected_end_of_file)
read_all-records_example =
    read_all-records 100 4 ((7 ∷ 8 ∷ []) ∷ (9 ∷ []) ∷ []) (5 ∷ 6 ∷ []) (omega arith) (ground arith)
      (ground arith) (omega arith)
