-- ===== src/Flow/Scheduler/Buffered.antt =====
-- flow/scheduler.go: the count of buffered bytes.
use aurora_core.Common.{ℕ, ◌+◌, ◌≤◌, ◌<◌, ◌≡◌, refl, arith, List, [], ◌∷◌, ◌++◌, length}
use aurora_core.Errors.{ok}
use aurora_core.Flow.Scheduler.{
  StreamChunk, Class, Scheduler, class_of, new_scheduler, copied, enqueue, serve, Call, after_calls,
}
use aurora_core.Flow.Scheduler.Calls.{after_calls_keep}

abbrev pub total : List StreamChunk → ℕ
total [] = 0
total (chunk ∷ chunks) = length chunk.chunk_data + total chunks

total-append_one :
    (chunks : List StreamChunk) (chunk : StreamChunk)
    → total (chunks ++ (chunk ∷ [])) ≡ total chunks + length chunk.chunk_data
total-append_one [] chunk = omega arith
total-append_one (c ∷ cs) chunk = omega (arith, total-append_one cs chunk)

-- The count is what the queues hold, and within the limit if there is one.
pub record IsCounted (s : Scheduler) : Type 0 where
  pub counted : s.buffered_bytes ≡ total s.realtime + total s.interactive + total s.bulk
  pub limited : 0 < s.max_buffered_bytes → s.buffered_bytes ≤ s.max_buffered_bytes

enqueue-IsCounted :
    (s : Scheduler) (chunk : StreamChunk) (t : Scheduler)
    → IsCounted s
    → enqueue s chunk ≡ ok t
    → IsCounted t
unfolding enqueue
enqueue-IsCounted s chunk t h e =
    let c = copied chunk (class_of chunk.priority_class) in
    record {
      counted = ground (
        arith,
        h.counted,
        total-append_one s.realtime c,
        total-append_one s.interactive c,
        total-append_one s.bulk c,
      );
      limited = λ p. ground (arith, h.limited);
    }

serve-IsCounted : (s : Scheduler) (index : Class) → IsCounted s → IsCounted (serve s index).1
unfolding serve
serve-IsCounted s index h = record {
  counted = ground (arith, h.counted);
  limited = λ p. ground (arith, h.limited);
}

-- After any sequence of calls on a new scheduler, the count of buffered bytes is the sum of the
-- lengths of the chunks in the three queues, and it is at most the limit if the limit is not 0.
pub after_calls-IsCounted :
    (max_buffered_bytes : ℕ) (calls : List Call)
    → IsCounted (after_calls (new_scheduler max_buffered_bytes) calls)
after_calls-IsCounted limit calls =
    after_calls_keep IsCounted enqueue-IsCounted (λ s index h e. serve-IsCounted s index h)
      (new_scheduler limit) calls (record { counted = refl; limited = λ p. omega arith })
