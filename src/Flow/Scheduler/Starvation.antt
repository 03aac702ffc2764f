-- ===== src/Flow/Scheduler/Starvation.antt =====
-- flow/scheduler.go: how long a class with waiting chunks is passed over.
use aurora_core.Common.{
  ℕ, ◌+◌, ◌≤◌, ◌<◌, ◌≡◌, refl, sym, ap, ◌∙◌, arith, Bool, true, false, none, some, List, [], ◌∷◌,
  ◌++◌, if◌then◌else◌, Option-cases, Bool-cases, inl, inr,
}
use aurora_core.Errors.{Result-cases, ok}
use aurora_core.Flow.Scheduler.{
  StreamChunk, Class, realtime_class, interactive_class, bulk_class, Scheduler, new_scheduler,
  queue_at, enqueue, next_queue_index, serve, has_chunks, Call, enqueue_call, next_call, after_call,
  after_calls, maximum_priority_burst,
}
use aurora_core.Flow.Scheduler.Calls.{
  after_call-enqueued, after_call-refused, after_call-served, after_call-idle, after_calls_keep,
}
use aurora_core.Flow.Scheduler.Order.{same_class, handed_out, handed_out_by, of_class}

abbrev pub higher : Class → Class → Bool
higher realtime_class interactive_class = true
higher realtime_class bulk_class = true
higher interactive_class bulk_class = true
higher _ _ = false

abbrev pub passed_at : Scheduler → Class → ℕ
passed_at s realtime_class = s.passed_realtime
passed_at s interactive_class = s.passed_interactive
passed_at s bulk_class = s.passed_bulk

-- How many chunks of higher classes the calls hand out.
unfoldable pub overtaken_by : Class → Scheduler → Call → ℕ
overtaken_by c s (enqueue_call chunk) = 0
overtaken_by c s next_call = elim (next_queue_index s) [
  | none ↦ 0
  | some index ↦ if higher index c then 1 else 0
]

abbrev pub overtaken : Class → Scheduler → List Call → ℕ
overtaken c s [] = 0
overtaken c s (call ∷ calls) = overtaken_by c s call + overtaken c (after_call s call) calls

append_empty : {A : Type 0} (xs ys : List A) → xs ++ ys ≡ [] → (xs ≡ []) × (ys ≡ [])
append_empty [] ys h = (refl, h)
append_empty (x ∷ xs) ys h = ground (arith, h)

record IsFair (s : Scheduler) : Type 0 where
  fair_realtime : s.passed_realtime ≤ maximum_priority_burst
  fair_interactive : s.passed_interactive ≤ maximum_priority_burst
  fair_bulk : s.passed_bulk ≤ maximum_priority_burst

passed_at-IsFair : (s : Scheduler) (c : Class) → IsFair s → passed_at s c ≤ maximum_priority_burst
passed_at-IsFair s realtime_class h = h.fair_realtime
passed_at-IsFair s interactive_class h = h.fair_interactive
passed_at-IsFair s bulk_class h = h.fair_bulk

enqueue-passed_at :
    (s : Scheduler) (chunk : StreamChunk) (t : Scheduler) (c : Class)
    → enqueue s chunk ≡ ok t
    → passed_at t c ≡ passed_at s c
unfolding enqueue
enqueue-passed_at s chunk t realtime_class e = ground (arith, e)
enqueue-passed_at s chunk t interactive_class e = ground (arith, e)
enqueue-passed_at s chunk t bulk_class e = ground (arith, e)

enqueue-has_chunks :
    (s : Scheduler) (chunk : StreamChunk) (t : Scheduler) (c : Class)
    → enqueue s chunk ≡ ok t
    → has_chunks (queue_at s c) ≡ true
    → has_chunks (queue_at t c) ≡ true
unfolding enqueue
enqueue-has_chunks s chunk t realtime_class e h = ground (arith, e)
enqueue-has_chunks s chunk t interactive_class e h = ground (arith, e)
enqueue-has_chunks s chunk t bulk_class e h = ground (arith, e)

-- A class is passed over only below the burst, and then it is counted.
serve-higher :
    (s : Scheduler) (index c : Class)
    → next_queue_index s ≡ some index
    → higher index c ≡ true
    → has_chunks (queue_at s c) ≡ true
    → (passed_at s c < maximum_priority_burst) × (passed_at (serve s index).1 c ≡ passed_at s c + 1)
unfolding serve next_queue_index
serve-higher s realtime_class interactive_class e h g = (ground (arith, e), ground (arith, e))
serve-higher s realtime_class bulk_class e h g = (ground (arith, e), ground (arith, e))
serve-higher s interactive_class bulk_class e h g = (ground (arith, e), ground (arith, e))
serve-higher s realtime_class realtime_class e h g = ground (arith, h)
serve-higher s interactive_class realtime_class e h g = ground (arith, h)
serve-higher s interactive_class interactive_class e h g = ground (arith, h)
serve-higher s bulk_class c e h g = ground (arith, h)

serve-other :
    (s : Scheduler) (index c : Class)
    → higher index c ≡ false
    → same_class c index ≡ false
    → (passed_at (serve s index).1 c ≡ passed_at s c)
      × (queue_at (serve s index).1 c ≡ queue_at s c)
unfolding serve
serve-other s interactive_class realtime_class h g = (refl, refl)
serve-other s bulk_class realtime_class h g = (refl, refl)
serve-other s bulk_class interactive_class h g = (refl, refl)
serve-other s realtime_class realtime_class h g = ground (arith, g)
serve-other s realtime_class interactive_class h g = ground (arith, h)
serve-other s realtime_class bulk_class h g = ground (arith, h)
serve-other s interactive_class interactive_class h g = ground (arith, g)
serve-other s interactive_class bulk_class h g = ground (arith, h)
serve-other s bulk_class bulk_class h g = ground (arith, g)

serve-queue_of_lower :
    (s : Scheduler) (index c : Class)
    → higher index c ≡ true
    → queue_at (serve s index).1 c ≡ queue_at s c
unfolding serve
serve-queue_of_lower s realtime_class interactive_class h = refl
serve-queue_of_lower s realtime_class bulk_class h = refl
serve-queue_of_lower s interactive_class bulk_class h = refl
serve-queue_of_lower s realtime_class realtime_class h = ground (arith, h)
serve-queue_of_lower s interactive_class realtime_class h = ground (arith, h)
serve-queue_of_lower s interactive_class interactive_class h = ground (arith, h)
serve-queue_of_lower s bulk_class c h = ground (arith, h)

enqueue-IsFair :
    (s : Scheduler) (chunk : StreamChunk) (t : Scheduler)
    → IsFair s
    → enqueue s chunk ≡ ok t
    → IsFair t
enqueue-IsFair s chunk t h e = record {
  fair_realtime = omega (arith, enqueue-passed_at s chunk t realtime_class e, h.fair_realtime);
  fair_interactive =
      omega (arith, enqueue-passed_at s chunk t interactive_class e, h.fair_interactive);
  fair_bulk = omega (arith, enqueue-passed_at s chunk t bulk_class e, h.fair_bulk);
}

serve-IsFair :
    (s : Scheduler) (index : Class)
    → IsFair s
    → next_queue_index s ≡ some index
    → IsFair (serve s index).1
unfolding serve next_queue_index
serve-IsFair s realtime_class h e = record {
  fair_realtime = omega arith;
  fair_interactive = ground (arith, e, h.fair_interactive);
  fair_bulk = ground (arith, e, h.fair_bulk);
}
serve-IsFair s interactive_class h e = record {
  fair_realtime = h.fair_realtime;
  fair_interactive = omega arith;
  fair_bulk = ground (arith, e, h.fair_bulk);
}
serve-IsFair s bulk_class h e = record {
  fair_realtime = h.fair_realtime;
  fair_interactive = h.fair_interactive;
  fair_bulk = omega arith;
}

of_class_empty :
    (c index : Class) (chunk : StreamChunk)
    → of_class c index chunk ≡ []
    → same_class c index ≡ false
of_class_empty c index chunk h = ground (arith, h)

waiting_served :
    (c : Class) (s : Scheduler) (index : Class)
    → next_queue_index s ≡ some index
    → passed_at s c ≤ maximum_priority_burst
    → has_chunks (queue_at s c) ≡ true
    → same_class c index ≡ false
    → ((if higher index c then 1 else 0) + passed_at s c ≡ passed_at (serve s index).1 c)
      × (has_chunks (queue_at (serve s index).1 c) ≡ true)
      × (passed_at (serve s index).1 c ≤ maximum_priority_burst)
waiting_served c s index e f h g = elim (Bool-cases (higher index c)) [
  | inl over ↦
      let (below, counted) = serve-higher s index c e over h in
      (
        ground (arith, over, counted),
        ap has_chunks (serve-queue_of_lower s index c over) ∙ h,
        omega (arith, below, counted),
      )
  | inr other ↦
      let (counted, same) = serve-other s index c other g in
      (ground (arith, other, counted), ap has_chunks same ∙ h, omega (arith, counted, f))
]

-- A call that hands out no chunk of a waiting class leaves it waiting, and counts the chunk of a
-- higher class that it hands out.
waiting_step :
    (c : Class) (s : Scheduler) (call : Call)
    → passed_at s c ≤ maximum_priority_burst
    → has_chunks (queue_at s c) ≡ true
    → handed_out_by c s call ≡ []
    → (overtaken_by c s call + passed_at s c ≡ passed_at (after_call s call) c)
      × (has_chunks (queue_at (after_call s call) c) ≡ true)
      × (passed_at (after_call s call) c ≤ maximum_priority_burst)
unfolding overtaken_by handed_out_by
waiting_step c s (enqueue_call chunk) f h g = elim (Result-cases (enqueue s chunk)) [
  | inl (t, e) ↦
      let p = enqueue-passed_at s chunk t c e in
      let q = enqueue-has_chunks s chunk t c e h in
      rw (after_call-enqueued s chunk e) (omega (arith, p), q, omega (arith, p))
  | inr (_, e) ↦ rw (after_call-refused s chunk e) (omega arith, h, f)
]
waiting_step c s next_call f h g = elim (Option-cases (next_queue_index s)) [
  | inl e ↦ rw (after_call-idle s e, overtaken_by, e) (omega arith, h, f)
  | inr (index, e) ↦
      rw (after_call-served s e, overtaken_by, e)
        (waiting_served c s index e f h (
          of_class_empty c index (serve s index).0 (
            ap
              (λ o. elim o as (λ x. List StreamChunk) [
                | none ↦ []
                | some i ↦ of_class c i (serve s i).0
              ])
              (sym e)
            ∙ g)))
]

waiting :
    (c : Class) (s : Scheduler) (calls : List Call)
    → passed_at s c ≤ maximum_priority_burst
    → has_chunks (queue_at s c) ≡ true
    → handed_out c s calls ≡ []
    → overtaken c s calls + passed_at s c ≤ maximum_priority_burst
waiting c s [] f h g = omega (arith, f)
waiting c s (call ∷ calls) f h g =
    let (now, later) =
      append_empty (handed_out_by c s call) (handed_out c (after_call s call) calls) g in
    let (counted, still, fair) = waiting_step c s call f h now in
    omega (arith, counted, waiting c (after_call s call) calls fair still later)

-- For every class, whatever was called before on a new scheduler: while the class has a chunk waiting
-- and none of its chunks is handed out, at most 4 chunks of higher classes are handed out.
pub overtaken_at_most_burst :
    (c : Class) (max_buffered_bytes : ℕ) (before calls : List Call)
    → has_chunks (queue_at (after_calls (new_scheduler max_buffered_bytes) before) c) ≡ true
    → handed_out c (after_calls (new_scheduler max_buffered_bytes) before) calls ≡ []
    → overtaken c (after_calls (new_scheduler max_buffered_bytes) before) calls
      ≤ maximum_priority_burst
overtaken_at_most_burst c limit before calls h g =
    let s = after_calls (new_scheduler limit) before in
    let fair =
      after_calls_keep IsFair enqueue-IsFair serve-IsFair (new_scheduler limit) before (record {
        fair_realtime = omega arith;
        fair_interactive = omega arith;
        fair_bulk = omega arith;
      }) in
    omega (arith, waiting c s calls (passed_at-IsFair s c fair) h g)
