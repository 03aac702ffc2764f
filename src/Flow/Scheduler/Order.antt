-- ===== src/Flow/Scheduler/Order.antt =====
-- flow/scheduler.go: the order in which the chunks of a class leave the scheduler.
use aurora_core.Common.{
  ◌≡◌, sym, ap, ◌∙◌, arith, Bool, true, false, none, some, List, [], ◌∷◌, ◌++◌, append_assoc,
  append-nil, if◌then◌else◌, Option-cases, inl, inr,
}
use aurora_core.Errors.{Result-cases, ok, fail}
use aurora_core.Flow.Scheduler.{
  StreamChunk, Class, realtime_class, interactive_class, bulk_class, Scheduler, class_of, queue_at,
  copied, enqueue, next_queue_index, serve, has_chunks, Call, enqueue_call, next_call, after_call,
  after_calls,
}
use aurora_core.Flow.Scheduler.Calls.{
  after_call-enqueued, after_call-refused, after_call-served, after_call-idle,
}

abbrev pub same_class : Class → Class → Bool
same_class realtime_class realtime_class = true
same_class interactive_class interactive_class = true
same_class bulk_class bulk_class = true
same_class _ _ = false

abbrev pub of_class : Class → Class → StreamChunk → List StreamChunk
of_class c index chunk = if same_class c index then chunk ∷ [] else []

-- The chunk of the class that a call puts into its queue, and the one that it takes out.
unfoldable pub accepted_by : Class → Scheduler → Call → List StreamChunk
accepted_by c s (enqueue_call chunk) = elim (enqueue s chunk) [
  | ok _ ↦ of_class c (class_of chunk.priority_class) (copied chunk (class_of chunk.priority_class))
  | fail _ ↦ []
]
accepted_by c s next_call = []

unfoldable pub handed_out_by : Class → Scheduler → Call → List StreamChunk
handed_out_by c s (enqueue_call chunk) = []
handed_out_by c s next_call = elim (next_queue_index s) [
  | none ↦ []
  | some index ↦ of_class c index (serve s index).0
]

abbrev pub accepted : Class → Scheduler → List Call → List StreamChunk
accepted c s [] = []
accepted c s (call ∷ calls) = accepted_by c s call ++ accepted c (after_call s call) calls

abbrev pub handed_out : Class → Scheduler → List Call → List StreamChunk
handed_out c s [] = []
handed_out c s (call ∷ calls) = handed_out_by c s call ++ handed_out c (after_call s call) calls

enqueue-queue_at :
    (c : Class) (s : Scheduler) (chunk : StreamChunk) {t : Scheduler}
    → enqueue s chunk ≡ ok t
    → queue_at t c
      ≡ queue_at s c
        ++ of_class c (class_of chunk.priority_class) (copied chunk (class_of chunk.priority_class))
unfolding enqueue
enqueue-queue_at realtime_class s chunk e = ground (arith, append-nil s.realtime)
enqueue-queue_at interactive_class s chunk e = ground (arith, append-nil s.interactive)
enqueue-queue_at bulk_class s chunk e = ground (arith, append-nil s.bulk)

-- The queue that is served is not empty.
pub next_queue_index-has_chunks :
    (s : Scheduler) {index : Class}
    → next_queue_index s ≡ some index
    → has_chunks (queue_at s index) ≡ true
unfolding next_queue_index
next_queue_index-has_chunks s {index = realtime_class} e = ground (arith, e)
next_queue_index-has_chunks s {index = interactive_class} e = ground (arith, e)
next_queue_index-has_chunks s {index = bulk_class} e = ground (arith, e)

serve-queue_at :
    (c : Class) (s : Scheduler) (index : Class)
    → has_chunks (queue_at s index) ≡ true
    → of_class c index (serve s index).0 ++ queue_at (serve s index).1 c ≡ queue_at s c
unfolding serve
serve-queue_at realtime_class s realtime_class e = ground (arith, e)
serve-queue_at realtime_class s interactive_class e = ground (arith, e)
serve-queue_at realtime_class s bulk_class e = ground (arith, e)
serve-queue_at interactive_class s realtime_class e = ground (arith, e)
serve-queue_at interactive_class s interactive_class e = ground (arith, e)
serve-queue_at interactive_class s bulk_class e = ground (arith, e)
serve-queue_at bulk_class s realtime_class e = ground (arith, e)
serve-queue_at bulk_class s interactive_class e = ground (arith, e)
serve-queue_at bulk_class s bulk_class e = ground (arith, e)

after_call-queue_at :
    (c : Class) (s : Scheduler) (call : Call)
    → handed_out_by c s call ++ queue_at (after_call s call) c
      ≡ queue_at s c ++ accepted_by c s call
unfolding handed_out_by accepted_by
after_call-queue_at c s (enqueue_call chunk) = elim (Result-cases (enqueue s chunk)) [
  | inl (t, e) ↦ rw (after_call-enqueued s chunk e, accepted_by, e, enqueue-queue_at c s chunk e)
  | inr (_, e) ↦ rw (after_call-refused s chunk e, accepted_by, e, append-nil (queue_at s c))
]
after_call-queue_at c s next_call = elim (Option-cases (next_queue_index s)) [
  | inl e ↦ rw (after_call-idle s e, handed_out_by, e, append-nil (queue_at s c))
  | inr (index, e) ↦ rw (
    after_call-served s e,
    handed_out_by,
    e,
    serve-queue_at c s index (next_queue_index-has_chunks s e),
    append-nil (queue_at s c),
  )
]

-- For every class, from every state of the scheduler and for every sequence of calls: the chunks of
-- the class that are handed out, followed by those still in its queue, are the chunks that were in
-- the queue followed by those that were accepted, in the same order.
pub handed_out-accepted :
    (c : Class) (s : Scheduler) (calls : List Call)
    → handed_out c s calls ++ queue_at (after_calls s calls) c ≡ queue_at s c ++ accepted c s calls
handed_out-accepted c s [] = sym (append-nil (queue_at s c))
handed_out-accepted c s (call ∷ calls) =
    let t = after_call s call in
    append_assoc (handed_out_by c s call) (handed_out c t calls) (queue_at (after_calls t calls) c)
    ∙ ap (λ q. handed_out_by c s call ++ q) (handed_out-accepted c t calls)
    ∙ sym (append_assoc (handed_out_by c s call) (queue_at t c) (accepted c t calls))
    ∙ ap (λ q. q ++ accepted c t calls) (after_call-queue_at c s call)
    ∙ append_assoc (queue_at s c) (accepted_by c s call) (accepted c t calls)
