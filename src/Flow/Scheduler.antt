-- ===== src/Flow/Scheduler.antt =====
-- flow/scheduler.go: the priority queues of outgoing stream chunks. The queue indices 0, 1, 2 are the
-- constructors of `Class`, the array `passedOver` is three fields, and the loops over it are written
-- out. Byte counts are natural numbers: that the subtraction in `next` does not stop at 0 follows from
-- the invariant of Scheduler.Buffered, and so `bufferedBytes < 0` never holds.
pub mod Calls
pub mod Buffered
pub mod Order
pub mod Starvation
use aurora_core.Common.{
  ℕ, zero, suc, ◌+◌, ◌-◌, Bool, true, false, Option, none, some, List, [], ◌∷◌, ◌++◌, ltb, leb,
  ◌==◌, if◌then◌else◌, length, ◌&&◌,
}
use aurora_core.Errors.{Error, Result, ok, fail, empty_stream_chunk, scheduler_buffer_limit}
use aurora_core.Flow.{priority_interactive, priority_bulk, priority_realtime}

pub record StreamChunk : Type 0 where
  pub flow_id : ℕ
  pub priority_class : ℕ
  pub chunk_data : List ℕ
  pub flags : ℕ

pub data Class : Type 0 where
  realtime_class : Class
  interactive_class : Class
  bulk_class : Class

pub record Scheduler : Type 0 where
  pub max_buffered_bytes : ℕ
  pub buffered_bytes : ℕ
  pub realtime : List StreamChunk
  pub interactive : List StreamChunk
  pub bulk : List StreamChunk
  pub passed_realtime : ℕ
  pub passed_interactive : ℕ
  pub passed_bulk : ℕ

abbrev pub maximum_priority_burst : ℕ
maximum_priority_burst = 4

abbrev pub new_scheduler : ℕ → Scheduler
new_scheduler max_buffered_bytes = record {
  max_buffered_bytes = max_buffered_bytes;
  buffered_bytes = 0;
  realtime = [];
  interactive = [];
  bulk = [];
  passed_realtime = 0;
  passed_interactive = 0;
  passed_bulk = 0;
}

-- The queue that the switch of `Enqueue` selects.
abbrev pub class_of : ℕ → Class
class_of priority_class =
    if priority_class == priority_realtime
    then realtime_class
    else if priority_class == priority_interactive
    then interactive_class
    else bulk_class

abbrev pub queue_at : Scheduler → Class → List StreamChunk
queue_at s realtime_class = s.realtime
queue_at s interactive_class = s.interactive
queue_at s bulk_class = s.bulk

abbrev pub set_queue : Scheduler → Class → List StreamChunk → Scheduler
set_queue s realtime_class q = record s { realtime = q }
set_queue s interactive_class q = record s { interactive = q }
set_queue s bulk_class q = record s { bulk = q }

-- The copy of a chunk that is queued: any other class is bulk.
abbrev pub copied : StreamChunk → Class → StreamChunk
copied chunk realtime_class = chunk
copied chunk interactive_class = chunk
copied chunk bulk_class = record chunk { priority_class = priority_bulk }

unfoldable pub enqueue : Scheduler → StreamChunk → Result Scheduler
enqueue s chunk =
    let index = class_of chunk.priority_class in
    let pushed = set_queue s index (queue_at s index ++ (copied chunk index ∷ [])) in
    if length chunk.chunk_data == 0
    then fail empty_stream_chunk
    else if ltb 0 s.max_buffered_bytes
        && (if ltb s.max_buffered_bytes s.buffered_bytes
            then true
            else ltb (s.max_buffered_bytes - s.buffered_bytes) (length chunk.chunk_data))
    then fail scheduler_buffer_limit
    else ok (record pushed { buffered_bytes = s.buffered_bytes + length chunk.chunk_data })

abbrev pub has_chunks : List StreamChunk → Bool
has_chunks [] = false
has_chunks (chunk ∷ chunks) = true

abbrev starved : ℕ → List StreamChunk → Bool
starved passed_over queue = leb maximum_priority_burst passed_over && has_chunks queue

unfoldable pub next_queue_index : Scheduler → Option Class
next_queue_index s =
    if starved s.passed_bulk s.bulk
    then some bulk_class
    else if starved s.passed_interactive s.interactive
    then some interactive_class
    else if starved s.passed_realtime s.realtime
    then some realtime_class
    else if has_chunks s.realtime
    then some realtime_class
    else if has_chunks s.interactive
    then some interactive_class
    else if has_chunks s.bulk
    then some bulk_class
    else none

abbrev pub zero_chunk : StreamChunk
zero_chunk = record { flow_id = 0; priority_class = 0; chunk_data = []; flags = 0 }

abbrev pub pop_chunk : List StreamChunk → StreamChunk × List StreamChunk
pop_chunk [] = (zero_chunk, [])
pop_chunk (chunk ∷ chunks) = (chunk, chunks)

abbrev pub bump : List StreamChunk → ℕ → ℕ
bump [] passed_over = passed_over
bump (chunk ∷ chunks) passed_over = passed_over + 1

-- The counters after a chunk of the class.
abbrev pub pass_over : Scheduler → Class → Scheduler
pass_over s realtime_class = record s {
  passed_realtime = 0;
  passed_interactive = bump s.interactive s.passed_interactive;
  passed_bulk = bump s.bulk s.passed_bulk;
}
pass_over s interactive_class = record s {
  passed_interactive = 0;
  passed_bulk = bump s.bulk s.passed_bulk;
}
pass_over s bulk_class = record s { passed_bulk = 0 }

-- `Next` on the queue that nextQueueIndex selected.
unfoldable pub serve : Scheduler → Class → StreamChunk × Scheduler
serve s index =
    let popped = pop_chunk (queue_at s index) in
    let rest = set_queue s index popped.1 in
    (
      popped.0,
      pass_over (record rest { buffered_bytes = s.buffered_bytes - length popped.0.chunk_data })
          index,
    )

unfoldable pub next : Scheduler → Option StreamChunk × Scheduler
next s = elim (next_queue_index s) [
  | none ↦ (none, s)
  | some index ↦ (some (serve s index).0, (serve s index).1)
]

-- The calls of a client, and the scheduler after them: a chunk that is refused changes nothing.
pub data Call : Type 0 where
  enqueue_call : StreamChunk → Call
  next_call : Call

unfoldable pub after_call : Scheduler → Call → Scheduler
after_call s (enqueue_call chunk) = elim (enqueue s chunk) [ ok t ↦ t | fail e ↦ s ]
after_call s next_call = (next s).1

abbrev pub after_calls : Scheduler → List Call → Scheduler
after_calls s [] = s
after_calls s (call ∷ calls) = after_calls (after_call s call) calls
