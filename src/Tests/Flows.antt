-- ===== src/Tests/Flows.antt =====
-- flow/scheduler.go: the scheduler at concrete inputs.
use aurora_core.Common.{ℕ, ◌≡◌, ◌≤◌, refl, true, List, [], ◌∷◌, ◌++◌}
use aurora_core.Flow.{priority_realtime, priority_interactive}
use aurora_core.Flow.Scheduler.{
  StreamChunk, Class, realtime_class, interactive_class, bulk_class, Scheduler, new_scheduler,
  maximum_priority_burst, queue_at, has_chunks, Call, enqueue_call, next_call, after_calls,
}
use aurora_core.Flow.Scheduler.Buffered.{IsCounted, after_calls-IsCounted}
use aurora_core.Flow.Scheduler.Order.{accepted, handed_out, handed_out-accepted}
use aurora_core.Flow.Scheduler.Starvation.{overtaken, overtaken_at_most_burst}

abbrev chunk : ℕ → ℕ → StreamChunk
chunk flow_id priority_class = record {
  flow_id = flow_id;
  priority_class = priority_class;
  chunk_data = flow_id ∷ 0 ∷ [];
  flags = 0;
}

-- A bulk chunk waits behind realtime chunks, and the last one finds the buffer full.
abbrev queued : List Call
queued =
    enqueue_call (chunk 1 9)
    ∷ enqueue_call (chunk 2 priority_realtime)
    ∷ enqueue_call (chunk 3 priority_interactive)
    ∷ enqueue_call (chunk 4 priority_realtime)
    ∷ enqueue_call (chunk 5 priority_realtime)
    ∷ []

abbrev three_served : List Call
three_served = next_call ∷ next_call ∷ next_call ∷ []

after_calls-IsCounted_example : IsCounted (after_calls (new_scheduler 8) (queued ++ three_served))
after_calls-IsCounted_example = after_calls-IsCounted 8 (queued ++ three_served)

handed_out-accepted_example :
    handed_out realtime_class (new_scheduler 8) (queued ++ three_served)
      ++ queue_at (after_calls (new_scheduler 8) (queued ++ three_served)) realtime_class
    ≡ [] ++ accepted realtime_class (new_scheduler 8) (queued ++ three_served)
handed_out-accepted_example =
    handed_out-accepted realtime_class (new_scheduler 8) (queued ++ three_served)

bulk_waits : has_chunks (queue_at (after_calls (new_scheduler 8) queued) bulk_class) ≡ true
unfolding aurora_core.Flow.Scheduler.after_call aurora_core.Flow.Scheduler.enqueue
bulk_waits = refl

bulk_passed_over : handed_out bulk_class (after_calls (new_scheduler 8) queued) three_served ≡ []
unfolding aurora_core.Flow.Scheduler.Order.handed_out_by aurora_core.Flow.Scheduler.next_queue_index
    aurora_core.Flow.Scheduler.after_call aurora_core.Flow.Scheduler.enqueue
    aurora_core.Flow.Scheduler.next aurora_core.Flow.Scheduler.serve
bulk_passed_over = refl

three_overtake : overtaken bulk_class (after_calls (new_scheduler 8) queued) three_served ≡ 3
unfolding aurora_core.Flow.Scheduler.Starvation.overtaken_by
    aurora_core.Flow.Scheduler.next_queue_index aurora_core.Flow.Scheduler.after_call
    aurora_core.Flow.Scheduler.enqueue aurora_core.Flow.Scheduler.next
    aurora_core.Flow.Scheduler.serve
three_overtake = refl

overtaken_at_most_burst_example :
    overtaken bulk_class (after_calls (new_scheduler 8) queued) three_served
    ≤ maximum_priority_burst
overtaken_at_most_burst_example =
    overtaken_at_most_burst bulk_class 8 queued three_served bulk_waits bulk_passed_over
