-- ===== src/Flow/Scheduler/Calls.antt =====
-- flow/scheduler.go: what every call on a scheduler does, and what every sequence of calls keeps.
use aurora_core.Common.{
  ◌≡◌, ap, sym, subst, Option, none, some, List, [], ◌∷◌, Option-cases, inl, inr,
}
use aurora_core.Errors.{Error, Result-cases, ok, fail}
use aurora_core.Flow.Scheduler.{
  StreamChunk, Class, Scheduler, enqueue, next_queue_index, next, serve, Call, enqueue_call,
  next_call, after_call, after_calls,
}

pub after_call-enqueued :
    (s : Scheduler) (chunk : StreamChunk) {t : Scheduler}
    → enqueue s chunk ≡ ok t
    → after_call s (enqueue_call chunk) ≡ t
unfolding after_call
after_call-enqueued s chunk e = ap (λ r. elim r as (λ x. Scheduler) [ ok t ↦ t | fail e ↦ s ]) e

pub after_call-refused :
    (s : Scheduler) (chunk : StreamChunk) {error : Error}
    → enqueue s chunk ≡ fail error
    → after_call s (enqueue_call chunk) ≡ s
unfolding after_call
after_call-refused s chunk e = ap (λ r. elim r as (λ x. Scheduler) [ ok t ↦ t | fail e ↦ s ]) e

pub after_call-served :
    (s : Scheduler) {index : Class}
    → next_queue_index s ≡ some index
    → after_call s next_call ≡ (serve s index).1
unfolding after_call next
after_call-served s e =
    ap
      (λ o.
        (elim o as (λ x. Option StreamChunk × Scheduler) [
          | none ↦ (none, s)
          | some index ↦ (some (serve s index).0, (serve s index).1)
        ]).1)
      e

pub after_call-idle : (s : Scheduler) → next_queue_index s ≡ none → after_call s next_call ≡ s
unfolding after_call next
after_call-idle s e =
    ap
      (λ o.
        (elim o as (λ x. Option StreamChunk × Scheduler) [
          | none ↦ (none, s)
          | some index ↦ (some (serve s index).0, (serve s index).1)
        ]).1)
      e

module _ {κ} (P : Scheduler → Type κ)
    (enqueued : (s : Scheduler) (chunk : StreamChunk) (t : Scheduler)
      → P s
      → enqueue s chunk ≡ ok t
      → P t)
    (served : (s : Scheduler) (index : Class)
      → P s
      → next_queue_index s ≡ some index
      → P (serve s index).1) where
  pub after_call_keeps : (s : Scheduler) (call : Call) → P s → P (after_call s call)
  after_call_keeps s (enqueue_call chunk) h = elim (Result-cases (enqueue s chunk)) [
    | inl (t, e) ↦ subst P (sym (after_call-enqueued s chunk e)) (enqueued s chunk t h e)
    | inr (_, e) ↦ subst P (sym (after_call-refused s chunk e)) h
  ]
  after_call_keeps s next_call h = elim (Option-cases (next_queue_index s)) [
    | inl e ↦ subst P (sym (after_call-idle s e)) h
    | inr (index, e) ↦ subst P (sym (after_call-served s e)) (served s index h e)
  ]

  pub after_calls_keep : (s : Scheduler) (calls : List Call) → P s → P (after_calls s calls)
  after_calls_keep s [] h = h
  after_calls_keep s (call ∷ calls) h =
      after_calls_keep (after_call s call) calls (after_call_keeps s call h)
