-- ===== src/Flow/Manager/Datagrams.antt =====
-- flow/flow.go: which datagrams a flow accepts.
use aurora_core.Common.{
  ℕ, ◌+◌, ◌%◌, ◌^◌, ◌≤◌, ◌<◌, ◌≡◌, ◌≢◌, arith, false, some, Option-cases, inl, inr, ap, ◌∙◌,
}
use aurora_core.Flow.{priority_realtime}
use aurora_core.Flow.Manager.{
  FlowState, Flows, DatagramOptions, lookup, store, expired, stale_realtime_datagram,
  flow_kind_udp_association, accept_datagram_with_options,
}
use aurora_core.Flow.Manager.Lookup.{lookup-store_self, lookup-store_other, lookup-delete_other}

-- A flow lives until its lifetime has passed since it was created, and for its idle time after a
-- datagram; a lifetime or an idle time of 0 is none. Times are of 64 bits, and the sums wrap.
pub record IsAlive (s : FlowState) (now : ℕ) : Type 0 where
  pub lifetime : 0 < s.ttl_seconds → now < (s.created_at_unix + s.ttl_seconds) % 2 ^ 64
  pub idle : 0 < s.idle_timeout_secs → now ≤ (s.last_activity_unix + s.idle_timeout_secs) % 2 ^ 64

-- A realtime flow with an age limit takes a datagram with a time of sending up to that age.
pub record IsFresh (s : FlowState) (opts : DatagramOptions) : Type 0 where
  pub age :
      s.priority_class ≡ priority_realtime
      → 0 < opts.max_realtime_age_seconds
      → 0 < opts.sent_at_unix
      → opts.now_unix ≤ opts.sent_at_unix + opts.max_realtime_age_seconds

-- The flow that a datagram finds, and the state that it is given.
pub record Carried (flows : Flows) (flow_id : ℕ) (opts : DatagramOptions) (s : FlowState)
    : Type 0 where
  pub before : FlowState
  pub known : lookup flow_id flows ≡ some before
  pub udp : before.kind ≡ flow_kind_udp_association
  pub open_here : before.local_closed ≡ false
  pub open_there : before.peer_closed ≡ false
  pub alive : IsAlive before opts.now_unix
  pub fresh : IsFresh before opts
  pub touched : s ≡ record before { last_activity_unix = opts.now_unix }

expired-IsAlive : (s : FlowState) (now : ℕ) → expired s now ≡ false → IsAlive s now
unfolding expired
expired-IsAlive s now e = record {
  lifetime = λ h. ground (arith, e, h);
  idle = λ h. ground (arith, e, h);
}

IsAlive-expired : (s : FlowState) (now : ℕ) → IsAlive s now → expired s now ≡ false
unfolding expired
IsAlive-expired s now a =
    let lifetime = a.lifetime in let idle = a.idle in ground (arith, lifetime, idle)

stale-IsFresh :
    (s : FlowState) (opts : DatagramOptions)
    → stale_realtime_datagram s opts ≡ false
    → IsFresh s opts
unfolding stale_realtime_datagram
stale-IsFresh s opts e = record { age = λ p m t. ground (arith, e, p, m, t) }

IsFresh-stale :
    (s : FlowState) (opts : DatagramOptions)
    → IsFresh s opts
    → stale_realtime_datagram s opts ≡ false
unfolding stale_realtime_datagram
IsFresh-stale s opts f = let age = f.age in ground (arith, age)

accepted :
    (flows : Flows) (flow_id : ℕ) (opts : DatagramOptions) (s : FlowState)
    → Carried flows flow_id opts s
    → accept_datagram_with_options flows flow_id opts ≡ (some s, store flow_id s flows)
unfolding accept_datagram_with_options
accepted flows flow_id opts s d = ground (
  arith,
  d.known,
  d.udp,
  d.open_here,
  d.open_there,
  d.touched,
  IsAlive-expired d.before opts.now_unix d.alive,
  IsFresh-stale d.before opts d.fresh,
)

carries :
    (flows : Flows) (flow_id : ℕ) (opts : DatagramOptions) (s : FlowState)
    → (accept_datagram_with_options flows flow_id opts).0 ≡ some s
    → Carried flows flow_id opts s
unfolding accept_datagram_with_options
carries flows flow_id opts s h = elim (Option-cases (lookup flow_id flows)) [
  | inl e ↦ absurd (ground (arith, e))
  | inr (before, e) ↦ record {
    before = before;
    known = e;
    udp = ground (arith, e);
    open_here = ground (arith, e);
    open_there = ground (arith, e);
    alive = expired-IsAlive before opts.now_unix (ground (arith, e));
    fresh = stale-IsFresh before opts (ground (arith, e));
    touched = ground (arith, e);
  }
]

-- A datagram is accepted exactly for a known UDP flow that neither side has closed, at a time before
-- the end of its lifetime and within its idle time, where it has them (both ends are sums modulo
-- 2^64), and for a realtime flow only with at most the age allowed, where both the age and the time of
-- sending are given. The state returned is the flow's with the time as its last activity, and it is the
-- state stored.
pub accept_datagram-Carried :
    (flows : Flows) (flow_id : ℕ) (opts : DatagramOptions) (s : FlowState)
    → ((accept_datagram_with_options flows flow_id opts).0 ≡ some s → Carried flows flow_id opts s)
      × (Carried flows flow_id opts s
          → ((accept_datagram_with_options flows flow_id opts).0 ≡ some s)
            × (lookup flow_id (accept_datagram_with_options flows flow_id opts).1 ≡ some s))
accept_datagram-Carried flows flow_id opts s = (
  carries flows flow_id opts s,
  λ d.
      let e = accepted flows flow_id opts s d in
      (ap (λ r. r.0) e, ap (λ r. lookup flow_id r.1) e ∙ lookup-store_self flow_id s flows),
)

-- A datagram changes no other flow, whether or not it is accepted.
pub accept_datagram-other :
    (flows : Flows) (i j : ℕ) (opts : DatagramOptions)
    → i ≢ j
    → lookup j (accept_datagram_with_options flows i opts).1 ≡ lookup j flows
unfolding accept_datagram_with_options
accept_datagram-other flows i j opts h = elim (Option-cases (lookup i flows)) [
  | inl e ↦ ground (arith, e)
  | inr (s, e) ↦ ground (
    arith,
    e,
    lookup-store_other i j (record s { last_activity_unix = opts.now_unix }) flows h,
    lookup-delete_other i j flows h,
  )
]
