-- ===== src/Flow/Manager/Closing.antt =====
-- flow/flow.go: opening a flow, and closing it from both sides.
use aurora_core.Common.{
  ◌≡◌, sym, ap, ◌∙◌, arith, Bool, true, false, Option, none, some, if◌then◌else◌, Option-cases, inl,
  inr, not, ◌&&◌, ◌||◌,
}
use aurora_core.Errors.{ok, fail, duplicate_flow_id}
use aurora_core.Protocol.Flows.{FlowOpen, FlowClose}
use aurora_core.Flow.Manager.{
  FlowState, Flows, FlowOptions, DatagramOptions, CloseOptions, lookup, opened, open_with_options,
  validate_open, accept_datagram_with_options, mark_close, marked,
}
use aurora_core.Flow.Manager.Lookup.{lookup-store_self, lookup-delete_self}

-- What a close that succeeds does to the flow: it is gone, or stored as closed by that side.
mark_close_ok :
    (flows : Flows) (closing : FlowClose) (opts : CloseOptions) (is_local : Bool) {after : Flows}
    → mark_close flows closing opts is_local ≡ ok after
    → (s : FlowState) × (lookup closing.flow_id flows ≡ some s)
      × (lookup closing.flow_id after ≡ (
          if (marked s closing opts is_local).local_closed
            && (marked s closing opts is_local).peer_closed
          then none
          else some (marked s closing opts is_local)))
unfolding mark_close
mark_close_ok flows closing opts is_local e = elim (Option-cases (lookup closing.flow_id flows)) [
  | inl q ↦ absurd (ground (arith, e, q))
  | inr (s, q) ↦ (
    s,
    q,
    ground (
      arith,
      e,
      q,
      lookup-delete_self closing.flow_id flows,
      lookup-store_self closing.flow_id (marked s closing opts is_local) flows,
    ),
  )
]

marked_closed :
    (s t : FlowState) (closing : FlowClose) (opts : CloseOptions) (is_local : Bool)
    → marked s closing opts is_local ≡ t
    → (t.local_closed || t.peer_closed) ≡ true
marked_closed s t closing opts true e =
    ap (λ (u : FlowState). u.local_closed || u.peer_closed) (sym e)
marked_closed s t closing opts false e =
    ap (λ (u : FlowState). u.local_closed || u.peer_closed) (sym e) ∙ ground arith

-- Once a side has closed a flow, the flow accepts no datagram, at any time.
pub mark_close-accept_datagram :
    (flows : Flows) (closing : FlowClose) (opts : CloseOptions) (is_local : Bool) (after : Flows)
    (datagram : DatagramOptions)
    → mark_close flows closing opts is_local ≡ ok after
    → (accept_datagram_with_options after closing.flow_id datagram).0 ≡ none
unfolding accept_datagram_with_options
mark_close-accept_datagram flows closing opts is_local after datagram e =
    let (s, _, q) = mark_close_ok flows closing opts is_local e in
    elim (Option-cases (lookup closing.flow_id after)) [
      | inl gone ↦ ground (arith, gone)
      | inr (t, there) ↦
          ground
            (arith, there, q, marked_closed s t closing opts is_local (ground (arith, q, there)))
    ]

both_closed :
    (s t : FlowState) (first second : FlowClose) (opts : CloseOptions) (opts' : CloseOptions)
    (is_local : Bool) {o : Option FlowState}
    → (if (marked s first opts is_local).local_closed && (marked s first opts is_local).peer_closed
        then none
        else some (marked s first opts is_local))
      ≡ some t
    → o ≡ (
        if (marked t second opts' (not is_local)).local_closed
          && (marked t second opts' (not is_local)).peer_closed
        then none
        else some (marked t second opts' (not is_local)))
    → o ≡ none
both_closed s t first second opts opts' true q r = ground (arith, q, r)
both_closed s t first second opts opts' false q r = ground (arith, q, r)

-- A flow that one side has closed and then the other is no longer in the map, in either order.
pub mark_close-both :
    (flows : Flows) (first second : FlowClose) (opts : CloseOptions) (opts' : CloseOptions)
    (is_local : Bool) (middle after : Flows)
    → first.flow_id ≡ second.flow_id
    → mark_close flows first opts is_local ≡ ok middle
    → mark_close middle second opts' (not is_local) ≡ ok after
    → lookup second.flow_id after ≡ none
mark_close-both flows first second opts opts' is_local middle after i e e' =
    let (s, _, q) = mark_close_ok flows first opts is_local e in
    let (t, there, r) = mark_close_ok middle second opts' (not is_local) e' in
    let found : lookup first.flow_id middle ≡ some t = ap (λ n. lookup n middle) i ∙ there in
    both_closed s t first second opts opts' is_local (sym q ∙ found) r

-- A flow that is opened was not in the map; it is stored as opened, and to open its identifier again
-- fails as a duplicate if the second request is valid.
pub open_with_options-lookup :
    (flows : Flows) (flow again : FlowOpen) (opts : FlowOptions) (opts' : FlowOptions)
    (after : Flows)
    → open_with_options flows flow opts ≡ ok after
    → again.flow_id ≡ flow.flow_id
    → validate_open again ≡ ok tt
    → (lookup flow.flow_id flows ≡ none)
      × (lookup flow.flow_id after ≡ some (opened flow opts))
      × (open_with_options after again opts' ≡ fail duplicate_flow_id)
unfolding open_with_options
open_with_options-lookup flows flow again opts opts' after e i v =
    elim (Option-cases (lookup flow.flow_id flows)) [
      | inl q ↦
          let there : lookup flow.flow_id after ≡ some (opened flow opts) =
            ground (arith, e, q, lookup-store_self flow.flow_id (opened flow opts) flows) in
          let again_there : lookup again.flow_id after ≡ some (opened flow opts) =
            ap (λ n. lookup n after) i ∙ there in
          (q, there, ground (arith, v, again_there))
      | inr (s, q) ↦ absurd (ground (arith, e, q))
    ]
