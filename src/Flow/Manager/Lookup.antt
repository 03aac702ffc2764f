-- ===== src/Flow/Manager/Lookup.antt =====
-- flow/flow.go: the map of flows after an entry is written or deleted.
use aurora_core.Common.{ℕ, ◌≡◌, ◌≢◌, refl, arith, none, some, [], ◌∷◌}
use aurora_core.Flow.Manager.{FlowState, Flows, lookup, delete, store}

pub lookup-delete_self : (i : ℕ) (flows : Flows) → lookup i (delete i flows) ≡ none
unfolding lookup delete
lookup-delete_self i [] = refl
lookup-delete_self i ((k, s) ∷ flows) = ground (arith, lookup-delete_self i flows)

pub lookup-delete_other :
    (i j : ℕ) (flows : Flows) → i ≢ j → lookup j (delete i flows) ≡ lookup j flows
unfolding lookup delete
lookup-delete_other i j [] h = refl
lookup-delete_other i j ((k, s) ∷ flows) h = ground (arith, lookup-delete_other i j flows h)

pub lookup-store_self :
    (i : ℕ) (s : FlowState) (flows : Flows) → lookup i (store i s flows) ≡ some s
unfolding lookup
lookup-store_self i s flows = ground arith

pub lookup-store_other :
    (i j : ℕ) (s : FlowState) (flows : Flows) → i ≢ j → lookup j (store i s flows) ≡ lookup j flows
unfolding lookup
lookup-store_other i j s flows h = ground (arith, lookup-delete_other i j flows h)
