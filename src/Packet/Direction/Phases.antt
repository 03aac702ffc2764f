-- ===== src/Packet/Direction/Phases.antt =====
-- packet/key_update.go: the phases that a direction goes through.
use aurora_core.Common.{
  ℕ, ◌+◌, ◌≤◌, ◌≡◌, refl, sym, ap, arith, subst, none, some, inl, inr, Option-cases,
}
use aurora_core.Crypto.{Primitives}
use aurora_core.Packet.KeyPhase.{erased}
use aurora_core.Packet.Direction.{DirectionState, clear_drain_state}
use aurora_core.Packet.Direction.Steps.{Reach, here, next, Moves, stays, ends, enters, Step-outcome}

-- Outside a drain nothing of an earlier phase is left, and in one the earlier phase is the one before.
pub record IsPhased (s : DirectionState) : Type 0 where
  pub fits : s.key_phase ≤ 255
  pub idle : s.drain_until ≡ none → clear_drain_state s ≡ s
  pub draining : (until : ℕ) → s.drain_until ≡ some until → s.previous_key_phase + 1 ≡ s.key_phase

Moves-IsPhased :
    (s t : DirectionState) → IsPhased s → Moves s t → IsPhased t × (s.key_phase ≤ t.key_phase)
unfolding clear_drain_state
Moves-IsPhased s t p (stays e) =
    subst (λ (u : DirectionState). IsPhased u × (s.key_phase ≤ u.key_phase)) e (p, omega arith)
Moves-IsPhased s t p (ends e) =
    subst (λ (u : DirectionState). IsPhased u × (s.key_phase ≤ u.key_phase)) e
      (record { fits = p.fits; idle = λ _. refl; draining = λ u q. cc }, omega arith)
Moves-IsPhased s t p (enters material now pending last h e) =
    subst (λ (u : DirectionState). IsPhased u × (s.key_phase ≤ u.key_phase)) e
      (record { fits = h; idle = λ q. cc; draining = λ u q. refl }, omega arith)

-- The keys of an earlier phase that a direction `t`, reached from `s`, holds: none, those that `s` held
-- in a drain that still goes on, or the ones that a direction `u` on the way used as its own, when it
-- was in the phase before.
pub data Held (c : Primitives) (s t : DirectionState) : Type 0 where
  nothing : t.drain_until ≡ none → t.previous_material ≡ erased → Held c s t
  from_start :
      t.drain_until ≡ s.drain_until
      → t.key_phase ≡ s.key_phase
      → t.previous_key_phase ≡ s.previous_key_phase
      → t.previous_material ≡ s.previous_material
      → Held c s t
  from_phase :
      (u : DirectionState)
      → Reach c s u
      → Reach c u t
      → u.key_phase + 1 ≡ t.key_phase
      → t.previous_key_phase ≡ u.key_phase
      → t.previous_material ≡ u.material
      → Held c s t

here-Held : (c : Primitives) (s : DirectionState) → IsPhased s → Held c s s
unfolding clear_drain_state
here-Held c s p = elim (Option-cases s.drain_until) [
  | inl idle ↦ nothing idle (sym (ap (λ (u : DirectionState). u.previous_material) (p.idle idle)))
  | inr (until, draining) ↦ from_start refl refl refl refl
]

Moves-Held :
    (c : Primitives) (s t u : DirectionState)
    → Reach c s t
    → Reach c t u
    → Held c s t
    → Moves t u
    → Held c s u
unfolding clear_drain_state
Moves-Held c s t u r w k (stays e) = subst (λ (v : DirectionState). Held c s v) e k
Moves-Held c s t u r w k (ends e) = subst (λ (v : DirectionState). Held c s v) e (nothing refl refl)
Moves-Held c s t u r w k (enters material now pending last h e) =
    subst (λ (v : DirectionState). Reach c t v → Held c s v) e
      (λ v. from_phase t r v refl refl refl) w

-- From a direction in a phase of at most 255 that is in no drain and holds nothing of an earlier phase,
-- or is in a drain of the phase before, every sequence of committed updates, received updates,
-- acknowledgements and expiries leads to such a direction, in the same phase or a later one. In a drain
-- it holds the keys that it held at the start, where that drain still goes on, and otherwise the keys
-- that it used as its own when it was in the phase before; outside a drain it holds erased ones.
pub reach-IsPhased :
    (c : Primitives) (s t : DirectionState)
    → IsPhased s
    → Reach c s t
    → IsPhased t × (s.key_phase ≤ t.key_phase) × Held c s t
reach-IsPhased c s t p here = (p, omega arith, here-Held c s p)
reach-IsPhased c s t p (next r step) =
    let (q, le, k) = reach-IsPhased c s _ p r in
    let moves = Step-outcome c _ t q.fits step in
    let (q', le') = Moves-IsPhased _ t q moves in
    (q', omega arith, Moves-Held c s _ t r (next here step) k moves)
