-- ===== src/Packet/Direction/Keys.antt =====
-- packet/key_update.go: which keys open a packet.
use aurora_core.Common.{
  ℕ, ◌≤◌, ◌<◌, ◌≡◌, sym, ap, ◌∙◌, arith, true, some, ltb, ◌==◌, ◌⊎◌, inl, inr, Bool-cases,
  Option-cases,
}
use aurora_core.Errors.{Result, ok}
use aurora_core.Packet.Codec.{AuroraPacket}
use aurora_core.Packet.KeyPhase.{KeyMaterial, erased}
use aurora_core.Packet.Direction.{
  DirectionState, clear_drain_state, drain_active, expire_drain, material_for_packet_view,
  material_for_packet,
}

view_cases :
    (s : DirectionState) (pkt : AuroraPacket) (now : ℕ) (m : KeyMaterial)
    → material_for_packet_view s pkt now ≡ ok m
    → ((pkt.key_phase ≡ s.key_phase) × (m ≡ s.material))
      ⊎ ((pkt.key_phase ≡ s.previous_key_phase)
          × (m ≡ s.previous_material)
          × (drain_active s now ≡ true))
unfolding material_for_packet_view
view_cases s pkt now m e = elim (Bool-cases (pkt.key_phase == s.key_phase)) [
  | inl current ↦ inl (ground (arith, current), ground (arith, e, current))
  | inr other ↦ inr (ground (arith, e, other), ground (arith, e, other), ground (arith, e, other))
]

expired_or_kept :
    (s : DirectionState) (now : ℕ)
    → ((expire_drain s now ≡ s) × ((until : ℕ) → s.drain_until ≡ some until → now ≤ until))
      ⊎ (expire_drain s now ≡ clear_drain_state s)
unfolding expire_drain
expired_or_kept s now = elim (Option-cases s.drain_until) [
  | inl never ↦ inl (ground (arith, never), λ until d. ground (arith, never, d))
  | inr (until, d) ↦ elim (Bool-cases (ltb until now)) [
    | inl over ↦ inr (ground (arith, d, over))
    | inr early ↦ inl (ground (arith, d, early), λ v f. ground (arith, d, f, early))
  ]
]

-- The material that a direction gives for a packet is the current phase's, or within the deadline of a
-- drain that of the phase before, whichever the packet names. After the deadline the packet's phase is
-- the current one, and the direction keeps no material of the phase before.
pub material_for_packet-Current :
    (s t : DirectionState) (pkt : AuroraPacket) (now : ℕ) (material : KeyMaterial)
    → material_for_packet s pkt now ≡ (ok material, t)
    → ((pkt.key_phase ≡ s.key_phase) × (material ≡ s.material)
        ⊎ ((until : ℕ) × (s.drain_until ≡ some until)
            × (now ≤ until)
            × (pkt.key_phase ≡ s.previous_key_phase)
            × (material ≡ s.previous_material)))
      × ((until : ℕ)
          → s.drain_until ≡ some until
          → until < now
          → (t.previous_material ≡ erased) × (t.material ≡ s.material))
unfolding material_for_packet clear_drain_state drain_active
material_for_packet-Current s t pkt now material e =
    let same : expire_drain s now ≡ t = ap (λ (x : Result KeyMaterial × DirectionState). x.1) e in
    let view : material_for_packet_view (expire_drain s now) pkt now ≡ ok material =
      ap (λ (x : Result KeyMaterial × DirectionState). x.0) e in
    let view_of = λ (u : DirectionState) (f : expire_drain s now ≡ u).
      view_cases u pkt now material
        (ap (λ (x : DirectionState). material_for_packet_view x pkt now) (sym f) ∙ view) in
    elim (expired_or_kept s now) [
      | inl (keeps, early) ↦ (
        elim (view_of s keeps) [
          | inl current ↦ inl current
          | inr (p, m, a) ↦ elim (Option-cases s.drain_until) [
            | inl never ↦ absurd (ground (arith, never, a))
            | inr (until, d) ↦ inr (until, d, early until d, p, m)
          ]
        ],
        λ until d h. absurd (omega (arith, early until d)),
      )
      | inr clears ↦ (
        elim (view_of (clear_drain_state s) clears) [
          | inl current ↦ inl current
          | inr (p, m, a) ↦ absurd (ground (arith, a))
        ],
        λ until d h. (
          ap (λ (x : DirectionState). x.previous_material) (sym same ∙ clears),
          ap (λ (x : DirectionState). x.material) (sym same ∙ clears),
        ),
      )
    ]
