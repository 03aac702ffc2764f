-- ===== src/Packet/Direction/Steps.antt =====
-- packet/key_update.go: the calls that change a direction, and what each does to its phase.
use aurora_core.Common.{
  ℕ, ◌∙◌, ◌+◌, ◌≤◌, ◌≡◌, sym, ap, arith, Option, none, some, List, ltb, ◌==◌, if◌then◌else◌, ◌⊎◌,
  inl, inr, Bool-cases, Option-cases,
}
use aurora_core.Errors.{Result, Result-cases, ok, fail, bind-ok}
use aurora_core.Wire.Encoder.{encode}
use aurora_core.Protocol.KeyUpdate.{KeyUpdate, KeyUpdateAck, validate_key_update, encode_key_update}
use aurora_core.Crypto.{Primitives}
use aurora_core.Packet.KeyPhase.{
  KeyMaterial, KeyUpdateResult, apply_received_key_update, derive_key_update,
}
use aurora_core.Packet.Direction.{
  check_ack, DirectionState, PreparedKeyUpdate, clear_drain_state, expire_drain, advanced,
  commit_prepared_update, apply_key_update_ack, apply_received_update_at, duplicate_received_update,
}

-- One call on the state of a direction that changes it.
pub data Step (c : Primitives) (s t : DirectionState) : Type 0 where
  commits :
      (prepared : PreparedKeyUpdate) (now : ℕ)
      → prepared.frame.new_key_phase ≤ 255
      → commit_prepared_update s prepared now ≡ ok t
      → Step c s t
  receives :
      (suite : ℕ) (frame : KeyUpdate) (ack_nonce : List ℕ) (now : ℕ) (result : KeyUpdateResult)
      → frame.new_key_phase ≤ 255
      → apply_received_update_at c s suite frame ack_nonce now ≡ ok (result, t)
      → Step c s t
  acknowledges :
      (ack : KeyUpdateAck) (now : ℕ) → (apply_key_update_ack s ack now).1 ≡ t → Step c s t
  expires : (now : ℕ) → expire_drain s now ≡ t → Step c s t

pub data Reach (c : Primitives) (s : DirectionState) : DirectionState → Type 0 where
  here : Reach c s s
  next : {t u : DirectionState} → Reach c s t → Step c t u → Reach c s u

abbrev pub entered :
    DirectionState
    → KeyMaterial
    → ℕ
    → Option KeyUpdate
    → Option (List ℕ × KeyUpdateResult)
    → DirectionState
entered s material now pending last =
    record (advanced (clear_drain_state s) (s.key_phase + 1) material now) {
      pending_sent_update = pending;
      last_received_update = last;
    }

-- What a step does: nothing, an end of the drain, or the next phase.
pub data Moves (s t : DirectionState) : Type 0 where
  stays : s ≡ t → Moves s t
  ends : clear_drain_state s ≡ t → Moves s t
  enters :
      (material : KeyMaterial) (now : ℕ) (pending : Option KeyUpdate)
      (last : Option (List ℕ × KeyUpdateResult))
      → s.key_phase + 1 ≤ 255
      → entered s material now pending last ≡ t
      → Moves s t

next_phase :
    (frame : KeyUpdate) (u : Unit {0})
    → validate_key_update frame ≡ ok u
    → frame.old_key_phase ≤ 255
    → frame.new_key_phase ≤ 255
    → frame.new_key_phase ≡ frame.old_key_phase + 1
unfolding validate_key_update
next_phase frame u e h g = ground (arith, e)

commit_outcome :
    (s t : DirectionState) (prepared : PreparedKeyUpdate) (now : ℕ)
    → s.key_phase ≤ 255
    → prepared.frame.new_key_phase ≤ 255
    → commit_prepared_update s prepared now ≡ ok t
    → Moves s t
unfolding commit_prepared_update
commit_outcome s t prepared now h g e =
    let frame = prepared.frame in
    let (u, v, r) = bind-ok (validate_key_update frame) _ e in
    let same : frame.old_key_phase ≡ s.key_phase = ground (arith, r) in
    let n : frame.new_key_phase ≡ s.key_phase + 1 =
      ground (arith, next_phase frame u v (omega (arith, same)) g, same) in
    enters prepared.next_material now (if frame.ack_required then some frame else none) none
      (omega (arith, n))
      (ap
          (λ (k : ℕ). record (advanced (clear_drain_state s) k prepared.next_material now) {
            pending_sent_update = if frame.ack_required then some frame else none;
          })
          (sym n)
        ∙ ground (arith, r))

expire_cases :
    (s : DirectionState) (now : ℕ)
    → (expire_drain s now ≡ s) ⊎ (expire_drain s now ≡ clear_drain_state s)
unfolding expire_drain
expire_cases s now = elim (Option-cases s.drain_until) [
  | inl idle ↦ inl (ground (arith, idle))
  | inr (until, draining) ↦ elim (Bool-cases (ltb until now)) [
    | inl over ↦ inr (ground (arith, draining, over))
    | inr early ↦ inl (ground (arith, draining, early))
  ]
]

ack_cases :
    (s : DirectionState) (ack : KeyUpdateAck) (now : ℕ)
    → ((apply_key_update_ack s ack now).1 ≡ expire_drain s now)
      ⊎ ((apply_key_update_ack s ack now).1 ≡ clear_drain_state (expire_drain s now))
unfolding apply_key_update_ack
ack_cases s ack now = elim (Result-cases (check_ack (expire_drain s now) ack)) [
  | inl (u, passed) ↦ inr (
      ap
        (λ (r : Result (Unit {0})). elim r [
          | ok _ ↦ clear_drain_state (expire_drain s now)
          | fail _ ↦ expire_drain s now
        ])
        passed)
  | inr (x, refused) ↦ inl (
      ap
        (λ (r : Result (Unit {0})). elim r [
          | ok _ ↦ clear_drain_state (expire_drain s now)
          | fail _ ↦ expire_drain s now
        ])
        refused)
]

update_valid :
    (c : Primitives) (suite : ℕ) (secret : List ℕ) (frame : KeyUpdate) (ack_nonce : List ℕ)
    (result : KeyUpdateResult)
    → apply_received_key_update c suite secret frame ack_nonce ≡ ok result
    → validate_key_update frame ≡ ok tt
unfolding apply_received_key_update derive_key_update
update_valid c suite secret frame ack_nonce result e =
    elim (Result-cases (validate_key_update frame)) [
      | inl (u, q) ↦ q
      | inr (x, q) ↦ absurd (ground (arith, e, q))
    ]

receive_outcome :
    (c : Primitives) (s t : DirectionState) (suite : ℕ) (frame : KeyUpdate) (ack_nonce : List ℕ)
    (now : ℕ) (result : KeyUpdateResult)
    → s.key_phase ≤ 255
    → frame.new_key_phase ≤ 255
    → apply_received_update_at c s suite frame ack_nonce now ≡ ok (result, t)
    → Moves s t
unfolding apply_received_update_at clear_drain_state
receive_outcome c s t suite frame ack_nonce now result h g e =
    let update = apply_received_key_update c suite s.material.app_secret frame ack_nonce in
    elim (Result-cases (encode (encode_key_update frame))) [
      | inr (x, unencoded) ↦ absurd (ground (arith, e, unencoded))
      | inl (bytes, encoded) ↦ elim (Bool-cases (frame.old_key_phase == s.key_phase)) [
        | inr other ↦ elim (Option-cases (duplicate_received_update s frame bytes now)) [
          | inl fresh ↦ absurd (ground (arith, e, encoded, other, fresh))
          | inr (known, again) ↦ stays (ground (arith, e, encoded, other, again))
        ]
        | inl same ↦ elim (Result-cases update) [
          | inr (x, failed) ↦ absurd (ground (arith, e, encoded, same, failed))
          | inl (r, derived) ↦
              let n : frame.new_key_phase ≡ s.key_phase + 1 = ground (
                arith,
                same,
                next_phase frame tt
                    (update_valid c suite s.material.app_secret frame ack_nonce r derived)
                    (ground (arith, same)) g,
              ) in
              enters r.next_material now none (some (bytes, r)) (omega (arith, n)) (
                ap
                  (λ (k : ℕ). record (advanced (clear_drain_state s) k r.next_material now) {
                    last_received_update = some (bytes, r);
                  })
                  (sym n)
                ∙ ground (arith, e, encoded, same, derived))
        ]
      ]
    ]

pub Step-outcome :
    (c : Primitives) (s t : DirectionState) → s.key_phase ≤ 255 → Step c s t → Moves s t
unfolding clear_drain_state
Step-outcome c s t h (commits prepared now g e) = commit_outcome s t prepared now h g e
Step-outcome c s t h (receives suite frame ack_nonce now result g e) =
    receive_outcome c s t suite frame ack_nonce now result h g e
Step-outcome c s t h (acknowledges ack now e) = elim (ack_cases s ack now) [
  | inl kept ↦ elim (expire_cases s now) [
    | inl same ↦ stays (sym same ∙ sym kept ∙ e)
    | inr over ↦ ends (sym over ∙ sym kept ∙ e)
  ]
  | inr cleared ↦ elim (expire_cases s now) [
    | inl same ↦ ends (ap clear_drain_state (sym same) ∙ sym cleared ∙ e)
    | inr over ↦ ends (ap clear_drain_state (sym over) ∙ sym cleared ∙ e)
  ]
]
Step-outcome c s t h (expires now e) = elim (expire_cases s now) [
  | inl same ↦ stays (sym same ∙ e)
  | inr over ↦ ends (sym over ∙ e)
]
