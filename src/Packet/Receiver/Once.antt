-- ===== src/Packet/Receiver/Once.antt =====
-- packet/receiver.go: a packet number of a space is accepted once.
use aurora_core.Common.{
  ℕ, ◌≡◌, refl, sym, ap, ◌∙◌, arith, subst, Bool, true, false, not, ◌||◌, some, List, [], ◌==◌,
  Bool-cases, inl, inr, ◌⊎◌,
}
use aurora_core.Errors.{Error, Result-cases, ok, fail, receiver_destroyed, invalid_prepared_open}
use aurora_core.Crypto.{Primitives}
use aurora_core.Packet.Codec.{AuroraPacket}
use aurora_core.Packet.Direction.{DirectionState}
use aurora_core.Packet.Window.{ReplayWindow, check_number}
use aurora_core.Packet.Window.Refinement.{Tracks}
use aurora_core.Packet.Protector.{Protector}
use aurora_core.Packet.Receiver.{
  Receiver, PacketNumberKey, PreparedOpen, new_receiver, destroy, forget_packet_number_space,
  check_packet_number_key, mark_packet_number_key, packet_number_key, prepare_open_with_protector,
  commit_prepared_open,
}
use aurora_core.Packet.Receiver.Directions.{prepare_open_with_direction_state}
use aurora_core.Packet.Receiver.Spaces.{
  Space, same_space, same_space→eq, find, delete, find-delete_other, find-delete_self,
}
use aurora_core.Packet.Receiver.Preparing.{SameWindows, prepares_keeps}
use aurora_core.Packet.Receiver.Memory.{
  IsTracked, Remembers, put_mark, tracked_member, mark-IsTracked, mark-Remembers, new-Remembers,
}

-- The calls that change a receiver; only spaces that `may_forget` allows are forgotten.
pub data Step (c : Primitives) (may_forget : Space → Bool) (r t : Receiver) : Type 0 where
  commits :
      (prepared used : PreparedOpen)
      → commit_prepared_open r prepared ≡ ok (t, used)
      → Step c may_forget r t
  prepares :
      (pkt : AuroraPacket) (state : DirectionState) (suite now : ℕ)
      → (prepare_open_with_direction_state c r pkt state suite now).1 ≡ t
      → Step c may_forget r t
  forgets :
      (space : Space)
      → may_forget space ≡ true
      → forget_packet_number_space r space ≡ t
      → Step c may_forget r t
  destroys : destroy r ≡ t → Step c may_forget r t

pub data Reach (c : Primitives) (may_forget : Space → Bool) (r : Receiver) : Receiver → Type 0 where
  here : Reach c may_forget r r
  next : {t u : Receiver} → Reach c may_forget r t → Step c may_forget t u → Reach c may_forget r u

pub committed :
    (r t : Receiver) (prepared used : PreparedOpen)
    → commit_prepared_open r prepared ≡ ok (t, used)
    → (r.destroyed ≡ false)
      × (check_number r.window_size (find prepared.key.space r.windows) prepared.key.packet_number
          ≡ ok tt)
      × (put_mark r prepared.key ≡ t)
unfolding commit_prepared_open check_packet_number_key mark_packet_number_key
committed r t prepared used e = elim (Bool-cases r.destroyed) [
  | inl gone ↦ absurd (ground (arith, e, gone))
  | inr live ↦
      elim (Result-cases (
        check_number r.window_size (find prepared.key.space r.windows)
          prepared.key.packet_number)) [
            | inr (x, refused) ↦ absurd (ground (arith, e, live, refused))
            | inl (u, passed) ↦ (live, passed, ground (arith, e, live, passed))
          ]
]

-- The number is remembered, or the receiver takes nothing any more.
unfoldable pub Spent : Receiver → PacketNumberKey → Type 0
Spent r key = (r.destroyed ≡ true) ⊎ Remembers r key

same-IsTracked : (r t : Receiver) → IsTracked r → SameWindows r t → IsTracked t
same-IsTracked r t h k = record {
  tracked = λ space w f.
      let (seen, s) =
        h.tracked space w
          (ap (λ (x : List (Space × ReplayWindow)). find space x) (sym k.windows_same) ∙ f) in
      (seen, subst (λ (n : ℕ). Tracks n w seen) (sym k.size_same) s);
}

same-Remembers :
    (r t : Receiver) (key : PacketNumberKey) → Remembers r key → SameWindows r t → Remembers t key
same-Remembers r t key m k = record {
  window = m.window;
  seen = m.seen;
  kept = ap (λ (x : List (Space × ReplayWindow)). find key.space x) k.windows_same ∙ m.kept;
  tracks = subst (λ (n : ℕ). Tracks n m.window m.seen) (sym k.size_same) m.tracks;
  among = m.among;
}

pub vanished :
    (space other : Space) (w : ReplayWindow) (r : Receiver)
    → same_space other space ≡ true
    → ¬ (find other (delete space r.windows) ≡ some w)
vanished space other w r same f =
    let e = same_space→eq other space same in
    let gone =
      sym (find-delete_self space r.windows)
      ∙ ap (λ (x : Space). find x (delete space r.windows)) (sym e)
      ∙ f in
    ground (arith, gone)

pub empty : (space : Space) (w : ReplayWindow) → ¬ (find space [] ≡ some w)
unfolding find
empty space w f = ground (arith, f)

Step-IsTracked :
    (c : Primitives) (may_forget : Space → Bool) (r t : Receiver)
    → IsTracked r
    → Step c may_forget r t
    → IsTracked t
unfolding forget_packet_number_space destroy
Step-IsTracked c may_forget r t h (commits prepared used e) =
    subst IsTracked (committed r t prepared used e).2 (mark-IsTracked r prepared.key h)
Step-IsTracked c may_forget r t h (prepares pkt state suite now e) =
    subst IsTracked e (same-IsTracked r _ h (prepares_keeps c r pkt state suite now))
Step-IsTracked c may_forget r t h (forgets space may e) = subst IsTracked e (record {
  tracked = λ other w f. elim (Bool-cases (same_space other space)) [
    | inl same ↦ absurd (vanished space other w r same f)
    | inr apart ↦ h.tracked other w (sym (find-delete_other other space r.windows apart) ∙ f)
  ];
})
Step-IsTracked c may_forget r t h (destroys e) =
    subst IsTracked e (record { tracked = λ space w f. absurd (empty space w f) })

Reach-IsTracked :
    (c : Primitives) (may_forget : Space → Bool) (r t : Receiver)
    → IsTracked r
    → Reach c may_forget r t
    → IsTracked t
Reach-IsTracked c may_forget r t h here = h
Reach-IsTracked c may_forget r t h (next before step) =
    Step-IsTracked c may_forget _ t (Reach-IsTracked c may_forget r _ h before) step

abbrev pub others : Space → Space → Bool
others kept space = not (same_space kept space)

Step-Spent :
    (c : Primitives) (key : PacketNumberKey) (r t : Receiver)
    → Spent r key
    → Step c (others key.space) r t
    → Spent t key
unfolding Spent forget_packet_number_space destroy
Step-Spent c key r t s (commits prepared used e) =
    let (live, passed, m) = committed r t prepared used e in
    elim s [
      | inl gone ↦ absurd (ground (arith, gone, live))
      | inr k ↦ subst (λ (x : Receiver). Spent x key) m (inr (mark-Remembers r key prepared.key k))
    ]
Step-Spent c key r t s (prepares pkt state suite now e) =
    let k = prepares_keeps c r pkt state suite now in
    subst (λ (x : Receiver). Spent x key) e
      (elim s [
        | inl gone ↦ inl (k.destroyed_same ∙ gone)
        | inr m ↦ inr (same-Remembers r _ key m k)
      ])
Step-Spent c key r t s (forgets space may e) =
    let apart : same_space key.space space ≡ false = ground (arith, may) in
    subst (λ (x : Receiver). Spent x key) e
      (elim s [
        | inl gone ↦ inl gone
        | inr m ↦ inr (record {
          window = m.window;
          seen = m.seen;
          kept = find-delete_other key.space space r.windows apart ∙ m.kept;
          tracks = m.tracks;
          among = m.among;
        })
      ])
Step-Spent c key r t s (destroys e) = subst (λ (x : Receiver). Spent x key) e (inl refl)

Reach-Spent :
    (c : Primitives) (key : PacketNumberKey) (r t : Receiver)
    → Spent r key
    → Reach c (others key.space) r t
    → Spent t key
Reach-Spent c key r t s here = s
Reach-Spent c key r t s (next before step) =
    Step-Spent c key _ t (Reach-Spent c key r _ s before) step

pub Spent-fails :
    (r : Receiver) (key : PacketNumberKey)
    → Spent r key
    → (e : Error) × (check_packet_number_key r key ≡ fail e)
unfolding Spent check_packet_number_key
Spent-fails r key (inl gone) = (receiver_destroyed, ground (arith, gone))
Spent-fails r key (inr m) = elim (Bool-cases r.destroyed) [
  | inl gone ↦ (receiver_destroyed, ground (arith, gone))
  | inr live ↦
      let (e, q) =
        tracked_member r.window_size m.window m.seen key.packet_number m.tracks m.among in
      (e, ground (arith, live, m.kept, q))
]

refuse_commit :
    (r : Receiver) (p : PreparedOpen) (x : Error)
    → check_packet_number_key r p.key ≡ fail x
    → (y : Error) × (commit_prepared_open r p ≡ fail y)
unfolding commit_prepared_open
refuse_commit r p x e = elim (Bool-cases (not p.valid || not (p.owner == r.identity))) [
  | inl stale ↦ (invalid_prepared_open, ground (arith, stale))
  | inr fresh ↦ (x, ground (arith, fresh, e))
]

pub new-IsTracked :
    (c : Primitives) (identity : ℕ) (p : Protector) (n : ℕ)
    → IsTracked (new_receiver c identity p n)
unfolding new_receiver
new-IsTracked c identity p n = record { tracked = λ space w f. absurd (empty space w f) }

-- Once a receiver has accepted a packet number of a space, after any calls since it was made, no
-- packet with that number and space is accepted again, neither prepared nor committed, until the
-- receiver forgets the space, whatever else is received, prepared or forgotten in between.
pub commit_prepared_open-Once :
    (c : Primitives) (identity window_size : ℕ) (source : Protector) (r t u : Receiver)
    (prepared used : PreparedOpen)
    → Reach c (λ _. true) (new_receiver c identity source window_size) r
    → commit_prepared_open r prepared ≡ ok (t, used)
    → Reach c (others prepared.key.space) t u
    → (e : Error) × (check_packet_number_key u prepared.key ≡ fail e)
      × ((later : PreparedOpen)
          → later.key ≡ prepared.key
          → (x : Error) × (commit_prepared_open u later ≡ fail x))
      × ((pkt : AuroraPacket) (p : Protector)
          → packet_number_key pkt ≡ prepared.key
          → prepare_open_with_protector c u pkt p ≡ fail e)
unfolding Spent commit_prepared_open prepare_open_with_protector
commit_prepared_open-Once c identity window_size source r t u prepared used before e after =
    let tracked = Reach-IsTracked c _ _ r (new-IsTracked c identity source window_size) before in
    let (live, passed, m) = committed r t prepared used e in
    let spent =
      subst (λ (x : Receiver). Spent x prepared.key) m
        (inr (new-Remembers r prepared.key tracked passed)) in
    let (x, refused) = Spent-fails u prepared.key (Reach-Spent c prepared.key t u spent after) in
    (
      x,
      refused,
      λ later same.
          refuse_commit u later x
            (ap (λ (k : PacketNumberKey). check_packet_number_key u k) same ∙ refused),
      λ pkt p same.
          ground (arith, ap (λ (k : PacketNumberKey). check_packet_number_key u k) same ∙ refused),
    )
