-- ===== src/Packet/Window/Refinement.antt =====
-- packet/receiver.go: the bitmap window against a memory of every accepted packet number.
use aurora_core.Common.{
  ℕ, ◌+◌, ◌-◌, ◌*◌, ◌/◌, ◌%◌, ◌≤◌, ◌<◌, ◌≡◌, refl, sym, ap, arith, Bool, true, false, Option, none,
  some, List, [], ◌∷◌, ltb, ◌==◌, if◌then◌else◌, Bool-cases, inl, inr, length, length-replicate,
  replicate, subst, ltb→lt,
}
use aurora_core.Errors.{
  Result-cases, Result, ok, fail, outside_receiver_window, duplicate_packet_number,
}
use aurora_core.Packet.Window.{ReplayWindow, set, advance, check_number, mark_number}
use aurora_core.Packet.Window.Slots.{slot, contains-slot}
use aurora_core.Packet.Window.Ring.{
  slot-replicate, slot-advance, slot-set, length-advance, length-set_window,
}

abbrev pub member : ℕ → List ℕ → Bool
member n [] = false
member n (m ∷ ms) = if n == m then true else member n ms

abbrev pub newest : List ℕ → ℕ
newest [] = 0
newest (m ∷ ms) = if ltb (newest ms) m then m else newest ms

-- The answer of a receiver that remembers every number it accepted.
unfoldable pub remembered_answer : ℕ → List ℕ → ℕ → Result (Unit {0})
remembered_answer window_size [] n = ok tt
remembered_answer window_size (m ∷ ms) n =
    if ltb (newest (m ∷ ms)) n
    then ok tt
    else if ltb window_size (newest (m ∷ ms) - n)
    then fail outside_receiver_window
    else if member n (m ∷ ms)
    then fail duplicate_packet_number
    else ok tt

-- An answer before those that follow an accepted or a rejected number.
abbrev answer_then : {A : Type 0} → Result A → List (Result A) → List (Result A) → List (Result A)
answer_then (ok u) accepted rejected = ok u ∷ accepted
answer_then (fail e) accepted rejected = fail e ∷ rejected

-- The answers to a sequence of packet numbers: a number that is accepted is remembered.
abbrev pub remembered_answers : ℕ → List ℕ → List ℕ → List (Result (Unit {0}))
remembered_answers window_size seen [] = []
remembered_answers window_size seen (n ∷ ns) =
    let answer = remembered_answer window_size seen n in
    let rejected = remembered_answers window_size seen ns in
    let accepted = remembered_answers window_size (n ∷ seen) ns in
    answer_then answer accepted rejected

-- The same with the window: a number that checkPacketNumberLocked passes is marked.
abbrev pub window_answers : ℕ → Option ReplayWindow → List ℕ → List (Result (Unit {0}))
window_answers window_size w [] = []
window_answers window_size w (n ∷ ns) =
    let answer = check_number window_size w n in
    let rejected = window_answers window_size w ns in
    let accepted = window_answers window_size (some (mark_number window_size w n)) ns in
    answer_then answer accepted rejected

-- The window holds the last `window_size + 1` numbers up to the newest one.
pub record Tracks (window_size : ℕ) (w : ReplayWindow) (seen : List ℕ) : Type 0 where
  pub room : window_size + 1 ≤ 64 * length w.bits
  pub top : w.highest ≡ newest seen
  pub shows :
      (n : ℕ)
      → n ≤ w.highest
      → w.highest - n < window_size + 1
      → slot w.bits (n % (window_size + 1)) ≡ (if member n seen then 1 else 0)

pub member-newest : (n : ℕ) (seen : List ℕ) → newest seen < n → member n seen ≡ false
member-newest n [] h = refl
member-newest n (m ∷ ms) h = ground (arith, member-newest n ms (ground arith))

pub check_number-Tracks :
    (ws : ℕ) (w : ReplayWindow) (m : ℕ) (ms : List ℕ) (n : ℕ)
    → Tracks ws w (m ∷ ms)
    → check_number ws (some w) n ≡ remembered_answer ws (m ∷ ms) n
unfolding check_number remembered_answer
check_number-Tracks ws w m ms n t = elim (Bool-cases (ltb w.highest n)) [
  | inl later ↦ ground (arith, t.top)
  | inr seen ↦ elim (Bool-cases (ltb ws (w.highest - n))) [
    | inl old ↦ ground (arith, t.top)
    | inr recent ↦ ground (
      arith,
      t.top,
      contains-slot w n (ws + 1),
      t.shows n (ground (arith, seen)) (ground (arith, recent)),
    )
  ]
]

highest-advance : (w : ReplayWindow) (n k : ℕ) → (advance w n k).highest ≡ n
unfolding advance
highest-advance w n k = ground arith

mark_later :
    (ws : ℕ) (w : ReplayWindow) (seen : List ℕ) (n : ℕ)
    → Tracks ws w seen
    → w.highest < n
    → Tracks ws (set (advance w n (ws + 1)) n (ws + 1)) (n ∷ seen)
unfolding set
mark_later ws w seen n t h =
    let k = ws + 1 in
    let w' = advance w n k in
    let l = length-advance w n k in
    let top' : (set w' n k).highest ≡ n = highest-advance w n k in
    record {
      room = omega (arith, t.room, l, length-set_window w' n k);
      top = ground (arith, t.top, top');
      shows = λ m a b.
          let below : m ≤ n = omega (arith, a, top') in
          let near : n - m < k = omega (arith, b, top') in
          let r : 0 < ws + 1 = omega arith in
          ground (
            arith,
            slot-set w' n k m r (omega (arith, t.room, l)) (omega arith) near,
            slot-advance w n k m r t.room h below near,
            t.shows m,
            member-newest m seen,
            t.top,
          );
    }

mark_recent :
    (ws : ℕ) (w : ReplayWindow) (seen : List ℕ) (n : ℕ)
    → Tracks ws w seen
    → n ≤ w.highest
    → w.highest - n < ws + 1
    → Tracks ws (set w n (ws + 1)) (n ∷ seen)
unfolding set
mark_recent ws w seen n t h g =
    let k = ws + 1 in
    record {
      room = omega (arith, t.room, length-set_window w n k);
      top = ground (arith, t.top);
      shows = λ m a b.
          ground (
            arith,
            slot-set w n k m (omega arith) t.room (omega arith) (omega arith),
            t.shows m a b,
          );
    }

mark_number-later :
    (ws : ℕ) (w : ReplayWindow) (n : ℕ)
    → ltb w.highest n ≡ true
    → mark_number ws (some w) n ≡ set (advance w n (ws + 1)) n (ws + 1)
unfolding mark_number
mark_number-later ws w n h = ground (arith, h)

mark_number-recent :
    (ws : ℕ) (w : ReplayWindow) (n : ℕ)
    → ltb w.highest n ≡ false
    → w.highest - n < ws + 1
    → mark_number ws (some w) n ≡ set w n (ws + 1)
unfolding mark_number
mark_number-recent ws w n h g = ground (arith, h)

pub mark_number-Tracks :
    (ws : ℕ) (w : ReplayWindow) (seen : List ℕ) (n : ℕ)
    → Tracks ws w seen
    → w.highest - n < ws + 1
    → Tracks ws (mark_number ws (some w) n) (n ∷ seen)
mark_number-Tracks ws w seen n t h = elim (Bool-cases (ltb w.highest n)) [
  | inl later ↦
      subst (λ (v : ReplayWindow). Tracks ws v (n ∷ seen)) (sym (mark_number-later ws w n later))
        (mark_later ws w seen n t (ltb→lt w.highest n later))
  | inr recent ↦
      subst (λ (v : ReplayWindow). Tracks ws v (n ∷ seen))
        (sym (mark_number-recent ws w n recent h))
        (mark_recent ws w seen n t (ground (arith, recent)) h)
]

pub first-Tracks : (ws n : ℕ) → Tracks ws (mark_number ws none n) (n ∷ [])
unfolding mark_number set
first-Tracks ws n =
    let k = ws + 1 in
    let w : ReplayWindow = record { highest = n; bits = replicate ((k + 63) / 64) 0 } in
    let l = length-replicate {A = ℕ} ((k + 63) / 64) 0 in
    let p : 0 < k = omega arith in
    let room : k ≤ 64 * length w.bits = omega (arith, l) in
    record {
      room = omega (arith, room, length-set_window w n k);
      top = ground arith;
      shows = λ m a b.
          ground (
            arith,
            slot-set w n k m p room (omega arith) b,
            slot-replicate ((k + 63) / 64) (m % k),
          );
    }

answered_ok :
    (ws : ℕ) (w : ReplayWindow) (m : ℕ) (ms : List ℕ) (n : ℕ) {u : Unit {0}}
    → Tracks ws w (m ∷ ms)
    → remembered_answer ws (m ∷ ms) n ≡ ok u
    → w.highest - n < ws + 1
unfolding remembered_answer
answered_ok ws w m ms n t h = ground (arith, t.top, h)

answers_agree :
    (ws : ℕ) (w : ReplayWindow) (m : ℕ) (ms ns : List ℕ)
    → Tracks ws w (m ∷ ms)
    → window_answers ws (some w) ns ≡ remembered_answers ws (m ∷ ms) ns
answers_agree ws w m ms [] t = refl
answers_agree ws w m ms (n ∷ ns) t =
    let same = check_number-Tracks ws w m ms n t in
    let rejected = answers_agree ws w m ms ns t in
    elim (Result-cases (remembered_answer ws (m ∷ ms) n)) [
      | inl (u, passed) ↦
          let h : w.highest - n < ws + 1 = answered_ok ws w m ms n t passed in
          let accepted =
            answers_agree ws (mark_number ws (some w) n) n (m ∷ ms) ns
              (mark_number-Tracks ws w (m ∷ ms) n t h) in
          rw (same, passed, accepted)
      | inr (u, failed) ↦ rw (same, failed, rejected)
    ]

-- For every sequence of packet numbers, a receiver that starts with no window and marks the numbers
-- it accepts gives, at each number, the answer of a receiver that remembers every accepted number:
-- accepted if it is newer than all of them, outside the window if it is more than `window_size` older
-- than the newest, and else a duplicate exactly if it was accepted before.
pub window-remembers :
    (window_size : ℕ) (numbers : List ℕ)
    → window_answers window_size none numbers ≡ remembered_answers window_size [] numbers
unfolding check_number remembered_answer
window-remembers window_size [] = refl
window-remembers window_size (n ∷ ns) =
    ap (λ (rest : List (Result (Unit {0}))). ok tt ∷ rest)
      (answers_agree window_size (mark_number window_size none n) n [] ns
        (first-Tracks window_size n))
