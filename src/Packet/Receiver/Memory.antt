-- ===== src/Packet/Receiver/Memory.antt =====
-- packet/receiver.go: which numbers the windows of a receiver remember.
use aurora_core.Common.{
  ℕ, ◌+◌, ◌-◌, ◌<◌, ◌≡◌, sym, ap, ◌∙◌, arith, subst, true, Option, none, some, List, [], ◌∷◌, ltb,
  Bool-cases, Option-cases, inl, inr,
}
use aurora_core.Errors.{Error, ok, fail, outside_receiver_window, duplicate_packet_number}
use aurora_core.Packet.Window.{ReplayWindow, check_number, mark_number}
use aurora_core.Packet.Window.Refinement.{
  Tracks, member, newest, remembered_answer, check_number-Tracks, mark_number-Tracks, first-Tracks,
  member-newest,
}
use aurora_core.Packet.Receiver.{Receiver, PacketNumberKey}
use aurora_core.Packet.Receiver.Spaces.{
  Space, same_space, same_space→eq, find, put, find-put_self, find-put_other,
}

-- Every window shows the numbers of a list.
pub record IsTracked (r : Receiver) : Type 0 where
  pub tracked :
      (space : Space) (w : ReplayWindow)
      → find space r.windows ≡ some w
      → (seen : List ℕ) × Tracks r.window_size w seen

-- The number is among those that the window of its space shows.
pub record Remembers (r : Receiver) (key : PacketNumberKey) : Type 0 where
  pub window : ReplayWindow
  pub seen : List ℕ
  pub kept : find key.space r.windows ≡ some window
  pub tracks : Tracks r.window_size window seen
  pub among : member key.packet_number seen ≡ true

answered_member :
    (ws n : ℕ) (seen : List ℕ)
    → member n seen ≡ true
    → (e : Error) × (remembered_answer ws seen n ≡ fail e)
unfolding remembered_answer
answered_member ws n [] h = absurd (ground (arith, h))
answered_member ws n (m ∷ ms) h = elim (Bool-cases (ltb (newest (m ∷ ms)) n)) [
  | inl later ↦ absurd (ground (arith, h, member-newest n (m ∷ ms) (ground (arith, later))))
  | inr earlier ↦ elim (Bool-cases (ltb ws (newest (m ∷ ms) - n))) [
    | inl old ↦ (outside_receiver_window, ground (arith, earlier, old))
    | inr recent ↦ (duplicate_packet_number, ground (arith, earlier, recent, h))
  ]
]

pub tracked_member :
    (ws : ℕ) (w : ReplayWindow) (seen : List ℕ) (n : ℕ)
    → Tracks ws w seen
    → member n seen ≡ true
    → (e : Error) × (check_number ws (some w) n ≡ fail e)
tracked_member ws w [] n t h = absurd (ground (arith, h))
tracked_member ws w (m ∷ ms) n t h =
    let (e, q) = answered_member ws n (m ∷ ms) h in (e, check_number-Tracks ws w m ms n t ∙ q)

-- A mark adds at most its number.
marked :
    (ws : ℕ) (w : ReplayWindow) (seen : List ℕ) (n : ℕ)
    → Tracks ws w seen
    → (later : List ℕ) × Tracks ws (mark_number ws (some w) n) later
      × ((m : ℕ) → member m seen ≡ true → member m later ≡ true)
unfolding mark_number
marked ws w seen n t = elim (Bool-cases (ltb ws (w.highest - n))) [
  | inl old ↦
      let same : w ≡ mark_number ws (some w) n = ground (arith, old) in
      (seen, subst (λ (v : ReplayWindow). Tracks ws v seen) same t, λ m h. h)
  | inr recent ↦ (
    n ∷ seen,
    mark_number-Tracks ws w seen n t (ground (arith, recent)),
    λ m h. ground (arith, h),
  )
]

abbrev pub put_mark : Receiver → PacketNumberKey → Receiver
put_mark r key = record r {
  windows =
      put key.space (mark_number r.window_size (find key.space r.windows) key.packet_number)
        r.windows;
}

pub mark-IsTracked :
    (r : Receiver) (key : PacketNumberKey) → IsTracked r → IsTracked (put_mark r key)
mark-IsTracked r key t = record {
  tracked = λ space w e.
      let ws = r.window_size in
      elim (Bool-cases (same_space space key.space)) [
        | inr other ↦ t.tracked space w (sym (find-put_other space key.space _ r.windows other) ∙ e)
        | inl same ↦
            let at : find key.space (put_mark r key).windows ≡ some w =
              ap (λ (x : Space). find x (put_mark r key).windows)
                (sym (same_space→eq space key.space same))
              ∙ e in
            let now : mark_number ws (find key.space r.windows) key.packet_number ≡ w =
              ground (arith, sym (find-put_self key.space _ r.windows) ∙ at) in
            elim (Option-cases (find key.space r.windows)) [
              | inl fresh ↦ (
                key.packet_number ∷ [],
                subst (λ (v : ReplayWindow). Tracks ws v (key.packet_number ∷ []))
                    (ap (λ (o : Option ReplayWindow). mark_number ws o key.packet_number)
                        (sym fresh)
                      ∙ now)
                    (first-Tracks ws key.packet_number),
              )
              | inr (old, known) ↦
                  let (seen, s) = t.tracked key.space old known in
                  let (later, l, keeps) = marked ws old seen key.packet_number s in
                  (
                    later,
                    subst (λ (v : ReplayWindow). Tracks ws v later)
                        (ap (λ (o : Option ReplayWindow). mark_number ws o key.packet_number)
                            (sym known)
                          ∙ now)
                        l,
                  )
            ]
      ];
}

pub mark-Remembers :
    (r : Receiver) (key other : PacketNumberKey)
    → Remembers r key
    → Remembers (put_mark r other) key
mark-Remembers r key other m =
    let ws = r.window_size in
    elim (Bool-cases (same_space key.space other.space)) [
      | inr apart ↦ record {
        window = m.window;
        seen = m.seen;
        kept = find-put_other key.space other.space _ r.windows apart ∙ m.kept;
        tracks = m.tracks;
        among = m.among;
      }
      | inl same ↦
          let e = same_space→eq key.space other.space same in
          let known = ap (λ (x : Space). find x r.windows) (sym e) ∙ m.kept in
          let (later, l, keeps) = marked ws m.window m.seen other.packet_number m.tracks in
          record {
            window = mark_number ws (some m.window) other.packet_number;
            seen = later;
            kept =
                ap (λ (x : Space). find x (put_mark r other).windows) e
                ∙ find-put_self other.space _ r.windows
                ∙ ap (λ (o : Option ReplayWindow). some (mark_number ws o other.packet_number))
                    known;
            tracks = l;
            among = keeps key.packet_number m.among;
          }
    ]

in_window :
    (ws : ℕ) (w : ReplayWindow) (n : ℕ) {u : Unit {0}}
    → check_number ws (some w) n ≡ ok u
    → w.highest - n < ws + 1
unfolding check_number
in_window ws w n e = ground (arith, e)

-- A number that was just marked, of a window that takes it.
pub new-Remembers :
    (r : Receiver) (key : PacketNumberKey) {u : Unit {0}}
    → IsTracked r
    → check_number r.window_size (find key.space r.windows) key.packet_number ≡ ok u
    → Remembers (put_mark r key) key
new-Remembers r key t e =
    let ws = r.window_size in
    let n = key.packet_number in
    elim (Option-cases (find key.space r.windows)) [
      | inl fresh ↦ record {
        window = mark_number ws none n;
        seen = n ∷ [];
        kept =
            find-put_self key.space _ r.windows
            ∙ ap (λ (o : Option ReplayWindow). some (mark_number ws o n)) fresh;
        tracks = first-Tracks ws n;
        among = ground arith;
      }
      | inr (w, known) ↦
          let (seen, s) = t.tracked key.space w known in
          record {
            window = mark_number ws (some w) n;
            seen = n ∷ seen;
            kept =
                find-put_self key.space _ r.windows
                ∙ ap (λ (o : Option ReplayWindow). some (mark_number ws o n)) known;
            tracks = mark_number-Tracks ws w seen n s (
                in_window ws w n
                  (ap (λ (o : Option ReplayWindow). check_number ws o n) (sym known) ∙ e));
            among = ground arith;
          }
    ]
