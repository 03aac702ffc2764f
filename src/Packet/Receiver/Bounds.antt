-- ===== src/Packet/Receiver/Bounds.antt =====
-- packet/receiver.go: the memory of a receiver's windows is bounded.
use aurora_core.Common.{
  ℕ, ◌+◌, ◌/◌, ◌≤◌, ◌≡◌, refl, sym, ap, ◌∙◌, arith, subst, Bool, Option, none, some, List,
  Bool-cases, inl, inr, length, length-replicate, replicate,
}
use aurora_core.Crypto.{Primitives}
use aurora_core.Packet.Window.{ReplayWindow, mark_number, advance}
use aurora_core.Packet.Window.Ring.{length-advance, length-set_window}
use aurora_core.Packet.Protector.{Protector}
use aurora_core.Packet.Receiver.{
  Receiver, PacketNumberKey, new_receiver, clamp_window_size, max_receiver_window_size, destroy,
  forget_packet_number_space,
}
use aurora_core.Packet.Receiver.Spaces.{
  Space, same_space, same_space→eq, find, find-put_self, find-put_other, find-delete_other,
}
use aurora_core.Packet.Receiver.Preparing.{prepares_keeps}
use aurora_core.Packet.Receiver.Memory.{put_mark}
use aurora_core.Packet.Receiver.Once.{
  Step, Reach, commits, prepares, forgets, destroys, committed, vanished, empty,
}

abbrev words : ℕ → ℕ
words window_size = (window_size + 1 + 63) / 64

length-mark_number :
    (ws n : ℕ) (o : Option ReplayWindow)
    → ((w : ReplayWindow) → o ≡ some w → length w.bits ≡ words ws)
    → length (mark_number ws o n).bits ≡ words ws
unfolding mark_number
length-mark_number ws n none h =
    length-set_window (record { highest = n; bits = replicate (words ws) 0 }) n (ws + 1)
    ∙ length-replicate {A = ℕ} (words ws) 0
length-mark_number ws n (some w) h = ground (
  arith,
  h w refl,
  length-set_window (advance w n (ws + 1)) n (ws + 1),
  length-advance w n (ws + 1),
  length-set_window w n (ws + 1),
)

-- The window's size is from 1 to 2^20, and every bitmap has a bit for each number of a window, and
-- less than a word more.
pub record IsBounded (r : Receiver) : Type 0 where
  pub positive : 1 ≤ r.window_size
  pub at_most : r.window_size ≤ max_receiver_window_size
  pub slots : r.window_bits ≡ r.window_size + 1
  pub sized :
      (space : Space) (w : ReplayWindow)
      → find space r.windows ≡ some w
      → length w.bits ≡ words r.window_size

mark-IsBounded : (r : Receiver) (key : PacketNumberKey) → IsBounded r → IsBounded (put_mark r key)
mark-IsBounded r key b = record {
  positive = b.positive;
  at_most = b.at_most;
  slots = b.slots;
  sized = λ space w e. elim (Bool-cases (same_space space key.space)) [
    | inr other ↦ b.sized space w (sym (find-put_other space key.space _ r.windows other) ∙ e)
    | inl same ↦
        let at : find key.space (put_mark r key).windows ≡ some w =
          ap (λ (x : Space). find x (put_mark r key).windows)
            (sym (same_space→eq space key.space same))
          ∙ e in
        let now : mark_number r.window_size (find key.space r.windows) key.packet_number ≡ w =
          ground (arith, sym (find-put_self key.space _ r.windows) ∙ at) in
        ap (λ (v : ReplayWindow). length v.bits) (sym now)
        ∙ length-mark_number r.window_size key.packet_number (find key.space r.windows)
            (b.sized key.space)
  ];
}

Step-IsBounded :
    (c : Primitives) (may_forget : Space → Bool) (r t : Receiver)
    → IsBounded r
    → Step c may_forget r t
    → IsBounded t
unfolding forget_packet_number_space destroy
Step-IsBounded c may_forget r t b (commits prepared used e) =
    subst IsBounded (committed r t prepared used e).2 (mark-IsBounded r prepared.key b)
Step-IsBounded c may_forget r t b (prepares pkt state suite now e) =
    let k = prepares_keeps c r pkt state suite now in
    subst IsBounded e (record {
      positive = omega (arith, b.positive, k.size_same);
      at_most = omega (arith, b.at_most, k.size_same);
      slots = omega (arith, b.slots, k.size_same, k.bits_same);
      sized = λ space w f.
          b.sized space w
            (ap (λ (x : List (Space × ReplayWindow)). find space x) (sym k.windows_same) ∙ f)
          ∙ ap words (sym k.size_same);
    })
Step-IsBounded c may_forget r t b (forgets space may e) = subst IsBounded e (record {
  positive = b.positive;
  at_most = b.at_most;
  slots = b.slots;
  sized = λ other w f. elim (Bool-cases (same_space other space)) [
    | inl same ↦ absurd (vanished space other w r same f)
    | inr apart ↦ b.sized other w (sym (find-delete_other other space r.windows apart) ∙ f)
  ];
})
Step-IsBounded c may_forget r t b (destroys e) = subst IsBounded e (record {
  positive = b.positive;
  at_most = b.at_most;
  slots = b.slots;
  sized = λ space w f. absurd (empty space w f);
})

clamped : (n : ℕ) → (1 ≤ clamp_window_size n) × (clamp_window_size n ≤ max_receiver_window_size)
unfolding clamp_window_size
clamped n = ground arith

-- Whatever window size a receiver is made with, and after any calls, its window size is from 1 to 2^20
-- and each of its bitmaps has the words for a bit of every number of a window.
pub reach-IsBounded :
    (c : Primitives) (may_forget : Space → Bool) (identity window_size : ℕ) (source : Protector)
    (r : Receiver)
    → Reach c may_forget (new_receiver c identity source window_size) r
    → IsBounded r
unfolding new_receiver
reach-IsBounded c may_forget identity window_size source r Reach.here =
    let (low, high) = clamped window_size in
    record {
      positive = low;
      at_most = high;
      slots = refl;
      sized = λ space w e. absurd (empty space w e);
    }
reach-IsBounded c may_forget identity window_size source r (Reach.next before step) =
    Step-IsBounded c may_forget _ r
      (reach-IsBounded c may_forget identity window_size source _ before) step
