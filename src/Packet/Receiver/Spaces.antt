-- ===== src/Packet/Receiver/Spaces.antt =====
-- packet/receiver.go: packet number spaces, and Go's maps from them as association lists.
use aurora_core.Common.{
  ℕ, ◌≡◌, refl, sym, ap, ◌∙◌, arith, Bool, true, false, ◌&&◌, Option, none, some, List, [], ◌∷◌,
  ◌==◌, if◌then◌else◌, Bool-cases, inl, inr,
}
use aurora_core.Packet.Codec.{AuroraPacket}

pub record Space : Type 0 where
  pub route_instance_id : ℕ
  pub hop_layer : ℕ
  pub direction : ℕ
  pub key_phase : ℕ

abbrev pub packet_number_space : AuroraPacket → Space
packet_number_space pkt = record {
  route_instance_id = pkt.route_instance_id;
  hop_layer = pkt.hop_layer;
  direction = pkt.direction;
  key_phase = pkt.key_phase;
}

abbrev pub same_space : Space → Space → Bool
same_space a b =
    a.route_instance_id == b.route_instance_id
    && a.hop_layer == b.hop_layer
    && a.direction == b.direction
    && a.key_phase == b.key_phase

pub same_space_refl : (a : Space) → same_space a a ≡ true
same_space_refl a = ground arith

pub same_space→eq : (a b : Space) → same_space a b ≡ true → a ≡ b
same_space→eq a b h = ground (arith, h)

module _ {ℓ} {A : Type ℓ} where
  unfoldable pub find : Space → List (Space × A) → Option A
  find key [] = none
  find key ((k, v) ∷ rest) = if same_space key k then some v else find key rest

  unfoldable pub delete : Space → List (Space × A) → List (Space × A)
  delete key [] = []
  delete key ((k, v) ∷ rest) =
      let kept = delete key rest in if same_space key k then kept else (k, v) ∷ kept

  unfoldable pub put : Space → A → List (Space × A) → List (Space × A)
  unfolding delete
  put key v entries = (key, v) ∷ delete key entries

  pub find-delete_other :
      (key other : Space) (entries : List (Space × A))
      → same_space key other ≡ false
      → find key (delete other entries) ≡ find key entries
  unfolding find delete
  find-delete_other key other [] h = refl
  find-delete_other key other ((k, v) ∷ rest) h = elim (Bool-cases (same_space other k)) [
    | inl gone ↦
        let e = same_space→eq other k gone in
        let differs : same_space key k ≡ false = ap (λ (x : Space). same_space key x) (sym e) ∙ h in
        ground (arith, gone, differs, find-delete_other key other rest h)
    | inr kept ↦ ground (arith, kept, find-delete_other key other rest h)
  ]

  pub find-put_self :
      (key : Space) (v : A) (entries : List (Space × A)) → find key (put key v entries) ≡ some v
  unfolding find put
  find-put_self key v entries = ground (arith, same_space_refl key)

  pub find-put_other :
      (key other : Space) (v : A) (entries : List (Space × A))
      → same_space key other ≡ false
      → find key (put other v entries) ≡ find key entries
  unfolding find put
  find-put_other key other v entries h = ground (arith, h, find-delete_other key other entries h)

pub find-delete_self {ℓ} :
    {A : Type ℓ} (key : Space) (entries : List (Space × A)) → find key (delete key entries) ≡ none
unfolding find delete
find-delete_self key [] = refl
find-delete_self key ((k, v) ∷ rest) = ground (arith, find-delete_self key rest)
