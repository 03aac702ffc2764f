-- ===== src/Crypto/Control/Binding.antt =====
-- crypto/control.go: the associated data of a packet determines the packet's metadata.
use aurora_core.Common.{
  ℕ, ◌≤◌, ◌≡◌, sym, ap, ◌∙◌, arith, List, [], ◌∷◌, ◌++◌, append_assoc, leb, length, drop, get_or,
  drop-append_length, Bool-cases, inl, inr, leb→le,
}
use aurora_core.Common.Text.{ascii}
use aurora_core.Errors.{Result-cases, ok}
use aurora_core.Wire.Varint.{max_varint, append_varint, decode_varint}
use aurora_core.Wire.Varint.RoundTrip.{
  varint_bytes, append_varint-bytes, append_varint_fails, decode_varint-bytes,
}
use aurora_core.Crypto.Control.{packet_ad_preimage}

appended :
    (dst b : List ℕ) (v : ℕ)
    → append_varint dst v ≡ ok b
    → (v ≤ max_varint) × (b ≡ dst ++ varint_bytes v)
appended dst b v e = elim (Bool-cases (leb v max_varint)) [
  | inl fits ↦
      let h : v ≤ max_varint = leb→le v max_varint fits in
      (h, ground (arith, e, append_varint-bytes dst v h))
  | inr over ↦ absurd (ground (arith, over, e, append_varint_fails dst v))
]

-- The bytes after the label.
abbrev metadata : ℕ → ℕ → ℕ → ℕ → ℕ → List ℕ
metadata route hop direction phase number =
    varint_bytes route ++ (hop ∷ direction ∷ phase ∷ varint_bytes number)

pub preimage_metadata :
    (route hop direction phase number : ℕ) (b : List ℕ)
    → packet_ad_preimage route hop direction phase number ≡ ok b
    → (route ≤ max_varint)
      × (number ≤ max_varint)
      × (b ≡ ascii "aurora v2.0 packet" ++ metadata route hop direction phase number)
unfolding packet_ad_preimage
preimage_metadata route hop direction phase number b e =
    let label = ascii "aurora v2.0 packet" in
    let fixed = hop ∷ direction ∷ phase ∷ [] in
    elim (Result-cases (append_varint label route)) [
      | inl (mid, q) ↦
          let (p, f) = appended label mid route q in
          let ended : append_varint (mid ++ fixed) number ≡ ok b = ground (arith, e, q) in
          let (p', f') = appended (mid ++ fixed) b number ended in
          (
            p,
            p',
            f'
                ∙ ap (λ (x : List ℕ). (x ++ fixed) ++ varint_bytes number) f
                ∙ ap (λ (x : List ℕ). x ++ varint_bytes number)
                    (append_assoc label (varint_bytes route) fixed)
                ∙ append_assoc label (varint_bytes route ++ fixed) (varint_bytes number)
                ∙ ap (λ (x : List ℕ). label ++ x)
                    (append_assoc (varint_bytes route) fixed (varint_bytes number)),
          )
      | inr (x, q) ↦ absurd (ground (arith, e, q))
    ]

same_metadata :
    (r h d k n r' h' d' k' n' : ℕ)
    → r ≤ max_varint
    → n ≤ max_varint
    → r' ≤ max_varint
    → n' ≤ max_varint
    → metadata r h d k n ≡ metadata r' h' d' k' n'
    → (r ≡ r') × (h ≡ h') × (d ≡ d') × (k ≡ k') × (n ≡ n')
same_metadata r h d k n r' h' d' k' n' p q p' q' e =
    let rest = h ∷ d ∷ k ∷ varint_bytes n in
    let rest' = h' ∷ d' ∷ k' ∷ varint_bytes n' in
    let read =
      sym (decode_varint-bytes r rest p) ∙ ap decode_varint e ∙ decode_varint-bytes r' rest' p' in
    let same : r ≡ r' = cc read in
    let tail : rest ≡ rest' =
      sym (drop-append_length (varint_bytes r) rest)
      ∙ ap (λ (b : List ℕ). drop (length (varint_bytes r)) b) e
      ∙ ap (λ (x : ℕ). drop (length (varint_bytes x)) (varint_bytes r' ++ rest')) same
      ∙ drop-append_length (varint_bytes r') rest' in
    let last : varint_bytes n ≡ varint_bytes n' = ap (λ (b : List ℕ). drop 3 b) tail in
    let read' =
      sym (decode_varint-bytes n [] q)
      ∙ ap (λ (b : List ℕ). decode_varint (b ++ [])) last
      ∙ decode_varint-bytes n' [] q' in
    (
      same,
      ap (λ (b : List ℕ). get_or b 0 0) tail,
      ap (λ (b : List ℕ). get_or b 1 0) tail,
      ap (λ (b : List ℕ). get_or b 2 0) tail,
      cc read',
    )

-- Packets whose associated data are hashed from the same bytes have the same route instance, hop
-- layer, direction, key phase and packet number.
pub packet_ad_preimage_injective :
    (r h d k n r' h' d' k' n' : ℕ) (b : List ℕ)
    → packet_ad_preimage r h d k n ≡ ok b
    → packet_ad_preimage r' h' d' k' n' ≡ ok b
    → (r ≡ r') × (h ≡ h') × (d ≡ d') × (k ≡ k') × (n ≡ n')
packet_ad_preimage_injective r h d k n r' h' d' k' n' b e e' =
    let (p, q, f) = preimage_metadata r h d k n b e in
    let (p', q', f') = preimage_metadata r' h' d' k' n' b e' in
    same_metadata r h d k n r' h' d' k' n' p q p' q' (ap (λ (x : List ℕ). drop 18 x) (sym f ∙ f'))
