-- ===== src/Packet/Protector/Sealed.antt =====
-- packet/packet.go: what a packet that Seal returns consists of.
use aurora_core.Common.{
  ℕ, ◌≤◌, ◌≡◌, refl, sym, ap, ◌∙◌, arith, some, List, length, Bool-cases, Option-cases, inl, inr,
  ◌⊎◌,
}
use aurora_core.Errors.{Error, Result, Result-cases, ok, fail}
use aurora_core.Wire.Encoder.{encode_with_reserved_capacity, encode}
use aurora_core.Protocol.Frames.{FrameBlock, block_encoded_len, encode_block}
use aurora_core.Protocol.Frames.Codec.{encode_frame_block_lem, encode_expecting_lem}
use aurora_core.Protocol.Validate.{validate_frame_block_for_direction}
use aurora_core.Crypto.{Primitives}
use aurora_core.Crypto.Aead.{SuiteAead, new_suite_aead, aead_seal, xor_nonce96}
use aurora_core.Crypto.Control.{packet_ad}
use aurora_core.Packet.Codec.{AuroraPacket, packet_auth_tag_bytes}
use aurora_core.Packet.Protector.{Protector, cached_aead, with_cache, cache_hit, fill_cache}
use aurora_core.Packet.Protector.Sealing.{
  SealInput, seal, seal_input, seal_with, finish_seal, encode_frame_block_for_seal, sealed_packet,
  next_number,
}

pub for_seal_lem :
    (block : FrameBlock) → encode_frame_block_for_seal block ≡ encode (encode_block block)
unfolding encode_frame_block_for_seal encode_with_reserved_capacity
for_seal_lem block = elim (Option-cases (block_encoded_len block)) [
  | inl e ↦ ground (arith, e, encode_frame_block_lem block)
  | inr (n, e) ↦
      ground
        (arith, e, encode_frame_block_lem block, encode_expecting_lem (encode_block block) (some n))
]

-- A protector with a cache and without one differ in nothing else.
pub cached_keeps :
    (c : Primitives) (p : Protector)
    → ((cached_aead c p).1 ≡ p) ⊎ ((a : SuiteAead) × ((cached_aead c p).1 ≡ with_cache p a))
unfolding cached_aead fill_cache
cached_keeps c p = elim (Option-cases p.aead) [
  | inl empty ↦ elim (Result-cases (new_suite_aead c p.suite p.key)) [
    | inl (a, made) ↦ inr (a, ground (arith, empty, made))
    | inr (x, refused) ↦ inl (ground (arith, empty, refused))
  ]
  | inr (kept, e) ↦ elim (Bool-cases (cache_hit p)) [
    | inl current ↦ inl (ground (arith, e, current))
    | inr stale ↦ elim (Result-cases (new_suite_aead c p.suite p.key)) [
      | inl (a, made) ↦ inr (a, ground (arith, e, stale, made))
      | inr (x, refused) ↦ inl (ground (arith, e, stale, refused))
    ]
  ]
]

pub record Input (c : Primitives) (p : Protector) (block : FrameBlock) (input : SealInput)
    : Type 0 where
  pub valid : validate_frame_block_for_direction block p.direction ≡ ok tt
  pub encoded : encode (encode_block block) ≡ ok input.plaintext
  pub ad :
      packet_ad c p.suite p.route_instance_id p.hop_layer p.direction p.key_phase p.next_packet
      ≡ ok input.aad
  pub number : xor_nonce96 p.static_iv p.next_packet ≡ ok input.nonce

abbrev input_with : List ℕ → List ℕ → List ℕ → SealInput
input_with plaintext aad nonce = record { plaintext = plaintext; aad = aad; nonce = nonce }

pub Input-parts :
    (c : Primitives) (p : Protector) (block : FrameBlock) (input : SealInput)
    → seal_input c p block ≡ ok input
    → Input c p block input
unfolding seal_input
Input-parts c p block input e =
    elim (Result-cases (validate_frame_block_for_direction block p.direction)) [
      | inr (x, q) ↦ absurd (ground (arith, e, q))
      | inl (u, v) ↦ elim (Result-cases (encode_frame_block_for_seal block)) [
        | inr (x, q) ↦ absurd (ground (arith, e, v, q))
        | inl (plaintext, w) ↦
            elim (Result-cases (
              packet_ad c p.suite p.route_instance_id p.hop_layer p.direction p.key_phase
                p.next_packet)) [
                  | inr (x, q) ↦ absurd (ground (arith, e, v, w, q))
                  | inl (aad, y) ↦ elim (Result-cases (xor_nonce96 p.static_iv p.next_packet)) [
                    | inr (x, q) ↦ absurd (ground (arith, e, v, w, y, q))
                    | inl (nonce, z) ↦
                        let built : input_with plaintext aad nonce ≡ input =
                          ground (arith, e, v, w, y, z) in
                        record {
                          valid = v;
                          encoded =
                              sym (for_seal_lem block)
                              ∙ w
                              ∙ ap (λ (i : SealInput). ok i.plaintext) built;
                          ad = y ∙ ap (λ (i : SealInput). ok i.aad) built;
                          number = z ∙ ap (λ (i : SealInput). ok i.nonce) built;
                        }
                  ]
                ]
      ]
    ]

pub record Sealed (c : Primitives) (p : Protector) (block : FrameBlock) (pkt : AuroraPacket)
    (q : Protector) : Type 0 where
  pub input : SealInput
  pub parts : Input c p block input
  pub cipher : SuiteAead
  pub made : (cached_aead c p).0 ≡ ok cipher
  pub text : List ℕ
  pub locked : aead_seal c cipher input.nonce input.aad input.plaintext ≡ ok text
  pub tagged : packet_auth_tag_bytes ≤ length text
  pub packet : sealed_packet (cached_aead c p).1 text ≡ pkt
  pub left : next_number (cached_aead c p).1 ≡ q

pub finish_seal-ok :
    (p q : Protector) (r : Result (List ℕ)) (pkt : AuroraPacket)
    → finish_seal p r ≡ (ok pkt, q)
    → (text : List ℕ) × (r ≡ ok text)
      × (packet_auth_tag_bytes ≤ length text)
      × (sealed_packet p text ≡ pkt)
      × (next_number p ≡ q)
unfolding finish_seal
finish_seal-ok p q (fail x) pkt e = absurd (ground (arith, e))
finish_seal-ok p q (ok text) pkt e =
    (text, refl, ground (arith, e), ground (arith, e), ground (arith, e))

seal_with_ok :
    (c : Primitives) (i : SealInput) (r : Result SuiteAead × Protector) (a : SuiteAead)
    → r.0 ≡ ok a
    → seal_with c i r ≡ finish_seal r.1 (aead_seal c a i.nonce i.aad i.plaintext)
unfolding seal_with
seal_with_ok c i r a e = ap (λ (x : Result SuiteAead). seal_with c i (x, r.1)) e

seal_with_fail :
    (c : Primitives) (i : SealInput) (r : Result SuiteAead × Protector) (x : Error)
    → r.0 ≡ fail x
    → seal_with c i r ≡ (fail x, r.1)
unfolding seal_with
seal_with_fail c i r x e = ap (λ (y : Result SuiteAead). seal_with c i (y, r.1)) e

pub sealed :
    (c : Primitives) (p q : Protector) (block : FrameBlock) (pkt : AuroraPacket)
    → seal c p block ≡ (ok pkt, q)
    → Sealed c p block pkt q
unfolding seal
sealed c p q block pkt e = elim (Result-cases (seal_input c p block)) [
  | inr (x, i) ↦ absurd (ground (arith, e, i))
  | inl (input, i) ↦
      let g : seal_with c input (cached_aead c p) ≡ (ok pkt, q) = ground (arith, e, i) in
      elim (Result-cases (cached_aead c p).0) [
        | inr (x, m) ↦
            absurd
              (let z = sym (seal_with_fail c input (cached_aead c p) x m) ∙ g in ground (arith, z))
        | inl (a, m) ↦
            let f : finish_seal (cached_aead c p).1
                  (aead_seal c a input.nonce input.aad input.plaintext)
                ≡ (ok pkt, q) =
              sym (seal_with_ok c input (cached_aead c p) a m) ∙ g in
            let (text, l, t, k, n) = finish_seal-ok _ q _ pkt f in
            record {
              input = input;
              parts = Input-parts c p block input i;
              cipher = a;
              made = m;
              text = text;
              locked = l;
              tagged = t;
              packet = k;
              left = n;
            }
      ]
]

pub cached_packet :
    (c : Primitives) (p : Protector) (text : List ℕ)
    → sealed_packet (cached_aead c p).1 text ≡ sealed_packet p text
cached_packet c p text = elim (cached_keeps c p) [
  | inl e ↦ ap (λ (x : Protector). sealed_packet x text) e
  | inr (a, e) ↦ ap (λ (x : Protector). sealed_packet x text) e
]
