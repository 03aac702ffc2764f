-- ===== src/Tests/Crypto.antt =====
-- crypto/: nonces and associated data at concrete inputs.
use aurora_core.Common.{ℕ, ◌≡◌, refl, arith, List, [], ◌∷◌, ◌++◌, replicate}
use aurora_core.Errors.{ok}
use aurora_core.Crypto.Aead.{xor_nonce96}
use aurora_core.Crypto.Aead.Nonce.{xor_nonce96_injective}
use aurora_core.Crypto.Control.{packet_ad_preimage}
use aurora_core.Crypto.Control.Binding.{packet_ad_preimage_injective}

nonce_of_258 : xor_nonce96 (replicate 12 1) 258 ≡ ok (replicate 10 1 ++ 0 ∷ 3 ∷ [])
unfolding xor_nonce96
nonce_of_258 = refl

xor_nonce96_injective_example : ◌≡◌ {A = ℕ} 258 258
xor_nonce96_injective_example =
    xor_nonce96_injective (replicate 12 1) (replicate 10 1 ++ 0 ∷ 3 ∷ []) 258 258 (omega arith)
      (omega arith) nonce_of_258 nonce_of_258

abbrev preimage_bytes : List ℕ
preimage_bytes =
    97 ∷ 117 ∷ 114 ∷ 111 ∷ 114 ∷ 97 ∷ 32 ∷ 118 ∷ 50 ∷ 46 ∷ 48 ∷ 32 ∷ 112 ∷ 97 ∷ 99 ∷ 107 ∷ 101 ∷ 116
    ∷ 65 ∷ 44 ∷ 1 ∷ 0 ∷ 2 ∷ 7 ∷ []

preimage_of_packet : packet_ad_preimage 300 1 0 2 7 ≡ ok preimage_bytes
unfolding packet_ad_preimage aurora_core.Wire.Varint.append_varint
preimage_of_packet = refl

packet_ad_preimage_injective_example :
    ◌≡◌ {A = ℕ} 300 300 × ◌≡◌ {A = ℕ} 1 1 × ◌≡◌ {A = ℕ} 0 0 × ◌≡◌ {A = ℕ} 2 2 × ◌≡◌ {A = ℕ} 7 7
packet_ad_preimage_injective_example =
    packet_ad_preimage_injective 300 1 0 2 7 300 1 0 2 7 preimage_bytes preimage_of_packet
      preimage_of_packet
