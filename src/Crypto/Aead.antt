-- ===== src/Crypto/Aead.antt =====
-- crypto/aead.go: the cipher of a suite under a key, and packet nonces.
pub mod Nonce
use aurora_core.Common.{
  ℕ, zero, suc, ◌+◌, ◌*◌, ◌-◌, ◌/◌, ◌%◌, ◌^◌, bit_xor, Bool, true, false, not, ◌||◌, List, [], ◌∷◌,
  ◌++◌, ltb, ◌==◌, if◌then◌else◌, length, get_or,
}
use aurora_core.Common.{set as update}
use aurora_core.Common.Words.{byte}
use aurora_core.Errors.{
  Error, Result, ok, fail, ◌>>=◌, unsupported_suite, aes_key_length, nonce_length, static_iv_length,
}
use aurora_core.Registry.{
  suite_hybrid768_aes_gcm, suite_hybrid768_p256_aes_gcm, suite_hybrid1024_aes_gcm,
  suite_hybrid768_chacha20, suite_hybrid768_p256_chacha20, suite_hybrid1024_chacha20,
  suite_lab_classical,
}
use aurora_core.Crypto.{Cipher, aes_gcm, chacha20_poly1305, Primitives}

-- An AEAD is its cipher and its key; its name only feeds messages.
pub record SuiteAead : Type 0 where
  pub cipher : Cipher
  pub key : List ℕ

unfoldable pub aes256_gcm : Primitives → List ℕ → Result SuiteAead
aes256_gcm c key =
    if not (length key == 32)
    then fail aes_key_length
    else (c.new_cipher aes_gcm key >>= λ _. ok (record { cipher = aes_gcm; key = key }))

unfoldable pub new_suite_aead : Primitives → ℕ → List ℕ → Result SuiteAead
unfolding aes256_gcm
new_suite_aead c suite key =
    if suite == suite_hybrid768_aes_gcm
      || suite == suite_hybrid768_p256_aes_gcm
      || suite == suite_hybrid1024_aes_gcm
    then aes256_gcm c key
    else if suite == suite_hybrid768_chacha20
        || suite == suite_hybrid768_p256_chacha20
        || suite == suite_hybrid1024_chacha20
        || suite == suite_lab_classical
    then (c.new_cipher chacha20_poly1305 key >>= λ _.
        ok (record { cipher = chacha20_poly1305; key = key }))
    else fail unsupported_suite

-- Both ciphers take nonces of 12 bytes.
abbrev pub nonce_size : ℕ
nonce_size = 12

unfoldable pub aead_seal : Primitives → SuiteAead → List ℕ → List ℕ → List ℕ → Result (List ℕ)
aead_seal c a nonce aad plaintext =
    if not (length nonce == nonce_size)
    then fail nonce_length
    else ok (c.seal a.cipher a.key nonce aad plaintext)

unfoldable pub aead_open : Primitives → SuiteAead → List ℕ → List ℕ → List ℕ → Result (List ℕ)
aead_open c a nonce aad ciphertext_and_tag =
    if not (length nonce == nonce_size)
    then fail nonce_length
    else c.open_sealed a.cipher a.key nonce aad ciphertext_and_tag

unfoldable pub seal_for_suite : Primitives → ℕ → List ℕ → List ℕ → List ℕ → List ℕ → Result (List ℕ)
seal_for_suite c suite key nonce aad plaintext =
    new_suite_aead c suite key >>= λ a. aead_seal c a nonce aad plaintext

unfoldable pub open_for_suite : Primitives → ℕ → List ℕ → List ℕ → List ℕ → List ℕ → Result (List ℕ)
open_for_suite c suite key nonce aad ciphertext_and_tag =
    new_suite_aead c suite key >>= λ a. aead_open c a nonce aad ciphertext_and_tag

-- The loop of AppendXORNonce96: the first `count` of its rounds, on the last bytes of `out`.
unfoldable pub xor_bytes : ℕ → List ℕ → ℕ → List ℕ
xor_bytes zero out n = out
xor_bytes (suc i) out n =
    let rest = xor_bytes i out n in
    let at = length out - 1 - i in
    update rest at (bit_xor (get_or rest at 0) (byte (n / 2 ^ (8 * i))))

unfoldable pub xor_nonce96 : List ℕ → ℕ → Result (List ℕ)
unfolding xor_bytes
xor_nonce96 static_iv n =
    if not (length static_iv == 12) then fail static_iv_length else ok (xor_bytes 8 static_iv n)
