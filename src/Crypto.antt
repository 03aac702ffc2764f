-- ===== src/Crypto.antt =====
-- crypto/: suites, key derivation, authenticated encryption and the inputs of both. Hashes, HKDF and the
-- ciphers themselves are Go's crypto library: a record of operations that the definitions take.
pub mod Suite
pub mod Aead
pub mod Control
use aurora_core.Common.{ℕ, ◌+◌, ◌≡◌, List, length}
use aurora_core.Errors.{Result, ok}

pub data Digest : Type 0 where
  sha256 sha384 sha512 : Digest

pub data Cipher : Type 0 where
  aes_gcm chacha20_poly1305 : Cipher

-- The library's operations: `seal` and `open_sealed` take the key, the nonce, the associated data and
-- the text, and `new_cipher` reports whether the library takes the key.
pub record Primitives : Type 0 where
  pub hash : Digest → List ℕ → List ℕ
  pub extract : Digest → List ℕ → List ℕ → Result (List ℕ)
  pub expand : Digest → List ℕ → List ℕ → ℕ → Result (List ℕ)
  pub new_cipher : Cipher → List ℕ → Result (Unit {0})
  pub seal : Cipher → List ℕ → List ℕ → List ℕ → List ℕ → List ℕ
  pub open_sealed : Cipher → List ℕ → List ℕ → List ℕ → List ℕ → Result (List ℕ)

-- What crypto/cipher documents of an AEAD: a sealed text opens to the text under the same key, nonce
-- and associated data, and sealing adds the tag's 16 bytes.
pub record IsAead (c : Primitives) : Type 0 where
  pub opens :
      (cipher : Cipher) (key nonce aad plaintext : List ℕ)
      → c.open_sealed cipher key nonce aad (c.seal cipher key nonce aad plaintext) ≡ ok plaintext
  pub adds_tag :
      (cipher : Cipher) (key nonce aad plaintext : List ℕ)
      → length (c.seal cipher key nonce aad plaintext) ≡ length plaintext + 16

-- What chacha20poly1305 documents of its keys: they have 256 bits, and New refuses others. (AES takes
-- keys of 16, 24 and 32 bytes, and the code checks the length itself.)
pub record TakesKeys (c : Primitives) : Type 0 where
  pub key_size : (key : List ℕ) → c.new_cipher chacha20_poly1305 key ≡ ok tt → length key ≡ 32
