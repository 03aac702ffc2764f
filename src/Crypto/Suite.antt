-- ===== src/Crypto/Suite.antt =====
-- crypto/hash.go, crypto/hkdf.go: the hash of a suite, its lengths, and labelled key derivation.
use aurora_core.Common.{
  ℕ, ◌%◌, ◌^◌, ◌||◌, List, [], ◌∷◌, ◌++◌, ltb, ◌==◌, if◌then◌else◌, length, take, replicate, ◌-◌,
}
use aurora_core.Common.Text.{ascii}
use aurora_core.Errors.{
  Result, ok, fail, ◌>>=◌, unsupported_suite, hkdf_label_too_long, hkdf_context_too_long,
}
use aurora_core.Registry.{
  suite_hybrid768_aes_gcm, suite_hybrid768_p256_aes_gcm, suite_hybrid1024_aes_gcm,
  suite_hybrid768_chacha20, suite_hybrid768_p256_chacha20, suite_hybrid1024_chacha20,
  suite_lab_classical,
}
use aurora_core.Wire.Encoder.{◌>>◌, bytes, new_encoder, write_uint16, write_opaque8}
use aurora_core.Crypto.{Digest, sha256, sha384, sha512, Primitives}

-- The switch that SuiteHash, SuiteHashLength and the HKDF functions share.
unfoldable pub suite_digest : ℕ → Result Digest
suite_digest suite =
    if suite == suite_hybrid768_aes_gcm
      || suite == suite_hybrid768_p256_aes_gcm
      || suite == suite_hybrid768_chacha20
      || suite == suite_hybrid768_p256_chacha20
    then ok sha384
    else if suite == suite_hybrid1024_aes_gcm || suite == suite_hybrid1024_chacha20
    then ok sha512
    else if suite == suite_lab_classical
    then ok sha256
    else fail unsupported_suite

abbrev concat : List (List ℕ) → List ℕ
concat [] = []
concat (part ∷ parts) = part ++ concat parts

unfoldable pub pre_hash : Primitives → List (List ℕ) → List ℕ
pre_hash c parts = c.hash sha384 (concat parts)

unfoldable pub pre_hash_label : Primitives → List ℕ → List (List ℕ) → List ℕ
unfolding pre_hash
pre_hash_label c label parts = pre_hash c (label ∷ parts)

unfoldable pub truncate128 : List ℕ → List ℕ
truncate128 b = if ltb (length b) 16 then b ++ replicate (16 - length b) 0 else take 16 b

-- AppendSuiteHash with the storage left out.
unfoldable pub suite_hash : Primitives → ℕ → List (List ℕ) → Result (List ℕ)
suite_hash c suite parts = suite_digest suite >>= λ digest. ok (c.hash digest (concat parts))

abbrev pub digest_length : Digest → ℕ
digest_length sha256 = 32
digest_length sha384 = 48
digest_length sha512 = 64

unfoldable pub suite_hash_length : ℕ → Result ℕ
suite_hash_length suite = suite_digest suite >>= λ digest. ok (digest_length digest)

unfoldable pub aead_key_length : ℕ → Result ℕ
aead_key_length suite =
    if suite == suite_hybrid768_aes_gcm
      || suite == suite_hybrid768_p256_aes_gcm
      || suite == suite_hybrid1024_aes_gcm
      || suite == suite_lab_classical
    then ok 32
    else if suite == suite_hybrid768_chacha20
        || suite == suite_hybrid768_p256_chacha20
        || suite == suite_hybrid1024_chacha20
    then ok 32
    else fail unsupported_suite

unfoldable pub hkdf_extract_for_suite : Primitives → ℕ → List ℕ → List ℕ → Result (List ℕ)
hkdf_extract_for_suite c suite secret salt =
    suite_digest suite >>= λ digest. c.extract digest secret salt

unfoldable pub hkdf_expand_label :
    Primitives → Digest → List ℕ → List ℕ → List ℕ → ℕ → Result (List ℕ)
hkdf_expand_label c digest secret label context n =
    let full_label = ascii "aurora " ++ label in
    if ltb 255 (length full_label)
    then fail hkdf_label_too_long
    else if ltb 255 (length context)
    then fail hkdf_context_too_long
    else (bytes (
          (write_uint16 (n % 2 ^ 16) >> write_opaque8 full_label >> write_opaque8 context)
            new_encoder)
        >>= λ info. c.expand digest secret info n)

unfoldable pub hkdf_expand_label_for_suite :
    Primitives → ℕ → List ℕ → List ℕ → List ℕ → ℕ → Result (List ℕ)
hkdf_expand_label_for_suite c suite secret label context n =
    suite_digest suite >>= λ digest. hkdf_expand_label c digest secret label context n
