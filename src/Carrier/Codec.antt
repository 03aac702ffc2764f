-- ===== src/Carrier/Codec.antt =====
-- carrier/codec.go: messages are read back as they were written.
use aurora_core.Common.{
  ℕ, ◌+◌, ◌^◌, ◌<◌, ◌≡◌, refl, sym, ap, ◌∙◌, arith, List, ◌∷◌, ◌++◌, length, length-append, take,
  drop, take-append_length, drop-append_length, drop-add,
}
use aurora_core.Common.Words.{byte, shr, join4, join4-32, join8-64}
use aurora_core.Errors.{ok}
use aurora_core.Wire.Encoder.{encode_uint64}
use aurora_core.Carrier.{
  token_nonce_length, redemption_context_length, issue_request_length, metadata_hash_length,
  big_endian64, encode_issue_request, decode_issue_request, encode_metadata_response,
  decode_metadata_response,
}

big_endian64-encode_uint64 : (v : ℕ) → v < 2 ^ 64 → big_endian64 (encode_uint64 v) ≡ v
unfolding encode_uint64
big_endian64-encode_uint64 v h =
    join8-64 (byte (shr v 56)) (byte (shr v 48)) (byte (shr v 40)) (byte (shr v 32))
      (byte (shr v 24)) (byte (shr v 16)) (byte (shr v 8)) (byte v) (omega arith)
    ∙ omega arith

size_of_uint64 : (v : ℕ) → length (encode_uint64 v) ≡ 8
unfolding encode_uint64
size_of_uint64 v = refl

-- An issue request with a nonce of 32 bytes, a context of 48 and an expiry of 64 bits is encoded, and
-- decodes to its parts.
pub encode_issue_request-decode :
    (nonce context : List ℕ) (expiry : ℕ)
    → length nonce ≡ token_nonce_length
    → length context ≡ redemption_context_length
    → expiry < 2 ^ 64
    → (b : List ℕ) × (encode_issue_request nonce context expiry ≡ ok b)
      × (decode_issue_request b ≡ ok (nonce, context, expiry))
unfolding encode_issue_request decode_issue_request
encode_issue_request-decode nonce context expiry h g v =
    let tail = encode_uint64 expiry in
    let b = nonce ++ (context ++ tail) in
    let first = ap (λ (n : ℕ). take n b) (sym h) ∙ take-append_length nonce (context ++ tail) in
    let rest = ap (λ (n : ℕ). drop n b) (sym h) ∙ drop-append_length nonce (context ++ tail) in
    let second =
      ap (take redemption_context_length) rest
      ∙ ap (λ (n : ℕ). take n (context ++ tail)) (sym g)
      ∙ take-append_length context tail in
    let third =
      drop-add token_nonce_length redemption_context_length b
      ∙ ap (drop redemption_context_length) rest
      ∙ ap (λ (n : ℕ). drop n (context ++ tail)) (sym g)
      ∙ drop-append_length context tail in
    let value = ap big_endian64 third ∙ big_endian64-encode_uint64 expiry v in
    let size : length b ≡ issue_request_length = omega (
      arith,
      length-append nonce (context ++ tail),
      length-append context tail,
      size_of_uint64 expiry,
    ) in
    (b, ground (arith, h, g), ground (arith, size, first, second, value))

-- Metadata of at most 2^32 - 1 bytes with a hash of 48 is encoded, and decodes to the two.
pub encode_metadata_response-decode :
    (encoded hash : List ℕ)
    → length encoded < 2 ^ 32
    → length hash ≡ metadata_hash_length
    → (b : List ℕ) × (encode_metadata_response encoded hash ≡ ok b)
      × (decode_metadata_response b ≡ ok (encoded, hash))
unfolding encode_metadata_response decode_metadata_response
encode_metadata_response-decode encoded hash h g =
    let n = length encoded in
    let value : join4 32 (byte (shr n 24)) (byte (shr n 16)) (byte (shr n 8)) (byte n) ≡ n =
      join4-32 (byte (shr n 24)) (byte (shr n 16)) (byte (shr n 8)) (byte n) (omega arith)
        (omega arith) (omega arith) (omega arith)
      ∙ omega arith in
    let b = byte (shr n 24) ∷ byte (shr n 16) ∷ byte (shr n 8) ∷ byte n ∷ (encoded ++ hash) in
    let first = ap (λ (k : ℕ). take k (encoded ++ hash)) value ∙ take-append_length encoded hash in
    let rest =
      ap (λ (k : ℕ). drop (4 + k) b) value ∙ drop-add 4 n b ∙ drop-append_length encoded hash in
    (b, ground (arith, h, g), ground (arith, value, g, length-append encoded hash, first, rest))
