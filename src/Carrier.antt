-- ===== src/Carrier.antt =====
-- carrier/codec.go: the messages carried over a cover exchange.
pub mod Codec
use aurora_core.Common.{
  ℕ, ◌+◌, ◌-◌, ◌%◌, ◌^◌, Bool, true, false, not, ◌||◌, Option, List, [], ◌∷◌, ◌++◌, ltb, ◌==◌,
  if◌then◌else◌, length, take, drop, get_or,
}
use aurora_core.Common.Words.{byte, shr, join4, join8}
use aurora_core.Errors.{
  Error, Result, ok, fail, empty_body, token_nonce_length_wrong, redemption_context_length_wrong,
  issue_request_length_wrong, metadata_hash_length_wrong, metadata_too_large,
  metadata_length_missing, metadata_length_mismatch,
}
use aurora_core.Wire.Encoder.{encode_uint64}
use aurora_core.Protocol.Frames.{max_int}

abbrev pub token_nonce_length : ℕ
token_nonce_length = 32

abbrev pub redemption_context_length : ℕ
redemption_context_length = 48

abbrev pub issue_request_length : ℕ
issue_request_length = token_nonce_length + redemption_context_length + 8

abbrev pub metadata_hash_length : ℕ
metadata_hash_length = 48

unfoldable pub encode_carried : ℕ → List ℕ → List ℕ
encode_carried kind payload = kind ∷ payload

unfoldable pub decode_carried : List ℕ → Result (ℕ × List ℕ)
decode_carried [] = fail empty_body
decode_carried (kind ∷ payload) = ok (kind, payload)

unfoldable pub encode_issue_request : List ℕ → List ℕ → ℕ → Result (List ℕ)
unfolding encode_uint64
encode_issue_request token_nonce redemption_context_hash expiry_unix =
    if not (length token_nonce == token_nonce_length)
    then fail token_nonce_length_wrong
    else if not (length redemption_context_hash == redemption_context_length)
    then fail redemption_context_length_wrong
    else ok (token_nonce ++ (redemption_context_hash ++ encode_uint64 expiry_unix))

-- binary.BigEndian.Uint32 and Uint64.
abbrev pub big_endian32 : List ℕ → ℕ
big_endian32 b = join4 32 (get_or b 0 0) (get_or b 1 0) (get_or b 2 0) (get_or b 3 0)

abbrev pub big_endian64 : List ℕ → ℕ
big_endian64 b =
    join8 64 (get_or b 0 0) (get_or b 1 0) (get_or b 2 0) (get_or b 3 0) (get_or b 4 0)
      (get_or b 5 0) (get_or b 6 0) (get_or b 7 0)

unfoldable pub decode_issue_request : List ℕ → Result (List ℕ × List ℕ × ℕ)
decode_issue_request payload =
    if not (length payload == issue_request_length)
    then fail issue_request_length_wrong
    else ok (
      take token_nonce_length payload,
      take redemption_context_length (drop token_nonce_length payload),
      big_endian64 (drop (token_nonce_length + redemption_context_length) payload),
    )

unfoldable pub encode_metadata_response : List ℕ → List ℕ → Result (List ℕ)
encode_metadata_response encoded hash =
    let n = length encoded in
    if not (length hash == metadata_hash_length)
    then fail metadata_hash_length_wrong
    else if ltb (2 ^ 32 - 1) n || ltb (max_int - 4 - metadata_hash_length) n
    then fail metadata_too_large
    else ok (byte (shr n 24) ∷ byte (shr n 16) ∷ byte (shr n 8) ∷ byte n ∷ (encoded ++ hash))

unfoldable pub decode_metadata_response : List ℕ → Result (List ℕ × List ℕ)
decode_metadata_response payload =
    let n = big_endian32 payload in
    if ltb (length payload) 4
    then fail metadata_length_missing
    else if not (length payload == 4 + n + metadata_hash_length)
    then fail metadata_length_mismatch
    else ok (take n (drop 4 payload), drop (4 + n) payload)
