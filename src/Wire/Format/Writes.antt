-- ===== src/Wire/Format/Writes.antt =====
-- The bytes that each encoder method appends (wire/encoder.go).
use aurora_core.Common.{
  All, sym, append-nil, ℕ, ◌≤◌, ◌≡◌, refl, ap, ◌∙◌, arith, Bool, true, false, none, List, [], ◌∷◌,
  ◌++◌, append_assoc, length,
}
use aurora_core.Common.Words.{byte, shr}
use aurora_core.Errors.{ok}
use aurora_core.Wire.Varint.{max_varint}
use aurora_core.Wire.Varint.RoundTrip.{varint_bytes, append_varint-bytes}
use aurora_core.Wire.Encoder.{
  Write, ◌>>◌, write_bytes, write_uint8, write_bool, write_uint16, write_uint24, write_uint32,
  write_uint64, encode_uint64, write_varint, write_opaque_fixed, write_opaque8, write_opaque16,
  write_opaque24, write_pre_hash, write_each, encode,
}

-- On an encoder with no error, `w` appends exactly `bs`.
abbrev pub Writes : Write → List ℕ → Type 0
Writes w bs =
    (buf : List ℕ) → w (record { buf = buf; err = none }) ≡ record { buf = buf ++ bs; err = none }

pub Writes-seq :
    (w u : Write) (bs cs : List ℕ) → Writes w bs → Writes u cs → Writes (w >> u) (bs ++ cs)
Writes-seq w u bs cs hw hu buf =
    ap u (hw buf)
    ∙ hu (buf ++ bs)
    ∙ ap (λ b. record { buf = b; err = none }) (append_assoc buf bs cs)

pub Writes-bytes : (b : List ℕ) → Writes (write_bytes b) b
unfolding write_bytes
Writes-bytes b buf = refl

pub Writes-uint8 : (v : ℕ) → Writes (write_uint8 v) (v ∷ [])
unfolding write_uint8
Writes-uint8 v buf = refl

abbrev pub bool_byte : Bool → ℕ
bool_byte true = 1
bool_byte false = 0

pub Writes-bool : (v : Bool) → Writes (write_bool v) (bool_byte v ∷ [])
unfolding write_bool
Writes-bool true buf = Writes-uint8 1 buf
Writes-bool false buf = Writes-uint8 0 buf

abbrev pub uint16_bytes : ℕ → List ℕ
uint16_bytes v = byte (shr v 8) ∷ byte v ∷ []

abbrev pub uint24_bytes : ℕ → List ℕ
uint24_bytes v = byte (shr v 16) ∷ byte (shr v 8) ∷ byte v ∷ []

abbrev pub uint32_bytes : ℕ → List ℕ
uint32_bytes v = byte (shr v 24) ∷ byte (shr v 16) ∷ byte (shr v 8) ∷ byte v ∷ []

pub Writes-uint16 : (v : ℕ) → Writes (write_uint16 v) (uint16_bytes v)
unfolding write_uint16
Writes-uint16 v buf = refl

pub Writes-uint24 : (v : ℕ) → v ≤ 0xffffff → Writes (write_uint24 v) (uint24_bytes v)
unfolding write_uint24
Writes-uint24 v h buf = ground arith

pub Writes-uint32 : (v : ℕ) → Writes (write_uint32 v) (uint32_bytes v)
unfolding write_uint32
Writes-uint32 v buf = refl

pub Writes-uint64 : (v : ℕ) → Writes (write_uint64 v) (encode_uint64 v)
unfolding write_uint64
Writes-uint64 v buf = refl

pub Writes-varint : (v : ℕ) → v ≤ max_varint → Writes (write_varint v) (varint_bytes v)
unfolding write_varint
Writes-varint v h buf = rw (append_varint-bytes buf v h, write_varint) refl

pub Writes-opaque_fixed : (b : List ℕ) (n : ℕ) → length b ≡ n → Writes (write_opaque_fixed b n) b
unfolding write_opaque_fixed
Writes-opaque_fixed b n h buf = ground arith

pub Writes-pre_hash : (b : List ℕ) → length b ≡ 48 → Writes (write_pre_hash b) b
unfolding write_pre_hash
Writes-pre_hash b h = Writes-opaque_fixed b 48 h

pub Writes-opaque8 : (b : List ℕ) → length b ≤ 0xff → Writes (write_opaque8 b) (length b ∷ b)
unfolding write_opaque8
Writes-opaque8 b h buf = ground (arith, append_assoc buf (length b ∷ []) b)

pub Writes-opaque16 :
    (b : List ℕ) → length b ≤ 0xffff → Writes (write_opaque16 b) (uint16_bytes (length b) ++ b)
unfolding write_opaque16
Writes-opaque16 b h buf = ground (arith, append_assoc buf (uint16_bytes (length b)) b)

pub Writes-opaque24 :
    (b : List ℕ) → length b ≤ 0xffffff → Writes (write_opaque24 b) (uint24_bytes (length b) ++ b)
unfolding write_opaque24
Writes-opaque24 b h buf = ground (arith, append_assoc buf (uint24_bytes (length b)) b)

-- What `encode` returns for a `Write` that writes `bs`.
pub encode-Writes : (w : Write) (bs : List ℕ) → Writes w bs → encode w ≡ ok bs
unfolding encode
encode-Writes w bs h = ground (arith, h [])

module _ {ℓ} {A : Type ℓ} where
  abbrev pub each_bytes : (A → List ℕ) → List A → List ℕ
  each_bytes f [] = []
  each_bytes f (x ∷ xs) = f x ++ each_bytes f xs

  pub Writes-each {κ} :
      (P : A → Type κ) (w : A → Write) (f : A → List ℕ)
      → ((x : A) → P x → Writes (w x) (f x))
      → (xs : List A) → All P xs
      → Writes (write_each w xs) (each_bytes f xs)
  unfolding write_each
  Writes-each P w f h [] all buf = ap (λ b. record { buf = b; err = none }) (sym (append-nil buf))
  Writes-each P w f h (x ∷ xs) (px, all) buf =
      Writes-seq (w x) (write_each w xs) (f x) (each_bytes f xs) (h x px)
        (Writes-each P w f h xs all) buf
