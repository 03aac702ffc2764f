-- ===== src/Packet/Protector/Cache.antt =====
-- packet/packet.go: the cipher that a protector keeps is the one of its key.
use aurora_core.Common.{
  ℕ, ◌≡◌, refl, sym, ap, ◌∙◌, arith, true, false, none, some, List, ◌++◌, length, take, ◌==◌,
  take-append_length, replicate, bytes_equal→eq, Bool-cases, Option-cases, inl, inr, ◌⊎◌, subst,
}
use aurora_core.Errors.{Result, Result-cases, ok, fail}
use aurora_core.Crypto.{Primitives, TakesKeys, chacha20_poly1305}
use aurora_core.Crypto.Aead.{SuiteAead, new_suite_aead, aes256_gcm}
use aurora_core.Packet.Protector.{
  Protector, copy_key, with_cache, cache_hit, fill_cache, cached_aead, replace_material,
}

-- The cipher that is kept is the one of the suite and the key that are kept with it.
pub record IsCached (c : Primitives) (p : Protector) : Type 0 where
  pub cached :
      (a : SuiteAead) → p.aead ≡ some a → new_suite_aead c p.cached_suite p.cached_key ≡ ok a

copy_key_whole : (key : List ℕ) → length key ≡ 32 → copy_key key ≡ key
copy_key_whole key h =
    ap (λ (n : ℕ). take n (key ++ replicate 32 0)) (sym h) ∙ take-append_length key (replicate 32 0)

suite_key :
    (c : Primitives) (suite : ℕ) (key : List ℕ) (a : SuiteAead)
    → TakesKeys c
    → new_suite_aead c suite key ≡ ok a
    → length key ≡ 32
unfolding new_suite_aead aes256_gcm
suite_key c suite key a h e = elim (Bool-cases (length key == 32)) [
  | inl whole ↦ ground (arith, whole)
  | inr other ↦ elim (Result-cases (c.new_cipher chacha20_poly1305 key)) [
    | inl (v, r) ↦ h.key_size key r
    | inr (y, r) ↦ absurd (ground (arith, e, other, r))
  ]
]

with_cache-IsCached :
    (c : Primitives) (p : Protector) (a : SuiteAead)
    → TakesKeys c
    → new_suite_aead c p.suite p.key ≡ ok a
    → IsCached c (with_cache p a)
with_cache-IsCached c p a h e = record {
  cached = λ b q.
      ap (λ (k : List ℕ). new_suite_aead c p.suite k)
        (copy_key_whole p.key (suite_key c p.suite p.key a h e))
      ∙ e
      ∙ cc;
}

filled :
    (c : Primitives) (p : Protector) (r : Result SuiteAead)
    → TakesKeys c
    → IsCached c p
    → new_suite_aead c p.suite p.key ≡ r
    → ((fill_cache p r).0 ≡ r) × IsCached c (fill_cache p r).1
unfolding fill_cache
filled c p (ok a) h i e = (refl, with_cache-IsCached c p a h e)
filled c p (fail x) h i e = (refl, i)

hit :
    (c : Primitives) (p : Protector) (a : SuiteAead)
    → IsCached c p
    → p.aead ≡ some a
    → cache_hit p ≡ true
    → new_suite_aead c p.suite p.key ≡ ok a
unfolding cache_hit
hit c p a i e h =
    let s : p.cached_suite ≡ p.suite = ground (arith, h) in
    let k : p.cached_key ≡ p.key = bytes_equal→eq p.cached_key p.key (ground (arith, h)) in
    ap (λ (x : ℕ). new_suite_aead c x p.key) (sym s)
    ∙ ap (λ (x : List ℕ). new_suite_aead c p.cached_suite x) (sym k)
    ∙ i.cached a e

missed :
    (c : Primitives) (p : Protector)
    → (p.aead ≡ none) ⊎ (cache_hit p ≡ false)
    → cached_aead c p ≡ fill_cache p (new_suite_aead c p.suite p.key)
unfolding cached_aead
missed c p (inl e) = ground (arith, e)
missed c p (inr e) = elim (Option-cases p.aead) [
  | inl q ↦ ground (arith, q)
  | inr (a, q) ↦ ground (arith, e, q)
]

hits :
    (c : Primitives) (p : Protector) (a : SuiteAead)
    → p.aead ≡ some a
    → cache_hit p ≡ true
    → cached_aead c p ≡ (ok a, p)
unfolding cached_aead
hits c p a e h = ground (arith, e, h)

-- Where the cipher that a protector keeps is that of the suite and the key kept with it, the cached
-- cipher is the one that is made afresh from the protector's suite and key, or the same error, and the
-- protector that is left keeps such a cipher again. ChaCha20-Poly1305 of the library refuses keys that
-- do not have 32 bytes.
pub cached_aead-IsCached :
    (c : Primitives) (p : Protector)
    → TakesKeys c
    → IsCached c p
    → ((cached_aead c p).0 ≡ new_suite_aead c p.suite p.key) × IsCached c (cached_aead c p).1
unfolding cached_aead
cached_aead-IsCached c p h i =
    let fresh = filled c p (new_suite_aead c p.suite p.key) h i refl in
    let P = λ (r : Result SuiteAead × Protector).
      (r.0 ≡ new_suite_aead c p.suite p.key) × IsCached c r.1 in
    elim (Option-cases p.aead) [
      | inl empty ↦ subst P (sym (missed c p (inl empty))) fresh
      | inr (a, e) ↦ elim (Bool-cases (cache_hit p)) [
        | inl current ↦ subst P (sym (hits c p a e current)) (sym (hit c p a i e current), i)
        | inr stale ↦ subst P (sym (missed c p (inr stale))) fresh
      ]
    ]

-- A protector that is made anew keeps the cipher of its key, and so does one whose key is replaced.
pub replace_material-IsCached :
    (c : Primitives) (p q : Protector) (key static_iv : List ℕ)
    → TakesKeys c
    → replace_material c p key static_iv ≡ ok q
    → IsCached c q
unfolding replace_material
replace_material-IsCached c p q key static_iv h e =
    elim (Result-cases (new_suite_aead c p.suite key)) [
      | inr (x, refused) ↦ absurd (ground (arith, e, refused))
      | inl (a, made) ↦
          let r = record p { key = key; static_iv = static_iv } in
          let f : with_cache r a ≡ q = ground (arith, e, made) in
          subst (λ (x : Protector). IsCached c x) f (with_cache-IsCached c r a h made)
    ]
