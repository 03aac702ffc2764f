-- ===== src/Tests/Toy.antt =====
-- A stand-in for the crypto library: it hashes to the text, expands to a pattern and tags with the
-- key's first byte, so that runs can be read.
use aurora_core.Common.{
  ℕ, ◌-◌, ◌≡◌, ap, ◌∙◌, arith, Bool, ◌||◌, List, ◌++◌, ◌==◌, if◌then◌else◌, length, length-append,
  length-replicate, take, drop, take-append_length, drop-append_length, replicate, get_or,
  bytes_equal, bytes_equal_refl,
}
use aurora_core.Errors.{Result, ok, fail, cipher_key_length, authentication_failed}
use aurora_core.Crypto.{Cipher, aes_gcm, chacha20_poly1305, Primitives, IsAead, TakesKeys}

abbrev toy_tag : List ℕ → List ℕ
toy_tag key = replicate 16 (get_or key 0 0)

-- AES takes keys of 16, 24 and 32 bytes, ChaCha20-Poly1305 those of 32.
abbrev toy_takes : Cipher → List ℕ → Result (Unit {0})
toy_takes aes_gcm key =
    if length key == 16 || length key == 24 || length key == 32
    then ok tt
    else fail cipher_key_length
toy_takes chacha20_poly1305 key = if length key == 32 then ok tt else fail cipher_key_length

abbrev pub toy : Primitives
toy = record {
  hash = λ digest text. text;
  extract = λ digest secret salt. ok (salt ++ secret);
  expand = λ digest secret info n. ok (replicate n (length info));
  new_cipher = toy_takes;
  seal = λ cipher key nonce aad text. text ++ toy_tag key;
  open_sealed = λ cipher key nonce aad sealed.
      let n = length sealed - 16 in
      if bytes_equal (drop n sealed) (toy_tag key)
      then ok (take n sealed)
      else fail authentication_failed;
}

opens :
    (cipher : Cipher) (key nonce aad text : List ℕ)
    → toy.open_sealed cipher key nonce aad (toy.seal cipher key nonce aad text) ≡ ok text
opens cipher key nonce aad text =
    let sealed = text ++ toy_tag key in
    let n : length sealed - 16 ≡ length text =
      omega
        (arith, length-append text (toy_tag key), length-replicate {A = ℕ} 16 (get_or key 0 0)) in
    let t = ap (λ (k : ℕ). take k sealed) n ∙ take-append_length text (toy_tag key) in
    let d = ap (λ (k : ℕ). drop k sealed) n ∙ drop-append_length text (toy_tag key) in
    let b = ap (λ (x : List ℕ). bytes_equal x (toy_tag key)) d ∙ bytes_equal_refl (toy_tag key) in
    ap
      (λ (k : Bool).
        if k then ok (take (length sealed - 16) sealed) else fail authentication_failed)
      b
    ∙ ap (λ (x : List ℕ). ok x) t

pub toy-IsAead : IsAead toy
toy-IsAead = record {
  opens = opens;
  adds_tag = λ cipher key nonce aad text. length-append text (toy_tag key);
}

pub toy-TakesKeys : TakesKeys toy
toy-TakesKeys = record { key_size = λ key e. ground (arith, e) }
