-- ===== src/Wire/Format/Parses.antt =====
-- Canonical codecs: what a reader method has taken, when it ends without an error, is what the
-- encoder method writes for the value that it returned.
pub mod Scalars
use aurora_core.Common.{
  ℕ, ◌+◌, ◌≤◌, ◌<◌, ◌≡◌, refl, sym, ap, ◌∙◌, subst, arith, Option, none, some, List, [], ◌∷◌, ◌++◌,
  true, append_assoc, append-nil, inl, inr, length, All-append, Option-cases,
}
use aurora_core.Common.Words.{IsByte, Bytes}
use aurora_core.Errors.{Error, ok}
use aurora_core.Wire.Encoder.{Encoder, Write, ◌>>◌, encode}
use aurora_core.Wire.Reader.{Reader, Read, ◌>>=◌, pure, new_reader, eof}
use aurora_core.Wire.Format.Writes.{Writes, Writes-seq, encode-Writes}
use aurora_core.Wire.Format.Reads.{Holds, Holds-length, new_reader-Holds}

-- A reader that has seen an error keeps it.
abbrev pub Sticky {ℓ} : {A : Type ℓ} → Read A → Type 0
Sticky m = (r : Reader) (x : Error) → r.err ≡ some x → (m r).1.err ≡ some x

-- Where `m` ends without an error it has taken some `used`, and `Q` holds of its value and of that.
abbrev pub Parses {ℓ κ} : {A : Type ℓ} → Read A → (A → List ℕ → Type κ) → Type κ
Parses m Q =
    (r : Reader) (bs : List ℕ)
    → Bytes bs
    → Holds r bs
    → (m r).1.err ≡ none
    → (used : List ℕ) × (rest : List ℕ) × (bs ≡ used ++ rest) × Holds (m r).1 rest × Q (m r).0 used

pub record Canonical {ℓ} {A : Type ℓ} (m : Read A) (w : A → Write) : Type 0 where
  pub sticky : Sticky m
  pub parses : Parses m (λ a used. Writes (w a) used)

-- The rest of a decoder for `w`, once `p` would have written what is read so far.
pub record Finishes {ℓ} {A : Type ℓ} (m : Read A) (w : A → Write) (p : Write) : Type 0 where
  pub sticky : Sticky m
  pub finish : Parses m (λ a used. (pre : List ℕ) → Writes p pre → Writes (w a) (pre ++ used))

pub Bytes-split : (bs cs : List ℕ) → Bytes (bs ++ cs) → Bytes bs × Bytes cs
Bytes-split [] cs h = (tt, h)
Bytes-split (b ∷ bs) cs h = let more = Bytes-split bs cs h.1 in ((h.0, more.0), more.1)

-- No error at the end means none in between.
pub clean_before {ℓ} :
    {A : Type ℓ} (m : Read A) → Sticky m → (r : Reader) → (m r).1.err ≡ none → r.err ≡ none
clean_before m s r c = elim (Option-cases r.err) [ inl e ↦ e | inr (x, e) ↦ cc (s r x e) ]

module _ {ℓ κ} {A : Type ℓ} {B : Type κ} where
  pub Sticky-bind :
      (m : Read A) (f : A → Read B) → Sticky m → ((a : A) → Sticky (f a)) → Sticky (m >>= f)
  Sticky-bind m f hm hf r x e = hf (m r).0 (m r).1 x (hm r x e)

  pub Finishes-bind :
      {m : Read A} {w : A → Write} {f : A → Read B} {u : B → Write} {p : Write}
      → Canonical m w
      → ((a : A) → Finishes (f a) u (p >> w a))
      → Finishes (m >>= f) u p
  Finishes-bind {m} {w} {f} {u} {p} hm hf = record {
    sticky = Sticky-bind m f hm.sticky (λ a. (hf a).sticky);
    finish = λ r bs hb h c.
        let a = (m r).0 in
        let mid = clean_before (f a) (hf a).sticky (m r).1 c in
        let (used, rest, e, h', wr) = hm.parses r bs hb h mid in
        let hb' = (Bytes-split used rest (subst Bytes e hb)).1 in
        let (used', rest', e', h'', wr') = (hf a).finish (m r).1 rest hb' h' c in
        (
          used ++ used',
          rest',
          e ∙ ap (◌++◌ used) e' ∙ sym (append_assoc used used' rest'),
          h'',
          λ pre hp.
              subst (Writes (u ((m >>= f) r).0)) (append_assoc pre used used')
                (wr' (pre ++ used) (Writes-seq p (w a) pre used hp wr)),
        );
  }

pub Finishes-pure {ℓ} :
    {A : Type ℓ} (a : A) {u : A → Write} {p : Write} → u a ≡ p → Finishes (pure a) u p
Finishes-pure a {u} {p} e = record {
  sticky = λ r x h. h;
  finish = λ r bs hb h c. (
    [],
    bs,
    refl,
    h,
    λ pre hp.
        subst (λ v. Writes v (pre ++ [])) (sym e) (subst (Writes p) (sym (append-nil pre)) hp),
  );
}

abbrev pub skip : Write
skip e = e

pub Writes-skip : Writes skip []
Writes-skip buf = ap (λ b. record { buf = b; err = none }) (sym (append-nil buf))

pub Finishes-Canonical {ℓ} :
    {A : Type ℓ} {m : Read A} {w : A → Write} → Finishes m w skip → Canonical m w
Finishes-Canonical {m} {w} h = record {
  sticky = h.sticky;
  parses = λ r bs hb hr c.
      let (used, rest, e, h', wr) = h.finish r bs hb hr c in (used, rest, e, h', wr [] Writes-skip);
}

-- A reader at the end of its input has nothing left.
Holds-eof : (r : Reader) (bs : List ℕ) → Holds r bs → eof r ≡ true → bs ≡ []
unfolding eof
Holds-eof r [] h e = refl
Holds-eof r (b ∷ bs) h e = absurd (ground (arith, h.clean, Holds-length r (b ∷ bs) h))

-- So an input that a canonical decoder takes whole is what the encoder returns for its value.
pub Canonical-encode {ℓ} :
    {A : Type ℓ} {m : Read A} {w : A → Write}
    → Canonical m w
    → (b : List ℕ) → Bytes b
    → (m (new_reader b)).1.err ≡ none
    → eof (m (new_reader b)).1 ≡ true
    → encode (w (m (new_reader b)).0) ≡ ok b
Canonical-encode {m} {w} h b hb c e =
    let (used, rest, s, h', wr) = h.parses (new_reader b) b hb (new_reader-Holds b) c in
    let none_left = Holds-eof (m (new_reader b)).1 rest h' e in
    let whole : b ≡ used = s ∙ ap (◌++◌ used) none_left ∙ append-nil used in
    encode-Writes (w (m (new_reader b)).0) used wr ∙ ap ok (sym whole)
