-- ===== src/Transport/Record/Streams.antt =====
-- transport/record.go: what is written to a stream and what is read from it.
use aurora_core.Common.{
  ℕ, zero, suc, ◌≤◌, ◌≡◌, refl, sym, ap, ◌∙◌, arith, some, List, [], ◌∷◌, ◌++◌, append_assoc,
  append-nil, ltb, ◌==◌, length, length-drop, take, drop, take-append-drop, ◌⊎◌, inl, inr,
  Bool-cases, Option-cases,
}
use aurora_core.Errors.{Error, Result, ok, fail, short_write, empty_record, record_too_large}
use aurora_core.Transport.Record.{
  Writer, Round, write_round, write_rounds, write_record_bytes, record_prefix, write_body, write,
}

module _ {S : Type 0} (call : Writer S) where
  Round-cases :
      (r : Round S)
      → ((ended : Result (Unit {0}) × S) × (r ≡ inl ended))
        ⊎ ((t : S) × (rest : List ℕ) × (r ≡ inr (t, rest)))
  Round-cases (inl ended) = inl (ended, refl)
  Round-cases (inr (t, rest)) = inr (t, rest, refl)

  round_rest :
      (s t : S) (p rest : List ℕ)
      → write_round call s p ≡ inr (t, rest)
      → (1 ≤ (call s p).0)
        × ((call s p).0 ≤ length p)
        × (drop (call s p).0 p ≡ rest)
        × ((call s p).2 ≡ t)
  unfolding write_round
  round_rest s t p rest e = elim (Bool-cases (ltb (length p) (call s p).0)) [
    | inl long ↦ absurd (ground (arith, e, long))
    | inr counted ↦ elim (Option-cases (call s p).1) [
      | inr (x, failed) ↦ absurd (ground (arith, e, counted, failed))
      | inl clean ↦ elim (Bool-cases ((call s p).0 == 0)) [
        | inl stuck ↦ absurd (ground (arith, e, counted, clean, stuck))
        | inr moved ↦ (
          ground (arith, moved),
          ground (arith, counted),
          ground (arith, e, counted, clean, moved),
          ground (arith, e, counted, clean, moved),
        )
      ]
    ]
  ]

  round_shorter :
      (s t : S) (x : ℕ) (p rest : List ℕ)
      → write_round call s (x ∷ p) ≡ inr (t, rest)
      → length rest ≤ length p
  round_shorter s t x p rest e =
      let (pos, fits, cut, same) = round_rest s t (x ∷ p) rest e in
      omega (arith, ap (λ (l : List ℕ). length l) (sym cut), length-drop (call s (x ∷ p)).0 (x ∷ p))

  round_end :
      (s t : S) (p : List ℕ) (r : Result (Unit {0}))
      → write_round call s p ≡ inl (r, t)
      → (x : Error) × ((call s p).2 ≡ t) × (r ≡ fail x)
  unfolding write_round
  round_end s t p r e = elim (Bool-cases (ltb (length p) (call s p).0)) [
    | inl long ↦ (short_write, ground (arith, e, long), ground (arith, e, long))
    | inr counted ↦ elim (Option-cases (call s p).1) [
      | inr (x, failed) ↦
          (x, ground (arith, e, counted, failed), ground (arith, e, counted, failed))
      | inl clean ↦ elim (Bool-cases ((call s p).0 == 0)) [
        | inl stuck ↦ (
          short_write,
          ground (arith, e, counted, clean, stuck),
          ground (arith, e, counted, clean, stuck),
        )
        | inr moved ↦ absurd (ground (arith, e, counted, clean, moved))
      ]
    ]
  ]

  -- What io.Writer documents: a call takes a prefix of the bytes, of the length that it returns.
  pub record Appends (sink : S → List ℕ) : Type 0 where
    pub appends : (s : S) (p : List ℕ) → sink (call s p).2 ≡ sink s ++ take (call s p).0 p

  -- A part of `p` went to the sink, all of it where the result is no error.
  pub record Wrote (sink : S → List ℕ) (s t : S) (p : List ℕ) (r : Result (Unit {0})) : Type 0 where
    pub done : List ℕ
    pub left : List ℕ
    pub whole : done ++ left ≡ p
    pub taken : sink t ≡ sink s ++ done
    pub complete : r ≡ ok tt → left ≡ []

  Wrote-round :
      (sink : S → List ℕ) (s t u : S) (p rest : List ℕ) (r : Result (Unit {0}))
      → Appends sink
      → write_round call s p ≡ inr (t, rest)
      → Wrote sink t u rest r
      → Wrote sink s u p r
  Wrote-round sink s t u p rest r a e w =
      let (pos, fits, cut, same) = round_rest s t p rest e in
      let n = (call s p).0 in
      record {
        done = take n p ++ w.done;
        left = w.left;
        whole =
            append_assoc (take n p) w.done w.left
            ∙ ap (λ (x : List ℕ). take n p ++ x) (w.whole ∙ sym cut)
            ∙ take-append-drop n p;
        taken =
            w.taken
            ∙ ap (λ (x : S). sink x ++ w.done) (sym same)
            ∙ ap (λ (x : List ℕ). x ++ w.done) (a.appends s p)
            ∙ append_assoc (sink s) (take n p) w.done;
        complete = w.complete;
      }

  Wrote-end :
      (sink : S → List ℕ) (s t : S) (p : List ℕ) (r : Result (Unit {0}))
      → Appends sink
      → write_round call s p ≡ inl (r, t)
      → Wrote sink s t p r
  Wrote-end sink s t p r a e =
      let (x, same, failed) = round_end s t p r e in
      let n = (call s p).0 in
      record {
        done = take n p;
        left = drop n p;
        whole = take-append-drop n p;
        taken = ap sink (sym same) ∙ a.appends s p;
        complete = λ q. absurd (ground (arith, q, failed));
      }

  nothing : (sink : S → List ℕ) (s : S) → Wrote sink s s [] (ok tt)
  nothing sink s = record {
    done = [];
    left = [];
    whole = refl;
    taken = sym (append-nil (sink s));
    complete = λ q. refl;
  }

  rounds_write :
      (sink : S → List ℕ) (fuel : ℕ) (s : S) (p : List ℕ)
      → Appends sink
      → length p ≤ fuel
      → (r : Result (Unit {0})) × (t : S) × (write_rounds call fuel s p ≡ some (r, t))
        × Wrote sink s t p r
  unfolding write_rounds
  rounds_write sink fuel s [] a h = (ok tt, s, refl, nothing sink s)
  rounds_write sink zero s (x ∷ p) a h = absurd (omega arith)
  rounds_write sink (suc fuel) s (x ∷ p) a h = elim (Round-cases (write_round call s (x ∷ p))) [
    | inl ((r, t), e) ↦ (r, t, ground (arith, e), Wrote-end sink s t (x ∷ p) r a e)
    | inr (t, rest, e) ↦
        let (r, u, q, w) =
          rounds_write sink fuel t rest a (omega (arith, round_shorter s t x p rest e)) in
        (r, u, ground (arith, e, q), Wrote-round sink s t u (x ∷ p) rest r a e w)
  ]

  body_written :
      (sink : S → List ℕ) (s t : S) (prefix body : List ℕ) (r : Result (Unit {0}))
      → Appends sink
      → Wrote sink s t prefix r
      → (q : Result (Unit {0})) × (u : S) × (write_body call body (some (r, t)) ≡ some (q, u))
        × Wrote sink s u (prefix ++ body) q
  unfolding write_body write_record_bytes
  body_written sink s t prefix body (fail x) a w = (
    fail x,
    t,
    refl,
    record {
      done = w.done;
      left = w.left ++ body;
      whole = sym (append_assoc w.done w.left body) ∙ ap (λ (y : List ℕ). y ++ body) w.whole;
      taken = w.taken;
      complete = λ q. absurd (ground (arith, q));
    },
  )
  body_written sink s t prefix body (ok (tt)) a w =
      let (q, u, e, v) = rounds_write sink (length body) t body a (omega arith) in
      let first : w.done ≡ prefix =
        sym (append-nil w.done)
        ∙ ap (λ (y : List ℕ). w.done ++ y) (sym (w.complete refl))
        ∙ w.whole in
      (
        q,
        u,
        e,
        record {
          done = prefix ++ v.done;
          left = v.left;
          whole = append_assoc prefix v.done v.left ∙ ap (λ (y : List ℕ). prefix ++ y) v.whole;
          taken =
              v.taken
              ∙ ap (λ (y : List ℕ). y ++ v.done) (w.taken ∙ ap (λ (y : List ℕ). sink s ++ y) first)
              ∙ append_assoc (sink s) prefix v.done;
          complete = v.complete;
        },
      )

  refused : (sink : S → List ℕ) (s : S) (p : List ℕ) (x : Error) → Wrote sink s s p (fail x)
  refused sink s p x = record {
    done = [];
    left = p;
    whole = refl;
    taken = sym (append-nil (sink s));
    complete = λ q. absurd (ground (arith, q));
  }

  -- Whatever io.Writer is written to, Write ends: it takes one round for each byte at most. What went to
  -- the writer is a prefix of the record, the length in 3 bytes and the body, and the whole record
  -- where Write returns no error, which it does only for a body of 1 to `max` bytes.
  pub write-Wrote :
      (sink : S → List ℕ) (max : ℕ) (s : S) (body : List ℕ)
      → Appends sink
      → (r : Result (Unit {0})) × (t : S) × (write call max s body ≡ some (r, t))
        × Wrote sink s t (record_prefix body ++ body) r
        × (r ≡ ok tt → (1 ≤ length body) × (length body ≤ max))
  unfolding write write_record_bytes
  write-Wrote sink max s body a = elim (Bool-cases (length body == 0)) [
    | inl empty ↦ (
      fail empty_record,
      s,
      ground (arith, empty),
      refused sink s _ empty_record,
      λ q. absurd (ground (arith, q)),
    )
    | inr some_bytes ↦ elim (Bool-cases (ltb max (length body))) [
      | inl large ↦ (
        fail record_too_large,
        s,
        ground (arith, some_bytes, large),
        refused sink s _ record_too_large,
        λ q. absurd (ground (arith, q)),
      )
      | inr fits ↦
          let (r, t, e, w) =
            rounds_write sink (length (record_prefix body)) s (record_prefix body) a
              (omega arith) in
          let (q, u, f, v) = body_written sink s t (record_prefix body) body r a w in
          (
            q,
            u,
            ground (arith, some_bytes, fits, e, f),
            v,
            λ _. (ground (arith, some_bytes), ground (arith, fits)),
          )
    ]
  ]
