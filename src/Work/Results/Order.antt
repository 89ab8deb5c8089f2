-- ===== src/Work/Results/Order.antt =====
-- That the operations of a result give its records in order.
use neo4j_python_driver.Base.{
  ℕ, zero, suc, ◌<◌, ◌≡◌, refl, sym, ap, subst, ◌∙◌, true, false, Bool-cases, leb, Option, some,
  List, [], ◌∷◌, ◌++◌, length, take, drop, drop-nil, drop-within, drop-length, take-within,
  take-length, take-append-drop, length-take, length-append, ok, inl, inr, arith,
}
use neo4j_python_driver.Work.Results.{Text, QueryResult, Outcome, and_then, next, head, is_empty}
use neo4j_python_driver.Work.Results.Operations.{
  collect, buffer_rows, in_use, buffered_or, fetch, peek,
}
use neo4j_python_driver.Work.Results.Reading.{List-cases, to_come, left, Source, Reading, Given}
use neo4j_python_driver.Work.Results.Rounds.{rounds-Given}
use neo4j_python_driver.Work.Results.Requests.{left_finished}

module _ {A : Type 0} where
  drop_next : (n : ℕ) (xs : List A) → drop n (drop 1 xs) ≡ drop (suc n) xs
  drop_next n [] = drop-nil n
  drop_next n (x ∷ xs) = refl

  take_twice : (n : ℕ) (xs : List A) → take n (take n xs) ≡ take n xs
  take_twice n xs = take-length n (take n xs) (omega (arith, length-take n xs))

  head-take : (n : ℕ) (xs : List A) → head (take (suc n) xs) ≡ head xs
  head-take n [] = refl
  head-take n (x ∷ xs) = refl

  pub empty_nil : (xs : List A) → is_empty xs ≡ true → xs ≡ []
  empty_nil [] h = refl
  empty_nil (x ∷ xs) h = absurd (ground arith)

  take_empty : (n : ℕ) (xs : List A) → 0 < n → is_empty (take n xs) ≡ true → length xs < n
  take_empty zero xs p h = absurd (omega arith)
  take_empty (suc n) [] p h = omega arith
  take_empty (suc n) (x ∷ xs) p h = absurd (ground arith)

module _ {A E : Type 0} where
  pub next-Given :
      (b : Option Text) (s : QueryResult A E) (xs : List A)
      → Reading b s
      → left s ≡ xs
      → Given b s.buffer (next s) xs
  unfolding next
  next-Given b s xs v e = subst (Given b s.buffer (next s)) e (rounds-Given b s.incoming s refl v)

  no_buffer : (s : QueryResult A E) → left s ≡ [] → s.buffer ≡ []
  unfolding left
  no_buffer s e = elim (List-cases s.buffer) [
    | inl h ↦ h
    | inr (x, rest, h) ↦
        absurd (omega (arith, ap length e, ap length h, length-append s.buffer (to_come s)))
  ]

  -- What `collect` has done after up to `n` records of those left before.
  record Collected (b : Option Text) (n : ℕ) (s t : QueryResult A E) : Type 0 where
    reading : Reading b t
    rest : left t ≡ drop n (left s)
    buffer : t.buffer ≡ drop n s.buffer
    ended : length (left s) < n → t.attached ≡ false

  collect_lem :
      (b : Option Text) (n : ℕ) (s : QueryResult A E)
      → Reading b s
      → (t : QueryResult A E) × (collect n s ≡ some (ok (take n (left s)), t)) × Collected b n s t
  unfolding collect
  collect_lem b zero s v = (
    s,
    refl,
    record { reading = v; rest = refl; buffer = refl; ended = λ h. absurd (omega arith) },
  )
  collect_lem b (suc n) s v = elim (List-cases (left s)) [
    | inl e ↦
        let (t, o, w, a, f, x) = next-Given b s [] v e in
        (
          t,
          rw (o, e) refl,
          record {
            reading = w;
            rest = left_finished t f a ∙ sym (ap (drop (suc n)) e);
            buffer = f ∙ sym (ap (drop (suc n)) (no_buffer s e));
            ended = λ h. a;
          },
        )
    | inr (r, rest, e) ↦
        let (t, o, w, l, f) = next-Given b s (r ∷ rest) v e in
        let (u, p, c) = collect_lem b n t w in
        (
          u,
          rw (o, p, e, l) refl,
          record {
            reading = c.reading;
            rest = c.rest ∙ ap (drop n) l ∙ ap (drop (suc n)) (sym e);
            buffer = c.buffer ∙ ap (drop n) f ∙ drop_next n s.buffer;
            ended = λ h. c.ended (omega (arith, ap length e, ap length l));
          },
        )
  ]

  -- What `_buffer` with an argument has done.
  pub record Buffered (b : Option Text) (n : ℕ) (s t : QueryResult A E) : Type 0 where
    pub reading : Reading b t
    pub same : left t ≡ left s
    pub first : take n t.buffer ≡ take n (left s)
    pub rest : drop n t.buffer ++ to_come t ≡ drop n (left s)

  in_use_lem :
      (b : Option Text) (s : QueryResult A E) (o : Outcome A E (Unit {0}))
      → Reading b s
      → in_use s o ≡ o
  unfolding in_use
  in_use_lem b s o v = rw (v.in_scope, v.not_consumed) refl

  pub buffer_rows_lem :
      (b : Option Text) (n : ℕ) (s : QueryResult A E)
      → Reading b s
      → (t : QueryResult A E) × (buffer_rows n s ≡ some (ok tt, t)) × Buffered b n s t
  unfolding buffer_rows left to_come Source
  buffer_rows_lem b n s v = elim (Bool-cases (leb n (length s.buffer))) [
    | inl h ↦ (
      s,
      in_use_lem b s _ v ∙ ap (λ c. buffered_or c s (collect n s)) h,
      record {
        reading = v;
        same = refl;
        first = sym (take-within n s.buffer (to_come s) (ground arith));
        rest = sym (drop-within n s.buffer (to_come s) (ground arith));
      },
    )
    | inr h ↦
        let (t, o, c) = collect_lem b n s v in
        let all = t.buffer ++ take n (left s) in
        let none_kept : t.buffer ≡ [] = c.buffer ∙ drop-length n s.buffer (ground arith) in
        let kept : all ≡ take n (left s) = ap (λ xs. xs ++ take n (left s)) none_kept in
        let coming : to_come t ≡ drop n (left s) =
          sym (ap (λ xs. xs ++ to_come t) none_kept) ∙ c.rest in
        (
          record t { buffer = all; exhausted = is_empty all },
          in_use_lem b s _ v
              ∙ ap (λ c. buffered_or c s (collect n s)) h
              ∙ ap (buffered_or false s) o,
          record {
            reading = record {
              no_exception = c.reading.no_exception;
              in_scope = c.reading.in_scope;
              not_consumed = c.reading.not_consumed;
              source = c.reading.source;
              drained = λ x. (
                c.ended (take_empty n (left s) (ground arith) (sym (ap is_empty kept) ∙ x)),
                empty_nil all x,
              );
            };
            same =
                ap (λ xs. xs ++ to_come t) kept
                ∙ ap (λ ys. take n (left s) ++ ys) coming
                ∙ take-append-drop n (left s);
            first = ap (take n) kept ∙ take_twice n (left s);
            rest =
                ap (λ xs. drop n xs ++ to_come t) kept
                ∙ ap (λ xs. xs ++ to_come t)
                    (drop-length n (take n (left s)) (omega (arith, length-take n (left s))))
                ∙ coming;
          },
        )
  ]

  -- `fetch` returns the next records, up to `n`, and leaves those after them.
  pub fetch_lem :
      (b : Option Text) (n : ℕ) (s : QueryResult A E)
      → Reading b s
      → (t : QueryResult A E) × (fetch n s ≡ some (ok (take n (left s)), t))
        × Reading b t
        × (left t ≡ drop n (left s))
  unfolding fetch left to_come Source
  fetch_lem b n s v =
      let (t, o, c) = buffer_rows_lem b n s v in
      (
        record t { buffer = drop n t.buffer },
        ap
              (λ o.
                and_then o
                  (λ x t. some (ok (take n t.buffer), record t { buffer = drop n t.buffer })))
              o
            ∙ ap (λ xs. some (ok xs, record t { buffer = drop n t.buffer })) c.first,
        record {
          no_exception = c.reading.no_exception;
          in_scope = c.reading.in_scope;
          not_consumed = c.reading.not_consumed;
          source = c.reading.source;
          drained = λ x. let (a, e) = c.reading.drained x in (a, ap (drop n) e ∙ drop-nil n);
        },
        c.rest,
      )

  -- `peek` returns the next record, if there is one, and takes none.
  peek_lem :
      (b : Option Text) (s : QueryResult A E)
      → Reading b s
      → (t : QueryResult A E) × (peek s ≡ some (ok (head (left s)), t))
        × Reading b t
        × (left t ≡ left s)
  unfolding peek
  peek_lem b s v =
      let (t, o, c) = buffer_rows_lem b 1 s v in
      let first : head t.buffer ≡ head (left s) =
        sym (head-take 0 t.buffer) ∙ ap head c.first ∙ head-take 0 (left s) in
      (
        t,
        ap (λ o. and_then o (λ x t. some (ok (head t.buffer), t))) o
            ∙ ap (λ r. some (ok r, t)) first,
        c.reading,
        c.same,
      )
