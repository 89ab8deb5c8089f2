-- ===== src/Work/Results/End.antt =====
-- How results are read to their end.
use neo4j_python_driver.Base.{
  ℕ, zero, suc, ◌≤◌, ◌<◌, ◌≡◌, refl, ap, ◌∙◌, Bool, true, false, ◌&&◌, not, Bool-cases, Option,
  none, some, List, [], ◌∷◌, length, length-append, ok, inl, inr, arith,
}
use neo4j_python_driver.Work.Results.{
  Text, Message, row, success, failure, ignored, QueryResult, Outcome, and_then, send, pull,
}
use neo4j_python_driver.Work.Results.Operations.{
  iterate, enough, exhaust_if, exhaust, unless_consumed, consume, run, run_success, new_result,
}
use neo4j_python_driver.Work.Results.Reading.{
  List-cases, rows_of, Finishes, to_come, left, Source, Reading,
}
use neo4j_python_driver.Work.Results.Order.{next-Given}

module _ {A : Type 0} where
  all_rows : {E : Type 0} (ms : List (Message A E)) → length (rows_of ms) ≤ length ms
  unfolding rows_of
  all_rows [] = omega arith
  all_rows (row r ∷ ms) = omega (arith, all_rows ms)
  all_rows (success true c ∷ ms) = omega (arith, all_rows ms)
  all_rows (success false c ∷ ms) = omega arith
  all_rows (failure e ∷ ms) = omega arith
  all_rows (ignored ∷ ms) = omega arith

module _ {A E : Type 0} where
  -- A result whose records have all been read, none of which it keeps, with the bookmark of the last summary.
  pub record Ended (b : Option Text) (t : QueryResult A E) : Type 0 where
    pub detached : t.attached ≡ false
    pub final : t.bookmark ≡ b
    pub no_error : t.exception ≡ none
    pub emptied : t.buffer ≡ []

  Reading-Ended :
      (b : Option Text) (t : QueryResult A E)
      → Reading b t
      → t.attached ≡ false
      → t.buffer ≡ []
      → Ended b t
  unfolding Source
  Reading-Ended b t v a n = elim v.source [
    | inl (c, h, w, f) ↦ absurd (ground arith)
    | inr (c, e) ↦ record { detached = a; final = e; no_error = v.no_exception; emptied = n }
  ]

  iterate_with :
      (b : Option Text) (n : ℕ) (s : QueryResult A E)
      → Reading b s
      → length (left s) < n
      → (t : QueryResult A E) × (iterate n s ≡ some (ok (left s), t)) × Ended b t
  unfolding iterate
  iterate_with b zero s v h = absurd (omega arith)
  iterate_with b (suc n) s v h = elim (List-cases (left s)) [
    | inl e ↦
        let (t, o, w, a, f, x) = next-Given b s [] v e in
        (t, rw (o, e) refl, Reading-Ended b t w a f)
    | inr (r, rest, e) ↦
        let (t, o, w, l, f) = next-Given b s (r ∷ rest) v e in
        let (u, p, c) = iterate_with b n t w (omega (arith, ap length e, ap length l)) in
        (u, rw (o, p, e, l) refl, c)
  ]

  enough_lem : (s : QueryResult A E) → length (left s) < enough s
  unfolding left to_come
  enough_lem s = elim (Bool-cases (s.attached && not s.discarding)) [
    | inl e ↦ rw e (omega (arith, length-append s.buffer (rows_of s.incoming), all_rows s.incoming))
    | inr e ↦ rw e (omega (arith, length-append s.buffer []))
  ]

  -- Iterating over a result ends, with all the records that are left, in order.
  pub iterate_lem :
      (b : Option Text) (s : QueryResult A E)
      → Reading b s
      → (t : QueryResult A E) × (iterate (enough s) s ≡ some (ok (left s), t)) × Ended b t
  iterate_lem b s v = iterate_with b (enough s) s v (enough_lem s)

  exhaust_if_lem :
      (b : Option Text) (s : QueryResult A E) (c : Bool)
      → s.exhausted ≡ c
      → Reading b s
      → (t : QueryResult A E) × (exhaust_if c s ≡ some (ok tt, t)) × Ended b t
  unfolding Source
  exhaust_if_lem b s true h v = (s, refl, Reading-Ended b s v (v.drained h).0 (v.drained h).1)
  exhaust_if_lem b s false h v =
      let t = record s { discarding = true; buffer = [] } in
      let w : Reading b t = record {
        no_exception = v.no_exception;
        in_scope = v.in_scope;
        not_consumed = v.not_consumed;
        source = elim v.source [ inl (a, x, k, f) ↦ inl (a, ground arith, k, f) | inr x ↦ inr x ];
        drained = λ x. ((v.drained x).0, refl);
      } in
      let (u, o, e) = iterate_lem b t w in
      (u, ap (λ o. and_then o (λ rows u. some (ok tt, u))) o, e)

  exhaust_lem :
      (b : Option Text) (s : QueryResult A E)
      → Reading b s
      → (t : QueryResult A E) × (exhaust s ≡ some (ok tt, t)) × Ended b t
  unfolding exhaust
  exhaust_lem b s v = exhaust_if_lem b s s.exhausted refl v

  unless_consumed_lem :
      (b : Option Text) (s : QueryResult A E) (o : Outcome A E (Option Text))
      → Reading b s
      → unless_consumed s o ≡ o
  unfolding unless_consumed
  unless_consumed_lem b s o v = rw (v.in_scope, v.not_consumed) refl

  -- `consume` drops the records that are left: afterwards none is in the buffer or can come. It gets the
  -- bookmark of the last summary.
  pub consume_lem :
      (b : Option Text) (s : QueryResult A E)
      → Reading b s
      → (t : QueryResult A E) × (consume s ≡ some (ok b, t)) × Ended b t × (t.consumed ≡ true)
  unfolding consume
  consume_lem b s v =
      let (t, o, e) = exhaust_lem b s v in
      (
        record t { consumed = true },
        unless_consumed_lem b s _ v
            ∙ ap (λ o. and_then o (λ x t. some (ok t.bookmark, record t { consumed = true }))) o
            ∙ ap (λ c. some (ok c, record t { consumed = true })) e.final,
        record {
          detached = e.detached;
          final = e.final;
          no_error = e.no_error;
          emptied = e.emptied;
        },
        refl,
      )

  -- A query whose answers end well gives a result with the records sent.
  pub run-Reading :
      (b : Option Text) (ms : List (Message A E))
      → Finishes b ms
      → (s : QueryResult A E) × (run run_success ms ≡ (ok tt, s))
        × Reading b s
        × (left s ≡ rows_of ms)
  unfolding run send new_result Source left to_come
  run-Reading b ms f = (
    record (send pull (new_result ms)) { attached = true },
    refl,
    record {
      no_exception = refl;
      in_scope = refl;
      not_consumed = refl;
      source = inl (refl, refl, refl, f);
      drained = λ h. absurd (ground arith);
    },
    refl,
  )
