-- ===== src/Work/Results/Rounds.antt =====
-- That a step of the iteration gives the next record.
use neo4j_python_driver.Base.{
  ◌≡◌, refl, sym, ap, ◌∙◌, Bool, true, false, ◌||◌, Bool-cases, if◌then◌else◌, Option, some, List,
  [], ◌∷◌, ◌++◌, drop, ok, inl, inr, arith,
}
use neo4j_python_driver.Work.Results.{
  Text, Message, row, success, failure, ignored, Request, QueryResult, on_summary, on_success,
  on_records, process, finish, rounds, answered, Effect,
}
use neo4j_python_driver.Work.Results.Reading.{
  rows_of, Finishes, to_come, left, Source, Reading, Given,
}
use neo4j_python_driver.Work.Results.Requests.{
  both, or_true, finished, rounds_buffered, rounds_finished, after_request, request_lem,
  rounds_read, regive, by_source,
}

module _ {A E : Type 0} where
  pub to_come_discarding : (s : QueryResult A E) → s.discarding ≡ true → to_come s ≡ []
  unfolding to_come
  to_come_discarding s d = ground arith

  to_come_rows :
      (s : QueryResult A E)
      → s.attached ≡ true
      → s.discarding ≡ false
      → to_come s ≡ rows_of s.incoming
  unfolding to_come
  to_come_rows s a d = rw (a, d) refl

  -- Results that read the same rows have the same left.
  same_left :
      (s u : QueryResult A E)
      → s.buffer ≡ u.buffer
      → s.attached ≡ u.attached
      → s.discarding ≡ u.discarding
      → rows_of s.incoming ≡ rows_of u.incoming
      → left s ≡ left u
  unfolding left to_come
  same_left s u e a d r = simp (e, a, d, r)

  -- The state in which the next message is processed.
  abbrev pub reader :
      QueryResult A E → Request → Bool → List (Effect E) → List (Message A E) → QueryResult A E
  reader s p x es ms = record (after_request s p x es) { incoming = ms }

  reader-Reading :
      (b : Option Text)
      → (s : QueryResult A E) → (p : Request) → (x more : Bool) → (es : List (Effect E))
      → (ms : List (Message A E)) → Reading b s
      → s.attached ≡ true
      → (x || s.discarding || more) ≡ true
      → Finishes b ms
      → Reading b (record (reader s p x es ms) { has_more = more })
  unfolding Source
  reader-Reading b s p x more es ms v a h f = record {
    no_exception = v.no_exception;
    in_scope = v.in_scope;
    not_consumed = v.not_consumed;
    source = inl (a, h, refl, f);
    drained = v.drained;
  }

  no_rows :
      (c : Option Text) (ms : List (Message A E)) (s : QueryResult A E)
      → s.attached ≡ true
      → s.incoming ≡ success false c ∷ ms
      → to_come s ≡ []
  unfolding rows_of
  no_rows c ms s a i = elim (Bool-cases s.discarding) [
    | inl d ↦ to_come_discarding s d
    | inr d ↦ to_come_rows s a d ∙ ap rows_of i
  ]

  pub rounds-Given :
      (b : Option Text) (ms : List (Message A E)) (s : QueryResult A E)
      → s.incoming ≡ ms
      → Reading b s
      → Given b s.buffer (rounds ms s) (left s)
  unfolding Finishes process on_records on_success on_summary rows_of Source left
  rounds-Given b [] s i v = by_source b [] s v (λ e a h k f. absurd (rw i at f))
  rounds-Given b (row r ∷ ms) s i v = by_source b (row r ∷ ms) s v (λ e a h k f.
      let (p, x, es, q, xt) = request_lem s h k in
      let u = reader s p x es ms in
      let seen = rounds_read (row r) ms s (after_request s p x es) e a q (both x xt) in
      elim (Bool-cases s.discarding) [
        | inl d ↦
            regive b s.buffer _ (rounds ms u) _ (left u)
              (seen
                ∙ ap
                    (λ c.
                      answered
                        (
                          ok tt,
                          (record u { buffer = if c then u.buffer else u.buffer ++ (r ∷ []) }),
                        )
                        (λ w. rounds ms w))
                    d)
              (ap (λ xs. s.buffer ++ xs) (to_come_discarding s d ∙ sym (to_come_discarding u d)))
              (rounds-Given b ms u refl
                (reader-Reading b s p x s.has_more es ms v a (rw xt refl) (rw i at f)))
        | inr d ↦
            let w = record u { buffer = u.buffer ++ (r ∷ []) } in
            let kept = record w { buffer = [] } in
            regive b s.buffer _ (rounds ms w) _ (r ∷ left kept)
              (seen
                ∙ ap
                    (λ c.
                      answered
                        (ok tt, record u { buffer = if c then u.buffer else u.buffer ++ (r ∷ []) })
                        (λ w. rounds ms w))
                    d)
              (ap (λ xs. xs ++ to_come s) e
                ∙ to_come_rows s a d
                ∙ ap rows_of i
                ∙ sym (ap (λ xs. r ∷ xs) (to_come_rows kept a d)))
              (
                kept,
                rounds_buffered ms w r [] (ap (λ xs. xs ++ (r ∷ [])) e),
                (let k = reader-Reading b s p x s.has_more es ms v a (rw xt refl) (rw i at f) in
                    record {
                      no_exception = k.no_exception;
                      in_scope = k.in_scope;
                      not_consumed = k.not_consumed;
                      source = k.source;
                      drained = λ y. ((v.drained y).0, refl);
                    }),
                refl,
                sym (ap (drop 1) e),
              )
      ])
  rounds-Given b (success true c ∷ ms) s i v = by_source b (success true c ∷ ms) s v (λ e a h k f.
      let (p, x, es, q, xt) = request_lem s h k in
      let u = record (reader s p false es ms) { has_more = true } in
      regive b s.buffer _ (rounds ms u) _ (left u)
        (rounds_read (success true c) ms s (after_request s p x es) e a q (both x xt))
        (same_left s u refl refl refl (ap rows_of i))
        (rounds-Given b ms u refl
          (reader-Reading b s p false true es ms v a (or_true s.discarding) (rw i at f))))
  rounds-Given b (success false c ∷ ms) s i v = by_source b (success false c ∷ ms) s v (λ e a h k f.
      let (p, x, es, q, xt) = request_lem s h k in
      let t = after_request s p x es in
      let u = on_success false c (record t { incoming = ms; awaited = false }) in
      regive b s.buffer _ (some (finish u)) _ []
        (rounds_read (success false c) ms s t e a q (both x xt) ∙ rounds_finished ms u e refl)
        (ap (λ xs. xs ++ to_come s) e ∙ no_rows c ms s a i)
        (finished b u
          (record {
            no_exception = v.no_exception;
            in_scope = v.in_scope;
            not_consumed = v.not_consumed;
            source = inr (refl, rw i at f);
            drained = λ x. (refl, e);
          })
          refl e))
  rounds-Given b (failure x ∷ ms) s i v =
      by_source b (failure x ∷ ms) s v (λ e a h k f. absurd (rw i at f))
  rounds-Given b (ignored ∷ ms) s i v =
      by_source b (ignored ∷ ms) s v (λ e a h k f. absurd (rw i at f))
