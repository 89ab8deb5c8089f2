-- ===== src/Work/Results/Progress.antt =====
-- That the operations of a result end whatever the server sends.
use neo4j_python_driver.Base.{
  ℕ, zero, suc, ◌<◌, ◌≡◌, refl, ap, ◌∙◌, Bool, true, false, if◌then◌else◌, Option, none, some, List,
  [], ◌∷◌, ◌++◌, take, drop, length, Result, ok, err, arith, leb,
}
use neo4j_python_driver.Work.Results.{
  Text, Exception, Message, QueryResult, Outcome, and_then, result_out_of_scope, result_consumed,
  is_empty, on_summary, connection_error, next, send,
}
use neo4j_python_driver.Work.Results.Operations.{
  go_on, collect, iterate, enough, exhaust_if, exhaust, buffered_or, in_use, buffer_rows,
  unless_consumed, consume, fetch, Answer, run, run_success, run_failure, no_answer, new_result,
}
use neo4j_python_driver.Work.Results.Steps.{given_rows, one_of, Live, size, rounds-Steps}

module _ {A E : Type 0} where
  -- What an operation returns or raises, at least.
  abbrev pub Returns : {X : Type 0} → Outcome A E X → Type 0
  Returns {X} o = (r : Result (Exception E) X) × (t : QueryResult A E) × (o ≡ some (r, t)) × Live t

  and_then-Returns :
      {X Y : Type 0} (o : Outcome A E X) (k : X → QueryResult A E → Outcome A E Y)
      (r : Result (Exception E) X) (t : QueryResult A E)
      → o ≡ some (r, t)
      → Live t
      → ((x : X) → r ≡ ok x → Returns (k x t))
      → Returns (and_then o k)
  and_then-Returns o k (err e) t p l h = (err e, t, ap (λ o. and_then o k) p, l)
  and_then-Returns o k (ok x) t p l h =
      let (r, u, q, m) = h x refl in (r, u, ap (λ o. and_then o k) p ∙ q, m)

  go_on-Returns :
      (rest : QueryResult A E → Outcome A E (List A)) (x : Option A) (t : QueryResult A E)
      → Live t
      → ((a : A) → x ≡ some a → Returns (rest t))
      → Returns (go_on rest x t)
  go_on-Returns rest none t l h = (ok [], t, refl, l)
  go_on-Returns rest (some a) t l h =
      let (r, u, p, m) = h a refl in
      and_then-Returns (rest t) _ r u p m (λ rows e. (ok (a ∷ rows), u, refl, m))

  iterate-Returns : (n : ℕ) (s : QueryResult A E) → Live s → size s < n → Returns (iterate n s)
  unfolding next iterate
  iterate-Returns zero s l h = absurd (omega arith)
  iterate-Returns (suc n) s l h =
      let (r, t, o, m, k) = rounds-Steps s.incoming s refl l in
      and_then-Returns (next s) (go_on (iterate n)) r t o m (λ x e.
        go_on-Returns (iterate n) x t m (λ a f. iterate-Returns n t m (
          let g : given_rows r ≡ 1 =
            ap given_rows e ∙ ap (λ (x : Option A). given_rows (one_of E x)) f in
          omega arith)))

  collect-Returns : (n : ℕ) (s : QueryResult A E) → Live s → Returns (collect n s)
  unfolding next collect
  collect-Returns zero s l = (ok [], s, refl, l)
  collect-Returns (suc n) s l =
      let (r, t, o, m, k) = rounds-Steps s.incoming s refl l in
      and_then-Returns (next s) (go_on (collect n)) r t o m
        (λ x e. go_on-Returns (collect n) x t m (λ a f. collect-Returns n t m))

  exhaust_if-Returns : (c : Bool) (s : QueryResult A E) → Live s → Returns (exhaust_if c s)
  unfolding Live size
  exhaust_if-Returns true s l = (ok tt, s, refl, l)
  exhaust_if-Returns false s l =
      let t = record s { discarding = true; buffer = [] } in
      let (r, u, o, m) =
        iterate-Returns (enough t) t (λ a. (ground arith, (l a).1)) (omega arith) in
      and_then-Returns (iterate (enough t) t) _ r u o m (λ rows e. (ok tt, u, refl, m))

  at_once :
      {X : Type 0} (r : Result (Exception E) X) (s : QueryResult A E)
      → Live s
      → Returns (some (r, s))
  at_once r s l = (r, s, refl, l)

  if-Returns :
      {X : Type 0} (c : Bool) (o p : Outcome A E X)
      → Returns o
      → Returns p
      → Returns (if c then o else p)
  if-Returns true o p h k = h
  if-Returns false o p h k = k

  -- Whatever the server sends, and also if the connection is lost, `consume` returns or raises.
  pub consume-Returns : (s : QueryResult A E) → Live s → Returns (consume s)
  unfolding consume unless_consumed exhaust Live
  consume-Returns s l =
      let (r, t, p, m) = exhaust_if-Returns s.exhausted s l in
      if-Returns s.out_of_scope _ _ (at_once {X = Option Text} (err result_out_of_scope) s l) (
        if-Returns s.consumed _ _ (at_once (ok s.bookmark) s l) (
          and_then-Returns (exhaust s) (λ x t. some (ok t.bookmark, record t { consumed = true })) r
            t p m (λ x e. (ok t.bookmark, record t { consumed = true }, refl, m))))

  buffered_or-Returns :
      (c : Bool) (n : ℕ) (s : QueryResult A E) → Live s → Returns (buffered_or c s (collect n s))
  unfolding Live
  buffered_or-Returns true n s l = (ok tt, s, refl, l)
  buffered_or-Returns false n s l =
      let (r, t, p, m) = collect-Returns n s l in
      and_then-Returns (collect n s) _ r t p m (λ rows e. (
        ok tt,
        record t { buffer = t.buffer ++ rows; exhausted = is_empty (t.buffer ++ rows) },
        refl,
        m,
      ))

  -- The same for `fetch`.
  pub fetch-Returns : (n : ℕ) (s : QueryResult A E) → Live s → Returns (fetch n s)
  unfolding fetch buffer_rows in_use Live
  fetch-Returns n s l =
      let (r, t, p, m) =
        if-Returns s.out_of_scope _ _ (at_once {X = Unit {0}} (err result_out_of_scope) s l) (
          if-Returns s.consumed _ _ (at_once (err result_consumed) s l)
            (buffered_or-Returns (leb n (length s.buffer)) n s l)) in
      and_then-Returns (buffer_rows n s) _ r t p m
        (λ x e. (ok (take n t.buffer), record t { buffer = drop n t.buffer }, refl, m))

  run-Live : (a : Answer E) (ms : List (Message A E)) → Live (run a ms).1
  unfolding run send new_result connection_error on_summary Live
  run-Live run_success ms = λ h. (refl, refl)
  run-Live no_answer ms = λ h. absurd (ground arith)
  run-Live (run_failure e) ms = λ h. absurd (ground arith)
