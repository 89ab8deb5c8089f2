-- ===== src/Work/Results/Steps.antt =====
-- That a step of the iteration ends whatever the server sends.
use neo4j_python_driver.Base.{
  ℕ, ◌+◌, ◌≤◌, ◌≡◌, refl, ap, ◌∙◌, Bool, true, false, ◌||◌, Bool-cases, if◌then◌else◌, Option, none,
  some, List, [], ◌∷◌, ◌++◌, length, length-append, Result, ok, err, inl, inr, arith,
}
use neo4j_python_driver.Work.Results.{
  answered, Exception, Message, row, success, failure, ignored, service_unavailable, neo4j_error,
  QueryResult, Outcome, or_read, read, read_with, finish, at_end, process, on_records, on_success,
  on_summary, connection_error, rounds,
}
use neo4j_python_driver.Work.Results.Reading.{List-cases}
use neo4j_python_driver.Work.Results.Rounds.{reader}
use neo4j_python_driver.Work.Results.Requests.{
  both, rounds_buffered, rounds_finished, rounds_read, request_lem, after_request,
}

pub or_true : (d : Bool) → (d || true) ≡ true
or_true d = ground arith

pub kept_size :
    {A : Type 0} (d : Bool) (xs : List A) (x : A)
    → length (if d then xs else xs ++ (x ∷ [])) ≤ length xs + 1
kept_size true xs x = omega arith
kept_size false xs x = omega (arith, length-append xs (x ∷ []))

abbrev pub given_rows : {A E : Type 0} → Result (Exception E) (Option A) → ℕ
given_rows (err e) = 0
given_rows (ok none) = 0
given_rows (ok (some r)) = 1

pub given_rows-at_end :
    (A E : Type 0) (e : Option (Exception E)) (o c : Bool) → given_rows (at_end {A = A} e o c) ≡ 0
unfolding at_end
given_rows-at_end A E (some e) o c = refl
given_rows-at_end A E none true c = refl
given_rows-at_end A E none false true = refl
given_rows-at_end A E none false false = refl

abbrev pub one_of : {A : Type 0} (E : Type 0) → Option A → Result (Exception E) (Option A)
one_of E x = ok x

module _ {A E : Type 0} where
  -- As long as the result is attached there is something to read or to ask for, and it streams exactly while a
  -- request awaits its summary.
  unfoldable pub Live : QueryResult A E → Type 0
  Live s =
      s.attached ≡ true
      → ((s.streaming || s.discarding || s.has_more) ≡ true) × (s.awaited ≡ s.streaming)

  -- The records that can still come.
  unfoldable pub size : QueryResult A E → ℕ
  size s = length s.buffer + length s.incoming

  -- A step ends, and what it gives is no longer to come.
  abbrev pub Steps : ℕ → Outcome A E (Option A) → Type 0
  Steps n o =
      (r : Result (Exception E) (Option A)) × (t : QueryResult A E) × (o ≡ some (r, t))
      × Live t
      × (size t + given_rows r ≤ n)

  pub Live-detached : (s : QueryResult A E) → s.attached ≡ false → Live s
  unfolding Live
  Live-detached s a h = absurd (ground arith)

  pub Live-asking :
      (s : QueryResult A E)
      → (s.streaming || s.discarding || s.has_more) ≡ true
      → s.awaited ≡ s.streaming
      → Live s
  unfolding Live
  Live-asking s h k a = (h, k)

  pub restep : (n m : ℕ) (o p : Outcome A E (Option A)) → o ≡ p → n ≤ m → Steps n p → Steps m o
  restep n m o p e h (r, t, q, l, k) = (r, t, e ∙ q, l, omega arith)

  -- What is left to show is the case of a message read.
  pub by_attached :
      (ms : List (Message A E)) (s : QueryResult A E)
      → Live s
      → (s.buffer ≡ []
          → s.attached ≡ true
          → (s.streaming || s.discarding || s.has_more) ≡ true
          → s.awaited ≡ s.streaming
          → Steps (size s) (rounds ms s))
      → Steps (size s) (rounds ms s)
  unfolding Live size finish
  by_attached ms s l k = elim (List-cases s.buffer) [
    | inr (r, rest, e) ↦ (
      ok (some r),
      record s { buffer = rest },
      rounds_buffered ms s r rest e,
      l,
      omega (arith, ap length e),
    )
    | inl e ↦ elim (Bool-cases s.attached) [
      | inl a ↦ k e a (l a).0 (l a).1
      | inr a ↦ (
        at_end s.exception s.out_of_scope s.consumed,
        record s { exhausted = true },
        rounds_finished ms s e a,
        l,
        omega (arith, given_rows-at_end A E s.exception s.out_of_scope s.consumed),
      )
    ]
  ]

  pub lost :
      (s : QueryResult A E)
      → s.incoming ≡ []
      → s.buffer ≡ []
      → s.attached ≡ true
      → (s.streaming || s.discarding || s.has_more) ≡ true
      → s.awaited ≡ s.streaming
      → Steps (size s) (rounds [] s)
  unfolding rounds connection_error size
  lost s i e a h k =
      let (p, x, es, q, xt) = request_lem s h k in
      let t = after_request s p x es in
      let u = (connection_error {A = A} service_unavailable t).1 in
      (
        err service_unavailable,
        u,
        ap (λ b. or_read s b (read s.attached s (connection_error service_unavailable) (λ u. none)))
              e
            ∙ ap (λ b. read b s (connection_error service_unavailable) (λ u. none)) a
            ∙ ap (λ o. read_with o (connection_error service_unavailable) (λ u. none)) q
            ∙ ap
                (λ c.
                  if c then answered (connection_error service_unavailable t) (λ u. none) else none)
                (both x xt),
        Live-detached u refl,
        omega arith,
      )

  pub rounds-Steps :
      (ms : List (Message A E)) (s : QueryResult A E)
      → s.incoming ≡ ms
      → Live s
      → Steps (size s) (rounds ms s)
  unfolding process on_records on_success on_summary connection_error size
  rounds-Steps [] s i l = by_attached [] s l (lost s i)
  rounds-Steps (row r ∷ ms) s i l = by_attached (row r ∷ ms) s l (λ e a h k.
      let (p, x, es, q, xt) = request_lem s h k in
      let u = on_records r (reader s p x es ms) in
      restep (size u) (size s) _ (rounds ms u)
        (rounds_read (row r) ms s (after_request s p x es) e a q (both x xt))
        (omega (arith, ap length i, kept_size s.discarding s.buffer r))
        (rounds-Steps ms u refl (Live-asking u (rw xt refl) refl)))
  rounds-Steps (success true c ∷ ms) s i l = by_attached (success true c ∷ ms) s l (λ e a h k.
      let (p, x, es, q, xt) = request_lem s h k in
      let u = on_success true c (record (reader s p x es ms) { awaited = false }) in
      restep (size u) (size s) _ (rounds ms u)
        (rounds_read (success true c) ms s (after_request s p x es) e a q (both x xt))
        (omega (arith, ap length i))
        (rounds-Steps ms u refl (Live-asking u (or_true s.discarding) refl)))
  rounds-Steps (success false c ∷ ms) s i l = by_attached (success false c ∷ ms) s l (λ e a h k.
      let (p, x, es, q, xt) = request_lem s h k in
      let u = on_success false c (record (reader s p x es ms) { awaited = false }) in
      restep (size u) (size s) _ (rounds ms u)
        (rounds_read (success false c) ms s (after_request s p x es) e a q (both x xt))
        (omega (arith, ap length i)) (rounds-Steps ms u refl (Live-detached u refl)))
  rounds-Steps (ignored ∷ ms) s i l = by_attached (ignored ∷ ms) s l (λ e a h k.
      let (p, x, es, q, xt) = request_lem s h k in
      let u = on_summary (record (reader s p x es ms) { awaited = false }) in
      restep (size u) (size s) _ (rounds ms u)
        (rounds_read ignored ms s (after_request s p x es) e a q (both x xt))
        (omega (arith, ap length i)) (rounds-Steps ms u refl (Live-detached u refl)))
  rounds-Steps (failure f ∷ ms) s i l = by_attached (failure f ∷ ms) s l (λ e a h k.
      let (p, x, es, q, xt) = request_lem s h k in
      let u = (process (failure f) (record (reader s p x es ms) { awaited = false })).1 in
      (
        err (neo4j_error f),
        u,
        rounds_read (failure f) ms s (after_request s p x es) e a q (both x xt),
        Live-detached u refl,
        omega (arith, ap length i),
      ))
