-- ===== src/Work/Results/Requests.antt =====
-- Single rounds of the iteration over a result.
use neo4j_python_driver.Base.{
  ◌&&◌, if◌then◌else◌, ◌≡◌, refl, sym, ap, ◌∙◌, Bool, true, false, ◌||◌, Bool-cases, Option, none,
  some, List, [], ◌∷◌, ◌++◌, drop, ok, inl, inr, arith,
}
use neo4j_python_driver.Work.Results.{
  Text, Message, Request, pull, discard, QueryResult, Outcome, send, connection_error, finish,
  at_end, at_end, request, read, read_with, receive, service_unavailable, or_read, rounds, answered,
  Effect, sent,
}
use neo4j_python_driver.Work.Results.Reading.{
  List-cases, Finishes, to_come, left, Source, Reading, Given,
}

pub both : (x : Bool) → x ≡ true → (x && x) ≡ true
both x h = ground (arith, h)

pub or_true : (d : Bool) → (d || true) ≡ true
or_true d = ground arith

module _ {A E : Type 0} where
  -- At the end of the answers.
  pub finished :
      (b : Option Text) (s : QueryResult A E)
      → Reading b s
      → s.attached ≡ false
      → s.buffer ≡ []
      → Given b s.buffer (some (finish s)) []
  unfolding finish at_end Source
  finished b s v a e = (
    record s { exhausted = true },
    rw (v.no_exception, v.in_scope, v.not_consumed) refl,
    record {
      no_exception = v.no_exception;
      in_scope = v.in_scope;
      not_consumed = v.not_consumed;
      source = v.source;
      drained = λ x. (a, e);
    },
    a,
    e,
    refl,
  )

  pub rounds_buffered :
      (ms : List (Message A E)) (s : QueryResult A E) (r : A) (rest : List A)
      → s.buffer ≡ r ∷ rest
      → rounds ms s ≡ some (ok (some r), record s { buffer = rest })
  unfolding rounds
  rounds_buffered [] s r rest e = rw e refl
  rounds_buffered (m ∷ ms) s r rest e = rw e refl

  pub rounds_finished :
      (ms : List (Message A E)) (s : QueryResult A E)
      → s.buffer ≡ []
      → s.attached ≡ false
      → rounds ms s ≡ some (finish s)
  unfolding rounds
  rounds_finished [] s e a =
      ap (λ b. or_read s b (read s.attached s (connection_error service_unavailable) (λ u. none))) e
      ∙ ap (λ b. read b s (connection_error service_unavailable) (λ u. none)) a
  rounds_finished (m ∷ ms) s e a =
      let answer = receive m ms in
      ap (λ b. or_read s b (read s.attached s answer (λ u. rounds ms u))) e
      ∙ ap (λ b. read b s answer (λ u. rounds ms u)) a

  -- A request in addition leaves a result as it is but for these fields.
  abbrev pub after_request : QueryResult A E → Request → Bool → List (Effect E) → QueryResult A E
  after_request s p x es = record s { pending = p; streaming = x; awaited = x; effects = es }

  abbrev unasked : QueryResult A E → Option (QueryResult A E)
  unasked s =
      if s.discarding
      then some (send discard s)
      else if s.has_more
      then some (send pull s)
      else none

  pub request_lem :
      (s : QueryResult A E)
      → (s.streaming || s.discarding || s.has_more) ≡ true
      → s.awaited ≡ s.streaming
      → (p : Request) × (x : Bool) × (es : List (Effect E)) × (request s
          ≡ some (after_request s p x es))
        × (x ≡ true)
  unfolding request send
  request_lem s h k = elim (Bool-cases s.streaming) [
    | inl e ↦ (
      s.pending,
      s.streaming,
      s.effects,
      ap (λ c. if c then some s else unasked s) e ∙ ap (λ w. some (record s { awaited = w })) k,
      e,
    )
    | inr e ↦ elim (Bool-cases s.discarding) [
      | inl d ↦ (discard, true, s.effects ++ (sent discard ∷ []), rw (e, d) refl, refl)
      | inr d ↦ (pull, true, s.effects ++ (sent pull ∷ []), rw (e, d, h2 e d) refl, refl)
    ]
  ]
    where
      h2 : s.streaming ≡ false → s.discarding ≡ false → s.has_more ≡ true
      h2 e d = rw (e, d) at h

  -- A round that reads.
  pub rounds_read :
      (m : Message A E) (ms : List (Message A E)) (s t : QueryResult A E)
      → s.buffer ≡ []
      → s.attached ≡ true
      → request s ≡ some t
      → (t.streaming && t.awaited) ≡ true
      → rounds (m ∷ ms) s ≡ answered (receive m ms t) (λ u. rounds ms u)
  unfolding rounds
  rounds_read m ms s t e a r w =
      let answer = receive m ms in
      ap (λ b. or_read s b (read s.attached s answer (λ u. rounds ms u))) e
      ∙ ap (λ b. read b s answer (λ u. rounds ms u)) a
      ∙ ap (λ o. read_with o answer (λ u. rounds ms u)) r
      ∙ ap (λ c. if c then answered (answer t) (λ u. rounds ms u) else none) w

  pub regive :
      (b : Option Text) (before : List A) (o p : Outcome A E (Option A)) (xs ys : List A)
      → o ≡ p
      → xs ≡ ys
      → Given b before p ys
      → Given b before o xs
  regive b before o p xs ys e f g = rw (e, f) g

  pub left_finished : (s : QueryResult A E) → s.buffer ≡ [] → s.attached ≡ false → left s ≡ []
  unfolding left to_come
  left_finished s e a = rw (e, a) refl

  pub buffered :
      (b : Option Text) (ms : List (Message A E)) (s : QueryResult A E) (r : A) (rest : List A)
      → s.buffer ≡ r ∷ rest
      → Reading b s
      → Given b s.buffer (rounds ms s) (left s)
  unfolding left to_come Source
  buffered b ms s r rest e v =
      regive b s.buffer _ _ _ (r ∷ (rest ++ to_come s)) (rounds_buffered ms s r rest e)
        (ap (λ xs. xs ++ to_come s) e)
        (
          record s { buffer = rest },
          refl,
          record {
            no_exception = v.no_exception;
            in_scope = v.in_scope;
            not_consumed = v.not_consumed;
            source = v.source;
            drained = λ x. absurd (ground (arith, e, (v.drained x).1));
          },
          refl,
          sym (ap (drop 1) e),
        )

  -- What is left to show is the case of a message read.
  pub by_source :
      (b : Option Text) (ms : List (Message A E)) (s : QueryResult A E)
      → Reading b s
      → (s.buffer ≡ []
          → s.attached ≡ true
          → (s.streaming || s.discarding || s.has_more) ≡ true
          → s.awaited ≡ s.streaming
          → Finishes b s.incoming
          → Given b s.buffer (rounds ms s) (left s))
      → Given b s.buffer (rounds ms s) (left s)
  unfolding Source
  by_source b ms s v k = elim (List-cases s.buffer) [
    | inr (r, rest, e) ↦ buffered b ms s r rest e v
    | inl e ↦ elim v.source [
      | inl (a, h, w, f) ↦ k e a h w f
      | inr (a, c) ↦
          regive b s.buffer _ _ _ [] (rounds_finished ms s e a) (left_finished s e a)
            (finished b s v a e)
    ]
  ]
