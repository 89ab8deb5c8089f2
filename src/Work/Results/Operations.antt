-- ===== src/Work/Results/Operations.antt =====
-- The operations of a result: reading, buffering and consuming (neo4j/_sync/work/result.py), and what
-- `run` does.
use neo4j_python_driver.Base.{
  ℕ, zero, suc, ◌+◌, Bool, true, false, if◌then◌else◌, leb, Option, none, some, List, [], ◌∷◌, ◌++◌,
  length, take, drop, Result, ok, err,
}
use neo4j_python_driver.Work.Results.{
  Text, Exception, Message, QueryResult, Outcome, is_empty, head, and_then, send, on_summary,
  connection_error, next, neo4j_error, service_unavailable, result_out_of_scope, result_consumed,
  no_records, many_records, pull,
}

module _ {A E : Type 0} where
  -- What a loop does with the outcome of a step.
  abbrev pub go_on :
      (QueryResult A E → Outcome A E (List A)) → Option A → QueryResult A E → Outcome A E (List A)
  go_on rest none t = some (ok [], t)
  go_on rest (some a) t = and_then (rest t) (λ rows u. some (ok (a ∷ rows), u))

  -- `for record in self`, with the records in a list, up to `n` of them.
  unfoldable pub collect : ℕ → QueryResult A E → Outcome A E (List A)
  collect zero s = some (ok [], s)
  collect (suc n) s = and_then (next s) (go_on (collect n))

  -- The same without a bound, on fuel.
  unfoldable pub iterate : ℕ → QueryResult A E → Outcome A E (List A)
  iterate zero s = none
  iterate (suc n) s = and_then (next s) (go_on (iterate n))

  -- More than the records that can come.
  abbrev pub enough : QueryResult A E → ℕ
  enough s = suc (length s.buffer + length s.incoming)

  -- `_exhaust`, given `_exhausted`.
  abbrev pub exhaust_if : Bool → QueryResult A E → Outcome A E (Unit {0})
  exhaust_if true s = some (ok tt, s)
  exhaust_if false s =
      let t = record s { discarding = true; buffer = [] } in
      and_then (iterate (enough t) t) (λ rows u. some (ok tt, u))

  unfoldable pub exhaust : QueryResult A E → Outcome A E (Unit {0})
  exhaust s = exhaust_if s.exhausted s

  -- `_buffer`, with its argument `n` and without.
  unfoldable pub in_use : QueryResult A E → Outcome A E (Unit {0}) → Outcome A E (Unit {0})
  in_use s rest =
      if s.out_of_scope
      then some (err result_out_of_scope, s)
      else if s.consumed
      then some (err result_consumed, s)
      else rest

  -- Given whether there are enough records, and what is read else.
  abbrev pub buffered_or : Bool → QueryResult A E → Outcome A E (List A) → Outcome A E (Unit {0})
  buffered_or true s o = some (ok tt, s)
  buffered_or false s o = and_then o (λ rows t.
      let all = t.buffer ++ rows in
      some (ok tt, record t { buffer = all; exhausted = is_empty all }))

  unfoldable pub buffer_rows : ℕ → QueryResult A E → Outcome A E (Unit {0})
  buffer_rows n s = in_use s (buffered_or (leb n (length s.buffer)) s (collect n s))

  unfoldable pub buffer_all : QueryResult A E → Outcome A E (Unit {0})
  buffer_all s = in_use s (
      and_then (iterate (enough s) s)
        (λ rows t. some (ok tt, record t { buffer = rows; exhausted = is_empty rows })))

  unfoldable pub tx_end : QueryResult A E → Outcome A E (Unit {0})
  tx_end s = and_then (exhaust s) (λ x t. some (ok tt, record t { out_of_scope = true }))

  unfoldable pub tx_failure : Exception E → QueryResult A E → QueryResult A E
  tx_failure e s = record s { attached = false; exception = some e }

  -- `consume`; the summary is left out but for the bookmark.
  unfoldable pub unless_consumed :
      QueryResult A E → Outcome A E (Option Text) → Outcome A E (Option Text)
  unless_consumed s rest =
      if s.out_of_scope
      then some (err result_out_of_scope, s)
      else if s.consumed
      then some (ok s.bookmark, s)
      else rest

  unfoldable pub consume : QueryResult A E → Outcome A E (Option Text)
  consume s =
      unless_consumed s
        (and_then (exhaust s) (λ x t. some (ok t.bookmark, record t { consumed = true })))

  unfoldable pub fetch : ℕ → QueryResult A E → Outcome A E (List A)
  fetch n s =
      and_then (buffer_rows n s)
        (λ x t. some (ok (take n t.buffer), record t { buffer = drop n t.buffer }))

  unfoldable pub peek : QueryResult A E → Outcome A E (Option A)
  peek s = and_then (buffer_rows 1 s) (λ x t. some (ok (head t.buffer), t))

  -- The end of `single`; with more than one record and not `strict` it also warns.
  unfoldable pub only : Bool → List A → Result (Exception E) (Option A)
  only strict [] = if strict then err no_records else ok none
  only strict (r ∷ []) = ok (some r)
  only strict (r ∷ s ∷ rest) = if strict then err many_records else ok (some r)

  unfoldable pub single : Bool → QueryResult A E → Outcome A E (Option A)
  single strict s =
      and_then (buffer_rows 2 s) (λ x t.
        and_then (exhaust (record t { buffer = [] })) (λ y u. some (only strict t.buffer, u)))

-- What the server answers to RUN, if it does.
pub data Answer (E : Type 0) : Type 0 where
  run_success no_answer : Answer E
  run_failure : E → Answer E

-- `_run`: RUN and PULL are sent, and the answer to RUN is read.
module _ {A E : Type 0} where
  unfoldable pub new_result : List (Message A E) → QueryResult A E
  new_result ms = record {
    buffer = [];
    discarding = false;
    attached = false;
    streaming = false;
    has_more = false;
    exhausted = false;
    consumed = false;
    out_of_scope = false;
    exception = none;
    bookmark = none;
    pending = pull;
    awaited = false;
    incoming = ms;
    effects = [];
  }

  unfoldable pub run :
      Answer E → List (Message A E) → Result (Exception E) (Unit {0}) × QueryResult A E
  run run_success ms = (ok tt, record (send pull (new_result ms)) { attached = true })
  run no_answer ms = connection_error service_unavailable (send pull (new_result ms))
  run (run_failure e) ms = connection_error (neo4j_error e) (on_summary (send pull (new_result ms)))
