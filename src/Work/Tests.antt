-- ===== src/Work/Tests.antt =====
-- Results on messages of their own.
use neo4j_python_driver.Base.{ℕ, ◌≡◌, refl, true, false, none, some, List, [], ◌∷◌, ok, inl, arith}
use neo4j_python_driver.Work.Results.{
  Message, row, success, pull, discard, sent, closed, QueryResult, send, on_summary, on_success,
  on_records, process, at_end, finish, request, rounds, next,
}
use neo4j_python_driver.Work.Results.Operations.{
  iterate, enough, exhaust, fetch, consume, unless_consumed, new_result, run, run_success,
}
use neo4j_python_driver.Work.Results.Reading.{rows_of, Finishes, to_come, left, Source, Reading}
use neo4j_python_driver.Work.Results.Order.{fetch_lem}
use neo4j_python_driver.Work.Results.End.{Ended, iterate_lem, consume_lem}
use neo4j_python_driver.Work.Results.Progress.{Returns, consume-Returns}
use neo4j_python_driver.Work.Results.Steps.{Live}

abbrev answers : List (Message ℕ ℕ)
answers = row 1 ∷ row 2 ∷ success true none ∷ row 3 ∷ success false (some (70 ∷ [])) ∷ []

abbrev opened : QueryResult ℕ ℕ
opened = record {
  buffer = [];
  discarding = false;
  attached = true;
  streaming = true;
  has_more = false;
  exhausted = false;
  consumed = false;
  out_of_scope = false;
  exception = none;
  bookmark = none;
  pending = pull;
  awaited = true;
  incoming = answers;
  effects = sent pull ∷ [];
}

running : run run_success answers ≡ (ok tt, opened)
unfolding run send new_result
running = refl

-- After the first two records the rest is dropped: the server is asked to discard it.
consumed_early :
    consume (record opened { buffer = 8 ∷ 9 ∷ [] })
    ≡ some (
      ok (some (70 ∷ [])),
      record opened {
        attached = false;
        streaming = false;
        exhausted = true;
        consumed = true;
        bookmark = some (70 ∷ []);
        pending = discard;
        awaited = false;
        incoming = [];
        effects = sent pull ∷ sent discard ∷ closed ∷ [];
      },
    )
unfolding consume unless_consumed exhaust iterate next rounds request process on_records on_success
    on_summary send at_end finish
consumed_early = refl

opened-Reading : Reading (some (70 ∷ [])) opened
unfolding Source Finishes
opened-Reading = record {
  no_exception = refl;
  in_scope = refl;
  not_consumed = refl;
  source = inl (refl, refl, refl, refl);
  drained = λ h. absurd (ground arith);
}

opened-Live : Live opened
unfolding Live
opened-Live h = (refl, refl)

fetch_lem_example :
    (t : QueryResult ℕ ℕ) × (fetch 2 opened ≡ some (ok (1 ∷ 2 ∷ []), t))
    × Reading (some (70 ∷ [])) t
    × (left t ≡ 3 ∷ [])
unfolding left to_come rows_of
fetch_lem_example = fetch_lem (some (70 ∷ [])) 2 opened opened-Reading

iterate_lem_example :
    (t : QueryResult ℕ ℕ) × (iterate (enough opened) opened ≡ some (ok (1 ∷ 2 ∷ 3 ∷ []), t))
    × Ended (some (70 ∷ [])) t
unfolding left to_come rows_of
iterate_lem_example = iterate_lem (some (70 ∷ [])) opened opened-Reading

consume_lem_example :
    (t : QueryResult ℕ ℕ) × (consume opened ≡ some (ok (some (70 ∷ [])), t))
    × Ended (some (70 ∷ [])) t
    × (t.consumed ≡ true)
consume_lem_example = consume_lem (some (70 ∷ [])) opened opened-Reading

consume-Returns_example : Returns (consume opened)
consume-Returns_example = consume-Returns opened opened-Live
