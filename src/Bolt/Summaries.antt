-- ===== src/Bolt/Summaries.antt =====
-- How often the end of a response is announced.
use neo4j_python_driver.Base.{ℕ, zero, suc, List, [], ◌∷◌, Bool, true, false, ◌≡◌, refl, arith}
use neo4j_python_driver.Bolt.Responses.{
  Subscriber, on_summary, ServerError, Action, callback, Received, record_message, success_message,
  ignored_message, unexpected_message, failure_message, handle_success, handle_ignored,
  handle_failure, tell_pool, process_message, fetch_response,
}

-- The calls of the `on_summary` handler among some actions.
unfoldable pub count_summaries : List Action → ℕ
count_summaries [] = 0
count_summaries (callback on_summary ∷ rest) = suc (count_summaries rest)
count_summaries (action ∷ rest) = count_summaries rest

-- Whether the server ends the response: its first message that is no RECORD is an IGNORED, a FAILURE,
-- or a SUCCESS without more to come.
unfoldable pub ends : List Received → Bool
ends [] = false
ends (record_message n ∷ rest) = ends rest
ends (success_message true ∷ rest) = false
ends (unexpected_message ∷ rest) = false
ends (m ∷ rest) = true

count_handle_failure :
    (pool : Bool) (subscriber : Subscriber) (e : ServerError)
    → count_summaries (process_message pool subscriber (failure_message e)) ≡ 1
unfolding process_message handle_failure tell_pool count_summaries
count_handle_failure pool subscriber e = ground arith

abbrev pub once : Bool → ℕ
once true = 1
once false = 0

-- While a response is fetched, its `on_summary` handler is called exactly once if the server ends the
-- response, and else not at all. This holds for every class of response, with a pool or without, and
-- whatever comes after the end.
pub fetch_response_lem :
    (pool : Bool) (subscriber : Subscriber) (received : List Received)
    → count_summaries (fetch_response pool subscriber received) ≡ once (ends received)
unfolding fetch_response process_message handle_success handle_ignored count_summaries ends
fetch_response_lem pool subscriber [] = refl
fetch_response_lem pool subscriber (record_message zero ∷ rest) =
    fetch_response_lem pool subscriber rest
fetch_response_lem pool subscriber (record_message (suc n) ∷ rest) =
    fetch_response_lem pool subscriber rest
fetch_response_lem pool subscriber (success_message true ∷ rest) = refl
fetch_response_lem pool subscriber (success_message false ∷ rest) = refl
fetch_response_lem pool subscriber (ignored_message ∷ rest) = refl
fetch_response_lem pool subscriber (unexpected_message ∷ rest) = refl
fetch_response_lem pool subscriber (failure_message e ∷ rest) =
    count_handle_failure pool subscriber e
