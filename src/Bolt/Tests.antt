-- ===== src/Bolt/Tests.antt =====
-- A connection with pending responses.
use neo4j_python_driver.Base.{List, [], ◌∷◌, true, false, ◌≡◌, refl}
use neo4j_python_driver.Bolt.States.{
  Message, Summary, success, ignored, failure, run, pull, reset, logoff, ready, streaming, bolt_3,
  bolt_5x1, process_summaries, process_summary, transition, server_5x1, append_messages, client_3,
  is_reset, last_is_reset, is_reset_message, is_ready,
}
use neo4j_python_driver.Bolt.Responses.{
  Received, record_message, failure_message, unavailable_error, response, callback, on_records,
  on_failure, on_summary, reset_connection, pool_deactivate, raise_error, fetch_response,
  process_message, handle_failure, tell_pool,
}
use neo4j_python_driver.Bolt.Summaries.{count_summaries, ends, once, fetch_response_lem}
use neo4j_python_driver.Bolt.Ready.{is_open, keeps_open, keep_open, is_reset_lem}

abbrev failed_query : List (Message × Summary)
failed_query = (run, failure) ∷ ((pull, ignored) ∷ ((reset, success false) ∷ []))

queried : append_messages bolt_3 (run ∷ pull ∷ []) ready ≡ streaming
unfolding append_messages client_3
queried = refl

-- With LOGOFF pending before it, RESET does not bring the server back to READY.
logged_off :
    is_ready
      (process_summaries bolt_5x1 ((logoff, success false) ∷ ((reset, success false) ∷ [])) ready)
    ≡ false
unfolding process_summaries process_summary transition server_5x1 is_ready
logged_off = refl

is_reset_lem_example : is_ready (process_summaries bolt_5x1 failed_query ready) ≡ true
is_reset_lem_example =
    is_reset_lem bolt_5x1 ready failed_query (unfold is_open in refl)
      (unfold keep_open keeps_open in refl) (unfold is_reset last_is_reset is_reset_message in refl)

-- Two records and a failure: the connection is reset before the handlers are called, and the pool is
-- told before the error is raised again.
abbrev failing_stream : List Received
failing_stream = record_message 2 ∷ record_message 2 ∷ failure_message unavailable_error ∷ []

failing_actions :
    fetch_response true response failing_stream
    ≡ callback on_records
      ∷ callback on_records
      ∷ reset_connection
      ∷ callback on_failure
      ∷ callback on_summary
      ∷ pool_deactivate
      ∷ raise_error unavailable_error
      ∷ []
unfolding fetch_response process_message handle_failure tell_pool
failing_actions = refl

fetch_response_lem_example :
    count_summaries (fetch_response true response failing_stream) ≡ once (ends failing_stream)
fetch_response_lem_example = fetch_response_lem true response failing_stream
