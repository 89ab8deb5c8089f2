-- ===== src/Bolt/Responses.antt =====
-- `Response` and its subclasses (neo4j/_sync/io/_common.py), and what `Bolt5x0._process_message`
-- (neo4j/_sync/io/_bolt5.py) makes them do. A call of the model is the list of the actions in their
-- order, where no handler raises and the reset raises at most what `on_failure` catches.
use neo4j_python_driver.Base.{ℕ, zero, suc, List, [], ◌∷◌, ◌++◌, Bool, true, false}

pub data Subscriber : Type 0 where
  response init_response logon_response commit_response : Subscriber

-- The keys of `handlers`.
pub data HandlerName : Type 0 where
  on_records on_success on_failure on_ignored on_summary : HandlerName

-- The errors that `_process_message` tells apart: unavailable services and databases, servers that do
-- not accept writes, and all others.
pub data ServerError : Type 0 where
  unavailable_error write_error other_error : ServerError

pub data Action : Type 0 where
  callback : HandlerName → Action
  reset_connection kill_connection pool_deactivate pool_on_write_failure : Action
  pool_on_neo4j_error raise_protocol_error : Action
  raise_error : ServerError → Action

-- A message as it comes in: a RECORD with its number of fields, or the summary of a response.
pub data Received : Type 0 where
  record_message : ℕ → Received
  success_message : Bool → Received
  ignored_message unexpected_message : Received
  failure_message : ServerError → Received

-- `on_success`: the summary comes when there is no more.
unfoldable pub handle_success : Bool → List Action
handle_success true = callback on_success ∷ []
handle_success false = callback on_success ∷ callback on_summary ∷ []

unfoldable pub handle_ignored : List Action
handle_ignored = callback on_ignored ∷ callback on_summary ∷ []

-- `on_failure` of each class, up to the exception.
unfoldable pub handle_failure : Subscriber → List Action
handle_failure init_response = kill_connection ∷ callback on_failure ∷ callback on_summary ∷ []
handle_failure logon_response = kill_connection ∷ callback on_failure ∷ callback on_summary ∷ []
handle_failure subscriber = reset_connection ∷ callback on_failure ∷ callback on_summary ∷ []

-- What `_process_message` does when it catches the exception, given whether there is a pool.
unfoldable pub tell_pool : Bool → ServerError → List Action
tell_pool false e = []
tell_pool true unavailable_error = pool_deactivate ∷ []
tell_pool true write_error = pool_on_write_failure ∷ []
tell_pool true other_error = pool_on_neo4j_error ∷ []

-- `_process_message`. A RECORD without fields does nothing.
unfoldable pub process_message : Bool → Subscriber → Received → List Action
process_message pool subscriber (record_message zero) = []
process_message pool subscriber (record_message (suc n)) = callback on_records ∷ []
process_message pool subscriber (success_message has_more) = handle_success has_more
process_message pool subscriber ignored_message = handle_ignored
process_message pool subscriber unexpected_message = raise_protocol_error ∷ []
process_message pool subscriber (failure_message e) =
    handle_failure subscriber ++ (tell_pool pool e ++ (raise_error e ∷ []))

-- The inner loop of `fetch_all`: messages are processed until the response is complete. Every message
-- but a RECORD completes it.
unfoldable pub fetch_response : Bool → Subscriber → List Received → List Action
fetch_response pool subscriber [] = []
fetch_response pool subscriber (record_message n ∷ rest) =
    process_message pool subscriber (record_message n) ++ fetch_response pool subscriber rest
fetch_response pool subscriber (m ∷ rest) = process_message pool subscriber m
