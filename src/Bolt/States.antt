-- ===== src/Bolt/States.antt =====
-- The state managers: what the driver believes of the server's state, and of its own.
use neo4j_python_driver.Base.{Bool, true, false, List, [], ◌∷◌}

-- `BoltStates`, and `BoltStates5x1`, which adds `authentication`.
pub data State : Type 0 where
  connected authentication ready streaming tx_ready_or_tx_streaming failed : State

-- The `message` of a response.
pub data Message : Type 0 where
  hello logon logoff run begin pull discard commit rollback reset route telemetry : Message

-- The state managers up to Bolt 5.0, and those since 5.1.
pub data Handler : Type 0 where
  bolt_3 bolt_5x1 : Handler

-- `ServerStateManager._STATE_TRANSITIONS`. A pair that is missing keeps the state.
unfoldable pub server_3 : State → Message → State
server_3 connected hello = ready
server_3 ready run = streaming
server_3 ready begin = tx_ready_or_tx_streaming
server_3 streaming pull = ready
server_3 streaming discard = ready
server_3 streaming reset = ready
server_3 tx_ready_or_tx_streaming commit = ready
server_3 tx_ready_or_tx_streaming rollback = ready
server_3 tx_ready_or_tx_streaming reset = ready
server_3 failed reset = ready
server_3 s m = s

-- `ServerStateManager5x1._STATE_TRANSITIONS`
unfoldable pub server_5x1 : State → Message → State
server_5x1 connected hello = authentication
server_5x1 authentication logon = ready
server_5x1 ready run = streaming
server_5x1 ready begin = tx_ready_or_tx_streaming
server_5x1 ready logoff = authentication
server_5x1 streaming pull = ready
server_5x1 streaming discard = ready
server_5x1 streaming reset = ready
server_5x1 tx_ready_or_tx_streaming commit = ready
server_5x1 tx_ready_or_tx_streaming rollback = ready
server_5x1 tx_ready_or_tx_streaming reset = ready
server_5x1 failed reset = ready
server_5x1 s m = s

abbrev pub server_table : Handler → State → Message → State
server_table bolt_3 = server_3
server_table bolt_5x1 = server_5x1

-- `ClientStateManager._STATE_TRANSITIONS` and `ClientStateManager5x1._STATE_TRANSITIONS`.
unfoldable pub client_3 : State → Message → State
client_3 connected hello = ready
client_3 ready run = streaming
client_3 ready begin = tx_ready_or_tx_streaming
client_3 streaming begin = tx_ready_or_tx_streaming
client_3 streaming reset = ready
client_3 tx_ready_or_tx_streaming commit = ready
client_3 tx_ready_or_tx_streaming rollback = ready
client_3 tx_ready_or_tx_streaming reset = ready
client_3 s m = s

unfoldable pub client_5x1 : State → Message → State
client_5x1 connected hello = authentication
client_5x1 authentication logon = ready
client_5x1 ready run = streaming
client_5x1 ready begin = tx_ready_or_tx_streaming
client_5x1 ready logoff = authentication
client_5x1 streaming begin = tx_ready_or_tx_streaming
client_5x1 streaming logoff = authentication
client_5x1 streaming reset = ready
client_5x1 tx_ready_or_tx_streaming commit = ready
client_5x1 tx_ready_or_tx_streaming rollback = ready
client_5x1 tx_ready_or_tx_streaming reset = ready
client_5x1 s m = s

abbrev pub client_table : Handler → State → Message → State
client_table bolt_3 = client_3
client_table bolt_5x1 = client_5x1

-- `ServerStateManager.transition`: `has_more` is in the metadata of the response.
unfoldable pub transition : Handler → Message → Bool → State → State
transition handler m true s = s
transition handler m false s = server_table handler s m

-- The summary with which the server answers a message.
pub data Summary : Type 0 where
  success : Bool → Summary
  ignored failure : Summary

-- What `_process_message` does with the server's state on a summary.
unfoldable pub process_summary : Handler → Message → Summary → State → State
process_summary handler m (success has_more) s = transition handler m has_more s
process_summary handler m ignored s = s
process_summary handler m failure s = failed

-- The answers to the pending responses, in their order.
unfoldable pub process_summaries : Handler → List (Message × Summary) → State → State
process_summaries handler [] s = s
process_summaries handler ((m, summary) ∷ rest) s =
    process_summaries handler rest (process_summary handler m summary s)

-- `_append` tells the state of the client of each message that waits for a response.
unfoldable pub append_messages : Handler → List Message → State → State
append_messages handler [] s = s
append_messages handler (m ∷ ms) s = append_messages handler ms (client_table handler s m)

-- `is_reset`, given the messages of the pending responses: it looks at the last one, and if none is
-- pending, at the server's state.
unfoldable pub is_ready : State → Bool
is_ready ready = true
is_ready s = false

unfoldable pub is_reset_message : Message → Bool
is_reset_message reset = true
is_reset_message m = false

unfoldable pub last_is_reset : Message → List Message → Bool
last_is_reset m [] = is_reset_message m
last_is_reset m (n ∷ ns) = last_is_reset n ns

unfoldable pub is_reset : State → List Message → Bool
is_reset s [] = is_ready s
is_reset s (m ∷ ms) = last_is_reset m ms
