-- ===== src/Work/Results.antt =====
-- `Result` (neo4j/_sync/work/result.py) as a state, with the handlers of its requests. The connection
-- is the list of the messages that the server has still to send to the result; after them it is lost. A
-- message comes only in answer to a request: without one `fetch_message` returns at once, for ever. A result
-- that does not stream after it has sent a request sends it again, for ever.
-- `effects` lists the requests sent and the calls of `on_closed` and `on_error`. Metadata other than
-- the bookmark is left out. An operation that returns `none` would loop for ever.
pub mod Operations
pub mod Reading
pub mod Requests
pub mod Rounds
pub mod Order
pub mod End
pub mod Steps
pub mod Progress
use neo4j_python_driver.Base.{
  ℕ, zero, suc, ◌+◌, Bool, true, false, ◌&&◌, if◌then◌else◌, leb, Option, none, some, List, [], ◌∷◌,
  ◌++◌, length, take, drop, Result, ok, err,
}

abbrev pub Text : Type 0
Text = List ℕ

pub data Exception (E : Type 0) : Type 0 where
  neo4j_error : E → Exception E
  service_unavailable result_failed result_out_of_scope result_consumed no_records many_records :
      Exception E

-- What the server sends in answer to PULL and DISCARD: `success` with `has_more` and `bookmark`.
pub data Message (A E : Type 0) : Type 0 where
  row : A → Message A E
  success : Bool → Option Text → Message A E
  failure : E → Message A E
  ignored : Message A E

pub data Request : Type 0 where
  pull discard : Request

pub data Effect (E : Type 0) : Type 0 where
  sent : Request → Effect E
  closed : Effect E
  failed : Exception E → Effect E

-- `pending` says which of the two requests has the handlers, and `awaited` that the connection has a
-- request without its summary.
pub record QueryResult (A E : Type 0) : Type 0 where
  pub buffer : List A
  pub discarding : Bool
  pub attached : Bool
  pub streaming : Bool
  pub has_more : Bool
  pub exhausted : Bool
  pub consumed : Bool
  pub out_of_scope : Bool
  pub exception : Option (Exception E)
  pub bookmark : Option Text
  pub pending : Request
  pub awaited : Bool
  pub incoming : List (Message A E)
  pub effects : List (Effect E)

-- What an operation returns or raises, and the result after it.
abbrev pub Outcome : Type 0 → Type 0 → Type 0 → Type 0
Outcome A E X = Option (Result (Exception E) X × QueryResult A E)

abbrev pub still_discarding : Request → Bool → Bool
still_discarding pull b = b
still_discarding discard b = false

module _ {A : Type 0} where
  abbrev pub is_empty : List A → Bool
  is_empty [] = true
  is_empty (r ∷ rest) = false

  abbrev pub head : List A → Option A
  head [] = none
  head (r ∷ rest) = some r

module _ {A E : Type 0} where
  abbrev pub and_then :
      {X Y : Type 0}
      → Option (Result (Exception E) X × QueryResult A E)
      → (X → QueryResult A E → Option (Result (Exception E) Y × QueryResult A E))
      → Option (Result (Exception E) Y × QueryResult A E)
  and_then none k = none
  and_then (some (err e, s)) k = some (err e, s)
  and_then (some (ok x, s)) k = k x s

  abbrev pub put_effect : Effect E → QueryResult A E → QueryResult A E
  put_effect e s = record s { effects = s.effects ++ (e ∷ []) }

  -- `_pull` and `_discard`, which also sends.
  unfoldable pub send : Request → QueryResult A E → QueryResult A E
  send r s = record (put_effect (sent r) s) { pending = r; streaming = true; awaited = true }

  -- `on_summary`, and all that `on_failure` does here.
  unfoldable pub on_summary : QueryResult A E → QueryResult A E
  on_summary s = record (put_effect closed s) { attached = false }

  unfoldable pub on_success : Bool → Option Text → QueryResult A E → QueryResult A E
  on_success more bookmark s =
      let t = record s { streaming = false; has_more = more } in
      if more
      then t
      else on_summary
          (record t { discarding = still_discarding s.pending s.discarding; bookmark = bookmark })

  unfoldable pub on_records : A → QueryResult A E → QueryResult A E
  on_records r s = record s { buffer = if s.discarding then s.buffer else s.buffer ++ (r ∷ []) }

  -- `_connection_error_handler`, and the exception that is raised on.
  unfoldable pub connection_error :
      Exception E → QueryResult A E → Result (Exception E) (Unit {0}) × QueryResult A E
  connection_error e s =
      (err e, record (put_effect (failed e) s) { exception = some e; attached = false })

  -- A response that fails calls `on_failure` and `on_summary`, then raises.
  unfoldable pub process :
      Message A E → QueryResult A E → Result (Exception E) (Unit {0}) × QueryResult A E
  process (row r) s = (ok tt, on_records r s)
  process (success more bookmark) s = (ok tt, on_success more bookmark s)
  process (failure e) s = connection_error (neo4j_error e) (on_summary (on_summary s))
  process ignored s = (ok tt, on_summary s)

  -- The end of `__iter__`, given the exception, `_out_of_scope` and `_consumed`; `ok none` is
  -- `StopIteration`.
  unfoldable pub at_end : Option (Exception E) → Bool → Bool → Result (Exception E) (Option A)
  at_end (some e) out_of_scope consumed = err result_failed
  at_end none true consumed = err result_out_of_scope
  at_end none false true = err result_consumed
  at_end none false false = ok none

  unfoldable pub finish : QueryResult A E → Result (Exception E) (Option A) × QueryResult A E
  finish s = (at_end s.exception s.out_of_scope s.consumed, record s { exhausted = true })

  -- What a round of `__iter__` sends, before the next one reads a message if it then streams.
  unfoldable pub request : QueryResult A E → Option (QueryResult A E)
  request s =
      if s.streaming
      then some s
      else if s.discarding
      then some (send discard s)
      else if s.has_more
      then some (send pull s)
      else none

  abbrev pub answered :
      Result (Exception E) (Unit {0}) × QueryResult A E
      → (QueryResult A E → Outcome A E (Option A))
      → Outcome A E (Option A)
  answered (err e, u) rest = some (err e, u)
  answered (ok x, u) rest = rest u

  abbrev pub read_with :
      Option (QueryResult A E)
      → (QueryResult A E → Result (Exception E) (Unit {0}) × QueryResult A E)
      → (QueryResult A E → Outcome A E (Option A))
      → Outcome A E (Option A)
  read_with none answer rest = none
  read_with (some t) answer rest =
      if t.streaming && t.awaited then answered (answer t) rest else none

  -- One round with an empty buffer, given `attached`, how the next message is processed and what
  -- follows.
  abbrev pub read :
      Bool
      → QueryResult A E
      → (QueryResult A E → Result (Exception E) (Unit {0}) × QueryResult A E)
      → (QueryResult A E → Outcome A E (Option A))
      → Outcome A E (Option A)
  read false s answer rest = some (finish s)
  read true s answer rest = read_with (request s) answer rest

  abbrev pub or_read : QueryResult A E → List A → Outcome A E (Option A) → Outcome A E (Option A)
  or_read s [] o = o
  or_read s (r ∷ rest) o = some (ok (some r), record s { buffer = rest })

  -- A summary is the last message for its request.
  abbrev pub is_row : Message A E → Bool
  is_row (row r) = true
  is_row (success more bookmark) = false
  is_row (failure e) = false
  is_row ignored = false

  abbrev pub receive :
      Message A E
      → List (Message A E)
      → QueryResult A E
      → Result (Exception E) (Unit {0}) × QueryResult A E
  receive m ms t = process m (record t { incoming = ms; awaited = is_row m && t.awaited })

  -- The loop of `__iter__` up to the next record, over the messages to come.
  unfoldable pub rounds : List (Message A E) → QueryResult A E → Outcome A E (Option A)
  rounds [] s =
      or_read s s.buffer (read s.attached s (connection_error service_unavailable) (λ u. none))
  rounds (m ∷ ms) s = or_read s s.buffer (read s.attached s (receive m ms) (λ u. rounds ms u))

  unfoldable pub next : QueryResult A E → Outcome A E (Option A)
  next s = rounds s.incoming s
