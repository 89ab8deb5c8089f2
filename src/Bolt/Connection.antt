-- ===== src/Bolt/Connection.antt =====
-- The life of a connection (`Bolt` in neo4j/_sync/io/_bolt.py): sending, reading, closing, and what happens
-- when the network fails. What the socket does in a call is an argument. The processing of a message
-- changes what is pending; a request that it makes is a call after it.
pub mod Shut
mod Tests
use neo4j_python_driver.Base.{
  ℕ, List, [], ◌∷◌, ◌++◌, Bool, true, false, not, ◌&&◌, ◌||◌, Option, none, some, leb, ◌==◌,
  if◌then◌else◌, Result, ok, err, ◌-◌,
}
use neo4j_python_driver.Base.Int.{ℤ, pos, negsuc}

-- What the connection does to the outside.
pub data Effect : Type 0 where
  sent socket_closed socket_killed deactivated : Effect

-- `ServiceUnavailable`, `SessionExpired`, `IncompleteCommit`, `CancelledError`.
pub data BoltError : Type 0 where
  service_unavailable session_expired incomplete_commit cancelled : BoltError

-- The pending responses: `true` is a `CommitResponse`. `log` has the latest effect first. The token of
-- `auth_dict` is known by a number, and `none` is the empty dict.
pub record Bolt : Type 0 where
  pub closing : Bool
  pub closed : Bool
  pub defunct : Bool
  pub is_stale : Bool
  pub responses : List Bool
  pub auth_dict : Option ℕ
  pub log : List Effect

unfoldable pub new_bolt : Option ℕ → Bolt
new_bolt auth = record {
  closing = false;
  closed = false;
  defunct = false;
  is_stale = false;
  responses = [];
  auth_dict = auth;
  log = [];
}

-- The driver is a direct one, the connection belongs to a pool, the server's state is FAILED.
pub record Setting : Type 0 where
  pub is_direct : Bool
  pub has_pool : Bool
  pub failed : Bool

-- How a write or a read ends.
pub data Transfer : Type 0 where
  done os_error transfer_cancelled : Transfer

-- The connection after a call, and what the call raises.
abbrev pub Called : Type 0
Called = Bolt × Result BoltError (Unit {0})

-- `kill`
unfoldable pub kill : Bolt → Bolt
kill c =
    if c.closed then c else record c { closing = true; closed = true; log = socket_killed ∷ c.log }

-- The end of `close`.
abbrev pub shut : Bolt → Bolt
shut c = record c { closed = true; log = socket_closed ∷ c.log }

-- `close` of a connection that is defunct.
unfoldable pub close_defunct : Bolt → Bolt
close_defunct c = if c.closed || c.closing then c else shut (record c { closing = true })

unfoldable pub has_commit : List Bool → Bool
has_commit [] = false
has_commit (commit ∷ rs) = commit || has_commit rs

-- The calls of a connection: `_append` with the response of a request, and those above.
pub data Call : Type 0 where
  append : Bool → Call
  sends : Transfer → Call
  fetches : Transfer → List Bool → Call
  closes : Transfer → Call
  kills outdates forgets_auth : Call

abbrev pub is_nothing : List Bool → Bool
is_nothing [] = true
is_nothing (r ∷ rs) = false

module _ (s : Setting) where
  abbrev pub lost_error : List Bool → BoltError
  lost_error responses =
      if has_commit responses
      then incomplete_commit
      else if s.is_direct
      then service_unavailable
      else session_expired

  -- The address is deactivated when the connection was not being closed.
  unfoldable pub close_lost : Bolt → Bolt
  close_lost c =
      let c' = close_defunct c in
      if c.closing
      then c
      else if s.has_pool && not s.failed
      then record c' { log = deactivated ∷ c'.log }
      else c'

  -- `_set_defunct`, not silent.
  unfoldable pub set_defunct : Transfer → Bolt → Called
  set_defunct done c = (c, ok tt)
  set_defunct transfer_cancelled c = (kill (record c { defunct = true }), err cancelled)
  set_defunct os_error c =
      let c' = close_lost (record c { defunct = true }) in (c', err (lost_error c'.responses))

  -- `_send_all`, if there is something to send.
  unfoldable pub transfer : Transfer → Bolt → Called
  transfer done c = (record c { log = sent ∷ c.log }, ok tt)
  transfer os_error c = set_defunct os_error c
  transfer transfer_cancelled c = set_defunct transfer_cancelled c

  -- `close`: a cancellation is raised again, other errors of GOODBYE are ignored.
  abbrev pub shut_unless_cancelled : Called → Called
  shut_unless_cancelled (c, ok tt) = (shut c, ok tt)
  shut_unless_cancelled (c, err cancelled) = (c, err cancelled)
  shut_unless_cancelled (c, err service_unavailable) = (shut c, ok tt)
  shut_unless_cancelled (c, err session_expired) = (shut c, ok tt)
  shut_unless_cancelled (c, err incomplete_commit) = (shut c, ok tt)

  unfoldable pub close : Transfer → Bolt → Called
  close t c =
      let c' = record c { closing = true } in
      let goodbye = record c' { responses = c'.responses ++ (false ∷ []) } in
      if c.closed || c.closing
      then (c, ok tt)
      else if c.defunct
      then (shut c', ok tt)
      else shut_unless_cancelled (transfer t goodbye)

  -- `send_all`
  unfoldable pub send_all : Transfer → Bolt → Called
  send_all t c = if c.closed || c.defunct then (c, err service_unavailable) else transfer t c

  -- The message that was read: `after` is what is pending once it was processed.
  abbrev pub received : Transfer → List Bool → Bolt → Called
  received done after c = (record c { responses = after }, ok tt)
  received os_error after c = set_defunct os_error c
  received transfer_cancelled after c = set_defunct transfer_cancelled c

  -- `fetch_message`
  unfoldable pub fetch_message : Transfer → List Bool → Bolt → Called
  fetch_message t after c =
      if c.closed || c.defunct
      then (c, err service_unavailable)
      else if is_nothing c.responses
      then (c, ok tt)
      else received t after c

  unfoldable pub perform : Call → Bolt → Bolt
  perform (append commit) c = record c { responses = c.responses ++ (commit ∷ []) }
  perform (sends t) c = (send_all t c).0
  perform (fetches t after) c = (fetch_message t after c).0
  perform (closes t) c = (close t c).0
  perform kills c = kill c
  perform outdates c = record c { is_stale = true }
  perform forgets_auth c = record c { auth_dict = none }

  unfoldable pub perform_all : List Call → Bolt → Bolt
  perform_all [] c = c
  perform_all (a ∷ as') c = perform_all as' (perform a c)

-- `stale` at a time: a negative lifetime is none.
abbrev pub outlived : ℤ → ℕ → Bool
outlived (pos lifetime) age = leb lifetime age
outlived (negsuc n) age = false

unfoldable pub stale : ℤ → ℕ → ℕ → Bolt → Bool
stale max_connection_lifetime created now c =
    c.is_stale || outlived max_connection_lifetime (now - created)

-- `re_auth` of Bolt 5.1 and later: whether LOGOFF and LOGON are appended. The connection has the new token at once.
abbrev pub same_auth : Option ℕ → Option ℕ → Bool
same_auth none none = true
same_auth none (some b) = false
same_auth (some a) none = false
same_auth (some a) (some b) = a == b

unfoldable pub re_auth : Option ℕ → Bool → Bolt → Bolt × Bool
re_auth auth force c =
    if not force && same_auth auth c.auth_dict
    then (c, false)
    else (record c { auth_dict = auth; responses = c.responses ++ (false ∷ false ∷ []) }, true)
