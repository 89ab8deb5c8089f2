-- ===== src/Bolt/Connection/Shut.antt =====
-- A connection shuts its socket once, and sends nothing afterwards.
use neo4j_python_driver.Base.{
  ℕ, List, [], ◌∷◌, ◌++◌, Bool, true, false, not, ◌&&◌, ◌||◌, Option, err, ◌≡◌, refl, arith,
  Bool-cases, inl, inr,
}
use neo4j_python_driver.Bolt.Connection.{
  Effect, sent, socket_closed, socket_killed, deactivated, Bolt, new_bolt, Setting, Transfer, done,
  os_error, transfer_cancelled, kill, close_defunct, close_lost, set_defunct, transfer,
  shut_unless_cancelled, close, send_all, fetch_message, BoltError, cancelled, service_unavailable,
  session_expired, incomplete_commit, lost_error, has_commit, Call, append, sends, fetches, closes,
  kills, outdates, forgets_auth, perform, perform_all,
}

abbrev pub shuts : Effect → Bool
shuts socket_closed = true
shuts socket_killed = true
shuts sent = false
shuts deactivated = false

abbrev pub has_shut : List Effect → Bool
has_shut [] = false
has_shut (e ∷ l) = shuts e || has_shut l

-- Before a write, and before the socket is shut, it was not shut.
abbrev pub Orderly : List Effect → Type 0
Orderly [] = Unit
Orderly (deactivated ∷ l) = Orderly l
Orderly (sent ∷ l) = (has_shut l ≡ false) × Orderly l
Orderly (socket_closed ∷ l) = (has_shut l ≡ false) × Orderly l
Orderly (socket_killed ∷ l) = (has_shut l ≡ false) × Orderly l

-- Between calls, the connection is closed exactly if its socket was shut, it is not about to be closed, and it is closed if
-- it is defunct.
abbrev pub Settled : Bolt → Type 0
Settled c =
    Orderly c.log
    × (has_shut c.log ≡ c.closed)
    × (c.closing ≡ c.closed)
    × (c.defunct ≡ true → c.closed ≡ true)

abbrev is_cancelled : BoltError → Bool
is_cancelled cancelled = true
is_cancelled service_unavailable = false
is_cancelled session_expired = false
is_cancelled incomplete_commit = false

abbrev connection : Bool → Bool → Bool → Bool → List Bool → Option ℕ → List Effect → Bolt
connection closing closed defunct stale responses auth log = record {
  closing = closing;
  closed = closed;
  defunct = defunct;
  is_stale = stale;
  responses = responses;
  auth_dict = auth;
  log = log;
}

lost_error_lem : (s : Setting) (rs : List Bool) → is_cancelled (lost_error s rs) ≡ false
lost_error_lem s rs = elim (Bool-cases (has_commit rs)) [
  | inl pending ↦ rw pending refl
  | inr free ↦ elim (Bool-cases s.is_direct) [
    | inl direct ↦ rw (free, direct) refl
    | inr routed ↦ rw (free, routed) refl
  ]
]

module _ (s : Setting) (stale : Bool) (auth : Option ℕ) (l : List Effect) where
  -- Calls on a connection that is open.
  module _ (o : Orderly l) (h : has_shut l ≡ false) where
    abbrev opened : List Bool → Bolt
    opened rs = connection false false false stale rs auth l

    opened-Settled : (rs : List Bool) → Settled (opened rs)
    opened-Settled rs = (o, h, refl, λ e. e)

    set_defunct-Settled : (t : Transfer) (rs : List Bool) → Settled (set_defunct s t (opened rs)).0
    unfolding set_defunct close_lost close_defunct kill
    set_defunct-Settled done rs = opened-Settled rs
    set_defunct-Settled transfer_cancelled rs = ((h, o), refl, refl, λ e. refl)
    set_defunct-Settled os_error rs = elim (Bool-cases (s.has_pool && not s.failed)) [
      | inl found ↦ rw found ((h, o), refl, refl, λ e. refl)
      | inr lonely ↦ rw lonely ((h, o), refl, refl, λ e. refl)
    ]

    send_all-Settled : (t : Transfer) (rs : List Bool) → Settled (send_all s t (opened rs)).0
    unfolding send_all transfer
    send_all-Settled done rs = ((h, o), h, refl, λ e. e)
    send_all-Settled transfer_cancelled rs = set_defunct-Settled transfer_cancelled rs
    send_all-Settled os_error rs = set_defunct-Settled os_error rs

    fetch_message-Settled :
        (t : Transfer) (rs after : List Bool) → Settled (fetch_message s t after (opened rs)).0
    unfolding fetch_message
    fetch_message-Settled t [] after = opened-Settled []
    fetch_message-Settled done (r ∷ rs) after = opened-Settled after
    fetch_message-Settled transfer_cancelled (r ∷ rs) after =
        set_defunct-Settled transfer_cancelled (r ∷ rs)
    fetch_message-Settled os_error (r ∷ rs) after = set_defunct-Settled os_error (r ∷ rs)

    -- What `close` does after a write that failed.
    shut_lost-Settled :
        (e : BoltError) (rs : List Bool)
        → is_cancelled e ≡ false
        → Settled (shut_unless_cancelled s (connection true false true stale rs auth l, err e)).0
    shut_lost-Settled cancelled rs n = absurd (ground (arith, n))
    shut_lost-Settled service_unavailable rs n = ((h, o), refl, refl, λ e. refl)
    shut_lost-Settled session_expired rs n = ((h, o), refl, refl, λ e. refl)
    shut_lost-Settled incomplete_commit rs n = ((h, o), refl, refl, λ e. refl)

    close-Settled : (t : Transfer) (rs : List Bool) → Settled (close s t (opened rs)).0
    unfolding close transfer set_defunct close_lost kill
    close-Settled done rs = ((h, (h, o)), refl, refl, λ e. refl)
    close-Settled transfer_cancelled rs = ((h, o), refl, refl, λ e. refl)
    close-Settled os_error rs =
        let goodbye = rs ++ (false ∷ []) in
        shut_lost-Settled (lost_error s goodbye) goodbye (lost_error_lem s goodbye)

  -- A connection that is closed stays as it is, but for what a call adds to its fields.
  module _ (o : Orderly l) (h : has_shut l ≡ true) (b : Bool) where
    perform_closed-Settled :
        (a : Call) (rs : List Bool) → Settled (perform s a (connection true true b stale rs auth l))
    unfolding perform send_all fetch_message close kill
    perform_closed-Settled (append x) rs = (o, h, refl, λ e. refl)
    perform_closed-Settled (sends t) rs = (o, h, refl, λ e. refl)
    perform_closed-Settled (fetches t after) rs = (o, h, refl, λ e. refl)
    perform_closed-Settled (closes t) rs = (o, h, refl, λ e. refl)
    perform_closed-Settled kills rs = (o, h, refl, λ e. refl)
    perform_closed-Settled outdates rs = (o, h, refl, λ e. refl)
    perform_closed-Settled forgets_auth rs = (o, h, refl, λ e. refl)

module _ (s : Setting) where
  perform_opened-Settled :
      (a : Call) (stale : Bool) (rs : List Bool) (auth : Option ℕ) (l : List Effect)
      → Orderly l
      → has_shut l ≡ false
      → Settled (perform s a (connection false false false stale rs auth l))
  unfolding perform kill
  perform_opened-Settled (append x) stale rs auth l o h = (o, h, refl, λ e. e)
  perform_opened-Settled (sends t) stale rs auth l o h = send_all-Settled s stale auth l o h t rs
  perform_opened-Settled (fetches t after) stale rs auth l o h =
      fetch_message-Settled s stale auth l o h t rs after
  perform_opened-Settled (closes t) stale rs auth l o h = close-Settled s stale auth l o h t rs
  perform_opened-Settled kills stale rs auth l o h = ((h, o), refl, refl, λ e. refl)
  perform_opened-Settled outdates stale rs auth l o h = (o, h, refl, λ e. e)
  perform_opened-Settled forgets_auth stale rs auth l o h = (o, h, refl, λ e. e)

  perform_fields-Settled :
      (a : Call) (closing closed defunct stale : Bool) (rs : List Bool) (auth : Option ℕ)
      (l : List Effect)
      → Settled (connection closing closed defunct stale rs auth l)
      → Settled (perform s a (connection closing closed defunct stale rs auth l))
  perform_fields-Settled a false false false stale rs auth l (o, h, e, d) =
      perform_opened-Settled a stale rs auth l o h
  perform_fields-Settled a false false true stale rs auth l (o, h, e, d) =
      absurd (ground (arith, d refl))
  perform_fields-Settled a true true b stale rs auth l (o, h, e, d) =
      perform_closed-Settled s stale auth l o h b a rs
  perform_fields-Settled a false true b stale rs auth l (o, h, e, d) = absurd (ground (arith, e))
  perform_fields-Settled a true false b stale rs auth l (o, h, e, d) = absurd (ground (arith, e))

  perform-Settled : (a : Call) (c : Bolt) → Settled c → Settled (perform s a c)
  perform-Settled a c settled =
      perform_fields-Settled a c.closing c.closed c.defunct c.is_stale c.responses c.auth_dict c.log
        settled

  perform_all_from-Settled :
      (as' : List Call) (c : Bolt) → Settled c → Settled (perform_all s as' c)
  unfolding perform_all
  perform_all_from-Settled [] c settled = settled
  perform_all_from-Settled (a ∷ as') c settled =
      perform_all_from-Settled as' (perform s a c) (perform-Settled a c settled)

-- After any calls, whatever the network does in them, the socket of a connection was shut at most once, and nothing was
-- written to it afterwards. The connection is closed exactly if its socket was shut, so it is not left half closed, and
-- a connection that is defunct is closed.
pub perform_all-Settled :
    (s : Setting) (auth : Option ℕ) (calls : List Call)
    → Settled (perform_all s calls (new_bolt auth))
unfolding new_bolt
perform_all-Settled s auth calls =
    perform_all_from-Settled s calls (new_bolt auth) (tt, refl, refl, λ e. e)
