-- ===== src/Bolt/Ready.antt =====
-- About `is_reset` of the Bolt handlers.
use neo4j_python_driver.Base.{Bool, true, false, List, [], ◌∷◌, map, ◌≡◌, refl, arith}
use neo4j_python_driver.Bolt.States.{
  State, connected, authentication, Message, logoff, reset, Handler, bolt_3, bolt_5x1, server_3,
  server_5x1, transition, Summary, success, ignored, failure, process_summary, process_summaries,
  is_ready, is_reset_message, last_is_reset, is_reset,
}

-- The server has let the client in.
unfoldable pub is_open : State → Bool
is_open connected = false
is_open authentication = false
is_open s = true

-- The answers that keep it so, and that answer every RESET with SUCCESS.
unfoldable pub keeps_open : Message → Summary → Bool
keeps_open logoff summary = false
keeps_open reset (success has_more) = elim has_more [ true ↦ false | false ↦ true ]
keeps_open reset summary = false
keeps_open m summary = true

unfoldable pub keep_open : List (Message × Summary) → Bool
keep_open [] = true
keep_open ((m, summary) ∷ rest) = elim (keeps_open m summary) [
  | true ↦ keep_open rest
  | false ↦ false
]

abbrev not_logoff : Message → Bool
not_logoff logoff = false
not_logoff m = true

is_open-server_3 : (m : Message) (s : State) → is_open s ≡ true → is_open (server_3 s m) ≡ true
unfolding is_open server_3
is_open-server_3 m s h = ground arith

is_open-server_5x1 :
    (m : Message) (s : State)
    → not_logoff m ≡ true
    → is_open s ≡ true
    → is_open (server_5x1 s m) ≡ true
unfolding is_open server_5x1
is_open-server_5x1 m s k h = ground arith

is_open-process_summary :
    (handler : Handler) (m : Message) (summary : Summary) (s : State)
    → keeps_open m summary ≡ true
    → is_open s ≡ true
    → is_open (process_summary handler m summary s) ≡ true
unfolding process_summary transition
is_open-process_summary handler m failure s k h = unfold is_open in refl
is_open-process_summary handler m ignored s k h = h
is_open-process_summary handler m (success true) s k h = h
is_open-process_summary bolt_3 m (success false) s k h = is_open-server_3 m s h
is_open-process_summary bolt_5x1 m (success false) s k h =
    is_open-server_5x1 m s (unfold keeps_open in ground arith) h

-- A RESET that was answered with SUCCESS leaves the server READY.
ready-reset :
    (handler : Handler) (m : Message) (summary : Summary) (s : State)
    → keeps_open m summary ≡ true
    → is_open s ≡ true
    → is_reset_message m ≡ true
    → is_ready (process_summary handler m summary s) ≡ true
unfolding keeps_open is_open is_reset_message is_ready process_summary transition server_3
    server_5x1
ready-reset handler m summary s k h r = ground arith

keep_open_head :
    (m : Message) (summary : Summary) (rest : List (Message × Summary))
    → keep_open ((m, summary) ∷ rest) ≡ true
    → (keeps_open m summary ≡ true) × (keep_open rest ≡ true)
unfolding keep_open
keep_open_head m summary rest h = ground arith

abbrev messages : List (Message × Summary) → List Message
messages = map λ answer. answer.0

-- If `is_reset` holds, the server is READY once it has answered what is pending, however many
-- messages that are and whichever of them failed or were ignored. It needs that the client has been
-- let in, that no LOGOFF is pending, and that the server answers RESET with SUCCESS.
pub is_reset_lem :
    (handler : Handler) (s : State) (answers : List (Message × Summary))
    → is_open s ≡ true
    → keep_open answers ≡ true
    → is_reset s (messages answers) ≡ true
    → is_ready (process_summaries handler answers s) ≡ true
unfolding process_summaries is_reset last_is_reset
is_reset_lem handler s [] h k r = r
is_reset_lem handler s ((m, summary) ∷ []) h k r =
    ready-reset handler m summary s (keep_open_head m summary [] k).0 h r
is_reset_lem handler s ((m, summary) ∷ (n, other) ∷ rest) h k r =
    let (first, tail) = keep_open_head m summary ((n, other) ∷ rest) k in
    is_reset_lem handler (process_summary handler m summary s) ((n, other) ∷ rest)
      (is_open-process_summary handler m summary s first h) tail r
