-- ===== src/Bolt/Connection/Tests.antt =====
-- Runs of a connection.
use neo4j_python_driver.Base.{List, [], ◌∷◌, true, false, ◌≡◌, refl, some, none, err}
use neo4j_python_driver.Base.Int.{pos, negsuc}
use neo4j_python_driver.Bolt.Connection.{
  Setting, new_bolt, transfer, set_defunct, close_lost, close_defunct, kill, close, send_all,
  fetch_message, perform, perform_all, Call, append, sends, fetches, closes, kills, forgets_auth,
  done, os_error, has_commit, sent, socket_closed, deactivated, incomplete_commit, stale, re_auth,
}
use neo4j_python_driver.Bolt.Connection.Shut.{Settled, perform_all-Settled}

abbrev in_pool : Setting
in_pool = record { is_direct = false; has_pool = true; failed = false }

abbrev commit_lost : List Call
commit_lost = append true ∷ sends done ∷ fetches os_error [] ∷ closes done ∷ []

perform_all-Settled_example : Settled (perform_all in_pool commit_lost (new_bolt (some 1)))
perform_all-Settled_example = perform_all-Settled in_pool (some 1) commit_lost

lost_log :
    (perform_all in_pool commit_lost (new_bolt (some 1))).log
    ≡ deactivated ∷ socket_closed ∷ sent ∷ []
unfolding perform_all perform new_bolt send_all fetch_message transfer set_defunct close_lost
    close_defunct close
lost_log = refl

commit_unknown :
    (fetch_message in_pool os_error [] (perform in_pool (append true) (new_bolt (some 1)))).1
    ≡ err incomplete_commit
unfolding perform new_bolt fetch_message set_defunct close_lost close_defunct has_commit
commit_unknown = refl

closed_twice :
    (perform_all in_pool (closes os_error ∷ closes done ∷ kills ∷ []) (new_bolt none)).log
    ≡ socket_closed ∷ []
unfolding perform_all perform new_bolt transfer set_defunct close_lost close kill has_commit
closed_twice = refl

-- Without a lifetime, and with one.
lives_on : stale (negsuc 0) 0 1000 (new_bolt none) ≡ false
unfolding stale new_bolt
lives_on = refl

grows_old : stale (pos 10) 5 15 (new_bolt none) ≡ true
unfolding stale new_bolt
grows_old = refl

same_token : (re_auth (some 1) false (new_bolt (some 1))).1 ≡ false
unfolding re_auth new_bolt
same_token = refl

new_token : (re_auth (some 1) false (perform in_pool forgets_auth (new_bolt (some 1)))).1 ≡ true
unfolding re_auth perform new_bolt
new_token = refl
