-- ===== src/Work/Bookmarks.antt =====
-- `Neo4jBookmarkManager` (neo4j/_sync/bookmark_manager.py) and the bookmarks of sessions that share one
-- (neo4j/_sync/work/workspace.py). Bookmarks are numbers, Python's sets are lists of which only the
-- members count, and what the supplier returns is a parameter. The manager's operations run under its
-- lock, so each is one step.
pub mod Causal
mod Tests
use neo4j_python_driver.Base.{ℕ, Bool, true, false, ◌||◌, ◌==◌, if◌then◌else◌, List, [], ◌∷◌, ◌++◌}

abbrev pub contains : ℕ → List ℕ → Bool
contains b [] = false
contains b (c ∷ cs) = (c == b) || contains b cs

-- `set.difference_update` and `set.update`
abbrev pub difference_update : List ℕ → List ℕ → List ℕ
difference_update [] out = []
difference_update (b ∷ bs) out =
    let rest = difference_update bs out in if contains b out then rest else b ∷ rest

abbrev pub update_set : List ℕ → List ℕ → List ℕ
update_set bs new = bs ++ new

pub record BookmarkManager : Type 0 where
  pub bookmarks : List ℕ

unfoldable pub manager_update : List ℕ → List ℕ → BookmarkManager → BookmarkManager
manager_update previous [] m = m
manager_update previous (b ∷ bs) m = record {
  bookmarks = update_set (difference_update m.bookmarks previous) (b ∷ bs);
}

unfoldable pub manager_get : List ℕ → BookmarkManager → List ℕ
manager_get supplied m = update_set m.bookmarks supplied

-- A session, which is a `Workspace`.
pub record Workspace : Type 0 where
  pub initial_bookmarks : List ℕ
  pub own_bookmarks : List ℕ
  pub last_from_bookmark_manager : List ℕ

pub record Sessions : Type 0 where
  pub manager : BookmarkManager
  pub session : ℕ → Workspace

unfoldable pub got : List ℕ → BookmarkManager → Workspace → List ℕ
got supplied m w = update_set (manager_get supplied m) w.initial_bookmarks

abbrev pub replace : ℕ → Workspace → (ℕ → Workspace) → ℕ → Workspace
replace i w f j = if i == j then w else f j

-- `_get_bookmarks` of a session, which is what a transaction begins with.
unfoldable pub get_bookmarks : List ℕ → ℕ → Sessions → Sessions × List ℕ
get_bookmarks supplied i s =
    let bs = got supplied s.manager (s.session i) in
    (
      record s {
        session = replace i (record (s.session i) { last_from_bookmark_manager = bs }) s.session;
      },
      bs,
    )

-- `_update_bookmark` of a session, when a transaction or a query has ended with a bookmark.
unfoldable pub update_bookmark : ℕ → ℕ → Sessions → Sessions
update_bookmark i b s = record {
  manager = manager_update (s.session i).last_from_bookmark_manager (b ∷ []) s.manager;
  session =
      replace i (record (s.session i) { initial_bookmarks = []; own_bookmarks = b ∷ [] }) s.session;
}
