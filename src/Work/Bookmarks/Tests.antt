-- ===== src/Work/Bookmarks/Tests.antt =====
-- Two sessions that share a bookmark manager.
use neo4j_python_driver.Base.{ℕ, ◌≡◌, refl, true, List, [], ◌∷◌, inl, inr}
use neo4j_python_driver.Work.Bookmarks.{
  contains, manager_update, manager_get, Sessions, got, get_bookmarks, update_bookmark,
}
use neo4j_python_driver.Work.Bookmarks.Causal.{
  Turn, begins, ends, Logged, Covers, happen, history, since, get_bookmarks-Covers,
}

abbrev fresh : Sessions
fresh = record {
  manager = record { bookmarks = [] };
  session =
      λ i. record { initial_bookmarks = []; own_bookmarks = []; last_from_bookmark_manager = [] };
}

-- Sessions 1 and 2 overlap; session 1 then goes on with both bookmarks.
abbrev overlap : List Turn
overlap = begins [] 1 ∷ begins [] 2 ∷ ends 1 70 ∷ ends 2 80 ∷ begins [] 1 ∷ ends 1 90 ∷ []

replaced : (since fresh overlap).sessions.manager.bookmarks ≡ 90 ∷ []
unfolding history happen get_bookmarks update_bookmark got manager_get manager_update
replaced = refl

get_bookmarks-Covers_example :
    (d : ℕ) × (contains d (get_bookmarks [] 2 (since fresh overlap).sessions).1 ≡ true)
    × Covers (since fresh overlap).log d 80
unfolding history happen get_bookmarks update_bookmark got manager_get manager_update Logged
get_bookmarks-Covers_example =
    get_bookmarks-Covers fresh overlap [] 2 (record { bookmark = 80; previous = [] })
      (inr (inl refl))
