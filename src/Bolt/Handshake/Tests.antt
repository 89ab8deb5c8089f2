-- ===== src/Bolt/Handshake/Tests.antt =====
-- The handshake of this driver.
use neo4j_python_driver.Base.{[], ◌∷◌, ◌≡◌, refl, some}
use neo4j_python_driver.Bolt.Handshake.{
  offer, version_list, range_bytes, version_bytes, from_bytes, get_handshake,
}

-- Bolt 4.2 to 4.4 are a range, 4.1 is on its own.
offered : get_handshake ≡ 0 ∷ 4 ∷ 4 ∷ 5 ∷ 0 ∷ 2 ∷ 4 ∷ 4 ∷ 0 ∷ 0 ∷ 1 ∷ 4 ∷ 0 ∷ 0 ∷ 0 ∷ 3 ∷ []
unfolding get_handshake version_list offer range_bytes
offered = refl

chosen : from_bytes (version_bytes (5, 4)) ≡ some (5, 4)
unfolding from_bytes version_bytes
chosen = refl
