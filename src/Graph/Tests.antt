-- ===== src/Graph/Tests.antt =====
-- Paths of two nodes.
use neo4j_python_driver.Base.{
  ℕ, zero, suc, List, [], ◌∷◌, some, ◌≡◌, refl, get_elem?, map, All, ok, err, arith,
}
use neo4j_python_driver.Base.Int.{ℤ, pos, negsuc}
use neo4j_python_driver.Graph.{
  Relationship, Graph, set_key, new_graph, with_node, hydrate_node, with_relationship,
  hydrate_unbound_relationship, value_error, set_ends,
}
use neo4j_python_driver.Graph.Walk.{
  item, start_node_of, end_node_of, walk, walk_to, walk_edge, connect_nodes, new_path, hydrate_path,
}
use neo4j_python_driver.Graph.Paths.{Describes, arrived, forward, backward, hydrate_path-Describes}

-- Nodes 7 and 8 with relationship 5.
abbrev small : Graph ℕ
small =
    hydrate_unbound_relationship 5 50 1 []
      (hydrate_node 8 80 [] [] (hydrate_node 7 70 (3 ∷ []) [] new_graph))

known :
    (k r : ℕ)
    → get_elem? (5 ∷ []) k ≡ some r
    → (x : Relationship ℕ) × (small.relationships r ≡ some x)
unfolding hydrate_unbound_relationship with_relationship hydrate_node with_node set_key new_graph
known zero r h = let here : 5 ≡ r = cc in rw (← here) (_, refl)
known (suc k) r h = absurd (ground (arith, h))

-- From 7 to 8 and back over the same relationship.
abbrev there_and_back : List ℤ
there_and_back = pos 1 ∷ pos 1 ∷ negsuc 0 ∷ pos 0 ∷ []

described :
    Describes (7 ∷ 8 ∷ []) (5 ∷ []) (λ r. 7) (λ r. 8) 7 there_and_back (8 ∷ 7 ∷ []) (5 ∷ 5 ∷ [])
unfolding item
described =
    forward 7 0 8 5 (pos 1) (negsuc 0 ∷ pos 0 ∷ []) (7 ∷ []) (5 ∷ []) refl refl refl refl
      (backward 8 0 7 5 (pos 0) [] [] [] refl refl refl refl (arrived 7))

hydrate_path-Describes_example :
    (h : Graph ℕ) × (hydrate_path (7 ∷ 8 ∷ []) (5 ∷ []) there_and_back small
      ≡ (h, ok (record { nodes = map some (7 ∷ 8 ∷ 7 ∷ []); relationships = 5 ∷ 5 ∷ [] })))
    × All
        (λ r.
          (start_node_of (h.relationships r) ≡ some 7) × (end_node_of (h.relationships r) ≡ some 8))
        (5 ∷ 5 ∷ [])
hydrate_path-Describes_example =
    hydrate_path-Describes 7 (8 ∷ []) (5 ∷ []) (λ r. 7) (λ r. 8) there_and_back (8 ∷ 7 ∷ [])
      (5 ∷ 5 ∷ []) small described known

-- A relationship that the path goes over twice forwards, between different nodes, keeps the last ends, and the path
-- does not hang together.
twice_forward :
    (hydrate_path (7 ∷ 8 ∷ []) (5 ∷ []) (pos 1 ∷ pos 1 ∷ pos 1 ∷ pos 1 ∷ []) small).1
    ≡ err value_error
unfolding hydrate_path walk walk_to walk_edge item connect_nodes new_path set_ends
    hydrate_unbound_relationship with_relationship hydrate_node with_node set_key new_graph
twice_forward = refl
