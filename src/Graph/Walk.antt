-- ===== src/Graph/Walk.antt =====
-- How a path is hydrated (neo4j/_codec/hydration/v1/hydration_handler.py) and built (neo4j/graph/__init__.py).
use neo4j_python_driver.Base.{
  ℕ, suc, ◌-◌, ◌%◌, List, [], ◌∷◌, Bool, true, false, Option, none, some, leb, ◌==◌, if◌then◌else◌,
  length, get_elem?, Result, ok, err,
}
use neo4j_python_driver.Base.Int.{ℤ, pos, negsuc}
use neo4j_python_driver.Graph.{
  GraphError, assertion_error, index_error, value_error, Relationship, Graph, NodePath, set_ends,
}

-- Python's `xs[i]`, and `none` for an `IndexError`.
unfoldable pub item {ℓ} : {A : Type ℓ} → List A → ℤ → Option A
item xs (pos n) = get_elem? xs n
item xs (negsuc n) = if leb (suc n) (length xs) then get_elem? xs (length xs - suc n) else none

-- `Entity.__eq__` of nodes of one graph, of which either may be `None`.
abbrev pub same_node : Option ℕ → Option ℕ → Bool
same_node none none = true
same_node none (some n) = false
same_node (some m) none = false
same_node (some m) (some n) = m == n

abbrev pub start_node_of : {V : Type 0} → Option (Relationship V) → Option ℕ
start_node_of none = none
start_node_of (some r) = r.start_node

abbrev pub end_node_of : {V : Type 0} → Option (Relationship V) → Option ℕ
end_node_of none = none
end_node_of (some r) = r.end_node

-- The index in `relationships` for a number of the sequence that is not 0, and the start and the end
-- that the relationship gets between two nodes of the path.
abbrev pub edge : ℤ → ℕ → ℕ → ℕ × ℕ × ℕ
edge (pos n) last next = (n - 1, last, next)
edge (negsuc k) last next = (k, next, last)

abbrev pub is_zero : ℤ → Bool
is_zero (pos n) = n == 0
is_zero (negsuc k) = false

abbrev pub appended :
    Option ℕ → Result GraphError (List (Option ℕ)) → Result GraphError (List (Option ℕ))
appended n (err e) = err e
appended n (ok ns) = ok (n ∷ ns)

abbrev pub path_of : ℕ → List ℕ → Result GraphError (List (Option ℕ)) → Result GraphError NodePath
path_of start rs (err e) = err e
path_of start rs (ok ns) = ok (record { nodes = some start ∷ ns; relationships = rs })

abbrev pub Walked : Type 0 → Type 0
Walked V = Graph V × Result GraphError (List ℕ)

module _ {V : Type 0} where
  abbrev pub found : ℕ → Walked V → Walked V
  found r (g, err e) = (g, err e)
  found r (g, ok rs) = (g, ok (r ∷ rs))

  unfoldable pub walk_edge : Option ℕ → ℕ → ℕ → (Graph V → Walked V) → Graph V → Walked V
  walk_edge none s t next g = (g, err index_error)
  walk_edge (some r) s t next g = found r (next (set_ends r s t g))

  unfoldable pub walk_to : List ℕ → ℤ → ℕ → Option ℕ → (ℕ → Graph V → Walked V) → Graph V → Walked V
  walk_to relationships index last none next g = (g, err index_error)
  walk_to relationships index last (some n) next g =
      let (i, s, t) = edge index last n in walk_edge (get_elem? relationships i) s t (next n) g

  -- The loop of `hydrate_path` from a node, over the rest of the sequence, with the relationships that
  -- it finds.
  unfoldable pub walk : List ℕ → List ℕ → ℕ → List ℤ → Graph V → Walked V
  walk nodes relationships last [] g = (g, ok [])
  walk nodes relationships last (index ∷ []) g = (g, err index_error)
  walk nodes relationships last (index ∷ node ∷ rest) g =
      if is_zero index
      then (g, err assertion_error)
      else walk_to relationships index last (item nodes node) (λ n. walk nodes relationships n rest)
          g

  -- `Path.__init__`: the nodes after the last one.
  unfoldable pub connect_nodes : Graph V → Option ℕ → List ℕ → Result GraphError (List (Option ℕ))
  connect_nodes g last [] = ok []
  connect_nodes g last (r ∷ rs) =
      let s = start_node_of (g.relationships r) in
      let t = end_node_of (g.relationships r) in
      if same_node s last
      then appended t (connect_nodes g t rs)
      else if same_node t last
      then appended s (connect_nodes g s rs)
      else err value_error

  unfoldable pub new_path : Graph V → ℕ → List ℕ → Result GraphError NodePath
  new_path g start rs = path_of start rs (connect_nodes g (some start) rs)

  abbrev pub path_walked : ℕ → Walked V → Graph V × Result GraphError NodePath
  path_walked start (g, err e) = (g, err e)
  path_walked start (g, ok rs) = (g, new_path g start rs)

  -- `hydrate_path`
  unfoldable pub hydrate_path :
      List ℕ → List ℕ → List ℤ → Graph V → Graph V × Result GraphError NodePath
  hydrate_path [] relationships sequence g = (g, err assertion_error)
  hydrate_path (n ∷ ns) relationships sequence g =
      if length sequence % 2 == 0
      then path_walked n (walk (n ∷ ns) relationships n sequence g)
      else (g, err assertion_error)
