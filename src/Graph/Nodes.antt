-- ===== src/Graph/Nodes.antt =====
-- What is known of a node after `hydrate_node`.
use neo4j_python_driver.Base.{
  ℕ, List, [], ◌∷◌, ◌++◌, true, false, ◌||◌, Option, none, some, ◌≡◌, refl, ◌∙◌, ◌==◌, arith,
  Bool-cases, Option-cases, inl, inr, ==_refl,
}
use neo4j_python_driver.Graph.{Node, Graph, set_key, has_label, union, with_node, hydrate_node}

has_label-append :
    (l m : ℕ) (ls : List ℕ) → has_label l (ls ++ (m ∷ [])) ≡ (has_label l ls || (m == l))
unfolding has_label
has_label-append l m [] = ground arith
has_label-append l m (k ∷ ls) = ground (arith, has_label-append l m ls)

has_label-same :
    (l m : ℕ) (ls : List ℕ) → has_label m ls ≡ true → (m == l) ≡ true → has_label l ls ≡ true
has_label-same l m ls h e = let here : m ≡ l = ground (arith, e) in rw (← here) h

has_label-union :
    (l : ℕ) (ls ms : List ℕ) → has_label l (union ls ms) ≡ (has_label l ls || has_label l ms)
unfolding union
has_label-union l ls [] = unfold has_label in ground arith
has_label-union l ls (m ∷ ms) = elim (Bool-cases (has_label m ls)) [
  | inl known ↦
      rw known (has_label-union l ls ms ∙ ground (arith, has_label-same l m ls, known, unfolded))
  | inr new ↦
      rw new
        (has_label-union l (ls ++ (m ∷ [])) ms ∙ ground (arith, has_label-append l m ls, unfolded))
]
  where
    unfolded : has_label l (m ∷ ms) ≡ ((m == l) || has_label l ms)
    unfolded = unfold has_label in refl

module _ {V : Type 0} where
  labels_of : Option (Node V) → List ℕ
  labels_of none = []
  labels_of (some n) = n.labels

  -- A node has the labels that it had and those that were received, whichever came first.
  has_label-hydrate_node :
      (e id l : ℕ) (labels : List ℕ) (properties : List (ℕ × Option V)) (g : Graph V)
      → has_label l (labels_of ((hydrate_node e id labels properties g).nodes e))
        ≡ (has_label l (labels_of (g.nodes e)) || has_label l labels)
  unfolding hydrate_node with_node set_key labels_of
  has_label-hydrate_node e id l labels properties g = elim (Option-cases (g.nodes e)) [
    | inl new ↦ rw (new, ==_refl e) (has_label-union l [] labels)
    | inr (n, known) ↦ rw (known, ==_refl e) (has_label-union l n.labels labels)
  ]

  -- The other nodes stay as they are.
  hydrate_node_other :
      (e id j : ℕ) (labels : List ℕ) (properties : List (ℕ × Option V)) (g : Graph V)
      → (j == e) ≡ false
      → (hydrate_node e id labels properties g).nodes j ≡ g.nodes j
  unfolding hydrate_node with_node set_key
  hydrate_node_other e id j labels properties g h = elim (Option-cases (g.nodes e)) [
    | inl new ↦ rw (new, h) refl
    | inr (n, known) ↦ rw (known, h) refl
  ]
