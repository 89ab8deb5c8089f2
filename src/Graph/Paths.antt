-- ===== src/Graph/Paths.antt =====
-- What `hydrate_path` returns.
use neo4j_python_driver.Base.{
  ℕ, suc, ◌%◌, List, [], ◌∷◌, true, false, some, ◌≡◌, refl, ap, inl, inr, ◌==◌, length, get_elem?,
  map, All, ok, arith, Bool-cases, ==_refl,
}
use neo4j_python_driver.Base.Int.{ℤ, pos, negsuc}
use neo4j_python_driver.Graph.{Relationship, Graph, set_ends}
use neo4j_python_driver.Graph.Walk.{
  item, start_node_of, end_node_of, edge, is_zero, Walked, found, walk_edge, walk_to, walk,
  connect_nodes, new_path, hydrate_path,
}

-- A sequence that describes a path from `last` through the nodes `ns` over the relationships `rs`, each of
-- which goes from `starts` to `ends`.
pub data Describes (nodes relationships : List ℕ) (starts ends : ℕ → ℕ)
    : ℕ → List ℤ → List ℕ → List ℕ → Type 0 where
  arrived : (last : ℕ) → Describes nodes relationships starts ends last [] [] []
  forward :
      (last k n r : ℕ) (node : ℤ) (sequence : List ℤ) (ns rs : List ℕ)
      → item nodes node ≡ some n
      → get_elem? relationships k ≡ some r
      → starts r ≡ last
      → ends r ≡ n
      → Describes nodes relationships starts ends n sequence ns rs
      → Describes nodes relationships starts ends last
          (pos (suc k) ∷ node ∷ sequence)
          (n ∷ ns)
          (r ∷ rs)
  backward :
      (last k n r : ℕ) (node : ℤ) (sequence : List ℤ) (ns rs : List ℕ)
      → item nodes node ≡ some n
      → get_elem? relationships k ≡ some r
      → starts r ≡ n
      → ends r ≡ last
      → Describes nodes relationships starts ends n sequence ns rs
      → Describes nodes relationships starts ends last
          (negsuc k ∷ node ∷ sequence)
          (n ∷ ns)
          (r ∷ rs)

omega_zero : (k : ℕ) → (suc k == 0) ≡ false
omega_zero k = ground arith

module _ {V : Type 0} (starts ends : ℕ → ℕ) where
  -- The relationship is there and has its ends.
  Bound : Graph V → ℕ → Type 0
  Bound g r =
      (start_node_of (g.relationships r) ≡ some (starts r))
      × (end_node_of (g.relationships r) ≡ some (ends r))

  Known : Graph V → ℕ → Type 0
  Known g r = (x : Relationship V) × (g.relationships r ≡ some x)

  -- What a walk keeps: relationships that have their ends, and those that are known.
  record Keeps (g h : Graph V) : Type 0 where
    bounds : (r : ℕ) → Bound g r → Bound h r
    knows : (r : ℕ) → Known g r → Known h r

  Keeps-trans : (g h k : Graph V) → Keeps g h → Keeps h k → Keeps g k
  Keeps-trans g h k a b = record {
    bounds = λ r x. b.bounds r (a.bounds r x);
    knows = λ r x. b.knows r (a.knows r x);
  }

  set_ends-Bound : (r : ℕ) (g : Graph V) → Known g r → Bound (set_ends r (starts r) (ends r) g) r
  unfolding set_ends Bound Known
  set_ends-Bound r g (x, e) = rw (==_refl r, e) (refl, refl)

  set_ends-Keeps : (r : ℕ) (g : Graph V) → Known g r → Keeps g (set_ends r (starts r) (ends r) g)
  unfolding set_ends Bound Known
  set_ends-Keeps r g (x, e) = record {
    bounds = λ j b. elim (Bool-cases (j == r)) [
      | inl same ↦ let here : j ≡ r = ground (arith, same) in rw (same, e, here) (refl, refl)
      | inr other ↦ rw other b
    ];
    knows = λ j b. elim (Bool-cases (j == r)) [
      | inl same ↦ rw (same, e) (_, refl)
      | inr other ↦ rw other b
    ];
  }

  Keeps-refl : (g : Graph V) → Keeps g g
  Keeps-refl g = record { bounds = λ r x. x; knows = λ r x. x }

  module _ (nodes relationships : List ℕ) where
    AllKnown : Graph V → Type 0
    AllKnown g = (k r : ℕ) → get_elem? relationships k ≡ some r → Known g r

    Walks : Graph V → List ℕ → Walked V → Type 0
    Walks g rs w = (h : Graph V) × (w ≡ (h, ok rs)) × Keeps g h × All (Bound h) rs

    -- One edge, given the walk over the rest.
    edge_walk :
        (r : ℕ) (rs : List ℕ) (next : Graph V → Walked V) (g : Graph V)
        → Known g r
        → ((h : Graph V) → Keeps g h → Walks h rs (next h))
        → Walks g (r ∷ rs) (walk_edge (some r) (starts r) (ends r) next g)
    unfolding walk_edge Walks
    edge_walk r rs next g known rest =
        let first = set_ends-Keeps r g known in
        let (h, e, keeps, bounds) = rest (set_ends r (starts r) (ends r) g) first in
        (
          h,
          ap (found r) e,
          Keeps-trans g _ h first keeps,
          (keeps.bounds r (set_ends-Bound r g known), bounds),
        )

    walk_step :
        (index node : ℤ) (sequence : List ℤ) (last n i s t r : ℕ) (g : Graph V)
        → is_zero index ≡ false
        → item nodes node ≡ some n
        → edge index last n ≡ (i, s, t)
        → get_elem? relationships i ≡ some r
        → walk nodes relationships last (index ∷ node ∷ sequence) g
          ≡ walk_edge (some r) s t (walk nodes relationships n sequence) g
    unfolding walk walk_to
    walk_step index node sequence last n i s t r g z en ee er = rw (z, en, ee, er) refl

    walk-Describes :
        (last : ℕ) (sequence : List ℤ) (ns rs : List ℕ) (g : Graph V)
        → Describes nodes relationships starts ends last sequence ns rs
        → AllKnown g
        → Walks g rs (walk nodes relationships last sequence g)
    unfolding Walks AllKnown
    walk-Describes _ _ _ _ g (arrived last) known = unfold walk in (g, refl, Keeps-refl g, tt)
    walk-Describes _ _ _ _ g (forward last k n r node sequence ns rs en er es et rest) known =
        let step =
          walk_step (pos (suc k)) node sequence last n k last n r g (omega_zero k) en
            (ap (λ i. (i, last, n)) (omega arith)) er in
        rw (step, ← es, ← et)
          (edge_walk r rs _ g (known k r er) (λ h keeps.
            rw et (walk-Describes n sequence ns rs h rest (λ j x e. keeps.knows x (known j x e)))))
    walk-Describes _ _ _ _ g (backward last k n r node sequence ns rs en er es et rest) known =
        let step = walk_step (negsuc k) node sequence last n k n last r g refl en refl er in
        rw (step, ← es, ← et)
          (edge_walk r rs _ g (known k r er) (λ h keeps.
            rw es (walk-Describes n sequence ns rs h rest (λ j x e. keeps.knows x (known j x e)))))

    -- `Path.__init__` finds the nodes again from the ends of the relationships.
    connect_nodes-Describes :
        (last : ℕ) (sequence : List ℤ) (ns rs : List ℕ) (g : Graph V)
        → Describes nodes relationships starts ends last sequence ns rs
        → All (Bound g) rs
        → connect_nodes g (some last) rs ≡ ok (map some ns)
    unfolding connect_nodes Bound
    connect_nodes-Describes _ _ _ _ g (arrived last) b = refl
    connect_nodes-Describes _ _ _ _ g (forward last k n r node sequence ns rs en er es et rest)
          ((bs, bt), b) =
        rw (bs, bt, es, et, ==_refl last, connect_nodes-Describes n sequence ns rs g rest b) refl
    connect_nodes-Describes _ _ _ _ g (backward last k n r node sequence ns rs en er es et rest)
          ((bs, bt), b) =
        elim (Bool-cases (n == last)) [
          | inl same ↦
              let here : n ≡ last = ground (arith, same) in
              rw (bs, bt, es, et, same, ← here, connect_nodes-Describes n sequence ns rs g rest b)
                refl
          | inr other ↦
              rw
                (
                  bs,
                  bt,
                  es,
                  et,
                  other,
                  ==_refl last,
                  connect_nodes-Describes n sequence ns rs g rest b,
                )
                refl
        ]

even : (b : ℕ) → (b % 2 == 0) ≡ true → (suc (suc b) % 2 == 0) ≡ true
even b h = ground (arith, h)

Describes-even :
    (nodes relationships : List ℕ) (starts ends : ℕ → ℕ) (last : ℕ) (sequence : List ℤ)
    (ns rs : List ℕ)
    → Describes nodes relationships starts ends last sequence ns rs
    → (length sequence % 2 == 0) ≡ true
Describes-even nodes relationships starts ends _ _ _ _ (arrived last) = refl
Describes-even nodes relationships starts ends _ _ _ _
      (forward last k n r node sequence ns rs en er es et rest) =
    even (length sequence) (Describes-even nodes relationships starts ends n sequence ns rs rest)
Describes-even nodes relationships starts ends _ _ _ _
      (backward last k n r node sequence ns rs en er es et rest) =
    even (length sequence) (Describes-even nodes relationships starts ends n sequence ns rs rest)

-- If the sequence describes a path, whose relationships have one start and one end each, `hydrate_path` returns the path
-- with its nodes and relationships in order, and each relationship then has its start and its end, however often
-- and in whichever direction the path goes over it.
pub hydrate_path-Describes :
    {V : Type 0} (node : ℕ) (nodes relationships : List ℕ) (starts ends : ℕ → ℕ) (sequence : List ℤ)
    (ns rs : List ℕ) (g : Graph V)
    → Describes (node ∷ nodes) relationships starts ends node sequence ns rs
    → ((k r : ℕ)
        → get_elem? relationships k ≡ some r
        → (x : Relationship V) × (g.relationships r ≡ some x))
    → (h : Graph V) × (hydrate_path (node ∷ nodes) relationships sequence g
        ≡ (h, ok (record { nodes = map some (node ∷ ns); relationships = rs })))
      × All
          (λ r.
            (start_node_of (h.relationships r) ≡ some (starts r))
            × (end_node_of (h.relationships r) ≡ some (ends r)))
          rs
unfolding hydrate_path new_path Walks AllKnown Known Bound
hydrate_path-Describes node nodes relationships starts ends sequence ns rs g d known =
    let (h, e, keeps, bounds) =
      walk-Describes starts ends (node ∷ nodes) relationships node sequence ns rs g d known in
    let connected =
      connect_nodes-Describes starts ends (node ∷ nodes) relationships node sequence ns rs h d
        bounds in
    (h, rw (Describes-even _ _ _ _ _ _ _ _ d, e, connected) refl, bounds)
