-- ===== src/Graph.antt =====
-- Nodes, relationships and paths (neo4j/graph/__init__.py) and their hydration
-- (neo4j/_codec/hydration/v1/hydration_handler.py). An element id, a label, a type and the name of a
-- property are known by a number; `V` is the type of values other than null, which is
-- `none`. An object belongs to one graph and is
-- known by its element id, which the server sends from Bolt 5 on; before that it is `str(id)`.
pub mod Nodes
pub mod Walk
pub mod Paths
mod Tests
use neo4j_python_driver.Base.{
  ℕ, zero, suc, ◌-◌, ◌%◌, List, [], ◌∷◌, ◌++◌, Bool, true, false, not, ◌||◌, Option, none, some,
  leb, ◌==◌, if◌then◌else◌, length, get_elem?, Result, ok, err,
}
use neo4j_python_driver.Base.Int.{ℤ, pos, negsuc}

pub data GraphError : Type 0 where
  assertion_error index_error value_error : GraphError

-- A dict with numbers as keys.
unfoldable pub set_key {ℓ} : {A : Type ℓ} → ℕ → A → (ℕ → Option A) → ℕ → Option A
set_key k a m j = if j == k then some a else m j

-- A `frozenset`, as a list without repetition.
unfoldable pub has_label : ℕ → List ℕ → Bool
has_label l [] = false
has_label l (m ∷ ms) = (m == l) || has_label l ms

unfoldable pub union : List ℕ → List ℕ → List ℕ
union ls [] = ls
union ls (m ∷ ms) = union (if has_label m ls then ls else ls ++ (m ∷ [])) ms

-- `Entity` and `Node`; `properties` is a dict in its order.
pub record Node (V : Type 0) : Type 0 where
  pub element_id : ℕ
  pub id : ℕ
  pub labels : List ℕ
  pub properties : List (ℕ × Option V)

pub record Relationship (V : Type 0) : Type 0 where
  pub element_id : ℕ
  pub id : ℕ
  pub type_name : ℕ
  pub properties : List (ℕ × Option V)
  pub start_node : Option ℕ
  pub end_node : Option ℕ

pub record Graph (V : Type 0) : Type 0 where
  pub nodes : ℕ → Option (Node V)
  pub legacy_nodes : ℕ → Option ℕ
  pub relationships : ℕ → Option (Relationship V)
  pub legacy_relationships : ℕ → Option ℕ

pub record NodePath : Type 0 where
  pub nodes : List (Option ℕ)
  pub relationships : List ℕ

module _ {V : Type 0} where
  unfoldable pub new_graph : Graph V
  new_graph = record {
    nodes = λ i. none;
    legacy_nodes = λ i. none;
    relationships = λ i. none;
    legacy_relationships = λ i. none;
  }

  -- `{k: v for k, v in (properties or {}).items() if v is not None}`
  unfoldable pub without_null : List (ℕ × Option V) → List (ℕ × Option V)
  without_null [] = []
  without_null ((k, none) ∷ ps) = without_null ps
  without_null ((k, some v) ∷ ps) = (k, some v) ∷ without_null ps

  -- `dict.update`: a key that is there keeps its place.
  unfoldable pub set_property : ℕ → Option V → List (ℕ × Option V) → List (ℕ × Option V)
  set_property k v [] = (k, v) ∷ []
  set_property k v ((j, w) ∷ ps) =
      let rest = set_property k v ps in if j == k then (j, v) ∷ ps else (j, w) ∷ rest

  unfoldable pub update_properties : List (ℕ × Option V) → List (ℕ × Option V) → List (ℕ × Option V)
  update_properties ps [] = ps
  update_properties ps ((k, v) ∷ more) = update_properties (set_property k v ps) more

  -- `hydrate_node`. Labels and properties that are missing are empty lists. A node that is known gets
  -- the labels and properties in addition to its own.
  unfoldable pub with_node :
      ℕ → ℕ → List ℕ → List (ℕ × Option V) → Option (Node V) → Graph V → Graph V
  with_node e id labels properties none g = record g {
    nodes =
        set_key e
          (record {
            element_id = e;
            id = id;
            labels = union [] labels;
            properties = without_null properties;
          })
          g.nodes;
    legacy_nodes = set_key id e g.legacy_nodes;
  }
  with_node e id labels properties (some n) g = record g {
    nodes =
        set_key e
          (record n {
            labels = union n.labels labels;
            properties = update_properties n.properties properties;
          })
          g.nodes;
  }

  unfoldable pub hydrate_node : ℕ → ℕ → List ℕ → List (ℕ × Option V) → Graph V → Graph V
  hydrate_node e id labels properties g = with_node e id labels properties (g.nodes e) g

  unfoldable pub with_relationship :
      ℕ → ℕ → ℕ → List (ℕ × Option V) → Option (Relationship V) → Graph V → Graph V
  with_relationship e id type_name properties (some r) g = g
  with_relationship e id type_name properties none g = record g {
    relationships =
        set_key e
          (record {
            element_id = e;
            id = id;
            type_name = type_name;
            properties = without_null properties;
            start_node = none;
            end_node = none;
          })
          g.relationships;
    legacy_relationships = set_key id e g.legacy_relationships;
  }

  -- `hydrate_unbound_relationship`
  unfoldable pub hydrate_unbound_relationship : ℕ → ℕ → ℕ → List (ℕ × Option V) → Graph V → Graph V
  hydrate_unbound_relationship e id type_name properties g =
      with_relationship e id type_name properties (g.relationships e) g

  -- Assignments to `_start_node` and `_end_node`.
  abbrev pub bound : ℕ → ℕ → Option (Relationship V) → Option (Relationship V)
  bound s t none = none
  bound s t (some r) = some (record r { start_node = some s; end_node = some t })

  unfoldable pub set_ends : ℕ → ℕ → ℕ → Graph V → Graph V
  set_ends e s t g = record g {
    relationships = λ j. if j == e then bound s t (g.relationships e) else g.relationships j;
  }

  -- `hydrate_relationship`, of a relationship with nodes as element id and id.
  unfoldable pub hydrate_relationship :
      ℕ → ℕ → ℕ × ℕ → ℕ × ℕ → ℕ → List (ℕ × Option V) → Graph V → Graph V
  hydrate_relationship e id (s, s_id) (t, t_id) type_name properties g = set_ends e s t (
      hydrate_node t t_id [] []
        (hydrate_node s s_id [] [] (hydrate_unbound_relationship e id type_name properties g)))
