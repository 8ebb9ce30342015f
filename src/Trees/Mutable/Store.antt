-- ===== src/Trees/Mutable/Store.antt =====
-- The documents of a mutable tree and the operations on its nodes, in
-- `lib/src/merkle_trees/mutable.rs`. The two collections of nodes are lists of documents in the order of
-- their insertion. Calls of the database succeed, but for a second document with an id.
use nightfall_4_ce.Common.{
  ℕ, ◌+◌, ◌-◌, ◌^◌, Bool, true, false, ◌&&◌, List, [], ◌∷◌, Option, none, some, leb, ◌==◌,
  if◌then◌else◌, Result, ok, err,
}
use nightfall_4_ce.Trees.Types.{Failure, error, TreeMetadata, tree_not_found, database_error}

pub record Node : Type 0 where
  pub value : ℕ
  pub id : ℕ

pub record MutableStore : Type 0 where
  pub metadata : Option TreeMetadata
  pub nodes : List Node
  pub cache : List Node

abbrev pub empty_tree_store : MutableStore
empty_tree_store = record { metadata = none; nodes = []; cache = [] }

-- `find_one({_id})`, of which the value is read.
unfoldable pub find_id : ℕ → List Node → Option ℕ
find_id i [] = none
find_id i (n ∷ ns) = if n.id == i then some n.value else find_id i ns

-- `find_one({value})`, of which the id is read.
unfoldable pub find_value : ℕ → List Node → Option ℕ
find_value v [] = none
find_value v (n ∷ ns) = if n.value == v then some n.id else find_value v ns

-- `update_one({_id}, {$set: {value}})` with `upsert`.
unfoldable pub upsert : Node → List Node → List Node
upsert u [] = u ∷ []
upsert u (n ∷ ns) = if n.id == u.id then record n { value = u.value } ∷ ns else n ∷ upsert u ns

unfoldable pub upsert_all : List Node → List Node → List Node
unfolding upsert
upsert_all [] ns = ns
upsert_all (u ∷ us) ns = upsert_all us (upsert u ns)

unfoldable pub new_mutable_tree : ℕ → ℕ → MutableStore → Result Failure (Unit {0}) × MutableStore
new_mutable_tree height sub_height s = elim s.metadata [
  | some _ ↦ (err (error database_error), s)
  | none ↦ (
    ok tt,
    record s {
      metadata = some (record {
        tree_height = height;
        sub_tree_height = sub_height;
        sub_tree_count = 0;
        root = 0;
      });
    },
  )
]

unfoldable pub get_root : MutableStore → Result Failure ℕ
get_root s = elim s.metadata [ none ↦ err (error tree_not_found) | some m ↦ ok m.root ]

-- A node that is in neither collection is zero.
unfoldable pub stored_node : ℕ → MutableStore → ℕ
stored_node i s = elim (find_id i s.nodes) [ none ↦ 0 | some v ↦ v ]

unfoldable pub get_node : ℕ → MutableStore → ℕ
unfolding stored_node
get_node i s = elim (find_id i s.cache) [ none ↦ stored_node i s | some v ↦ v ]

unfoldable pub flush_cache : MutableStore → MutableStore
unfolding upsert_all
flush_cache s = record s { nodes = upsert_all s.cache s.nodes; cache = [] }

unfoldable pub is_leaf : ℕ → MutableStore → Result Failure Bool
is_leaf value s = elim s.metadata [
  | none ↦ err (error tree_not_found)
  | some m ↦ elim (find_value value s.nodes) [
    | none ↦ ok false
    | some index ↦
        let height = m.tree_height + m.sub_tree_height in
        ok (leb (2 ^ height - 1) index && leb index (2 ^ (height + 1) - 2))
  ]
]

unfoldable pub set_node : Bool → Node → MutableStore → MutableStore
set_node true u s = record s { nodes = upsert u s.nodes }
set_node false u s = record s { cache = upsert u s.cache }

-- `join_all` over the futures of `set_node`: they run after all that was read, in their order.
unfoldable pub set_nodes : Bool → List Node → MutableStore → MutableStore
unfolding set_node
set_nodes update_tree [] s = s
set_nodes update_tree (u ∷ us) s = set_nodes update_tree us (set_node update_tree u s)

unfoldable pub reset_mutable_tree : MutableStore → MutableStore
reset_mutable_tree s = record { metadata = none; nodes = []; cache = [] }
