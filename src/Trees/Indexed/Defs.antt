-- ===== src/Trees/Indexed/Defs.antt =====
-- The database of the leaves of an indexed Merkle tree, `impl IndexedLeaves` in
-- `lib/src/merkle_trees/indexed.rs`. A collection is the list of its documents in the order of their
-- insertion; values are compared by their padded hex texts, which is the order of the numbers.
use nightfall_4_ce.Common.{
  ℕ, Bool, true, false, ◌&&◌, ◌||◌, List, [], ◌∷◌, ◌++◌, Option, none, some, ltb, leb, ◌==◌,
  if◌then◌else◌, length, Result, ok, err,
}
use nightfall_4_ce.Trees.Types.{MerkleTreeError, leaf_exists, database_error}

pub record IndexedLeaf : Type 0 where
  pub value : ℕ
  pub id : ℕ
  pub next_index : ℕ
  pub next_value : ℕ

abbrev pub default_leaf : IndexedLeaf
default_leaf = record { value = 0; id = 0; next_index = 0; next_value = 0 }

abbrev pub Leaves : Type 0
Leaves = List IndexedLeaf

-- `find_one`: the first document that passes the test.
unfoldable pub find_one : (IndexedLeaf → Bool) → Leaves → Option IndexedLeaf
find_one test [] = none
find_one test (l ∷ ls) = if test l then some l else find_one test ls

-- The query of `get_leaf`, by the fields that are given.
unfoldable pub leaf_query : Option ℕ → Option ℕ → IndexedLeaf → Bool
leaf_query (some v) (some n) l = l.value == v && l.next_value == n
leaf_query (some v) none l = l.value == v
leaf_query none (some n) l = l.next_value == n
leaf_query none none l = true

unfoldable pub get_leaf : Option ℕ → Option ℕ → Leaves → Option IndexedLeaf
unfolding find_one leaf_query
get_leaf value next_value ls = find_one (leaf_query value next_value) ls

-- `find({value < v}).sort({value: -1}).limit(1)`.
unfoldable pub get_low_leaf : ℕ → Leaves → Option IndexedLeaf
get_low_leaf v [] = none
get_low_leaf v (l ∷ ls) =
    let rest = get_low_leaf v ls in
    if ltb l.value v
    then elim rest [ none ↦ some l | some m ↦ if leb m.value l.value then some l else some m ]
    else rest

-- `update_one({value}, {$set: …})`: the first document with the value, if there is one.
unfoldable pub update_leaf : ℕ → ℕ → ℕ → Leaves → Leaves
update_leaf v index next [] = []
update_leaf v index next (l ∷ ls) =
    if l.value == v
    then record l { next_index = index; next_value = next } ∷ ls
    else l ∷ update_leaf v index next ls

unfoldable pub has_id : ℕ → Leaves → Bool
has_id i [] = false
has_id i (l ∷ ls) = l.id == i || has_id i ls

-- `insert_one`: a second document with an id is a duplicate key.
unfoldable pub insert_one : IndexedLeaf → Leaves → Result MerkleTreeError Leaves
unfolding has_id
insert_one l ls = if has_id l.id ls then err database_error else ok (ls ++ l ∷ [])

unfoldable pub new_indexed_leaves_db : Leaves → Result MerkleTreeError Leaves
unfolding insert_one
new_indexed_leaves_db ls = insert_one default_leaf ls

-- The index that is given, or the number of documents.
unfoldable pub index_or_count : Option ℕ → Leaves → ℕ
index_or_count (some i) ls = i
index_or_count none ls = length ls

-- The new document, linked after its low leaf, and the low leaf linked to it.
unfoldable pub store_after : ℕ → ℕ → IndexedLeaf → Leaves → Result MerkleTreeError Leaves
unfolding insert_one
store_after leaf index low ls =
    elim (insert_one
      (record {
        value = leaf;
        id = index;
        next_index = low.next_index;
        next_value = low.next_value;
      })
      ls) [ err e ↦ err e | ok ls' ↦ ok (update_leaf low.value index leaf ls') ]

unfoldable pub store_leaf : ℕ → Option ℕ → Leaves → Result MerkleTreeError Leaves
unfolding store_after index_or_count
store_leaf leaf index ls = elim (get_leaf (some leaf) none ls) [
  | some _ ↦ err leaf_exists
  | none ↦ elim (get_low_leaf leaf ls) [
    | none ↦ err leaf_exists
    | some low ↦ store_after leaf (index_or_count index ls) low ls
  ]
]
