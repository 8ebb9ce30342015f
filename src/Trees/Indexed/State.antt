-- ===== src/Trees/Indexed/State.antt =====
-- Operations on an indexed tree, `impl IndexedTree` in `lib/src/merkle_trees/indexed.rs`: they read and
-- write the documents of its mutable tree and the collection of its leaves, and may fail on the way,
-- when what was written before stays.
use nightfall_4_ce.Common.{Bool, true, false, Option, none, some, Result, ok, err}
use nightfall_4_ce.Trees.Types.{Failure, error, MerkleTreeError}
use nightfall_4_ce.Trees.Indexed.Defs.{Leaves}
use nightfall_4_ce.Trees.Mutable.Store.{MutableStore}

pub record IndexedStore : Type 0 where
  pub tree : MutableStore
  pub leaves : Leaves

abbrev pub Op : Type 0 → Type 0
Op A = IndexedStore → Result Failure A × IndexedStore

-- The rest of a chain, after a call.
unfoldable pub and_then :
    {A B : Type 0} → Result Failure A × IndexedStore → (A → Op B) → Result Failure B × IndexedStore
and_then (err e, s) rest = (err e, s)
and_then (ok a, s) rest = rest a s

infixl 5 ◌>>=◌
unfoldable pub ◌>>=◌ : {A B : Type 0} → Op A → (A → Op B) → Op B
unfolding and_then
(first >>= rest) s = and_then (first s) rest

infixl 5 ◌>>◌
unfoldable pub ◌>>◌ : {B : Type 0} → Op (Unit {0}) → Op B → Op B
unfolding and_then
(first >> rest) s = and_then (first s) (λ _. rest)

unfoldable pub return_ok : {A : Type 0} → A → Op A
return_ok a s = (ok a, s)

unfoldable pub throw : {A : Type 0} → MerkleTreeError → Op A
throw e s = (err (error e), s)

-- An early return with an error where the test holds.
unfoldable pub throw_if : Bool → MerkleTreeError → Op (Unit {0})
throw_if true e s = (err (error e), s)
throw_if false e s = (ok tt, s)

-- `ok_or`, with `?` after it.
unfoldable pub or_throw : {A : Type 0} → Option A → MerkleTreeError → Op A
or_throw none e s = (err (error e), s)
or_throw (some a) e s = (ok a, s)

unfoldable pub read_leaves : {A : Type 0} → (Leaves → A) → Op A
read_leaves f s = (ok (f s.leaves), s)

unfoldable pub read_tree : {A : Type 0} → (MutableStore → A) → Op A
read_tree f s = (ok (f s.tree), s)

unfoldable pub with_leaves : Result MerkleTreeError Leaves → Op (Unit {0})
with_leaves (err e) s = (err (error e), s)
with_leaves (ok ls) s = (ok tt, record s { leaves = ls })

unfoldable pub write_leaves : (Leaves → Result MerkleTreeError Leaves) → Op (Unit {0})
unfolding with_leaves
write_leaves f s = with_leaves (f s.leaves) s

unfoldable pub on_tree : {A : Type 0} → (MutableStore → Result Failure A × MutableStore) → Op A
on_tree f s = let (r, t) = f s.tree in (r, record s { tree = t })
