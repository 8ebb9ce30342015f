-- ===== src/Trees/Indexed/Growth.antt =====
-- The insertions into an indexed tree, of `impl IndexedTree` in `lib/src/merkle_trees/indexed.rs`, keep
-- its leaves linked and lose none, however they end.
use nightfall_4_ce.Common.{
  ℕ, ◌≡◌, refl, sym, ◌∙◌, inl, inr, Bool, true, false, Option, none, some, Option-cases, Bool-cases,
  Result-cases, Result, ok, err, if◌then◌else◌,
}
use mathlib.Core.Path.{subst}
use nightfall_4_ce.Trees.Types.{Failure, MerkleTreeError, leaf_exists, database_error}
use nightfall_4_ce.Trees.Mutable.Store.{MutableStore}
use nightfall_4_ce.Trees.Indexed.Defs.{
  IndexedLeaf, Leaves, get_low_leaf, store_leaf, store_after, index_or_count, insert_one, has_id,
}
use nightfall_4_ce.Trees.Indexed.Lookup.{lookup}
use nightfall_4_ce.Trees.Indexed.Chain.{IsChain}
use nightfall_4_ce.Trees.Indexed.Laws.{store_leaf-Stores, Stores, store_leaf_duplicate}
use nightfall_4_ce.Trees.Indexed.State.{
  IndexedStore, Op, and_then, ◌>>=◌, ◌>>◌, return_ok, throw_if, or_throw, read_leaves, read_tree,
  write_leaves, with_leaves, on_tree,
}

-- The leaves are linked, and each that was stored still is, in its place.
pub record IsGrown (before after : Leaves) : Type 0 where
  pub chain : IsChain after
  pub kept :
      (w : ℕ) (l : IndexedLeaf)
      → lookup w before ≡ some l
      → (l' : IndexedLeaf) × (lookup w after ≡ some l') × (l'.id ≡ l.id)

IsGrown-same : (ls : Leaves) → IsChain ls → IsGrown ls ls
IsGrown-same ls chain = record { chain = chain; kept = λ w l e. (l, e, refl) }

IsGrown-then : (ls ls' ls'' : Leaves) → IsGrown ls ls' → IsGrown ls' ls'' → IsGrown ls ls''
IsGrown-then ls ls' ls'' first second = record {
  chain = second.chain;
  kept = λ w l e.
      let (l', e', same) = first.kept w l e in
      let (l'', e'', same') = second.kept w l' e' in (l'', e'', same' ∙ same);
}

same_answer :
    (o : Result MerkleTreeError Leaves) (ls ls' : Leaves) → o ≡ ok ls → o ≡ ok ls' → ls ≡ ls'
same_answer o ls ls' e e' = cc

not_refused :
    {A : Type 0} (o : Result MerkleTreeError Leaves) (e : MerkleTreeError) (ls : Leaves)
    → o ≡ err e
    → o ≡ ok ls
    → A
not_refused o e ls refused stored = cc

Stores-IsGrown : (v i : ℕ) (ls ls' : Leaves) → Stores v i ls ls' → IsGrown ls ls'
Stores-IsGrown v i ls ls' d = record { chain = d.chain; kept = d.kept }

store_leaf_index :
    (v : ℕ) (index : Option ℕ) (ls : Leaves)
    → store_leaf v (some (index_or_count index ls)) ls ≡ store_leaf v index ls
unfolding store_leaf index_or_count
store_leaf_index v index ls = refl

store_leaf-IsGrown :
    (v : ℕ) (index : Option ℕ) (ls ls' : Leaves)
    → IsChain ls
    → store_leaf v index ls ≡ ok ls'
    → IsGrown ls ls'
unfolding store_leaf
store_leaf-IsGrown v index ls ls' chain e = elim (Option-cases (lookup v ls)) [
  | inr (l, found) ↦ not_refused _ leaf_exists ls' (store_leaf_duplicate v index ls l found) e
  | inl absent ↦ elim (Bool-cases (has_id (index_or_count index ls) ls)) [
    | inr free ↦
        let (ls'', stored, d) =
          store_leaf-Stores v (index_or_count index ls) ls chain absent free in
        subst (λ (t : Leaves). IsGrown ls t)
          (same_answer (store_leaf v index ls) ls'' ls' (sym (store_leaf_index v index ls) ∙ stored)
            e)
          (Stores-IsGrown v (index_or_count index ls) ls ls'' d)
    | inl taken ↦ elim (Option-cases (get_low_leaf v ls)) [
      | inl lowest ↦
          not_refused (store_leaf v index ls) leaf_exists ls' (rw (absent, store_leaf, lowest)) e
      | inr (low, found) ↦
          not_refused (store_leaf v index ls) database_error ls'
            (rw (absent, store_leaf, found, store_after, insert_one, taken)) e
    ]
  ]
]

-- What every step of an insertion keeps.
abbrev pub Grows : {A : Type 0} → Op A → Type 0
Grows op = (s : IndexedStore) → IsChain s.leaves → IsGrown s.leaves (op s).1.leaves

Grows-and_then :
    {A B : Type 0} (next : A → Op B) (s : IndexedStore) (o : Result Failure A × IndexedStore)
    → IsGrown s.leaves o.1.leaves
    → ((a : A) → Grows (next a))
    → IsGrown s.leaves (and_then o next).1.leaves
unfolding and_then
Grows-and_then next s (err e, t) first k = first
Grows-and_then next s (ok a, t) first k = IsGrown-then _ _ _ first (k a t first.chain)

pub Grows-bind :
    {A B : Type 0} (op : Op A) (next : A → Op B)
    → Grows op
    → ((a : A) → Grows (next a))
    → Grows (op >>= next)
unfolding ◌>>=◌
Grows-bind op next h k s chain = Grows-and_then next s (op s) (h s chain) k

pub Grows-then :
    {B : Type 0} (op : Op (Unit {0})) (next : Op B) → Grows op → Grows next → Grows (op >> next)
unfolding ◌>>◌
Grows-then op next h k s chain = Grows-and_then (λ _. next) s (op s) (h s chain) (λ _. k)

pub Grows-return_ok : {A : Type 0} (a : A) → Grows (return_ok a)
unfolding return_ok
Grows-return_ok a s chain = IsGrown-same s.leaves chain

pub Grows-read_leaves : {A : Type 0} (f : Leaves → A) → Grows (read_leaves f)
unfolding read_leaves
Grows-read_leaves f s chain = IsGrown-same s.leaves chain

pub Grows-read_tree : {A : Type 0} (f : MutableStore → A) → Grows (read_tree f)
unfolding read_tree
Grows-read_tree f s chain = IsGrown-same s.leaves chain

pub Grows-on_tree :
    {A : Type 0} (f : MutableStore → Result Failure A × MutableStore) → Grows (on_tree f)
unfolding on_tree
Grows-on_tree f s chain = IsGrown-same s.leaves chain

pub Grows-throw_if : (b : Bool) (e : MerkleTreeError) → Grows (throw_if b e)
unfolding throw_if
Grows-throw_if true e s chain = IsGrown-same s.leaves chain
Grows-throw_if false e s chain = IsGrown-same s.leaves chain

pub Grows-or_throw : {A : Type 0} (o : Option A) (e : MerkleTreeError) → Grows (or_throw o e)
unfolding or_throw
Grows-or_throw none e s chain = IsGrown-same s.leaves chain
Grows-or_throw (some a) e s chain = IsGrown-same s.leaves chain

pub Grows-if : {A : Type 0} (b : Bool) (x y : Op A) → Grows x → Grows y → Grows (if b then x else y)
Grows-if true x y hx hy = hx
Grows-if false x y hx hy = hy

pub Grows-store : (v : ℕ) (index : Option ℕ) → Grows (write_leaves (store_leaf v index))
unfolding write_leaves with_leaves
Grows-store v index s chain = elim (Result-cases (store_leaf v index s.leaves)) [
  | inl (e, refused) ↦ rw refused (IsGrown-same s.leaves chain)
  | inr (ls', stored) ↦ rw stored (store_leaf-IsGrown v index s.leaves ls' chain stored)
]
