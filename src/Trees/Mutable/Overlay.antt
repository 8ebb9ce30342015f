-- ===== src/Trees/Mutable/Overlay.antt =====
-- The nodes of a mutable tree as a function of their ids, and what its writes make of that function.
use nightfall_4_ce.Common.{
  ℕ, ◌≡◌, ◌≢◌, refl, sym, ap, ◌∙◌, arith, Bool, true, false, List, [], ◌∷◌, Option, none, some,
  ◌==◌, if◌then◌else◌, inl, inr, Bool-cases, ==_self, ==→≡, ==_false,
}
use nightfall_4_ce.Trees.Mutable.Store.{
  Node, MutableStore, find_id, upsert, upsert_all, stored_node, get_node, flush_cache, set_node,
  set_nodes,
}

unfoldable pub put : ℕ → ℕ → (ℕ → ℕ) → ℕ → ℕ
put i v g j = if i == j then v else g j

-- The writes one after the other: the last to a node wins.
unfoldable pub overlay : List Node → (ℕ → ℕ) → ℕ → ℕ
overlay [] g = g
overlay (u ∷ us) g = overlay us (put u.id u.value g)

pub put_self : (i v : ℕ) (g : ℕ → ℕ) → put i v g i ≡ v
unfolding put
put_self i v g = rw (==_self i) refl

pub put-other : (i v j : ℕ) (g : ℕ → ℕ) → i ≢ j → put i v g j ≡ g j
unfolding put
put-other i v j g h = rw (==_false i j h) refl

pub put-ext : (i v j : ℕ) (g h : ℕ → ℕ) → g j ≡ h j → put i v g j ≡ put i v h j
unfolding put
put-ext i v j g h e = rw e refl

pub overlay-ext :
    (us : List Node) (g h : ℕ → ℕ)
    → ((j : ℕ) → g j ≡ h j)
    → (j : ℕ) → overlay us g j ≡ overlay us h j
unfolding overlay
overlay-ext [] g h e j = e j
overlay-ext (u ∷ us) g h e j =
    overlay-ext us (put u.id u.value g) (put u.id u.value h) (λ i. put-ext u.id u.value i g h (e i))
      j

apart : (n u : Node) (j : ℕ) → (n.id == u.id) ≡ false → (n.id == j) ≡ true → u.id ≢ j
apart n u j other here e = ground arith

-- After an upsert the document of its id has its value, and the others are as before.
pub find_id-upsert :
    (j : ℕ) (u : Node) (ns : List Node)
    → find_id j (upsert u ns) ≡ (if u.id == j then some u.value else find_id j ns)
unfolding find_id upsert
find_id-upsert j u [] = refl
find_id-upsert j u (n ∷ ns) = elim (Bool-cases (n.id == u.id)) [
  | inl same ↦
      rw (same, ==→≡ n.id u.id same)
        (elim (Bool-cases (u.id == j)) [ inl here ↦ rw here refl | inr away ↦ rw away refl ])
  | inr other ↦ rw other (elim (Bool-cases (n.id == j)) [
    | inl here ↦ rw (here, ==_false u.id j (apart n u j other here)) refl
    | inr away ↦ rw away (find_id-upsert j u ns)
  ])
]

-- Ids are distinct, as the database has it.
abbrev pub HasDistinctIds : List Node → Type 0
HasDistinctIds [] = Unit
HasDistinctIds (n ∷ ns) = (find_id n.id ns ≡ none) × HasDistinctIds ns

abbrev pub first_of {ℓ} : {A : Type ℓ} → Option A → Option A → Option A
first_of none b = b
first_of (some a) b = some a

pub find_id-upsert_all :
    (j : ℕ) (us ns : List Node)
    → HasDistinctIds us
    → find_id j (upsert_all us ns) ≡ first_of (find_id j us) (find_id j ns)
unfolding find_id upsert_all
find_id-upsert_all j [] ns d = refl
find_id-upsert_all j (u ∷ us) ns (new, d) =
    find_id-upsert_all j us (upsert u ns) d
    ∙ rw (find_id-upsert j u ns) (elim (Bool-cases (u.id == j)) [
      | inl here ↦ rw (here, sym (==→≡ u.id j here), new) refl
      | inr away ↦ rw away refl
    ])

pub upsert-HasDistinctIds :
    (u : Node) (ns : List Node) → HasDistinctIds ns → HasDistinctIds (upsert u ns)
unfolding find_id upsert
upsert-HasDistinctIds u [] d = (refl, tt)
upsert-HasDistinctIds u (n ∷ ns) (new, d) = elim (Bool-cases (n.id == u.id)) [
  | inl same ↦ rw same (new, d)
  | inr other ↦ rw other (
    find_id-upsert n.id u ns ∙ rw (==_false u.id n.id (apart n u n.id other (==_self n.id))) new,
    upsert-HasDistinctIds u ns d,
  )
]

node_value : Option ℕ → ℕ
node_value none = 0
node_value (some v) = v

node_value-first_of :
    (c n : Option ℕ)
    → (elim c [ none ↦ elim n [ none ↦ 0 | some v ↦ v ] | some v ↦ v ]) ≡ node_value (first_of c n)
unfolding node_value
node_value-first_of none none = refl
node_value-first_of none (some v) = refl
node_value-first_of (some v) n = refl

get_node-eq :
    (j : ℕ) (s : MutableStore)
    → get_node j s ≡ node_value (first_of (find_id j s.cache) (find_id j s.nodes))
unfolding get_node stored_node
get_node-eq j s = node_value-first_of (find_id j s.cache) (find_id j s.nodes)

-- Flushing the cache changes no node.
pub get_node-flush_cache :
    (j : ℕ) (s : MutableStore) → HasDistinctIds s.cache → get_node j (flush_cache s) ≡ get_node j s
unfolding flush_cache find_id
get_node-flush_cache j s d =
    get_node-eq j (flush_cache s)
    ∙ ap node_value (find_id-upsert_all j s.cache s.nodes d)
    ∙ sym (get_node-eq j s)

first_of-write :
    (b : Bool) (v : ℕ) (c n : Option ℕ)
    → node_value (first_of (if b then some v else c) n)
      ≡ (if b then v else node_value (first_of c n))
unfolding node_value
first_of-write true v c n = refl
first_of-write false v c n = refl

node_value-write :
    (b : Bool) (v : ℕ) (n : Option ℕ)
    → node_value (if b then some v else n) ≡ (if b then v else node_value n)
unfolding node_value
node_value-write true v n = refl
node_value-write false v n = refl

get_node-set_node :
    (update_tree : Bool) (u : Node) (s : MutableStore)
    → (update_tree ≡ true → s.cache ≡ [])
    → (j : ℕ) → get_node j (set_node update_tree u s) ≡ put u.id u.value (λ i. get_node i s) j
unfolding set_node put find_id
get_node-set_node false u s h j =
    get_node-eq j (set_node false u s)
    ∙ ap (λ (o : Option ℕ). node_value (first_of o (find_id j s.nodes)))
        (find_id-upsert j u s.cache)
    ∙ first_of-write (u.id == j) u.value (find_id j s.cache) (find_id j s.nodes)
    ∙ ap (λ (t : ℕ). if u.id == j then u.value else t) (sym (get_node-eq j s))
get_node-set_node true u s h j =
    get_node-eq j (set_node true u s)
    ∙ ap (λ (c : List Node). node_value (first_of (find_id j c) (find_id j (upsert u s.nodes))))
        (h refl)
    ∙ ap node_value (find_id-upsert j u s.nodes)
    ∙ node_value-write (u.id == j) u.value (find_id j s.nodes)
    ∙ ap (λ (t : ℕ). if u.id == j then u.value else t)
        (ap (λ (c : List Node). node_value (first_of (find_id j c) (find_id j s.nodes)))
            (sym (h refl))
          ∙ sym (get_node-eq j s))

pub cache-set_nodes : (us : List Node) (s : MutableStore) → (set_nodes true us s).cache ≡ s.cache
unfolding set_nodes set_node
cache-set_nodes [] s = refl
cache-set_nodes (u ∷ us) s = cache-set_nodes us (set_node true u s)

pub metadata-set_nodes :
    (update_tree : Bool) (us : List Node) (s : MutableStore)
    → (set_nodes update_tree us s).metadata ≡ s.metadata
unfolding set_nodes set_node
metadata-set_nodes update_tree [] s = refl
metadata-set_nodes true (u ∷ us) s = metadata-set_nodes true us (set_node true u s)
metadata-set_nodes false (u ∷ us) s = metadata-set_nodes false us (set_node false u s)

set_node-cache :
    (update_tree : Bool) (u : Node) (s : MutableStore)
    → (update_tree ≡ true → s.cache ≡ [])
    → update_tree ≡ true
    → (set_node update_tree u s).cache ≡ []
unfolding set_node
set_node-cache true u s h e = h e
set_node-cache false u s h e = ground arith

-- What is read after the writes.
pub get_node-set_nodes :
    (update_tree : Bool) (us : List Node) (s : MutableStore)
    → (update_tree ≡ true → s.cache ≡ [])
    → (j : ℕ) → get_node j (set_nodes update_tree us s) ≡ overlay us (λ i. get_node i s) j
unfolding set_nodes overlay
get_node-set_nodes update_tree [] s h j = refl
get_node-set_nodes update_tree (u ∷ us) s h j =
    get_node-set_nodes update_tree us (set_node update_tree u s) (set_node-cache update_tree u s h)
      j
    ∙ overlay-ext us (λ i. get_node i (set_node update_tree u s))
        (put u.id u.value (λ i. get_node i s)) (get_node-set_node update_tree u s h) j

-- Where the cache, whose nodes have different indices, holds a value for a node, a value written to
-- that node with `update_tree` is lost at the flush, which leaves the cached one.
pub flush_cache-stale :
    (i v w : ℕ) (s : MutableStore)
    → HasDistinctIds s.cache
    → find_id i s.cache ≡ some v
    → get_node i (flush_cache (set_nodes true (record { value = w; id = i } ∷ []) s)) ≡ v
unfolding set_nodes set_node find_id node_value
flush_cache-stale i v w s d e =
    get_node-flush_cache i (set_node true (record { value = w; id = i }) s) d
    ∙ get_node-eq i (set_node true (record { value = w; id = i }) s)
    ∙ rw e refl
