-- ===== src/Trees/Mutable/Rows.antt =====
-- The rows below the root of a sub tree: written downwards, they make the heap taller by one level in
-- each round, and change no node beside the sub tree.
use nightfall_4_ce.Common.{
  ℕ, zero, suc, ◌+◌, ◌-◌, ◌*◌, ◌^◌, ◌≤◌, ◌<◌, ◌≡◌, refl, sym, ap, ◌∙◌, arith, List, [], ◌∷◌, ◌++◌,
  some, length, get_or, get_elem?-get_or,
}
use mathlib.Core.Path.{ap₂}
use native.Mathlib.Nat.{pow-suc, one-le-pow}
use native.Mathlib.Decide.{dec_lt}
use nightfall_4_ce.Trees.Mutable.Store.{Node}
use nightfall_4_ce.Trees.Mutable.Defs.{row_updates, sub_tree_updates}
use nightfall_4_ce.Trees.Mutable.Overlay.{put, overlay, put_self, put-other}
use nightfall_4_ce.Trees.Mutable.Heap.{IsHeapUpTo}

pub overlay-append :
    (us vs : List Node) (g : ℕ → ℕ) → overlay (us ++ vs) g ≡ overlay vs (overlay us g)
unfolding overlay
overlay-append [] vs g = refl
overlay-append (u ∷ us) vs g = overlay-append us vs (put u.id u.value g)

-- What the writes of a row are: `n` nodes from `j` on.
record IsRow (n j k : ℕ) (tree : List ℕ) (g g' : ℕ → ℕ) : Type 0 where
  row : (i : ℕ) → i < n → g' (j + i) ≡ get_or tree (k + 1 + i) 0
  before : (x : ℕ) → x < j → g' x ≡ g x
  after : (x : ℕ) → j + n ≤ x → g' x ≡ g x

row_updates-IsRow :
    (n j k : ℕ) (tree : List ℕ) (g : ℕ → ℕ)
    → k + n < length tree
    → (us : List Node) × (row_updates n j k tree ≡ some us) × IsRow n j k tree g (overlay us g)
unfolding row_updates overlay
row_updates-IsRow zero j k tree g h = (
  [],
  refl,
  record { row = λ i lt. absurd (omega arith); before = λ x lt. refl; after = λ x le. refl },
)
row_updates-IsRow (suc n) j k tree g h =
    let v : ℕ = get_or tree (k + 1) 0 in
    let (us, made, r) = row_updates-IsRow n (j + 1) (k + 1) tree (put j v g) (omega arith) in
    (
      record { value = v; id = j } ∷ us,
      rw (get_elem?-get_or tree (k + 1) 0 (omega arith), row_updates, made, row_updates) refl,
      record {
        row = λ i lt. row_at i lt us r;
        before = λ x lt. r.before x (omega arith) ∙ put-other j v x g (λ e. omega arith);
        after = λ x le. r.after x (omega arith) ∙ put-other j v x g (λ e. omega arith);
      },
    )
  where
    row_at :
        (i : ℕ)
        → i < suc n
        → (us : List Node)
        → IsRow n
            (j + 1)
            (k + 1)
            tree
            (put j (get_or tree (k + 1) 0) g)
            (overlay us (put j (get_or tree (k + 1) 0) g))
        → overlay us (put j (get_or tree (k + 1) 0) g) (j + i) ≡ get_or tree (k + 1 + i) 0
    row_at zero lt us r =
        r.before (j + 0) (omega arith)
        ∙ ap (put j (get_or tree (k + 1) 0) g) (omega arith)
        ∙ put_self j (get_or tree (k + 1) 0) g
        ∙ ap (λ (t : ℕ). get_or tree t 0) (omega arith)
    row_at (suc i) lt us r =
        ap (overlay us (put j (get_or tree (k + 1) 0) g)) (omega arith)
        ∙ r.row i (omega arith)
        ∙ ap (λ (t : ℕ). get_or tree t 0) (omega arith)

pub twice : (a r : ℕ) → a * 2 ^ suc r ≡ a * 2 * 2 ^ r
twice a r = grind (arith, pow-suc 2 r)

pub at_least : (a r : ℕ) → a ≤ a * 2 ^ r
at_least a r = grind (arith, one-le-pow r 2 (omega arith))

module _ (hasher : ℕ → ℕ → ℕ) where
  -- The nodes `g`, of the heap `g₀`, once the sub tree is written down to a level, of which `first`
  -- is the first node, and its own nodes the `span` from `base` on.
  pub record IsGrown (first base span : ℕ) (tree : List ℕ) (root : ℕ) (g₀ g : ℕ → ℕ) : Type 0 where
    pub heap : IsHeapUpTo hasher first g
    pub inside : (i : ℕ) → i < span → g (base + i) ≡ get_or tree (span - 1 + i) 0
    pub before : (j : ℕ) → first ≤ j → j < base → g j ≡ g₀ j
    pub after : (j : ℕ) → base + span ≤ j → g j ≡ g₀ j
    pub starts : first ≤ base
    pub ends : base + span ≤ 2 * first + 1
    pub some_node : 1 ≤ span
    pub top : g 0 ≡ root

  row-IsGrown :
      (first base span k : ℕ) (tree : List ℕ) (root : ℕ) (g₀ g g' : ℕ → ℕ)
      → IsHeapUpTo hasher (2 * first + 1) g₀
      → ((j : ℕ)
          → j + 1 < 2 * span
          → get_or tree j 0 ≡ hasher (get_or tree (2 * j + 1) 0) (get_or tree (2 * j + 2) 0))
      → k + 2 ≡ span * 2
      → IsGrown first base span tree root g₀ g
      → IsRow (span * 2) (base * 2 + 1) k tree g g'
      → IsGrown (2 * first + 1) (base * 2 + 1) (span * 2) tree root g₀ g'
  row-IsGrown first base span k tree root g₀ g g' heap hashed e d r = record {
    heap = λ j lt. elim (dec_lt j first) [
      | yes below ↦
          r.before j (omega (arith, d.starts))
          ∙ d.heap j below
          ∙ sym (
              ap₂ hasher (r.before (2 * j + 1) (omega (arith, d.starts)))
                (r.before (2 * j + 2) (omega (arith, d.starts))))
      | no above ↦ r.before j (omega (arith, d.starts)) ∙ level j (omega arith) lt
    ];
    inside = λ i lt. r.row i lt ∙ ap (λ (t : ℕ). get_or tree t 0) (omega arith);
    before = λ j le lt. on_left j le lt;
    after = λ j le. on_right j le;
    starts = omega (arith, d.starts);
    ends = omega (arith, d.ends);
    some_node = omega (arith, d.some_node);
    top = r.before 0 (omega arith) ∙ d.top;
  }
    where
      on_left : (j : ℕ) → 2 * first + 1 ≤ j → j < base * 2 + 1 → g' j ≡ g₀ j
      on_left j le lt = r.before j lt ∙ elim (dec_lt j base) [
        | yes left ↦ d.before j (omega arith) left
        | no right ↦ d.after j (omega (arith, d.ends))
      ]

      on_right : (j : ℕ) → base * 2 + 1 + span * 2 ≤ j → g' j ≡ g₀ j
      on_right j le = r.after j le ∙ d.after j (omega (arith, d.some_node))

      own : (j : ℕ) → base ≤ j → j < base + span → g j ≡ hasher (g' (2 * j + 1)) (g' (2 * j + 2))
      own j le lt =
          ap g (omega arith)
          ∙ d.inside (j - base) (omega arith)
          ∙ hashed (span - 1 + (j - base)) (omega arith)
          ∙ sym (
              ap₂ hasher
                (ap g' (omega arith)
                  ∙ r.row (2 * (j - base)) (omega arith)
                  ∙ ap (λ (t : ℕ). get_or tree t 0) (omega arith))
                (ap g' (omega arith)
                  ∙ r.row (2 * (j - base) + 1) (omega arith)
                  ∙ ap (λ (t : ℕ). get_or tree t 0) (omega arith)))

      level :
          (j : ℕ) → first ≤ j → j < 2 * first + 1 → g j ≡ hasher (g' (2 * j + 1)) (g' (2 * j + 2))
      level j le lt = elim (dec_lt j base) [
        | yes left ↦
            d.before j le left
            ∙ heap j lt
            ∙ sym (
                ap₂ hasher (on_left (2 * j + 1) (omega arith) (omega arith))
                  (on_left (2 * j + 2) (omega arith) (omega arith)))
        | no right ↦ elim (dec_lt j (base + span)) [
          | yes within ↦ own j (omega arith) within
          | no beyond ↦
              d.after j (omega arith)
              ∙ heap j lt
              ∙ sym (
                  ap₂ hasher (on_right (2 * j + 1) (omega arith))
                    (on_right (2 * j + 2) (omega arith)))
        ]
      ]

  pub IsGrown-at :
      {f f' b b' w w' : ℕ} {tree : List ℕ} {root : ℕ} {g₀ g g' : ℕ → ℕ}
      → f ≡ f'
      → b ≡ b'
      → w ≡ w'
      → g ≡ g'
      → IsGrown f' b' w' tree root g₀ g'
      → IsGrown f b w tree root g₀ g
  IsGrown-at e e' e'' e''' d = rw (e, e', e'', e''') d

  -- All the rounds: `base` and `span` are those of the last row.
  pub sub_tree_updates-IsGrown :
      (rounds first base span k : ℕ) (tree : List ℕ) (root : ℕ) (g₀ g : ℕ → ℕ)
      → IsHeapUpTo hasher ((first + 1) * 2 ^ rounds - 1) g₀
      → ((j : ℕ)
          → j + 1 < span * 2 ^ rounds
          → get_or tree j 0 ≡ hasher (get_or tree (2 * j + 1) 0) (get_or tree (2 * j + 2) 0))
      → length tree + 1 ≡ span * 2 ^ (rounds + 1)
      → k + 2 ≡ span * 2
      → IsGrown first base span tree root g₀ g
      → (us : List Node) × (sub_tree_updates rounds base k span tree ≡ some us)
        × IsGrown
            ((first + 1) * 2 ^ rounds - 1)
            ((base + 1) * 2 ^ rounds - 1)
            (span * 2 ^ rounds)
            tree
            root
            g₀
            (overlay us g)
  unfolding sub_tree_updates overlay
  sub_tree_updates-IsGrown zero first base span k tree root g₀ g heap hashed size e d =
      let f : (first + 1) * 2 ^ 0 - 1 ≡ first = omega arith in
      let b : (base + 1) * 2 ^ 0 - 1 ≡ base = omega arith in
      let w : span * 2 ^ 0 ≡ span = omega arith in ([], refl, rw (f, b, w) d)
  sub_tree_updates-IsGrown (suc rounds) first base span k tree root g₀ g heap hashed size e d =
      let f : (first + 1) * 2 ^ suc rounds ≡ (2 * first + 1 + 1) * 2 ^ rounds =
        twice (first + 1) rounds ∙ ap (λ (t : ℕ). t * 2 ^ rounds) (omega arith) in
      let b : (base + 1) * 2 ^ suc rounds ≡ (base * 2 + 1 + 1) * 2 ^ rounds =
        twice (base + 1) rounds ∙ ap (λ (t : ℕ). t * 2 ^ rounds) (omega arith) in
      let w : span * 2 ^ suc rounds ≡ span * 2 * 2 ^ rounds = twice span rounds in
      let size' : length tree + 1 ≡ span * 2 * 2 ^ (rounds + 1) =
        size ∙ ap (λ (t : ℕ). span * 2 ^ t) (omega arith) ∙ twice span (rounds + 1) in
      let size'' : length tree + 1 ≡ span * 2 * 2 * 2 ^ rounds =
        size' ∙ ap (λ (t : ℕ). span * 2 * 2 ^ t) (omega arith) ∙ twice (span * 2) rounds in
      let (us, made, r) =
        row_updates-IsRow (span * 2) (base * 2 + 1) k tree g
          (omega (arith, size'', at_least (span * 2 * 2) rounds, d.some_node)) in
      let (vs, made', grown) =
        sub_tree_updates-IsGrown rounds (2 * first + 1) (base * 2 + 1) (span * 2) (k + span * 2)
          tree root g₀ (overlay us g) (λ j lt. heap j (omega (arith, f)))
          (λ j lt. hashed j (omega (arith, w))) size' (omega arith)
          (row-IsGrown first base span k tree root g₀ g (overlay us g)
            (λ j lt. heap j (omega (arith, f, at_least (2 * first + 1 + 1) rounds)))
            (λ j lt. hashed j (omega (arith, w, at_least (span * 2) rounds))) e d r) in
      (
        us ++ vs,
        rw (made, sub_tree_updates, made', sub_tree_updates) refl,
        IsGrown-at (ap (λ (t : ℕ). t - 1) f) (ap (λ (t : ℕ). t - 1) b) w (overlay-append us vs g)
            grown,
      )
