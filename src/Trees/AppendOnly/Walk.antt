-- ===== src/Trees/AppendOnly/Walk.antt =====
-- The hashes on the way up, as a recursion on the frontier, and what the frontier holds.
use nightfall_4_ce.Common.{
  ℕ, suc, ◌+◌, ◌-◌, ◌*◌, ◌/◌, ◌%◌, ◌^◌, ◌<◌, ◌≡◌, refl, sym, ◌∙◌, ap, inl, inr, arith, List, [],
  ◌∷◌, some, length, get_elem?, set, if◌then◌else◌, ◌==◌,
}
use mathlib.Core.Path.{ap₂}
use native.Mathlib.Numerals.{add-one}
use native.Mathlib.Nat.{pow-suc, div-div-eq-div-mul, add-zero}
use nightfall_4_ce.Trees.Helpers.{direction_loop}
use nightfall_4_ce.Trees.Root.{level_up, root_of}
use nightfall_4_ce.Trees.AppendOnly.Frontier.{TrailingOnes, none_left, one_more, even_or_odd}
use nightfall_4_ce.Trees.AppendOnly.Defs.{next_hash, hash_path, last_or}

half_of_even : (n : ℕ) → n % 2 ≡ 0 → (n + 1) / 2 ≡ n / 2
half_of_even n even = omega arith

half_of_odd : (n : ℕ) → n % 2 ≡ 1 → (n + 1) / 2 ≡ n / 2 + 1
half_of_odd n odd = omega arith

module _ (hasher : ℕ → ℕ → ℕ) where
  unfoldable pub walk : List ℕ → ℕ → ℕ → List ℕ
  walk [] n hash = hash ∷ []
  walk (a ∷ frontier) n hash =
      hash ∷ walk frontier (n / 2) (if n % 2 == 0 then hasher hash 0 else hasher a hash)

  pub hash_path-walk :
      (frontier suffix : List ℕ) (i index n hash : ℕ)
      → ((j : ℕ) → get_elem? frontier (i + j) ≡ get_elem? suffix j)
      → index / 2 ^ i ≡ n
      → hash_path hasher frontier (direction_loop (length suffix) i index) i hash
        ≡ some (walk suffix n hash)
  unfolding hash_path next_hash direction_loop walk
  hash_path-walk frontier [] i index n hash same e = refl
  hash_path-walk frontier (a ∷ rest) i index n hash same e =
      let here : get_elem? frontier i ≡ some a = rw add-zero at (same 0) in
      let halved : index / 2 ^ (i + 1) ≡ n / 2 =
        ap (λ (t : ℕ). index / t) (ap (λ (t : ℕ). 2 ^ t) (add-one i) ∙ pow-suc 2 i)
        ∙ sym (div-div-eq-div-mul index (2 ^ i) 2)
        ∙ ap (λ (t : ℕ). t / 2) e in
      let above = λ (h : ℕ).
        hash_path-walk frontier rest (i + 1) index (n / 2) h
          (λ j. ap (get_elem? frontier) (omega arith) ∙ same (suc j)) halved in
      elim (even_or_odd n) [
        | inl even ↦ rw (e, even) (rw (above (hasher hash 0)))
        | inr odd ↦ rw (e, odd, hash_path, next_hash, here) (rw (above (hasher a hash)))
      ]

  -- What a frontier holds below the leaf `n`: at each level where the next node is a right child,
  -- the node on its left.
  abbrev pub IsFrontier : List ℕ → ℕ → (ℕ → ℕ) → Type 0
  IsFrontier [] n f = Unit
  IsFrontier (a ∷ frontier) n f =
      (n % 2 ≡ 1 → a ≡ f (n - 1)) × IsFrontier frontier (n / 2) (level_up hasher f)

  -- `g` is `f` with the leaf `x` at `n`, and no leaf after it.
  pub record Appends (f g : ℕ → ℕ) (n x : ℕ) : Type 0 where
    pub before : (i : ℕ) → i < n → g i ≡ f i
    pub placed : g n ≡ x
    pub after : (i : ℕ) → n < i → g i ≡ 0

  IsFrontier-ext :
      (frontier : List ℕ) (n : ℕ) (f g : ℕ → ℕ)
      → ((i : ℕ) → i < n → g i ≡ f i)
      → IsFrontier frontier n f
      → IsFrontier frontier n g
  IsFrontier-ext [] n f g h fr = tt
  IsFrontier-ext (a ∷ frontier) n f g h fr = (
    λ odd. fr.0 odd ∙ sym (h (n - 1) (omega arith)),
    IsFrontier-ext frontier (n / 2) (level_up hasher f) (level_up hasher g)
        (λ i lt. ap₂ hasher (h (2 * i) (omega arith)) (h (2 * i + 1) (omega arith))) fr.1,
  )

  module _ (zero_hash : hasher 0 0 ≡ 0) where
    -- One level up of an append, at an even and at an odd position.
    Appends-up_even :
        (f g : ℕ → ℕ) (n x : ℕ)
        → n % 2 ≡ 0
        → Appends f g n x
        → Appends (level_up hasher f) (level_up hasher g) (n / 2) (hasher x 0)
    Appends-up_even f g n x even a = record {
      before =
          λ i lt. ap₂ hasher (a.before (2 * i) (omega arith)) (a.before (2 * i + 1) (omega arith));
      placed = ap₂ hasher (ap g (omega arith) ∙ a.placed) (a.after (2 * (n / 2) + 1) (omega arith));
      after = λ i lt.
          ap₂ hasher (a.after (2 * i) (omega arith)) (a.after (2 * i + 1) (omega arith))
          ∙ zero_hash;
    }

    Appends-up_odd :
        (f g : ℕ → ℕ) (n x : ℕ)
        → n % 2 ≡ 1
        → Appends f g n x
        → Appends (level_up hasher f) (level_up hasher g) (n / 2) (hasher (f (n - 1)) x)
    Appends-up_odd f g n x odd a = record {
      before =
          λ i lt. ap₂ hasher (a.before (2 * i) (omega arith)) (a.before (2 * i + 1) (omega arith));
      placed =
          ap₂ hasher (a.before (2 * (n / 2)) (omega arith) ∙ ap f (omega arith))
            (ap g (omega arith) ∙ a.placed);
      after = λ i lt.
          ap₂ hasher (a.after (2 * i) (omega arith)) (a.after (2 * i + 1) (omega arith))
          ∙ zero_hash;
    }

    -- The walk ends in the root of the tree with the new leaf.
    pub last-walk :
        (frontier : List ℕ) (n x d : ℕ) (f g : ℕ → ℕ)
        → IsFrontier frontier n f
        → Appends f g n x
        → n < 2 ^ length frontier
        → last_or d (walk frontier n x) ≡ root_of hasher (length frontier) g
    unfolding walk last_or root_of
    last-walk [] n x d f g fr a lt = sym a.placed ∙ ap g (omega arith)
    last-walk (b ∷ frontier) n x d f g fr a lt = elim (even_or_odd n) [
      | inl even ↦ rw even (
          last-walk frontier (n / 2) (hasher x 0) x (level_up hasher f) (level_up hasher g) fr.1
            (Appends-up_even f g n x even a) (omega (arith, pow-suc 2 (length frontier))))
      | inr odd ↦
          rw (odd, fr.0 odd)
            (last-walk frontier (n / 2) (hasher (f (n - 1)) x) x (level_up hasher f)
              (level_up hasher g) fr.1 (Appends-up_odd f g n x odd a)
              (omega (arith, pow-suc 2 (length frontier))))
    ]

    -- Storing the hash at the number of trailing ones keeps the frontier for the next leaf.
    pub set-IsFrontier :
        (frontier : List ℕ) {k : ℕ} (n x : ℕ) (f g : ℕ → ℕ)
        → IsFrontier frontier n f
        → Appends f g n x
        → TrailingOnes n k
        → k < length frontier
        → (p : ℕ) × (get_elem? (walk frontier n x) k ≡ some p)
          × IsFrontier (set frontier k p) (n + 1) g
    unfolding walk
    set-IsFrontier [] n x f g fr a ones lt = absurd (omega arith)
    set-IsFrontier (b ∷ frontier) n x f g fr a (none_left even) lt = (
      x,
      refl,
      (
        λ _. sym a.placed ∙ ap g (omega arith),
        rw (half_of_even n even) (
            IsFrontier-ext frontier (n / 2) (level_up hasher f) (level_up hasher g)
              (Appends-up_even f g n x even a).before fr.1),
      ),
    )
    set-IsFrontier (b ∷ frontier) n x f g fr a (one_more odd ones) lt =
        let (p, found, kept) =
          set-IsFrontier frontier (n / 2) (hasher (f (n - 1)) x) (level_up hasher f)
            (level_up hasher g) fr.1 (Appends-up_odd f g n x odd a) ones (omega arith) in
        (p, rw (odd, fr.0 odd) found, (λ even. absurd (omega arith), rw (half_of_odd n odd) kept))
