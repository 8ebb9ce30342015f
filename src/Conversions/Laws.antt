-- ===== src/Conversions/Laws.antt =====
-- Field elements, addresses and compressed secrets survive the way to Solidity and back.
use nightfall_4_ce.Common.{
  ℕ, zero, suc, List, [], ◌∷◌, ◌==◌, ==→≡, Bool-cases, ◌∙◌, ◌/◌, ◌%◌, ap, ◌+◌, ◌-◌, ◌*◌, ◌^◌, ◌≤◌,
  ◌<◌, ◌≡◌, refl, sym, trichotomy, arith, some, ok, err, ◌⊎◌, inl, inr,
}
use native.Mathlib.Decide.{dec_lt}
use nightfall_4_ce.Field.{Fr254, modulus}
use nightfall_4_ce.Client.Entities.Defs.{CompressedSecrets}
use nightfall_4_ce.Conversions.Defs.{
  overflow, fr_of_u256, iter_u64_digits, set_digit, store_digits, from_limbs, u256_of_fr,
  addr_of_fr, fr_of_addr, Words, secrets_of_words, words_of_secrets,
}

abbrev no_digits : ℕ → List ℕ
no_digits zero = []
no_digits (suc n) = 0 ∷ no_digits n

from_limbs-no_digits : (n : ℕ) → from_limbs (no_digits n) ≡ 0
unfolding from_limbs
from_limbs-no_digits zero = refl
from_limbs-no_digits (suc n) = omega (arith, from_limbs-no_digits n)

-- A loop that starts at the second index leaves the first digit.
store_digits-suc :
    (i d : ℕ) (rest ds : List ℕ) → store_digits (suc i) rest (d ∷ ds) ≡ d ∷ store_digits i rest ds
unfolding store_digits set_digit
store_digits-suc i d [] ds = refl
store_digits-suc i d (digit ∷ rest) ds = store_digits-suc (suc i) d rest (set_digit i digit ds)

-- What so many digits can hold.
abbrev capacity : ℕ → ℕ
capacity zero = 1
capacity (suc n) = capacity n * 2 ^ 64

from_limbs-store_digits :
    (rounds n : ℕ)
    → n < capacity rounds
    → from_limbs (store_digits 0 (iter_u64_digits rounds n) (no_digits rounds)) ≡ n
unfolding from_limbs store_digits set_digit iter_u64_digits
from_limbs-store_digits zero n h = omega arith
from_limbs-store_digits (suc rounds) n h = elim (Bool-cases (n == 0)) [
  | inl none_left ↦
      rw (iter_u64_digits, none_left) (from_limbs-no_digits (suc rounds) ∙ sym (==→≡ n 0 none_left))
  | inr left ↦
      let rest = iter_u64_digits rounds (n / 2 ^ 64) in
      let inner : from_limbs (store_digits 0 rest (no_digits rounds)) ≡ n / 2 ^ 64 =
        from_limbs-store_digits rounds (n / 2 ^ 64) (omega arith) in
      rw (iter_u64_digits, left)
        (ap from_limbs (store_digits-suc 0 (n % 2 ^ 64) rest (no_digits rounds))
          ∙ omega (arith, inner))
]

u256_of_fr_lem : (f : Fr254) → f < modulus → u256_of_fr f ≡ f
unfolding u256_of_fr
u256_of_fr_lem f h = from_limbs-store_digits 4 f (omega arith)

-- A field element below the modulus comes back from the word of its four 64-bit digits. Any word
-- above the modulus is refused, any word below it reads as itself, and the modulus passes the check
-- and reads as zero.
pub fr_of_u256_lem :
    (f : Fr254) (u : ℕ)
    → f < modulus
    → (fr_of_u256 (u256_of_fr f) ≡ ok f)
      × ((modulus < u) × (fr_of_u256 u ≡ err overflow)
          ⊎ ((u < modulus) × (fr_of_u256 u ≡ ok u) ⊎ (u ≡ modulus) × (fr_of_u256 u ≡ ok 0)))
unfolding fr_of_u256
fr_of_u256_lem f u h = (
  rw (u256_of_fr_lem f h) (ground arith),
  elim (trichotomy modulus u) [
    | inl above ↦ inl (above, ground arith)
    | inr (inl below) ↦ inr (inl (below, ground arith))
    | inr (inr same) ↦ inr (inr (sym same, rw (sym same) refl))
  ],
)

-- A 160-bit address comes back from its field element.
addr_of_fr-fr_of_addr :
    (address : ℕ) → address < 2 ^ 160 → addr_of_fr (fr_of_addr address) ≡ ok address
unfolding addr_of_fr fr_of_addr
addr_of_fr-fr_of_addr address h = ground arith

-- An element of 161 bits passes the check and becomes the address without its highest bit; an
-- element of more bits is refused.
pub addr_of_fr_wide :
    (f : Fr254)
    → 2 ^ 160 ≤ f
    → (f < 2 ^ 161) × (addr_of_fr f ≡ ok (f - 2 ^ 160))
      ⊎ (2 ^ 161 ≤ f) × (addr_of_fr f ≡ err overflow)
unfolding addr_of_fr
addr_of_fr_wide f h = elim (dec_lt f (2 ^ 161)) [
  | yes below ↦ inl (below, ground arith)
  | no above ↦ inr (omega arith, ground arith)
]

-- What the encryption makes: field elements, the last of them a flag.
pub record IsEncoded (c : CompressedSecrets) : Type 0 where
  pub first : c.secret_0 < modulus
  pub second : c.secret_1 < modulus
  pub third : c.secret_2 < modulus
  pub point : c.secret_3 < modulus
  pub flag : c.secret_4 < 2

-- Secrets of which the first four are field elements and the last is a bit have four words, and
-- come back from them.
secrets_of_words_lem :
    (c : CompressedSecrets)
    → IsEncoded c
    → (w : Words) × (words_of_secrets c ≡ some w) × (secrets_of_words w ≡ some c)
unfolding secrets_of_words words_of_secrets
secrets_of_words_lem c h = (
  record {
    word_0 = c.secret_0;
    word_1 = c.secret_1;
    word_2 = c.secret_2;
    word_3 = c.secret_3 + c.secret_4 * 2 ^ 255;
  },
  rw
      (
        u256_of_fr_lem c.secret_0 h.first,
        u256_of_fr_lem c.secret_1 h.second,
        u256_of_fr_lem c.secret_2 h.third,
      )
      (ground arith),
  ground arith,
)
