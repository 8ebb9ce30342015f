-- ===== src/Field.antt =====
-- The BN254 scalar field, `ark_bn254::Fr`: an element is its canonical representative below the
-- modulus, and the operations wrap at the modulus.
use nightfall_4_ce.Common.{ℕ, ◌+◌, ◌-◌, ◌%◌, ◌<◌, ◌≤◌, ◌≡◌, arith}

abbrev pub Fr254 : Type 0
Fr254 = ℕ

abbrev pub modulus : ℕ
modulus = 21888242871839275222246405745257275088548364400416034343698204186575808495617

-- `PrimeField::MODULUS_MINUS_ONE_DIV_TWO`
abbrev pub modulus_minus_one_div_two : ℕ
modulus_minus_one_div_two =
    10944121435919637611123202872628637544274182200208017171849102093287904247808

infixl 65 ◌+F◌ ◌-F◌
unfoldable pub ◌+F◌ : Fr254 → Fr254 → Fr254
a +F b = (a + b) % modulus

unfoldable pub ◌-F◌ : Fr254 → Fr254 → Fr254
a -F b = (a + modulus - b) % modulus

pub +F-lt : (a b : Fr254) → a +F b < modulus
unfolding ◌+F◌
+F-lt a b = omega arith

pub -F-lt : (a b : Fr254) → a -F b < modulus
unfolding ◌-F◌
-F-lt a b = omega arith

-- Adding and then taking away gives the first summand back, and the other way round.
pub -F-+F : (a b : Fr254) → a < modulus → b < modulus → (a +F b) -F b ≡ a
unfolding ◌+F◌ ◌-F◌
-F-+F a b ha hb = omega arith

pub +F-exact : (a b : Fr254) → a + b < modulus → a +F b ≡ a + b
unfolding ◌+F◌
+F-exact a b h = omega arith

pub -F-exact : (a b : Fr254) → b ≤ a → a < modulus → a -F b ≡ a - b
unfolding ◌-F◌
-F-exact a b h k = omega arith
