-- ===== src/Conversions/Defs.antt =====
-- `FrBn254`, `Uint256`, `Addr` and the compressed secrets of a transaction. A `U256` is a number
-- below 2 ^ 256; a `BigInt` that becomes a field element is reduced by the modulus.
use nightfall_4_ce.Common.{
  ℕ, zero, suc, List, [], ◌∷◌, ◌==◌, ◌+◌, ◌-◌, ◌*◌, ◌/◌, ◌%◌, ◌^◌, Option, none, some, ltb, leb,
  if◌then◌else◌, Result, ok, err,
}
use nightfall_4_ce.Field.{Fr254, modulus}
use nightfall_4_ce.Client.Entities.Defs.{CompressedSecrets}

pub data ConversionError : Type 0 where
  overflow parse_failed : ConversionError

-- `impl TryFrom<U256> for FrBn254`.
unfoldable pub fr_of_u256 : ℕ → Result ConversionError Fr254
fr_of_u256 u = if ltb modulus u then err overflow else ok (u % modulus)

-- `iter_u64_digits`: the 64-bit digits of a number, the lowest first, up to the highest that is not
-- zero. The rounds bound their number.
unfoldable pub iter_u64_digits : ℕ → ℕ → List ℕ
iter_u64_digits zero n = []
iter_u64_digits (suc rounds) n =
    let rest = iter_u64_digits rounds (n / 2 ^ 64) in if n == 0 then [] else n % 2 ^ 64 ∷ rest

-- `digits[i] = digit`.
unfoldable pub set_digit : ℕ → ℕ → List ℕ → List ℕ
set_digit i digit [] = []
set_digit zero digit (d ∷ ds) = digit ∷ ds
set_digit (suc i) digit (d ∷ ds) = d ∷ set_digit i digit ds

-- The loop over the digits from the index `i`.
unfoldable pub store_digits : ℕ → List ℕ → List ℕ → List ℕ
unfolding set_digit
store_digits i [] digits = digits
store_digits i (digit ∷ rest) digits = store_digits (suc i) rest (set_digit i digit digits)

-- `U256::from_limbs`: the lowest limb comes first.
unfoldable pub from_limbs : List ℕ → ℕ
from_limbs [] = 0
from_limbs (d ∷ ds) = d + 2 ^ 64 * from_limbs ds

-- `impl From<Fr254> for Uint256`: a field element is below 2 ^ 254, so four rounds give all its digits.
unfoldable pub u256_of_fr : Fr254 → ℕ
unfolding iter_u64_digits store_digits from_limbs
u256_of_fr f = from_limbs (store_digits 0 (iter_u64_digits 4 f) (0 ∷ 0 ∷ 0 ∷ 0 ∷ []))

abbrev pub max_addr : ℕ
max_addr = 2923003274661805836407369665432566039311865085951

-- `impl TryFrom<Fr254> for Addr`: the last 20 of the 32 bytes.
unfoldable pub addr_of_fr : Fr254 → Result ConversionError ℕ
addr_of_fr f = if ltb max_addr f then err overflow else ok (f % 2 ^ 160)

-- `impl From<Address> for FrBn254`.
unfoldable pub fr_of_addr : ℕ → Fr254
fr_of_addr address = address % modulus

pub record Words : Type 0 where
  pub word_0 : ℕ
  pub word_1 : ℕ
  pub word_2 : ℕ
  pub word_3 : ℕ

abbrev three_of :
    Result ConversionError Fr254
    → Result ConversionError Fr254
    → Result ConversionError Fr254
    → Fr254
    → Fr254
    → Option CompressedSecrets
three_of (ok a) (ok b) (ok c) y flag =
    some (record { secret_0 = a; secret_1 = b; secret_2 = c; secret_3 = y; secret_4 = flag })
three_of _ _ _ y flag = none

-- `impl From<[U256; 4]> for CompressedSecrets`: the top bit of the last word is the flag of the
-- compressed point. A word that is no field element is a panic.
unfoldable pub secrets_of_words : Words → Option CompressedSecrets
unfolding fr_of_u256
secrets_of_words w =
    let top_bit = w.word_3 / 2 ^ 255 in
    three_of (fr_of_u256 w.word_0) (fr_of_u256 w.word_1) (fr_of_u256 w.word_2)
      ((w.word_3 - top_bit * 2 ^ 255) % modulus) (top_bit % modulus)

-- `impl From<CompressedSecrets> for [U256; 4]`: more than 32 bytes are a panic.
unfoldable pub words_of_secrets : CompressedSecrets → Option Words
unfolding u256_of_fr
words_of_secrets c =
    let point = c.secret_3 + c.secret_4 * 2 ^ 255 in
    if leb (2 ^ 256) point
    then none
    else some (record {
      word_0 = u256_of_fr c.secret_0;
      word_1 = u256_of_fr c.secret_1;
      word_2 = u256_of_fr c.secret_2;
      word_3 = point;
    })
