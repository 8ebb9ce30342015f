-- ===== src/Client/Entities/Laws.antt =====
-- The numbers of the client's enums, `nightfall_client/src/domain/entities.rs`.
use nightfall_4_ce.Common.{ℕ, zero, suc, ◌<◌, ◌≡◌, refl, arith}
use nightfall_4_ce.Client.Entities.Defs.{
  TokenType, erc20, erc1155, erc721, erc3525, token_type_to_u8, token_type_of_u8, OperationType,
  deposit, withdraw, transfer, operation_type_to_u8, operation_type_of_u8,
}

token_type_back : (t : TokenType) → token_type_of_u8 (token_type_to_u8 t) ≡ t
unfolding token_type_of_u8 token_type_to_u8
token_type_back erc20 = refl
token_type_back erc1155 = refl
token_type_back erc721 = refl
token_type_back erc3525 = refl

token_type_unknown : (n : ℕ) → 3 < n → token_type_of_u8 n ≡ erc20
unfolding token_type_of_u8
token_type_unknown zero h = absurd (omega arith)
token_type_unknown (suc zero) h = absurd (omega arith)
token_type_unknown (suc (suc zero)) h = absurd (omega arith)
token_type_unknown (suc (suc (suc zero))) h = absurd (omega arith)
token_type_unknown (suc (suc (suc (suc n)))) h = refl

operation_type_back : (t : OperationType) → operation_type_of_u8 (operation_type_to_u8 t) ≡ t
unfolding operation_type_of_u8 operation_type_to_u8
operation_type_back deposit = refl
operation_type_back withdraw = refl
operation_type_back transfer = refl

operation_type_unknown : (n : ℕ) → 2 < n → operation_type_of_u8 n ≡ deposit
unfolding operation_type_of_u8
operation_type_unknown zero h = absurd (omega arith)
operation_type_unknown (suc zero) h = absurd (omega arith)
operation_type_unknown (suc (suc zero)) h = absurd (omega arith)
operation_type_unknown (suc (suc (suc n))) h = refl

-- The numbers of a token type and of an operation type lead back to them; every number above the known
-- ones, of which 3 is the highest, is read as ERC-20 and as a deposit.
type_of_u8-to_u8 :
    (t : TokenType) (o : OperationType) (n : ℕ)
    → 3 < n
    → (token_type_of_u8 (token_type_to_u8 t) ≡ t)
      × (operation_type_of_u8 (operation_type_to_u8 o) ≡ o)
      × (token_type_of_u8 n ≡ erc20)
      × (operation_type_of_u8 n ≡ deposit)
type_of_u8-to_u8 t o n h = (
  token_type_back t,
  operation_type_back o,
  token_type_unknown n h,
  operation_type_unknown n (omega arith),
)
