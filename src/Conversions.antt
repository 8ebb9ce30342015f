-- ===== src/Conversions.antt =====
-- The conversions between Solidity words and field elements,
-- `nightfall_client/src/driven/contract_functions/contract_type_conversions.rs`.
pub mod Defs
pub mod Laws
