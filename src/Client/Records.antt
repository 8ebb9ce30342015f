-- ===== src/Client/Records.antt =====
-- The client's other records in `nightfall_client/src/driven/db/mongo.rs`.
pub mod Defs
pub mod Withdrawals
pub mod Laws
