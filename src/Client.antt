-- ===== src/Client.antt =====
-- The client, `nightfall_client`.
pub mod Entities
pub mod Selection
pub mod Commitments
pub mod Records
pub mod Events
pub mod Operations
