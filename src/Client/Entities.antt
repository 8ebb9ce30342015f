-- ===== src/Client/Entities.antt =====
-- The client's entities, `nightfall_client/src/domain/entities.rs`.
pub mod Defs
pub mod Laws
