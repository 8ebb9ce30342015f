-- ===== src/Client/Events.antt =====
-- The client's event handler, `nightfall_client/src/driven/event_handlers/nightfall_event.rs`.
pub mod Defs
pub mod Handler
pub mod Laws
pub mod Success
pub mod Status
