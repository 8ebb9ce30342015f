-- ===== src/Client/Events/Success.antt =====
-- A block that the client's handler accepts: its commitments are in the tree, ours are in the database,
-- and it is stored: `process_propose_block_event` of
-- `nightfall_client/src/driven/event_handlers/nightfall_event.rs`.
use Prim.Native.String.{String}
