-- ===== src/Client/Operations.antt =====
-- The client's own transactions: the queue of requests, the handlers of deposits, transfers and
-- withdrawals, and the sending of a transaction to the proposers.
pub mod State
pub mod Send
pub mod Service
pub mod Handlers
pub mod Requests
pub mod Queue
pub mod Keeps
pub mod Local
pub mod Drain
pub mod Conserved
pub mod Locked
pub mod Locks
pub mod Attempts
pub mod Order
