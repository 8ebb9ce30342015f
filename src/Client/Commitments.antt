-- ===== src/Client/Commitments.antt =====
-- The client's commitments: their collection and the choice of those to spend.
pub mod Store
pub mod Laws
