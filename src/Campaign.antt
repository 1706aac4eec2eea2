-- ===== src/Campaign.antt =====
-- The campaign queue (app/leads/campaign): its contracts and the engine that decides on them.
pub mod Contracts
pub mod Engine
