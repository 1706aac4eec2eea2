-- ===== src/Policy.antt =====
-- The deterministic policies on a proposal of the model (app/brain): budget, scope and authority,
-- each with its loader.
pub mod Budget
pub mod Scope
pub mod Authority
