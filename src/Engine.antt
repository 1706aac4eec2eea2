-- ===== src/Engine.antt =====
-- app/conversation/engine.py: the engine that joins the guardrails and the state machine in one turn.
pub mod Contracts
pub mod Results
pub mod Recover
pub mod Contact
pub mod Turn
pub mod Answers
pub mod Persistence
