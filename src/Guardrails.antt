-- ===== src/Guardrails.antt =====
-- The guardrails round the machine (app/conversation/guardrails): the action validator, the priority
-- resolver, the fallback engine and the clarification engine.
pub mod Validation
pub mod Priority
pub mod Fallbacks
pub mod Clarification
