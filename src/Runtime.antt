-- ===== src/Runtime.antt =====
-- app/runtime: events, turns and deliveries of a call, and the chat sessions.
pub mod Contracts
pub mod Session
pub mod Turn
pub mod Coordinator
pub mod Chat
