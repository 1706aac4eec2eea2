-- ===== src/Examples.antt =====
-- The theorems at concrete inputs.
mod Calls
mod Chats
mod Turns
mod Conversation
mod Guards
mod Queue
mod Policies
