-- ===== src/StateMachine.antt =====
-- The conversation state machine (app/conversation/state_machine): the configuration and its loader
-- (states.py), the machine (machine.py) and the result of a transition (transitions.py).
pub mod Config
pub mod Load
pub mod WellFormed
pub mod Machine
