-- ===== src/Guardrails/Priority.antt =====
-- app/conversation/guardrails/priority.py: the outcomes that replace the model's proposal.
use call_forge.Prelude.{Option, none, some}
use call_forge.Vocabulary.{ConversationState, AgentAction, mark_dnc, end_call}
use call_forge.Context.{Context}

pub data TrustedPriorityOutcome : Type 0 where
  nothing dnc not_interested : TrustedPriorityOutcome

-- The argument may be an object of another class, which the guard refuses.
pub data OutcomeArgument : Type 0 where
  trusted : TrustedPriorityOutcome → OutcomeArgument
  untrusted : OutcomeArgument

unfoldable pub resolve_priority_action :
    OutcomeArgument → ConversationState → Option Context → Option AgentAction
resolve_priority_action untrusted state context = none
resolve_priority_action (trusted dnc) state context = some mark_dnc
resolve_priority_action (trusted not_interested) state context = some end_call
resolve_priority_action (trusted nothing) state context = none
