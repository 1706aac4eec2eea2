-- ===== src/Guardrails/Fallbacks.antt =====
-- app/conversation/guardrails/fallbacks.py: the recovery from a rejected action.
pub mod Safe
use Prim.Native.String
use call_forge.Prelude.{
  String, Bool, true, false, ◌||◌, Option, none, some, ◌==◌, string_eq, member, lookup,
  if◌then◌else◌,
}
use call_forge.Vocabulary.{
  ConversationState, AgentAction, mark_dnc, end_call, conversation_state_eq, agent_action_eq,
  state_value,
}
use call_forge.Context.{Context}
use call_forge.Contracts.{ValidationCategory, ValidationResult, category_value}
use call_forge.StateMachine.Config.{FallbackMapping, FallbackConfig, MachineConfig}

pub record FallbackDecision : Type 0 where
  pub action : AgentAction
  pub response_key : String
  pub is_terminal : Bool
  pub reason : String

pub record FallbackEngine : Type 0 where
  pub config : MachineConfig
  pub fallbacks : FallbackConfig

-- The constructor raises, here `none`, if the configuration has no fallbacks.
with_fallbacks : MachineConfig → Option FallbackConfig → Option FallbackEngine
with_fallbacks config none = none
with_fallbacks config (some fallbacks) = some (record { config = config; fallbacks = fallbacks })

unfoldable pub new_engine : MachineConfig → Option FallbackEngine
unfolding with_fallbacks
new_engine config = with_fallbacks config config.fallbacks

unfoldable pub terminal_safe : String → FallbackDecision
terminal_safe reason = record {
  action = end_call;
  response_key = "safe_close";
  is_terminal = true;
  reason = reason;
}

-- A mapping's decision where only END_CALL ends the conversation.
recovery : FallbackMapping → String → FallbackDecision
recovery mapping reason = record {
  action = mapping.action;
  response_key = mapping.response_key;
  is_terminal = mapping.action == end_call;
  reason = reason;
}

state_recovery : Option FallbackMapping → FallbackMapping → String → String → FallbackDecision
unfolding recovery
state_recovery (some mapping) default reason default_reason = recovery mapping reason
state_recovery none default reason default_reason = recovery default default_reason

unfoldable pub select_for_state : FallbackEngine → ConversationState → String → FallbackDecision
unfolding terminal_safe state_recovery
select_for_state engine state reason =
    if member state engine.config.terminal_states
    then terminal_safe "already_terminal"
    else state_recovery (lookup state engine.fallbacks.by_state) engine.fallbacks.default reason
        reason

abbrev is_unknown_requirement : ValidationCategory → Bool
is_unknown_requirement ValidationCategory.unknown_requirement = true
is_unknown_requirement _ = false

category_recovery : FallbackMapping → ValidationCategory → FallbackDecision
category_recovery mapping category = record {
  action = mapping.action;
  response_key = mapping.response_key;
  is_terminal =
      if is_unknown_requirement category
      then true
      else mapping.action == end_call || mapping.action == mark_dnc;
  reason = String.◌++◌ "category:" (category_value category);
}

by_category_or_state :
    FallbackEngine
    → ConversationState
    → ValidationCategory
    → Option FallbackMapping
    → FallbackDecision
unfolding category_recovery state_recovery
by_category_or_state engine state category (some mapping) = category_recovery mapping category
by_category_or_state engine state category none =
    state_recovery (lookup state engine.fallbacks.by_state) engine.fallbacks.default
      (String.◌++◌ "state:" (state_value state)) "default"

unfoldable pub select :
    FallbackEngine → ConversationState → ValidationResult → Option Context → FallbackDecision
unfolding terminal_safe by_category_or_state
select engine state result context =
    if member state engine.config.terminal_states
    then terminal_safe "already_terminal"
    else by_category_or_state engine state result.category
        (lookup (category_value result.category) engine.fallbacks.by_category)
