-- ===== src/Engine/Recover.antt =====
-- ConversationEngine of app/conversation/engine.py: actions that are validated, and the recovery from
-- a rejection.
use call_forge.Prelude.{
  String, true, not, Option, none, some, [], Result, ok, err, string_eq, if◌then◌else◌,
}
use call_forge.Vocabulary.{ConversationState, AgentAction, conversation_state_eq, agent_action_eq}
use call_forge.Context.{Context}
use call_forge.Contracts.{ValidationResult}
use call_forge.StateMachine.Config.{MachineConfig}
use call_forge.StateMachine.Machine.{Machine, apply_transition}
use call_forge.Guardrails.Validation.{validate}
use call_forge.Guardrails.Fallbacks.{FallbackEngine, FallbackDecision, select, select_for_state}
use call_forge.Guardrails.Clarification.{ClarificationDecision}
use call_forge.Engine.Contracts.{
  ConversationContext, ConversationResult, new_result, EngineError, assertion_failed,
  ConversationEngine,
}
use call_forge.Engine.Results.{
  Step, given, validated, attempt_transition, catch_transition, rejected_result, after_transition,
  moved_result, apply_and_build, fallback_failed_result,
}

-- The decision of a fallback: the given one, or the one for the rejection.
unfoldable pub decide :
    FallbackEngine
    → ConversationState
    → Option ValidationResult
    → Context
    → Option FallbackDecision
    → Result EngineError FallbackDecision
decide fallback state original ctx (some decision) = ok decision
decide fallback state (some validation) ctx none = ok (select fallback state validation (some ctx))
decide fallback state none ctx none = err assertion_failed

unfoldable pub recover :
    Machine
    → MachineConfig
    → ConversationContext
    → Option ValidationResult
    → Context
    → Option ClarificationDecision
    → FallbackDecision
    → Step
unfolding moved_result after_transition fallback_failed_result attempt_transition given validated
recover m validator context original ctx clarification decision =
    given m (validated (validate validator m.current_state decision.action ctx)) (λ validation.
      if validation.allowed
      then attempt_transition (apply_transition m decision.action [] none)
          (λ m' transition. (
            m',
            new_result
                (record (moved_result m' (after_transition context decision.action transition)
                  "fallback" m.current_state decision.action transition validation) {
                    response_key = some decision.response_key;
                    original_validation = original;
                    fallback_used = true;
                    clarification = clarification;
                  }),
          ))
          (λ m'.
            fallback_failed_result m' context original validation decision.response_key
              clarification)
      else fallback_failed_result m context original validation decision.response_key clarification)

-- `_fallback_path`, past its assertion that there is a fallback engine.
unfoldable pub fallback_path :
    Machine
    → MachineConfig
    → FallbackEngine
    → ConversationContext
    → Option ValidationResult
    → Context
    → Option FallbackDecision
    → Option ClarificationDecision
    → Step
unfolding decide recover given
fallback_path m validator fallback context original ctx decision clarification =
    given m (decide fallback m.current_state original ctx decision)
      (recover m validator context original ctx clarification)

-- A rejection: the fallback's recovery, or the rejected result where there is no fallback.
unfoldable pub reject_or_recover :
    Machine
    → MachineConfig
    → Option FallbackEngine
    → ConversationContext
    → ValidationResult
    → Context
    → String
    → Option ClarificationDecision
    → Step
unfolding rejected_result fallback_path
reject_or_recover m validator none context validation ctx path clarification =
    rejected_result m context validation path
reject_or_recover m validator (some fallback) context validation ctx path clarification =
    fallback_path m validator fallback context (some validation) ctx none clarification

-- No action was rejected: the state's own recovery, or the rejected result of an action.
unfoldable pub recover_for_state :
    Machine
    → MachineConfig
    → Option FallbackEngine
    → ConversationContext
    → AgentAction
    → Context
    → String
    → Option ClarificationDecision
    → Step
unfolding rejected_result fallback_path given validated
recover_for_state m validator none context action ctx path clarification =
    given m (validated (validate validator m.current_state action ctx))
      (λ validation. rejected_result m context validation path)
recover_for_state m validator (some fallback) context action ctx path clarification =
    fallback_path m validator fallback context none ctx
      (some (select_for_state fallback m.current_state "clarification_exhausted")) clarification

-- `_validate_and_apply`
unfoldable pub validate_and_apply :
    ConversationEngine → ConversationContext → AgentAction → Context → String → Step
unfolding reject_or_recover apply_and_build catch_transition rejected_result given validated
validate_and_apply e context action ctx path =
    given e.machine (validated (validate e.validator e.machine.current_state action ctx))
      (λ validation.
        if not validation.allowed
        then reject_or_recover e.machine e.validator e.fallback context validation ctx path none
        else catch_transition (apply_and_build e.machine context action validation path)
            (λ m. rejected_result m context validation path))

-- A transition that is rejected in place, without a fallback: the offer's and the confirmation's.
unfoldable pub guarded_move :
    ConversationEngine
    → ConversationContext
    → ConversationContext
    → AgentAction
    → Context
    → String
    → (ConversationResult → ConversationResult)
    → Step
unfolding rejected_result attempt_transition moved_result given validated
guarded_move e context committed action ctx path extend =
    given e.machine (validated (validate e.validator e.machine.current_state action ctx))
      (λ validation.
        if not validation.allowed
        then rejected_result e.machine context validation path
        else attempt_transition (apply_transition e.machine action [] none)
            (λ m' transition. (
              m',
              new_result (
                  extend (
                    moved_result m' committed path e.machine.current_state action transition
                      validation)),
            ))
            (λ m'. rejected_result m' context validation path))
