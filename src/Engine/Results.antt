-- ===== src/Engine/Results.antt =====
-- ConversationEngine of app/conversation/engine.py: its results and its transitions. A method returns
-- the machine as it left it, beside its result or what it raised; the other fields of the engine never
-- change.
use call_forge.Prelude.{
  String, Bool, true, false, not, Option, none, some, [], Result, ok, err, string_eq, ◌==◌,
  if◌then◌else◌,
}
use call_forge.Vocabulary.{
  ConversationState, AgentAction, mark_dnc, conversation_state_eq, agent_action_eq,
}
use call_forge.Contracts.{ValidationResult, ContractError}
use call_forge.StateMachine.Machine.{
  Machine, ApprovedTransition, TransitionError, key_error, value_error, apply_transition,
  is_terminal,
}
use call_forge.Guardrails.Clarification.{ClarificationDecision}
use call_forge.Engine.Contracts.{
  ConversationContext, ConversationResult, new_result, EngineError, transition_failed,
  validation_failed, service_raised,
}

abbrev pub Step : Type 0
Step = Machine × Result EngineError ConversationResult

-- A step that may raise, with the machine as it is.
unfoldable pub given : {A : Type 0} → Machine → Result EngineError A → (A → Step) → Step
given m (err e) next = (m, err e)
given m (ok a) next = next a

-- A service that may raise.
unfoldable pub served : {A : Type 0} → Option A → Result EngineError A
served none = err service_raised
served (some a) = ok a

-- The validator, which may raise.
unfoldable pub validated :
    Result ContractError ValidationResult → Result EngineError ValidationResult
validated (ok validation) = ok validation
validated (err e) = err (validation_failed e)

-- The exceptions of the machine that are a `StateTransitionError`.
unfoldable pub is_state_transition_error : TransitionError → Bool
is_state_transition_error (key_error _) = false
is_state_transition_error (value_error _) = false
is_state_transition_error _ = true

-- `try: transition = … except StateTransitionError: return …`
unfoldable pub attempt_transition :
    Machine × Result TransitionError ApprovedTransition
    → (Machine → ApprovedTransition → Step)
    → (Machine → Step)
    → Step
unfolding is_state_transition_error
attempt_transition (m, ok transition) success failure = success m transition
attempt_transition (m, err e) success failure =
    if is_state_transition_error e then failure m else (m, err (transition_failed e))

-- `try: return … except StateTransitionError: return …`
unfoldable pub catch_transition : Step → (Machine → Step) → Step
unfolding is_state_transition_error
catch_transition (m, err (transition_failed e)) failure =
    if is_state_transition_error e then failure m else (m, err (transition_failed e))
catch_transition step failure = step

-- A result with its defaults, `continues` being `not is_terminal`.
unfoldable pub plain_result :
    Machine
    → ConversationContext
    → String
    → ConversationState
    → ConversationState
    → Bool
    → Bool
    → ConversationResult
plain_result m context path current next terminal required = record {
  current_state = current;
  next_state = next;
  is_terminal = terminal;
  continues = not terminal;
  execution_required = required;
  updated_context = context;
  path = path;
  approved_action = none;
  outcome = none;
  response_key = none;
  validation = none;
  original_validation = none;
  fallback_used = false;
  fallback_failed = false;
  clarification = none;
  contact_to_persist = none;
  service_selection = none;
  terminal_states = m.config.terminal_states;
}

-- `_terminal_result`
unfoldable pub terminal_result : Machine → ConversationContext → Step
unfolding plain_result
terminal_result m context =
    (m, new_result (plain_result m context "terminal" m.current_state m.current_state true false))

-- `_rejected_result`, which does not read the action.
unfoldable pub rejected_result : Machine → ConversationContext → ValidationResult → String → Step
unfolding plain_result
rejected_result m context validation path = (
  m,
  new_result (record (plain_result m context path m.current_state m.current_state false false) {
    validation = some validation;
  }),
)

-- The updates of the context that a transition brings.
unfoldable pub after_transition :
    ConversationContext → AgentAction → ApprovedTransition → ConversationContext
after_transition context action transition = record context {
  interest_preserved = if transition.preserved_interest then true else context.interest_preserved;
  dnc_pending = if action == mark_dnc then true else context.dnc_pending;
}

-- A result of a transition from a state, the machine being as the transition left it.
unfoldable pub moved_result :
    Machine
    → ConversationContext
    → String
    → ConversationState
    → AgentAction
    → ApprovedTransition
    → ValidationResult
    → ConversationResult
unfolding plain_result
moved_result m context path from_state action transition validation =
    record (plain_result m context path from_state transition.to_state (is_terminal m) true) {
      approved_action = some action;
      outcome = transition.outcome;
      validation = some validation;
    }

unfoldable pub built :
    ConversationContext
    → AgentAction
    → ValidationResult
    → String
    → ConversationState
    → Machine × Result TransitionError ApprovedTransition
    → Step
unfolding moved_result after_transition
built context action validation path from_state (m, ok transition) = (
  m,
  new_result (
      moved_result m (after_transition context action transition) path from_state action transition
        validation),
)
built context action validation path from_state (m, err e) = (m, err (transition_failed e))

-- `_apply_and_build`
unfoldable pub apply_and_build :
    Machine → ConversationContext → AgentAction → ValidationResult → String → Step
unfolding built
apply_and_build m context action validation path =
    built context action validation path m.current_state (apply_transition m action [] none)

-- `_fallback_failed_result`
unfoldable pub fallback_failed_result :
    Machine
    → ConversationContext
    → Option ValidationResult
    → ValidationResult
    → String
    → Option ClarificationDecision
    → Step
unfolding plain_result
fallback_failed_result m context original validation response_key clarification = (
  m,
  new_result
      (record (plain_result m context "fallback" m.current_state m.current_state (is_terminal m)
        false) {
          response_key = some response_key;
          validation = some validation;
          original_validation = original;
          fallback_used = true;
          fallback_failed = true;
          clarification = clarification;
        }),
)
