-- ===== src/Engine/Answers/Dnc.antt =====
-- The trusted do-not-call request, through the whole engine.
use call_forge.Prelude.{
  true, false, ◌≡◌, refl, Option, none, some, List, [], Result, ok, err, string_eq, has_key, member,
}
use call_forge.Vocabulary.{
  ConversationState, AgentAction, mark_dnc, end_call, conversation_state_eq, agent_action_eq,
  AgentAction-discrete, ConversationState-discrete,
}
use call_forge.StateMachine.Config.{MachineConfig}
use call_forge.StateMachine.Machine.{is_terminal}
use call_forge.Shipped.{shipped_config}
use call_forge.Shipped.Safety.{machine_at, dnc_always_honoured}
use call_forge.Guardrails.Priority.{OutcomeArgument, trusted, dnc, resolve_priority_action}
use call_forge.Guardrails.Fallbacks.{FallbackEngine}
use call_forge.Engine.Contracts.{
  ConversationContext, to_validator_context, ContactUnderstanding, ConversationEngine,
  ConversationResult, ContactResolver, OfferingService, new_result,
}
use call_forge.Contracts.{ValidationResult, ContractError, allows}
use call_forge.Guardrails.Validation.{validate}
use call_forge.Engine.Results.{
  given, validated, catch_transition, apply_and_build, built, moved_result, plain_result,
  after_transition, terminal_result,
}
use call_forge.Engine.Recover.{validate_and_apply}
use call_forge.Engine.Turn.{process_turn, prioritized}

-- An engine on the shipped configuration, with whatever other parts.
abbrev pub engine_at :
    ConversationState
    → List ConversationState
    → Option FallbackEngine
    → Option MachineConfig
    → Option ContactResolver
    → Option OfferingService
    → ConversationEngine
engine_at s stack fallback clarification resolver offering = record {
  machine = machine_at s stack;
  validator = shipped_config;
  fallback = fallback;
  clarification = clarification;
  resolver = resolver;
  offering = offering;
}

-- An answer that allows was given.
allowed_ok :
    (r : Result ContractError ValidationResult)
    → allows r ≡ true
    → (v : ValidationResult) × (r ≡ ok v) × (v.allowed ≡ true)
allowed_ok (ok v) h = (v, refl, h)
allowed_ok (err e) h = absurd (cc)

-- The result of a turn that honours the request.
pub record Honoured (r : ConversationResult) : Type 0 where
  pub action : r.approved_action ≡ some mark_dnc
  pub outcome : r.outcome ≡ some "do_not_call"
  pub ended : r.is_terminal ≡ true
  pub stops : r.continues ≡ false
  pub next : r.next_state ≡ end_call
  pub remembered : r.updated_context.dnc_pending ≡ true

-- A turn after the end: the terminal result, which approves nothing.
pub record Ended (r : ConversationResult) : Type 0 where
  pub nothing_approved : r.approved_action ≡ none
  pub nothing_to_do : r.execution_required ≡ false
  pub ended : r.is_terminal ≡ true

module _ (stack : List ConversationState) (fallback : Option FallbackEngine)
    (clarification : Option MachineConfig) (resolver : Option ContactResolver)
    (offering : Option OfferingService) (context : ConversationContext) (action : AgentAction)
    (u : Option ContactUnderstanding) (priority : OutcomeArgument) where
  -- After the end a turn changes nothing.
  closed_stays :
      (r : ConversationResult) × (process_turn
          (engine_at end_call stack fallback clarification resolver offering)
          context
          action
          u
          priority
        ≡ (machine_at end_call stack, ok r))
      × Ended r
  unfolding process_turn terminal_result plain_result is_terminal shipped_config member new_result
      ConversationState-discrete
  closed_stays = (_, refl, record { nothing_approved = refl; nothing_to_do = refl; ended = refl })

module _ (stack : List ConversationState) (fallback : Option FallbackEngine)
    (clarification : Option MachineConfig) (resolver : Option ContactResolver)
    (offering : Option OfferingService) (context : ConversationContext) (action : AgentAction)
    (u : Option ContactUnderstanding) where
  honours :
      (s : ConversationState)
      → has_key s shipped_config.states ≡ true
      → member s shipped_config.terminal_states ≡ false
      → (r : ConversationResult) × (process_turn
            (engine_at s stack fallback clarification resolver offering)
            context
            action
            u
            (trusted dnc)
          ≡ (machine_at end_call stack, ok r))
        × Honoured r
  unfolding process_turn prioritized validate_and_apply is_terminal resolve_priority_action
      catch_transition apply_and_build built moved_result plain_result after_transition given
      validated shipped_config member AgentAction-discrete ConversationState-discrete new_result
  honours s defined open_ =
      let (allowed, _) = dnc_always_honoured s stack (to_validator_context context) defined open_ in
      let (_, applied) = dnc_always_honoured s stack [] defined open_ in
      let (v, answer, says) =
        allowed_ok (validate shipped_config s mark_dnc (to_validator_context context)) allowed in
      rw open_ (
        rw answer (
          simp says (
            rw applied (
              _,
              refl,
              record {
                action = refl;
                outcome = refl;
                ended = refl;
                stops = refl;
                next = refl;
                remembered = refl;
              },
            ))))

  -- On the shipped configuration a trusted do-not-call request ends the call in one turn, from every
  -- active state, whatever the model proposes, whatever was understood and whatever the other parts
  -- are: the machine is in the end state with the outcome do_not_call, and the context remembers it.
  -- Any turn after it approves nothing and leaves the machine where it is.
  pub trusted_dnc_ends :
      (s : ConversationState) (later_action : AgentAction) (later_u : Option ContactUnderstanding)
      (priority : OutcomeArgument)
      → has_key s shipped_config.states ≡ true
      → member s shipped_config.terminal_states ≡ false
      → (r : ConversationResult) × (later : ConversationResult) × (process_turn
            (engine_at s stack fallback clarification resolver offering)
            context
            action
            u
            (trusted dnc)
          ≡ (machine_at end_call stack, ok r))
        × Honoured r
        × (process_turn
              (engine_at end_call stack fallback clarification resolver offering)
              r.updated_context
              later_action
              later_u
              priority
            ≡ (machine_at end_call stack, ok later))
        × Ended later
  trusted_dnc_ends s later_action later_u priority defined open_ =
      let (r, turn, honoured) = honours s defined open_ in
      let (later, after, ended) =
        closed_stays stack fallback clarification resolver offering r.updated_context later_action
          later_u priority in
      (r, later, turn, honoured, after, ended)
