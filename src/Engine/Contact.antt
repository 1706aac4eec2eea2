-- ===== src/Engine/Contact.antt =====
-- ConversationEngine of app/conversation/engine.py: the contact turns.
use mathlib.Core.Option.{map}
use call_forge.Prelude.{
  String, Bool, true, false, not, ◌&&◌, ◌||◌, Option, none, some, [], Result, ok, err, string_eq,
  ◌==◌, is_some, is_blank, insert, if◌then◌else◌,
}
use call_forge.Vocabulary.{
  ConversationState, collect_email, confirm_contact, AgentAction, clarify_contact,
  conversation_state_eq, agent_action_eq,
}
use call_forge.Context.{Context, flag, text}
use call_forge.StateMachine.Config.{MachineConfig}
use call_forge.StateMachine.Machine.{apply_transition}
use call_forge.Guardrails.Validation.{validate}
use call_forge.Guardrails.Clarification.{
  ContactChannel, ClarificationOutcome, ClarificationState, ClarificationDecision, ValidationError,
  new_session, evaluate,
}
use call_forge.Engine.Contracts.{
  ContactIntent, ContactUnderstanding, ResolutionOutcome, unsupported_reference, resolved,
  ResolutionContext, ResolutionResult, provenance_value, channel_value, PendingContactMethod,
  ConversationContext, new_result, EngineError, clarification_failed, assertion_failed,
  ContactResolver, ConversationEngine,
}
use call_forge.Engine.Results.{
  Step, given, served, validated, attempt_transition, rejected_result, moved_result,
}
use call_forge.Engine.Recover.{reject_or_recover, recover_for_state, guarded_move}

-- `_CONTACT_STATES`
unfoldable pub is_contact_state : ConversationState → Bool
is_contact_state state = state == collect_email || state == confirm_contact

-- `_should_handle_contact`
unfoldable pub should_handle_contact :
    ConversationEngine → ConversationState → Option ContactUnderstanding → Bool
unfolding is_contact_state
should_handle_contact e state understanding =
    is_some e.resolver && is_some e.clarification && is_some understanding && is_contact_state state

-- `has_all` of `_handle_confirmation`, with the contact method that it lets be made.
unfoldable pub complete :
    Option String → Option String → Option String → Option String → Option PendingContactMethod
complete (some candidate) (some channel) (some provenance) (some contact_id) =
    if is_blank candidate || channel == "" || provenance == "" || contact_id == ""
    then none
    else some (record {
      contact_id = contact_id;
      channel = channel;
      value_normalized = candidate;
      provenance = provenance;
      value_raw = none;
    })
complete candidate channel provenance contact_id = none

unfoldable pub pending_contact : ConversationContext → Option PendingContactMethod
unfolding complete
pending_contact context =
    complete context.contact_candidate context.contact_candidate_channel
      context.contact_candidate_provenance context.current_contact_id

unfoldable pub confirm :
    ConversationEngine → ConversationContext → Context → Option PendingContactMethod → Step
unfolding rejected_result guarded_move given validated
confirm e context ctx none =
    given e.machine
      (validated (validate e.validator e.machine.current_state AgentAction.confirm_contact ctx))
      (λ validation. rejected_result e.machine context validation "contact")
confirm e context ctx (some pending) =
    guarded_move e context (record context { contact_confirmed = true }) AgentAction.confirm_contact
      (insert "contact_confirmed" (flag true) ctx) "contact"
      (λ r. record r { contact_to_persist = some pending })

-- `_handle_confirmation`
unfoldable pub handle_confirmation : ConversationEngine → ConversationContext → Context → Step
unfolding confirm
handle_confirmation e context ctx = confirm e context ctx (pending_contact context)

unfoldable pub same_channel : ContactChannel → ContactChannel → Bool
same_channel a b = channel_value a == channel_value b

-- An error of the clarification engine.
unfoldable pub clarified : {A : Type 0} → Result ValidationError A → Result EngineError A
clarified (ok a) = ok a
clarified (err e) = err (clarification_failed e)

-- The active session for a channel, or a new one.
unfoldable pub session_for :
    MachineConfig
    → Option ClarificationState
    → ContactChannel
    → Result EngineError ClarificationState
unfolding clarified
session_for config none channel = clarified (new_session config channel)
session_for config (some state) channel =
    if same_channel state.channel channel then ok state else clarified (new_session config channel)

unfoldable pub clarify_action :
    ConversationEngine
    → ConversationContext
    → Context
    → ClarificationDecision
    → Option AgentAction
    → Step
unfolding rejected_result reject_or_recover attempt_transition moved_result given validated
clarify_action e context ctx decision none = (e.machine, err assertion_failed)
clarify_action e context ctx decision (some action) =
    given e.machine (validated (validate e.validator e.machine.current_state action ctx))
      (λ validation.
        if not validation.allowed
        then reject_or_recover e.machine e.validator e.fallback context validation ctx "contact"
            (some decision)
        else attempt_transition (apply_transition e.machine action [] none)
            (λ m' transition. (
              m',
              new_result
                  (record (moved_result m' context "contact" e.machine.current_state action
                    transition validation) {
                      response_key = decision.response_key;
                      clarification = some decision;
                    }),
            ))
            (λ m'. rejected_result m' context validation "contact"))

unfoldable pub clarify_outcome :
    ConversationEngine
    → ConversationContext
    → Context
    → ClarificationDecision
    → ClarificationOutcome
    → Step
unfolding recover_for_state clarify_action
clarify_outcome e context ctx decision ClarificationOutcome.exhausted =
    recover_for_state e.machine e.validator e.fallback context clarify_contact ctx "contact"
      (some decision)
clarify_outcome e context ctx decision _ = clarify_action e context ctx decision decision.action

-- `_run_clarification`
unfoldable pub run_clarification :
    ConversationEngine
    → MachineConfig
    → ConversationContext
    → ContactChannel
    → Bool
    → Context
    → Step
unfolding given session_for clarify_outcome clarified same_channel
run_clarification e config context channel is_clear ctx =
    given e.machine (session_for config context.clarification channel) (λ session.
      given e.machine (clarified (evaluate session is_clear)) (λ decision.
        clarify_outcome e (record context { clarification = some decision.new_state }) ctx decision
          decision.outcome))

-- A resolved value that is not empty becomes the candidate.
unfoldable pub with_candidate :
    ConversationContext → ResolutionResult → String → ConversationContext
with_candidate context result value = record context {
  contact_candidate = some value;
  contact_candidate_channel = map channel_value result.channel;
  contact_candidate_provenance = map provenance_value result.provenance;
}

unfoldable pub clear_value :
    ConversationEngine
    → MachineConfig
    → ConversationContext
    → ContactChannel
    → Context
    → ResolutionResult
    → Option String
    → Step
unfolding run_clarification with_candidate
clear_value e config context channel ctx result none =
    run_clarification e config context channel true ctx
clear_value e config context channel ctx result (some value) =
    if value == ""
    then run_clarification e config context channel true ctx
    else run_clarification e config (with_candidate context result value) channel true
        (insert "contact_candidate" (text value) ctx)

unfoldable pub resolved_path :
    ConversationEngine
    → MachineConfig
    → ConversationContext
    → ContactChannel
    → Context
    → ResolutionResult
    → ResolutionOutcome
    → Step
unfolding recover_for_state clear_value run_clarification
resolved_path e config context channel ctx result unsupported_reference =
    recover_for_state e.machine e.validator e.fallback context clarify_contact ctx "contact" none
resolved_path e config context channel ctx result resolved =
    clear_value e config context channel ctx result result.value_normalized
resolved_path e config context channel ctx result _ =
    run_clarification e config context channel false ctx

unfoldable pub confirms : ContactIntent → Bool
confirms ContactIntent.confirm_contact = true
confirms _ = false

-- The trusted values that a resolution may read.
unfoldable pub resolution_context : ConversationContext → ResolutionContext
resolution_context context = record {
  call_number = context.call_number;
  business_phone = context.business_phone;
  business_email = context.business_email;
  previously_provided_method = none;
  region = none;
}

-- `_contact_path`, past its assertions that there are a resolver and a clarification engine.
unfoldable pub contact_path :
    ConversationEngine
    → ContactResolver
    → MachineConfig
    → ConversationContext
    → ContactUnderstanding
    → Context
    → Step
unfolding given served resolved_path handle_confirmation confirms
contact_path e resolver config context understanding ctx =
    if e.machine.current_state == confirm_contact && confirms understanding.intent
    then handle_confirmation e context ctx
    else given e.machine (served (resolver understanding (resolution_context context)))
        (λ result. resolved_path e config context understanding.channel ctx result result.outcome)

-- The assertions of `_contact_path`.
unfoldable pub contact_with :
    ConversationEngine
    → ConversationContext
    → Context
    → Option ContactResolver
    → Option MachineConfig
    → Option ContactUnderstanding
    → Step
unfolding contact_path
contact_with e context ctx (some resolver) (some config) (some understanding) =
    contact_path e resolver config context understanding ctx
contact_with e context ctx resolver config understanding = (e.machine, err assertion_failed)
