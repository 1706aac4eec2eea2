-- ===== src/Engine/Turn.antt =====
-- ConversationEngine of app/conversation/engine.py: offers and the entry points. Of a proposal only
-- the proposed action is read.
use call_forge.Prelude.{
  String, suc_ℤ, Bool, true, ◌&&◌, ◌||◌, Option, none, some, [], ◌∷◌, ◌++◌, string_eq, ◌==◌, insert,
  if◌then◌else◌,
}
use call_forge.Vocabulary.{
  AgentAction, offer_service, ask_email, clarify_contact, conversation_state_eq, agent_action_eq,
}
use call_forge.Context.{Context, flag}
use call_forge.Contracts.{ValidationCategory, rejected}
use call_forge.StateMachine.Machine.{Machine, is_terminal}
use call_forge.Guardrails.Priority.{OutcomeArgument, resolve_priority_action}
use call_forge.Engine.Contracts.{
  ContactUnderstanding, OfferResult, ConversationContext, to_validator_context, OfferingService,
  ConversationEngine,
}
use call_forge.Engine.Results.{Step, given, served, validated, terminal_result, rejected_result}
use call_forge.Engine.Recover.{recover_for_state, validate_and_apply, guarded_move}
use call_forge.Engine.Contact.{is_contact_state, should_handle_contact, contact_with}

unfoldable pub text_or_empty : Option String → String
text_or_empty none = ""
text_or_empty (some t) = t

unfoldable pub offer_made :
    ConversationEngine → ConversationContext → Context → OfferResult → Option String → Step
unfolding recover_for_state guarded_move
offer_made e context ctx offer none =
    recover_for_state e.machine e.validator e.fallback context offer_service ctx "offer" none
offer_made e context ctx offer (some approved_id) =
    guarded_move e context
      (record context {
        eligible_alternative_service_ids = offer.eligible_service_ids;
        offered_service_ids = context.offered_service_ids ++ approved_id ∷ [];
        service_offers_made = suc_ℤ context.service_offers_made;
      })
      offer_service (insert "has_applicable_alternative" (flag true) ctx) "offer"
      (λ r. record r { service_selection = some offer.selection })

-- `_offer_path`, past its assertion that there is an offering service.
unfoldable pub offer_path :
    ConversationEngine → OfferingService → ConversationContext → Context → Step
unfolding given served offer_made text_or_empty
offer_path e offering context ctx =
    given e.machine
      (served (
        offering (text_or_empty context.campaign_id) context.known_signals
          context.offered_service_ids context.service_offers_made))
      (λ offer. offer_made e context ctx offer offer.approved_service_id)

-- `_specialized_rejection`
unfoldable pub specialized_rejection : Machine → ConversationContext → String → Step
unfolding rejected_result given validated
specialized_rejection m context reason =
    given m (validated (rejected ValidationCategory.missing_prerequisite reason))
      (λ validation. rejected_result m context validation "specialized")

-- A proposal of OFFER_SERVICE goes to the offering service, if there is one.
unfoldable pub normal_path :
    ConversationEngine → ConversationContext → AgentAction → Context → Option OfferingService → Step
unfolding offer_path validate_and_apply
normal_path e context action ctx none = validate_and_apply e context action ctx "normal"
normal_path e context action ctx (some offering) =
    if action == offer_service
    then offer_path e offering context ctx
    else validate_and_apply e context action ctx "normal"

-- The turn after the trusted priority.
unfoldable pub prioritized :
    ConversationEngine
    → ConversationContext
    → AgentAction
    → Option ContactUnderstanding
    → Context
    → Option AgentAction
    → Step
unfolding validate_and_apply contact_with normal_path should_handle_contact
prioritized e context action understanding ctx (some priority_action) =
    validate_and_apply e context priority_action ctx "priority"
prioritized e context action understanding ctx none =
    if should_handle_contact e e.machine.current_state understanding
    then contact_with e context ctx e.resolver e.clarification understanding
    else normal_path e context action ctx e.offering

unfoldable pub process_turn :
    ConversationEngine
    → ConversationContext
    → AgentAction
    → Option ContactUnderstanding
    → OutcomeArgument
    → Step
unfolding terminal_result prioritized
process_turn e context action understanding trusted_priority =
    if is_terminal e.machine
    then terminal_result e.machine context
    else (let ctx = to_validator_context context in
        prioritized e context action understanding ctx
          (resolve_priority_action trusted_priority e.machine.current_state (some ctx)))

unfoldable pub execute_approved_action :
    ConversationEngine → ConversationContext → AgentAction → Step
unfolding terminal_result validate_and_apply
execute_approved_action e context action =
    if is_terminal e.machine
    then terminal_result e.machine context
    else validate_and_apply e context action (to_validator_context context) "orchestrated"

unfoldable pub authority_offer :
    ConversationEngine → ConversationContext → Context → Option OfferingService → Step
unfolding specialized_rejection offer_path
authority_offer e context ctx none =
    specialized_rejection e.machine context "service offering capability unavailable"
authority_offer e context ctx (some offering) = offer_path e offering context ctx

unfoldable pub is_contact_action : AgentAction → Bool
is_contact_action action =
    action == ask_email || action == AgentAction.confirm_contact || action == clarify_contact

unfoldable pub execute_authority_approved_action :
    ConversationEngine → ConversationContext → AgentAction → Option ContactUnderstanding → Step
unfolding terminal_result authority_offer is_contact_action is_contact_state specialized_rejection
    contact_with should_handle_contact validate_and_apply
execute_authority_approved_action e context action understanding =
    if is_terminal e.machine
    then terminal_result e.machine context
    else (let ctx = to_validator_context context in
        if action == offer_service
        then authority_offer e context ctx e.offering
        else if is_contact_action action && is_contact_state e.machine.current_state
        then (if should_handle_contact e e.machine.current_state understanding
            then contact_with e context ctx e.resolver e.clarification understanding
            else specialized_rejection e.machine context
                "contact resolution capability/input unavailable")
        else validate_and_apply e context action ctx "slice3")
