-- ===== src/Examples/Turns.antt =====
-- An engine on the shipped configuration, with services that always answer.
use call_forge.Prelude.{
  pos, true, false, ◌≡◌, refl, none, some, List, [], ◌∷◌, ok, has_key, member, arith, lookup,
  string_eq,
}
use call_forge.Vocabulary.{
  ConversationState, AgentAction, listen, collect_email, end_call, answer_question, offer_service,
  ask_email, conversation_state_eq,
}
use call_forge.Shipped.{shipped_config}
use call_forge.Shipped.Safety.{machine_at, shipped-IsWellFormed, shipped_engine}
use call_forge.Guardrails.Priority.{trusted, dnc, nothing, untrusted}
use call_forge.Guardrails.Clarification.{ContactChannel, max_for}
use call_forge.Engine.Contracts.{
  ContactIntent, ContactUnderstanding, ContactResolver, OfferingService, SelectionOutcome,
  ConversationContext, ConversationEngine, ConversationResult, resolved, ContactProvenance,
  PendingContactMethod,
}
use call_forge.Engine.Turn.{process_turn, execute_authority_approved_action}
use call_forge.Engine.Answers.{Answers}
use call_forge.Engine.Answers.Turns.{
  IsReady, turn_on, process_turn-Answers, execute_authority_approved_action-Answers,
}
use call_forge.Engine.Answers.Contacts.{HasLimits}
use call_forge.Engine.Answers.Conversations.{TurnInput, converse, Returns, converse-Returns}
use call_forge.Contracts.{accepted, long_reason}
use call_forge.Guardrails.Validation.Total.{brief_names}
use call_forge.Context.{is_true, has_nonempty}
use call_forge.StateMachine.Machine.{is_terminal, apply_transition}
use call_forge.Guardrails.Validation.{validate, is_terminating, prerequisites}
use call_forge.Guardrails.Priority.{resolve_priority_action}
use call_forge.Engine.Contact.{pending_contact}
use call_forge.Engine.Contracts.{to_validator_context, new_result}
use call_forge.Engine.Persistence.Confirmed.{Confirmed, kept_contact-Confirmed}
use call_forge.Engine.Answers.Dnc.{engine_at, Honoured, Ended, trusted_dnc_ends}

-- It takes what was said as it is.
abbrev literal : ContactResolver
literal u c = some (record {
  outcome = resolved;
  channel = some u.channel;
  value_normalized = u.value;
  value_raw = u.value;
  provenance = some ContactProvenance.client_provided;
  reason = none;
})

abbrev one_service : OfferingService
one_service campaign_id signals offered made = some (record {
  approved_service_id = some "website";
  selection = record {
    outcome = SelectionOutcome.approved;
    approved_service_id = some "website";
    reason = none;
  };
  eligible_service_ids = "website" ∷ [];
})

abbrev collecting : ConversationEngine
collecting =
    engine_at collect_email [] (some shipped_engine) (some shipped_config) (some literal)
      (some one_service)

collecting-IsReady : IsReady collecting
unfolding shipped_config has_key max_for lookup brief_names long_reason
collecting-IsReady = record {
  valid = record { well_formed = shipped-IsWellFormed; defined = refl; stack = tt };
  brief = refl;
  clarifies = limits;
  resolves = λ u c. (_, refl);
  offers = λ campaign_id signals offered made. (_, refl);
}
  where
    limits : HasLimits shipped_config
    limits ContactChannel.email = omega arith
    limits ContactChannel.phone = omega arith
    limits ContactChannel.whatsapp = omega arith
    limits ContactChannel.sms = omega arith
    limits ContactChannel.unknown = omega arith

abbrev fresh_context : ConversationContext
fresh_context = record {
  call_id = "call";
  business_id = none;
  current_contact_id = some "person";
  previous_contact_id = none;
  previous_conversation_exists = false;
  contact_candidate = none;
  contact_candidate_channel = none;
  contact_candidate_provenance = none;
  contact_confirmed = false;
  callback = none;
  dnc_pending = false;
  interest_preserved = false;
  call_number = none;
  business_phone = none;
  business_email = none;
  campaign_id = none;
  known_signals = [];
  eligible_alternative_service_ids = [];
  offered_service_ids = [];
  service_offers_made = pos 0;
  clarification = none;
}

abbrev spoken : ContactUnderstanding
spoken = record {
  intent = ContactIntent.provide_contact;
  channel = ContactChannel.email;
  value = some "a@b.com";
  reference = none;
}

process_turn-Answers_example :
    Answers
      (turn_on collecting fresh_context (some spoken))
      (process_turn collecting fresh_context ask_email (some spoken) (trusted nothing))
process_turn-Answers_example =
    process_turn-Answers collecting fresh_context collecting-IsReady tt (some spoken) ask_email
      (trusted nothing)

execute_authority_approved_action-Answers_example :
    Answers
      (turn_on collecting fresh_context (some spoken))
      (execute_authority_approved_action collecting fresh_context ask_email (some spoken))
execute_authority_approved_action-Answers_example =
    execute_authority_approved_action-Answers collecting fresh_context collecting-IsReady tt
      (some spoken) ask_email

abbrev inputs : List TurnInput
inputs =
    (record {
      proposed_action = ask_email;
      contact_understanding = some spoken;
      trusted_priority = untrusted;
    })
    ∷ (record {
      proposed_action = answer_question;
      contact_understanding = none;
      trusted_priority = trusted dnc;
    })
    ∷ []

converse-Returns_example : Returns (converse collecting fresh_context inputs)
converse-Returns_example = converse-Returns inputs collecting fresh_context collecting-IsReady tt

trusted_dnc_ends_example :
    (r : ConversationResult) × (later : ConversationResult) × (process_turn
        (engine_at listen [] none none none none)
        fresh_context
        offer_service
        none
        (trusted dnc)
      ≡ (machine_at end_call [], ok r))
    × Honoured r
    × (process_turn
          (engine_at end_call [] none none none none)
          r.updated_context
          offer_service
          none
          untrusted
        ≡ (machine_at end_call [], ok later))
    × Ended later
unfolding shipped_config has_key member
trusted_dnc_ends_example =
    trusted_dnc_ends [] none none none none fresh_context offer_service none listen offer_service
      none untrusted refl refl

-- The client confirms the address that was read back.
abbrev read_back : ConversationContext
read_back = record fresh_context {
  contact_candidate = some "a@b.com";
  contact_candidate_channel = some "email";
  contact_candidate_provenance = some "client_provided";
}

abbrev agreed : ContactUnderstanding
agreed = record spoken { intent = ContactIntent.confirm_contact; value = none }

abbrev confirming : ConversationEngine
confirming = record collecting { machine = machine_at ConversationState.confirm_contact [] }

abbrev address : PendingContactMethod
address = record {
  contact_id = "person";
  channel = "email";
  value_normalized = "a@b.com";
  provenance = "client_provided";
  value_raw = none;
}

abbrev kept : ConversationResult
kept = record {
  current_state = ConversationState.confirm_contact;
  next_state = end_call;
  is_terminal = true;
  continues = false;
  execution_required = true;
  updated_context = record read_back { contact_confirmed = true };
  path = "contact";
  approved_action = some AgentAction.confirm_contact;
  outcome = some "qualified";
  response_key = none;
  validation = some accepted;
  original_validation = none;
  fallback_used = false;
  fallback_failed = false;
  clarification = none;
  contact_to_persist = some address;
  service_selection = none;
  terminal_states = end_call ∷ [];
}

turned :
    (process_turn confirming read_back AgentAction.confirm_contact
      (some agreed)
      (trusted nothing)).1
    ≡ ok kept
unfolding process_turn shipped_config is_terminal resolve_priority_action pending_contact validate
    is_true to_validator_context is_terminating prerequisites has_nonempty apply_transition
    new_result
turned = refl

kept_contact-Confirmed_example : Confirmed confirming read_back (some agreed) kept address
kept_contact-Confirmed_example =
    kept_contact-Confirmed confirming read_back AgentAction.confirm_contact (some agreed)
      (trusted nothing) kept address turned refl
