-- ===== src/Engine/Contracts.antt =====
-- The records of the conversation engine: app/contracts/conversation_context.py,
-- app/contracts/contact_understanding.py, app/contracts/pending_contact_method.py, ConversationResult
-- of app/conversation/engine.py, and the answer of app/services/service_offering_service.py.
use call_forge.Prelude.{
  String, ℤ, Bool, true, false, not, ◌&&◌, Option, none, some, List, [], ◌∷◌, Result, ok, raise_if,
  raise_if-eq-ok, ok_injective, ◌>>◌, member, ◌≡◌, arith,
}
use call_forge.Vocabulary.{ConversationState, AgentAction, conversation_state_eq}
use call_forge.Context.{Value, null, flag, text, Context}
use call_forge.Contracts.{ValidationResult, ContractError}
use call_forge.StateMachine.Config.{MachineConfig}
use call_forge.StateMachine.Machine.{Machine, TransitionError}
use call_forge.Guardrails.Fallbacks.{FallbackEngine}
use call_forge.Guardrails.Clarification.{
  ContactChannel, ClarificationState, ClarificationDecision, ValidationError,
}

pub data ContactIntent : Type 0 where
  provide_contact confirm_contact correct_contact decline_contact unclear : ContactIntent

pub data ContactReference : Type 0 where
  current_call_number business_phone business_email previously_provided : ContactReference

pub data ResolutionOutcome : Type 0 where
  resolved needs_clarification invalid unsupported_reference unavailable_reference :
      ResolutionOutcome

pub data ContactProvenance : Type 0 where
  lead_import client_spoken client_provided : ContactProvenance
  client_referenced_current_call_number manual inferred : ContactProvenance

unfoldable pub provenance_value : ContactProvenance → String
provenance_value lead_import = "lead_import"
provenance_value client_spoken = "client_spoken"
provenance_value client_provided = "client_provided"
provenance_value client_referenced_current_call_number = "client_referenced_current_call_number"
provenance_value manual = "manual"
provenance_value inferred = "inferred"

unfoldable pub channel_value : ContactChannel → String
channel_value ContactChannel.email = "email"
channel_value ContactChannel.phone = "phone"
channel_value ContactChannel.whatsapp = "whatsapp"
channel_value ContactChannel.sms = "sms"
channel_value ContactChannel.unknown = "unknown"

-- The confidence of the interpretation, which the engine does not read, is left out.
pub record ContactUnderstanding : Type 0 where
  pub intent : ContactIntent
  pub channel : ContactChannel
  pub value : Option String
  pub reference : Option ContactReference

pub record ResolvedMethod : Type 0 where
  pub channel : ContactChannel
  pub value_normalized : String

pub record ResolutionContext : Type 0 where
  pub call_number : Option String
  pub business_phone : Option String
  pub business_email : Option String
  pub previously_provided_method : Option ResolvedMethod
  pub region : Option String

pub record ResolutionResult : Type 0 where
  pub outcome : ResolutionOutcome
  pub channel : Option ContactChannel
  pub value_normalized : Option String
  pub value_raw : Option String
  pub provenance : Option ContactProvenance
  pub reason : Option String

pub record PendingContactMethod : Type 0 where
  pub contact_id : String
  pub channel : String
  pub value_normalized : String
  pub provenance : String
  pub value_raw : Option String

pub data SelectionOutcome : Type 0 where
  approved not_eligible already_offered low_confidence : SelectionOutcome
  unauthorized no_eligible selector_failed : SelectionOutcome

pub record SelectionResult : Type 0 where
  pub outcome : SelectionOutcome
  pub approved_service_id : Option String
  pub reason : Option String

pub record OfferResult : Type 0 where
  pub approved_service_id : Option String
  pub selection : SelectionResult
  pub eligible_service_ids : List String

pub record ConversationContext : Type 0 where
  pub call_id : String
  pub business_id : Option String
  pub current_contact_id : Option String
  pub previous_contact_id : Option String
  pub previous_conversation_exists : Bool
  pub contact_candidate : Option String
  pub contact_candidate_channel : Option String
  pub contact_candidate_provenance : Option String
  pub contact_confirmed : Bool
  pub callback : Option String
  pub dnc_pending : Bool
  pub interest_preserved : Bool
  pub call_number : Option String
  pub business_phone : Option String
  pub business_email : Option String
  pub campaign_id : Option String
  pub known_signals : List String
  pub eligible_alternative_service_ids : List String
  pub offered_service_ids : List String
  pub service_offers_made : ℤ
  pub clarification : Option ClarificationState

nonempty_list : {A : Type 0} → List A → Bool
nonempty_list [] = false
nonempty_list (x ∷ xs) = true

unfoldable pub has_applicable_alternative : ConversationContext → Bool
unfolding nonempty_list
has_applicable_alternative context = nonempty_list context.eligible_alternative_service_ids

optional_text : Option String → Value
optional_text none = null
optional_text (some t) = text t

unfoldable pub to_validator_context : ConversationContext → Context
unfolding optional_text has_applicable_alternative
to_validator_context context =
    ("contact_candidate", optional_text context.contact_candidate)
    ∷ ("contact_confirmed", flag context.contact_confirmed)
    ∷ ("callback", optional_text context.callback)
    ∷ ("previous_conversation_exists", flag context.previous_conversation_exists)
    ∷ ("dnc_pending", flag context.dnc_pending)
    ∷ ("has_applicable_alternative", flag (has_applicable_alternative context))
    ∷ []

pub record ConversationResult : Type 0 where
  pub current_state : ConversationState
  pub next_state : ConversationState
  pub is_terminal : Bool
  pub continues : Bool
  pub execution_required : Bool
  pub updated_context : ConversationContext
  pub path : String
  pub approved_action : Option AgentAction
  pub outcome : Option String
  pub response_key : Option String
  pub validation : Option ValidationResult
  pub original_validation : Option ValidationResult
  pub fallback_used : Bool
  pub fallback_failed : Bool
  pub clarification : Option ClarificationDecision
  pub contact_to_persist : Option PendingContactMethod
  pub service_selection : Option SelectionResult
  pub terminal_states : List ConversationState

-- What a turn may raise: the machine's, the clarification's and the validator's errors, those of
-- `ConversationResult`, an `assert`, and whatever a service raises.
pub data EngineError : Type 0 where
  transition_failed : TransitionError → EngineError
  validation_failed : ContractError → EngineError
  clarification_failed : ValidationError → EngineError
  terminal_but_continues stopped_but_not_terminal terminality_mismatch : EngineError
  assertion_failed service_raised : EngineError

same_bool : Bool → Bool → Bool
same_bool true b = b
same_bool false b = not b

unfoldable pub new_result : ConversationResult → Result EngineError ConversationResult
unfolding nonempty_list same_bool
new_result r = do
  raise_if (r.is_terminal && r.continues) terminal_but_continues
  raise_if (not r.is_terminal && not r.continues) stopped_but_not_terminal
  raise_if
      (nonempty_list r.terminal_states
        && not (same_bool (member r.next_state r.terminal_states) r.is_terminal))
      terminality_mismatch
  ok r

-- The services that the engine is given: `none` where one raises.
abbrev pub ContactResolver : Type 0
ContactResolver = ContactUnderstanding → ResolutionContext → Option ResolutionResult

-- `offer(campaign_id, known_signals, offered_service_ids, offers_made)`
abbrev pub OfferingService : Type 0
OfferingService = String → List String → List String → ℤ → Option OfferResult

-- The validator and the clarification engine are known by their configurations.
pub record ConversationEngine : Type 0 where
  pub machine : Machine
  pub validator : MachineConfig
  pub fallback : Option FallbackEngine
  pub clarification : Option MachineConfig
  pub resolver : Option ContactResolver
  pub offering : Option OfferingService

-- A result that is consistent passes its constructor.
pub new_result-ok :
    (r : ConversationResult)
    → r.continues ≡ not r.is_terminal
    → member r.next_state r.terminal_states ≡ r.is_terminal
    → new_result r ≡ ok r
unfolding new_result nonempty_list same_bool
new_result-ok r goes ends = ground arith

-- The constructor gives back what it is given.
pub new_result-eq :
    (r : ConversationResult) {r' : ConversationResult} → new_result r ≡ ok r' → r ≡ r'
unfolding new_result nonempty_list same_bool
new_result-eq r h =
    let (_, h1) = raise_if-eq-ok (r.is_terminal && r.continues) terminal_but_continues _ h in
    let (_, h2) =
      raise_if-eq-ok (not r.is_terminal && not r.continues) stopped_but_not_terminal _ h1 in
    let (_, h3) =
      raise_if-eq-ok
        (nonempty_list r.terminal_states
          && not (same_bool (member r.next_state r.terminal_states) r.is_terminal))
        terminality_mismatch _ h2 in
    ok_injective _ _ h3
