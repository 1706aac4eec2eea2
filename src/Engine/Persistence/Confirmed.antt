-- ===== src/Engine/Persistence/Confirmed.antt =====
-- A contact is kept only once it is confirmed.
use call_forge.Prelude.{
  String, Bool, true, false, ◌||◌, ◌==◌, string_eq, ◌≡◌, refl, ◌∙◌, inl, inr, Option, none, some,
  ok, Bool-cases, is_blank, insert, some_injective, arith,
}
use mathlib.Core.Path.{subst}
use call_forge.Vocabulary.{
  AgentAction, confirm_contact, offer_service, clarify_contact, conversation_state_eq,
  agent_action_eq,
}
use call_forge.Context.{Context, flag, text}
use call_forge.StateMachine.Config.{MachineConfig}
use call_forge.StateMachine.Machine.{is_terminal}
use call_forge.Guardrails.Validation.{validate}
use call_forge.Guardrails.Priority.{OutcomeArgument}
use call_forge.Guardrails.Clarification.{
  ContactChannel, ClarificationOutcome, ClarificationDecision, evaluate,
}
use call_forge.Engine.Contracts.{
  ContactIntent, ContactUnderstanding, ResolutionOutcome, resolved, unsupported_reference,
  ResolutionResult, PendingContactMethod, OfferResult, ConversationContext, ConversationResult,
  ContactResolver, OfferingService, ConversationEngine,
}
use call_forge.Engine.Results.{served, validated, plain_result, terminal_result, moved_result}
use call_forge.Engine.Recover.{guarded_move}
use call_forge.Engine.Contact.{
  should_handle_contact, complete, pending_contact, confirm, handle_confirmation, clarified,
  session_for, clarify_action, clarify_outcome, run_clarification, with_candidate, clear_value,
  resolved_path, confirms, resolution_context, contact_path, contact_with,
}
use call_forge.Engine.Turn.{
  text_or_empty, offer_made, offer_path, normal_path, prioritized, process_turn,
}
use call_forge.Engine.Persistence.{
  Keeps, Keeps-new, Keeps-none, Keeps-err, Keeps-attempt, Keeps-given, Keeps-rejected,
  Keeps-reject_or_recover, Keeps-recover_for_state, Keeps-apply,
}

-- What makes a contact worth keeping: in the confirming state the client confirmed the candidate that
-- the context held, whose value is not blank, for the person whom the context names; and the
-- confirmation was approved and is remembered.
pub record Confirmed (e : ConversationEngine) (context : ConversationContext)
    (u : Option ContactUnderstanding) (r : ConversationResult) (q : PendingContactMethod)
    : Type 0 where
  pub state : e.machine.current_state ≡ confirm_contact
  pub understanding : ContactUnderstanding
  pub understood : u ≡ some understanding
  pub agreed : understanding.intent ≡ ContactIntent.confirm_contact
  pub candidate : context.contact_candidate ≡ some q.value_normalized
  pub said : is_blank q.value_normalized ≡ false
  pub person : context.current_contact_id ≡ some q.contact_id
  pub approved : r.approved_action ≡ some AgentAction.confirm_contact
  pub remembered : r.updated_context.contact_confirmed ≡ true

-- What `has_all` checked of a contact method.
completed :
    (candidate channel provenance contact_id : Option String) {q : PendingContactMethod}
    → complete candidate channel provenance contact_id ≡ some q
    → (candidate ≡ some q.value_normalized)
      × (is_blank q.value_normalized ≡ false)
      × (contact_id ≡ some q.contact_id)
unfolding complete
completed (some v) (some c) (some p) (some i) {q} h =
    elim (Bool-cases (is_blank v || c == "" || p == "" || i == "")) [
      | inl lacks ↦ absurd (cc (rw lacks at h))
      | inr has ↦
          subst
            (λ q'.
              (some v ≡ some q'.value_normalized)
              × (is_blank q'.value_normalized ≡ false)
              × (some i ≡ some q'.contact_id))
            (some_injective _ q (rw has at h)) (refl, ground arith, refl)
    ]
completed (some v) (some c) (some p) none h = absurd (cc)
completed (some v) (some c) none i h = absurd (cc)
completed (some v) none p i h = absurd (cc)
completed none c p i h = absurd (cc)

confirms-eq : (i : ContactIntent) → confirms i ≡ true → i ≡ ContactIntent.confirm_contact
unfolding confirms
confirms-eq ContactIntent.confirm_contact h = refl
confirms-eq _ h = absurd (cc)

module _ (K : ConversationResult → PendingContactMethod → Type 0) (e : ConversationEngine) where
  Keeps-clarify_action :
      (context : ConversationContext) (ctx : Context) (decision : ClarificationDecision)
      (action : Option AgentAction)
      → Keeps K (clarify_action e context ctx decision action)
  unfolding clarify_action moved_result plain_result
  Keeps-clarify_action context ctx decision none = Keeps-err K e.machine _
  Keeps-clarify_action context ctx decision (some action) =
      Keeps-given K e.machine (validated (validate e.validator e.machine.current_state action ctx))
        _
        (λ v. elim (Bool-cases v.allowed) [
          | inl yes_ ↦ simp yes_ (
              Keeps-attempt K _ _ _ (λ m' t. Keeps-none K m' _ refl)
                (λ m'. Keeps-rejected K m' context v "contact"))
          | inr no_ ↦ simp no_ (
              Keeps-reject_or_recover K e.machine e.validator e.fallback context v ctx "contact"
                (some decision))
        ])

  Keeps-clarify_outcome :
      (context : ConversationContext) (ctx : Context) (decision : ClarificationDecision)
      (outcome : ClarificationOutcome)
      → Keeps K (clarify_outcome e context ctx decision outcome)
  unfolding clarify_outcome
  Keeps-clarify_outcome context ctx decision ClarificationOutcome.exhausted =
      Keeps-recover_for_state K e.machine e.validator e.fallback context clarify_contact ctx
        "contact" (some decision)
  Keeps-clarify_outcome context ctx decision _ =
      Keeps-clarify_action context ctx decision decision.action

  Keeps-clarification :
      (config : MachineConfig) (context : ConversationContext) (channel : ContactChannel)
      (clear : Bool) (ctx : Context)
      → Keeps K (run_clarification e config context channel clear ctx)
  unfolding run_clarification
  Keeps-clarification config context channel clear ctx =
      Keeps-given K e.machine (session_for config context.clarification channel) _ (λ s.
        Keeps-given K e.machine (clarified (evaluate s clear)) _
          (λ d. Keeps-clarify_outcome _ ctx d d.outcome))

  Keeps-clear_value :
      (config : MachineConfig) (context : ConversationContext) (channel : ContactChannel)
      (ctx : Context) (result : ResolutionResult) (value : Option String)
      → Keeps K (clear_value e config context channel ctx result value)
  unfolding clear_value
  Keeps-clear_value config context channel ctx result none =
      Keeps-clarification config context channel true ctx
  Keeps-clear_value config context channel ctx result (some value) =
      elim (Bool-cases (value == "")) [
        | inl empty ↦ rw empty (Keeps-clarification config context channel true ctx)
        | inr given_ ↦ rw given_ (
            Keeps-clarification config (with_candidate context result value) channel true
              (insert "contact_candidate" (text value) ctx))
      ]

  Keeps-resolved :
      (config : MachineConfig) (context : ConversationContext) (channel : ContactChannel)
      (ctx : Context) (result : ResolutionResult) (outcome : ResolutionOutcome)
      → Keeps K (resolved_path e config context channel ctx result outcome)
  unfolding resolved_path
  Keeps-resolved config context channel ctx result unsupported_reference =
      Keeps-recover_for_state K e.machine e.validator e.fallback context clarify_contact ctx
        "contact" none
  Keeps-resolved config context channel ctx result resolved =
      Keeps-clear_value config context channel ctx result result.value_normalized
  Keeps-resolved config context channel ctx result _ =
      Keeps-clarification config context channel false ctx

  Keeps-offer_made :
      (context : ConversationContext) (ctx : Context) (o : OfferResult) (id : Option String)
      → Keeps K (offer_made e context ctx o id)
  unfolding offer_made guarded_move moved_result plain_result
  Keeps-offer_made context ctx o none =
      Keeps-recover_for_state K e.machine e.validator e.fallback context offer_service ctx "offer"
        none
  Keeps-offer_made context ctx o (some id) =
      let extended = insert "has_applicable_alternative" (flag true) ctx in
      Keeps-given K e.machine
        (validated (validate e.validator e.machine.current_state offer_service extended)) _
        (λ v. elim (Bool-cases v.allowed) [
          | inl yes_ ↦ simp yes_ (
              Keeps-attempt K _ _ _ (λ m' t. Keeps-none K m' _ refl)
                (λ m'. Keeps-rejected K m' context v "offer"))
          | inr no_ ↦ simp no_ (Keeps-rejected K e.machine context v "offer")
        ])

  Keeps-normal :
      (context : ConversationContext) (action : AgentAction) (ctx : Context)
      (offering : Option OfferingService)
      → Keeps K (normal_path e context action ctx offering)
  unfolding normal_path offer_path
  Keeps-normal context action ctx none = Keeps-apply K e context action ctx "normal"
  Keeps-normal context action ctx (some offering) = elim (Bool-cases (action == offer_service)) [
    | inl yes_ ↦ simp yes_ (
        Keeps-given K e.machine
          (served (
            offering (text_or_empty context.campaign_id) context.known_signals
              context.offered_service_ids context.service_offers_made))
          _ (λ o. Keeps-offer_made context ctx o o.approved_service_id))
    | inr no_ ↦ simp no_ (Keeps-apply K e context action ctx "normal")
  ]

module _ (e : ConversationEngine) (context : ConversationContext) where
  Keeps-confirm :
      (u : ContactUnderstanding) (ctx : Context) (pending : Option PendingContactMethod)
      → pending_contact context ≡ pending
      → e.machine.current_state ≡ confirm_contact
      → u.intent ≡ ContactIntent.confirm_contact
      → Keeps (Confirmed e context (some u)) (confirm e context ctx pending)
  unfolding confirm guarded_move moved_result plain_result pending_contact
  Keeps-confirm u ctx none h state agreed =
      Keeps-given _ e.machine _ _ (λ v. Keeps-rejected _ e.machine context v "contact")
  Keeps-confirm u ctx (some pending) h state agreed =
      let extended = insert "contact_confirmed" (flag true) ctx in
      Keeps-given _ e.machine
        (validated
          (validate e.validator e.machine.current_state AgentAction.confirm_contact extended))
        _
        (λ v. elim (Bool-cases v.allowed) [
          | inl yes_ ↦ simp yes_ (
              Keeps-attempt _ _ _ _
                (λ m' t. Keeps-new _ m' _ (λ q same.
                  let (candidate, said, person) =
                    completed context.contact_candidate context.contact_candidate_channel
                      context.contact_candidate_provenance context.current_contact_id (h ∙ same) in
                  record {
                    state = state;
                    understanding = u;
                    understood = refl;
                    agreed = agreed;
                    candidate = candidate;
                    said = said;
                    person = person;
                    approved = refl;
                    remembered = refl;
                  }))
                (λ m'. Keeps-rejected _ m' context v "contact"))
          | inr no_ ↦ simp no_ (Keeps-rejected _ e.machine context v "contact")
        ])

  Keeps-contact :
      (resolver : ContactResolver) (config : MachineConfig) (u : ContactUnderstanding)
      (ctx : Context)
      → Keeps (Confirmed e context (some u)) (contact_path e resolver config context u ctx)
  unfolding contact_path handle_confirmation
  Keeps-contact resolver config u ctx =
      elim (Bool-cases (e.machine.current_state == confirm_contact)) [
        | inl here ↦ simp here (elim (Bool-cases (confirms u.intent)) [
          | inl yes_ ↦ simp yes_ (
              Keeps-confirm u ctx (pending_contact context) refl
                ((conversation_state_eq.same_iff e.machine.current_state confirm_contact).0 here)
                (confirms-eq u.intent yes_))
          | inr no_ ↦ simp no_ (
              Keeps-given _ e.machine (served (resolver u (resolution_context context))) _
                (λ r. Keeps-resolved _ e config context u.channel ctx r r.outcome))
        ])
        | inr away ↦ simp away (
            Keeps-given _ e.machine (served (resolver u (resolution_context context))) _
              (λ r. Keeps-resolved _ e config context u.channel ctx r r.outcome))
      ]

  Keeps-with :
      (ctx : Context) (resolver : Option ContactResolver) (config : Option MachineConfig)
      (u : Option ContactUnderstanding)
      → Keeps (Confirmed e context u) (contact_with e context ctx resolver config u)
  unfolding contact_with
  Keeps-with ctx (some resolver) (some config) (some u) = Keeps-contact resolver config u ctx
  Keeps-with ctx (some resolver) (some config) none = Keeps-err _ e.machine _
  Keeps-with ctx (some resolver) none u = Keeps-err _ e.machine _
  Keeps-with ctx none config u = Keeps-err _ e.machine _

  Keeps-prioritized :
      (action : AgentAction) (u : Option ContactUnderstanding) (ctx : Context)
      (priority : Option AgentAction)
      → Keeps (Confirmed e context u) (prioritized e context action u ctx priority)
  unfolding prioritized
  Keeps-prioritized action u ctx (some priority) = Keeps-apply _ e context priority ctx "priority"
  Keeps-prioritized action u ctx none =
      elim (Bool-cases (should_handle_contact e e.machine.current_state u)) [
        | inl yes_ ↦ simp yes_ (Keeps-with ctx e.resolver e.clarification u)
        | inr no_ ↦ simp no_ (Keeps-normal _ e context action ctx e.offering)
      ]

  Keeps-turn :
      (action : AgentAction) (u : Option ContactUnderstanding) (priority : OutcomeArgument)
      → Keeps (Confirmed e context u) (process_turn e context action u priority)
  unfolding process_turn terminal_result plain_result
  Keeps-turn action u priority = elim (Bool-cases (is_terminal e.machine)) [
    | inl closed ↦ rw closed (Keeps-none _ e.machine _ refl)
    | inr open_ ↦ rw open_ (Keeps-prioritized action u _ _)
  ]

  -- A turn asks for a contact to be kept only where the machine was in the confirming state, the
  -- client was understood to confirm, and the contact is the candidate of the context, not blank, of
  -- the person whom the context names; its result approves CONFIRM_CONTACT and remembers the
  -- confirmation. This holds of any engine, whatever is proposed and whatever the services answer.
  pub kept_contact-Confirmed :
      (action : AgentAction) (u : Option ContactUnderstanding) (priority : OutcomeArgument)
      (r : ConversationResult) (q : PendingContactMethod)
      → (process_turn e context action u priority).1 ≡ ok r
      → r.contact_to_persist ≡ some q
      → Confirmed e context u r q
  kept_contact-Confirmed action u priority r q h kept = Keeps-turn action u priority r q h kept
