-- ===== src/Engine/Answers/Turns.antt =====
-- Whole turns of the engine, and conversations of any length.
use call_forge.Prelude.{
  String, ℤ, suc_ℤ, string_eq, Bool, true, false, ◌&&◌, ◌==◌, ◌++◌, ◌≡◌, refl, sym, inl, inr,
  Option, none, some, List, [], ◌∷◌, Bool-cases, insert, is_some,
}
use call_forge.Vocabulary.{AgentAction, offer_service, conversation_state_eq, agent_action_eq}
use call_forge.Context.{Context, flag}
use call_forge.StateMachine.Config.{MachineConfig}
use call_forge.StateMachine.Machine.{is_terminal}
use call_forge.StateMachine.Machine.Verdict.{IsValid}
use call_forge.Guardrails.Priority.{OutcomeArgument}
use call_forge.Engine.Contracts.{
  ConversationContext, ConversationEngine, ContactResolver, OfferingService, ContactUnderstanding,
  ResolutionContext, ResolutionResult, OfferResult,
}
use call_forge.Contracts.{rejected, long_reason}
use call_forge.Engine.Results.{
  given, served, validated, terminal_result, plain_result, moved_result,
}
use call_forge.Engine.Contact.{should_handle_contact, contact_with, is_contact_state}
use call_forge.Engine.Turn.{
  offer_made, offer_path, text_or_empty, normal_path, prioritized, process_turn, authority_offer,
  specialized_rejection, execute_authority_approved_action, is_contact_action,
}
use call_forge.Guardrails.Validation.Total.{brief_names}
use call_forge.Engine.Answers.{Answers, moves-Answers, stays-Answers, rejected_result-Answers}
use call_forge.Engine.Answers.Readings.{Turn, Recalls, Approved, Reads, begins, consults-offered}
use call_forge.Engine.Answers.Recovery.{
  recover_for_state-Answers, guarded_move-Answers, validate_and_apply-Answers,
}
use call_forge.Engine.Answers.Contacts.{HasLimits, contact_path-Answers}

-- The clarification limits are positive, and the services answer.
abbrev pub Clarifies : Option MachineConfig → Type 0
Clarifies none = Unit
Clarifies (some config) = HasLimits config

abbrev pub Resolves : Option ContactResolver → Type 0
Resolves none = Unit
Resolves (some resolver) =
    (u : ContactUnderstanding) (c : ResolutionContext)
    → (r : ResolutionResult) × (resolver u c ≡ some r)

abbrev pub Offers : Option OfferingService → Type 0
Offers none = Unit
Offers (some offering) =
    (campaign_id : String) (signals offered : List String) (made : ℤ)
    → (o : OfferResult) × (offering campaign_id signals offered made ≡ some o)

-- The engine's machine is valid, the names of its validator's requirements are short enough for the
-- answers, its clarification has positive limits, and its services do not raise.
pub record IsReady (e : ConversationEngine) : Type 0 where
  pub valid : IsValid e.machine
  pub brief : brief_names e.validator ≡ true
  pub clarifies : Clarifies e.clarification
  pub resolves : Resolves e.resolver
  pub offers : Offers e.offering

module _ (t : Turn) (valid : IsValid t.engine.machine)
    (brief : brief_names t.engine.validator ≡ true) (open_ : is_terminal t.engine.machine ≡ false)
    (ctx : Context) (reads : Reads t t.before ctx) where
  offer_made-Answers :
      (offering : OfferingService) (offer : OfferResult) (id : Option String)
      → t.engine.offering ≡ some offering
      → offering
          (text_or_empty t.before.campaign_id)
          t.before.known_signals
          t.before.offered_service_ids
          t.before.service_offers_made
        ≡ some offer
      → offer.approved_service_id ≡ id
      → Answers t (offer_made t.engine t.before ctx offer id)
  unfolding offer_made moved_result plain_result
  offer_made-Answers offering offer none its made same =
      recover_for_state-Answers t valid brief t.before ctx reads open_ "offer" none
        t.engine.fallback offer_service
  offer_made-Answers offering offer (some id) its made same =
      guarded_move-Answers t valid brief open_ t.before
        (record t.before {
          eligible_alternative_service_ids = offer.eligible_service_ids;
          offered_service_ids = t.before.offered_service_ids ++ id ∷ [];
          service_offers_made = suc_ℤ t.before.service_offers_made;
        })
        offer_service (insert "has_applicable_alternative" (flag true) ctx) "offer"
        (λ r. record r { service_selection = some offer.selection }) reads.recalls
        (λ v m' tr l allowed.
          moves-Answers t offer_service (insert "has_applicable_alternative" (flag true) ctx) m' tr
            _ (consults-offered t t.before ctx reads _ approval refl refl) allowed l refl refl refl
            refl refl refl refl reads.recalls)
    where
      approval : Approved t
      approval = record {
        offering = offering;
        is_engines = its;
        offer = offer;
        made = made;
        service = id;
        approved = same;
      }

  offer_path-Answers :
      (offering : OfferingService)
      → t.engine.offering ≡ some offering
      → Offers (some offering)
      → Answers t (offer_path t.engine offering t.before ctx)
  unfolding offer_path given served
  offer_path-Answers offering its offers =
      let (o, made) =
        offers (text_or_empty t.before.campaign_id) t.before.known_signals
          t.before.offered_service_ids t.before.service_offers_made in
      rw made (offer_made-Answers offering o o.approved_service_id its made refl)

  normal_path-Answers :
      (action : AgentAction) (offering : Option OfferingService)
      → t.engine.offering ≡ offering
      → Offers offering
      → Answers t (normal_path t.engine t.before action ctx offering)
  unfolding normal_path
  normal_path-Answers action none its offers =
      validate_and_apply-Answers t valid brief open_ t.before action ctx "normal" reads
  normal_path-Answers action (some offering) its offers =
      elim (Bool-cases (action == offer_service)) [
        | inl yes_ ↦ simp yes_ (offer_path-Answers offering its offers)
        | inr no_ ↦
            simp no_
              (validate_and_apply-Answers t valid brief open_ t.before action ctx "normal" reads)
      ]

  contact_with-Answers :
      (resolver : Option ContactResolver) (config : Option MachineConfig)
      (u : Option ContactUnderstanding) (here : Bool)
      → t.engine.resolver ≡ resolver
      → t.understanding ≡ u
      → Resolves resolver
      → Clarifies config
      → (is_some resolver && is_some config && is_some u && here) ≡ true
      → Answers t (contact_with t.engine t.before ctx resolver config u)
  unfolding contact_with
  contact_with-Answers (some resolver) (some config) (some u) here its said resolves limits h =
      contact_path-Answers t valid brief open_ config limits resolver its resolves u ctx said reads
  contact_with-Answers (some resolver) (some config) none here its said resolves limits h =
      absurd (cc)
  contact_with-Answers (some resolver) none u here its said resolves limits h = absurd (cc)
  contact_with-Answers none config u here its said resolves limits h = absurd (cc)

  prioritized-Answers :
      (action : AgentAction) (priority : Option AgentAction)
      → IsReady t.engine
      → Answers t (prioritized t.engine t.before action t.understanding ctx priority)
  unfolding prioritized should_handle_contact
  prioritized-Answers action (some priority) ready =
      validate_and_apply-Answers t valid brief open_ t.before priority ctx "priority" reads
  prioritized-Answers action none ready =
      elim (Bool-cases
        (should_handle_contact t.engine t.engine.machine.current_state t.understanding)) [
          | inl yes_ ↦ simp yes_ (
              contact_with-Answers t.engine.resolver t.engine.clarification t.understanding _ refl
                refl ready.resolves ready.clarifies yes_)
          | inr no_ ↦ simp no_ (normal_path-Answers action t.engine.offering refl ready.offers)
        ]

  unable-Answers :
      (reason : String)
      → long_reason reason ≡ false
      → Answers t (specialized_rejection t.engine.machine t.before reason)
  unfolding specialized_rejection given validated rejected
  unable-Answers reason short =
      rw short (rejected_result-Answers t t.before _ "specialized" open_ reads.recalls)

  authority_offer-Answers :
      (offering : Option OfferingService)
      → t.engine.offering ≡ offering
      → Offers offering
      → Answers t (authority_offer t.engine t.before ctx offering)
  unfolding authority_offer long_reason
  authority_offer-Answers none its offers =
      unable-Answers "service offering capability unavailable" refl
  authority_offer-Answers (some offering) its offers = offer_path-Answers offering its offers

-- A turn of an engine.
abbrev pub turn_on : ConversationEngine → ConversationContext → Option ContactUnderstanding → Turn
turn_on e context u = record { engine = e; before = context; understanding = u }

module _ (e : ConversationEngine) (context : ConversationContext) (ready : IsReady e)
    (recalls : Recalls context) (u : Option ContactUnderstanding) where
  terminal-Answers :
      is_terminal e.machine ≡ true
      → Answers (turn_on e context u) (terminal_result e.machine context)
  unfolding terminal_result plain_result
  terminal-Answers closed =
      stays-Answers (turn_on e context u) _ refl (sym closed) refl refl refl refl recalls

  -- A turn of an engine whose machine is valid, whose requirements have short names, whose limits are
  -- positive and whose services answer never raises, whatever is proposed, understood and trusted. Its
  -- result agrees with the machine: the next state is the machine's, and the conversation goes on
  -- exactly if that is not terminal. Either the machine is as it was and no action is approved, or it
  -- made one transition, of the approved action, which the validator allows in a context that says
  -- what the conversation's does of a do-not-call request, a callback, an earlier conversation, the
  -- candidate, its confirmation and an alternative, but for a candidate that the turn's resolver
  -- resolved, for the confirmation that the client gave, and for the offer that the turn's service
  -- approved.
  pub process_turn-Answers :
      (action : AgentAction) (priority : OutcomeArgument)
      → Answers (turn_on e context u) (process_turn e context action u priority)
  unfolding process_turn
  process_turn-Answers action priority = elim (Bool-cases (is_terminal e.machine)) [
    | inl closed ↦ rw closed (terminal-Answers closed)
    | inr open_ ↦ rw open_ (
        prioritized-Answers (turn_on e context u) ready.valid ready.brief open_ _
          (begins (turn_on e context u) recalls) action _ ready)
  ]

  -- The same holds of an action that the orchestrator has approved, with the contact and offer paths
  -- of its own.
  pub execute_authority_approved_action-Answers :
      (action : AgentAction)
      → Answers (turn_on e context u) (execute_authority_approved_action e context action u)
  unfolding execute_authority_approved_action should_handle_contact long_reason
  execute_authority_approved_action-Answers action = elim (Bool-cases (is_terminal e.machine)) [
    | inl closed ↦ rw closed (terminal-Answers closed)
    | inr open_ ↦
        let t = turn_on e context u in
        let reads = begins t recalls in
        rw open_ (elim (Bool-cases (action == offer_service)) [
          | inl offer ↦ simp offer (
              authority_offer-Answers t ready.valid ready.brief open_ _ reads e.offering refl
                ready.offers)
          | inr other ↦
              simp other
                (elim (Bool-cases
                  (is_contact_action action && is_contact_state e.machine.current_state)) [
                    | inl contact ↦
                        simp contact
                          (elim (Bool-cases (should_handle_contact e e.machine.current_state u)) [
                            | inl able ↦ simp able (
                                contact_with-Answers t ready.valid ready.brief open_ _ reads
                                  e.resolver e.clarification u _ refl refl ready.resolves
                                  ready.clarifies able)
                            | inr unable ↦ simp unable (
                                unable-Answers t ready.valid ready.brief open_ _ reads
                                  "contact resolution capability/input unavailable" refl)
                          ])
                    | inr plain ↦ simp plain (
                        validate_and_apply-Answers t ready.valid ready.brief open_ context action _
                          "slice3" reads)
                  ])
        ])
  ]
