-- ===== src/Engine/Answers/Readings.antt =====
-- The context in which a turn consults the validator: the turn's own, or what a service of the turn or
-- the client's confirmation adds to it, in _contact_path, _offer_path and _handle_confirmation of
-- app/conversation/engine.py.
use call_forge.Prelude.{
  String, Bool, true, false, ◌≡◌, refl, ◌∙◌, ◌⊎◌, inl, inr, Option, none, some, List, [], ◌∷◌,
  lookup, lookup-insert, lookup-insert_ne, insert, string_eq,
}
use call_forge.Vocabulary.{AgentAction, offer_service}
use call_forge.Context.{Context, Value, null, flag, text}
use call_forge.Guardrails.Clarification.{ClarificationState}
use call_forge.Guardrails.Clarification.Bounded.{IsValid as IsState}
use call_forge.Engine.Contracts.{
  ContactIntent, ContactUnderstanding, ContactResolver, ResolutionResult, resolved, OfferingService,
  OfferResult, ConversationContext, ConversationEngine, to_validator_context,
  has_applicable_alternative,
}
use call_forge.Engine.Contact.{resolution_context, with_candidate}
use call_forge.Engine.Turn.{text_or_empty}

-- A turn: the engine and the context before it, and what was understood of a contact.
pub record Turn : Type 0 where
  pub engine : ConversationEngine
  pub before : ConversationContext
  pub understanding : Option ContactUnderstanding

abbrev pub RecallsState : Option ClarificationState → Type 0
RecallsState none = Unit
RecallsState (some s) = IsState s

-- A clarification that the context remembers is one that its constructor lets through.
abbrev pub Recalls : ConversationContext → Type 0
Recalls context = RecallsState context.clarification

-- A text of the context, as the validator reads it.
abbrev value_of : Option String → Value
value_of none = null
value_of (some t) = text t

abbrev any : {A : Type 0} → List A → Bool
any [] = false
any (x ∷ xs) = true

-- What the turn's resolver answered of what was understood.
pub record Found (t : Turn) (result : ResolutionResult) : Type 0 where
  pub resolver : ContactResolver
  pub is_engines : t.engine.resolver ≡ some resolver
  pub u : ContactUnderstanding
  pub understood : t.understanding ≡ some u
  pub answered : resolver u (resolution_context t.before) ≡ some result

-- The candidate is a value to which the turn's resolver resolved what was understood.
record Resolved (t : Turn) (candidate : Option String) : Type 0 where
  result : ResolutionResult
  found : Found t result
  outcome : result.outcome ≡ resolved
  value : String
  normalized : result.value_normalized ≡ some value
  is_candidate : candidate ≡ some value

-- The action is the confirmation, which the client was understood to give.
pub record Confirming (t : Turn) (action : AgentAction) : Type 0 where
  pub confirmation : action ≡ AgentAction.confirm_contact
  pub u : ContactUnderstanding
  pub understood : t.understanding ≡ some u
  pub agreed : u.intent ≡ ContactIntent.confirm_contact

-- The turn's offering service approved an offer.
pub record Approved (t : Turn) : Type 0 where
  pub offering : OfferingService
  pub is_engines : t.engine.offering ≡ some offering
  pub offer : OfferResult
  pub made :
      offering
        (text_or_empty t.before.campaign_id)
        t.before.known_signals
        t.before.offered_service_ids
        t.before.service_offers_made
      ≡ some offer
  pub service : String
  pub approved : offer.approved_service_id ≡ some service

-- The context in which an action was allowed says what the turn began with, of a do-not-call request,
-- a callback and an earlier conversation. The candidate and its confirmation are those that the turn
-- leaves in the conversation's context: what the turn began with, or a value that its resolver
-- resolved, and a confirmation that the client gave. There is an alternative if the conversation had
-- one, or if the turn's offering service approved the offer that is the action.
pub record Consulted (t : Turn) (after : ConversationContext) (action : AgentAction) (ctx : Context)
    : Type 0 where
  dnc : lookup "dnc_pending" ctx ≡ some (flag t.before.dnc_pending)
  callback : lookup "callback" ctx ≡ some (value_of t.before.callback)
  previous :
      lookup "previous_conversation_exists" ctx ≡ some (flag t.before.previous_conversation_exists)
  candidate : lookup "contact_candidate" ctx ≡ some (value_of after.contact_candidate)
  candidate_from :
      (after.contact_candidate ≡ t.before.contact_candidate) ⊎ Resolved t after.contact_candidate
  confirmed : lookup "contact_confirmed" ctx ≡ some (flag after.contact_confirmed)
  confirmed_from :
      (after.contact_confirmed ≡ t.before.contact_confirmed)
      ⊎ (Confirming t action × (after.contact_confirmed ≡ true))
  alternative :
      (lookup "has_applicable_alternative" ctx
        ≡ some (flag (any t.before.eligible_alternative_service_ids)))
      ⊎ ((action ≡ offer_service)
          × Approved t
          × (lookup "has_applicable_alternative" ctx ≡ some (flag true)))

-- On the way: the conversation's context as the turn has it, and what the validator reads.
pub record Reads (t : Turn) (now : ConversationContext) (ctx : Context) : Type 0 where
  pub recalls : Recalls now
  dnc : lookup "dnc_pending" ctx ≡ some (flag t.before.dnc_pending)
  callback : lookup "callback" ctx ≡ some (value_of t.before.callback)
  previous :
      lookup "previous_conversation_exists" ctx ≡ some (flag t.before.previous_conversation_exists)
  candidate : lookup "contact_candidate" ctx ≡ some (value_of now.contact_candidate)
  candidate_from :
      (now.contact_candidate ≡ t.before.contact_candidate) ⊎ Resolved t now.contact_candidate
  confirmed : lookup "contact_confirmed" ctx ≡ some (flag now.contact_confirmed)
  as_before : now.contact_confirmed ≡ t.before.contact_confirmed
  alternative :
      lookup "has_applicable_alternative" ctx
      ≡ some (flag (any t.before.eligible_alternative_service_ids))

-- A turn begins with its own context.
pub begins : (t : Turn) → Recalls t.before → Reads t t.before (to_validator_context t.before)
unfolding to_validator_context lookup has_applicable_alternative
begins t recalls = record {
  recalls = recalls;
  dnc = refl;
  callback = callback_read t.before;
  previous = refl;
  candidate = candidate_read t.before;
  candidate_from = inl refl;
  confirmed = refl;
  as_before = refl;
  alternative = alternative_read t.before;
}
  where
    callback_read :
        (context : ConversationContext)
        → lookup "callback" (to_validator_context context) ≡ some (value_of context.callback)
    callback_read context = of context.callback
      where
        of :
            (v : Option String)
            → lookup "callback" (to_validator_context (record context { callback = v }))
              ≡ some (value_of v)
        of none = refl
        of (some v) = refl

    candidate_read :
        (context : ConversationContext)
        → lookup "contact_candidate" (to_validator_context context)
          ≡ some (value_of context.contact_candidate)
    candidate_read context = of context.contact_candidate
      where
        of :
            (v : Option String)
            → lookup "contact_candidate"
                (to_validator_context (record context { contact_candidate = v }))
              ≡ some (value_of v)
        of none = refl
        of (some v) = refl

    alternative_read :
        (context : ConversationContext)
        → lookup "has_applicable_alternative" (to_validator_context context)
          ≡ some (flag (any context.eligible_alternative_service_ids))
    alternative_read context = of context.eligible_alternative_service_ids
      where
        of :
            (ids : List String)
            → lookup "has_applicable_alternative"
                (to_validator_context (record context { eligible_alternative_service_ids = ids }))
              ≡ some (flag (any ids))
        of [] = refl
        of (id ∷ ids) = refl

module _ (t : Turn) (now : ConversationContext) (ctx : Context) (reads : Reads t now ctx) where
  -- A plain consultation.
  pub consults :
      (after : ConversationContext) (action : AgentAction)
      → after.contact_candidate ≡ now.contact_candidate
      → after.contact_confirmed ≡ now.contact_confirmed
      → Consulted t after action ctx
  consults after action kept stood = record {
    dnc = reads.dnc;
    callback = reads.callback;
    previous = reads.previous;
    candidate = rw kept reads.candidate;
    candidate_from = rw kept reads.candidate_from;
    confirmed = rw stood reads.confirmed;
    confirmed_from = inl (stood ∙ reads.as_before);
    alternative = inl reads.alternative;
  }

  -- The context may remember another clarification.
  pub remembers :
      (s : ClarificationState) → IsState s → Reads t (record now { clarification = some s }) ctx
  remembers s valid = record {
    recalls = valid;
    dnc = reads.dnc;
    callback = reads.callback;
    previous = reads.previous;
    candidate = reads.candidate;
    candidate_from = reads.candidate_from;
    confirmed = reads.confirmed;
    as_before = reads.as_before;
    alternative = reads.alternative;
  }

  -- The confirmation.
  pub consults-confirmed :
      (after : ConversationContext)
      → Confirming t AgentAction.confirm_contact
      → after.contact_candidate ≡ now.contact_candidate
      → after.contact_confirmed ≡ true
      → Consulted t after AgentAction.confirm_contact (insert "contact_confirmed" (flag true) ctx)
  consults-confirmed after agreed kept stood = record {
    dnc = lookup-insert_ne _ _ _ ctx refl ∙ reads.dnc;
    callback = lookup-insert_ne _ _ _ ctx refl ∙ reads.callback;
    previous = lookup-insert_ne _ _ _ ctx refl ∙ reads.previous;
    candidate = lookup-insert_ne _ _ _ ctx refl ∙ rw kept reads.candidate;
    candidate_from = rw kept reads.candidate_from;
    confirmed = rw stood (lookup-insert "contact_confirmed" (flag true) ctx);
    confirmed_from = inr (agreed, stood);
    alternative = inl (lookup-insert_ne _ _ _ ctx refl ∙ reads.alternative);
  }

  -- The offer.
  pub consults-offered :
      (after : ConversationContext)
      → Approved t
      → after.contact_candidate ≡ now.contact_candidate
      → after.contact_confirmed ≡ now.contact_confirmed
      → Consulted t after offer_service (insert "has_applicable_alternative" (flag true) ctx)
  consults-offered after approved kept stood = record {
    dnc = lookup-insert_ne _ _ _ ctx refl ∙ reads.dnc;
    callback = lookup-insert_ne _ _ _ ctx refl ∙ reads.callback;
    previous = lookup-insert_ne _ _ _ ctx refl ∙ reads.previous;
    candidate = lookup-insert_ne _ _ _ ctx refl ∙ rw kept reads.candidate;
    candidate_from = rw kept reads.candidate_from;
    confirmed = lookup-insert_ne _ _ _ ctx refl ∙ rw stood reads.confirmed;
    confirmed_from = inl (stood ∙ reads.as_before);
    alternative = inr (refl, approved, lookup-insert "has_applicable_alternative" (flag true) ctx);
  }

  -- A resolved candidate.
  pub resolves-candidate :
      (result : ResolutionResult) (value : String)
      → Found t result
      → result.outcome ≡ resolved
      → result.value_normalized ≡ some value
      → Reads t (with_candidate now result value) (insert "contact_candidate" (text value) ctx)
  unfolding with_candidate
  resolves-candidate result value found outcome normalized = record {
    recalls = reads.recalls;
    dnc = lookup-insert_ne _ _ _ ctx refl ∙ reads.dnc;
    callback = lookup-insert_ne _ _ _ ctx refl ∙ reads.callback;
    previous = lookup-insert_ne _ _ _ ctx refl ∙ reads.previous;
    candidate = lookup-insert "contact_candidate" (text value) ctx;
    candidate_from = inr (record {
      result = result;
      found = found;
      outcome = outcome;
      value = value;
      normalized = normalized;
      is_candidate = refl;
    });
    confirmed = lookup-insert_ne _ _ _ ctx refl ∙ reads.confirmed;
    as_before = reads.as_before;
    alternative = lookup-insert_ne _ _ _ ctx refl ∙ reads.alternative;
  }
