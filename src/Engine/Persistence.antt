-- ===== src/Engine/Persistence.antt =====
-- When a turn asks for a contact to be kept: the rules for its steps.
pub mod Confirmed
use call_forge.Prelude.{
  String, Bool, true, false, not, ◌&&◌, ◌||◌, ◌==◌, string_eq, ◌≡◌, refl, sym, ◌∙◌, inl, inr,
  Option, none, some, Result, ok, err, Bool-cases, if◌then◌else◌, is_blank, insert, is_some,
  some_injective, arith, List, [], along_ok,
}
use mathlib.Core.Path.{subst}
use mathlib.Core.Bool.{false≢true}
use call_forge.Vocabulary.{
  ConversationState, AgentAction, confirm_contact, offer_service, clarify_contact,
  conversation_state_eq, agent_action_eq, ConversationState-discrete,
}
use call_forge.Context.{Context, flag, text}
use call_forge.Contracts.{ValidationResult}
use call_forge.StateMachine.Config.{MachineConfig}
use call_forge.StateMachine.Machine.{
  Machine, ApprovedTransition, TransitionError, apply_transition, is_terminal,
}
use call_forge.Guardrails.Validation.{validate}
use call_forge.Guardrails.Priority.{OutcomeArgument, resolve_priority_action}
use call_forge.Guardrails.Fallbacks.{FallbackEngine, FallbackDecision, select_for_state}
use call_forge.Guardrails.Clarification.{
  ContactChannel, ClarificationOutcome, ClarificationDecision, evaluate,
}
use call_forge.Engine.Contracts.{
  ContactIntent, ContactUnderstanding, ResolutionOutcome, resolved, unsupported_reference,
  ResolutionResult, PendingContactMethod, OfferResult, ConversationContext, to_validator_context,
  ConversationResult, new_result, new_result-eq, EngineError, transition_failed, ContactResolver,
  OfferingService, ConversationEngine,
}
use call_forge.Engine.Results.{
  Step, given, served, validated, is_state_transition_error, attempt_transition, catch_transition,
  plain_result, terminal_result, rejected_result, moved_result, built, apply_and_build,
  fallback_failed_result,
}
use call_forge.Engine.Recover.{
  decide, recover, fallback_path, reject_or_recover, recover_for_state, validate_and_apply,
  guarded_move,
}
use call_forge.Engine.Contact.{
  should_handle_contact, complete, pending_contact, confirm, handle_confirmation, clarified,
  session_for, clarify_action, clarify_outcome, run_clarification, with_candidate, clear_value,
  resolved_path, confirms, resolution_context, contact_path, contact_with,
}
use call_forge.Engine.Turn.{
  text_or_empty, offer_made, offer_path, normal_path, prioritized, process_turn,
}

-- What holds of a contact that a step asks to keep.
abbrev pub Keeps : (ConversationResult → PendingContactMethod → Type 0) → Step → Type 0
Keeps K p =
    (r : ConversationResult) (q : PendingContactMethod)
    → p.1 ≡ ok r
    → r.contact_to_persist ≡ some q
    → K r q

module _ (K : ConversationResult → PendingContactMethod → Type 0) where
  pub Keeps-new :
      (m : Machine) (r : ConversationResult)
      → ((q : PendingContactMethod) → r.contact_to_persist ≡ some q → K r q)
      → Keeps K (m, new_result r)
  Keeps-new m r k r' q h p = let e = new_result-eq r h in subst (λ s. K s q) e (k q (rw e p))

  pub Keeps-none :
      (m : Machine) (r : ConversationResult)
      → r.contact_to_persist ≡ none
      → Keeps K (m, new_result r)
  Keeps-none m r nothing = Keeps-new m r (λ q h. cc)

  pub Keeps-err : (m : Machine) (x : EngineError) → Keeps K (m, err x)
  Keeps-err m x r q h p = cc

  pub Keeps-attempt :
      (p : Machine × Result TransitionError ApprovedTransition)
      (success : Machine → ApprovedTransition → Step) (failure : Machine → Step)
      → ((m : Machine) (t : ApprovedTransition) → Keeps K (success m t))
      → ((m : Machine) → Keeps K (failure m))
      → Keeps K (attempt_transition p success failure)
  unfolding attempt_transition
  Keeps-attempt (m, ok t) success failure yes_ no_ = yes_ m t
  Keeps-attempt (m, err x) success failure yes_ no_ =
      elim (Bool-cases (is_state_transition_error x)) [
        | inl caught ↦ rw caught (no_ m)
        | inr other ↦ rw other (Keeps-err m _)
      ]

  Keeps-catch :
      (p : Step) (failure : Machine → Step)
      → Keeps K p
      → ((m : Machine) → Keeps K (failure m))
      → Keeps K (catch_transition p failure)
  unfolding catch_transition
  Keeps-catch (m, ok r) failure k no_ = k
  Keeps-catch (m, err (transition_failed x)) failure k no_ =
      elim (Bool-cases (is_state_transition_error x)) [
        | inl caught ↦ rw caught (no_ m)
        | inr other ↦ rw other (Keeps-err m _)
      ]
  Keeps-catch (m, err x) failure k no_ = k

  pub Keeps-given :
      {A : Type 0} (m : Machine) (a : Result EngineError A) (next : A → Step)
      → ((x : A) → Keeps K (next x))
      → Keeps K (given m a next)
  unfolding given
  Keeps-given m (ok x) next k = k x
  Keeps-given m (err x) next k = Keeps-err m x

  pub Keeps-rejected :
      (m : Machine) (context : ConversationContext) (v : ValidationResult) (path : String)
      → Keeps K (rejected_result m context v path)
  unfolding rejected_result plain_result
  Keeps-rejected m context v path = Keeps-none m _ refl

  Keeps-failed :
      (m : Machine) (context : ConversationContext) (original : Option ValidationResult)
      (v : ValidationResult) (key : String) (clarification : Option ClarificationDecision)
      → Keeps K (fallback_failed_result m context original v key clarification)
  unfolding fallback_failed_result plain_result
  Keeps-failed m context original v key clarification = Keeps-none m _ refl

  Keeps-recover :
      (m : Machine) (validator : MachineConfig) (context : ConversationContext)
      (original : Option ValidationResult) (ctx : Context)
      (clarification : Option ClarificationDecision) (decision : FallbackDecision)
      → Keeps K (recover m validator context original ctx clarification decision)
  unfolding recover moved_result plain_result
  Keeps-recover m validator context original ctx clarification decision =
      Keeps-given m (validated (validate validator m.current_state decision.action ctx)) _ (λ v.
        elim (Bool-cases v.allowed) [
          | inl yes_ ↦ simp yes_ (
              Keeps-attempt _ _ _ (λ m' t. Keeps-none m' _ refl)
                (λ m'. Keeps-failed m' context original v _ _))
          | inr no_ ↦ simp no_ (Keeps-failed m context original v _ _)
        ])

  Keeps-fallback :
      (m : Machine) (validator : MachineConfig) (fallback : FallbackEngine)
      (context : ConversationContext) (original : Option ValidationResult) (ctx : Context)
      (decision : Option FallbackDecision) (clarification : Option ClarificationDecision)
      → Keeps K (fallback_path m validator fallback context original ctx decision clarification)
  unfolding fallback_path
  Keeps-fallback m validator fallback context original ctx decision clarification =
      Keeps-given m _ _ (λ d. Keeps-recover m validator context original ctx clarification d)

  pub Keeps-reject_or_recover :
      (m : Machine) (validator : MachineConfig) (fallback : Option FallbackEngine)
      (context : ConversationContext) (v : ValidationResult) (ctx : Context) (path : String)
      (clarification : Option ClarificationDecision)
      → Keeps K (reject_or_recover m validator fallback context v ctx path clarification)
  unfolding reject_or_recover
  Keeps-reject_or_recover m validator none context v ctx path clarification =
      Keeps-rejected m context v path
  Keeps-reject_or_recover m validator (some fallback) context v ctx path clarification =
      Keeps-fallback m validator fallback context (some v) ctx none clarification

  pub Keeps-recover_for_state :
      (m : Machine) (validator : MachineConfig) (fallback : Option FallbackEngine)
      (context : ConversationContext) (action : AgentAction) (ctx : Context) (path : String)
      (clarification : Option ClarificationDecision)
      → Keeps K (recover_for_state m validator fallback context action ctx path clarification)
  unfolding recover_for_state
  Keeps-recover_for_state m validator none context action ctx path clarification =
      Keeps-given m _ _ (λ v. Keeps-rejected m context v path)
  Keeps-recover_for_state m validator (some fallback) context action ctx path clarification =
      Keeps-fallback m validator fallback context none ctx
        (some (select_for_state fallback m.current_state "clarification_exhausted")) clarification

  Keeps-built :
      (m : Machine) (context : ConversationContext) (action : AgentAction) (v : ValidationResult)
      (path : String) (p : Machine × Result TransitionError ApprovedTransition)
      → Keeps K (built context action v path m.current_state p)
  unfolding built moved_result plain_result
  Keeps-built m context action v path (m', ok t) = Keeps-none m' _ refl
  Keeps-built m context action v path (m', err x) = Keeps-err m' _

  pub Keeps-apply :
      (e : ConversationEngine) (context : ConversationContext) (action : AgentAction)
      (ctx : Context) (path : String)
      → Keeps K (validate_and_apply e context action ctx path)
  unfolding validate_and_apply apply_and_build
  Keeps-apply e context action ctx path =
      Keeps-given e.machine (validated (validate e.validator e.machine.current_state action ctx)) _
        (λ v. elim (Bool-cases v.allowed) [
          | inl yes_ ↦ simp yes_ (
              Keeps-catch _ _
                (Keeps-built e.machine context action v path
                  (apply_transition e.machine action [] none))
                (λ m. Keeps-rejected m context v path))
          | inr no_ ↦
              simp no_
                (Keeps-reject_or_recover e.machine e.validator e.fallback context v ctx path none)
        ])
