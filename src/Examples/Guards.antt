-- ===== src/Examples/Guards.antt =====
-- The validator, the fallbacks and the clarification at concrete inputs.
use call_forge.Prelude.{
  ℕ, ◌<◌, ◌≡◌, ◌↔◌, refl, true, false, Bool, none, some, List, [], ◌∷◌, ok, pos, lookup, has_key,
  member,
}
use call_forge.Vocabulary.{
  AgentAction, listen, collect_email, ask_email, mark_dnc, ConversationState-discrete,
  AgentAction-discrete,
}
use call_forge.Context.{Context, flag, is_true, has_nonempty}
use call_forge.Contracts.{ValidationCategory, ValidationResult, allows, category_value}
use call_forge.StateMachine.Machine.{Machine, apply_transition, is_terminal}
use call_forge.StateMachine.Machine.Verdict.{IsValid}
use call_forge.Guardrails.Validation.{validate, as_machine_hook, is_terminating, prerequisites}
use call_forge.Guardrails.Validation.Exact.{IsPermitted, validate_exact}
use call_forge.Guardrails.Validation.Hook.{Applies, validated_action-Applies}
use call_forge.Guardrails.Fallbacks.{select, select_for_state}
use call_forge.Guardrails.Fallbacks.Safe.{Origin, select-Origin, select_for_state-Origin}
use call_forge.Guardrails.Clarification.{
  ContactChannel, ClarificationStage, ClarificationDecision, max_for, new_session, new_state,
}
use call_forge.Guardrails.Clarification.Bounded.{at, decisions, retries, new_session_bounded}
use call_forge.Shipped.{shipped_config}
use call_forge.Shipped.Safety.{
  machine_at, shipped-IsWellFormed, shipped_engine, shipped_engine_built, dnc_conflict_recovers,
}

validate_exact_example :
    (allows (validate shipped_config listen ask_email []) ≡ true)
    ↔ IsPermitted shipped_config listen ask_email []
validate_exact_example = validate_exact shipped_config listen ask_email []

abbrev collecting : Machine
collecting = machine_at collect_email []

collecting-IsValid : IsValid collecting
unfolding shipped_config has_key
collecting-IsValid = record { well_formed = shipped-IsWellFormed; defined = refl; stack = tt }

abbrev ready : Context
ready = ("contact_candidate", flag true) ∷ []

validated_action-Applies_example :
    Applies
      (apply_transition collecting AgentAction.confirm_contact ready
        (some (as_machine_hook (some ready)))).1
unfolding validate shipped_config is_terminal lookup member prerequisites ConversationState-discrete
    AgentAction-discrete is_terminating is_true has_nonempty
validated_action-Applies_example =
    validated_action-Applies collecting AgentAction.confirm_contact ready collecting-IsValid refl
      refl

abbrev pending : Context
pending = ("dnc_pending", flag true) ∷ []

dnc_conflict_recovers_example :
    (r : ValidationResult) × (validate shipped_config listen ask_email pending ≡ ok r)
    × (r.category ≡ ValidationCategory.dnc_conflict)
    × ((select shipped_engine listen r none).action ≡ mark_dnc)
    × ((select shipped_engine listen r none).is_terminal ≡ true)
unfolding shipped_config member is_true lookup is_terminating AgentAction-discrete
dnc_conflict_recovers_example =
    dnc_conflict_recovers shipped_engine listen ask_email pending shipped_engine_built refl refl
      refl

abbrev refusal : ValidationResult
refusal = record {
  allowed = false;
  category = ValidationCategory.not_eligible;
  reason = some "greet not allowed in listen";
  from_deterministic_rule = true;
}

select-Origin_example :
    Origin shipped_engine listen
      (some (category_value refusal.category))
      (select shipped_engine listen refusal none)
select-Origin_example =
    select-Origin shipped_config shipped_engine listen refusal none shipped-IsWellFormed
      shipped_engine_built

select_for_state-Origin_example :
    Origin shipped_engine collect_email none
      (select_for_state shipped_engine collect_email "clarification_exhausted")
select_for_state-Origin_example =
    select_for_state-Origin shipped_config shipped_engine collect_email "clarification_exhausted"
      shipped-IsWellFormed shipped_engine_built

abbrev turns : List Bool
turns = false ∷ true ∷ false ∷ false ∷ []

new_session_bounded_example :
    (m : ℕ) × (max_for shipped_config ContactChannel.email ≡ pos m)
    × (ds : List ClarificationDecision) × (decisions
          (at ContactChannel.email ClarificationStage.initial 0 3)
          turns
        ≡ ok ds)
    × (retries ds < m)
unfolding new_session new_state shipped_config max_for lookup
new_session_bounded_example =
    new_session_bounded shipped_config ContactChannel.email
      (at ContactChannel.email ClarificationStage.initial 0 3) turns refl
