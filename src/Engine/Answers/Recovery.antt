-- ===== src/Engine/Answers/Recovery.antt =====
-- The recovery from a rejection, and actions that are validated.
use call_forge.Prelude.{String, true, false, ◌≡◌, refl, Option, none, some}
use call_forge.Vocabulary.{AgentAction}
use call_forge.Context.{Context}
use call_forge.Contracts.{ValidationResult, allows}
use call_forge.StateMachine.Machine.{Machine, ApprovedTransition, is_terminal}
use call_forge.StateMachine.Machine.Verdict.{IsValid}
use call_forge.Guardrails.Validation.{validate}
use call_forge.Guardrails.Validation.Total.{brief_names}
use call_forge.Engine.Answers.Readings.{Turn, Recalls, Reads, consults}
use call_forge.Guardrails.Fallbacks.{FallbackEngine, FallbackDecision, select, select_for_state}
use call_forge.Guardrails.Clarification.{ClarificationDecision}
use call_forge.Engine.Contracts.{ConversationContext, ConversationResult, new_result}
use call_forge.Engine.Results.{
  given, catch_transition, apply_and_build, built, plain_result, moved_result, rejected_result,
  after_transition, fallback_failed_result,
}
use call_forge.Engine.Recover.{
  decide, recover, fallback_path, reject_or_recover, recover_for_state, validate_and_apply,
  guarded_move,
}
use call_forge.Engine.Answers.{
  Answers, Landed, attempt_rule, validated_rule, allowed_rule, transition_rule, caught-Answers,
  moves-Answers, stays-Answers, rejected_result-Answers,
}

module _ (t : Turn) (valid : IsValid t.engine.machine)
    (brief : brief_names t.engine.validator ≡ true) (context : ConversationContext) where
  failed-Answers :
      (original : Option ValidationResult) (v : ValidationResult) (key : String)
      (clarification : Option ClarificationDecision)
      → Recalls context
      → Answers t (fallback_failed_result t.engine.machine context original v key clarification)
  unfolding fallback_failed_result plain_result
  failed-Answers original v key clarification recalls =
      stays-Answers t _ refl refl refl refl refl refl recalls

  module _ (ctx : Context) (reads : Reads t context ctx) where
    recover-Answers :
        (original : Option ValidationResult) (clarification : Option ClarificationDecision)
        (decision : FallbackDecision)
        → Answers t (
            recover t.engine.machine t.engine.validator context original ctx clarification decision)
    unfolding recover moved_result plain_result after_transition
    recover-Answers original clarification decision =
        allowed_rule t.engine.validator brief (Answers t) t.engine.machine _ decision.action ctx _
          (λ v yes_ h. simp h (
            attempt_rule t.engine.machine decision.action valid (Answers t) _ _
              (λ m' tr l.
                moves-Answers t decision.action ctx m' tr _
                  (consults t context ctx reads _ decision.action refl refl) yes_ l refl refl refl
                  refl refl refl refl reads.recalls)
              (failed-Answers original v decision.response_key clarification reads.recalls)))
          (λ v h.
            simp h (failed-Answers original v decision.response_key clarification reads.recalls))

    module _ (open_ : is_terminal t.engine.machine ≡ false) (path : String)
        (clarification : Option ClarificationDecision) where
      pub reject_or_recover-Answers :
          (fallback : Option FallbackEngine) (v : ValidationResult)
          → Answers t (
              reject_or_recover t.engine.machine t.engine.validator fallback context v ctx path
                clarification)
      unfolding reject_or_recover fallback_path given decide
      reject_or_recover-Answers none v =
          rejected_result-Answers t context v path open_ reads.recalls
      reject_or_recover-Answers (some fallback) v =
          recover-Answers (some v) clarification
            (select fallback t.engine.machine.current_state v (some ctx))

      pub recover_for_state-Answers :
          (fallback : Option FallbackEngine) (action : AgentAction)
          → Answers t (
              recover_for_state t.engine.machine t.engine.validator fallback context action ctx path
                clarification)
      unfolding recover_for_state fallback_path given decide
      recover_for_state-Answers none action =
          validated_rule t.engine.validator brief (Answers t) t.engine.machine _ action ctx _
            (λ v _. rejected_result-Answers t context v path open_ reads.recalls)
      recover_for_state-Answers (some fallback) action =
          recover-Answers none clarification
            (select_for_state fallback t.engine.machine.current_state "clarification_exhausted")

    -- `_apply_and_build` under its `try`.
    applied-Answers :
        (action : AgentAction) (v : ValidationResult) (path : String)
        → allows (validate t.engine.validator t.engine.machine.current_state action ctx) ≡ true
        → is_terminal t.engine.machine ≡ false
        → Answers t (
            catch_transition
              (apply_and_build t.engine.machine context action v path)
              (λ m'. rejected_result m' context v path))
    unfolding apply_and_build built catch_transition moved_result plain_result after_transition
    applied-Answers action v path allowed open_ =
        transition_rule t.engine.machine action valid
          (λ p. Answers t (
            catch_transition (built context action v path t.engine.machine.current_state p)
              (λ m'. rejected_result m' context v path)))
          (λ m' tr l. caught-Answers t _ _ (
            moves-Answers t action ctx m' tr _ (consults t context ctx reads _ action refl refl)
              allowed l refl refl refl refl refl refl refl reads.recalls))
          (λ e caught. rw caught (rejected_result-Answers t context v path open_ reads.recalls))

-- The turns of an engine, whose context may be updated on the way.
module _ (t : Turn) (valid : IsValid t.engine.machine)
    (brief : brief_names t.engine.validator ≡ true)
    (open_ : is_terminal t.engine.machine ≡ false) where
  pub validate_and_apply-Answers :
      (context : ConversationContext) (action : AgentAction) (ctx : Context) (path : String)
      → Reads t context ctx
      → Answers t (validate_and_apply t.engine context action ctx path)
  unfolding validate_and_apply
  validate_and_apply-Answers context action ctx path reads =
      allowed_rule t.engine.validator brief (Answers t) t.engine.machine _ action ctx _
        (λ v yes_ h.
          simp h (applied-Answers t valid brief context ctx reads action v path yes_ open_))
        (λ v h. simp h (
          reject_or_recover-Answers t valid brief context ctx reads open_ path none
            t.engine.fallback v))

  pub guarded_move-Answers :
      (context committed : ConversationContext) (action : AgentAction) (ctx : Context)
      (path : String) (extend : ConversationResult → ConversationResult)
      → Recalls context
      → ((v : ValidationResult) (m' : Machine) (tr : ApprovedTransition)
          → Landed t.engine.machine action m' tr
          → allows (validate t.engine.validator t.engine.machine.current_state action ctx) ≡ true
          → Answers t (
            m',
            new_result (
                extend (moved_result m' committed path t.engine.machine.current_state action tr v)),
          ))
      → Answers t (guarded_move t.engine context committed action ctx path extend)
  unfolding guarded_move
  guarded_move-Answers context committed action ctx path extend recalls moves_ =
      allowed_rule t.engine.validator brief (Answers t) t.engine.machine _ action ctx _
        (λ v yes_ h. simp h (
          attempt_rule t.engine.machine action valid (Answers t) _ _
            (λ m' tr l. moves_ v m' tr l yes_)
            (rejected_result-Answers t context v path open_ recalls)))
        (λ v h. simp h (rejected_result-Answers t context v path open_ recalls))
