-- ===== src/Engine/Answers.antt =====
-- What a turn of the engine answers.
pub mod Readings
pub mod Recovery
pub mod Contacts
pub mod Turns
pub mod Conversations
pub mod Dnc
use call_forge.Prelude.{
  String, Bool, true, false, not, ◌&&◌, ◌≡◌, refl, sym, ap, ◌∙◌, ◌⊎◌, inl, inr, Option, none, some,
  List, [], ◌∷◌, Result, ok, err, ◌>>=◌, member, Bool-cases, Option-cases, arith, if◌then◌else◌,
}
use mathlib.Core.Path.{subst}
use call_forge.Vocabulary.{
  ConversationState, AgentAction, conversation_state_eq, agent_action_eq, mark_dnc,
}
use call_forge.Context.{Context}
use call_forge.Contracts.{ValidationResult, allows}
use call_forge.StateMachine.Config.{MachineConfig, TransitionRule}
use call_forge.StateMachine.Machine.{
  Machine, ApprovedTransition, TransitionError, apply_transition, is_terminal,
}
use call_forge.StateMachine.Machine.Verdict.{
  IsValid, Verdict, terminal, ineligible, refused, nowhere_to_return, returned, moved,
  apply_transition-Verdict,
}
use call_forge.Guardrails.Validation.{validate}
use call_forge.Guardrails.Validation.Total.{brief_names, validate_returns}
use call_forge.Guardrails.Clarification.{ClarificationState}
use call_forge.Guardrails.Clarification.Bounded.{IsValid as IsState}
use call_forge.Engine.Contracts.{
  ConversationContext, ConversationResult, new_result, new_result-ok, EngineError,
  transition_failed,
}
use call_forge.Engine.Answers.Readings.{Turn, Consulted, Recalls}
use call_forge.Engine.Results.{
  Step, given, validated, attempt_transition, catch_transition, apply_and_build, built,
  is_state_transition_error, plain_result, moved_result, rejected_result, after_transition,
}

-- The result speaks of the machine that it comes with: the next state is the machine's, the call goes
-- on exactly if that state is not terminal.
pub record Agrees (m : Machine) (r : ConversationResult) : Type 0 where
  pub next : r.next_state ≡ m.current_state
  pub ends : r.is_terminal ≡ is_terminal m
  pub goes_on : r.continues ≡ not r.is_terminal

-- What a turn does to the machine: nothing, and no action is approved; or one transition, of the
-- action that is approved, which the validator allows in the context in which the turn consulted it.
pub data Does (t : Turn) (m' : Machine) (r : ConversationResult) : Type 0 where
  stays :
      m' ≡ t.engine.machine → r.approved_action ≡ none → r.execution_required ≡ false → Does t m' r
  moves :
      (action : AgentAction) (context : Context) (transition : ApprovedTransition)
      → Consulted t r.updated_context action context
      → allows (validate t.engine.validator t.engine.machine.current_state action context) ≡ true
      → apply_transition t.engine.machine action [] none ≡ (m', ok transition)
      → r.approved_action ≡ some action
      → r.outcome ≡ transition.outcome
      → r.execution_required ≡ true
      → Does t m' r

-- The step returns a result that the constructor lets through.
abbrev pub Answers : Turn → Step → Type 0
Answers t p =
    (r : ConversationResult) × (p.1 ≡ ok r)
    × Agrees p.0 r
    × Does t p.0 r
    × Recalls r.updated_context

-- A transition that succeeds ends in the state that it says.
pub record Landed (m : Machine) (a : AgentAction) (m' : Machine) (t : ApprovedTransition)
    : Type 0 where
  pub applied : apply_transition m a [] none ≡ (m', ok t)
  pub arrived : t.to_state ≡ m'.current_state

module _ (m : Machine) (a : AgentAction) (valid : IsValid m) where
  applied_verdict :
      (R : Machine × Result TransitionError ApprovedTransition → Type 0)
      (p : Machine × Result TransitionError ApprovedTransition)
      → apply_transition m a [] none ≡ p
      → Verdict m a [] none p
      → ((m' : Machine) (t : ApprovedTransition) → Landed m a m' t → R (m', ok t))
      → ((e : TransitionError) → is_state_transition_error e ≡ true → R (m, err e))
      → R p
  unfolding is_state_transition_error
  applied_verdict R p h (terminal _) yes_ no_ = no_ _ refl
  applied_verdict R p h (ineligible _ _ _ _) yes_ no_ = no_ _ refl
  applied_verdict R p h (refused _ _ _) yes_ no_ = no_ _ refl
  applied_verdict R p h (nowhere_to_return _ _ _ _ _) yes_ no_ = no_ _ refl
  applied_verdict R p h (returned _ _ _ _ _ _ _) yes_ no_ =
      yes_ _ _ (record { applied = h; arrived = refl })
  applied_verdict R p h (moved _ _ _ _ _ _ _ _ _) yes_ no_ =
      yes_ _ _ (record { applied = h; arrived = refl })

  -- On a valid machine a transition succeeds, or raises a `StateTransitionError` with the machine as
  -- it was.
  pub transition_rule :
      (R : Machine × Result TransitionError ApprovedTransition → Type 0)
      → ((m' : Machine) (t : ApprovedTransition) → Landed m a m' t → R (m', ok t))
      → ((e : TransitionError) → is_state_transition_error e ≡ true → R (m, err e))
      → R (apply_transition m a [] none)
  transition_rule R yes_ no_ =
      applied_verdict R _ refl (apply_transition-Verdict m a [] none valid) yes_ no_

  -- Its form under a `try`.
  pub attempt_rule :
      (Q : Step → Type 0) (success : Machine → ApprovedTransition → Step) (failure : Machine → Step)
      → ((m' : Machine) (t : ApprovedTransition) → Landed m a m' t → Q (success m' t))
      → Q (failure m)
      → Q (attempt_transition (apply_transition m a [] none) success failure)
  unfolding attempt_transition
  attempt_rule Q success failure yes_ no_ =
      transition_rule (λ p. Q (attempt_transition p success failure)) yes_ (λ e h. rw h no_)

-- The validator of a ready engine answers.
module _ (c : MachineConfig) (brief : brief_names c ≡ true) (Q : Step → Type 0) (m : Machine)
    (s : ConversationState) (a : AgentAction) (ctx : Context) (next : ValidationResult → Step) where
  pub validated_rule :
      ((v : ValidationResult) → validate c s a ctx ≡ ok v → Q (next v))
      → Q (given m (validated (validate c s a ctx)) next)
  unfolding given validated
  validated_rule k = let (v, h) = validate_returns c s a ctx brief in rw h (k v h)

  -- It allows, or it does not.
  pub allowed_rule :
      ((v : ValidationResult) → allows (validate c s a ctx) ≡ true → v.allowed ≡ true → Q (next v))
      → ((v : ValidationResult) → v.allowed ≡ false → Q (next v))
      → Q (given m (validated (validate c s a ctx)) next)
  allowed_rule yes_ no_ = validated_rule (λ v h. elim (Bool-cases v.allowed) [
    | inl allowed ↦ yes_ v (ap allows h ∙ allowed) allowed
    | inr refused_ ↦ no_ v refused_
  ])

module _ (t : Turn) where
  -- A result that moves answers.
  pub moves-Answers :
      (a : AgentAction) (context : Context) (m' : Machine) (tr : ApprovedTransition)
      (r : ConversationResult)
      → Consulted t r.updated_context a context
      → allows (validate t.engine.validator t.engine.machine.current_state a context) ≡ true
      → Landed t.engine.machine a m' tr
      → r.next_state ≡ tr.to_state
      → r.is_terminal ≡ is_terminal m'
      → r.continues ≡ not r.is_terminal
      → r.terminal_states ≡ m'.config.terminal_states
      → r.approved_action ≡ some a
      → r.outcome ≡ tr.outcome
      → r.execution_required ≡ true
      → Recalls r.updated_context
      → Answers t (m', new_result r)
  unfolding is_terminal
  moves-Answers a context m' tr r consulted allowed l next ends goes states approved outcome
        required recalls =
      (
        r,
        new_result-ok r goes (
            ap (λ ss. member r.next_state ss) states
            ∙ ap (λ s. member s m'.config.terminal_states) (next ∙ l.arrived)
            ∙ sym ends),
        record { next = next ∙ l.arrived; ends = ends; goes_on = goes },
        moves a context tr consulted allowed l.applied approved outcome required,
        recalls,
      )

  -- A result that stays answers.
  pub stays-Answers :
      (r : ConversationResult)
      → r.next_state ≡ t.engine.machine.current_state
      → r.is_terminal ≡ is_terminal t.engine.machine
      → r.continues ≡ not r.is_terminal
      → r.terminal_states ≡ t.engine.machine.config.terminal_states
      → r.approved_action ≡ none
      → r.execution_required ≡ false
      → Recalls r.updated_context
      → Answers t (t.engine.machine, new_result r)
  unfolding is_terminal
  stays-Answers r next ends goes states approved required recalls = (
    r,
    new_result-ok r goes (
        ap (λ ss. member r.next_state ss) states
        ∙ ap (λ s. member s t.engine.machine.config.terminal_states) next
        ∙ sym ends),
    record { next = next; ends = ends; goes_on = goes },
    stays refl approved required,
    recalls,
  )

  pub rejected_result-Answers :
      (context : ConversationContext) (validation : ValidationResult) (path : String)
      → is_terminal t.engine.machine ≡ false
      → Recalls context
      → Answers t (rejected_result t.engine.machine context validation path)
  unfolding rejected_result plain_result
  rejected_result-Answers context validation path open_ recalls =
      stays-Answers _ refl (sym open_) refl refl refl refl recalls

  -- What is caught where nothing was raised.
  pub caught-Answers :
      (failure : Machine → Step) (p : Step) → Answers t p → Answers t (catch_transition p failure)
  unfolding catch_transition
  caught-Answers failure (m', res) (r, h, agrees, does, recalls) =
      rw h (r, refl, agrees, does, recalls)
