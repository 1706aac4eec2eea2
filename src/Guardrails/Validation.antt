-- ===== src/Guardrails/Validation.antt =====
-- app/conversation/guardrails/action_validator.py. An early `return` of a rejection is an error of
-- the checks, which `settle` turns into the answer; the answer itself may raise, where a reason is too
-- long.
pub mod Exact
pub mod Hook
pub mod Total
use Prim.Native.String
use call_forge.Prelude.{
  String, Bool, true, false, not, ◌&&◌, ◌||◌, Option, none, some, List, [], ◌∷◌, Result, ok, err,
  raise_if, required, ◌>>=◌, ◌>>◌, ◌==◌, string_eq, lookup, if◌then◌else◌,
}
use call_forge.Vocabulary.{
  ConversationState, AgentAction, mark_dnc, end_call, conversation_state_eq, agent_action_eq,
  state_value, action_value,
}
use call_forge.Context.{Context, is_true, has_nonempty}
use call_forge.Contracts.{ValidationCategory, ValidationResult, ContractError, accepted, rejected}
use call_forge.StateMachine.Config.{TransitionRule, StateDefinition, MachineConfig}

abbrev pub PrerequisitePredicate : Type 0
PrerequisitePredicate = Context → Bool

-- `_PREREQUISITES`
unfoldable pub prerequisites : List (String × PrerequisitePredicate)
prerequisites =
    ("contact_candidate_exists", λ context. has_nonempty context "contact_candidate")
    ∷ ("contact_confirmed", λ context. is_true context "contact_confirmed")
    ∷ ("callback_context_exists", λ context. has_nonempty context "callback")
    ∷ ("previous_conversation_exists", λ context. is_true context "previous_conversation_exists")
    ∷ ("has_applicable_alternative", λ context. is_true context "has_applicable_alternative")
    ∷ []

abbrev Checks : Type 0
Checks = Result (Result ContractError ValidationResult) (Unit {0})

-- The reasons of the answers.
abbrev unknown_reason : String → String
unknown_reason requirement = String.◌++◌ "unknown requirement: " requirement

abbrev missing_reason : String → String
missing_reason requirement = String.◌++◌ "missing prerequisite: " requirement

abbrev pub conflict_reason : AgentAction → String
conflict_reason action = String.◌++◌ (action_value action) " rejected: do-not-call is pending"

abbrev not_allowed_reason : AgentAction → ConversationState → String
not_allowed_reason action state =
    String.◌++◌ (action_value action) (String.◌++◌ " not allowed in " (state_value state))

-- One turn of a loop over `requires`: an unknown requirement, or one that is not met, is an answer.
check_requirement : Context → String → Checks
check_requirement context requirement = do
  predicate ←
      required (rejected ValidationCategory.unknown_requirement (unknown_reason requirement))
        (lookup requirement prerequisites)
  raise_if (not (predicate context))
      (rejected ValidationCategory.missing_prerequisite (missing_reason requirement))

check_requirements : Context → List String → Checks
unfolding check_requirement
check_requirements context [] = ok tt
check_requirements context (requirement ∷ rest) = do
  check_requirement context requirement
  check_requirements context rest

-- `action in (MARK_DNC, END_CALL)`
unfoldable pub is_terminating : AgentAction → Bool
is_terminating action = action == mark_dnc || action == end_call

-- The entry preconditions of the state, from which the terminating actions are exempt.
check_entry : Option StateDefinition → AgentAction → Context → Checks
check_entry none action context = ok tt
check_entry (some state_def) action context =
    if is_terminating action then ok tt else check_requirements context state_def.requires

find_rule : Option StateDefinition → AgentAction → Option TransitionRule
find_rule none action = none
find_rule (some state_def) action = lookup action state_def.transitions

settle : Checks → Result ContractError ValidationResult
settle (ok _) = ok accepted
settle (err answer) = answer

unfoldable pub validate :
    MachineConfig
    → ConversationState
    → AgentAction
    → Context
    → Result ContractError ValidationResult
unfolding settle check_entry find_rule check_requirements check_requirement
validate config state action context = settle (do
  raise_if (is_true context "dnc_pending" && not (is_terminating action))
      (rejected ValidationCategory.dnc_conflict (conflict_reason action))
  let state_def = lookup state config.states
  check_entry state_def action context
  rule ←
      required (rejected ValidationCategory.not_eligible (not_allowed_reason action state))
        (find_rule state_def action)
  check_requirements context rule.requires)

-- `ctx or context or {}`
effective : Context → Option Context → Context
effective [] none = []
effective [] (some context) = context
effective (entry ∷ ctx) context = entry ∷ ctx

holds : Option PrerequisitePredicate → Context → Bool
holds none context = false
holds (some predicate) context = predicate context

met : Context → String → Bool
unfolding holds
met context requirement = holds (lookup requirement prerequisites) context

pub all_met : Context → List String → Bool
unfolding met
all_met context [] = true
all_met context (requirement ∷ rest) = met context requirement && all_met context rest

-- The hook that `as_machine_hook` returns: the transition's own requirements only.
unfoldable pub as_machine_hook : Option Context → TransitionRule → Context → Bool
unfolding effective all_met
as_machine_hook context rule ctx = all_met (effective ctx context) rule.requires
