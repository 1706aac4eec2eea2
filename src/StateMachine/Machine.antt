-- ===== src/StateMachine/Machine.antt =====
-- The machine of app/conversation/state_machine/machine.py and the transition result of
-- transitions.py. A method that mutates the machine returns the new one. The stack's top is its
-- head, where the source appends to the end of a list.
pub mod Verdict
pub mod Invariant
pub mod Detours
use call_forge.Prelude.{
  String, Bool, false, not, Option, none, some, List, [], ◌∷◌, Result, ok, err, raise_if, required,
  ◌>>=◌, ◌>>◌, ◌==◌, string_eq, is_some, member, lookup, has_key, if◌then◌else◌,
}
use call_forge.Vocabulary.{
  ConversationState, AgentAction, conversation_state_eq, agent_action_eq, to_state,
}
use call_forge.Context.{Context}
use call_forge.StateMachine.Config.{
  previous_state_sentinel, TransitionRule, StateDefinition, MachineConfig,
}

-- `StateTransitionError`, a constructor for each message; the last two stand for the `KeyError` and
-- `ValueError` of a lookup by state and of `ConversationState(target)`.
pub data TransitionError : Type 0 where
  unknown_initial terminal_initial from_terminal : ConversationState → TransitionError
  not_eligible rejected : AgentAction → ConversationState → TransitionError
  no_previous_state : TransitionError
  key_error : ConversationState → TransitionError
  value_error : String → TransitionError

pub record Machine : Type 0 where
  pub config : MachineConfig
  pub current_state : ConversationState
  pub state_stack : List ConversationState

pub record ApprovedTransition : Type 0 where
  pub action : AgentAction
  pub from_state : ConversationState
  pub to_state : ConversationState
  pub outcome : Option String
  pub preserved_interest : Bool
  pub was_detour_return : Bool

unfoldable pub is_terminal_outcome : ApprovedTransition → Bool
is_terminal_outcome t = is_some t.outcome

-- `initial_state or config.initial_state`
start_state : Option ConversationState → ConversationState → ConversationState
start_state none default = default
start_state (some state) default = state

unfoldable pub new_machine :
    MachineConfig → Option ConversationState → Result TransitionError Machine
unfolding start_state
new_machine config initial_state = do
  let start = start_state initial_state config.initial_state
  raise_if (not (has_key start config.states)) (unknown_initial start)
  raise_if (member start config.terminal_states) (terminal_initial start)
  ok (record { config = config; current_state = start; state_stack = [] })

unfoldable pub is_terminal : Machine → Bool
is_terminal m = member m.current_state m.config.terminal_states

-- `config.states[state]`
state_definition : MachineConfig → ConversationState → Result TransitionError StateDefinition
state_definition config state = required (key_error state) (lookup state config.states)

unfoldable pub available_actions : Machine → Result TransitionError (List AgentAction)
unfolding state_definition
available_actions m = do
  state_def ← state_definition m.config m.current_state
  ok state_def.allowed_actions

unfoldable pub get_state_requirements :
    Machine → Option ConversationState → Result TransitionError (List String)
unfolding state_definition start_state
get_state_requirements m state = do
  state_def ← state_definition m.config (start_state state m.current_state)
  ok state_def.requires

unfoldable pub is_transition_eligible : Machine → AgentAction → Result TransitionError Bool
unfolding state_definition
is_transition_eligible m action = do
  state_def ← state_definition m.config m.current_state
  ok (has_key action state_def.transitions)

previous_state : List ConversationState → Result TransitionError ConversationState
previous_state [] = err no_previous_state
previous_state (state ∷ rest) = ok state

-- `_resolve_target`
resolve_target : Machine → TransitionRule → Result TransitionError ConversationState
unfolding previous_state
resolve_target m rule =
    if rule.target == previous_state_sentinel
    then previous_state m.state_stack
    else required (value_error rule.target) (to_state rule.target)

abbrev pub TransitionValidator : Type 0
TransitionValidator = TransitionRule → Context → Bool

rejects : Option TransitionValidator → TransitionRule → Context → Bool
rejects none rule context = false
rejects (some validator) rule context = not (validator rule context)

-- The part of `apply_transition` that may raise: the rule that applies and its target.
authorize :
    Machine
    → AgentAction
    → Context
    → Option TransitionValidator
    → Result TransitionError (TransitionRule × ConversationState)
unfolding is_terminal state_definition rejects resolve_target
authorize m action context validator = do
  raise_if (is_terminal m) (from_terminal m.current_state)
  state_def ← state_definition m.config m.current_state
  rule ← required (not_eligible action m.current_state) (lookup action state_def.transitions)
  raise_if (rejects validator rule context) (rejected action m.current_state)
  target ← resolve_target m rule
  ok (rule, target)

pop : List ConversationState → List ConversationState
pop [] = []
pop (state ∷ rest) = rest

enters_detour : Option StateDefinition → Bool
enters_detour none = false
enters_detour (some state_def) = state_def.is_detour

-- The part that mutates: the detour stack and the current state.
commit : Machine → TransitionRule → ConversationState → Machine
unfolding pop enters_detour
commit m rule target = record m {
  current_state = target;
  state_stack =
      if rule.target == previous_state_sentinel
      then pop m.state_stack
      else if enters_detour (lookup target m.config.states)
      then m.current_state ∷ m.state_stack
      else m.state_stack;
}

approve : Machine → AgentAction → TransitionRule → ConversationState → ApprovedTransition
approve m action rule target = record {
  action = action;
  from_state = m.current_state;
  to_state = target;
  outcome = rule.outcome;
  preserved_interest = rule.preserve_interest;
  was_detour_return = rule.target == previous_state_sentinel;
}

finish :
    Machine
    → AgentAction
    → Result TransitionError (TransitionRule × ConversationState)
    → Machine × Result TransitionError ApprovedTransition
unfolding commit approve
finish m action (ok (rule, target)) = (commit m rule target, ok (approve m action rule target))
finish m action (err e) = (m, err e)

unfoldable pub apply_transition :
    Machine
    → AgentAction
    → Context
    → Option TransitionValidator
    → Machine × Result TransitionError ApprovedTransition
unfolding authorize finish
apply_transition m action context validator = finish m action (authorize m action context validator)
