-- ===== src/StateMachine/Load.antt =====
-- `load_config` of app/conversation/state_machine/states.py: each check of the loader in its order,
-- an error as a value. The document is an argument, `none` where the file does not exist.
mod Sound
mod Checked
pub mod Guarantee
use Prim.Native.String
use call_forge.Prelude.{
  String, Bool, true, false, not, ◌&&◌, Option, none, some, List, [], ◌∷◌, ℤ, map, Result, ok, err,
  raise_if, required, ◌>>=◌, ◌>>◌, ◌==◌, string_eq, is_some, is_blank, member, distinct, lookup,
  insert, has_key, length, nat_eqb, if◌then◌else◌,
}
use call_forge.Vocabulary.{
  ConversationState, AgentAction, conversation_state_eq, agent_action_eq, to_state, to_action,
}
use call_forge.StateMachine.Config.{
  previous_state_sentinel, TransitionRule, StateDefinition, FallbackMapping, FallbackConfig,
  MachineConfig, RawRule, RawState, Scalar, RawMapping, RawFallbacks, RawConfig, ConfigurationError,
  file_not_found, no_states, duplicate_states, unknown_state, unknown_action, no_target,
  terminal_with_transitions, transition_not_allowed, missing_initial_state, initial_state_terminal,
  initial_state_undefined, undefined_target, outcome_without_terminal, retry_without_limit,
  mapping_incomplete, mapping_key_empty, fallback_unknown_state, fallback_not_allowed,
  missing_default,
}

abbrev pub Load : Type 0 → Type 0
Load = Result ConfigurationError

unfoldable pub coerce_state : String → Load ConversationState
coerce_state value = required (unknown_state value) (to_state value)

unfoldable pub coerce_action : String → Load AgentAction
coerce_action value = required (unknown_action value) (to_action value)

pub coerce_states : List String → Load (List ConversationState)
coerce_states [] = ok []
coerce_states (s ∷ rest) = do ok ((← coerce_state s) ∷ (← coerce_states rest))

coerce_actions : List String → Load (List AgentAction)
coerce_actions [] = ok []
coerce_actions (a ∷ rest) = do ok ((← coerce_action a) ∷ (← coerce_actions rest))

-- The target is the sentinel or the name of a state.
check_target : String → Load (Unit {0})
check_target target =
    if target == previous_state_sentinel then ok tt else (do coerce_state target; ok tt)

parse_rule : ConversationState → AgentAction → RawRule → Load TransitionRule
unfolding check_target
parse_rule state action body = do
  target ← required (no_target state action) body.to
  check_target target
  ok (record {
    action = action;
    target = target;
    outcome = body.outcome;
    requires = body.requires;
    retry_bucket = body.retry;
    preserve_interest = body.preserve_interest;
  })

abbrev Rules : Type 0
Rules = List (AgentAction × TransitionRule)

-- The loop over a state's transitions, with the dictionary built so far.
parse_transitions : ConversationState → List (String × RawRule) → Rules → Load Rules
unfolding parse_rule
parse_transitions state [] transitions = ok transitions
parse_transitions state ((key, body) ∷ rest) transitions = do
  action ← coerce_action key
  rule ← parse_rule state action body
  parse_transitions state rest (insert action rule transitions)

pub is_empty {ℓ} : {A : Type ℓ} → List A → Bool
is_empty [] = true
is_empty (x ∷ xs) = false

-- Every transition action is in the whitelist.
check_allowed : ConversationState → List AgentAction → Rules → Load (Unit {0})
check_allowed state allowed [] = ok tt
check_allowed state allowed ((action, rule) ∷ rest) = do
  raise_if (not (member action allowed)) (transition_not_allowed state action)
  check_allowed state allowed rest

-- The body of the loop over the states.
parse_state : List ConversationState → String → RawState → Load StateDefinition
unfolding is_empty coerce_actions parse_transitions check_allowed
parse_state terminal_states key body = do
  state ← coerce_state key
  allowed ← coerce_actions body.actions
  transitions ← parse_transitions state body.transitions []
  raise_if (member state terminal_states && not (is_empty transitions))
      (terminal_with_transitions state)
  check_allowed state allowed transitions
  ok (record {
    name = state;
    allowed_actions = allowed;
    transitions = transitions;
    requires = body.requires;
    is_detour = body.is_detour;
    is_terminal = member state terminal_states;
  })

abbrev pub States : Type 0
States = List (ConversationState × StateDefinition)

pub parse_states : List ConversationState → List (String × RawState) → States → Load States
unfolding parse_state
parse_states terminal_states [] states = ok states
parse_states terminal_states ((key, body) ∷ rest) states = do
  state_def ← parse_state terminal_states key body
  parse_states terminal_states rest (insert state_def.name state_def states)

-- The first cross-reference check of one rule: `continue` for the sentinel.
check_rule_target :
    List ConversationState → States → StateDefinition → TransitionRule → Load (Unit {0})
check_rule_target terminal_states states state_def rule =
    if rule.target == previous_state_sentinel then ok tt else (do
      target_state ← coerce_state rule.target
      raise_if (not (has_key target_state states)) (undefined_target state_def.name rule.target)
      raise_if (is_some rule.outcome && not (member target_state terminal_states))
          (outcome_without_terminal state_def.name rule.action))

check_targets : List ConversationState → States → StateDefinition → Rules → Load (Unit {0})
unfolding check_rule_target
check_targets terminal_states states state_def [] = ok tt
check_targets terminal_states states state_def ((action, rule) ∷ rest) = do
  check_rule_target terminal_states states state_def rule
  check_targets terminal_states states state_def rest

unfoldable pub limit_key : String → String
limit_key bucket = String.◌++◌ bucket "_max_attempts"

-- The bucket of a bounded retry has its limit.
check_bucket : List (String × ℤ) → Option String → Load (Unit {0})
unfolding limit_key
check_bucket limits none = ok tt
check_bucket limits (some bucket) =
    raise_if (not (has_key (limit_key bucket) limits)) (retry_without_limit bucket)

check_buckets : List (String × ℤ) → Rules → Load (Unit {0})
unfolding check_bucket
check_buckets limits [] = ok tt
check_buckets limits ((action, rule) ∷ rest) = do
  check_bucket limits rule.retry_bucket
  check_buckets limits rest

pub check_states : List ConversationState → List (String × ℤ) → States → States → Load (Unit {0})
unfolding check_targets check_buckets
check_states terminal_states limits states [] = ok tt
check_states terminal_states limits states ((state, state_def) ∷ rest) = do
  check_targets terminal_states states state_def state_def.transitions
  check_buckets limits state_def.transitions
  check_states terminal_states limits states rest

-- `_parse_mapping`: `where` names the entry in the message.
response_key_text : String → Scalar → Load String
response_key_text place (Scalar.text key) =
    if is_blank key then err (mapping_key_empty place) else ok key
response_key_text place Scalar.other = err (mapping_key_empty place)

parse_mapping : String → RawMapping → Load FallbackMapping
unfolding response_key_text
parse_mapping place body = do
  action_raw ← required (mapping_incomplete place) body.action
  key ← required (mapping_incomplete place) body.response_key
  response_key ← response_key_text place key
  action ← coerce_action action_raw
  ok (record { action = action; response_key = response_key })

abbrev pub StateMappings : Type 0
StateMappings = List (ConversationState × FallbackMapping)

-- A state's fallback names a defined state, and an action of its whitelist.
pub parse_by_state : States → List (String × RawMapping) → StateMappings → Load StateMappings
unfolding parse_mapping
parse_by_state states [] by_state = ok by_state
parse_by_state states ((key, body) ∷ rest) by_state = do
  state ← coerce_state key
  mapping ← parse_mapping (String.◌++◌ "by_state." key) body
  state_def ← required (fallback_unknown_state key) (lookup state states)
  raise_if (not (member mapping.action state_def.allowed_actions))
      (fallback_not_allowed mapping.action key)
  parse_by_state states rest (insert state mapping by_state)

abbrev CategoryMappings : Type 0
CategoryMappings = List (String × FallbackMapping)

parse_by_category : List (String × RawMapping) → CategoryMappings → Load CategoryMappings
unfolding parse_mapping
parse_by_category [] by_category = ok by_category
parse_by_category ((key, body) ∷ rest) by_category = do
  mapping ← parse_mapping (String.◌++◌ "by_category." key) body
  parse_by_category rest (insert key mapping by_category)

pub parse_fallbacks : States → RawFallbacks → Load FallbackConfig
unfolding parse_by_state parse_by_category
parse_fallbacks states raw = do
  by_state ← parse_by_state states raw.by_state []
  by_category ← parse_by_category raw.by_category []
  default_raw ← required missing_default raw.default
  default ← parse_mapping "default" default_raw
  ok (record { by_state = by_state; by_category = by_category; default = default })

pub parse_optional_fallbacks : States → Option RawFallbacks → Load (Option FallbackConfig)
unfolding parse_fallbacks
parse_optional_fallbacks states none = ok none
parse_optional_fallbacks states (some raw) = do ok (some (← parse_fallbacks states raw))

-- The keys of the states, counted twice: as read, and as a set of states.
pub check_duplicates : List (String × RawState) → Load (Unit {0})
check_duplicates states_raw = do
  keys ← coerce_states (map (λ e. e.0) states_raw)
  raise_if (not (nat_eqb (length states_raw) (length (distinct keys)))) duplicate_states

pub load_document : RawConfig → Load MachineConfig
unfolding coerce_states is_empty check_duplicates parse_states check_states parse_optional_fallbacks
load_document raw = do
  terminal_states ← coerce_states raw.terminal_states
  raise_if (is_empty raw.states) no_states
  check_duplicates raw.states
  states ← parse_states terminal_states raw.states []
  initial_raw ← required missing_initial_state raw.initial_state
  initial_state ← coerce_state initial_raw
  raise_if (not (has_key initial_state states)) (initial_state_undefined initial_state)
  raise_if (member initial_state terminal_states) initial_state_terminal
  check_states terminal_states raw.limits states states
  fallbacks ← parse_optional_fallbacks states raw.fallbacks
  ok (record {
    initial_state = initial_state;
    states = states;
    terminal_states = terminal_states;
    limits = raw.limits;
    fallbacks = fallbacks;
  })

unfoldable pub load_config : Option RawConfig → Load MachineConfig
unfolding load_document
load_config none = err file_not_found
load_config (some raw) = load_document raw
