-- ===== src/StateMachine/WellFormed.antt =====
-- What a configuration promises to the machine that runs on it.
use call_forge.Prelude.{
  String, ℤ, true, false, ◌≡◌, ◌⊎◌, Option, none, some, List, [], is_some, member, has_key, lookup,
  AllEntries, string_eq,
}
use call_forge.Vocabulary.{
  ConversationState, AgentAction, conversation_state_eq, agent_action_eq, to_state,
}
use call_forge.StateMachine.Config.{
  previous_state_sentinel, TransitionRule, StateDefinition, FallbackMapping, FallbackConfig,
  MachineConfig,
}
use call_forge.StateMachine.Load.{States, limit_key}

module _ (terminal_states : List ConversationState) (states : States) where
  -- A rule returns to the previous state, or names a defined state, which is terminal if the rule
  -- declares an outcome.
  abbrev pub TargetOk : TransitionRule → Type 0
  TargetOk rule =
      (rule.target ≡ previous_state_sentinel)
      ⊎ ((t : ConversationState) × (to_state rule.target ≡ some t)
          × (has_key t states ≡ true)
          × (is_some rule.outcome ≡ true → member t terminal_states ≡ true))

abbrev pub BucketOk : List (String × ℤ) → Option String → Type 0
BucketOk limits none = Unit
BucketOk limits (some bucket) = has_key (limit_key bucket) limits ≡ true

pub record IsRule (terminal_states : List ConversationState) (states : States)
    (limits : List (String × ℤ)) (d : StateDefinition) (a : AgentAction) (r : TransitionRule)
    : Type 0 where
  pub labelled : r.action ≡ a
  pub allowed : member a d.allowed_actions ≡ true
  pub target_ok : TargetOk terminal_states states r
  pub bucket_ok : BucketOk limits r.retry_bucket

pub record IsState (terminal_states : List ConversationState) (states : States)
    (limits : List (String × ℤ)) (s : ConversationState) (d : StateDefinition) : Type 0 where
  pub named : d.name ≡ s
  pub marked : d.is_terminal ≡ member s terminal_states
  pub closed : member s terminal_states ≡ true → d.transitions ≡ []
  pub rules : AllEntries (IsRule terminal_states states limits d) d.transitions

-- A state's fallback action stands in the whitelist of that state, which is defined.
pub record IsFallback (states : States) (s : ConversationState) (f : FallbackMapping) : Type 0 where
  pub definition : StateDefinition
  pub defined : lookup s states ≡ some definition
  pub allowed : member f.action definition.allowed_actions ≡ true

abbrev pub FallbacksOk : States → Option FallbackConfig → Type 0
FallbacksOk states none = Unit
FallbacksOk states (some f) = AllEntries (IsFallback states) f.by_state

pub record IsWellFormed (c : MachineConfig) : Type 0 where
  pub initial_defined : has_key c.initial_state c.states ≡ true
  pub initial_open : member c.initial_state c.terminal_states ≡ false
  pub states_ok : AllEntries (IsState c.terminal_states c.states c.limits) c.states
  pub fallbacks_ok : FallbacksOk c.states c.fallbacks
