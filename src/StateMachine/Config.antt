-- ===== src/StateMachine/Config.antt =====
-- The configuration types of app/conversation/state_machine/states.py, and the shape of the parsed
-- YAML document that the loader reads. A key that is missing from the document and one that is null
-- or empty are one value where the loader treats them alike (`body or {}`, `.get(key, [])`).
use call_forge.Prelude.{ℤ, String, Bool, Option, List}
use call_forge.Vocabulary.{ConversationState, AgentAction}

abbrev pub previous_state_sentinel : String
previous_state_sentinel = "__previous__"

pub record TransitionRule : Type 0 where
  pub action : AgentAction
  pub target : String
  pub outcome : Option String
  pub requires : List String
  pub retry_bucket : Option String
  pub preserve_interest : Bool

pub record StateDefinition : Type 0 where
  pub name : ConversationState
  pub allowed_actions : List AgentAction
  pub transitions : List (AgentAction × TransitionRule)
  pub requires : List String
  pub is_detour : Bool
  pub is_terminal : Bool

pub record FallbackMapping : Type 0 where
  pub action : AgentAction
  pub response_key : String

pub record FallbackConfig : Type 0 where
  pub by_state : List (ConversationState × FallbackMapping)
  pub by_category : List (String × FallbackMapping)
  pub default : FallbackMapping

pub record MachineConfig : Type 0 where
  pub initial_state : ConversationState
  pub states : List (ConversationState × StateDefinition)
  pub terminal_states : List ConversationState
  pub limits : List (String × ℤ)
  pub fallbacks : Option FallbackConfig

-- A transition's body in the document.
pub record RawRule : Type 0 where
  pub to : Option String
  pub outcome : Option String
  pub requires : List String
  pub retry : Option String
  pub preserve_interest : Bool

-- A state's body in the document.
pub record RawState : Type 0 where
  pub actions : List String
  pub requires : List String
  pub is_detour : Bool
  pub transitions : List (String × RawRule)

-- A scalar of the document: a text, or a value of another type.
pub data Scalar : Type 0 where
  text : String → Scalar
  other : Scalar

pub record RawMapping : Type 0 where
  pub action : Option String
  pub response_key : Option Scalar

-- `default` is `none` where the document has none or an empty one.
pub record RawFallbacks : Type 0 where
  pub by_state : List (String × RawMapping)
  pub by_category : List (String × RawMapping)
  pub default : Option RawMapping

-- `fallbacks` is `none` where the document has none or an empty one.
pub record RawConfig : Type 0 where
  pub initial_state : Option String
  pub terminal_states : List String
  pub states : List (String × RawState)
  pub limits : List (String × ℤ)
  pub fallbacks : Option RawFallbacks

-- `ConfigurationError`, a constructor for each message.
pub data ConfigurationError : Type 0 where
  file_not_found no_states duplicate_states : ConfigurationError
  unknown_state unknown_action : String → ConfigurationError
  no_target : ConversationState → AgentAction → ConfigurationError
  terminal_with_transitions : ConversationState → ConfigurationError
  transition_not_allowed : ConversationState → AgentAction → ConfigurationError
  missing_initial_state initial_state_terminal : ConfigurationError
  initial_state_undefined : ConversationState → ConfigurationError
  undefined_target : ConversationState → String → ConfigurationError
  outcome_without_terminal : ConversationState → AgentAction → ConfigurationError
  retry_without_limit : String → ConfigurationError
  mapping_incomplete mapping_key_empty : String → ConfigurationError
  fallback_unknown_state : String → ConfigurationError
  fallback_not_allowed : AgentAction → String → ConfigurationError
  missing_default : ConfigurationError
