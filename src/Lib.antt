-- ===== src/Lib.antt =====
-- The decision core of the outbound-call agent, modelled from app/.
--
-- A call is a conversation whose next step a language model proposes and deterministic code decides.
-- A proposal passes the trusted priority outcomes, the action validator and the state machine; a
-- rejected one is replaced by a fallback, an unclear contact value by a clarification. Around it,
-- the policies for scope, authority and budget bound what may be said and done, and the campaign
-- queue decides which lead is called. All of this is driven by configuration that is loaded once and
-- checked at startup.
--
-- The program's parts and their files:
--   Vocabulary        app/core/constants.py: the enums ConversationState, AgentAction,
--                     TopicCategory and CommercialRequestKind, their values and `Enum(value)`.
--   Context           the context that guardrails read, and `_is_true` and `_has_nonempty` of
--                     app/conversation/guardrails/action_validator.py.
--   Contracts         app/contracts/validation.py: ValidationCategory and ValidationResult with
--                     the limit of its reason.
--   StateMachine      app/conversation/state_machine/. Config has the records of states.py and the
--                     parsed document; Load has load_config, a function for each of its loops and
--                     checks; Machine has machine.py and transitions.py, where a method that
--                     mutates the machine returns the new machine beside its result. WellFormed
--                     says what a loaded configuration is; the modules under Load, and Verdict,
--                     Invariant and Detours under Machine, hold the proofs.
--   Guardrails        app/conversation/guardrails/. Validation has ActionValidator with its hook for
--                     the machine, and in Total says when it answers, Priority resolve_priority_action,
--                     Fallbacks FallbackEngine, and Clarification ClarificationEngine.
--   Engine            app/conversation/engine.py. Contracts has the records of the contexts, contact
--                     understandings and results; Results, Recover, Contact and Turn have the methods
--                     of ConversationEngine, a function for each; the modules under Answers hold the
--                     proofs about turns, conversations and the do-not-call request (Readings says in
--                     which context a turn consults the validator), Persistence those
--                     about contacts that are kept.
--   Shipped           app/config/conversation_config.yaml, written out as a document and loaded by
--                     the model's own load_config.
--   Runtime           app/runtime/: Contracts has the records of contracts.py, and the interruption of
--                     app/conversation/response_planning/contracts.py; Session, Turn and Coordinator
--                     have TurnCoordinator of turn_coordinator.py, a function for each method; the
--                     modules under Coordinator hold the proofs about single events and whole calls.
--                     Chat has chat/: the sessions, their repository and ChatRuntime.
--   Campaign          app/leads/campaign/. Contracts has the records of contracts.py, where a
--                     `new_` function is the constructor with its checks; Engine has
--                     CampaignQueueEngine.
--   Policy            app/brain/budget, app/brain/scope and app/brain/authority: in each the loader
--                     of models.py and the evaluator or validator.
--   Prelude           numbers, tests, keyed lists, strings and the result type that all share.
--   Examples          the theorems at concrete inputs.
--
-- How the parts meet. The engine's turn asks the priority resolver first, then the contact or the
-- offer path where they apply, and else validates the proposed action; what is allowed is applied to
-- the machine, what is rejected goes to the fallbacks, whose action is validated again. The contact
-- resolver and the offering service are given to the engine as functions, `none` where one raises. The
-- validator, the machine and the fallbacks read one MachineConfig. The
-- machine's hook is `as_machine_hook` of the validator, a plain argument of apply_transition. The
-- fallbacks answer a ValidationResult of the validator. The campaign and the policies stand by
-- themselves: a caller that is not modelled consults them. The coordinator gives each final utterance
-- to a turn processor, which is a parameter of its functions: a function of a state of its own and a
-- turn, that answers `none` where it raises. A method of the coordinator returns it as it leaves it
-- beside the result or what was raised, so that a raise keeps what was changed before it.
--
-- Conventions. An exception is an `err` of Prelude/Raise.antt with a constructor for each raise; its
-- message is left out where nothing reads it. A dict is an association list without repeated keys,
-- on which assignment is `insert`; a frozenset is a list that is only asked for its members. A
-- number that the source does not check is an integer of either sign; one that a constructor checks
-- to be no less than 0 is natural, or an integer where that check is part of the model. Python's
-- integers have no bound, so none wraps. A context value is
-- one of None, a bool, a string and any other object, of which only its truth is kept. Strings are
-- native; `str.strip` is read off the code points that are white space. Every loop of the
-- modelled code runs over a list, and is structural recursion; only the digits of a number that is
-- printed are taken on fuel, the number n itself: from 1 on it has at most n digits, and the last digit
-- needs no fuel.
--
-- Not modelled: the YAML parser and the file system, whose result is the argument of a loader (`none`
-- for a missing file), and with them the errors that Python raises on a document of another shape;
-- floats of the authority policy, which are a parameter type with its `<=`, and the text of the
-- reason of an authority result, which prints them; Enum members that no modelled part uses; what the
-- coordinator does not read of response plans; of the chat runtime the deletion, the listings,
-- run_scenario and the diagnostics; the contact resolver and the offering service, which are parameters
-- of the engine; the brain orchestrator, participants, escalation, repositories, the lead import, the
-- catalog and the text heuristics of app/conversation; adapters, services and the API, which are input
-- and output.
pub mod Prelude
pub mod Vocabulary
pub mod Context
pub mod Engine
pub mod Contracts
pub mod StateMachine
pub mod Guardrails
pub mod Shipped
pub mod Campaign
pub mod Policy
pub mod Runtime
mod Examples
