-- ===== src/Shipped/Safety.antt =====
-- What the shipped configuration guarantees of a do-not-call request.
use mathlib.Core.Bool.{false≢true}
use mathlib.Core.Path.{subst}
use call_forge.Prelude.{
  true, false, ◌≡◌, refl, sym, ◌∙◌, Option, none, some, some_injective, List, [], ok, inl, inr,
  lookup, has_key, member, string_eq,
}
use call_forge.Contracts.{ValidationCategory, ValidationResult, allows, rejected, category_value}
use call_forge.Guardrails.Validation.Total.{short_conflict}
use call_forge.Guardrails.Fallbacks.{FallbackEngine, new_engine, select}
use call_forge.Vocabulary.{
  end_call, ConversationState, AgentAction, mark_dnc, conversation_state_eq, agent_action_eq,
  ConversationState-discrete, AgentAction-discrete, to_state,
}
use call_forge.Context.{Context, is_true}
use call_forge.StateMachine.Config.{FallbackConfig, TransitionRule, StateDefinition}
use call_forge.StateMachine.Load.Guarantee.{load_config-IsWellFormed}
use call_forge.StateMachine.WellFormed.{IsWellFormed}
use call_forge.StateMachine.Machine.{Machine, apply_transition}
use call_forge.Guardrails.Validation.{validate, is_terminating, conflict_reason}
use call_forge.Guardrails.Validation.Exact.{IsPermitted, validate_exact}
use call_forge.Shipped.{shipped_document, shipped_config, shipped_loads}

pub shipped-IsWellFormed : IsWellFormed shipped_config
shipped-IsWellFormed = load_config-IsWellFormed (some shipped_document) shipped_loads

-- The rule for MARK_DNC in a state.
record DncRule (s : ConversationState) : Type 0 where
  definition : StateDefinition
  here : lookup s shipped_config.states ≡ some definition
  rule : TransitionRule
  found : lookup mark_dnc definition.transitions ≡ some rule
  target : rule.target ≡ "end_call"
  outcome : rule.outcome ≡ some "do_not_call"
  free : rule.requires ≡ []

dnc_rule :
    (s : ConversationState)
    → has_key s shipped_config.states ≡ true
    → member s shipped_config.terminal_states ≡ false
    → DncRule s
unfolding shipped_config lookup has_key member
dnc_rule ConversationState.check_history d o = absurd (false≢true d)
dnc_rule ConversationState.end_call d o = absurd (false≢true (sym o))
dnc_rule _ d o = record {
  definition = _;
  here = refl;
  rule = _;
  found = refl;
  target = refl;
  outcome = refl;
  free = refl;
}

-- A machine on the shipped configuration.
abbrev pub machine_at : ConversationState → List ConversationState → Machine
machine_at s stack = record { config = shipped_config; current_state = s; state_stack = stack }

dnc-IsPermitted :
    (s : ConversationState) (context : Context)
    → DncRule s
    → IsPermitted shipped_config s mark_dnc context
unfolding is_terminating AgentAction-discrete
dnc-IsPermitted s context d = record {
  respects_dnc = inr refl;
  definition = d.definition;
  here = d.here;
  entered = inl refl;
  rule = d.rule;
  found = d.found;
  prepared = rw d.free tt;
}

dnc_ends :
    (s : ConversationState) (stack : List ConversationState) (context : Context)
    → has_key s shipped_config.states ≡ true
    → member s shipped_config.terminal_states ≡ false
    → apply_transition (machine_at s stack) mark_dnc context none ≡ (
      machine_at end_call stack,
      ok (record {
        action = mark_dnc;
        from_state = s;
        to_state = end_call;
        outcome = some "do_not_call";
        preserved_interest = false;
        was_detour_return = false;
      }),
    )
unfolding shipped_config lookup has_key member apply_transition ConversationState-discrete
    AgentAction-discrete to_state
dnc_ends ConversationState.check_history stack context d o = absurd (false≢true d)
dnc_ends ConversationState.end_call stack context d o = absurd (false≢true (sym o))
dnc_ends _ stack context d o = refl

-- On the shipped configuration a do-not-call request is always honoured: in every defined state that
-- is not terminal, whatever the context and the detour stack, the validator allows MARK_DNC, and
-- applying it with no hook moves to END_CALL with the outcome do_not_call.
pub dnc_always_honoured :
    (s : ConversationState) (stack : List ConversationState) (context : Context)
    → has_key s shipped_config.states ≡ true
    → member s shipped_config.terminal_states ≡ false
    → (allows (validate shipped_config s mark_dnc context) ≡ true)
      × (apply_transition (machine_at s stack) mark_dnc context none ≡ (
        machine_at end_call stack,
        ok (record {
          action = mark_dnc;
          from_state = s;
          to_state = end_call;
          outcome = some "do_not_call";
          preserved_interest = false;
          was_detour_return = false;
        }),
      ))
dnc_always_honoured s stack context d o = (
  (validate_exact shipped_config s mark_dnc context).1 (dnc-IsPermitted s context (dnc_rule s d o)),
  dnc_ends s stack context d o,
)

-- The engine of the shipped fallbacks.
shipped_fallbacks : Option FallbackConfig → FallbackConfig
shipped_fallbacks none = record {
  by_state = [];
  by_category = [];
  default = record { action = end_call; response_key = "" };
}
shipped_fallbacks (some f) = f

pub shipped_engine : FallbackEngine
unfolding shipped_fallbacks
shipped_engine = record {
  config = shipped_config;
  fallbacks = shipped_fallbacks shipped_config.fallbacks;
}

pub shipped_engine_built : new_engine shipped_config ≡ some shipped_engine
unfolding shipped_config shipped_engine new_engine
shipped_engine_built = refl

abbrev Recovers : ConversationState → AgentAction → Context → FallbackEngine → Type 0
Recovers s a context e =
    (r : ValidationResult) × (validate shipped_config s a context ≡ ok r)
    × (r.category ≡ ValidationCategory.dnc_conflict)
    × ((select e s r none).action ≡ mark_dnc)
    × ((select e s r none).is_terminal ≡ true)

-- The answer to a conflict with a pending request.
abbrev conflict : AgentAction → ValidationResult
conflict a = record {
  allowed = false;
  category = ValidationCategory.dnc_conflict;
  reason = some (conflict_reason a);
  from_deterministic_rule = true;
}

conflicts :
    (s : ConversationState) (a : AgentAction) (context : Context)
    → is_true context "dnc_pending" ≡ true
    → is_terminating a ≡ false
    → validate shipped_config s a context ≡ ok (conflict a)
unfolding validate rejected
conflicts s a context pending other = rw pending (rw other (rw (short_conflict a) refl))

selects_dnc :
    (s : ConversationState) (a : AgentAction)
    → member s shipped_config.terminal_states ≡ false
    → let d = select shipped_engine s (conflict a) none in
      (d.action ≡ mark_dnc) × (d.is_terminal ≡ true)
unfolding select shipped_engine shipped_config category_value lookup AgentAction-discrete
selects_dnc s a o = (rw o refl, rw o refl)

shipped-Recovers :
    (s : ConversationState) (a : AgentAction) (context : Context)
    → member s shipped_config.terminal_states ≡ false
    → is_true context "dnc_pending" ≡ true
    → is_terminating a ≡ false
    → Recovers s a context shipped_engine
shipped-Recovers s a context o pending other =
    let (action, ends) = selects_dnc s a o in
    (conflict a, conflicts s a context pending other, refl, action, ends)

-- On the shipped configuration, in a state that is not terminal and while a do-not-call request is
-- pending, every other action than MARK_DNC and END_CALL is rejected as a conflict, and the fallback
-- engine recovers from that by MARK_DNC, marked terminal.
pub dnc_conflict_recovers :
    (e : FallbackEngine) (s : ConversationState) (a : AgentAction) (context : Context)
    → new_engine shipped_config ≡ some e
    → member s shipped_config.terminal_states ≡ false
    → is_true context "dnc_pending" ≡ true
    → is_terminating a ≡ false
    → (r : ValidationResult) × (validate shipped_config s a context ≡ ok r)
      × (r.category ≡ ValidationCategory.dnc_conflict)
      × ((select e s r none).action ≡ mark_dnc)
      × ((select e s r none).is_terminal ≡ true)
dnc_conflict_recovers e s a context built o pending other =
    subst (Recovers s a context)
      (some_injective shipped_engine e (sym shipped_engine_built ∙ built))
      (shipped-Recovers s a context o pending other)
