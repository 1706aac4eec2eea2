-- ===== src/Guardrails/Fallbacks/Safe.antt =====
-- The decisions of the fallback engine on a configuration that the loader accepted.
use call_forge.Prelude.{
  String, true, false, ◌≡◌, inl, inr, refl, sym, Option, none, some, string_eq, member, lookup,
  Bool-cases, Option-cases, AllEntries-lookup, arith,
}
use mathlib.Core.Path.{subst}
use call_forge.Vocabulary.{ConversationState, end_call, conversation_state_eq, agent_action_eq}
use call_forge.Context.{Context}
use call_forge.Contracts.{ValidationCategory, ValidationResult, category_value}
use call_forge.StateMachine.Config.{StateDefinition, FallbackMapping, FallbackConfig, MachineConfig}
use call_forge.StateMachine.WellFormed.{IsWellFormed, IsFallback, FallbacksOk}
use call_forge.Guardrails.Fallbacks.{
  FallbackDecision, FallbackEngine, new_engine, with_fallbacks, select, select_for_state,
  terminal_safe, by_category_or_state, state_recovery, recovery, category_recovery,
}

-- The decision of a configured mapping.
abbrev FromMapping : FallbackMapping → FallbackDecision → Type 0
FromMapping f d = (d.action ≡ f.action) × (d.response_key ≡ f.response_key)

abbrev Uncategorised : FallbackEngine → Option String → Type 0
Uncategorised e none = Unit
Uncategorised e (some key) = lookup key e.fallbacks.by_category ≡ none

-- Where a decision may come from: the terminal safety net in a terminal state; the mapping of the
-- rejection's category; the state's own mapping, whose action is in the whitelist of the state; or
-- the default, if neither has one.
pub data Origin (e : FallbackEngine) (s : ConversationState) (category : Option String)
    (d : FallbackDecision) : Type 0 where
  closed :
      member s e.config.terminal_states ≡ true
      → d.action ≡ end_call
      → d.is_terminal ≡ true
      → Origin e s category d
  categorised :
      (key : String) (f : FallbackMapping)
      → member s e.config.terminal_states ≡ false
      → category ≡ some key
      → lookup key e.fallbacks.by_category ≡ some f
      → FromMapping f d
      → Origin e s category d
  local :
      (f : FallbackMapping) (def : StateDefinition)
      → member s e.config.terminal_states ≡ false
      → Uncategorised e category
      → lookup s e.fallbacks.by_state ≡ some f
      → lookup s e.config.states ≡ some def
      → member f.action def.allowed_actions ≡ true
      → FromMapping f d
      → Origin e s category d
  defaulted :
      member s e.config.terminal_states ≡ false
      → Uncategorised e category
      → lookup s e.fallbacks.by_state ≡ none
      → FromMapping e.fallbacks.default d
      → Origin e s category d

-- The engine's fallbacks are those of its configuration.
pub record IsEngine (e : FallbackEngine) : Type 0 where
  pub well_formed : IsWellFormed e.config
  pub configured : e.config.fallbacks ≡ some e.fallbacks

with_fallbacks-eq :
    (c : MachineConfig) (f : Option FallbackConfig) (e : FallbackEngine)
    → with_fallbacks c f ≡ some e
    → (e.config ≡ c) × (some e.fallbacks ≡ f)
unfolding with_fallbacks
with_fallbacks-eq c none e h = cc
with_fallbacks-eq c (some f) e h = ground arith

new_engine-IsEngine :
    (c : MachineConfig) (e : FallbackEngine) → IsWellFormed c → new_engine c ≡ some e → IsEngine e
unfolding new_engine
new_engine-IsEngine c e w h =
    let (same, fallbacks) = with_fallbacks-eq c c.fallbacks e h in
    record { well_formed = subst IsWellFormed (sym same) w; configured = cc (same, fallbacks) }

module _ (e : FallbackEngine) (s : ConversationState) (valid : IsEngine e) where
  mapped-IsFallback :
      (f : FallbackMapping)
      → lookup s e.fallbacks.by_state ≡ some f
      → IsFallback e.config.states s f
  mapped-IsFallback f found =
      AllEntries-lookup (IsFallback e.config.states) s f e.fallbacks.by_state
        (subst (FallbacksOk e.config.states) valid.configured valid.well_formed.fallbacks_ok) found

  state_recovery-Origin :
      (category : Option String) (reason default_reason : String)
      → member s e.config.terminal_states ≡ false
      → Uncategorised e category
      → Origin e s category
          (state_recovery (lookup s e.fallbacks.by_state) e.fallbacks.default reason default_reason)
  unfolding state_recovery recovery
  state_recovery-Origin category reason default_reason open_ free =
      elim (Option-cases (lookup s e.fallbacks.by_state)) [
        | inl missing ↦ rw missing (defaulted open_ free missing (refl, refl))
        | inr (f, found) ↦
            let ok_ = mapped-IsFallback f found in
            rw found (local f ok_.definition open_ free found ok_.defined ok_.allowed (refl, refl))
      ]

  by_category_or_state-Origin :
      (category : ValidationCategory)
      → member s e.config.terminal_states ≡ false
      → Origin e s (some (category_value category)) (
          by_category_or_state e s category
            (lookup (category_value category) e.fallbacks.by_category))
  unfolding by_category_or_state category_recovery
  by_category_or_state-Origin category open_ =
      elim (Option-cases (lookup (category_value category) e.fallbacks.by_category)) [
        | inl missing ↦
            rw missing (state_recovery-Origin (some (category_value category)) _ _ open_ missing)
        | inr (f, found) ↦
            rw found (categorised (category_value category) f open_ refl found (refl, refl))
      ]

-- The engine built from a well-formed configuration recovers from a rejection as follows: in a
-- terminal state by END_CALL, marked terminal; else by the mapping of the rejection's category; else
-- by the mapping of the state, whose action is then in the whitelist of that state; else by the
-- default.
pub select-Origin :
    (c : MachineConfig) (e : FallbackEngine) (s : ConversationState) (result : ValidationResult)
    (context : Option Context)
    → IsWellFormed c
    → new_engine c ≡ some e
    → Origin e s (some (category_value result.category)) (select e s result context)
unfolding select terminal_safe
select-Origin c e s result context w built = elim (Bool-cases (member s e.config.terminal_states)) [
  | inl shut ↦ rw shut (closed shut refl refl)
  | inr open_ ↦
      rw open_
        (by_category_or_state-Origin e s (new_engine-IsEngine c e w built) result.category open_)
]

-- Without a rejection the engine of a well-formed configuration recovers by END_CALL in a terminal
-- state, else by the mapping of the state, an action of its whitelist, else by the default.
pub select_for_state-Origin :
    (c : MachineConfig) (e : FallbackEngine) (s : ConversationState) (reason : String)
    → IsWellFormed c
    → new_engine c ≡ some e
    → Origin e s none (select_for_state e s reason)
unfolding select_for_state terminal_safe
select_for_state-Origin c e s reason w built =
    elim (Bool-cases (member s e.config.terminal_states)) [
      | inl shut ↦ rw shut (closed shut refl refl)
      | inr open_ ↦
          rw open_ (
            state_recovery-Origin e s (new_engine-IsEngine c e w built) none reason reason open_ tt)
    ]
