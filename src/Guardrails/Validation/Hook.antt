-- ===== src/Guardrails/Validation/Hook.antt =====
-- The validator and the machine agree on an action.
use mathlib.Core.Bool.{false≢true}
use mathlib.Core.Path.{subst}
use call_forge.Prelude.{
  true, false, ◌≡◌, ◌⊎◌, inl, inr, refl, sym, ◌∙◌, some, [], ◌∷◌, Result, ok, err, member,
}
use call_forge.Vocabulary.{AgentAction, conversation_state_eq, agent_action_eq}
use call_forge.Context.{Context}
use call_forge.Contracts.{allows}
use call_forge.StateMachine.Config.{TransitionRule}
use call_forge.StateMachine.Machine.{
  TransitionError, no_previous_state, Machine, ApprovedTransition, is_terminal, apply_transition,
}
use call_forge.StateMachine.Machine.Verdict.{
  IsValid, HasRule, Verdict, terminal, ineligible, refused, nowhere_to_return, returned, moved,
  apply_transition-Verdict,
}
use call_forge.Guardrails.Validation.{validate, effective, all_met, as_machine_hook}
use call_forge.Guardrails.Validation.Exact.{IsPermitted, all_met_complete, validate_exact}

effective_self : (context : Context) → effective context (some context) ≡ context
unfolding effective
effective_self [] = refl
effective_self (entry ∷ context) = refl

-- The call succeeded, or asked for a return with nothing to return to.
abbrev pub Applies : Result TransitionError ApprovedTransition → Type 0
Applies r = ((t : ApprovedTransition) × (r ≡ ok t)) ⊎ (r ≡ err no_previous_state)

module _ (m : Machine) (a : AgentAction) (context : Context) where
  same_rule :
      (p : IsPermitted m.config m.current_state a context) (r : TransitionRule)
      → HasRule m a r
      → p.rule ≡ r
  same_rule p r has = cc (has.here, p.here, has.found, p.found)

  hook_accepts :
      (p : IsPermitted m.config m.current_state a context) (r : TransitionRule)
      → HasRule m a r
      → as_machine_hook (some context) r context ≡ true
  unfolding as_machine_hook
  hook_accepts p r has = rw effective_self (
      subst (λ q. all_met context q.requires ≡ true) (same_rule p r has)
        (all_met_complete context p.rule.requires p.prepared))

  Verdict-Applies :
      (p : Machine × Result TransitionError ApprovedTransition)
      → member m.current_state m.config.terminal_states ≡ false
      → IsPermitted m.config m.current_state a context
      → Verdict m a context (some (as_machine_hook (some context))) p
      → Applies p.1
  Verdict-Applies p open_ permit (terminal closed) = absurd (false≢true (sym open_ ∙ closed))
  Verdict-Applies p open_ permit (ineligible d _ here missing) =
      cc (here, permit.here, missing, permit.found)
  Verdict-Applies p open_ permit (refused r has refuses) =
      absurd (false≢true (sym refuses ∙ hook_accepts permit r has))
  Verdict-Applies p open_ permit (nowhere_to_return _ _ _ _ _) = inr refl
  Verdict-Applies p open_ permit (returned _ _ _ _ _ _ _) = inl (_, refl)
  Verdict-Applies p open_ permit (moved _ _ _ _ _ _ _ _ _) = inl (_, refl)

-- On a valid machine in a state that is not terminal, an action that the validator allows there
-- passes the machine's own check with the hook made of the same context: the machine moves, or else
-- the rule returns to the previous state and there is none.
pub validated_action-Applies :
    (m : Machine) (a : AgentAction) (context : Context)
    → IsValid m
    → is_terminal m ≡ false
    → allows (validate m.config m.current_state a context) ≡ true
    → Applies (apply_transition m a context (some (as_machine_hook (some context)))).1
unfolding is_terminal
validated_action-Applies m a context valid open_ h =
    Verdict-Applies m a context _ open_ ((validate_exact m.config m.current_state a context).0 h)
      (apply_transition-Verdict m a context (some (as_machine_hook (some context))) valid)
