-- ===== src/StateMachine/Machine/Detours.antt =====
-- Outcomes and detours: what a successful transition says of the machine that it leaves.
use text.Mathlib.TextEquality.{eq_iff}
use call_forge.Prelude.{
  String, true, false, ◌≡◌, refl, ap, ◌⊎◌, inl, inr, Option, none, some, List, ◌∷◌, arith, Result,
  ok, ◌==◌, string_eq, member, lookup, Bool-cases,
}
use call_forge.Vocabulary.{
  ConversationState, AgentAction, conversation_state_eq, agent_action_eq, to_state,
}
use call_forge.Context.{Context}
use call_forge.StateMachine.Config.{previous_state_sentinel, TransitionRule, StateDefinition}
use call_forge.StateMachine.Machine.{
  TransitionError, Machine, ApprovedTransition, TransitionValidator, is_terminal,
  is_terminal_outcome, apply_transition, authorize, resolve_target, rejects, state_definition,
  finish, commit, approve, enters_detour, pop, previous_state,
}
use call_forge.StateMachine.Machine.Verdict.{
  IsValid, HasRule, Accepts, Verdict, terminal, ineligible, refused, nowhere_to_return, returned,
  moved, apply_transition-Verdict,
}

module _ (m : Machine) (a : AgentAction) (context : Context) (v : Option TransitionValidator) where
  Verdict-outcome :
      (p : Machine × Result TransitionError ApprovedTransition) (t : ApprovedTransition)
      → p.1 ≡ ok t
      → is_terminal_outcome t ≡ true
      → Verdict m a context v p
      → (t.was_detour_return ≡ true) ⊎ (is_terminal p.0 ≡ true)
  unfolding is_terminal is_terminal_outcome
  Verdict-outcome p t h o (terminal _) = cc
  Verdict-outcome p t h o (ineligible _ _ _ _) = cc
  Verdict-outcome p t h o (refused _ _ _) = cc
  Verdict-outcome p t h o (nowhere_to_return _ _ _ _ _) = cc
  Verdict-outcome p t h o (returned r s rest has acc back stack) = inl (ground arith)
  Verdict-outcome p t h o (moved r s d has acc fwd parsed found outcome) =
      inr (outcome (ground arith))

-- On a valid machine a successful transition that carries an outcome ends the conversation: the
-- machine is in a terminal state afterwards, unless the transition was a return from a detour.
pub apply_transition_outcome :
    (m : Machine) (a : AgentAction) (context : Context) (v : Option TransitionValidator)
    (t : ApprovedTransition)
    → IsValid m
    → (apply_transition m a context v).1 ≡ ok t
    → is_terminal_outcome t ≡ true
    → (t.was_detour_return ≡ true) ⊎ (is_terminal (apply_transition m a context v).0 ≡ true)
apply_transition_outcome m a context v t valid h o =
    Verdict-outcome m a context v (apply_transition m a context v) t h o
      (apply_transition-Verdict m a context v valid)

to_state-sentinel : to_state previous_state_sentinel ≡ none
unfolding to_state
to_state-sentinel = refl

accepted :
    (v : Option TransitionValidator) (r : TransitionRule) (context : Context)
    → Accepts v r context
    → rejects v r context ≡ false
unfolding rejects
accepted none r context h = refl
accepted (some f) r context h = rw h

not_sentinel :
    (target : String) {t : ConversationState}
    → to_state target ≡ some t
    → (target == previous_state_sentinel) ≡ false
not_sentinel target h = elim (Bool-cases (target == previous_state_sentinel)) [
  | inl same ↦ cc (ap to_state ((eq_iff target previous_state_sentinel).0 same), to_state-sentinel)
  | inr other ↦ other
]

-- Entering a detour: the state changes and the state that was left is pushed.
pub enter_detour :
    (m : Machine) (a : AgentAction) (context : Context) (v : Option TransitionValidator)
    (r : TransitionRule) (t : ConversationState) (d : StateDefinition)
    → HasRule m a r
    → Accepts v r context
    → to_state r.target ≡ some t
    → lookup t m.config.states ≡ some d
    → d.is_detour ≡ true
    → (apply_transition m a context v).0
      ≡ record m { current_state = t; state_stack = m.current_state ∷ m.state_stack }
unfolding apply_transition authorize finish commit approve resolve_target state_definition
    is_terminal enters_detour
enter_detour m a context v r t d has acc parsed found detour = rw has.open_state (
    rw has.here (
      rw has.found (
        rw (accepted v r context acc) (
          rw (not_sentinel r.target parsed)
            (rw parsed (rw (not_sentinel r.target parsed, found, detour) refl))))))

pub leave_detour :
    (m : Machine) (s : ConversationState) (rest : List ConversationState) (b : AgentAction)
    (context : Context) (v : Option TransitionValidator) (r : TransitionRule)
    → HasRule (record m { state_stack = s ∷ rest }) b r
    → Accepts v r context
    → r.target ≡ previous_state_sentinel
    → (apply_transition (record m { state_stack = s ∷ rest }) b context v).0
      ≡ record m { current_state = s; state_stack = rest }
unfolding apply_transition authorize finish commit approve resolve_target state_definition
    is_terminal pop previous_state
leave_detour m s rest b context v r has acc back =
    let same : (r.target == previous_state_sentinel) ≡ true =
      (eq_iff r.target previous_state_sentinel).1 back in
    rw has.open_state
      (rw has.here (rw has.found (rw (accepted v r context acc) (rw same (rw same refl)))))

-- A detour is transparent: if an action takes a machine into a detour state that is not terminal,
-- and there another action has a rule that returns to the previous state, both accepted by the
-- validator, then the two calls leave the machine exactly as it was, stack and all.
pub detour_round_trip :
    (m : Machine) (a b : AgentAction) (context : Context) (v : Option TransitionValidator)
    (r back : TransitionRule) (t : ConversationState) (d : StateDefinition)
    → HasRule m a r
    → Accepts v r context
    → to_state r.target ≡ some t
    → lookup t m.config.states ≡ some d
    → d.is_detour ≡ true
    → member t m.config.terminal_states ≡ false
    → lookup b d.transitions ≡ some back
    → back.target ≡ previous_state_sentinel
    → Accepts v back context
    → (apply_transition (apply_transition m a context v).0 b context v).0 ≡ m
detour_round_trip m a b context v r back t d has acc parsed found detour open_ rule target acc' =
    rw (enter_detour m a context v r t d has acc parsed found detour) (
      leave_detour (record m { current_state = t }) m.current_state m.state_stack b context v back
        (record { open_state = open_; definition = d; here = found; found = rule }) acc' target)
