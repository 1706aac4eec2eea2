-- ===== src/StateMachine/Machine/Verdict.antt =====
-- What `apply_transition` may answer, case by case, and that it answers so on every valid machine.
use mathlib.Core.Bool.{false≢true}
use text.Mathlib.TextEquality.{eq_iff}
use call_forge.Prelude.{
  Bool, true, false, ◌≡◌, ◌≢◌, refl, sym, ◌∙◌, inl, inr, Option, none, some, List, [], ◌∷◌, Result,
  ok, err, raise_if, required, ◌>>=◌, ◌==◌, string_eq, is_some, member, lookup, has_key, All,
  AllEntries-lookup, Bool-cases, Option-cases, if◌then◌else◌,
}
use call_forge.Vocabulary.{
  ConversationState, AgentAction, conversation_state_eq, agent_action_eq, to_state,
}
use call_forge.Context.{Context}
use call_forge.StateMachine.Config.{
  previous_state_sentinel, TransitionRule, StateDefinition, MachineConfig,
}
use call_forge.StateMachine.WellFormed.{TargetOk, IsRule, IsWellFormed}
use call_forge.StateMachine.Machine.{
  TransitionError, from_terminal, not_eligible, rejected, no_previous_state, value_error, Machine,
  ApprovedTransition, TransitionValidator, is_terminal, state_definition, previous_state, rejects,
  resolve_target, authorize, finish, apply_transition,
}

-- A state that is defined and not terminal.
pub record IsOpen (c : MachineConfig) (s : ConversationState) : Type 0 where
  pub defined : has_key s c.states ≡ true
  pub not_terminal : member s c.terminal_states ≡ false

-- A machine on a well-formed configuration, in a defined state, that can return to open states only.
pub record IsValid (m : Machine) : Type 0 where
  pub well_formed : IsWellFormed m.config
  pub defined : has_key m.current_state m.config.states ≡ true
  pub stack : All (IsOpen m.config) m.state_stack

module _ (m : Machine) (a : AgentAction) where
  abbrev answer_to : TransitionRule → ConversationState → Bool → ApprovedTransition
  answer_to r target back = record {
    action = a;
    from_state = m.current_state;
    to_state = target;
    outcome = r.outcome;
    preserved_interest = r.preserve_interest;
    was_detour_return = back;
  }

-- The rule of the current state for an action.
pub record HasRule (m : Machine) (a : AgentAction) (r : TransitionRule) : Type 0 where
  pub open_state : member m.current_state m.config.terminal_states ≡ false
  pub definition : StateDefinition
  pub here : lookup m.current_state m.config.states ≡ some definition
  pub found : lookup a definition.transitions ≡ some r

abbrev pub Accepts : Option TransitionValidator → TransitionRule → Context → Type 0
Accepts none r context = Unit
Accepts (some validator) r context = validator r context ≡ true

abbrev pub Refuses : Option TransitionValidator → TransitionRule → Context → Type 0
Refuses none r context = ⊥
Refuses (some validator) r context = validator r context ≡ false

pub data Verdict (m : Machine) (a : AgentAction) (context : Context)
    (v : Option TransitionValidator)
    : Machine × Result TransitionError ApprovedTransition → Type 0 where
  terminal :
      member m.current_state m.config.terminal_states ≡ true
      → Verdict m a context v (m, err (from_terminal m.current_state))
  ineligible :
      (d : StateDefinition)
      → member m.current_state m.config.terminal_states ≡ false
      → lookup m.current_state m.config.states ≡ some d
      → lookup a d.transitions ≡ none
      → Verdict m a context v (m, err (not_eligible a m.current_state))
  refused :
      (r : TransitionRule)
      → HasRule m a r
      → Refuses v r context
      → Verdict m a context v (m, err (rejected a m.current_state))
  nowhere_to_return :
      (r : TransitionRule)
      → HasRule m a r
      → Accepts v r context
      → r.target ≡ previous_state_sentinel
      → m.state_stack ≡ []
      → Verdict m a context v (m, err no_previous_state)
  returned :
      (r : TransitionRule) (s : ConversationState) (rest : List ConversationState)
      → HasRule m a r
      → Accepts v r context
      → r.target ≡ previous_state_sentinel
      → m.state_stack ≡ s ∷ rest
      → Verdict m a context v
          (record m { current_state = s; state_stack = rest }, ok (answer_to m a r s true))
  moved :
      (r : TransitionRule) (t : ConversationState) (d : StateDefinition)
      → HasRule m a r
      → Accepts v r context
      → r.target ≢ previous_state_sentinel
      → to_state r.target ≡ some t
      → lookup t m.config.states ≡ some d
      → (is_some r.outcome ≡ true → member t m.config.terminal_states ≡ true)
      → Verdict m a context v (
        record m {
          current_state = t;
          state_stack = if d.is_detour then m.current_state ∷ m.state_stack else m.state_stack;
        },
        ok (answer_to m a r t false),
      )

module _ (a : AgentAction) (context : Context) (v : Option TransitionValidator) where
  -- The answer of the mutating part, read off the answer of the part that may raise.
  abbrev Answered :
      (m : Machine) → Result TransitionError (TransitionRule × ConversationState) → Type 0
  Answered m r = Verdict m a context v (finish m a r)

  resolved_back :
      (c : MachineConfig) (s : ConversationState) (stack : List ConversationState)
      (r : TransitionRule)
      → let m : Machine = record { config = c; current_state = s; state_stack = stack } in
        HasRule m a r
        → Accepts v r context
        → (r.target == previous_state_sentinel) ≡ true
        → Answered m (previous_state stack >>= λ target. ok (r, target))
  unfolding finish previous_state
  resolved_back c s [] r has acc back =
      nowhere_to_return r has acc ((eq_iff r.target previous_state_sentinel).0 back) refl
  resolved_back c s (top ∷ rest) r has acc back =
      rw back (returned r top rest has acc ((eq_iff r.target previous_state_sentinel).0 back) refl)

  resolved_named :
      (m : Machine) (r : TransitionRule)
      → HasRule m a r
      → Accepts v r context
      → TargetOk m.config.terminal_states m.config.states r
      → (r.target == previous_state_sentinel) ≡ false
      → Answered m
          (required (value_error r.target) (to_state r.target) >>= λ target. ok (r, target))
  unfolding finish has_key
  resolved_named m r has acc (inl back) named =
      absurd (false≢true (sym named ∙ (eq_iff r.target previous_state_sentinel).1 back))
  resolved_named m r has acc (inr (t, parsed, defined, outcome)) named =
      elim (Option-cases (lookup t m.config.states)) [
        | inl missing ↦ absurd (false≢true (rw missing at defined))
        | inr (d, found) ↦ rw parsed (
            rw (named, found)
              (moved r t d has acc
                (λ e. false≢true (sym named ∙ (eq_iff r.target previous_state_sentinel).1 e)) parsed
                found outcome))
      ]

  resolved :
      (m : Machine) (r : TransitionRule)
      → HasRule m a r
      → Accepts v r context
      → TargetOk m.config.terminal_states m.config.states r
      → Answered m (resolve_target m r >>= λ target. ok (r, target))
  unfolding resolve_target
  resolved m r has acc target = elim (Bool-cases (r.target == previous_state_sentinel)) [
    | inl back ↦ rw back (resolved_back m.config m.current_state m.state_stack r has acc back)
    | inr named ↦ rw named (resolved_named m r has acc target named)
  ]

consulted :
    (a : AgentAction) (context : Context) (v : Option TransitionValidator) (m : Machine)
    (r : TransitionRule)
    → HasRule m a r
    → TargetOk m.config.terminal_states m.config.states r
    → Answered a context v m (
        raise_if (rejects v r context) (rejected a m.current_state) >>= λ _.
        (resolve_target m r >>= λ target. ok (r, target)))
unfolding rejects finish
consulted a context none m r has target = resolved a context none m r has tt target
consulted a context (some validator) m r has target = elim (Bool-cases (validator r context)) [
  | inl yes_ ↦ rw yes_ (resolved a context (some validator) m r has yes_ target)
  | inr no_ ↦ rw no_ (refused r has no_)
]

-- On a valid machine `apply_transition` answers by exactly one of the cases of `Verdict`: it raises
-- from a terminal state, for an action without a rule, for a rule that the validator refuses and for
-- a return with nothing to return to, each time leaving the machine as it was, and never by a failed
-- lookup; else it returns to the top of the stack and pops it, or moves to the rule's target and
-- pushes the state that it left exactly if the target is a detour.
pub apply_transition-Verdict :
    (m : Machine) (a : AgentAction) (context : Context) (v : Option TransitionValidator)
    → IsValid m
    → Verdict m a context v (apply_transition m a context v)
unfolding apply_transition authorize is_terminal state_definition finish has_key
apply_transition-Verdict m a context v valid =
    elim (Bool-cases (member m.current_state m.config.terminal_states)) [
      | inl closed ↦ rw closed (terminal closed)
      | inr opened ↦ rw opened (elim (Option-cases (lookup m.current_state m.config.states)) [
        | inl missing ↦ absurd (false≢true (rw missing at valid.defined))
        | inr (d, here) ↦ rw here (elim (Option-cases (lookup a d.transitions)) [
          | inl none_ ↦ rw none_ (ineligible d opened here none_)
          | inr (r, found) ↦ rw found (
              consulted a context v m r
                (record { open_state = opened; definition = d; here = here; found = found })
                (rule_of valid.well_formed here found).target_ok)
        ])
      ])
    ]
  where
    rule_of :
        {d : StateDefinition} {r : TransitionRule}
        → IsWellFormed m.config
        → lookup m.current_state m.config.states ≡ some d
        → lookup a d.transitions ≡ some r
        → IsRule m.config.terminal_states m.config.states m.config.limits d a r
    rule_of {d} {r} w here found =
        AllEntries-lookup _ a r d.transitions
          (AllEntries-lookup _ m.current_state d m.config.states w.states_ok here).rules found
