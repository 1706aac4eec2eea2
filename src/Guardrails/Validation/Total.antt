-- ===== src/Guardrails/Validation/Total.antt =====
-- Where the requirements have short names, the validator answers.
use call_forge.Prelude.{
  String, Bool, true, false, not, ◌&&◌, ◌≡◌, refl, inl, inr, Option, none, some, List, [], ◌∷◌, ok,
  err, arith, ◌>>=◌, required, lookup, string_eq, Bool-cases, Option-cases, ◌==◌, some_injective,
}
use mathlib.Core.Path.{subst}
use call_forge.Vocabulary.{
  ConversationState, AgentAction, conversation_state_eq, agent_action_eq, action_value, state_value,
}
use call_forge.Context.{Context, is_true}
use call_forge.Contracts.{ValidationCategory, ValidationResult, long_reason, rejected, accepted}
use call_forge.StateMachine.Config.{TransitionRule, StateDefinition, MachineConfig}
use call_forge.Guardrails.Validation.{
  prerequisites, Checks, check_requirement, check_requirements, is_terminating, check_entry,
  find_rule, settle, validate, unknown_reason, missing_reason, conflict_reason, not_allowed_reason,
}

-- Both reasons that name the requirement fit.
abbrev brief : String → Bool
brief requirement =
    not (long_reason (unknown_reason requirement)) && not (long_reason (missing_reason requirement))

pub brief_requirements : List String → Bool
brief_requirements [] = true
brief_requirements (requirement ∷ rest) = brief requirement && brief_requirements rest

brief_rules : List (AgentAction × TransitionRule) → Bool
unfolding brief_requirements
brief_rules [] = true
brief_rules ((action, rule) ∷ rest) = brief_requirements rule.requires && brief_rules rest

brief_states : List (ConversationState × StateDefinition) → Bool
unfolding brief_requirements brief_rules
brief_states [] = true
brief_states ((state, definition) ∷ rest) =
    brief_requirements definition.requires
    && brief_rules definition.transitions
    && brief_states rest

-- Every requirement that the configuration names fits, with its reason, into an answer.
unfoldable pub brief_names : MachineConfig → Bool
unfolding brief_states
brief_names config = brief_states config.states

-- The checks end without a raise: passed, or with an answer.
abbrev Settles : Checks → Type 0
Settles r = (v : ValidationResult) × (settle r ≡ ok v)

and_left : (a b : Bool) → (a && b) ≡ true → a ≡ true
and_left a b h = ground arith

and_right : (a b : Bool) → (a && b) ≡ true → b ≡ true
and_right a b h = ground arith

false_of : (a : Bool) → not a ≡ true → a ≡ false
false_of a h = ground arith

rejected-Settles :
    (c : ValidationCategory) (reason : String)
    → long_reason reason ≡ false
    → Settles (err (rejected c reason))
unfolding settle rejected
rejected-Settles c reason short = rw short (_, refl)

check_requirements-Settles :
    (context : Context) (qs : List String) (rest : Checks)
    → brief_requirements qs ≡ true
    → Settles rest
    → Settles (check_requirements context qs >>= λ _. rest)
unfolding check_requirements check_requirement brief_requirements
check_requirements-Settles context [] rest h k = k
check_requirements-Settles context (q ∷ qs) rest h k =
    elim (Option-cases (lookup q prerequisites)) [
      | inl missing ↦ rw missing (
          rejected-Settles ValidationCategory.unknown_requirement (unknown_reason q)
            (false_of _ (and_left _ _ (and_left (brief q) (brief_requirements qs) h))))
      | inr (p, found) ↦ rw found (elim (Bool-cases (p context)) [
        | inl holds ↦
            rw holds (check_requirements-Settles context qs rest (and_right (brief q) _ h) k)
        | inr fails ↦ rw fails (
            rejected-Settles ValidationCategory.missing_prerequisite (missing_reason q) (
              false_of _ (
                and_right (not (long_reason (unknown_reason q))) _
                  (and_left (brief q) (brief_requirements qs) h))))
      ])
    ]

passed-Settles : Settles (ok tt)
unfolding settle
passed-Settles = (accepted, refl)

last-Settles :
    (context : Context) (qs : List String)
    → brief_requirements qs ≡ true
    → Settles (check_requirements context qs)
unfolding check_requirements check_requirement brief_requirements
last-Settles context [] h = passed-Settles
last-Settles context (q ∷ qs) h = elim (Option-cases (lookup q prerequisites)) [
  | inl missing ↦ rw missing (
      rejected-Settles ValidationCategory.unknown_requirement (unknown_reason q)
        (false_of _ (and_left _ _ (and_left (brief q) (brief_requirements qs) h))))
  | inr (p, found) ↦ rw found (elim (Bool-cases (p context)) [
    | inl holds ↦ rw holds (last-Settles context qs (and_right (brief q) _ h))
    | inr fails ↦ rw fails (
        rejected-Settles ValidationCategory.missing_prerequisite (missing_reason q) (
          false_of _ (
            and_right (not (long_reason (unknown_reason q))) _
              (and_left (brief q) (brief_requirements qs) h))))
  ])
]

-- The reasons that name only actions and states always fit.
pub short_conflict : (a : AgentAction) → long_reason (conflict_reason a) ≡ false
unfolding long_reason action_value
short_conflict AgentAction.greet = refl
short_conflict _ = refl

short_not_allowed :
    (a : AgentAction) (s : ConversationState) → long_reason (not_allowed_reason a s) ≡ false
unfolding long_reason action_value state_value
short_not_allowed AgentAction.greet ConversationState.new_call = refl
short_not_allowed _ ConversationState.new_call = refl
short_not_allowed _ _ = refl

brief_rule :
    (rules : List (AgentAction × TransitionRule)) (a : AgentAction) (r : TransitionRule)
    → brief_rules rules ≡ true
    → lookup a rules ≡ some r
    → brief_requirements r.requires ≡ true
unfolding brief_rules lookup
brief_rule [] a r h found = absurd (cc)
brief_rule ((b, q) ∷ rules) a r h found = elim (Bool-cases (b == a)) [
  | inl same ↦
      let e : some q ≡ some r = rw same at found in
      subst (λ x. brief_requirements x.requires ≡ true) (some_injective q r e)
        (and_left (brief_requirements q.requires) (brief_rules rules) h)
  | inr other ↦
      brief_rule rules a r (and_right (brief_requirements q.requires) _ h) (rw other at found)
]

brief_state :
    (states : List (ConversationState × StateDefinition)) (s : ConversationState)
    (d : StateDefinition)
    → brief_states states ≡ true
    → lookup s states ≡ some d
    → (brief_requirements d.requires ≡ true) × (brief_rules d.transitions ≡ true)
unfolding brief_states lookup
brief_state [] s d h found = absurd (cc)
brief_state ((t, c) ∷ states) s d h found = elim (Bool-cases (t == s)) [
  | inl same ↦
      let e : some c ≡ some d = rw same at found in
      subst (λ x. (brief_requirements x.requires ≡ true) × (brief_rules x.transitions ≡ true))
        (some_injective c d e)
        (
          and_left (brief_requirements c.requires) (brief_rules c.transitions) (
              and_left (brief_requirements c.requires && brief_rules c.transitions)
                (brief_states states) h),
          and_right (brief_requirements c.requires) (brief_rules c.transitions) (
              and_left (brief_requirements c.requires && brief_rules c.transitions)
                (brief_states states) h),
        )
  | inr other ↦
      brief_state states s d
        (and_right (brief_requirements c.requires && brief_rules c.transitions)
          (brief_states states) h)
        (rw other at found)
]

module _ (c : MachineConfig) (s : ConversationState) (a : AgentAction) (context : Context) where
  ruled-Settles :
      (d : StateDefinition)
      → brief_rules d.transitions ≡ true
      → Settles (
          required
            (rejected ValidationCategory.not_eligible (not_allowed_reason a s))
            (lookup a d.transitions)
          >>= λ r. check_requirements context r.requires)
  ruled-Settles d h = elim (Option-cases (lookup a d.transitions)) [
    | inl missing ↦ rw missing (
        rejected-Settles ValidationCategory.not_eligible (not_allowed_reason a s)
          (short_not_allowed a s))
    | inr (r, found) ↦
        rw found (last-Settles context r.requires (brief_rule d.transitions a r h found))
  ]

  defined-Settles :
      (d : Option StateDefinition)
      → lookup s c.states ≡ d
      → brief_names c ≡ true
      → Settles (
          check_entry d a context >>= λ _.
          (required
              (rejected ValidationCategory.not_eligible (not_allowed_reason a s))
              (find_rule d a)
            >>= λ r. check_requirements context r.requires))
  unfolding check_entry find_rule brief_names
  defined-Settles none here h =
      rejected-Settles ValidationCategory.not_eligible (not_allowed_reason a s)
        (short_not_allowed a s)
  defined-Settles (some d) here h =
      let (entry, rules) = brief_state c.states s d h here in
      elim (Bool-cases (is_terminating a)) [
        | inl leaving ↦ rw leaving (ruled-Settles d rules)
        | inr staying ↦
            rw staying
              (check_requirements-Settles context d.requires _ entry (ruled-Settles d rules))
      ]

  -- Where the names fit, the validator answers every question without a raise.
  pub validate_returns :
      brief_names c ≡ true → (v : ValidationResult) × (validate c s a context ≡ ok v)
  unfolding validate settle
  validate_returns h = elim (Bool-cases (is_true context "dnc_pending" && not (is_terminating a))) [
    | inl blocked ↦
        rw blocked
          (rejected-Settles ValidationCategory.dnc_conflict (conflict_reason a) (short_conflict a))
    | inr free ↦ rw free (defined-Settles (lookup s c.states) refl h)
  ]
