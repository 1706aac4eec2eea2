-- ===== src/Guardrails/Validation/Exact.antt =====
-- When an action is allowed, and that the machine's hook agrees.
use call_forge.Prelude.{
  String, Bool, true, false, not, ◌&&◌, ◌≡◌, ◌↔◌, ◌⊎◌, inl, inr, refl, sym, ◌∙◌, Option, none, some,
  Result, List, [], ◌∷◌, ok, err, required, ◌>>=◌, string_eq, lookup, arith, All, Bool-cases,
  Option-cases,
}
use mathlib.Core.Bool.{false≢true}
use call_forge.Vocabulary.{ConversationState, AgentAction, conversation_state_eq, agent_action_eq}
use call_forge.Context.{Context, is_true}
use call_forge.Contracts.{
  ValidationCategory, ValidationResult, ContractError, allows, rejected, rejected-refuses,
}
use call_forge.StateMachine.Config.{TransitionRule, StateDefinition, MachineConfig}
use call_forge.Guardrails.Validation.{
  prerequisites, PrerequisitePredicate, Checks, check_requirement, check_requirements,
  is_terminating, check_entry, find_rule, settle, validate, met, all_met, holds, unknown_reason,
  missing_reason, conflict_reason, not_allowed_reason,
}
use mathlib.Core.Path.{subst}

-- A requirement is registered, and its predicate holds of the context.
pub record IsMet (context : Context) (requirement : String) : Type 0 where
  pub predicate : PrerequisitePredicate
  pub registered : lookup requirement prerequisites ≡ some predicate
  pub holds : predicate context ≡ true

-- The independent description of an allowed action.
pub record IsPermitted (c : MachineConfig) (s : ConversationState) (a : AgentAction)
    (context : Context) : Type 0 where
  pub respects_dnc : (is_true context "dnc_pending" ≡ false) ⊎ (is_terminating a ≡ true)
  pub definition : StateDefinition
  pub here : lookup s c.states ≡ some definition
  pub entered : (is_terminating a ≡ true) ⊎ All (IsMet context) definition.requires
  pub rule : TransitionRule
  pub found : lookup a definition.transitions ≡ some rule
  pub prepared : All (IsMet context) rule.requires

abbrev passes : Checks → Bool
passes r = allows (settle r)

module _ (context : Context) where
  check_requirements_sound :
      (qs : List String) → check_requirements context qs ≡ ok tt → All (IsMet context) qs
  unfolding check_requirements check_requirement
  check_requirements_sound [] h = tt
  check_requirements_sound (q ∷ qs) h = elim (Option-cases (lookup q prerequisites)) [
    | inl missing ↦ absurd (err≢ok (rw missing at h))
    | inr (p, found) ↦ elim (Bool-cases (p context)) [
      | inl holds ↦ (
        record { predicate = p; registered = found; holds = holds },
        check_requirements_sound qs (rw holds at (rw found at h)),
      )
      | inr fails ↦ absurd (err≢ok (rw fails at (rw found at h)))
    ]
  ]
    where
      err≢ok : {e : Result ContractError ValidationResult} → ◌≡◌ {A = Checks} (err e) (ok tt) → ⊥
      err≢ok h = cc

  check_requirements_complete :
      (qs : List String) → All (IsMet context) qs → check_requirements context qs ≡ ok tt
  unfolding check_requirements check_requirement
  check_requirements_complete [] h = refl
  check_requirements_complete (q ∷ qs) (first, rest) =
      rw first.registered (rw first.holds (check_requirements_complete qs rest))

  pub all_met_complete : (qs : List String) → All (IsMet context) qs → all_met context qs ≡ true
  unfolding all_met met holds
  all_met_complete [] h = refl
  all_met_complete (q ∷ qs) (first, rest) =
      rw (first.registered, holds) (rw first.holds (all_met_complete qs rest))

-- The result is `ok`, and so the answer allows, only if all checks pass.
Checks-cases :
    (r : Checks) → (r ≡ ok tt) ⊎ ((e : Result ContractError ValidationResult) × (r ≡ err e))
Checks-cases (ok tt) = inl refl
Checks-cases (err e) = inr (e, refl)

module _ (context : Context) where
  check_requirements-refuses :
      (qs : List String) {e : Result ContractError ValidationResult}
      → check_requirements context qs ≡ err e
      → allows e ≡ false
  unfolding check_requirements check_requirement
  check_requirements-refuses [] h = cc
  check_requirements-refuses (q ∷ qs) {e} h = elim (Option-cases (lookup q prerequisites)) [
    | inl missing ↦
        refusal ValidationCategory.unknown_requirement (unknown_reason q) (rw missing at h)
    | inr (p, found) ↦ elim (Bool-cases (p context)) [
      | inl passed ↦ check_requirements-refuses qs (rw passed at (rw found at h))
      | inr failed ↦
          refusal ValidationCategory.missing_prerequisite (missing_reason q)
            (rw failed at (rw found at h))
    ]
  ]
    where
      of : {x y : Result ContractError ValidationResult} → ◌≡◌ {A = Checks} (err x) (err y) → x ≡ y
      of h = cc

      refusal :
          (c : ValidationCategory) (reason : String)
          → ◌≡◌ {A = Checks} (err (rejected c reason)) (err e)
          → allows e ≡ false
      refusal c reason h = subst (λ x. allows x ≡ false) (of h) (rejected-refuses c reason)

  -- The last loop decides.
  last_passes :
      (qs : List String) → passes (check_requirements context qs) ≡ true → All (IsMet context) qs
  unfolding settle
  last_passes qs h = elim (Checks-cases (check_requirements context qs)) [
    | inl passed ↦ check_requirements_sound context qs passed
    | inr (e, failed) ↦
        absurd (false≢true (sym (check_requirements-refuses qs failed) ∙ (rw failed at h)))
  ]

  -- An earlier loop lets the rest decide, or refuses.
  loop_passes :
      (qs : List String) (rest : Checks)
      → passes (check_requirements context qs >>= λ _. rest) ≡ true
      → All (IsMet context) qs × (passes rest ≡ true)
  unfolding settle
  loop_passes qs rest h = elim (Checks-cases (check_requirements context qs)) [
    | inl passed ↦ (check_requirements_sound context qs passed, rw passed at h)
    | inr (e, failed) ↦
        absurd (false≢true (sym (check_requirements-refuses qs failed) ∙ (rw failed at h)))
  ]

module _ (c : MachineConfig) (s : ConversationState) (a : AgentAction) (context : Context) where
  entered :
      (d : StateDefinition) (rest : Checks)
      → passes (check_entry (some d) a context >>= λ _. rest) ≡ true
      → ((is_terminating a ≡ true) ⊎ All (IsMet context) d.requires) × (passes rest ≡ true)
  unfolding check_entry
  entered d rest h = elim (Bool-cases (is_terminating a)) [
    | inl leaving ↦ (inl leaving, rw leaving at h)
    | inr staying ↦
        let (all, ended) = loop_passes context d.requires rest (rw staying at h) in (inr all, ended)
  ]

  dnc_respected :
      (is_true context "dnc_pending" && not (is_terminating a)) ≡ false
      → (is_true context "dnc_pending" ≡ false) ⊎ (is_terminating a ≡ true)
  dnc_respected h = ground arith

  permitted :
      (is_true context "dnc_pending" ≡ false) ⊎ (is_terminating a ≡ true)
      → (d : Option StateDefinition) → lookup s c.states ≡ d
      → (e : Result ContractError ValidationResult)
      → passes (
          check_entry d a context >>= λ _.
          (required e (find_rule d a) >>= λ r. check_requirements context r.requires))
        ≡ true
      → allows e ≡ false
      → IsPermitted c s a context
  unfolding find_rule settle check_entry
  permitted dnc none here e h refuses = absurd (false≢true (sym refuses ∙ h))
  permitted dnc (some d) here e h refuses =
      let (enter, h1) = entered d _ h in
      elim (Option-cases (lookup a d.transitions)) [
        | inl missing ↦ absurd (false≢true (sym refuses ∙ (rw missing at h1)))
        | inr (r, found) ↦ record {
          respects_dnc = dnc;
          definition = d;
          here = here;
          entered = enter;
          rule = r;
          found = found;
          prepared = last_passes context r.requires (rw found at h1);
        }
      ]

  validate_sound : allows (validate c s a context) ≡ true → IsPermitted c s a context
  unfolding validate
  validate_sound h = elim (Bool-cases (is_true context "dnc_pending" && not (is_terminating a))) [
    | inl blocked ↦ absurd (
        false≢true (
          sym (rejected-refuses ValidationCategory.dnc_conflict (conflict_reason a))
          ∙ (rw blocked at h)))
    | inr free ↦
        permitted (dnc_respected free) (lookup s c.states) refl _ (rw free at h)
          (rejected-refuses ValidationCategory.not_eligible (not_allowed_reason a s))
  ]

  no_conflict :
      (is_true context "dnc_pending" ≡ false) ⊎ (is_terminating a ≡ true)
      → (is_true context "dnc_pending" && not (is_terminating a)) ≡ false
  no_conflict h = ground arith

  entry_passes :
      (d : StateDefinition)
      → (is_terminating a ≡ true) ⊎ All (IsMet context) d.requires
      → check_entry (some d) a context ≡ ok tt
  unfolding check_entry
  entry_passes d (inl leaving) = rw leaving
  entry_passes d (inr all) = elim (Bool-cases (is_terminating a)) [
    | inl leaving ↦ rw leaving
    | inr staying ↦ rw staying (check_requirements_complete context d.requires all)
  ]

  validate_complete : IsPermitted c s a context → allows (validate c s a context) ≡ true
  unfolding validate settle find_rule
  validate_complete p = rw (no_conflict p.respects_dnc) (
      rw p.here (
        rw (entry_passes p.definition p.entered)
          (rw p.found (rw (check_requirements_complete context p.rule.requires p.prepared)))))

-- The validator allows an action exactly if it is permitted: no do-not-call request is pending or
-- the action is MARK_DNC or END_CALL; the state is defined and, unless the action is one of these
-- two, its entry requirements are met; and the state has a rule for the action whose requirements
-- are met, where a requirement is met if it is registered and its predicate holds of the context.
pub validate_exact :
    (c : MachineConfig) (s : ConversationState) (a : AgentAction) (context : Context)
    → (allows (validate c s a context) ≡ true) ↔ IsPermitted c s a context
validate_exact c s a context = (validate_sound c s a context, validate_complete c s a context)
