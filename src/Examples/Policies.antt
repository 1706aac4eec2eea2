-- ===== src/Examples/Policies.antt =====
-- The budget, scope and authority policies at concrete inputs.
use call_forge.Prelude.{
  ℕ, ◌≤◌, pos, leb, ◌≡◌, ◌↔◌, refl, true, false, none, some, List, [], ◌∷◌, String, AllEntries,
  lookup, insert, member,
}
use call_forge.Vocabulary.{
  AgentAction, TopicCategory, CommercialRequestKind, AgentAction-discrete, TopicCategory-discrete,
  agent_action_eq, to_topic, to_action, find_by_value,
}
use call_forge.Policy.Budget
use call_forge.Policy.Budget.{
  BudgetPolicy, BudgetState, BudgetCheckInput, TrustedExitSignals, evaluate,
}
use call_forge.Policy.Budget.Exact.{
  goes_on, MayContinue, CeilingWithin, evaluate_exact, evaluate_ceiling, IsPositive,
  load_budget_policies-IsPositive,
}
use call_forge.Policy.Scope
use call_forge.Policy.Scope.{ScopePolicy, ScopeCheckInput, is_in_scope}
use call_forge.Policy.Scope.Exact.{
  InScope, scope_exact, IsConsistent, load_scope_policies-IsConsistent,
}
use call_forge.Policy.Authority
use call_forge.Policy.Authority.{
  AuthorityPolicy, AuthorityCheckInput, auto_execute, policy_bounded, human_approval_required,
  classify, action_tier, classify_commercial, restrictiveness, is_auto,
}
use call_forge.Policy.Authority.Bounds.{
  IsGuarded, RequestAuthorized, CommercialBelow, classify_restricts, classify_auto,
  load_authority_policies-IsGuarded,
}

abbrev budget_policy : BudgetPolicy
budget_policy = record {
  policy_id = "default";
  limits = record {
    max_reasoning_calls = pos 20;
    max_turns = pos 30;
    max_call_seconds = pos 300;
    max_response_sentences = pos 3;
  };
}

abbrev budget_check : BudgetCheckInput
budget_check = record {
  budget_state = some (record {
    turns_remaining = some (pos 4);
    seconds_remaining = some (pos 60);
    reasoning_calls_remaining = some (pos 2);
    max_response_sentences = some (pos 2);
  });
  exit_signals = record {
    dnc = false;
    not_interested = false;
    callback_scheduled = false;
    contact_confirmed = false;
  };
  policy = some budget_policy;
}

evaluate_exact_example : (goes_on (evaluate budget_check).outcome ≡ true) ↔ MayContinue budget_check
evaluate_exact_example = evaluate_exact budget_check

evaluate_ceiling_example : CeilingWithin (pos 3) (evaluate budget_check).response_ceiling
unfolding evaluate Budget.exhausted
evaluate_ceiling_example = evaluate_ceiling budget_check budget_policy refl refl

abbrev budget_document : List (String × Budget.RawPolicy)
budget_document =
    (
      "default",
      record {
        policy_id = none;
        limits =
            ("max_reasoning_calls", Budget.number (pos 20))
            ∷ ("max_turns", Budget.number (pos 30))
            ∷ ("max_call_seconds", Budget.number (pos 300))
            ∷ ("max_response_sentences", Budget.number (pos 3))
            ∷ [];
      },
    )
    ∷ []

load_budget_policies-IsPositive_example :
    AllEntries {K = String} (λ id p. IsPositive p) (("default", budget_policy) ∷ [])
unfolding Budget.load_budget_policies Budget.parse_policy lookup
load_budget_policies-IsPositive_example =
    load_budget_policies-IsPositive (some budget_document) refl

abbrev scope_policy : ScopePolicy
scope_policy = record {
  policy_id = "intro";
  allowed_topics = TopicCategory.business_question ∷ TopicCategory.commercial_request ∷ [];
  allowed_actions = AgentAction.greet ∷ AgentAction.answer_question ∷ [];
  restricted_topics = TopicCategory.off_topic ∷ [];
  escalation_topics = TopicCategory.commercial_request ∷ [];
}

abbrev scope_check : ScopeCheckInput
scope_check = record {
  proposal_action = some AgentAction.greet;
  proposal_topic = TopicCategory.commercial_request;
  policy = scope_policy;
}

scope_exact_example : (is_in_scope (Scope.validate scope_check) ≡ true) ↔ InScope scope_check
scope_exact_example = scope_exact scope_check

abbrev scope_document : List (String × Scope.RawPolicy)
scope_document =
    (
      "intro",
      record {
        policy_id = none;
        allowed_topics = "business_question" ∷ "commercial_request" ∷ [];
        allowed_actions = "greet" ∷ "answer_question" ∷ [];
        restricted_topics = "off_topic" ∷ [];
        escalation_topics = "commercial_request" ∷ [];
      },
    )
    ∷ []

load_scope_policies-IsConsistent_example :
    AllEntries {K = String} (λ id p. IsConsistent p) (("intro", scope_policy) ∷ [])
unfolding Scope.load_scope_policies Scope.parse_policy to_topic to_action member
    TopicCategory-discrete
load_scope_policies-IsConsistent_example =
    load_scope_policies-IsConsistent (some scope_document) refl

abbrev authority_policy : AuthorityPolicy ℕ
authority_policy = record {
  policy_id = "default";
  default_tier = human_approval_required;
  action_tiers = (AgentAction.greet, auto_execute) ∷ [];
  discount = some (record {
    max_autonomous_percent = 10;
    within_tier = auto_execute;
    over_tier = human_approval_required;
  });
  pricing_disclosure = none;
  commercial_tiers = [];
}

abbrev authority_check : AuthorityCheckInput ℕ
authority_check = record {
  proposal_action = some AgentAction.greet;
  commercial_request =
      some (record { kind = CommercialRequestKind.discount; requested_discount_percent = some 8 });
  policy = authority_policy;
}

classify_restricts_example :
    (restrictiveness (action_tier authority_policy (some AgentAction.greet))
      ≤ restrictiveness (classify leb authority_check).tier)
    × CommercialBelow leb authority_policy authority_check.commercial_request
        (classify leb authority_check).tier
classify_restricts_example = classify_restricts leb authority_check

classify_auto_example :
    ((a : AgentAction) × (some AgentAction.greet ≡ some a)
      × (lookup a authority_policy.action_tiers ≡ some auto_execute))
    × RequestAuthorized leb authority_policy authority_check.commercial_request
unfolding classify is_auto Authority.more_restrictive classify_commercial action_tier lookup
    AgentAction-discrete
classify_auto_example = classify_auto leb authority_check (record { guarded = refl }) refl

abbrev authority_document : List (String × Authority.RawPolicy ℕ)
authority_document =
    (
      "default",
      record {
        policy_id = none;
        default_tier = some "human_approval_required";
        action_tiers = ("greet", "auto_execute") ∷ [];
        commercial =
            (
              "discount",
              record {
                max_autonomous_percent = some 10;
                within_tier = some "auto_execute";
                over_tier = some "human_approval_required";
                allowed = none;
                tier = none;
              },
            )
            ∷ [];
      },
    )
    ∷ []

load_authority_policies-IsGuarded_example :
    AllEntries {K = String} (λ id p. IsGuarded p) (("default", authority_policy) ∷ [])
unfolding Authority.load_authority_policies Authority.parse_policy find_by_value to_action insert
load_authority_policies-IsGuarded_example =
    load_authority_policies-IsGuarded (some authority_document) refl
