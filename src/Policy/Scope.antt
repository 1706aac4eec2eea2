-- ===== src/Policy/Scope.antt =====
-- app/brain/scope/models.py and validator.py. The parsed policy file is an argument, `none` where the
-- file does not exist; sets are lists that are only asked for members.
pub mod Exact
use Prim.Native.String
use call_forge.Prelude.{
  String, Bool, true, false, not, ◌&&◌, Option, none, some, List, [], ◌∷◌, Result, ok, err,
  raise_if, required, ◌>>=◌, ◌>>◌, ◌==◌, member, if◌then◌else◌,
}
use call_forge.Vocabulary.{
  AgentAction, TopicCategory, agent_action_eq, topic_category_eq, to_action, to_topic, topic_value,
  action_value,
}

pub record ScopePolicy : Type 0 where
  pub policy_id : String
  pub allowed_topics : List TopicCategory
  pub allowed_actions : List AgentAction
  pub restricted_topics : List TopicCategory
  pub escalation_topics : List TopicCategory

pub record RawPolicy : Type 0 where
  pub policy_id : Option String
  pub allowed_topics : List String
  pub allowed_actions : List String
  pub restricted_topics : List String
  pub escalation_topics : List String

pub data ConfigurationError : Type 0 where
  file_not_found no_policies : ConfigurationError
  unknown_topic unknown_action nothing_allowed : String → ConfigurationError
  allowed_and_restricted escalation_not_allowed : String → ConfigurationError

coerce_topics : List String → Result ConfigurationError (List TopicCategory)
coerce_topics [] = ok []
coerce_topics (value ∷ rest) = do
  topic ← required (unknown_topic value) (to_topic value)
  topics ← coerce_topics rest
  ok (topic ∷ topics)

coerce_actions : List String → Result ConfigurationError (List AgentAction)
coerce_actions [] = ok []
coerce_actions (value ∷ rest) = do
  action ← required (unknown_action value) (to_action value)
  actions ← coerce_actions rest
  ok (action ∷ actions)

is_empty {ℓ} : {A : Type ℓ} → List A → Bool
is_empty [] = true
is_empty (x ∷ xs) = false

-- `xs & ys`
meet : List TopicCategory → List TopicCategory → List TopicCategory
meet [] ys = []
meet (x ∷ xs) ys = let rest = meet xs ys in if member x ys then x ∷ rest else rest

-- `xs - ys`
minus : List TopicCategory → List TopicCategory → List TopicCategory
minus [] ys = []
minus (x ∷ xs) ys = let rest = minus xs ys in if member x ys then rest else x ∷ rest

get_or : Option String → String → String
get_or none default = default
get_or (some value) default = value

unfoldable pub parse_policy : String → RawPolicy → Result ConfigurationError ScopePolicy
unfolding is_empty coerce_topics coerce_actions meet minus get_or
parse_policy policy_id body = do
  raise_if (is_empty body.allowed_topics && is_empty body.allowed_actions)
      (nothing_allowed policy_id)
  allowed_topics ← coerce_topics body.allowed_topics
  allowed_actions ← coerce_actions body.allowed_actions
  restricted_topics ← coerce_topics body.restricted_topics
  escalation_topics ← coerce_topics body.escalation_topics
  raise_if (not (is_empty (meet allowed_topics restricted_topics)))
      (allowed_and_restricted policy_id)
  raise_if (not (is_empty (minus escalation_topics allowed_topics)))
      (escalation_not_allowed policy_id)
  ok (record {
    policy_id = get_or body.policy_id policy_id;
    allowed_topics = allowed_topics;
    allowed_actions = allowed_actions;
    restricted_topics = restricted_topics;
    escalation_topics = escalation_topics;
  })

parse_policies : List (String × RawPolicy) → Result ConfigurationError (List (String × ScopePolicy))
parse_policies [] = ok []
parse_policies ((policy_id, body) ∷ rest) = do
  policy ← parse_policy policy_id body
  policies ← parse_policies rest
  ok ((policy_id, policy) ∷ policies)

unfoldable pub load_scope_policies :
    Option (List (String × RawPolicy)) → Result ConfigurationError (List (String × ScopePolicy))
unfolding is_empty parse_policies
load_scope_policies document = do
  policies_raw ← required file_not_found document
  raise_if (is_empty policies_raw) no_policies
  parse_policies policies_raw

pub data ScopeCategory : Type 0 where
  in_scope out_of_scope unknown_scope : ScopeCategory

pub record ScopeCheckInput : Type 0 where
  pub proposal_action : Option AgentAction
  pub proposal_topic : TopicCategory
  pub policy : ScopePolicy

pub record ScopeValidationResult : Type 0 where
  pub category : ScopeCategory
  pub policy_id : String
  pub rejected_reason : Option String
  pub fallback_hint : Option String
  pub requires_escalation : Bool

abbrev pub is_in_scope : ScopeValidationResult → Bool
is_in_scope r = elim r.category [ in_scope ↦ true | _ ↦ false ]

reject : ScopePolicy → ScopeCategory → String → String → ScopeValidationResult
reject policy category reason hint = record {
  category = category;
  policy_id = policy.policy_id;
  rejected_reason = some reason;
  fallback_hint = some hint;
  requires_escalation = false;
}

-- The action that is proposed and not allowed.
disallowed : ScopePolicy → Option AgentAction → Option AgentAction
disallowed policy none = none
disallowed policy (some action) = if member action policy.allowed_actions then none else some action

check_topic : ScopePolicy → TopicCategory → Option AgentAction → ScopeValidationResult
unfolding reject
check_topic policy topic (some action) =
    reject policy out_of_scope (String.◌++◌ "action not in scope: " (action_value action))
      "redirect_to_goal"
check_topic policy topic none =
    if not (member topic policy.allowed_topics)
    then reject policy out_of_scope (String.◌++◌ "topic not in scope: " (topic_value topic))
        "redirect_to_goal"
    else record {
      category = in_scope;
      policy_id = policy.policy_id;
      rejected_reason = none;
      fallback_hint = none;
      requires_escalation = member topic policy.escalation_topics;
    }

unfoldable pub validate : ScopeCheckInput → ScopeValidationResult
unfolding reject disallowed check_topic
validate check =
    let policy = check.policy in
    let topic = check.proposal_topic in
    if topic == TopicCategory.unknown
    then reject policy unknown_scope "topic category unknown" "clarify"
    else if member topic policy.restricted_topics
    then reject policy out_of_scope (String.◌++◌ "topic restricted: " (topic_value topic))
        "redirect_to_goal"
    else check_topic policy topic (disallowed policy check.proposal_action)
