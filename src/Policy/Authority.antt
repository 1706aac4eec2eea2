-- ===== src/Policy/Authority.antt =====
-- app/brain/authority/models.py and validator.py, and `CommercialRequest` of app/brain/contracts.py.
-- Percentages are floats: their type and its `<=` are parameters. A tier's reason is left out.
pub mod Bounds
use call_forge.Prelude.{
  String, ℕ, Bool, true, false, Option, none, some, List, [], ◌∷◌, Result, ok, err, raise_if,
  required, ◌>>=◌, ◌>>◌, ◌==◌, string_eq, leb, lookup, insert, if◌then◌else◌,
}
use call_forge.Vocabulary.{
  AgentAction, CommercialRequestKind, agent_action_eq, commercial_request_kind_eq, find_by_value,
  to_action, to_commercial_kind,
}

pub data AuthorityTier : Type 0 where
  auto_execute policy_bounded human_approval_required denied : AuthorityTier

tier_value : AuthorityTier → String
tier_value auto_execute = "auto_execute"
tier_value policy_bounded = "policy_bounded"
tier_value human_approval_required = "human_approval_required"
tier_value denied = "denied"

to_tier : String → Option AuthorityTier
unfolding tier_value
to_tier =
    find_by_value tier_value (auto_execute ∷ policy_bounded ∷ human_approval_required ∷ denied ∷ [])

abbrev pub is_auto_tier : AuthorityTier → Bool
is_auto_tier auto_execute = true
is_auto_tier _ = false

-- `_RESTRICTIVENESS`
unfoldable pub restrictiveness : AuthorityTier → ℕ
restrictiveness auto_execute = 0
restrictiveness policy_bounded = 1
restrictiveness human_approval_required = 2
restrictiveness denied = 3

-- `_more_restrictive`
unfoldable pub more_restrictive : AuthorityTier → AuthorityTier → AuthorityTier
unfolding restrictiveness
more_restrictive a b = if leb (restrictiveness b) (restrictiveness a) then a else b

pub record DiscountRule (F : Type 0) : Type 0 where
  pub max_autonomous_percent : F
  pub within_tier : AuthorityTier
  pub over_tier : AuthorityTier

pub record PricingDisclosureRule : Type 0 where
  pub allowed : Bool
  pub tier : AuthorityTier

pub record AuthorityPolicy (F : Type 0) : Type 0 where
  pub policy_id : String
  pub default_tier : AuthorityTier
  pub action_tiers : List (AgentAction × AuthorityTier)
  pub discount : Option (DiscountRule F)
  pub pricing_disclosure : Option PricingDisclosureRule
  pub commercial_tiers : List (CommercialRequestKind × AuthorityTier)

pub record CommercialRequest (F : Type 0) : Type 0 where
  pub kind : CommercialRequestKind
  pub requested_discount_percent : Option F

-- A commercial rule's body in the file. A key that is read and missing is a `KeyError`.
pub record RawRule (F : Type 0) : Type 0 where
  pub max_autonomous_percent : Option F
  pub within_tier : Option String
  pub over_tier : Option String
  pub allowed : Option Bool
  pub tier : Option String

pub record RawPolicy (F : Type 0) : Type 0 where
  pub policy_id : Option String
  pub default_tier : Option String
  pub action_tiers : List (String × String)
  pub commercial : List (String × RawRule F)

pub data ConfigurationError : Type 0 where
  file_not_found no_policies : ConfigurationError
  unknown_tier unknown_action unknown_kind : String → ConfigurationError
  missing_default default_auto_execute : String → ConfigurationError
  key_error : String → ConfigurationError

coerce_tier : String → Result ConfigurationError AuthorityTier
unfolding to_tier
coerce_tier value = required (unknown_tier value) (to_tier value)

parse_action_tiers :
    List (String × String)
    → List (AgentAction × AuthorityTier)
    → Result ConfigurationError (List (AgentAction × AuthorityTier))
unfolding coerce_tier
parse_action_tiers [] tiers = ok tiers
parse_action_tiers ((a, t) ∷ rest) tiers = do
  action ← required (unknown_action a) (to_action a)
  tier ← coerce_tier t
  parse_action_tiers rest (insert action tier tiers)

get_or : Option String → String → String
get_or none default = default
get_or (some value) default = value

-- The variables of the loop over the commercial rules.
abbrev Commercial : Type 0 → Type 0
Commercial F =
    Option (DiscountRule F)
    × Option PricingDisclosureRule
    × List (CommercialRequestKind × AuthorityTier)

tier_at : String → Option String → Result ConfigurationError AuthorityTier
unfolding coerce_tier
tier_at key value = do raw ← required (key_error key) value; coerce_tier raw

module _ {F : Type 0} where
  parse_discount : RawRule F → Result ConfigurationError (DiscountRule F)
  unfolding tier_at
  parse_discount rule = do
    max_percent ← required (key_error "max_autonomous_percent") rule.max_autonomous_percent
    within ← tier_at "within_tier" rule.within_tier
    over ← tier_at "over_tier" rule.over_tier
    ok (record { max_autonomous_percent = max_percent; within_tier = within; over_tier = over })

  parse_disclosure : RawRule F → Result ConfigurationError PricingDisclosureRule
  unfolding tier_at
  parse_disclosure rule = do
    allowed ← required (key_error "allowed") rule.allowed
    tier ← tier_at "tier" rule.tier
    ok (record { allowed = allowed; tier = tier })

  parse_rule : String → RawRule F → Commercial F → Result ConfigurationError (Commercial F)
  unfolding parse_discount parse_disclosure tier_at
  parse_rule kind_key rule (discount, disclosure, tiers) =
      if kind_key == "discount"
      then (do discount' ← parse_discount rule; ok (some discount', disclosure, tiers))
      else if kind_key == "pricing_disclosure"
      then (do disclosure' ← parse_disclosure rule; ok (discount, some disclosure', tiers))
      else (do
        kind ← required (unknown_kind kind_key) (to_commercial_kind kind_key)
        tier ← tier_at "tier" rule.tier
        ok (discount, disclosure, insert kind tier tiers))

  parse_commercial :
      List (String × RawRule F) → Commercial F → Result ConfigurationError (Commercial F)
  unfolding parse_rule
  parse_commercial [] rules = ok rules
  parse_commercial ((kind_key, rule) ∷ rest) rules = do
    rules' ← parse_rule kind_key rule rules
    parse_commercial rest rules'

  unfoldable pub parse_policy : String → RawPolicy F → Result ConfigurationError (AuthorityPolicy F)
  unfolding coerce_tier parse_action_tiers parse_commercial get_or
  parse_policy policy_id body = do
    default_raw ← required (missing_default policy_id) body.default_tier
    default_tier ← coerce_tier default_raw
    raise_if (is_auto_tier default_tier) (default_auto_execute policy_id)
    action_tiers ← parse_action_tiers body.action_tiers []
    rules ← parse_commercial body.commercial (none, none, [])
    ok (record {
      policy_id = get_or body.policy_id policy_id;
      default_tier = default_tier;
      action_tiers = action_tiers;
      discount = rules.0;
      pricing_disclosure = rules.1;
      commercial_tiers = rules.2;
    })

  parse_policies :
      List (String × RawPolicy F) → Result ConfigurationError (List (String × AuthorityPolicy F))
  parse_policies [] = ok []
  parse_policies ((policy_id, body) ∷ rest) = do
    policy ← parse_policy policy_id body
    policies ← parse_policies rest
    ok ((policy_id, policy) ∷ policies)

  nonempty_policies :
      List (String × RawPolicy F) → Result ConfigurationError (List (String × AuthorityPolicy F))
  unfolding parse_policies
  nonempty_policies [] = err no_policies
  nonempty_policies (entry ∷ rest) = parse_policies (entry ∷ rest)

  unfoldable pub load_authority_policies :
      Option (List (String × RawPolicy F))
      → Result ConfigurationError (List (String × AuthorityPolicy F))
  unfolding nonempty_policies
  load_authority_policies document = do
    policies_raw ← required file_not_found document
    nonempty_policies policies_raw

pub record AuthorityCheckInput (F : Type 0) : Type 0 where
  pub proposal_action : Option AgentAction
  pub commercial_request : Option (CommercialRequest F)
  pub policy : AuthorityPolicy F

pub record AuthorityResult : Type 0 where
  pub tier : AuthorityTier
  pub policy_id : String
  pub within_bounds : Option Bool
  pub escalation_hint : Option String

unfoldable pub is_auto : AuthorityResult → Bool
is_auto r = is_auto_tier r.tier

-- `_hint_for`
hint_for : AuthorityTier → Option String
hint_for human_approval_required = some "escalate_human_approval"
hint_for denied = some "deny_and_redirect"
hint_for policy_bounded = some "proceed_within_bounds"
hint_for auto_execute = none

tier_or : Option AuthorityTier → AuthorityTier → AuthorityTier
tier_or none default = default
tier_or (some tier) default = tier

classify_disclosure : AuthorityTier → Option PricingDisclosureRule → AuthorityTier
classify_disclosure default none = default
classify_disclosure default (some rule) = if rule.allowed then rule.tier else default

module _ {F : Type 0} where
  -- The tier of the action: mapped, or else the default.
  unfoldable pub action_tier : AuthorityPolicy F → Option AgentAction → AuthorityTier
  unfolding tier_or
  action_tier policy none = policy.default_tier
  action_tier policy (some action) = tier_or (lookup action policy.action_tiers) policy.default_tier

  classify_discount :
      (F → F → Bool)
      → AuthorityTier
      → Option (DiscountRule F)
      → Option F
      → AuthorityTier × Option Bool
  classify_discount le default none percent = (default, none)
  classify_discount le default (some rule) none = (default, none)
  classify_discount le default (some rule) (some percent) =
      let within = le percent rule.max_autonomous_percent in
      (if within then rule.within_tier else rule.over_tier, some within)

  classify_kind :
      (F → F → Bool)
      → AuthorityPolicy F
      → CommercialRequestKind
      → Option F
      → AuthorityTier × Option Bool
  unfolding classify_discount classify_disclosure tier_or
  classify_kind le policy CommercialRequestKind.discount percent =
      classify_discount le policy.default_tier policy.discount percent
  classify_kind le policy CommercialRequestKind.pricing_disclosure percent =
      (classify_disclosure policy.default_tier policy.pricing_disclosure, none)
  classify_kind le policy kind percent =
      (tier_or (lookup kind policy.commercial_tiers) policy.default_tier, none)

  -- `_classify_commercial`
  unfoldable pub classify_commercial :
      (F → F → Bool) → AuthorityPolicy F → CommercialRequest F → AuthorityTier × Option Bool
  unfolding classify_kind
  classify_commercial le policy req =
      classify_kind le policy req.kind req.requested_discount_percent

  result : AuthorityPolicy F → AuthorityTier → Option Bool → AuthorityResult
  unfolding hint_for
  result policy tier within = record {
    tier = tier;
    policy_id = policy.policy_id;
    within_bounds = within;
    escalation_hint = hint_for tier;
  }

  classify_request :
      (F → F → Bool)
      → AuthorityPolicy F
      → AuthorityTier
      → Option (CommercialRequest F)
      → AuthorityResult
  unfolding result
  classify_request le policy tier none = result policy tier none
  classify_request le policy tier (some req) =
      let (commercial_tier, within) = classify_commercial le policy req in
      result policy (more_restrictive tier commercial_tier) within

  unfoldable pub classify : (F → F → Bool) → AuthorityCheckInput F → AuthorityResult
  unfolding classify_request
  classify le check =
      classify_request le check.policy (action_tier check.policy check.proposal_action)
        check.commercial_request
