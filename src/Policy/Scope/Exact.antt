-- ===== src/Policy/Scope/Exact.antt =====
-- When a proposal is in scope, and what the loader promises of a policy.
use mathlib.Core.Bool.{false≢true}
use call_forge.Prelude.{
  String, Bool, true, false, not, ◌&&◌, ◌≡◌, ◌≢◌, ◌↔◌, refl, sym, ◌∙◌, Option, none, some, List, [],
  ◌∷◌, ok, required, >>=-eq-ok, raise_if-eq-ok, along_ok, ◌==◌, member, arith, Bool-cases, inl, inr,
  AllEntries,
}
use call_forge.Vocabulary.{AgentAction, TopicCategory, agent_action_eq, topic_category_eq}
use call_forge.Policy.Scope.{
  ScopePolicy, RawPolicy, is_empty, meet, minus, coerce_topics, coerce_actions, parse_policy,
  parse_policies, load_scope_policies, ScopeCheckInput, is_in_scope, disallowed, check_topic,
  validate, file_not_found, no_policies,
}

abbrev pub ActionAllowed : ScopePolicy → Option AgentAction → Type 0
ActionAllowed policy none = Unit
ActionAllowed policy (some action) = member action policy.allowed_actions ≡ true

-- A proposal that the policy lets through.
pub record InScope (check : ScopeCheckInput) : Type 0 where
  pub known : check.proposal_topic ≢ TopicCategory.unknown
  pub unrestricted : member check.proposal_topic check.policy.restricted_topics ≡ false
  pub action_allowed : ActionAllowed check.policy check.proposal_action
  pub topic_allowed : member check.proposal_topic check.policy.allowed_topics ≡ true

check_topic_sound :
    (p : ScopePolicy) (t : TopicCategory) (a : Option AgentAction)
    → is_in_scope (check_topic p t (disallowed p a)) ≡ true
    → ActionAllowed p a × (member t p.allowed_topics ≡ true)
unfolding check_topic disallowed
check_topic_sound p t none h = (tt, ground arith)
check_topic_sound p t (some a) h = elim (Bool-cases (member a p.allowed_actions)) [
  | inl allowed ↦ (allowed, topic (rw allowed at h))
  | inr other ↦ absurd (false≢true (rw other at h))
]
  where
    topic : is_in_scope (check_topic p t none) ≡ true → member t p.allowed_topics ≡ true
    topic g = ground arith

check_topic_complete :
    (p : ScopePolicy) (t : TopicCategory) (a : Option AgentAction)
    → ActionAllowed p a
    → member t p.allowed_topics ≡ true
    → (is_in_scope (check_topic p t (disallowed p a)) ≡ true)
      × ((check_topic p t (disallowed p a)).requires_escalation ≡ member t p.escalation_topics)
unfolding check_topic disallowed
check_topic_complete p t none a h = (rw h refl, rw h refl)
check_topic_complete p t (some a) allowed h = (rw allowed (rw h refl), rw allowed (rw h refl))

unknown_test :
    (t : TopicCategory) → t ≢ TopicCategory.unknown → (t == TopicCategory.unknown) ≡ false
unknown_test t h = elim (Bool-cases (t == TopicCategory.unknown)) [
  | inl same ↦ absurd (h ((topic_category_eq.same_iff t TopicCategory.unknown).0 same))
  | inr other ↦ other
]

validate_sound : (check : ScopeCheckInput) → is_in_scope (validate check) ≡ true → InScope check
unfolding validate
validate_sound check h = elim (Bool-cases (check.proposal_topic == TopicCategory.unknown)) [
  | inl same ↦ absurd (false≢true (rw same at h))
  | inr other ↦ elim (Bool-cases (member check.proposal_topic check.policy.restricted_topics)) [
    | inl restricted ↦ absurd (false≢true (rw restricted at (rw other at h)))
    | inr free ↦
        let (action, topic) =
          check_topic_sound check.policy check.proposal_topic check.proposal_action
            (rw free at (rw other at h)) in
        record {
          known = λ e. false≢true (
              sym other
              ∙ (topic_category_eq.same_iff check.proposal_topic TopicCategory.unknown).1 e);
          unrestricted = free;
          action_allowed = action;
          topic_allowed = topic;
        }
  ]
]

validate_complete :
    (check : ScopeCheckInput)
    → InScope check
    → (is_in_scope (validate check) ≡ true)
      × ((validate check).requires_escalation
          ≡ member check.proposal_topic check.policy.escalation_topics)
unfolding validate
validate_complete check s =
    let (yes_, flag) =
      check_topic_complete check.policy check.proposal_topic check.proposal_action s.action_allowed
        s.topic_allowed in
    (
      rw (unknown_test check.proposal_topic s.known) (rw s.unrestricted yes_),
      rw (unknown_test check.proposal_topic s.known) (rw s.unrestricted flag),
    )

-- A proposal is in scope exactly if its topic is known, not restricted and allowed, and its action,
-- if it has one, is allowed.
pub scope_exact : (check : ScopeCheckInput) → (is_in_scope (validate check) ≡ true) ↔ InScope check
scope_exact check = (validate_sound check, λ s. (validate_complete check s).0)

-- No topic is both allowed and restricted, and every escalation topic is allowed.
pub record IsConsistent (p : ScopePolicy) : Type 0 where
  pub disjoint :
      (t : TopicCategory) → member t p.allowed_topics ≡ true → member t p.restricted_topics ≡ false
  pub escalates_allowed :
      (t : TopicCategory) → member t p.escalation_topics ≡ true → member t p.allowed_topics ≡ true

module _ (t : TopicCategory) where
  meet_empty :
      (xs ys : List TopicCategory)
      → is_empty (meet xs ys) ≡ true
      → member t xs ≡ true
      → member t ys ≡ false
  unfolding meet is_empty member
  meet_empty [] ys h m = cc
  meet_empty (x ∷ xs) ys h m = elim (Bool-cases (member x ys)) [
    | inl both ↦ absurd (false≢true (rw both at h))
    | inr only ↦ elim (Bool-cases (x == t)) [
      | inl same ↦ cc ((topic_category_eq.same_iff x t).0 same, only)
      | inr other ↦ meet_empty xs ys (rw only at h) (rw other at m)
    ]
  ]

  minus_empty :
      (xs ys : List TopicCategory)
      → is_empty (minus xs ys) ≡ true
      → member t xs ≡ true
      → member t ys ≡ true
  unfolding minus is_empty member
  minus_empty [] ys h m = cc
  minus_empty (x ∷ xs) ys h m = elim (Bool-cases (member x ys)) [
    | inr only ↦ absurd (false≢true (rw only at h))
    | inl both ↦ elim (Bool-cases (x == t)) [
      | inl same ↦ cc ((topic_category_eq.same_iff x t).0 same, both)
      | inr other ↦ minus_empty xs ys (rw both at h) (rw other at m)
    ]
  ]

emptied : (b : Bool) → not b ≡ false → b ≡ true
emptied b h = ground arith

parse_policy-IsConsistent :
    (id : String) (body : RawPolicy) {p : ScopePolicy}
    → parse_policy id body ≡ ok p
    → IsConsistent p
unfolding parse_policy
parse_policy-IsConsistent id body h =
    let (_, h1) =
      raise_if-eq-ok (is_empty body.allowed_topics && is_empty body.allowed_actions) _ _ h in
    let (allowed, _, h2) = >>=-eq-ok (coerce_topics body.allowed_topics) _ h1 in
    let (actions, _, h3) = >>=-eq-ok (coerce_actions body.allowed_actions) _ h2 in
    let (restricted, _, h4) = >>=-eq-ok (coerce_topics body.restricted_topics) _ h3 in
    let (escalation, _, h5) = >>=-eq-ok (coerce_topics body.escalation_topics) _ h4 in
    let (apart, h6) = raise_if-eq-ok (not (is_empty (meet allowed restricted))) _ _ h5 in
    let (inside, h7) = raise_if-eq-ok (not (is_empty (minus escalation allowed))) _ _ h6 in
    along_ok IsConsistent h7 (record {
      disjoint =
          λ t. meet_empty t allowed restricted (emptied (is_empty (meet allowed restricted)) apart);
      escalates_allowed = λ t.
          minus_empty t escalation allowed (emptied (is_empty (minus escalation allowed)) inside);
    })

parse_policies-IsConsistent :
    (raw : List (String × RawPolicy)) {ps : List (String × ScopePolicy)}
    → parse_policies raw ≡ ok ps
    → AllEntries (λ id p. IsConsistent p) ps
unfolding parse_policies
parse_policies-IsConsistent [] h = along_ok (AllEntries (λ id p. IsConsistent p)) h tt
parse_policies-IsConsistent ((id, body) ∷ rest) h =
    let (p, parsed, h1) = >>=-eq-ok (parse_policy id body) _ h in
    let (ps, others, h2) = >>=-eq-ok (parse_policies rest) _ h1 in
    along_ok (AllEntries (λ id p. IsConsistent p)) h2
      (parse_policy-IsConsistent id body parsed, parse_policies-IsConsistent rest others)

-- In every policy that the loader returns no topic is both allowed and restricted, and every
-- escalation topic is allowed.
pub load_scope_policies-IsConsistent :
    (document : Option (List (String × RawPolicy))) {ps : List (String × ScopePolicy)}
    → load_scope_policies document ≡ ok ps
    → AllEntries (λ id p. IsConsistent p) ps
unfolding load_scope_policies
load_scope_policies-IsConsistent document h =
    let (raw, _, h1) = >>=-eq-ok (required file_not_found document) _ h in
    let (_, h2) = raise_if-eq-ok (is_empty raw) no_policies _ h1 in
    parse_policies-IsConsistent raw h2
