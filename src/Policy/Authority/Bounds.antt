-- ===== src/Policy/Authority/Bounds.antt =====
-- The tier that is assigned, and what autonomous execution needs.
use call_forge.Prelude.{
  String, ◌≤◌, Bool, true, false, ◌≡◌, refl, ap, Option, none, some, List, [], ◌∷◌, ok, required,
  >>=-eq-ok, raise_if-eq-ok, along_ok, lookup, arith, Bool-cases, inl, inr, ◌⊎◌, AllEntries,
}
use call_forge.Vocabulary.{
  AgentAction, CommercialRequestKind, agent_action_eq, commercial_request_kind_eq,
}
use call_forge.Policy.Authority.{
  AuthorityTier, auto_execute, is_auto_tier, restrictiveness, more_restrictive, tier_or,
  DiscountRule, AuthorityPolicy, CommercialRequest, RawPolicy, coerce_tier, parse_policy,
  parse_policies, parse_action_tiers, parse_commercial, nonempty_policies, load_authority_policies,
  AuthorityCheckInput, is_auto, action_tier, classify_commercial, classify_request,
  classify_discount, classify_kind, classify, missing_default, file_not_found,
  PricingDisclosureRule, classify_disclosure,
}

more_restrictive-ge :
    (a b : AuthorityTier)
    → (restrictiveness a ≤ restrictiveness (more_restrictive a b))
      × (restrictiveness b ≤ restrictiveness (more_restrictive a b))
unfolding more_restrictive
more_restrictive-ge a b = ground arith

more_restrictive-auto :
    (a b : AuthorityTier)
    → more_restrictive a b ≡ auto_execute
    → (a ≡ auto_execute) × (b ≡ auto_execute)
unfolding more_restrictive
more_restrictive-auto a b h = ground arith

module _ {F : Type 0} (le : F → F → Bool) where
  -- What the two classifications say of the tier of a result.
  abbrev pub CommercialBelow :
      AuthorityPolicy F → Option (CommercialRequest F) → AuthorityTier → Type 0
  CommercialBelow policy none tier = Unit
  CommercialBelow policy (some req) tier =
      restrictiveness (classify_commercial le policy req).0 ≤ restrictiveness tier

  request_restricts :
      (policy : AuthorityPolicy F) (tier : AuthorityTier) (req : Option (CommercialRequest F))
      → (restrictiveness tier ≤ restrictiveness (classify_request le policy tier req).tier)
        × CommercialBelow policy req (classify_request le policy tier req).tier
  unfolding classify_request
  request_restricts policy tier none = (omega arith, tt)
  request_restricts policy tier (some req) =
      more_restrictive-ge tier (classify_commercial le policy req).0

  -- The tier of a proposal is at least as restrictive as the tier of its action, and as the tier of
  -- its commercial request where it has one.
  pub classify_restricts :
      (check : AuthorityCheckInput F)
      → (restrictiveness (action_tier check.policy check.proposal_action)
          ≤ restrictiveness (classify le check).tier)
        × CommercialBelow check.policy check.commercial_request (classify le check).tier
  unfolding classify
  classify_restricts check =
      request_restricts check.policy (action_tier check.policy check.proposal_action)
        check.commercial_request

-- The default of a policy does not let anything run by itself.
pub record IsGuarded {F : Type 0} (policy : AuthorityPolicy F) : Type 0 where
  pub guarded : is_auto_tier policy.default_tier ≡ false

module _ {F : Type 0} where
  parse_policy-IsGuarded :
      (id : String) (body : RawPolicy F) {p : AuthorityPolicy F}
      → parse_policy id body ≡ ok p
      → IsGuarded p
  unfolding parse_policy
  parse_policy-IsGuarded id body h =
      let (raw, _, h1) = >>=-eq-ok (required (missing_default id) body.default_tier) _ h in
      let (tier, _, h2) = >>=-eq-ok (coerce_tier raw) _ h1 in
      let (safe, h3) = raise_if-eq-ok (is_auto_tier tier) _ _ h2 in
      let (tiers, _, h4) = >>=-eq-ok (parse_action_tiers body.action_tiers []) _ h3 in
      let (rules, _, h5) = >>=-eq-ok (parse_commercial body.commercial (none, none, [])) _ h4 in
      along_ok IsGuarded h5 (record { guarded = safe })

  parse_policies-IsGuarded :
      (raw : List (String × RawPolicy F)) {ps : List (String × AuthorityPolicy F)}
      → parse_policies raw ≡ ok ps
      → AllEntries (λ id p. IsGuarded p) ps
  unfolding parse_policies
  parse_policies-IsGuarded [] h = along_ok (AllEntries (λ id p. IsGuarded p)) h tt
  parse_policies-IsGuarded ((id, body) ∷ rest) h =
      let (p, parsed, h1) = >>=-eq-ok (parse_policy id body) _ h in
      let (ps, others, h2) = >>=-eq-ok (parse_policies rest) _ h1 in
      along_ok (AllEntries (λ id p. IsGuarded p)) h2
        (parse_policy-IsGuarded id body parsed, parse_policies-IsGuarded rest others)

  nonempty-IsGuarded :
      (raw : List (String × RawPolicy F)) {ps : List (String × AuthorityPolicy F)}
      → nonempty_policies raw ≡ ok ps
      → AllEntries (λ id p. IsGuarded p) ps
  unfolding nonempty_policies
  nonempty-IsGuarded [] h = cc
  nonempty-IsGuarded (e ∷ rest) h = parse_policies-IsGuarded (e ∷ rest) h

  -- No policy that the loader returns has AUTO_EXECUTE for its default tier.
  pub load_authority_policies-IsGuarded :
      (document : Option (List (String × RawPolicy F))) {ps : List (String × AuthorityPolicy F)}
      → load_authority_policies document ≡ ok ps
      → AllEntries (λ id p. IsGuarded p) ps
  unfolding load_authority_policies
  load_authority_policies-IsGuarded document h =
      let (raw, _, h1) = >>=-eq-ok (required file_not_found document) _ h in
      nonempty-IsGuarded raw h1

not_auto : (t : AuthorityTier) → is_auto_tier t ≡ false → t ≡ auto_execute → ⊥
not_auto t g h = ground arith

mapped_auto :
    (mapped : Option AuthorityTier) (default : AuthorityTier)
    → is_auto_tier default ≡ false
    → tier_or mapped default ≡ auto_execute
    → mapped ≡ some auto_execute
unfolding tier_or
mapped_auto none default g h = absurd (not_auto default g h)
mapped_auto (some t) default g h = ap some h

disclosure_auto :
    (default : AuthorityTier) (rule : Option PricingDisclosureRule)
    → is_auto_tier default ≡ false
    → classify_disclosure default rule ≡ auto_execute
    → (r : PricingDisclosureRule) × (rule ≡ some r) × (r.allowed ≡ true) × (r.tier ≡ auto_execute)
unfolding classify_disclosure
disclosure_auto default none g h = absurd (not_auto default g h)
disclosure_auto default (some r) g h = elim (Bool-cases r.allowed) [
  | inl allowed ↦ (r, refl, allowed, rw allowed at h)
  | inr forbidden ↦ absurd (not_auto default g (rw forbidden at h))
]

module _ {F : Type 0} (le : F → F → Bool) where
  -- What autonomous execution of a commercial request rests on.
  abbrev pub Authorized : AuthorityPolicy F → CommercialRequestKind → Option F → Type 0
  Authorized policy CommercialRequestKind.discount percent =
      (rule : DiscountRule F) × (policy.discount ≡ some rule)
      × (q : F) × (percent ≡ some q)
      × (((le q rule.max_autonomous_percent ≡ true) × (rule.within_tier ≡ auto_execute))
          ⊎ ((le q rule.max_autonomous_percent ≡ false) × (rule.over_tier ≡ auto_execute)))
  Authorized policy CommercialRequestKind.pricing_disclosure percent =
      (rule : PricingDisclosureRule) × (policy.pricing_disclosure ≡ some rule)
      × (rule.allowed ≡ true)
      × (rule.tier ≡ auto_execute)
  Authorized policy kind percent = lookup kind policy.commercial_tiers ≡ some auto_execute

  discount_auto :
      (default : AuthorityTier) (rule : Option (DiscountRule F)) (percent : Option F)
      → is_auto_tier default ≡ false
      → (classify_discount le default rule percent).0 ≡ auto_execute
      → (r : DiscountRule F) × (rule ≡ some r)
        × (q : F) × (percent ≡ some q)
        × (((le q r.max_autonomous_percent ≡ true) × (r.within_tier ≡ auto_execute))
            ⊎ ((le q r.max_autonomous_percent ≡ false) × (r.over_tier ≡ auto_execute)))
  unfolding classify_discount
  discount_auto default none percent g h = absurd (not_auto default g h)
  discount_auto default (some r) none g h = absurd (not_auto default g h)
  discount_auto default (some r) (some q) g h = elim (Bool-cases (le q r.max_autonomous_percent)) [
    | inl within ↦ (r, refl, q, refl, inl (within, rw within at h))
    | inr over ↦ (r, refl, q, refl, inr (over, rw over at h))
  ]

  kind_auto :
      (policy : AuthorityPolicy F) (kind : CommercialRequestKind) (percent : Option F)
      → IsGuarded policy
      → (classify_kind le policy kind percent).0 ≡ auto_execute
      → Authorized policy kind percent
  unfolding classify_kind
  kind_auto policy CommercialRequestKind.discount percent g h =
      discount_auto policy.default_tier policy.discount percent g.guarded h
  kind_auto policy CommercialRequestKind.pricing_disclosure percent g h =
      disclosure_auto policy.default_tier policy.pricing_disclosure g.guarded h
  kind_auto policy kind percent g h =
      mapped_auto (lookup kind policy.commercial_tiers) policy.default_tier g.guarded h

  -- A commercial request, if there is one, is authorized.
  abbrev pub RequestAuthorized : AuthorityPolicy F → Option (CommercialRequest F) → Type 0
  RequestAuthorized policy none = Unit
  RequestAuthorized policy (some req) = Authorized policy req.kind req.requested_discount_percent

  action_auto :
      (policy : AuthorityPolicy F) (action : Option AgentAction)
      → IsGuarded policy
      → action_tier policy action ≡ auto_execute
      → (a : AgentAction) × (action ≡ some a) × (lookup a policy.action_tiers ≡ some auto_execute)
  unfolding action_tier
  action_auto policy none g h = absurd (not_auto policy.default_tier g.guarded h)
  action_auto policy (some a) g h =
      (a, refl, mapped_auto (lookup a policy.action_tiers) policy.default_tier g.guarded h)

  request_auto :
      (policy : AuthorityPolicy F) (tier : AuthorityTier) (req : Option (CommercialRequest F))
      → IsGuarded policy
      → (classify_request le policy tier req).tier ≡ auto_execute
      → (tier ≡ auto_execute) × RequestAuthorized policy req
  unfolding classify_request classify_commercial
  request_auto policy tier none g h = (h, tt)
  request_auto policy tier (some req) g h =
      let (own, commercial) = more_restrictive-auto tier (classify_commercial le policy req).0 h in
      (own, kind_auto policy req.kind req.requested_discount_percent g commercial)

  -- Under a policy whose default is not AUTO_EXECUTE, a proposal runs by itself only if its action is
  -- mapped to AUTO_EXECUTE and its commercial request, if it has one, is authorized: a discount by a
  -- rule whose tier on the request's side of the bound is AUTO_EXECUTE, a price disclosure by a rule
  -- that allows it with that tier, any other kind by its own mapping to that tier.
  pub classify_auto :
      (check : AuthorityCheckInput F)
      → IsGuarded check.policy
      → is_auto (classify le check) ≡ true
      → ((a : AgentAction) × (check.proposal_action ≡ some a)
          × (lookup a check.policy.action_tiers ≡ some auto_execute))
        × RequestAuthorized check.policy check.commercial_request
  unfolding classify is_auto
  classify_auto check g h =
      let (own, request) =
        request_auto check.policy (action_tier check.policy check.proposal_action)
          check.commercial_request g (ground arith) in
      (action_auto check.policy check.proposal_action g own, request)
