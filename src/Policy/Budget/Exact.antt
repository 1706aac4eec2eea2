-- ===== src/Policy/Budget/Exact.antt =====
-- When a call may go on, and under which ceiling.
use mathlib.Core.Path.{subst}
use call_forge.Prelude.{
  String, ℤ, pos, ltb_ℤ, ◌≤ℤ◌, Bool, true, false, ◌≡◌, ◌↔◌, refl, Option, none, some, List, [], ◌∷◌,
  ok, required, >>=-eq-ok, raise_if-eq-ok, along_ok, lookup, string_eq, arith, sym, ◌∙◌,
  some_injective, Bool-cases, inl, inr, AllEntries,
}
use call_forge.Policy.Budget.{
  BudgetPolicy, BudgetState, RawPolicy, parse_limit, parse_policy, parse_policies, is_empty,
  no_policies, integer, load_budget_policies, BudgetOutcome, BudgetCheckInput, exhausted, tighter,
  within_budget, check_budget, evaluate, file_not_found, missing_limit, not_positive, Scalar,
}

-- Something of the dimension is known to remain.
abbrev pub Remains : Option ℤ → Type 0
Remains none = ⊥
Remains (some n) = pos 1 ≤ℤ n

-- No trusted signal ends the call, policy and state are known, and no per-call budget is used up.
pub record MayContinue (check : BudgetCheckInput) : Type 0 where
  pub no_dnc : check.exit_signals.dnc ≡ false
  pub no_refusal : check.exit_signals.not_interested ≡ false
  pub no_callback : check.exit_signals.callback_scheduled ≡ false
  pub no_contact : check.exit_signals.contact_confirmed ≡ false
  pub policy : BudgetPolicy
  pub has_policy : check.policy ≡ some policy
  pub state : BudgetState
  pub has_state : check.budget_state ≡ some state
  pub calls_remain : Remains state.reasoning_calls_remaining
  pub turns_remain : Remains state.turns_remaining
  pub seconds_remain : Remains state.seconds_remaining

-- The call goes on: the decision lets this turn be spoken.
abbrev pub goes_on : BudgetOutcome → Bool
goes_on BudgetOutcome.proceed = true
goes_on BudgetOutcome.constrain_response = true
goes_on _ = false

remains : (o : Option ℤ) → exhausted o ≡ false → Remains o
unfolding exhausted
remains none h = cc
remains (some n) h = ground arith

not_exhausted : (o : Option ℤ) → Remains o → exhausted o ≡ false
unfolding exhausted
not_exhausted none h = absurd h
not_exhausted (some n) h = ground arith

within_goes_on : (p : BudgetPolicy) (s : BudgetState) → goes_on (within_budget p s).outcome ≡ true
unfolding within_budget
within_goes_on p s = ground arith

budget_left :
    (p : Option BudgetPolicy) (s : Option BudgetState)
    → goes_on (check_budget p s).outcome ≡ true
    → (policy : BudgetPolicy) × (p ≡ some policy)
      × (state : BudgetState) × (s ≡ some state)
      × (exhausted state.reasoning_calls_remaining ≡ false)
      × (exhausted state.turns_remaining ≡ false)
      × (exhausted state.seconds_remaining ≡ false)
unfolding check_budget
budget_left none s h = cc
budget_left (some p) none h = cc
budget_left (some p) (some s) h = (p, refl, s, refl, ground arith, ground arith, ground arith)

evaluate_sound :
    (check : BudgetCheckInput) → goes_on (evaluate check).outcome ≡ true → MayContinue check
unfolding evaluate
evaluate_sound check h =
    let (p, has_p, s, has_s, calls, turns, seconds) =
      budget_left check.policy check.budget_state (ground arith) in
    record {
      no_dnc = ground arith;
      no_refusal = ground arith;
      no_callback = ground arith;
      no_contact = ground arith;
      policy = p;
      has_policy = has_p;
      state = s;
      has_state = has_s;
      calls_remain = remains s.reasoning_calls_remaining calls;
      turns_remain = remains s.turns_remaining turns;
      seconds_remain = remains s.seconds_remaining seconds;
    }

evaluate-within :
    (check : BudgetCheckInput) (c : MayContinue check)
    → evaluate check ≡ within_budget c.policy c.state
unfolding evaluate
evaluate-within check c =
    rw (c.no_dnc, c.no_refusal, c.no_callback, c.no_contact, c.has_policy, c.has_state)
      (unfold check_budget in
        rw (not_exhausted c.state.reasoning_calls_remaining c.calls_remain) (
          rw (not_exhausted c.state.turns_remaining c.turns_remain)
            (rw (not_exhausted c.state.seconds_remaining c.seconds_remain) refl)))

-- The call goes on, by PROCEED or CONSTRAIN_RESPONSE, exactly if no trusted signal ends it, a policy
-- and a budget state are known, and each of the three per-call budgets is known to be positive.
pub evaluate_exact :
    (check : BudgetCheckInput) → (goes_on (evaluate check).outcome ≡ true) ↔ MayContinue check
evaluate_exact check =
    (evaluate_sound check, λ c. rw (evaluate-within check c) (within_goes_on c.policy c.state))

-- The ceiling that a decision sets, if it sets one, and a bound for it.
abbrev pub CeilingWithin : ℤ → Option ℤ → Type 0
CeilingWithin bound none = ⊥
CeilingWithin bound (some n) = n ≤ℤ bound

tight_within : (o : Option ℤ) (c : ℤ) → tighter o c ≡ true → CeilingWithin c o
unfolding tighter
tight_within none c h = cc
tight_within (some n) c h = ground arith

within_ceiling :
    (p : BudgetPolicy) (s : BudgetState)
    → CeilingWithin p.limits.max_response_sentences (within_budget p s).response_ceiling
unfolding within_budget
within_ceiling p s =
    elim (Bool-cases (tighter s.max_response_sentences p.limits.max_response_sentences)) [
      | inl tight ↦
          rw tight (tight_within s.max_response_sentences p.limits.max_response_sentences tight)
      | inr loose ↦ rw loose (omega arith)
    ]

-- A call that goes on under a policy has a response ceiling, which is at most the policy's.
pub evaluate_ceiling :
    (check : BudgetCheckInput) (policy : BudgetPolicy)
    → check.policy ≡ some policy
    → goes_on (evaluate check).outcome ≡ true
    → CeilingWithin policy.limits.max_response_sentences (evaluate check).response_ceiling
evaluate_ceiling check policy has h =
    let c = evaluate_sound check h in
    let same : c.policy ≡ policy = some_injective c.policy policy (sym c.has_policy ∙ has) in
    subst (λ p. CeilingWithin p.limits.max_response_sentences (evaluate check).response_ceiling)
      same (rw (evaluate-within check c) (within_ceiling c.policy c.state))

-- Each of the four limits is at least 1.
pub record IsPositive (p : BudgetPolicy) : Type 0 where
  pub reasoning_calls : pos 1 ≤ℤ p.limits.max_reasoning_calls
  pub turns : pos 1 ≤ℤ p.limits.max_turns
  pub call_seconds : pos 1 ≤ℤ p.limits.max_call_seconds
  pub response_sentences : pos 1 ≤ℤ p.limits.max_response_sentences

parse_limit-positive :
    (policy_id : String) (raw : List (String × Scalar)) (key : String) {n : ℤ}
    → parse_limit policy_id raw key ≡ ok n
    → pos 1 ≤ℤ n
unfolding parse_limit
parse_limit-positive policy_id raw key h =
    let (v, _, h1) = >>=-eq-ok (required (missing_limit policy_id key) (lookup key raw)) _ h in
    let (k, _, h2) = >>=-eq-ok (required (not_positive policy_id key) (integer v)) _ h1 in
    let (high, h3) = raise_if-eq-ok (ltb_ℤ k (pos 1)) _ _ h2 in
    along_ok (λ x. pos 1 ≤ℤ x) h3 (ground arith)

parse_policy-IsPositive :
    (policy_id : String) (body : RawPolicy) {p : BudgetPolicy}
    → parse_policy policy_id body ≡ ok p
    → IsPositive p
unfolding parse_policy
parse_policy-IsPositive policy_id body h =
    let (_, h1) = raise_if-eq-ok (is_empty body.limits) _ _ h in
    let (a, pa, h2) = >>=-eq-ok (parse_limit policy_id body.limits "max_reasoning_calls") _ h1 in
    let (b, pb, h3) = >>=-eq-ok (parse_limit policy_id body.limits "max_turns") _ h2 in
    let (c, pc, h4) = >>=-eq-ok (parse_limit policy_id body.limits "max_call_seconds") _ h3 in
    let (d, pd, h5) = >>=-eq-ok (parse_limit policy_id body.limits "max_response_sentences") _ h4 in
    along_ok IsPositive h5 (record {
      reasoning_calls = parse_limit-positive policy_id body.limits _ pa;
      turns = parse_limit-positive policy_id body.limits _ pb;
      call_seconds = parse_limit-positive policy_id body.limits _ pc;
      response_sentences = parse_limit-positive policy_id body.limits _ pd;
    })

parse_policies-IsPositive :
    (raw : List (String × RawPolicy)) {policies : List (String × BudgetPolicy)}
    → parse_policies raw ≡ ok policies
    → AllEntries (λ id p. IsPositive p) policies
unfolding parse_policies
parse_policies-IsPositive [] h = along_ok (AllEntries (λ id p. IsPositive p)) h tt
parse_policies-IsPositive ((id, body) ∷ rest) h =
    let (p, parsed, h1) = >>=-eq-ok (parse_policy id body) _ h in
    let (ps, others, h2) = >>=-eq-ok (parse_policies rest) _ h1 in
    along_ok (AllEntries (λ id p. IsPositive p)) h2
      (parse_policy-IsPositive id body parsed, parse_policies-IsPositive rest others)

-- Every policy that the loader returns has four limits of at least 1.
pub load_budget_policies-IsPositive :
    (document : Option (List (String × RawPolicy))) {policies : List (String × BudgetPolicy)}
    → load_budget_policies document ≡ ok policies
    → AllEntries (λ id p. IsPositive p) policies
unfolding load_budget_policies
load_budget_policies-IsPositive document h =
    let (raw, _, h1) = >>=-eq-ok (required file_not_found document) _ h in
    let (_, h2) = raise_if-eq-ok (is_empty raw) no_policies _ h1 in parse_policies-IsPositive raw h2
