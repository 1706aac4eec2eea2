-- ===== src/Policy/Budget.antt =====
-- app/brain/budget/models.py and evaluator.py, and `BudgetState` of app/brain/contracts.py. The parsed
-- policy file is an argument, `none` where the file does not exist.
pub mod Exact
use call_forge.Prelude.{
  String, ℕ, ℤ, pos, ltb_ℤ, leb_ℤ, Bool, true, false, Option, none, some, List, [], ◌∷◌, Result, ok,
  err, raise_if, required, ◌>>=◌, ◌>>◌, lookup, string_eq, if◌then◌else◌,
}

pub record BudgetLimits : Type 0 where
  pub max_reasoning_calls : ℤ
  pub max_turns : ℤ
  pub max_call_seconds : ℤ
  pub max_response_sentences : ℤ

pub record BudgetPolicy : Type 0 where
  pub policy_id : String
  pub limits : BudgetLimits

pub record BudgetState : Type 0 where
  pub turns_remaining : Option ℤ
  pub seconds_remaining : Option ℤ
  pub reasoning_calls_remaining : Option ℤ
  pub max_response_sentences : Option ℤ

-- A scalar of the file. Python's bools are integers, True being 1.
pub data Scalar : Type 0 where
  number : ℤ → Scalar
  flag : Bool → Scalar
  other : Scalar

-- `limits` is empty where the file has none.
pub record RawPolicy : Type 0 where
  pub policy_id : Option String
  pub limits : List (String × Scalar)

pub data ConfigurationError : Type 0 where
  file_not_found no_policies : ConfigurationError
  missing_limits : String → ConfigurationError
  missing_limit not_positive : String → String → ConfigurationError

-- `isinstance(val, int)`, with the integer.
integer : Scalar → Option ℤ
integer (number n) = some n
integer (flag true) = some (pos 1)
integer (flag false) = some (pos 0)
integer other = none

parse_limit : String → List (String × Scalar) → String → Result ConfigurationError ℤ
unfolding integer
parse_limit policy_id limits_raw key = do
  val ← required (missing_limit policy_id key) (lookup key limits_raw)
  n ← required (not_positive policy_id key) (integer val)
  raise_if (ltb_ℤ n (pos 1)) (not_positive policy_id key)
  ok n

is_empty {ℓ} : {A : Type ℓ} → List A → Bool
is_empty [] = true
is_empty (x ∷ xs) = false

get_or : Option String → String → String
get_or none default = default
get_or (some value) default = value

unfoldable pub parse_policy : String → RawPolicy → Result ConfigurationError BudgetPolicy
unfolding is_empty parse_limit get_or
parse_policy policy_id body = do
  raise_if (is_empty body.limits) (missing_limits policy_id)
  reasoning_calls ← parse_limit policy_id body.limits "max_reasoning_calls"
  turns ← parse_limit policy_id body.limits "max_turns"
  call_seconds ← parse_limit policy_id body.limits "max_call_seconds"
  response_sentences ← parse_limit policy_id body.limits "max_response_sentences"
  ok (record {
    policy_id = get_or body.policy_id policy_id;
    limits = record {
      max_reasoning_calls = reasoning_calls;
      max_turns = turns;
      max_call_seconds = call_seconds;
      max_response_sentences = response_sentences;
    };
  })

parse_policies :
    List (String × RawPolicy) → Result ConfigurationError (List (String × BudgetPolicy))
parse_policies [] = ok []
parse_policies ((policy_id, body) ∷ rest) = do
  policy ← parse_policy policy_id body
  policies ← parse_policies rest
  ok ((policy_id, policy) ∷ policies)

unfoldable pub load_budget_policies :
    Option (List (String × RawPolicy)) → Result ConfigurationError (List (String × BudgetPolicy))
unfolding is_empty parse_policies
load_budget_policies document = do
  policies_raw ← required file_not_found document
  raise_if (is_empty policies_raw) no_policies
  parse_policies policies_raw

pub data BudgetOutcome : Type 0 where
  proceed constrain_response wind_down early_exit : BudgetOutcome

pub data ExitKind : Type 0 where
  dnc not_interested callback contact_obtained budget_exhausted : ExitKind

pub record TrustedExitSignals : Type 0 where
  pub dnc : Bool
  pub not_interested : Bool
  pub callback_scheduled : Bool
  pub contact_confirmed : Bool

pub record BudgetCheckInput : Type 0 where
  pub budget_state : Option BudgetState
  pub exit_signals : TrustedExitSignals
  pub policy : Option BudgetPolicy

pub record BudgetDecision : Type 0 where
  pub outcome : BudgetOutcome
  pub reason : String
  pub exit_kind : Option ExitKind
  pub response_ceiling : Option ℤ
  pub policy_id : Option String

-- `_pid`
pid : Option BudgetPolicy → Option String
pid none = none
pid (some policy) = some policy.policy_id

-- `_exhausted`
unfoldable pub exhausted : Option ℤ → Bool
exhausted none = true
exhausted (some remaining) = leb_ℤ remaining (pos 0)

exit_with : String → ExitKind → Option String → BudgetDecision
exit_with reason kind policy_id = record {
  outcome = BudgetOutcome.early_exit;
  reason = reason;
  exit_kind = some kind;
  response_ceiling = none;
  policy_id = policy_id;
}

-- `_wind`, and the fail-closed decision, which has the same form.
wind : String → Option String → BudgetDecision
wind reason policy_id = record {
  outcome = BudgetOutcome.wind_down;
  reason = reason;
  exit_kind = some ExitKind.budget_exhausted;
  response_ceiling = none;
  policy_id = policy_id;
}

-- `state.max_response_sentences is not None and … < policy_ceiling`
tighter : Option ℤ → ℤ → Bool
tighter none ceiling = false
tighter (some sentences) ceiling = ltb_ℤ sentences ceiling

within_budget : BudgetPolicy → BudgetState → BudgetDecision
unfolding tighter
within_budget policy state =
    let policy_ceiling = policy.limits.max_response_sentences in
    if tighter state.max_response_sentences policy_ceiling
    then record {
      outcome = BudgetOutcome.constrain_response;
      reason = "response budget tight; tighter ceiling applied";
      exit_kind = none;
      response_ceiling = state.max_response_sentences;
      policy_id = some policy.policy_id;
    }
    else record {
      outcome = BudgetOutcome.proceed;
      reason = "within budget";
      exit_kind = none;
      response_ceiling = some policy_ceiling;
      policy_id = some policy.policy_id;
    }

check_budget : Option BudgetPolicy → Option BudgetState → BudgetDecision
unfolding wind within_budget pid
check_budget none state = wind "fail-closed: missing budget policy or state" none
check_budget (some policy) none =
    wind "fail-closed: missing budget policy or state" (some policy.policy_id)
check_budget (some policy) (some state) =
    if exhausted state.reasoning_calls_remaining
    then wind "reasoning_calls exhausted" (some policy.policy_id)
    else if exhausted state.turns_remaining
    then wind "turns exhausted" (some policy.policy_id)
    else if exhausted state.seconds_remaining
    then wind "call_duration exhausted" (some policy.policy_id)
    else within_budget policy state

unfoldable pub evaluate : BudgetCheckInput → BudgetDecision
unfolding exit_with check_budget pid
evaluate check =
    let signals = check.exit_signals in
    if signals.dnc
    then exit_with "trusted signal: dnc" ExitKind.dnc (pid check.policy)
    else if signals.not_interested
    then exit_with "trusted signal: not_interested" ExitKind.not_interested (pid check.policy)
    else if signals.callback_scheduled
    then exit_with "trusted signal: callback_scheduled" ExitKind.callback (pid check.policy)
    else if signals.contact_confirmed
    then exit_with "trusted signal: contact_confirmed" ExitKind.contact_obtained (pid check.policy)
    else check_budget check.policy check.budget_state
