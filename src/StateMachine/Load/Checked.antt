-- ===== src/StateMachine/Load/Checked.antt =====
-- What the cross-reference checks and the fallback section establish.
use text.Mathlib.TextEquality.{eq_iff}
use call_forge.Prelude.{
  String, ℤ, not, ◌&&◌, ◌≡◌, inl, inr, Option, none, some, List, [], ◌∷◌, arith, ok, along_ok,
  raise_if, required, ◌>>=◌, >>=-eq-ok, raise_if-eq-ok, required-eq-ok, ◌==◌, string_eq, is_some,
  member, has_key, lookup, insert, AllEntries, AllEntries-insert, AllEntries-both, Bool-cases,
}
use call_forge.Vocabulary.{
  ConversationState, AgentAction, conversation_state_eq, agent_action_eq, to_state,
}
use call_forge.StateMachine.Config.{
  previous_state_sentinel, TransitionRule, StateDefinition, FallbackConfig, RawMapping,
  RawFallbacks, unknown_state, undefined_target, fallback_unknown_state, outcome_without_terminal,
}
use call_forge.StateMachine.Load.{
  States, Rules, coerce_state, check_rule_target, check_targets, check_bucket, check_buckets,
  check_states, StateMappings, parse_by_state, parse_mapping, parse_by_category, parse_fallbacks,
  parse_optional_fallbacks,
}
use call_forge.StateMachine.WellFormed.{TargetOk, BucketOk, IsFallback, FallbacksOk}

module _ (terminal_states : List ConversationState) (states : States) where
  named_target :
      (d : StateDefinition) (rule : TransitionRule) {u : Unit {0}}
      → (coerce_state rule.target >>= λ t.
          (raise_if (not (has_key t states)) (undefined_target d.name rule.target) >>= λ _.
          raise_if
            (is_some rule.outcome && not (member t terminal_states))
            (outcome_without_terminal d.name rule.action)))
        ≡ ok u
      → TargetOk terminal_states states rule
  unfolding coerce_state
  named_target d rule h =
      let (t, named, h1) = >>=-eq-ok (coerce_state rule.target) _ h in
      let (defined, h2) = raise_if-eq-ok (not (has_key t states)) _ _ h1 in
      inr (
        t,
        required-eq-ok (unknown_state rule.target) (to_state rule.target) named,
        ground arith,
        λ o. ground arith,
      )

  check_rule_target-TargetOk :
      (d : StateDefinition) (rule : TransitionRule) {u : Unit {0}}
      → check_rule_target terminal_states states d rule ≡ ok u
      → TargetOk terminal_states states rule
  unfolding check_rule_target
  check_rule_target-TargetOk d rule h = elim (Bool-cases (rule.target == previous_state_sentinel)) [
    | inl back ↦ inl ((eq_iff rule.target previous_state_sentinel).0 back)
    | inr named ↦ named_target d rule (rw named at h)
  ]

  check_targets-TargetOk :
      (d : StateDefinition) (rules : Rules) {u : Unit {0}}
      → check_targets terminal_states states d rules ≡ ok u
      → AllEntries (λ a r. TargetOk terminal_states states r) rules
  unfolding check_targets
  check_targets-TargetOk d [] h = tt
  check_targets-TargetOk d ((a, r) ∷ rest) h =
      let (_, first, h1) = >>=-eq-ok (check_rule_target terminal_states states d r) _ h in
      (check_rule_target-TargetOk d r first, check_targets-TargetOk d rest h1)

module _ (limits : List (String × ℤ)) where
  check_bucket-BucketOk :
      (bucket : Option String) {u : Unit {0}}
      → check_bucket limits bucket ≡ ok u
      → BucketOk limits bucket
  unfolding check_bucket
  check_bucket-BucketOk none h = tt
  check_bucket-BucketOk (some b) h = ground arith

  check_buckets-BucketOk :
      (rules : Rules) {u : Unit {0}}
      → check_buckets limits rules ≡ ok u
      → AllEntries (λ a r. BucketOk limits r.retry_bucket) rules
  unfolding check_buckets
  check_buckets-BucketOk [] h = tt
  check_buckets-BucketOk ((a, r) ∷ rest) h =
      let (_, first, h1) = >>=-eq-ok (check_bucket limits r.retry_bucket) _ h in
      (check_bucket-BucketOk r.retry_bucket first, check_buckets-BucketOk rest h1)

abbrev pub IsChecked :
    List ConversationState → States → List (String × ℤ) → AgentAction → TransitionRule → Type 0
IsChecked terminal_states states limits a r =
    TargetOk terminal_states states r × BucketOk limits r.retry_bucket

pub check_states-IsChecked :
    (terminal_states : List ConversationState) (limits : List (String × ℤ)) (states rest : States)
    {u : Unit {0}}
    → check_states terminal_states limits states rest ≡ ok u
    → AllEntries (λ s d. AllEntries (IsChecked terminal_states states limits) d.transitions) rest
unfolding check_states
check_states-IsChecked terminal_states limits states [] h = tt
check_states-IsChecked terminal_states limits states ((s, d) ∷ rest) h =
    let (_, targets, h1) = >>=-eq-ok (check_targets terminal_states states d d.transitions) _ h in
    let (_, buckets, h2) = >>=-eq-ok (check_buckets limits d.transitions) _ h1 in
    (
      AllEntries-both _ _ d.transitions
          (check_targets-TargetOk terminal_states states d d.transitions targets)
          (check_buckets-BucketOk limits d.transitions buckets),
      check_states-IsChecked terminal_states limits states rest h2,
    )

parse_by_state-IsFallback :
    (states : States) (raw : List (String × RawMapping)) (acc : StateMappings)
    {by_state : StateMappings}
    → AllEntries (IsFallback states) acc
    → parse_by_state states raw acc ≡ ok by_state
    → AllEntries (IsFallback states) by_state
unfolding parse_by_state
parse_by_state-IsFallback states [] acc all h = along_ok (AllEntries (IsFallback states)) h all
parse_by_state-IsFallback states ((key, body) ∷ rest) acc all h =
    let (s, _, h1) = >>=-eq-ok (coerce_state key) _ h in
    let (f, _, h2) = >>=-eq-ok (parse_mapping _ body) _ h1 in
    let (d, found, h3) = >>=-eq-ok (required (fallback_unknown_state key) (lookup s states)) _ h2 in
    let (allowed, h4) = raise_if-eq-ok (not (member f.action d.allowed_actions)) _ _ h3 in
    parse_by_state-IsFallback states rest (insert s f acc)
      (AllEntries-insert (IsFallback states) s f acc
        (record {
          definition = d;
          defined = required-eq-ok (fallback_unknown_state key) (lookup s states) found;
          allowed = ground arith;
        })
        all)
      h4

pub parse_optional_fallbacks-FallbacksOk :
    (states : States) (raw : Option RawFallbacks) {f : Option FallbackConfig}
    → parse_optional_fallbacks states raw ≡ ok f
    → FallbacksOk states f
unfolding parse_optional_fallbacks parse_fallbacks
parse_optional_fallbacks-FallbacksOk states none h = along_ok (FallbacksOk states) h tt
parse_optional_fallbacks-FallbacksOk states (some raw) h =
    let (f, parsed, h1) = >>=-eq-ok (parse_fallbacks states raw) _ h in
    let (by_state, mapped, h2) = >>=-eq-ok (parse_by_state states raw.by_state []) _ parsed in
    let (by_category, _, h3) = >>=-eq-ok (parse_by_category raw.by_category []) _ h2 in
    let (default_raw, _, h4) = >>=-eq-ok (required _ raw.default) _ h3 in
    let (default, _, h5) = >>=-eq-ok (parse_mapping "default" default_raw) _ h4 in
    along_ok (FallbacksOk states) h1 (
      along_ok (λ c. FallbacksOk states (some c)) h5
        (parse_by_state-IsFallback states raw.by_state [] tt mapped))
