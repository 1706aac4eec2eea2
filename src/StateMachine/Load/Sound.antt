-- ===== src/StateMachine/Load/Sound.antt =====
-- What the loops of the loader establish, one lemma for each.
use call_forge.Prelude.{
  String, Bool, true, false, not, ◌&&◌, ◌≡◌, refl, List, [], ◌∷◌, arith, ok, along_ok, >>=-eq-ok,
  raise_if-eq-ok, string_eq, member, insert, AllEntries, AllEntries-insert, AllEntries-both,
}
use call_forge.Vocabulary.{ConversationState, AgentAction, conversation_state_eq, agent_action_eq}
use call_forge.StateMachine.Config.{TransitionRule, StateDefinition, RawRule, RawState}
use call_forge.StateMachine.Load.{
  States, Rules, coerce_state, coerce_action, parse_rule, parse_transitions, check_allowed,
  is_empty, parse_state, parse_states, coerce_actions,
}

-- A rule is stored under its own action.
abbrev pub Labelled : AgentAction → TransitionRule → Type 0
Labelled a r = r.action ≡ a

parse_rule-Labelled :
    (s : ConversationState) (a : AgentAction) (body : RawRule) {r : TransitionRule}
    → parse_rule s a body ≡ ok r
    → Labelled a r
unfolding parse_rule
parse_rule-Labelled s a body h = ground arith

parse_transitions-Labelled :
    (s : ConversationState) (raw : List (String × RawRule)) (acc : Rules) {rules : Rules}
    → AllEntries Labelled acc
    → parse_transitions s raw acc ≡ ok rules
    → AllEntries Labelled rules
unfolding parse_transitions
parse_transitions-Labelled s [] acc all h = along_ok (AllEntries Labelled) h all
parse_transitions-Labelled s ((key, body) ∷ rest) acc all h =
    let (a, pa, h1) = >>=-eq-ok (coerce_action key) _ h in
    let (r, pr, h2) = >>=-eq-ok (parse_rule s a body) _ h1 in
    parse_transitions-Labelled s rest (insert a r acc)
      (AllEntries-insert Labelled a r acc (parse_rule-Labelled s a body pr) all) h2

check_allowed-member :
    (s : ConversationState) (allowed : List AgentAction) (rules : Rules) {u : Unit {0}}
    → check_allowed s allowed rules ≡ ok u
    → AllEntries (λ a r. member a allowed ≡ true) rules
unfolding check_allowed
check_allowed-member s allowed [] h = tt
check_allowed-member s allowed ((a, r) ∷ rest) h =
    let (t, rest_ok) = raise_if-eq-ok (not (member a allowed)) _ (check_allowed s allowed rest) h in
    (ground arith, check_allowed-member s allowed rest rest_ok)

-- What the body of the loop over the states establishes of a definition.
pub record IsParsed (terminal_states : List ConversationState) (d : StateDefinition) : Type 0 where
  pub marked : d.is_terminal ≡ member d.name terminal_states
  pub closed : member d.name terminal_states ≡ true → d.transitions ≡ []
  pub rules : AllEntries (λ a r. Labelled a r × (member a d.allowed_actions ≡ true)) d.transitions

no_rules : (t : Bool) (rules : Rules) → (t && not (is_empty rules)) ≡ false → t ≡ true → rules ≡ []
unfolding is_empty
no_rules t [] h e = refl
no_rules t (r ∷ rules) h e = ground arith

parse_state-IsParsed :
    (terminal_states : List ConversationState) (key : String) (body : RawState)
    {d : StateDefinition}
    → parse_state terminal_states key body ≡ ok d
    → IsParsed terminal_states d
unfolding parse_state
parse_state-IsParsed terminal_states key body h =
    let (s, _, h1) = >>=-eq-ok (coerce_state key) _ h in
    let (allowed, _, h2) = >>=-eq-ok (coerce_actions body.actions) _ h1 in
    let (rules, parsed, h3) = >>=-eq-ok (parse_transitions s body.transitions []) _ h2 in
    let (open_, h4) = raise_if-eq-ok (member s terminal_states && not (is_empty rules)) _ _ h3 in
    let (_, checked, h5) = >>=-eq-ok (check_allowed s allowed rules) _ h4 in
    along_ok (IsParsed terminal_states) h5 (record {
      marked = refl;
      closed = no_rules (member s terminal_states) rules open_;
      rules =
          AllEntries-both _ _ rules (parse_transitions-Labelled s body.transitions [] tt parsed)
            (check_allowed-member s allowed rules checked);
    })

abbrev pub IsNamed : List ConversationState → ConversationState → StateDefinition → Type 0
IsNamed terminal_states s d = (d.name ≡ s) × IsParsed terminal_states d

pub parse_states-IsNamed :
    (terminal_states : List ConversationState) (raw : List (String × RawState)) (acc : States)
    {states : States}
    → AllEntries (IsNamed terminal_states) acc
    → parse_states terminal_states raw acc ≡ ok states
    → AllEntries (IsNamed terminal_states) states
unfolding parse_states
parse_states-IsNamed terminal_states [] acc all h =
    along_ok (AllEntries (IsNamed terminal_states)) h all
parse_states-IsNamed terminal_states ((key, body) ∷ rest) acc all h =
    let (d, parsed, h1) = >>=-eq-ok (parse_state terminal_states key body) _ h in
    parse_states-IsNamed terminal_states rest (insert d.name d acc)
      (AllEntries-insert (IsNamed terminal_states) d.name d acc
        (refl, parse_state-IsParsed terminal_states key body parsed) all)
      h1
