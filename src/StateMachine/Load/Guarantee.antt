-- ===== src/StateMachine/Load/Guarantee.antt =====
-- The loader's guarantee: what it accepts is a well-formed configuration.
use call_forge.Prelude.{
  String, ℤ, true, not, ◌≡◌, Option, none, some, List, [], ap, ◌∙◌, arith, ok, along_ok, required,
  >>=-eq-ok, raise_if-eq-ok, member, has_key, AllEntries, AllEntries-both, AllEntries-map,
  string_eq,
}
use call_forge.Vocabulary.{ConversationState, AgentAction, conversation_state_eq, agent_action_eq}
use call_forge.StateMachine.Config.{
  TransitionRule, StateDefinition, MachineConfig, RawConfig, missing_initial_state,
}
use call_forge.StateMachine.Load.{
  States, coerce_state, coerce_states, is_empty, check_duplicates, parse_states, check_states,
  parse_optional_fallbacks, load_document, load_config,
}
use call_forge.StateMachine.Load.Sound.{IsNamed, Labelled, parse_states-IsNamed}
use call_forge.StateMachine.Load.Checked.{
  IsChecked, check_states-IsChecked, parse_optional_fallbacks-FallbacksOk,
}
use call_forge.StateMachine.WellFormed.{IsRule, IsState, IsWellFormed}

module _ (terminal_states : List ConversationState) (limits : List (String × ℤ))
    (states : States) where
  parsed-IsRule :
      (d : StateDefinition) (a : AgentAction) (r : TransitionRule)
      → (Labelled a r × (member a d.allowed_actions ≡ true))
        × IsChecked terminal_states states limits a r
      → IsRule terminal_states states limits d a r
  parsed-IsRule d a r h = record {
    labelled = h.0.0;
    allowed = h.0.1;
    target_ok = h.1.0;
    bucket_ok = h.1.1;
  }

  parsed-IsState :
      (s : ConversationState) (d : StateDefinition)
      → IsNamed terminal_states s d
        × AllEntries (IsChecked terminal_states states limits) d.transitions
      → IsState terminal_states states limits s d
  parsed-IsState s d (named_parsed, checked) =
      let (named, parsed) = named_parsed in
      record {
        named = named;
        marked = parsed.marked ∙ ap (λ x. member x terminal_states) named;
        closed = λ t. parsed.closed (ap (λ x. member x terminal_states) named ∙ t);
        rules =
            AllEntries-map _ _ d.transitions (parsed-IsRule d)
              (AllEntries-both _ _ d.transitions parsed.rules checked);
      }

load_document-IsWellFormed :
    (raw : RawConfig) {c : MachineConfig} → load_document raw ≡ ok c → IsWellFormed c
unfolding load_document
load_document-IsWellFormed raw h =
    let (terminals, _, h1) = >>=-eq-ok (coerce_states raw.terminal_states) _ h in
    let (_, h2) = raise_if-eq-ok (is_empty raw.states) _ _ h1 in
    let (_, _, h3) = >>=-eq-ok (check_duplicates raw.states) _ h2 in
    let (states, parsed, h4) = >>=-eq-ok (parse_states terminals raw.states []) _ h3 in
    let (initial_raw, _, h5) = >>=-eq-ok (required missing_initial_state raw.initial_state) _ h4 in
    let (initial, _, h6) = >>=-eq-ok (coerce_state initial_raw) _ h5 in
    let (defined, h7) = raise_if-eq-ok (not (has_key initial states)) _ _ h6 in
    let (open_, h8) = raise_if-eq-ok (member initial terminals) _ _ h7 in
    let (_, checked, h9) = >>=-eq-ok (check_states terminals raw.limits states states) _ h8 in
    let (fallbacks, mapped, h10) = >>=-eq-ok (parse_optional_fallbacks states raw.fallbacks) _ h9 in
    along_ok IsWellFormed h10 (record {
      initial_defined = ground arith;
      initial_open = open_;
      states_ok = AllEntries-map _ _ states (parsed-IsState terminals raw.limits states) (
          AllEntries-both _ _ states (parse_states-IsNamed terminals raw.states [] tt parsed)
            (check_states-IsChecked terminals raw.limits states states checked));
      fallbacks_ok = parse_optional_fallbacks-FallbacksOk states raw.fallbacks mapped;
    })

-- If the loader returns a configuration then it is well formed: the initial state is defined and not
-- terminal; every definition stands under its own state and carries the right terminal mark; a
-- terminal state has no transition; every transition action is in its state's whitelist and its
-- rule is labelled by it; every rule returns to the previous state or names a defined state, which
-- is terminal where the rule declares an outcome; every retry bucket has its limit; and every
-- state's fallback names a defined state and an action of its whitelist.
pub load_config-IsWellFormed :
    (document : Option RawConfig) {c : MachineConfig} → load_config document ≡ ok c → IsWellFormed c
unfolding load_config
load_config-IsWellFormed none h = cc
load_config-IsWellFormed (some raw) h = load_document-IsWellFormed raw h
