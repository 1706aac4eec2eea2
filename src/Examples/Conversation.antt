-- ===== src/Examples/Conversation.antt =====
-- The machine on the shipped configuration, in the listening state.
use call_forge.Prelude.{◌≡◌, refl, true, false, none, some, [], ok, ◌⊎◌, lookup, has_key, member}
use call_forge.Vocabulary.{
  listen, handle_question, answer_question, mark_dnc, end_call, ConversationState-discrete,
  AgentAction-discrete, to_state,
}
use call_forge.StateMachine.Config.{TransitionRule}
use call_forge.StateMachine.Load.Guarantee.{load_config-IsWellFormed}
use call_forge.StateMachine.WellFormed.{IsWellFormed}
use call_forge.StateMachine.Machine.{
  Machine, ApprovedTransition, apply_transition, is_terminal, is_terminal_outcome,
}
use call_forge.StateMachine.Machine.Verdict.{IsValid, HasRule, Verdict, apply_transition-Verdict}
use call_forge.StateMachine.Machine.Invariant.{apply_transition-IsValid}
use call_forge.StateMachine.Machine.Detours.{apply_transition_outcome, detour_round_trip}
use call_forge.Shipped.{shipped_document, shipped_config, shipped_loads}
use call_forge.Shipped.Safety.{machine_at, shipped-IsWellFormed, dnc_always_honoured}
use call_forge.Contracts.{allows}
use call_forge.Guardrails.Validation.{validate}

load_config-IsWellFormed_example : IsWellFormed shipped_config
load_config-IsWellFormed_example = load_config-IsWellFormed (some shipped_document) shipped_loads

abbrev listening : Machine
listening = machine_at listen []

listening-IsValid : IsValid listening
unfolding shipped_config has_key
listening-IsValid = record { well_formed = shipped-IsWellFormed; defined = refl; stack = tt }

apply_transition-Verdict_example :
    Verdict listening answer_question [] none (apply_transition listening answer_question [] none)
apply_transition-Verdict_example =
    apply_transition-Verdict listening answer_question [] none listening-IsValid

apply_transition-IsValid_example : IsValid (apply_transition listening answer_question [] none).0
apply_transition-IsValid_example =
    apply_transition-IsValid listening answer_question [] none listening-IsValid

abbrev goodbye : ApprovedTransition
goodbye = record {
  action = end_call;
  from_state = listen;
  to_state = end_call;
  outcome = some "not_interested";
  preserved_interest = false;
  was_detour_return = false;
}

apply_transition_outcome_example :
    (goodbye.was_detour_return ≡ true)
    ⊎ (is_terminal (apply_transition listening end_call [] none).0 ≡ true)
unfolding shipped_config lookup has_key member apply_transition ConversationState-discrete
    AgentAction-discrete to_state is_terminal_outcome
apply_transition_outcome_example =
    apply_transition_outcome listening end_call [] none goodbye listening-IsValid refl refl

abbrev asking : TransitionRule
asking = record {
  action = answer_question;
  target = "handle_question";
  outcome = none;
  requires = [];
  retry_bucket = none;
  preserve_interest = false;
}

abbrev answering : TransitionRule
answering = record asking { target = "__previous__" }

asking-HasRule : HasRule listening answer_question asking
unfolding shipped_config lookup member AgentAction-discrete ConversationState-discrete
asking-HasRule = record { open_state = refl; definition = _; here = refl; found = refl }

detour_round_trip_example :
    (apply_transition
      (apply_transition listening answer_question [] none).0
      answer_question
      []
      none).0
    ≡ listening
unfolding shipped_config lookup member AgentAction-discrete ConversationState-discrete to_state
detour_round_trip_example =
    detour_round_trip listening answer_question answer_question [] none asking answering
      handle_question _ asking-HasRule tt refl refl refl refl refl refl tt

dnc_always_honoured_example :
    (allows (validate shipped_config listen mark_dnc []) ≡ true)
    × (apply_transition (machine_at listen []) mark_dnc [] none ≡ (
      machine_at end_call [],
      ok (record {
        action = mark_dnc;
        from_state = listen;
        to_state = end_call;
        outcome = some "do_not_call";
        preserved_interest = false;
        was_detour_return = false;
      }),
    ))
unfolding shipped_config has_key member
dnc_always_honoured_example = dnc_always_honoured listen [] [] refl refl
