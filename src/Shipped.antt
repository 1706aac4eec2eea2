-- ===== src/Shipped.antt =====
-- app/config/conversation_config.yaml: the document that the repository ships, entry by entry, and the
-- configuration that the loader makes of it. The response policy is left out.
pub mod Safety
use call_forge.Prelude.{
  String, ℤ, pos, Bool, true, false, ◌≡◌, refl, Option, none, some, List, [], ◌∷◌, Result, ok, err,
  distinct, insert, has_key, is_blank, member,
}
use call_forge.Vocabulary.{
  new_call, to_state, to_action, ConversationState-discrete, AgentAction-discrete,
}
use call_forge.StateMachine.Config.{
  MachineConfig, RawRule, RawState, RawMapping, RawFallbacks, RawConfig, text,
}
use call_forge.StateMachine.Load.{Load, load_config, coerce_state, coerce_action}

abbrev goes_to : String → RawRule
goes_to target = record {
  to = some target;
  outcome = none;
  requires = [];
  retry = none;
  preserve_interest = false;
}

abbrev ends_as : String → RawRule
ends_as outcome = record {
  to = some "end_call";
  outcome = some outcome;
  requires = [];
  retry = none;
  preserve_interest = false;
}

abbrev raw_new_call : RawState
raw_new_call = record {
  actions = "greet" ∷ "mark_dnc" ∷ [];
  requires = [];
  is_detour = false;
  transitions = ("greet", goes_to "greeting") ∷ ("mark_dnc", ends_as "do_not_call") ∷ [];
}

abbrev raw_greeting : RawState
raw_greeting = record {
  actions = "ask_identity" ∷ "mark_dnc" ∷ "end_call" ∷ [];
  requires = [];
  is_detour = false;
  transitions =
      ("ask_identity", goes_to "identify_person")
      ∷ ("mark_dnc", ends_as "do_not_call")
      ∷ ("end_call", ends_as "failed")
      ∷ [];
}

abbrev raw_identify_person : RawState
raw_identify_person = record {
  actions = "introduce_reason" ∷ "ask_identity" ∷ "mark_dnc" ∷ "end_call" ∷ [];
  requires = [];
  is_detour = false;
  transitions =
      ("introduce_reason", goes_to "introduce")
      ∷ ("ask_identity", goes_to "identify_decision_maker")
      ∷ ("mark_dnc", ends_as "do_not_call")
      ∷ ("end_call", ends_as "wrong_number")
      ∷ [];
}

abbrev raw_follow_up : RawState
raw_follow_up = record {
  actions = "introduce_reason" ∷ "mark_dnc" ∷ [];
  requires = "previous_conversation_exists" ∷ [];
  is_detour = false;
  transitions =
      ("introduce_reason", goes_to "reason_for_call") ∷ ("mark_dnc", ends_as "do_not_call") ∷ [];
}

abbrev raw_introduce : RawState
raw_introduce = record {
  actions = "introduce_reason" ∷ "mark_dnc" ∷ [];
  requires = [];
  is_detour = false;
  transitions =
      ("introduce_reason", goes_to "reason_for_call") ∷ ("mark_dnc", ends_as "do_not_call") ∷ [];
}

abbrev raw_reason_for_call : RawState
raw_reason_for_call = record {
  actions = "introduce_reason" ∷ "mark_dnc" ∷ [];
  requires = [];
  is_detour = false;
  transitions = ("introduce_reason", goes_to "listen") ∷ ("mark_dnc", ends_as "do_not_call") ∷ [];
}

abbrev raw_listen : RawState
raw_listen = record {
  actions =
      "ask_email" ∷ "offer_service" ∷ "schedule_callback" ∷ "answer_question" ∷ "ask_identity"
      ∷ "mark_dnc" ∷ "end_call" ∷ [];
  requires = [];
  is_detour = false;
  transitions =
      ("ask_email", goes_to "collect_email")
      ∷ (
        "offer_service",
        record {
          to = some "explore_alternative";
          outcome = none;
          requires = "has_applicable_alternative" ∷ [];
          retry = none;
          preserve_interest = false;
        },
      )
      ∷ (
        "schedule_callback",
        record {
          to = some "schedule_callback";
          outcome = none;
          requires = [];
          retry = none;
          preserve_interest = true;
        },
      )
      ∷ ("answer_question", goes_to "handle_question")
      ∷ ("ask_identity", goes_to "identify_decision_maker")
      ∷ ("mark_dnc", ends_as "do_not_call")
      ∷ ("end_call", ends_as "not_interested")
      ∷ [];
}

abbrev raw_explore_alternative : RawState
raw_explore_alternative = record {
  actions =
      "ask_email" ∷ "offer_service" ∷ "schedule_callback" ∷ "answer_question" ∷ "mark_dnc"
      ∷ "end_call" ∷ [];
  requires = [];
  is_detour = false;
  transitions =
      ("ask_email", goes_to "collect_email")
      ∷ (
        "offer_service",
        record {
          to = some "explore_alternative";
          outcome = none;
          requires = "has_applicable_alternative" ∷ [];
          retry = some "service_offer";
          preserve_interest = false;
        },
      )
      ∷ (
        "schedule_callback",
        record {
          to = some "schedule_callback";
          outcome = none;
          requires = [];
          retry = none;
          preserve_interest = true;
        },
      )
      ∷ ("answer_question", goes_to "handle_question")
      ∷ ("mark_dnc", ends_as "do_not_call")
      ∷ ("end_call", ends_as "not_interested")
      ∷ [];
}

abbrev raw_handle_question : RawState
raw_handle_question = record {
  actions = "answer_question" ∷ "end_call" ∷ "mark_dnc" ∷ [];
  requires = [];
  is_detour = true;
  transitions =
      ("answer_question", goes_to "__previous__")
      ∷ ("mark_dnc", ends_as "do_not_call")
      ∷ ("end_call", ends_as "not_interested")
      ∷ [];
}

abbrev raw_collect_email : RawState
raw_collect_email = record {
  actions =
      "ask_email" ∷ "confirm_contact" ∷ "clarify_contact" ∷ "schedule_callback" ∷ "mark_dnc"
      ∷ "end_call" ∷ [];
  requires = [];
  is_detour = false;
  transitions =
      (
        "confirm_contact",
        record {
          to = some "confirm_contact";
          outcome = none;
          requires = "contact_candidate_exists" ∷ [];
          retry = none;
          preserve_interest = false;
        },
      )
      ∷ (
        "clarify_contact",
        record {
          to = some "collect_email";
          outcome = none;
          requires = [];
          retry = some "email_clarification";
          preserve_interest = false;
        },
      )
      ∷ (
        "ask_email",
        record {
          to = some "collect_email";
          outcome = none;
          requires = [];
          retry = some "email_clarification";
          preserve_interest = false;
        },
      )
      ∷ (
        "schedule_callback",
        record {
          to = some "schedule_callback";
          outcome = none;
          requires = [];
          retry = none;
          preserve_interest = true;
        },
      )
      ∷ ("mark_dnc", ends_as "do_not_call")
      ∷ ("end_call", ends_as "not_interested")
      ∷ [];
}

abbrev raw_confirm_contact : RawState
raw_confirm_contact = record {
  actions = "confirm_contact" ∷ "ask_email" ∷ "mark_dnc" ∷ "end_call" ∷ [];
  requires = "contact_candidate_exists" ∷ [];
  is_detour = false;
  transitions =
      (
        "confirm_contact",
        record {
          to = some "end_call";
          outcome = some "qualified";
          requires = "contact_confirmed" ∷ [];
          retry = none;
          preserve_interest = false;
        },
      )
      ∷ ("ask_email", goes_to "collect_email")
      ∷ ("mark_dnc", ends_as "do_not_call")
      ∷ ("end_call", ends_as "not_interested")
      ∷ [];
}

abbrev raw_schedule_callback : RawState
raw_schedule_callback = record {
  actions = "schedule_callback" ∷ "mark_dnc" ∷ "end_call" ∷ [];
  requires = [];
  is_detour = false;
  transitions =
      (
        "schedule_callback",
        record {
          to = some "end_call";
          outcome = some "callback_scheduled";
          requires = "callback_context_exists" ∷ [];
          retry = none;
          preserve_interest = false;
        },
      )
      ∷ ("mark_dnc", ends_as "do_not_call")
      ∷ ("end_call", ends_as "not_interested")
      ∷ [];
}

abbrev raw_identify_decision_maker : RawState
raw_identify_decision_maker = record {
  actions = "introduce_reason" ∷ "mark_dnc" ∷ "end_call" ∷ [];
  requires = [];
  is_detour = false;
  transitions =
      ("introduce_reason", goes_to "reason_for_call")
      ∷ ("mark_dnc", ends_as "do_not_call")
      ∷ ("end_call", ends_as "wrong_number")
      ∷ [];
}

abbrev raw_end_call : RawState
raw_end_call = record { actions = []; requires = []; is_detour = false; transitions = [] }

abbrev shipped_fallbacks : RawFallbacks
shipped_fallbacks = record {
  by_state =
      ("greeting", record { action = some "ask_identity"; response_key = some (text "safe_close") })
      ∷ (
        "identify_person",
        record { action = some "introduce_reason"; response_key = some (text "safe_close") },
      )
      ∷ (
        "introduce",
        record { action = some "introduce_reason"; response_key = some (text "safe_close") },
      )
      ∷ (
        "reason_for_call",
        record { action = some "introduce_reason"; response_key = some (text "safe_close") },
      )
      ∷ (
        "listen",
        record { action = some "answer_question"; response_key = some (text "safe_close") },
      )
      ∷ (
        "handle_question",
        record { action = some "answer_question"; response_key = some (text "safe_close") },
      )
      ∷ (
        "identify_decision_maker",
        record { action = some "introduce_reason"; response_key = some (text "safe_close") },
      )
      ∷ (
        "explore_alternative",
        record { action = some "answer_question"; response_key = some (text "safe_close") },
      )
      ∷ (
        "collect_email",
        record { action = some "ask_email"; response_key = some (text "repeat_email") },
      )
      ∷ (
        "confirm_contact",
        record { action = some "confirm_contact"; response_key = some (text "confirm_again") },
      )
      ∷ (
        "schedule_callback",
        record {
          action = some "schedule_callback";
          response_key = some (text "clarify_callback_time");
        },
      )
      ∷ [];
  by_category =
      (
        "dnc_conflict",
        record { action = some "mark_dnc"; response_key = some (text "acknowledge_dnc") },
      )
      ∷ (
        "unknown_requirement",
        record { action = some "end_call"; response_key = some (text "safe_close") },
      )
      ∷ [];
  default = some (record { action = some "end_call"; response_key = some (text "safe_close") });
}

abbrev pub shipped_document : RawConfig
shipped_document = record {
  initial_state = some "new_call";
  terminal_states = "end_call" ∷ [];
  states =
      ("new_call", raw_new_call)
      ∷ ("greeting", raw_greeting)
      ∷ ("identify_person", raw_identify_person)
      ∷ ("follow_up", raw_follow_up)
      ∷ ("introduce", raw_introduce)
      ∷ ("reason_for_call", raw_reason_for_call)
      ∷ ("listen", raw_listen)
      ∷ ("explore_alternative", raw_explore_alternative)
      ∷ ("handle_question", raw_handle_question)
      ∷ ("collect_email", raw_collect_email)
      ∷ ("confirm_contact", raw_confirm_contact)
      ∷ ("schedule_callback", raw_schedule_callback)
      ∷ ("identify_decision_maker", raw_identify_decision_maker)
      ∷ ("end_call", raw_end_call)
      ∷ [];
  limits =
      ("email_clarification_max_attempts", pos 3)
      ∷ ("phone_clarification_max_attempts", pos 3)
      ∷ ("unclear_intent_max_attempts", pos 2)
      ∷ ("service_offer_max_attempts", pos 3)
      ∷ [];
  fallbacks = some shipped_fallbacks;
}

-- What a load returned, or an empty configuration.
abbrev loaded : Load MachineConfig → MachineConfig
loaded (ok c) = c
loaded (err e) = record {
  initial_state = new_call;
  states = [];
  terminal_states = [];
  limits = [];
  fallbacks = none;
}

unfoldable pub shipped_config : MachineConfig
unfolding load_config coerce_state to_state distinct ConversationState-discrete coerce_action
    to_action insert AgentAction-discrete has_key is_blank member
shipped_config = loaded (load_config (some shipped_document))

-- The shipped document loads.
pub shipped_loads : load_config (some shipped_document) ≡ ok shipped_config
unfolding shipped_config
shipped_loads = refl
