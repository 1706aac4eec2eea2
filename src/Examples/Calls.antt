-- ===== src/Examples/Calls.antt =====
-- Calls whose turns a small processor answers.
use call_forge.Prelude.{
  pos, true, false, ◌≡◌, refl, none, some, [], ◌∷◌, ok, err, All, string_eq, member, is_blank,
}
use call_forge.Runtime.Contracts.{
  RuntimeEvent, user_speech_started, user_utterance_final, call_disconnected, delivering,
  InterruptionCategory, AddresseeStatus, ResponsePlan, ActiveDelivery, CoordinationResult,
  duplicate_ignored, pending_summary_bounds, partial,
}
use call_forge.Runtime.Session.{Coordinator, TurnProcessor, new_session_state, unfinished_summary}
use call_forge.Runtime.Coordinator.{handle}
use call_forge.Runtime.Coordinator.Runs.{run, Distinct, handle-idempotent}
use call_forge.Runtime.Coordinator.Deliveries.{IsSession}
use call_forge.Runtime.Coordinator.Calls.{
  new_coordinator, logged, turns_run_once, Advances, handle-Advances,
}
use call_forge.Runtime.Coordinator.Ending.{hang_up, run-IsSession, Stopped, Silent, IsHandled}
use call_forge.Runtime.Coordinator.BargeIn.{barge_in, blank_summary_loses_barge_in}

abbrev pub greeting : ResponsePlan
greeting = record { communicative_goal = "greet"; pending_intent = none }

-- It greets on each turn, and counts nothing.
abbrev pub greeter : TurnProcessor Unit
greeter p turn = (
  tt,
  some (record {
    turn_id = turn.turn_id;
    response_plan = greeting;
    rendered_response = record { text = "hello" };
    unfinished_point_summary = none;
    pipeline_outcome = none;
    conversation_terminal = false;
  }),
)

abbrev said : RuntimeEvent
said = record {
  event_id = "e1";
  call_id = "call";
  sequence_number = pos 1;
  event_type = user_utterance_final;
  turn_id = some "t1";
  utterance = some "hi";
  barge_in = false;
  overlapping_speech = false;
  possible_background_speech = false;
  addressee_status = AddresseeStatus.addressed_to_agent;
  conversation_category = InterruptionCategory.other;
}

abbrev said_again : RuntimeEvent
said_again = record said { event_id = "e2"; sequence_number = pos 2 }

abbrev spoke : RuntimeEvent
spoke = record said {
  event_id = "e3";
  sequence_number = pos 3;
  event_type = user_speech_started;
  barge_in = true;
}

abbrev hung_up : RuntimeEvent
hung_up = record said { event_id = "e4"; sequence_number = pos 4; event_type = call_disconnected }

turns_run_once_example :
    let last =
      (run (logged greeter) (new_coordinator (tt, []) "call") (said ∷ said ∷ said_again ∷ [])).0 in
    (last.processor.1 ≡ last.state.processed_turn_ids) × Distinct last.processor.1
turns_run_once_example = turns_run_once greeter tt "call" (said ∷ said ∷ said_again ∷ [])

handle-idempotent_example :
    (handle greeter (handle greeter (new_coordinator tt "call") said).0 said).0
    ≡ (handle greeter (new_coordinator tt "call") said).0
handle-idempotent_example = handle-idempotent greeter (new_coordinator tt "call") said

run-IsSession_example :
    IsSession (run greeter (new_coordinator tt "call") (said ∷ spoke ∷ [])).0.state
run-IsSession_example = run-IsSession greeter tt "call" (said ∷ spoke ∷ [])

handle-Advances_example :
    Advances (new_session_state "call") (handle greeter (new_coordinator tt "call") said).0.state
handle-Advances_example = handle-Advances greeter (new_coordinator tt "call") said

-- The agent is greeting, in the turn that the user's first words made.
abbrev delivery : ActiveDelivery
delivery = record {
  turn_id = "t1";
  response_plan = greeting;
  rendered_response = record { text = "hello" };
  unfinished_point_summary = some "the price";
  status = delivering;
  progress = partial;
}

abbrev speaking : ActiveDelivery → Coordinator Unit
speaking d = record {
  processor = tt;
  state = record {
    call_id = "call";
    current_turn_id = some "t1";
    last_sequence = pos 1;
    active_delivery = some d;
    disconnected = false;
    pending_interruption = none;
    processed_event_ids = "e1" ∷ [];
    processed_turn_ids = "t1" ∷ [];
  };
}

hang_up_example :
    let c' = (handle greeter (speaking delivery) hung_up).0 in
    (c'.state.disconnected ≡ true)
    × Stopped c'.state.active_delivery
    × (c'.processor ≡ tt)
    × IsHandled (handle greeter (speaking delivery) hung_up).1
    × ((run greeter c' (said_again ∷ [])).0 ≡ c')
    × All Silent (run greeter c' (said_again ∷ [])).1
unfolding member
hang_up_example =
    hang_up greeter (speaking delivery) hung_up (said_again ∷ [])
      (record { named = refl; current = refl; processed = refl }) refl refl refl refl refl

abbrev blank_delivery : ActiveDelivery
blank_delivery = record delivery { unfinished_point_summary = some " " }

blank_summary_loses_barge_in_example :
    let c' = (handle greeter (speaking blank_delivery) spoke).0 in
    ((handle greeter (speaking blank_delivery) spoke).1 ≡ err pending_summary_bounds)
    × (c'.state.active_delivery ≡ some blank_delivery)
    × (r : CoordinationResult) × (handle greeter c' spoke ≡ (c', ok r))
    × (r.outcome ≡ duplicate_ignored)
unfolding member unfinished_summary is_blank
blank_summary_loses_barge_in_example =
    blank_summary_loses_barge_in greeter (speaking blank_delivery) spoke blank_delivery " "
      (record { same_call = refl; unseen = refl; connected = refl; in_order = refl }) refl refl refl
      refl refl refl refl refl
