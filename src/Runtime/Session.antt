-- ===== src/Runtime/Session.antt =====
-- app/runtime/turn_coordinator.py: the pieces that its methods share. A method returns the coordinator
-- as it left it, beside its result or what it raised. The turn processor is a parameter: from its own
-- state and a turn it gives its next state and an output, `none` where it raised.
use call_forge.Prelude.{
  String, negsuc, Bool, true, false, Option, none, some, List, [], ◌∷◌, Result, ok, err, ◌>>=◌,
  string_eq, ◌==◌, if◌then◌else◌,
}
use call_forge.Runtime.Contracts.{
  speak, cancel_current, DeliveryStatus, pending, delivering, DeliveryProgress, not_started,
  partial, CoordinationOutcome, failed, RuntimeFailureKind, InterruptionCategory, CoordinatorError,
  PendingConversationIntent, new_pending_intent, InterruptionContext, RuntimeEvent,
  CoordinatedUserTurn, CoordinatedTurnOutput, ActiveDelivery, DeliveryInstruction, new_instruction,
  RuntimeSessionState, CoordinationResult, ResponsePlan,
}

pub record Coordinator (P : Type 0) : Type 0 where
  pub processor : P
  pub state : RuntimeSessionState

abbrev pub Answer : Type 0 → Type 0
Answer P = Coordinator P × Result CoordinatorError CoordinationResult

abbrev pub TurnProcessor : Type 0 → Type 0
TurnProcessor P = P → CoordinatedUserTurn → P × Option CoordinatedTurnOutput

unfoldable pub new_session_state : String → RuntimeSessionState
new_session_state call_id = record {
  call_id = call_id;
  current_turn_id = none;
  last_sequence = negsuc 0;
  active_delivery = none;
  disconnected = false;
  pending_interruption = none;
  processed_event_ids = [];
  processed_turn_ids = [];
}

-- `_result`
unfoldable pub result :
    RuntimeSessionState
    → CoordinationOutcome
    → Option RuntimeFailureKind
    → List DeliveryInstruction
    → CoordinationResult
result state outcome failure instructions = record {
  outcome = outcome;
  state = state;
  instructions = instructions;
  processed_turn = none;
  failure = failure;
  turn_output = none;
}

-- `_record_event`
unfoldable pub record_event : RuntimeSessionState → RuntimeEvent → Bool → RuntimeSessionState
record_event state event advance_sequence = record state {
  last_sequence = if advance_sequence then event.sequence_number else state.last_sequence;
  processed_event_ids = event.event_id ∷ state.processed_event_ids;
}

-- `DeliveryInstruction(CANCEL_CURRENT, turn_id)`
unfoldable pub cancel_instruction : String → Result CoordinatorError DeliveryInstruction
cancel_instruction turn_id =
    new_instruction (record {
      action = cancel_current;
      turn_id = some turn_id;
      text = none;
      interruptible = true;
    })

unfoldable pub speak_instruction : String → String → Result CoordinatorError DeliveryInstruction
speak_instruction turn_id text =
    new_instruction
      (record { action = speak; turn_id = some turn_id; text = some text; interruptible = true })

unfoldable pub summary_of_plan : Option PendingConversationIntent → Option String
summary_of_plan none = none
summary_of_plan (some intent) = some intent.summary

-- The summary that an interruption carries on.
unfoldable pub unfinished_summary : Option String → ResponsePlan → Option String
unfolding summary_of_plan
unfinished_summary (some summary) plan = some summary
unfinished_summary none plan = summary_of_plan plan.pending_intent

-- `PendingConversationIntent(…) if summary else None`
unfoldable pub pending_of_summary :
    String → Option String → Result CoordinatorError (Option PendingConversationIntent)
pending_of_summary goal none = ok none
pending_of_summary goal (some summary) = if summary == "" then ok none else (do
  intent ←
      new_pending_intent
        (record { goal = goal; summary = summary; completed = false; still_relevant = true })
  ok (some intent))

-- `_interruption`
unfoldable pub interruption :
    RuntimeEvent → ActiveDelivery → Result CoordinatorError InterruptionContext
unfolding unfinished_summary pending_of_summary
interruption event active = do
  previous ←
      pending_of_summary active.response_plan.communicative_goal
        (unfinished_summary active.unfinished_point_summary active.response_plan)
  ok (record {
    was_interrupted = true;
    category =
        if event.possible_background_speech
        then InterruptionCategory.addressee_uncertain
        else event.conversation_category;
    previous_intent = previous;
    voice_activity = record {
      barge_in_detected = event.barge_in;
      overlapping_speech = event.overlapping_speech;
      speech_started_during_agent_output = true;
    };
  })

-- A delivery that is waiting or being spoken.
abbrev pub is_live : DeliveryStatus → Bool
is_live pending = true
is_live delivering = true
is_live _ = false

unfoldable pub interrupted_progress : DeliveryStatus → DeliveryProgress
interrupted_progress delivering = partial
interrupted_progress _ = not_started

-- `_delivery_update`'s table of progress; the other statuses are not passed to it.
unfoldable pub progress_of : DeliveryStatus → DeliveryProgress
progress_of DeliveryStatus.completed = DeliveryProgress.completed
progress_of _ = partial

module _ {P : Type 0} where
  -- A step that may raise, before the coordinator changes again.
  unfoldable pub attempt :
      {A : Type 0} → Coordinator P → Result CoordinatorError A → (A → Answer P) → Answer P
  attempt c (err e) next = (c, err e)
  attempt c (ok a) next = next a

  unfoldable pub answer : Coordinator P → CoordinationOutcome → Answer P
  unfolding result
  answer c outcome = (c, ok (result c.state outcome none []))

  unfoldable pub fail : Coordinator P → RuntimeFailureKind → Answer P
  unfolding result
  fail c failure = (c, ok (result c.state failed (some failure) []))

  unfoldable pub with_state : Coordinator P → RuntimeSessionState → Coordinator P
  with_state c state = record c { state = state }
