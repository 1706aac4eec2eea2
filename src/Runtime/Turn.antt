-- ===== src/Runtime/Turn.antt =====
-- app/runtime/turn_coordinator.py: `_final_utterance`.
use call_forge.Prelude.{
  String, false, Option, none, some, List, [], ◌∷◌, ◌++◌, Result, ok, err, ◌>>=◌, string_eq, ◌==◌,
  member, if◌then◌else◌,
}
use call_forge.Runtime.Contracts.{
  pending, cancelled, not_started, turn_processed, duplicate_ignored, failed,
  turn_processing_failed, invalid_event, InterruptionCategory, AddresseeStatus, CoordinatorError,
  assertion_failed, InterruptionContext, RuntimeEvent, CoordinatedUserTurn, new_turn,
  CoordinatedTurnOutput, ActiveDelivery, DeliveryInstruction, RuntimeSessionState,
  CoordinationResult,
}
use call_forge.Runtime.Session.{
  Coordinator, Answer, TurnProcessor, result, cancel_instruction, speak_instruction, interruption,
  is_live, attempt, answer, with_state,
}

-- The context of a turn: the pending interruption, or else the event's own.
unfoldable pub turn_context : Option InterruptionContext → RuntimeEvent → InterruptionContext
turn_context (some context) event = context
turn_context none event = record {
  was_interrupted = false;
  category =
      if event.possible_background_speech
      then InterruptionCategory.addressee_uncertain
      else event.conversation_category;
  previous_intent = none;
  voice_activity = record {
    barge_in_detected = false;
    overlapping_speech = event.overlapping_speech;
    speech_started_during_agent_output = false;
  };
}

unfoldable pub coordinated_turn :
    RuntimeSessionState
    → RuntimeEvent
    → String
    → String
    → Result CoordinatorError CoordinatedUserTurn
unfolding turn_context
coordinated_turn state event turn_id utterance = new_turn (record {
  turn_id = turn_id;
  sequence_number = event.sequence_number;
  utterance = utterance;
  interruption = turn_context state.pending_interruption event;
  addressee_status =
      if event.possible_background_speech
      then AddresseeStatus.addressee_uncertain
      else event.addressee_status;
  conversation_category = event.conversation_category;
})

unfoldable pub with_turn :
    CoordinationResult → CoordinatedUserTurn → Option CoordinatedTurnOutput → CoordinationResult
with_turn r turn output = record r { processed_turn = some turn; turn_output = output }

module _ {P : Type 0} where
  -- The instructions that cancel the active delivery, with the coordinator that remembers it.
  unfoldable pub cancel_live :
      Coordinator P
      → RuntimeEvent
      → Option ActiveDelivery
      → Result CoordinatorError (Coordinator P × List DeliveryInstruction)
  unfolding with_state
  cancel_live c event none = ok (c, [])
  cancel_live c event (some active) =
      if is_live active.status
      then (do
        i ← cancel_instruction active.turn_id
        context ← interruption event (record active { status = cancelled })
        ok (
          with_state c (record c.state {
            active_delivery = some (record active { status = cancelled });
            pending_interruption = some context;
          }),
          i ∷ [],
        ))
      else ok (c, [])

  -- What follows the processor's answer.
  unfoldable pub deliver :
      Coordinator P
      → CoordinatedUserTurn
      → List DeliveryInstruction
      → Option CoordinatedTurnOutput
      → Answer P
  unfolding result with_turn attempt with_state
  deliver c turn instructions none = (
    c,
    ok (with_turn (result c.state failed (some turn_processing_failed) instructions) turn none),
  )
  deliver c turn instructions (some output) =
      if output.turn_id == turn.turn_id
      then (let c' = with_state c (record c.state {
        current_turn_id = some turn.turn_id;
        active_delivery = some (record {
          turn_id = turn.turn_id;
          response_plan = output.response_plan;
          rendered_response = output.rendered_response;
          unfinished_point_summary = output.unfinished_point_summary;
          status = pending;
          progress = not_started;
        });
        pending_interruption = none;
      }) in
          attempt c' (speak_instruction turn.turn_id output.rendered_response.text) (λ i. (
            c',
            ok (
                with_turn (result c'.state turn_processed none (instructions ++ i ∷ [])) turn
                  (some output)),
          )))
      else (c, ok (with_turn (result c.state failed (some invalid_event) instructions) turn none))

  -- The turn is marked as processed before the processor runs.
  unfoldable pub process :
      TurnProcessor P → Coordinator P → CoordinatedUserTurn → List DeliveryInstruction → Answer P
  unfolding deliver
  process processor c turn instructions =
      let (p, output) = processor c.processor turn in
      deliver
        (record {
          processor = p;
          state = record c.state { processed_turn_ids = turn.turn_id ∷ c.state.processed_turn_ids };
        })
        turn instructions output

  -- `_final_utterance`, past its assertion.
  unfoldable pub final_turn :
      TurnProcessor P → Coordinator P → RuntimeEvent → String → String → Answer P
  unfolding attempt answer cancel_live coordinated_turn process
  final_turn processor c event turn_id utterance =
      if member turn_id c.state.processed_turn_ids
      then answer c duplicate_ignored
      else attempt c (cancel_live c event c.state.active_delivery) (λ (c', instructions).
        attempt c' (coordinated_turn c'.state event turn_id utterance)
          (λ turn. process processor c' turn instructions))

  unfoldable pub final_parts :
      TurnProcessor P → Coordinator P → RuntimeEvent → Option String → Option String → Answer P
  unfolding final_turn
  final_parts processor c event (some turn_id) (some utterance) =
      final_turn processor c event turn_id utterance
  final_parts processor c event turn_id utterance = (c, err assertion_failed)

  -- `_final_utterance`
  unfoldable pub final_utterance : TurnProcessor P → Coordinator P → RuntimeEvent → Answer P
  unfolding final_parts
  final_utterance processor c event = final_parts processor c event event.turn_id event.utterance
