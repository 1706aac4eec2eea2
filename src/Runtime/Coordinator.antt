-- ===== src/Runtime/Coordinator.antt =====
-- app/runtime/turn_coordinator.py: `TurnCoordinator.handle` and the methods that it dispatches to.
pub mod Frame
pub mod Runs
pub mod Deliveries
pub mod Calls
pub mod Ending
pub mod BargeIn
use call_forge.Prelude.{
  String, leb_ℤ, Bool, true, false, not, Option, none, some, [], ◌∷◌, Result, ok, ◌>>=◌, ◌||◌,
  string_eq, ◌==◌, member, if◌then◌else◌,
}
use call_forge.Runtime.Contracts.{
  RuntimeEventType, call_started, user_speech_started, user_utterance_final, agent_delivery_started,
  agent_delivery_completed, agent_delivery_interrupted, call_disconnected, DeliveryStatus,
  delivering, interrupted, cancelled, CoordinatorError, handled, duplicate_ignored, stale_ignored,
  disconnected_ignored, RuntimeFailureKind, wrong_session, InterruptionContext, RuntimeEvent,
  ActiveDelivery, RuntimeSessionState,
}
use call_forge.Runtime.Session.{
  Coordinator, Answer, TurnProcessor, result, record_event, cancel_instruction, interruption,
  is_live, interrupted_progress, progress_of, attempt, answer, fail, with_state,
}
use call_forge.Runtime.Turn.{final_utterance}

-- The event names the current turn.
same_turn : Option String → Option String → Bool
same_turn none none = true
same_turn (some a) (some b) = a == b
same_turn _ _ = false

-- The update is not for a live delivery of the current turn.
stale : Option String → Option String → DeliveryStatus → Bool
unfolding same_turn
stale turn_id current status = not (same_turn turn_id current) || not (is_live status)

-- `DeliveryStatus` in {COMPLETED, CANCELLED}
abbrev is_over : DeliveryStatus → Bool
is_over DeliveryStatus.completed = true
is_over cancelled = true
is_over _ = false

-- The interruption that a delivery update leaves pending.
update_context :
    RuntimeSessionState
    → RuntimeEvent
    → ActiveDelivery
    → DeliveryStatus
    → Result CoordinatorError (Option InterruptionContext)
update_context state event active interrupted = do
  context ← interruption event active
  ok (some context)
update_context state event active _ = ok state.pending_interruption

disconnected_state : RuntimeSessionState → Option ActiveDelivery → RuntimeSessionState
disconnected_state state active = record state {
  disconnected = true;
  active_delivery = active;
  pending_interruption = none;
}

module _ {P : Type 0} where
  -- A live delivery that the user speaks over.
  interrupt : Coordinator P → RuntimeEvent → ActiveDelivery → Answer P
  unfolding attempt with_state result interrupted_progress
  interrupt c event active = attempt c (interruption event active) (λ context.
      let c' = with_state c (record c.state {
        active_delivery =
            some (record active {
              status = interrupted;
              progress = interrupted_progress active.status;
            });
        pending_interruption = some context;
      }) in
      attempt c' (cancel_instruction active.turn_id)
        (λ i. (c', ok (result c'.state handled none (i ∷ [])))))

  speech_over : Coordinator P → RuntimeEvent → Option ActiveDelivery → Answer P
  unfolding interrupt answer
  speech_over c event none = answer c handled
  speech_over c event (some active) =
      if is_live active.status then interrupt c event active else answer c handled

  -- `_speech_started`
  speech_started : Coordinator P → RuntimeEvent → Answer P
  unfolding speech_over
  speech_started c event = speech_over c event c.state.active_delivery

  update_live : Coordinator P → RuntimeEvent → DeliveryStatus → Option ActiveDelivery → Answer P
  unfolding attempt answer with_state update_context progress_of stale
  update_live c event status none = answer c stale_ignored
  update_live c event status (some active) =
      if stale event.turn_id c.state.current_turn_id active.status
      then answer c stale_ignored
      else attempt c (update_context c.state event active status) (λ context.
        answer
          (with_state c (record c.state {
            active_delivery =
                some (record active { status = status; progress = progress_of status });
            pending_interruption = context;
          }))
          handled)

  -- `_delivery_update`
  delivery_update : Coordinator P → RuntimeEvent → DeliveryStatus → Answer P
  unfolding update_live
  delivery_update c event status = update_live c event status c.state.active_delivery

  disconnect_from : Coordinator P → Option ActiveDelivery → Answer P
  unfolding attempt answer with_state disconnected_state result
  disconnect_from c none = answer (with_state c (disconnected_state c.state none)) handled
  disconnect_from c (some active) =
      if is_over active.status
      then answer (with_state c (disconnected_state c.state (some active))) handled
      else attempt c (cancel_instruction active.turn_id) (λ i.
        let c' =
          with_state c (disconnected_state c.state (some (record active { status = cancelled }))) in
        (c', ok (result c'.state handled none (i ∷ []))))

  -- `_disconnect`
  disconnect : Coordinator P → Answer P
  unfolding disconnect_from
  disconnect c = disconnect_from c c.state.active_delivery

  -- The event's own handler, once the event is recorded.
  pub dispatch : TurnProcessor P → Coordinator P → RuntimeEvent → RuntimeEventType → Answer P
  unfolding disconnect fail speech_started delivery_update answer
  dispatch processor c event call_disconnected = disconnect c
  dispatch processor c event RuntimeEventType.runtime_error =
      fail c RuntimeFailureKind.runtime_error
  dispatch processor c event user_speech_started = speech_started c event
  dispatch processor c event user_utterance_final = final_utterance processor c event
  dispatch processor c event agent_delivery_started = delivery_update c event delivering
  dispatch processor c event agent_delivery_completed =
      delivery_update c event DeliveryStatus.completed
  dispatch processor c event agent_delivery_interrupted = delivery_update c event interrupted
  dispatch processor c event call_started = answer c handled

  -- The events of a live call: one that is out of order is only recorded.
  pub in_sequence : TurnProcessor P → Coordinator P → RuntimeEvent → Answer P
  unfolding answer with_state record_event dispatch
  in_sequence processor c event =
      if leb_ℤ event.sequence_number c.state.last_sequence
      then answer (with_state c (record_event c.state event false)) stale_ignored
      else dispatch processor (with_state c (record_event c.state event true)) event
          event.event_type

  unfoldable pub handle : TurnProcessor P → Coordinator P → RuntimeEvent → Answer P
  unfolding answer fail
  handle processor c event =
      if not (event.call_id == c.state.call_id)
      then fail c wrong_session
      else if member event.event_id c.state.processed_event_ids
      then answer c duplicate_ignored
      else if c.state.disconnected
      then answer c disconnected_ignored
      else in_sequence processor c event
