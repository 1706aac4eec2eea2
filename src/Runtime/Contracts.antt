-- ===== src/Runtime/Contracts.antt =====
-- app/runtime/contracts.py, and of app/conversation/response_planning/contracts.py the interruption
-- context. A `new_` function is a constructor with the checks of its `__post_init__`. Of a response
-- plan and of a rendered response only what the coordinator reads is kept.
use Prim.Native.String.{count}
use call_forge.Prelude.{
  String, ℤ, pos, ltb, ltb_ℤ, Bool, true, false, not, ◌&&◌, ◌||◌, Option, none, some, List, Result,
  ok, raise_if, ◌>>◌, is_blank, is_some, string_eq, ◌==◌,
}

pub data RuntimeEventType : Type 0 where
  call_started user_speech_started user_utterance_final : RuntimeEventType
  agent_delivery_started agent_delivery_completed agent_delivery_interrupted : RuntimeEventType
  call_disconnected runtime_error : RuntimeEventType

pub data DeliveryAction : Type 0 where
  speak cancel_current no_output : DeliveryAction

pub data DeliveryStatus : Type 0 where
  pending delivering completed interrupted cancelled : DeliveryStatus

pub data DeliveryProgress : Type 0 where
  not_started partial completed : DeliveryProgress

pub data CoordinationOutcome : Type 0 where
  handled turn_processed duplicate_ignored stale_ignored disconnected_ignored failed :
      CoordinationOutcome

pub data RuntimeFailureKind : Type 0 where
  wrong_session turn_processing_failed invalid_event runtime_error : RuntimeFailureKind

pub data InterruptionCategory : Type 0 where
  answer question objection correction topic_shift clarification : InterruptionCategory
  addressee_uncertain other : InterruptionCategory

pub data AddresseeStatus : Type 0 where
  addressed_to_agent not_addressed_to_agent addressee_uncertain : AddresseeStatus

pub data AuthoritativeResultKind : Type 0 where
  executed fallback redirect escalate pipeline_stopped authority_approved : AuthoritativeResultKind

-- What the constructors raise, and `assert`.
pub data CoordinatorError : Type 0 where
  event_identity final_utterance_bounds delivery_without_turn : CoordinatorError
  turn_identity pending_goal_bounds pending_summary_bounds : CoordinatorError
  speak_incomplete cancel_without_turn text_without_speak assertion_failed : CoordinatorError

-- `not text`, of a text that may be None
unfoldable pub missing : Option String → Bool
missing none = true
missing (some text) = text == ""

pub record VoiceActivityMetadata : Type 0 where
  pub barge_in_detected : Bool
  pub overlapping_speech : Bool
  pub speech_started_during_agent_output : Bool

pub record PendingConversationIntent : Type 0 where
  pub goal : String
  pub summary : String
  pub completed : Bool
  pub still_relevant : Bool

unfoldable pub new_pending_intent :
    PendingConversationIntent → Result CoordinatorError PendingConversationIntent
new_pending_intent intent = do
  raise_if (is_blank intent.goal || ltb 120 (count intent.goal)) pending_goal_bounds
  raise_if (is_blank intent.summary || ltb 240 (count intent.summary)) pending_summary_bounds
  ok intent

pub record InterruptionContext : Type 0 where
  pub was_interrupted : Bool
  pub category : InterruptionCategory
  pub previous_intent : Option PendingConversationIntent
  pub voice_activity : VoiceActivityMetadata

pub record RuntimeEvent : Type 0 where
  pub event_id : String
  pub call_id : String
  pub sequence_number : ℤ
  pub event_type : RuntimeEventType
  pub turn_id : Option String
  pub utterance : Option String
  pub barge_in : Bool
  pub overlapping_speech : Bool
  pub possible_background_speech : Bool
  pub addressee_status : AddresseeStatus
  pub conversation_category : InterruptionCategory

-- `len(text) > 2000`
long_utterance : Option String → Bool
long_utterance none = false
long_utterance (some text) = ltb 2000 (count text)

is_final : RuntimeEventType → Bool
is_final user_utterance_final = true
is_final _ = false

is_delivery : RuntimeEventType → Bool
is_delivery agent_delivery_started = true
is_delivery agent_delivery_completed = true
is_delivery agent_delivery_interrupted = true
is_delivery _ = false

unfoldable pub new_event : RuntimeEvent → Result CoordinatorError RuntimeEvent
unfolding missing long_utterance is_final is_delivery
new_event event = do
  raise_if (event.event_id == "" || event.call_id == "" || ltb_ℤ event.sequence_number (pos 0))
      event_identity
  raise_if
      (is_final event.event_type
        && (missing event.turn_id || missing event.utterance || long_utterance event.utterance))
      final_utterance_bounds
  raise_if (is_delivery event.event_type && missing event.turn_id) delivery_without_turn
  ok event

pub record CoordinatedUserTurn : Type 0 where
  pub turn_id : String
  pub sequence_number : ℤ
  pub utterance : String
  pub interruption : InterruptionContext
  pub addressee_status : AddresseeStatus
  pub conversation_category : InterruptionCategory

unfoldable pub new_turn : CoordinatedUserTurn → Result CoordinatorError CoordinatedUserTurn
new_turn turn = do
  raise_if (turn.turn_id == "" || ltb_ℤ turn.sequence_number (pos 0)) turn_identity
  ok turn

-- The value of a plan's communicative goal, and its pending intent.
pub record ResponsePlan : Type 0 where
  pub communicative_goal : String
  pub pending_intent : Option PendingConversationIntent

pub record RenderedResponse : Type 0 where
  pub text : String

pub record CoordinatedTurnOutput : Type 0 where
  pub turn_id : String
  pub response_plan : ResponsePlan
  pub rendered_response : RenderedResponse
  pub unfinished_point_summary : Option String
  pub pipeline_outcome : Option AuthoritativeResultKind
  pub conversation_terminal : Bool

pub record ActiveDelivery : Type 0 where
  pub turn_id : String
  pub response_plan : ResponsePlan
  pub rendered_response : RenderedResponse
  pub unfinished_point_summary : Option String
  pub status : DeliveryStatus
  pub progress : DeliveryProgress

pub record DeliveryInstruction : Type 0 where
  pub action : DeliveryAction
  pub turn_id : Option String
  pub text : Option String
  pub interruptible : Bool

abbrev pub is_speak : DeliveryAction → Bool
is_speak speak = true
is_speak _ = false

abbrev is_cancel : DeliveryAction → Bool
is_cancel cancel_current = true
is_cancel _ = false

unfoldable pub new_instruction : DeliveryInstruction → Result CoordinatorError DeliveryInstruction
unfolding missing
new_instruction i = do
  raise_if (is_speak i.action && (missing i.turn_id || missing i.text)) speak_incomplete
  raise_if (is_cancel i.action && missing i.turn_id) cancel_without_turn
  raise_if (not (is_speak i.action) && is_some i.text) text_without_speak
  ok i

pub record RuntimeSessionState : Type 0 where
  pub call_id : String
  pub current_turn_id : Option String
  pub last_sequence : ℤ
  pub active_delivery : Option ActiveDelivery
  pub disconnected : Bool
  pub pending_interruption : Option InterruptionContext
  pub processed_event_ids : List String
  pub processed_turn_ids : List String

pub record CoordinationResult : Type 0 where
  pub outcome : CoordinationOutcome
  pub state : RuntimeSessionState
  pub instructions : List DeliveryInstruction
  pub processed_turn : Option CoordinatedUserTurn
  pub failure : Option RuntimeFailureKind
  pub turn_output : Option CoordinatedTurnOutput
