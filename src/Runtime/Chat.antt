-- ===== src/Runtime/Chat.antt =====
-- app/runtime/chat: sessions, their repository and the runtime that gives turns to a processor. A
-- function that changes the runtime returns the new one beside its result or what it raised. The
-- processors of all sessions are one function of a state, of which each session has its own. The
-- pre-call plan of a session, which nothing here reads, is left out.
pub mod Recorded
pub mod Once
use Prim.Native.Nat.{◌/◌, ◌%◌}
use Prim.Native.String
use Prim.Native.String.{count}
use call_forge.Prelude.{
  String, ℕ, zero, suc, ℤ, pos, negsuc, ltb, leb_ℤ, ltb_ℤ, suc_ℤ, Bool, true, false, not, ◌||◌,
  Option, none, some, List, [], ◌∷◌, ◌++◌, Result, ok, err, raise_if, required, ◌>>=◌, ◌>>◌, ◌==◌,
  string_eq, is_blank, lookup, insert, if◌then◌else◌,
}
use call_forge.Runtime.Contracts.{
  CoordinatedUserTurn, CoordinatedTurnOutput, CoordinatorError, AuthoritativeResultKind,
  AddresseeStatus, InterruptionCategory, InterruptionContext, new_turn,
}
use call_forge.Runtime.Session.{TurnProcessor}

pub data SessionStatus : Type 0 where
  active completed terminated error : SessionStatus

pub data RuntimeMode : Type 0 where
  interactive simulation : RuntimeMode

pub data TranscriptRole : Type 0 where
  prospect agent system : TranscriptRole

-- What the constructors, the repository and the runtime raise; `processor_raised` stands for whatever
-- a processor raises.
pub data ChatError : Type 0 where
  invalid_input invalid_entry invalid_session empty_response : ChatError
  session_exists session_not_found stale_revision session_terminated : ChatError
  duplicate_turn no_processor processor_raised : ChatError
  invalid_turn : CoordinatorError → ChatError

pub record ChatTurnInput : Type 0 where
  pub session_id : String
  pub message : String
  pub turn_sequence : ℤ

unfoldable pub new_input : ChatTurnInput → Result ChatError ChatTurnInput
new_input input = do
  raise_if (is_blank input.session_id) invalid_input
  raise_if (is_blank input.message) invalid_input
  raise_if (ltb 2000 (count input.message)) invalid_input
  raise_if (ltb_ℤ input.turn_sequence (pos 0)) invalid_input
  ok input

pub record TranscriptEntry : Type 0 where
  pub turn_sequence : ℤ
  pub role : TranscriptRole
  pub text : String

unfoldable pub new_entry : TranscriptEntry → Result ChatError TranscriptEntry
new_entry entry = do
  raise_if (ltb_ℤ entry.turn_sequence (pos 0)) invalid_entry
  raise_if (entry.text == "") invalid_entry
  ok entry

pub record ChatSession : Type 0 where
  pub session_id : String
  pub tenant_id : String
  pub campaign_id : String
  pub lead_id : String
  pub status : SessionStatus
  pub mode : RuntimeMode
  pub revision : ℤ
  pub transcript : List TranscriptEntry
  pub turn_count : ℤ

unfoldable pub new_session : ChatSession → Result ChatError ChatSession
new_session s = do
  raise_if (is_blank s.session_id || is_blank s.tenant_id) invalid_session
  raise_if (is_blank s.campaign_id || is_blank s.lead_id) invalid_session
  raise_if (ltb_ℤ s.revision (pos 0)) invalid_session
  raise_if (ltb_ℤ s.turn_count (pos 0)) invalid_session
  ok s

pub record ChatTurnResult : Type 0 where
  pub session_id : String
  pub turn_sequence : ℤ
  pub agent_response : String
  pub conversation_terminal : Bool
  pub pipeline_outcome : Option AuthoritativeResultKind

unfoldable pub new_turn_result : ChatTurnResult → Result ChatError ChatTurnResult
new_turn_result r = do raise_if (r.session_id == "" || r.agent_response == "") empty_response; ok r

-- `InMemoryChatSessionRepository`: its sessions by their ids.
abbrev pub Sessions : Type 0
Sessions = List (String × ChatSession)

unfoldable pub get : Sessions → String → Result ChatError ChatSession
get sessions session_id = required session_not_found (lookup session_id sessions)

create_in : Sessions → ChatSession → Option ChatSession → Result ChatError (Sessions × ChatSession)
create_in sessions session (some old) = err session_exists
create_in sessions session none = do
  stored ← new_session (record session { revision = pos 0 })
  ok (insert session.session_id stored sessions, stored)

unfoldable pub create : Sessions → ChatSession → Result ChatError (Sessions × ChatSession)
unfolding create_in
create sessions session = create_in sessions session (lookup session.session_id sessions)

same_ℤ : ℤ → ℤ → Bool
same_ℤ a b = if leb_ℤ a b then leb_ℤ b a else false

unfoldable pub update : Sessions → ChatSession → Result ChatError (Sessions × ChatSession)
unfolding get same_ℤ
update sessions session = do
  current ← get sessions session.session_id
  raise_if (not (same_ℤ session.revision current.revision)) stale_revision
  updated ← new_session (record session { revision = suc_ℤ current.revision })
  ok (insert session.session_id updated sessions, updated)

abbrev pub is_active : SessionStatus → Bool
is_active active = true
is_active _ = false

pub record ChatRuntime (P : Type 0) : Type 0 where
  pub sessions : Sessions
  pub processors : List (String × P)

-- The interruption of a turn that nothing interrupted.
calm : InterruptionContext
calm = record {
  was_interrupted = false;
  category = InterruptionCategory.other;
  previous_intent = none;
  voice_activity = record {
    barge_in_detected = false;
    overlapping_speech = false;
    speech_started_during_agent_output = false;
  };
}

checked_turn : Result CoordinatorError CoordinatedUserTurn → Result ChatError CoordinatedUserTurn
checked_turn (ok turn) = ok turn
checked_turn (err e) = err (invalid_turn e)

-- An integer in a format string. The fuel is the number itself: from 1 on a number n has at most n
-- digits, and the last one needs no fuel.
pick : List String → ℕ → String
pick [] n = ""
pick (x ∷ xs) zero = x
pick (x ∷ xs) (suc n) = pick xs n

digit : ℕ → String
unfolding pick
digit n = pick ("0" ∷ "1" ∷ "2" ∷ "3" ∷ "4" ∷ "5" ∷ "6" ∷ "7" ∷ "8" ∷ "9" ∷ []) n

digits : ℕ → ℕ → String
unfolding digit
digits zero n = digit (n % 10)
digits (suc fuel) n =
    let higher = digits fuel (n / 10) in
    if ltb n 10 then digit n else String.◌++◌ higher (digit (n % 10))

unfoldable pub decimal : ℤ → String
unfolding digits
decimal (pos n) = digits n n
decimal (negsuc n) = String.◌++◌ "-" (digits (suc n) (suc n))

-- `_to_coordinated_turn`
unfoldable pub to_coordinated_turn : ChatTurnInput → Result ChatError CoordinatedUserTurn
unfolding calm checked_turn
to_coordinated_turn input = checked_turn (
    new_turn (record {
      turn_id =
          String.◌++◌ "chat_"
            (String.◌++◌ input.session_id (String.◌++◌ "_t" (decimal input.turn_sequence)));
      sequence_number = input.turn_sequence;
      utterance = input.message;
      interruption = calm;
      addressee_status = AddresseeStatus.addressed_to_agent;
      conversation_category = InterruptionCategory.other;
    }))

-- The session after a turn: the prospect's and the agent's entries, the count and the status.
unfoldable pub after_turn :
    ChatSession → ChatTurnInput → CoordinatedTurnOutput → Result ChatError ChatSession
after_turn session input output = do
  prospect_entry ←
      new_entry
        (record { turn_sequence = input.turn_sequence; role = prospect; text = input.message })
  agent_entry ← new_entry (record {
    turn_sequence = input.turn_sequence;
    role = agent;
    text = output.rendered_response.text;
  })
  new_session (record session {
    turn_count = input.turn_sequence;
    status = if output.conversation_terminal then completed else active;
    transcript = session.transcript ++ prospect_entry ∷ agent_entry ∷ [];
  })

pub turn_result :
    ChatSession → ChatTurnInput → CoordinatedTurnOutput → Result ChatError ChatTurnResult
turn_result session input output = new_turn_result (record {
  session_id = session.session_id;
  turn_sequence = input.turn_sequence;
  agent_response = output.rendered_response.text;
  conversation_terminal = output.conversation_terminal;
  pipeline_outcome = output.pipeline_outcome;
})

module _ {P : Type 0} where
  -- The guards of a turn.
  unfoldable pub admit :
      ChatRuntime P → ChatTurnInput → Result ChatError (ChatSession × P × CoordinatedUserTurn)
  unfolding get
  admit rt input = do
    session ← get rt.sessions input.session_id
    raise_if (not (is_active session.status)) session_terminated
    raise_if (leb_ℤ input.turn_sequence session.turn_count) duplicate_turn
    p ← required no_processor (lookup session.session_id rt.processors)
    turn ← to_coordinated_turn input
    ok (session, p, turn)

  -- The repository's update, and the result.
  stored :
      ChatRuntime P
      → Result ChatError (Sessions × ChatSession)
      → Result ChatError ChatTurnResult
      → ChatRuntime P × Result ChatError ChatTurnResult
  stored rt (ok (sessions, session)) answer = (record rt { sessions = sessions }, answer)
  stored rt (err e) answer = (rt, err e)

  -- What follows the processor's own answer, `none` where it raised.
  record_turn :
      ChatRuntime P
      → ChatSession
      → ChatTurnInput
      → Option CoordinatedTurnOutput
      → ChatRuntime P × Result ChatError ChatTurnResult
  unfolding stored turn_result
  record_turn rt session input none = (rt, err processor_raised)
  record_turn rt session input (some output) =
      stored rt (after_turn session input output >>= λ s. update rt.sessions s)
        (turn_result session input output)

  run_turn :
      TurnProcessor P
      → ChatRuntime P
      → ChatTurnInput
      → Result ChatError (ChatSession × P × CoordinatedUserTurn)
      → ChatRuntime P × Result ChatError ChatTurnResult
  unfolding record_turn
  run_turn processor rt input (err e) = (rt, err e)
  run_turn processor rt input (ok (session, p, turn)) =
      let (p', output) = processor p turn in
      record_turn (record rt { processors = insert session.session_id p' rt.processors }) session
        input output

  -- `ChatRuntime.process_turn`
  unfoldable pub process_turn :
      TurnProcessor P
      → ChatRuntime P
      → ChatTurnInput
      → ChatRuntime P × Result ChatError ChatTurnResult
  unfolding run_turn
  process_turn processor rt input = run_turn processor rt input (admit rt input)

  stopped : ChatRuntime P → ChatSession → Result ChatError (Sessions × ChatSession)
  stopped rt session =
      if not (is_active session.status)
      then ok (rt.sessions, session)
      else update rt.sessions (record session { status = terminated })

  -- `ChatRuntime.terminate_session`
  unfoldable pub terminate_session :
      ChatRuntime P → String → Result ChatError (ChatRuntime P × ChatSession)
  unfolding stopped get
  terminate_session rt session_id = do
    session ← get rt.sessions session_id
    (sessions, after) ← stopped rt session
    ok (record rt { sessions = sessions }, after)
