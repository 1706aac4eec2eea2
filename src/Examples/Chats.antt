-- ===== src/Examples/Chats.antt =====
-- A chat session with one turn.
use call_forge.Prelude.{
  pos, false, ◌≡◌, refl, ◌⊎◌, none, [], ◌∷◌, ok, err, lookup, string_eq, is_blank, insert,
}
use call_forge.Examples.Calls.{greeter}
use call_forge.Runtime.Contracts.{new_turn}
use call_forge.Runtime.Chat.{
  active, interactive, prospect, agent, ChatTurnInput, ChatTurnResult, ChatSession, ChatRuntime,
  process_turn, session_terminated, duplicate_turn, admit, to_coordinated_turn, decimal, after_turn,
  new_entry, new_session, update, new_turn_result,
}
use call_forge.Runtime.Chat.Once.{TurnAnswered, chat_turn_once}

abbrev opened : ChatSession
opened = record {
  session_id = "s";
  tenant_id = "tenant";
  campaign_id = "campaign";
  lead_id = "lead";
  status = active;
  mode = interactive;
  revision = pos 0;
  transcript = [];
  turn_count = pos 0;
}

abbrev first : ChatTurnInput
first = record { session_id = "s"; message = "hi"; turn_sequence = pos 1 }

abbrev before : ChatRuntime Unit
before = record { sessions = ("s", opened) ∷ []; processors = ("s", tt) ∷ [] }

abbrev spoken : ChatSession
spoken = record opened {
  revision = pos 1;
  turn_count = pos 1;
  transcript =
      (record { turn_sequence = pos 1; role = prospect; text = "hi" })
      ∷ (record { turn_sequence = pos 1; role = agent; text = "hello" })
      ∷ [];
}

abbrev later : ChatRuntime Unit
later = record before { sessions = ("s", spoken) ∷ [] }

abbrev greeted : ChatTurnResult
greeted = record {
  session_id = "s";
  turn_sequence = pos 1;
  agent_response = "hello";
  conversation_terminal = false;
  pipeline_outcome = none;
}

turned : process_turn greeter before first ≡ (later, ok greeted)
unfolding process_turn admit lookup to_coordinated_turn new_turn decimal after_turn new_entry
    new_session is_blank update insert new_turn_result
turned = refl

chat_turn_once_example :
    TurnAnswered greeter before later first greeted
    × ((process_turn greeter later first ≡ (later, err session_terminated))
        ⊎ (process_turn greeter later first ≡ (later, err duplicate_turn)))
chat_turn_once_example = chat_turn_once greeter before later first greeted (refl, tt) turned
