-- ===== src/Engine/Answers/Conversations.antt =====
-- Conversations: the turns of an engine, each with the machine and the context that the turn before
-- left.
use call_forge.Prelude.{◌≡◌, refl, Option, none, List, [], ◌∷◌, Result, ok, err, ap}
use mathlib.Core.Path.{subst}
use call_forge.Vocabulary.{AgentAction}
use call_forge.StateMachine.Machine.{Machine}
use call_forge.StateMachine.Machine.Verdict.{IsValid}
use call_forge.StateMachine.Machine.Invariant.{apply_transition-IsValid}
use call_forge.Guardrails.Priority.{OutcomeArgument}
use call_forge.Engine.Contracts.{
  ConversationContext, ContactUnderstanding, ConversationEngine, ConversationResult, EngineError,
}
use call_forge.Engine.Results.{Step}
use call_forge.Engine.Turn.{process_turn}
use call_forge.Engine.Answers.{Does, stays, moves}
use call_forge.Engine.Answers.Readings.{Turn, Recalls}
use call_forge.Engine.Answers.Turns.{IsReady, process_turn-Answers}

-- What a turn brings: the proposed action, what was understood of a contact, the trusted outcome.
pub record TurnInput : Type 0 where
  pub proposed_action : AgentAction
  pub contact_understanding : Option ContactUnderstanding
  pub trusted_priority : OutcomeArgument

abbrev pub turn_of : ConversationEngine → ConversationContext → TurnInput → Step
turn_of e context input =
    process_turn e context input.proposed_action input.contact_understanding input.trusted_priority

abbrev with_machine : ConversationEngine → Machine → ConversationEngine
with_machine e m = record e { machine = m }

abbrev prepend :
    ConversationResult
    → Result EngineError (List ConversationResult)
    → Result EngineError (List ConversationResult)
prepend r (ok rs) = ok (r ∷ rs)
prepend r (err x) = err x

-- The results that follow a turn's own.
abbrev and_then :
    Step
    → (Machine → ConversationContext → Machine × Result EngineError (List ConversationResult))
    → Machine × Result EngineError (List ConversationResult)
and_then (m, err x) later = (m, err x)
and_then (m, ok r) later = let (last, rs) = later m r.updated_context in (last, prepend r rs)

-- The results of a conversation, and the machine that it leaves. A raise ends it.
pub converse :
    ConversationEngine
    → ConversationContext
    → List TurnInput
    → Machine × Result EngineError (List ConversationResult)
converse e context [] = (e.machine, ok [])
converse e context (input ∷ inputs) =
    and_then (turn_of e context input) (λ m after. converse (with_machine e m) after inputs)

-- A turn that answers leaves the machine valid.
Does-IsValid :
    {t : Turn} {m' : Machine} {r : ConversationResult}
    → Does t m' r
    → IsValid t.engine.machine
    → IsValid m'
Does-IsValid (stays same _ _) valid = rw same valid
Does-IsValid {t = t} (moves a _ _ _ _ applied _ _ _) valid =
    subst IsValid (ap (λ p. p.0) applied)
      (apply_transition-IsValid t.engine.machine a [] none valid)

module _ (e : ConversationEngine) (context : ConversationContext) (input : TurnInput)
    (ready : IsReady e) (recalls : Recalls context) where
  -- Every turn of a ready engine leaves its machine valid, hence the engine ready.
  pub process_turn-IsValid : IsValid (turn_of e context input).0
  process_turn-IsValid =
      let (_, _, _, does, _) =
        process_turn-Answers e context ready recalls input.contact_understanding
          input.proposed_action input.trusted_priority in
      Does-IsValid does ready.valid

-- The conversation returned, and left a valid machine.
abbrev pub Returns : Machine × Result EngineError (List ConversationResult) → Type 0
Returns p = (rs : List ConversationResult) × (p.1 ≡ ok rs) × IsValid p.0

returns :
    (p : Step)
    (later : Machine → ConversationContext → Machine × Result EngineError (List ConversationResult))
    (r : ConversationResult)
    → p.1 ≡ ok r
    → Returns (later p.0 r.updated_context)
    → Returns (and_then p later)
returns (m, res) later r h (rs, all, valid) = rw h (rw all (r ∷ rs, refl, valid))

-- A conversation of any length on a ready engine never raises: every turn has a result, and the
-- machine that it leaves is valid.
pub converse-Returns :
    (inputs : List TurnInput) (e : ConversationEngine) (context : ConversationContext)
    → IsReady e
    → Recalls context
    → Returns (converse e context inputs)
unfolding converse
converse-Returns [] e context ready recalls = ([], refl, ready.valid)
converse-Returns (input ∷ inputs) e context ready recalls =
    let (r, h, _, _, after) =
      process_turn-Answers e context ready recalls input.contact_understanding input.proposed_action
        input.trusted_priority in
    returns (turn_of e context input) _ r h (
      converse-Returns inputs (with_machine e (turn_of e context input).0) r.updated_context
        (record {
          valid = process_turn-IsValid e context input ready recalls;
          brief = ready.brief;
          clarifies = ready.clarifies;
          resolves = ready.resolves;
          offers = ready.offers;
        })
        after)
