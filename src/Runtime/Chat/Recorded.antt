-- ===== src/Runtime/Chat/Recorded.antt =====
-- What the steps of a chat turn make.
use call_forge.Prelude.{
  is_blank, ◌||◌, pos, ltb_ℤ, suc_ℤ, not, ◌≡◌, sym, ap, ◌∙◌, List, [], ◌∷◌, ◌++◌, Result, ok, err,
  >>=-eq-ok, raise_if-eq-ok, ok_injective, if◌then◌else◌, insert, string_eq, ◌==◌,
}
use call_forge.Runtime.Contracts.{CoordinatedUserTurn, CoordinatedTurnOutput}
use call_forge.Runtime.Contracts.{new_turn, CoordinatorError, turn_identity}
use call_forge.Runtime.Chat.{
  checked_turn, completed, active, turn_result, new_turn_result, empty_response, ChatTurnInput,
  ChatTurnResult, ChatSession, Sessions, TranscriptEntry, new_session, get, update, after_turn,
  invalid_session, invalid_entry, prospect, agent, stale_revision, new_entry, same_ℤ,
  to_coordinated_turn,
}

-- A session that its constructor lets through is as it was given.
new_session-eq : (s : ChatSession) {s' : ChatSession} → new_session s ≡ ok s' → s ≡ s'
unfolding new_session
new_session-eq s h =
    let (_, h1) =
      raise_if-eq-ok (is_blank s.session_id || is_blank s.tenant_id) invalid_session _ h in
    let (_, h2) =
      raise_if-eq-ok (is_blank s.campaign_id || is_blank s.lead_id) invalid_session _ h1 in
    let (_, h3) = raise_if-eq-ok (ltb_ℤ s.revision (pos 0)) invalid_session _ h2 in
    let (_, h4) = raise_if-eq-ok (ltb_ℤ s.turn_count (pos 0)) invalid_session _ h3 in
    ok_injective _ _ h4

-- What an update stores, and where.
pub updated :
    (sessions : Sessions) (s : ChatSession) {r : Sessions × ChatSession}
    → update sessions s ≡ ok r
    → (s' : ChatSession) × (r.0 ≡ insert s.session_id s' sessions)
      × (s'.turn_count ≡ s.turn_count)
      × (s'.transcript ≡ s.transcript)
      × (s'.status ≡ s.status)
unfolding update
updated sessions s h =
    let (current, _, h1) = >>=-eq-ok (get sessions s.session_id) _ h in
    let (_, h2) = raise_if-eq-ok (not (same_ℤ s.revision current.revision)) stale_revision _ h1 in
    let (s', made, h3) =
      >>=-eq-ok (new_session (record s { revision = suc_ℤ current.revision })) _ h2 in
    let same = new_session-eq _ made in
    (
      s',
      sym (ap (λ q. q.0) (ok_injective _ _ h3)),
      sym (ap (λ q. q.turn_count) same),
      sym (ap (λ q. q.transcript) same),
      sym (ap (λ q. q.status) same),
    )

new_entry-eq : (e : TranscriptEntry) {e' : TranscriptEntry} → new_entry e ≡ ok e' → e ≡ e'
unfolding new_entry
new_entry-eq e h =
    let (_, h1) = raise_if-eq-ok (ltb_ℤ e.turn_sequence (pos 0)) invalid_entry _ h in
    let (_, h2) = raise_if-eq-ok (e.text == "") invalid_entry _ h1 in ok_injective _ _ h2

abbrev pub prospect_entry : ChatTurnInput → TranscriptEntry
prospect_entry input = record {
  turn_sequence = input.turn_sequence;
  role = prospect;
  text = input.message;
}

abbrev pub agent_entry : ChatTurnInput → CoordinatedTurnOutput → TranscriptEntry
agent_entry input output = record {
  turn_sequence = input.turn_sequence;
  role = agent;
  text = output.rendered_response.text;
}

-- The two entries of a turn.
abbrev pub entries : ChatTurnInput → CoordinatedTurnOutput → List TranscriptEntry
entries input output = prospect_entry input ∷ agent_entry input output ∷ []

pub after :
    (session : ChatSession) (input : ChatTurnInput) (output : CoordinatedTurnOutput)
    {s : ChatSession}
    → after_turn session input output ≡ ok s
    → (s.session_id ≡ session.session_id)
      × (s.turn_count ≡ input.turn_sequence)
      × (s.status ≡ (if output.conversation_terminal then completed else active))
      × (s.transcript ≡ session.transcript ++ entries input output)
unfolding after_turn
after session input output h =
    let (p, hp, h1) = >>=-eq-ok (new_entry _) _ h in
    let (a, ha, h2) = >>=-eq-ok (new_entry _) _ h1 in
    let same = new_session-eq _ h2 in
    (
      sym (ap (λ q. q.session_id) same),
      sym (ap (λ q. q.turn_count) same),
      sym (ap (λ q. q.status) same),
      sym (ap (λ q. q.transcript) same)
          ∙ ap (λ q. session.transcript ++ q)
              (sym (ap (λ q. q ∷ a ∷ []) (new_entry-eq _ hp))
                ∙ sym (ap (λ q. prospect_entry input ∷ q ∷ []) (new_entry-eq _ ha))),
    )

checked :
    (x : Result CoordinatorError CoordinatedUserTurn) {turn : CoordinatedUserTurn}
    → checked_turn x ≡ ok turn
    → x ≡ ok turn
unfolding checked_turn
checked (ok t) h = ap ok (ok_injective _ _ h)
checked (err e) h = absurd (cc)

new_turn-eq : (t : CoordinatedUserTurn) {t' : CoordinatedUserTurn} → new_turn t ≡ ok t' → t ≡ t'
unfolding new_turn
new_turn-eq t h = let (_, h1) = raise_if-eq-ok _ turn_identity _ h in ok_injective _ _ h1

-- The turn that a processor is given is the input's.
pub turned :
    (input : ChatTurnInput) {turn : CoordinatedUserTurn}
    → to_coordinated_turn input ≡ ok turn
    → (turn.utterance ≡ input.message) × (turn.sequence_number ≡ input.turn_sequence)
unfolding to_coordinated_turn
turned input h =
    let same = new_turn-eq _ (checked _ h) in
    (sym (ap (λ q. q.utterance) same), sym (ap (λ q. q.sequence_number) same))

-- The result of a turn is of its output.
pub record Answered (input : ChatTurnInput) (output : CoordinatedTurnOutput) (r : ChatTurnResult)
    : Type 0 where
  pub response : r.agent_response ≡ output.rendered_response.text
  pub ends : r.conversation_terminal ≡ output.conversation_terminal
  pub outcome : r.pipeline_outcome ≡ output.pipeline_outcome

pub answers :
    (session : ChatSession) (input : ChatTurnInput) (output : CoordinatedTurnOutput)
    {r : ChatTurnResult}
    → turn_result session input output ≡ ok r
    → Answered input output r
unfolding turn_result new_turn_result
answers session input output h =
    let (_, h1) = raise_if-eq-ok _ empty_response _ h in
    let same = ok_injective _ _ h1 in
    record {
      response = sym (ap (λ q. q.agent_response) same);
      ends = sym (ap (λ q. q.conversation_terminal) same);
      outcome = sym (ap (λ q. q.pipeline_outcome) same);
    }
