-- ===== src/Runtime/Chat/Once.antt =====
-- A chat turn that is answered is in the session, and is not run again.
use call_forge.Prelude.{
  AllEntries, AllEntries-lookup, ℤ, leb_ℤ, Bool, true, false, not, ◌≡◌, refl, sym, ap, ◌∙◌, ◌⊎◌,
  inl, inr, Option, none, some, ◌++◌, Result, ok, err, required, >>=-eq-ok, raise_if-eq-ok,
  required-eq-ok, ok_injective, lookup, lookup-insert, if◌then◌else◌, insert, Bool-cases, arith,
  string_eq,
}
use call_forge.Runtime.Contracts.{CoordinatedUserTurn, CoordinatedTurnOutput}
use call_forge.Runtime.Session.{TurnProcessor}
use call_forge.Runtime.Chat.{
  completed, active, ChatError, session_terminated, duplicate_turn, ChatTurnInput, ChatTurnResult,
  ChatSession, ChatRuntime, Sessions, is_active, get, admit, after_turn, stored, record_turn,
  run_turn, process_turn, session_not_found, no_processor, to_coordinated_turn,
}
use call_forge.Runtime.Chat.Recorded.{updated, entries, after, turned, Answered, answers}

module _ {P : Type 0} where
  stored-ok :
      (rt : ChatRuntime P) (x : Result ChatError (Sessions × ChatSession))
      (answer : Result ChatError ChatTurnResult) {rt' : ChatRuntime P} {r : ChatTurnResult}
      → stored rt x answer ≡ (rt', ok r)
      → (y : Sessions × ChatSession) × (x ≡ ok y)
        × (rt'.sessions ≡ y.0)
        × (rt'.processors ≡ rt.processors)
        × (answer ≡ ok r)
  unfolding stored
  stored-ok rt (ok y) answer h =
      (y, refl, sym (ap (λ q. q.0.sessions) h), sym (ap (λ q. q.0.processors) h), ap (λ q. q.1) h)
  stored-ok rt (err e) answer h = absurd (cc (ap (λ q. q.1) h))

  -- What a recorded turn is: the stored session has the turn's number, its two entries and the status
  -- that its output gives, and the result is of that output.
  record Recorded (rt rt' : ChatRuntime P) (input : ChatTurnInput) (session : ChatSession)
      (output : CoordinatedTurnOutput) (r : ChatTurnResult) : Type 0 where
    s : ChatSession
    there : lookup session.session_id rt'.sessions ≡ some s
    count : s.turn_count ≡ input.turn_sequence
    status : s.status ≡ (if output.conversation_terminal then completed else active)
    text : s.transcript ≡ session.transcript ++ entries input output
    same_processors : rt'.processors ≡ rt.processors
    answered : Answered input output r

  record_turn-ok :
      (rt : ChatRuntime P) (session : ChatSession) (input : ChatTurnInput)
      (output : Option CoordinatedTurnOutput) {rt' : ChatRuntime P} {r : ChatTurnResult}
      → record_turn rt session input output ≡ (rt', ok r)
      → (o : CoordinatedTurnOutput) × (output ≡ some o) × Recorded rt rt' input session o r
  unfolding record_turn
  record_turn-ok rt session input none h = absurd (cc (ap (λ q. q.1) h))
  record_turn-ok rt session input (some output) {rt' = rt'} h =
      let (y, made, kept, same, answer) = stored-ok rt _ _ h in
      let (s, ended, changed) = >>=-eq-ok (after_turn session input output) _ made in
      let (named, counted, stood, said) = after session input output ended in
      let (s', put, count, text, status) = updated rt.sessions s changed in
      (
        output,
        refl,
        record {
          s = s';
          there =
              ap (λ k. lookup k rt'.sessions) (sym named)
              ∙ (ap (λ ss. lookup s.session_id ss) (kept ∙ put)
                  ∙ lookup-insert s.session_id s' rt.sessions);
          count = count ∙ counted;
          status = status ∙ stood;
          text = text ∙ said;
          same_processors = same;
          answered = answers session input output answer;
        },
      )

  -- A turn that the runtime answered, from the processor of its session to what it leaves.
  pub record TurnAnswered (processor : TurnProcessor P) (rt rt' : ChatRuntime P)
      (input : ChatTurnInput) (r : ChatTurnResult) : Type 0 where
    pub session : ChatSession
    pub found : lookup input.session_id rt.sessions ≡ some session
    pub live : is_active session.status ≡ true
    pub fresh : leb_ℤ input.turn_sequence session.turn_count ≡ false
    pub p : P
    pub its : lookup input.session_id rt.processors ≡ some p
    pub turn : CoordinatedUserTurn
    pub said : turn.utterance ≡ input.message
    pub numbered : turn.sequence_number ≡ input.turn_sequence
    pub output : CoordinatedTurnOutput
    pub given_out : (processor p turn).1 ≡ some output
    pub kept : lookup input.session_id rt'.processors ≡ some (processor p turn).0
    pub response : r.agent_response ≡ output.rendered_response.text
    pub ends : r.conversation_terminal ≡ output.conversation_terminal
    pub outcome : r.pipeline_outcome ≡ output.pipeline_outcome
    pub after : ChatSession
    pub there : lookup input.session_id rt'.sessions ≡ some after
    pub count : after.turn_count ≡ input.turn_sequence
    pub status : after.status ≡ (if output.conversation_terminal then completed else active)
    pub transcript : after.transcript ≡ session.transcript ++ entries input output

  -- The guards that an admitted turn passed.
  record Admitted (rt : ChatRuntime P) (input : ChatTurnInput) (session : ChatSession) (p : P)
      (turn : CoordinatedUserTurn) : Type 0 where
    found : lookup input.session_id rt.sessions ≡ some session
    live : is_active session.status ≡ true
    fresh : leb_ℤ input.turn_sequence session.turn_count ≡ false
    its : lookup session.session_id rt.processors ≡ some p
    made : to_coordinated_turn input ≡ ok turn

  guards :
      (rt : ChatRuntime P) (input : ChatTurnInput) (session : ChatSession) (p : P)
      (turn : CoordinatedUserTurn)
      → admit rt input ≡ ok (session, p, turn)
      → Admitted rt input session p turn
  unfolding admit get
  guards rt input session p turn h =
      let (s, found, h1) = >>=-eq-ok (get rt.sessions input.session_id) _ h in
      let (live, h2) = raise_if-eq-ok (not (is_active s.status)) session_terminated _ h1 in
      let (fresh, h3) =
        raise_if-eq-ok (leb_ℤ input.turn_sequence s.turn_count) duplicate_turn _ h2 in
      let (q, its, h4) =
        >>=-eq-ok (required no_processor (lookup s.session_id rt.processors)) _ h3 in
      let (t, made, h5) = >>=-eq-ok (to_coordinated_turn input) _ h4 in
      let all = ok_injective (s, q, t) (session, p, turn) h5 in
      let same : s ≡ session = ap (λ y. y.0) all in
      record {
        found = required-eq-ok session_not_found _ found ∙ ap (λ x. some x) same;
        live = ap (λ x. is_active x.status) (sym same) ∙ of_not live;
        fresh = ap (λ x. leb_ℤ input.turn_sequence x.turn_count) (sym same) ∙ fresh;
        its =
            ap (λ x. lookup x.session_id rt.processors) (sym same)
            ∙ required-eq-ok no_processor _ its
            ∙ ap (λ y. some y.1) all;
        made = made ∙ ap (λ y. ok y.2) all;
      }
    where
      of_not : {b : Bool} → not b ≡ false → b ≡ true
      of_not h = ground arith

  -- A turn that is answered was admitted, and recorded.
  admitted :
      (processor : TurnProcessor P) (rt rt' : ChatRuntime P) (input : ChatTurnInput)
      (r : ChatTurnResult) (x : Result ChatError (ChatSession × P × CoordinatedUserTurn))
      → run_turn processor rt input x ≡ (rt', ok r)
      → (session : ChatSession) × (p : P) × (turn : CoordinatedUserTurn) × (x
          ≡ ok (session, p, turn))
        × (o : CoordinatedTurnOutput) × ((processor p turn).1 ≡ some o)
        × Recorded
            (record rt {
              processors = insert session.session_id (processor p turn).0 rt.processors;
            })
            rt'
            input
            session
            o
            r
  unfolding run_turn
  admitted processor rt rt' input r (err e) h = absurd (cc (ap (λ q. q.1) h))
  admitted processor rt rt' input r (ok (session, p, turn)) h =
      let (o, given_out, recorded) = record_turn-ok _ session input _ h in
      (session, p, turn, refl, o, given_out, recorded)

  refused :
      (processor : TurnProcessor P) (rt : ChatRuntime P) (input : ChatTurnInput) (s : ChatSession)
      → lookup input.session_id rt.sessions ≡ some s
      → s.turn_count ≡ input.turn_sequence
      → (process_turn processor rt input ≡ (rt, err session_terminated))
        ⊎ (process_turn processor rt input ≡ (rt, err duplicate_turn))
  unfolding process_turn run_turn admit get
  refused processor rt input s found count = elim (Bool-cases (is_active s.status)) [
    | inl live ↦ inr (
        rw found (
          rw live
            (rw (ap (λ n. leb_ℤ input.turn_sequence n) count ∙ self input.turn_sequence) refl)))
    | inr over ↦ inl (rw found (rw over refl))
  ]
    where
      self : (n : ℤ) → leb_ℤ n n ≡ true
      self n = ground arith

  -- Where the sessions stand under their own ids, a turn that is answered was of an active session and
  -- later than its turns so far; the session's processor was given the message under its number; what
  -- the processor answered is the result, and the processor is kept as the turn left it; the session
  -- is recorded with the turn's number, completed exactly if the answer ends the conversation, and
  -- with just the prospect's message and the answer's text more; and the same turn again is refused,
  -- as a duplicate or since the session has ended, and changes nothing.
  pub chat_turn_once :
      (processor : TurnProcessor P) (rt rt' : ChatRuntime P) (input : ChatTurnInput)
      (r : ChatTurnResult)
      → AllEntries (λ id s. id ≡ s.session_id) rt.sessions
      → process_turn processor rt input ≡ (rt', ok r)
      → TurnAnswered processor rt rt' input r
        × ((process_turn processor rt' input ≡ (rt', err session_terminated))
            ⊎ (process_turn processor rt' input ≡ (rt', err duplicate_turn)))
  unfolding process_turn
  chat_turn_once processor rt rt' input r keyed h =
      let (session, p, turn, passed, output, given_out, recorded) =
        admitted processor rt rt' input r (admit rt input) h in
      let was = guards rt input session p turn passed in
      let own = AllEntries-lookup _ input.session_id session rt.sessions keyed was.found in
      let (said, numbered) = turned input was.made in
      let there = ap (λ k. lookup k rt'.sessions) own ∙ recorded.there in
      (
        record {
          session = session;
          found = was.found;
          live = was.live;
          fresh = was.fresh;
          p = p;
          its = ap (λ k. lookup k rt.processors) own ∙ was.its;
          turn = turn;
          said = said;
          numbered = numbered;
          output = output;
          given_out = given_out;
          kept =
              ap (λ k. lookup k rt'.processors) own
              ∙ (ap (λ ps. lookup session.session_id ps) recorded.same_processors
                  ∙ lookup-insert session.session_id (processor p turn).0 rt.processors);
          response = recorded.answered.response;
          ends = recorded.answered.ends;
          outcome = recorded.answered.outcome;
          after = recorded.s;
          there = there;
          count = recorded.count;
          status = recorded.status;
          transcript = recorded.text;
        },
        refused processor rt' input recorded.s there recorded.count,
      )
