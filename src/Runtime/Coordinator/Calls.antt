-- ===== src/Runtime/Coordinator/Calls.antt =====
-- Whole calls: the coordinator from its creation, over any sequence of events.
use call_forge.Prelude.{String, ◌≤ℤ◌, true, ◌≡◌, refl, List, [], ◌∷◌, member, string_eq, arith, ap}
use call_forge.Runtime.Contracts.{RuntimeEvent, RuntimeSessionState}
use call_forge.Runtime.Session.{
  Coordinator, TurnProcessor, with_state, record_event, new_session_state,
}
use call_forge.Runtime.Coordinator.{handle}
use call_forge.Runtime.Coordinator.Frame.{Turns, idle, ran}
use call_forge.Runtime.Coordinator.Runs.{
  run, Handled, ignored, recorded, advanced, handle-Handled, Distinct,
}

-- A coordinator at the start of a call.
abbrev pub new_coordinator : {P : Type 0} → P → String → Coordinator P
new_coordinator p call_id = record { processor = p; state = new_session_state call_id }

-- A processor that also keeps the ids of the turns that it was given, the latest first.
unfoldable pub logged : {Q : Type 0} → TurnProcessor Q → TurnProcessor (Q × List String)
logged processor (q, log) turn =
    let (q', output) = processor q turn in ((q', turn.turn_id ∷ log), output)

module _ {Q : Type 0} (processor : TurnProcessor Q) where
  -- The log is the set of processed turns, and has none twice.
  record IsLogged (c : Coordinator (Q × List String)) : Type 0 where
    in_step : c.processor.1 ≡ c.state.processed_turn_ids
    once : Distinct c.state.processed_turn_ids

  Turns-IsLogged :
      {c c' : Coordinator (Q × List String)}
      → Turns (logged processor) c c'
      → IsLogged c
      → IsLogged c'
  unfolding logged
  Turns-IsLogged (idle same turns) l = record {
    in_step = rw (same, turns) l.in_step;
    once = rw turns l.once;
  }
  Turns-IsLogged (ran turn new same turns) l = record {
    in_step = rw (same, turns) (ap (λ ts. turn.turn_id ∷ ts) l.in_step);
    once = rw turns (new, l.once);
  }

  Handled-IsLogged :
      {c c' : Coordinator (Q × List String)} {e : RuntimeEvent}
      → Handled (logged processor) c e c'
      → IsLogged c
      → IsLogged c'
  unfolding with_state record_event
  Handled-IsLogged (ignored same) l = rw same l
  Handled-IsLogged (recorded _ _ _ k) l =
      Turns-IsLogged k.turns (record { in_step = l.in_step; once = l.once })
  Handled-IsLogged (advanced _ _ _ _ k) l =
      Turns-IsLogged k.turns (record { in_step = l.in_step; once = l.once })

  run-IsLogged :
      (c : Coordinator (Q × List String)) (events : List RuntimeEvent)
      → IsLogged c
      → IsLogged (run (logged processor) c events).0
  unfolding run
  run-IsLogged c [] l = l
  run-IsLogged c (e ∷ events) l =
      run-IsLogged (handle (logged processor) c e).0 events
        (Handled-IsLogged (handle-Handled (logged processor) c e) l)

  -- Over any sequence of events of a call, repeated, late or of another call, and whatever is raised,
  -- the processor is never given two turns of one id, and the session's processed turns are just
  -- those that it was given.
  pub turns_run_once :
      (q : Q) (call_id : String) (events : List RuntimeEvent)
      → let last = (run (logged processor) (new_coordinator (q, []) call_id) events).0 in
        (last.processor.1 ≡ last.state.processed_turn_ids) × Distinct last.processor.1
  unfolding new_session_state
  turns_run_once q call_id events =
      let l =
        run-IsLogged (new_coordinator (q, []) call_id) events
          (record { in_step = refl; once = tt }) in
      (l.in_step, rw l.in_step l.once)

-- The sequence number, the processed events and turns and the end of the call only grow.
pub record Advances (s s' : RuntimeSessionState) : Type 0 where
  pub same_call : s'.call_id ≡ s.call_id
  pub sequence : s.last_sequence ≤ℤ s'.last_sequence
  pub events :
      (id : String)
      → member id s.processed_event_ids ≡ true
      → member id s'.processed_event_ids ≡ true
  pub turns :
      (id : String) → member id s.processed_turn_ids ≡ true → member id s'.processed_turn_ids ≡ true
  pub ended : s.disconnected ≡ true → s'.disconnected ≡ true

module _ {P : Type 0} (processor : TurnProcessor P) where
  Turns-member :
      {c c' : Coordinator P} (id : String)
      → Turns processor c c'
      → member id c.state.processed_turn_ids ≡ true
      → member id c'.state.processed_turn_ids ≡ true
  unfolding member
  Turns-member id (idle same turns) h = rw turns h
  Turns-member id (ran turn new same turns) h = rw (turns, h) (ground arith)

  Handled-Advances :
      {c c' : Coordinator P} {e : RuntimeEvent}
      → Handled processor c e c'
      → Advances c.state c'.state
  unfolding with_state record_event member
  Handled-Advances {c} (ignored same) = rw same (record {
    same_call = refl;
    sequence = omega arith;
    events = λ id h. h;
    turns = λ id h. h;
    ended = λ h. h;
  })
  Handled-Advances (recorded _ _ _ k) = record {
    same_call = k.frame.call_id;
    sequence = rw k.frame.last_sequence (omega arith);
    events = λ id h. rw (k.frame.events, h) (ground arith);
    turns = λ id h. Turns-member id k.turns h;
    ended = k.frame.disconnected;
  }
  Handled-Advances (advanced _ _ _ fresh k) = record {
    same_call = k.frame.call_id;
    sequence = rw k.frame.last_sequence (ground arith);
    events = λ id h. rw (k.frame.events, h) (ground arith);
    turns = λ id h. Turns-member id k.turns h;
    ended = k.frame.disconnected;
  }

  -- Every event of a call keeps the call's id, and lets the last sequence number and the sets of
  -- processed events and turns only grow; a call that has ended stays so. This holds also where
  -- handling raises.
  pub handle-Advances :
      (c : Coordinator P) (e : RuntimeEvent) → Advances c.state (handle processor c e).0.state
  handle-Advances c e = Handled-Advances (handle-Handled processor c e)
