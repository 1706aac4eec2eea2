-- ===== src/Runtime/Coordinator/Ending.antt =====
-- The end of a call.
use text.Mathlib.TextEquality.{eq_iff}
use call_forge.Prelude.{
  String, leb_ℤ, true, false, ◌≡◌, refl, Option, none, some, List, [], ◌∷◌, Result, ok, err, member,
  string_eq, Bool-cases, inl, inr, ◌==◌, All,
}
use call_forge.Runtime.Contracts.{
  RuntimeEvent, handled, call_disconnected, cancel_current, CoordinationResult, CoordinatorError,
  ActiveDelivery, new_instruction,
}
use call_forge.Runtime.Session.{
  Coordinator, TurnProcessor, answer, fail, with_state, record_event, cancel_instruction, result,
  attempt, new_session_state,
}
use call_forge.Runtime.Coordinator.{
  handle, in_sequence, dispatch, disconnect, disconnect_from, disconnected_state, is_over,
}
use call_forge.Runtime.Coordinator.Runs.{run}
use call_forge.Runtime.Coordinator.Deliveries.{
  IsSession, Speaks, handle-IsSession, recorded-IsSession,
}
use call_forge.Runtime.Coordinator.Calls.{new_coordinator}

-- Nothing is to be spoken or cancelled, and nothing was raised.
abbrev pub Silent : Result CoordinatorError CoordinationResult → Type 0
Silent (ok r) = r.instructions ≡ []
Silent (err e) = ⊥

-- The event was handled.
abbrev pub IsHandled : Result CoordinatorError CoordinationResult → Type 0
IsHandled (ok r) = r.outcome ≡ handled
IsHandled (err e) = ⊥

-- No delivery goes on.
abbrev pub Stopped : Option ActiveDelivery → Type 0
Stopped none = Unit
Stopped (some d) = is_over d.status ≡ true

-- A delivery of a named turn can be cancelled.
pub cancels :
    (id : String)
    → (id == "") ≡ false
    → cancel_instruction id
      ≡ ok
          (record { action = cancel_current; turn_id = some id; text = none; interruptible = true })
unfolding cancel_instruction new_instruction
cancels id named = rw named

module _ {P : Type 0} where
  disconnect_from-Stopped :
      (c : Coordinator P) (active : Option ActiveDelivery)
      → Speaks c.state active
      → ((disconnect_from c active).0.state.disconnected ≡ true)
        × Stopped (disconnect_from c active).0.state.active_delivery
        × ((disconnect_from c active).0.processor ≡ c.processor)
        × IsHandled (disconnect_from c active).1
  unfolding disconnect_from answer with_state disconnected_state attempt result
  disconnect_from-Stopped c none of = (refl, tt, refl, refl)
  disconnect_from-Stopped c (some active) of = elim (Bool-cases (is_over active.status)) [
    | inl over ↦ rw over (refl, over, refl, refl)
    | inr live ↦ rw live (rw (cancels active.turn_id of.named) (refl, refl, refl, refl))
  ]

module _ {P : Type 0} (processor : TurnProcessor P) where
  handle_ended :
      (c : Coordinator P) (e : RuntimeEvent)
      → c.state.disconnected ≡ true
      → ((handle processor c e).0 ≡ c) × Silent (handle processor c e).1
  unfolding handle answer fail result
  handle_ended c e gone = elim (Bool-cases (e.call_id == c.state.call_id)) [
    | inr other ↦ simp other (refl, refl)
    | inl same ↦ simp same (elim (Bool-cases (member e.event_id c.state.processed_event_ids)) [
      | inl old ↦ simp old (refl, refl)
      | inr new ↦ simp (new, gone) (refl, refl)
    ])
  ]

  run_ended :
      (c : Coordinator P) (events : List RuntimeEvent)
      → c.state.disconnected ≡ true
      → ((run processor c events).0 ≡ c) × All Silent (run processor c events).1
  unfolding run
  run_ended c [] gone = (refl, tt)
  run_ended c (e ∷ events) gone =
      let (same, quiet) = handle_ended c e gone in
      let (last, rest) = run_ended c events gone in (rw same last, (quiet, rw same rest))

  runs-IsSession :
      (c : Coordinator P) (events : List RuntimeEvent)
      → IsSession c.state
      → IsSession (run processor c events).0.state
  unfolding run
  runs-IsSession c [] valid = valid
  runs-IsSession c (e ∷ events) valid =
      runs-IsSession (handle processor c e).0 events (handle-IsSession processor c e valid)

  -- From its creation, over any sequence of events, a session is valid: what it delivers is of the
  -- current turn, which has a name and is processed. This holds also where handling raises.
  pub run-IsSession :
      (p : P) (call_id : String) (events : List RuntimeEvent)
      → IsSession (run processor (new_coordinator p call_id) events).0.state
  unfolding new_session_state
  run-IsSession p call_id events = runs-IsSession (new_coordinator p call_id) events tt

  in_sequence_ends :
      (c : Coordinator P) (e : RuntimeEvent)
      → IsSession c.state
      → e.event_type ≡ call_disconnected
      → leb_ℤ e.sequence_number c.state.last_sequence ≡ false
      → ((in_sequence processor c e).0.state.disconnected ≡ true)
        × Stopped (in_sequence processor c e).0.state.active_delivery
        × ((in_sequence processor c e).0.processor ≡ c.processor)
        × IsHandled (in_sequence processor c e).1
  unfolding in_sequence dispatch disconnect
  in_sequence_ends c e valid kind fresh = rw fresh (
      rw kind (
        disconnect_from-Stopped (with_state c (record_event c.state e true)) _
          (recorded-IsSession processor c e true valid)))

  -- In a valid session a disconnect event that is new, of the call and in sequence ends the call: it
  -- is handled without a raise, no delivery goes on, the processor does not run, and all later events
  -- change nothing, raise nothing and instruct nothing.
  pub hang_up :
      (c : Coordinator P) (e : RuntimeEvent) (later : List RuntimeEvent)
      → IsSession c.state
      → e.event_type ≡ call_disconnected
      → e.call_id ≡ c.state.call_id
      → member e.event_id c.state.processed_event_ids ≡ false
      → c.state.disconnected ≡ false
      → leb_ℤ e.sequence_number c.state.last_sequence ≡ false
      → let c' = (handle processor c e).0 in
        (c'.state.disconnected ≡ true)
        × Stopped c'.state.active_delivery
        × (c'.processor ≡ c.processor)
        × IsHandled (handle processor c e).1
        × ((run processor c' later).0 ≡ c')
        × All Silent (run processor c' later).1
  unfolding handle
  hang_up c e later valid kind same new here fresh =
      let (ended, stopped, processor_kept, answered) = in_sequence_ends c e valid kind fresh in
      let (kept, quiet) = run_ended (in_sequence processor c e).0 later ended in
      rw ((eq_iff e.call_id c.state.call_id).1 same)
        (rw new (simp here (ended, stopped, processor_kept, answered, kept, quiet)))
