-- ===== src/Runtime/Coordinator/Deliveries.antt =====
-- The delivery that a session speaks of, and the turns that it has processed.
use text.Mathlib.TextEquality.{eq_iff}
use call_forge.Prelude.{
  String, Bool, true, false, ◌≡◌, refl, inl, inr, Option, none, some, List, ◌∷◌, ok, member,
  string_eq, Bool-cases, ◌==◌, >>=-eq-ok, raise_if-eq-ok, along_ok, ◌||◌, arith, ltb_ℤ, pos,
}
use call_forge.Runtime.Contracts.{
  DeliveryStatus, delivering, interrupted, cancelled, RuntimeEvent, RuntimeEventType, call_started,
  user_speech_started, user_utterance_final, agent_delivery_started, agent_delivery_completed,
  agent_delivery_interrupted, call_disconnected, CoordinatedUserTurn, CoordinatedTurnOutput,
  ActiveDelivery, RuntimeSessionState, DeliveryInstruction, new_turn, turn_identity,
}
use call_forge.Runtime.Session.{
  Coordinator, Answer, TurnProcessor, answer, fail, with_state, record_event, is_live, interruption,
  cancel_instruction, speak_instruction,
}
use call_forge.Runtime.Turn.{
  cancel_live, coordinated_turn, deliver, process, final_turn, final_parts, final_utterance,
}
use call_forge.Runtime.Coordinator.{
  interrupt, speech_over, speech_started, update_live, delivery_update, disconnect_from, disconnect,
  dispatch, is_over, stale, update_context, disconnected_state, in_sequence, handle,
}
use call_forge.Runtime.Coordinator.Frame.{attempt_rule}

-- A delivery is of the current turn, which has a name and is processed.
pub record IsOf (s : RuntimeSessionState) (d : ActiveDelivery) : Type 0 where
  pub named : (d.turn_id == "") ≡ false
  pub current : s.current_turn_id ≡ some d.turn_id
  pub processed : member d.turn_id s.processed_turn_ids ≡ true

abbrev pub Speaks : RuntimeSessionState → Option ActiveDelivery → Type 0
Speaks s none = Unit
Speaks s (some d) = IsOf s d

abbrev pub IsSession : RuntimeSessionState → Type 0
IsSession s = Speaks s s.active_delivery

module _ {P : Type 0} where
  abbrev Good : Answer P → Type 0
  Good r = IsSession r.0.state

  module _ (c : Coordinator P) (valid : IsSession c.state) where
    speech_over-IsSession :
        (event : RuntimeEvent) (active : Option ActiveDelivery)
        → Speaks c.state active
        → Good (speech_over c event active)
    unfolding speech_over interrupt answer with_state
    speech_over-IsSession event none of = valid
    speech_over-IsSession event (some active) of = elim (Bool-cases (is_live active.status)) [
      | inl live ↦ rw live (
          attempt_rule Good c (interruption event active) _ (λ e. valid)
            (λ context h.
              attempt_rule Good _ (cancel_instruction active.turn_id) _
                (λ e. record { named = of.named; current = of.current; processed = of.processed })
                (λ i h'. record {
                  named = of.named;
                  current = of.current;
                  processed = of.processed;
                })))
      | inr over ↦ rw over valid
    ]

    update_live-IsSession :
        (event : RuntimeEvent) (status : DeliveryStatus) (active : Option ActiveDelivery)
        → Speaks c.state active
        → Good (update_live c event status active)
    unfolding update_live answer with_state
    update_live-IsSession event status none of = valid
    update_live-IsSession event status (some active) of =
        elim (Bool-cases (stale event.turn_id c.state.current_turn_id active.status)) [
          | inl old ↦ rw old valid
          | inr fits ↦ rw fits (
              attempt_rule Good c (update_context c.state event active status) _ (λ e. valid)
                (λ context h. record {
                  named = of.named;
                  current = of.current;
                  processed = of.processed;
                }))
        ]

    disconnect_from-IsSession :
        (active : Option ActiveDelivery) → Speaks c.state active → Good (disconnect_from c active)
    unfolding disconnect_from answer with_state disconnected_state
    disconnect_from-IsSession none of = tt
    disconnect_from-IsSession (some active) of = elim (Bool-cases (is_over active.status)) [
      | inl over ↦
          rw over (record { named = of.named; current = of.current; processed = of.processed })
      | inr live ↦ rw live (
          attempt_rule Good c (cancel_instruction active.turn_id) _ (λ e. valid)
            (λ i h. record { named = of.named; current = of.current; processed = of.processed }))
    ]

    cancel_live-IsSession :
        (event : RuntimeEvent) (active : Option ActiveDelivery)
        {r : Coordinator P × List DeliveryInstruction}
        → Speaks c.state active
        → cancel_live c event active ≡ ok r
        → IsSession r.0.state
    unfolding cancel_live with_state
    cancel_live-IsSession event none of h = along_ok (λ r. IsSession r.0.state) h valid
    cancel_live-IsSession event (some active) of h = elim (Bool-cases (is_live active.status)) [
      | inl live ↦
          let (i, _, h1) = >>=-eq-ok (cancel_instruction active.turn_id) _ (rw live at h) in
          let (context, _, h2) =
            >>=-eq-ok (interruption event (record active { status = cancelled })) _ h1 in
          along_ok (λ r. IsSession r.0.state) h2
            (record { named = of.named; current = of.current; processed = of.processed })
      | inr over ↦ along_ok (λ r. IsSession r.0.state) (rw over at h) valid
    ]

or_left : (a b : Bool) → (a || b) ≡ false → a ≡ false
or_left a b h = ground arith

-- A turn that is made has a name.
new_turn-named :
    (t : CoordinatedUserTurn) {t' : CoordinatedUserTurn}
    → new_turn t ≡ ok t'
    → (t'.turn_id == "") ≡ false
unfolding new_turn
new_turn-named t h =
    let (named, h1) =
      raise_if-eq-ok (t.turn_id == "" || ltb_ℤ t.sequence_number (pos 0)) turn_identity (ok t) h in
    along_ok (λ t. (t.turn_id == "") ≡ false) h1 (or_left (t.turn_id == "") _ named)

coordinated_turn-named :
    (s : RuntimeSessionState) (event : RuntimeEvent) (id utterance : String)
    {turn : CoordinatedUserTurn}
    → coordinated_turn s event id utterance ≡ ok turn
    → (turn.turn_id == "") ≡ false
unfolding coordinated_turn
coordinated_turn-named s event id utterance h = new_turn-named _ h

-- One more processed turn leaves a delivery what it was.
Speaks-add :
    (s : RuntimeSessionState) (id : String) (active : Option ActiveDelivery)
    → Speaks s active
    → Speaks (record s { processed_turn_ids = id ∷ s.processed_turn_ids }) active
unfolding member
Speaks-add s id none of = tt
Speaks-add s id (some d) of = record {
  named = of.named;
  current = of.current;
  processed = ground (arith, of.processed);
}

module _ {P : Type 0} (processor : TurnProcessor P) where
  deliver-IsSession :
      (c : Coordinator P) (turn : CoordinatedUserTurn) (is : List DeliveryInstruction)
      (output : Option CoordinatedTurnOutput)
      → IsSession c.state
      → (turn.turn_id == "") ≡ false
      → member turn.turn_id c.state.processed_turn_ids ≡ true
      → Good (deliver c turn is output)
  unfolding deliver with_state
  deliver-IsSession c turn is none valid named done = valid
  deliver-IsSession c turn is (some output) valid named done =
      elim (Bool-cases (output.turn_id == turn.turn_id)) [
        | inl same ↦ rw same (
            attempt_rule Good _ (speak_instruction turn.turn_id output.rendered_response.text) _
              (λ e. record { named = named; current = refl; processed = done })
              (λ i h. record { named = named; current = refl; processed = done }))
        | inr other ↦ rw other valid
      ]

  process-IsSession :
      (c : Coordinator P) (turn : CoordinatedUserTurn) (is : List DeliveryInstruction)
      → IsSession c.state
      → (turn.turn_id == "") ≡ false
      → Good (process processor c turn is)
  unfolding process member
  process-IsSession c turn is valid named =
      deliver-IsSession _ turn is (processor c.processor turn).1
        (Speaks-add c.state turn.turn_id c.state.active_delivery valid) named
        (rw ((eq_iff turn.turn_id turn.turn_id).1 refl))

  final_turn-IsSession :
      (c : Coordinator P) (event : RuntimeEvent) (id utterance : String)
      → IsSession c.state
      → Good (final_turn processor c event id utterance)
  unfolding final_turn answer
  final_turn-IsSession c event id utterance valid =
      elim (Bool-cases (member id c.state.processed_turn_ids)) [
        | inl old ↦ rw old valid
        | inr new ↦ rw new (
            attempt_rule Good c (cancel_live c event c.state.active_delivery) _ (λ e. valid)
              (λ (c', is) h.
                let k = cancel_live-IsSession c valid event c.state.active_delivery valid h in
                attempt_rule Good c' (coordinated_turn c'.state event id utterance) _ (λ e. k)
                  (λ turn h'.
                    process-IsSession c' turn is k
                      (coordinated_turn-named c'.state event id utterance h'))))
      ]

  final_parts-IsSession :
      (c : Coordinator P) (event : RuntimeEvent) (id utterance : Option String)
      → IsSession c.state
      → Good (final_parts processor c event id utterance)
  unfolding final_parts
  final_parts-IsSession c event (some id) (some utterance) valid =
      final_turn-IsSession c event id utterance valid
  final_parts-IsSession c event (some id) none valid = valid
  final_parts-IsSession c event none utterance valid = valid

  dispatch-IsSession :
      (c : Coordinator P) (event : RuntimeEvent) (kind : RuntimeEventType)
      → IsSession c.state
      → Good (dispatch processor c event kind)
  unfolding dispatch disconnect speech_started delivery_update final_utterance answer fail
  dispatch-IsSession c event call_disconnected valid =
      disconnect_from-IsSession c valid c.state.active_delivery valid
  dispatch-IsSession c event RuntimeEventType.runtime_error valid = valid
  dispatch-IsSession c event user_speech_started valid =
      speech_over-IsSession c valid event c.state.active_delivery valid
  dispatch-IsSession c event user_utterance_final valid =
      final_parts-IsSession c event event.turn_id event.utterance valid
  dispatch-IsSession c event agent_delivery_started valid =
      update_live-IsSession c valid event delivering c.state.active_delivery valid
  dispatch-IsSession c event agent_delivery_completed valid =
      update_live-IsSession c valid event DeliveryStatus.completed c.state.active_delivery valid
  dispatch-IsSession c event agent_delivery_interrupted valid =
      update_live-IsSession c valid event interrupted c.state.active_delivery valid
  dispatch-IsSession c event call_started valid = valid

  -- The record of an event does not touch the delivery.
  pub recorded-IsSession :
      (c : Coordinator P) (e : RuntimeEvent) (advance : Bool)
      → IsSession c.state
      → IsSession (with_state c (record_event c.state e advance)).state
  unfolding with_state record_event
  recorded-IsSession c e advance valid = moved c.state.active_delivery valid
    where
      moved :
          (active : Option ActiveDelivery)
          → Speaks c.state active
          → Speaks (record_event c.state e advance) active
      moved none of = tt
      moved (some d) of = record {
        named = of.named;
        current = of.current;
        processed = of.processed;
      }

  -- Handling an event keeps a session valid, also where it raises.
  pub handle-IsSession :
      (c : Coordinator P) (e : RuntimeEvent)
      → IsSession c.state
      → IsSession (handle processor c e).0.state
  unfolding handle in_sequence answer fail
  handle-IsSession c e valid = ground (
    arith,
    recorded-IsSession c e false valid,
    dispatch-IsSession (with_state c (record_event c.state e true)) e e.event_type
        (recorded-IsSession c e true valid),
  )
