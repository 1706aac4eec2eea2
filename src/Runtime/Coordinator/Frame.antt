-- ===== src/Runtime/Coordinator/Frame.antt =====
-- What the handling of one event may change.
use call_forge.Prelude.{
  String, true, false, ◌≡◌, refl, inl, inr, Option, none, some, List, ◌∷◌, Result, ok, err, member,
  string_eq, Bool-cases, ◌∙◌, ap, >>=-eq-ok, raise_if-eq-ok, along_ok, ◌==◌,
}
use call_forge.Runtime.Contracts.{
  DeliveryStatus, delivering, interrupted, cancelled, RuntimeEvent, RuntimeEventType, call_started,
  user_speech_started, user_utterance_final, agent_delivery_started, agent_delivery_completed,
  agent_delivery_interrupted, call_disconnected, CoordinatedUserTurn, CoordinatedTurnOutput,
  ActiveDelivery, RuntimeSessionState, CoordinatorError, DeliveryInstruction, new_turn,
}
use call_forge.Runtime.Session.{
  Coordinator, Answer, TurnProcessor, attempt, answer, fail, with_state, is_live, interruption,
  cancel_instruction, speak_instruction,
}
use call_forge.Runtime.Turn.{
  cancel_live, coordinated_turn, deliver, process, final_turn, final_parts, final_utterance,
}
use call_forge.Runtime.Coordinator.{
  interrupt, speech_over, speech_started, update_live, delivery_update, disconnect_from, disconnect,
  dispatch, is_over, stale, update_context, disconnected_state,
}

-- The call, the sequence and the events are kept, and a disconnected session stays so.
pub record Frame (s s' : RuntimeSessionState) : Type 0 where
  pub call_id : s'.call_id ≡ s.call_id
  pub last_sequence : s'.last_sequence ≡ s.last_sequence
  pub events : s'.processed_event_ids ≡ s.processed_event_ids
  pub disconnected : s.disconnected ≡ true → s'.disconnected ≡ true

module _ {P : Type 0} (processor : TurnProcessor P) where
  -- The processor did not run, or ran once, on a turn that is new and marked as processed.
  pub data Turns (c c' : Coordinator P) : Type 0 where
    idle :
        c'.processor ≡ c.processor
        → c'.state.processed_turn_ids ≡ c.state.processed_turn_ids
        → Turns c c'
    ran :
        (turn : CoordinatedUserTurn)
        → member turn.turn_id c.state.processed_turn_ids ≡ false
        → c'.processor ≡ (processor c.processor turn).0
        → c'.state.processed_turn_ids ≡ turn.turn_id ∷ c.state.processed_turn_ids
        → Turns c c'

  pub record Effect (c c' : Coordinator P) : Type 0 where
    pub frame : Frame c.state c'.state
    pub turns : Turns c c'

-- A step that may raise has a property if its failure and its continuation have it.
pub attempt_rule :
    {P : Type 0} {A : Type 0} (Q : Answer P → Type 0) (c : Coordinator P)
    (r : Result CoordinatorError A) (next : A → Answer P)
    → ((e : CoordinatorError) → Q (c, err e))
    → ((a : A) → r ≡ ok a → Q (next a))
    → Q (attempt c r next)
unfolding attempt
attempt_rule Q c (ok a) next failure success = success a refl
attempt_rule Q c (err e) next failure success = failure e

Frame-refl : (s : RuntimeSessionState) → Frame s s
Frame-refl s = record { call_id = refl; last_sequence = refl; events = refl; disconnected = λ h. h }

module _ {P : Type 0} (processor : TurnProcessor P) (c : Coordinator P) where
  pub Effect-refl : Effect processor c c
  Effect-refl = record { frame = Frame-refl c.state; turns = idle refl refl }

  abbrev Kept : Answer P → Type 0
  Kept r = Effect processor c r.0

  interrupt-Effect :
      (event : RuntimeEvent) (active : ActiveDelivery) → Kept (interrupt c event active)
  unfolding interrupt with_state
  interrupt-Effect event active =
      attempt_rule Kept c (interruption event active) _ (λ e. Effect-refl)
        (λ context h.
          attempt_rule Kept _ (cancel_instruction active.turn_id) _
            (λ e. record {
              frame = record {
                call_id = refl;
                last_sequence = refl;
                events = refl;
                disconnected = λ d. d;
              };
              turns = idle refl refl;
            })
            (λ i h'. record {
              frame = record {
                call_id = refl;
                last_sequence = refl;
                events = refl;
                disconnected = λ d. d;
              };
              turns = idle refl refl;
            }))

  speech_over-Effect :
      (event : RuntimeEvent) (active : Option ActiveDelivery) → Kept (speech_over c event active)
  unfolding speech_over answer
  speech_over-Effect event none = Effect-refl
  speech_over-Effect event (some active) = elim (Bool-cases (is_live active.status)) [
    | inl live ↦ rw live (interrupt-Effect event active)
    | inr over ↦ rw over Effect-refl
  ]

  update_live-Effect :
      (event : RuntimeEvent) (status : DeliveryStatus) (active : Option ActiveDelivery)
      → Kept (update_live c event status active)
  unfolding update_live answer with_state
  update_live-Effect event status none = Effect-refl
  update_live-Effect event status (some active) =
      elim (Bool-cases (stale event.turn_id c.state.current_turn_id active.status)) [
        | inl yes_ ↦ rw yes_ Effect-refl
        | inr fits ↦ rw fits (
            attempt_rule Kept c (update_context c.state event active status) _ (λ e. Effect-refl)
              (λ context h. record {
                frame = record {
                  call_id = refl;
                  last_sequence = refl;
                  events = refl;
                  disconnected = λ d. d;
                };
                turns = idle refl refl;
              }))
      ]

  disconnect_from-Effect : (active : Option ActiveDelivery) → Kept (disconnect_from c active)
  unfolding disconnect_from answer with_state disconnected_state
  disconnect_from-Effect none = record {
    frame = record {
      call_id = refl;
      last_sequence = refl;
      events = refl;
      disconnected = λ d. refl;
    };
    turns = idle refl refl;
  }
  disconnect_from-Effect (some active) = elim (Bool-cases (is_over active.status)) [
    | inl over ↦ rw over (record {
      frame = record {
        call_id = refl;
        last_sequence = refl;
        events = refl;
        disconnected = λ d. refl;
      };
      turns = idle refl refl;
    })
    | inr live ↦ rw live (
        attempt_rule Kept c (cancel_instruction active.turn_id) _ (λ e. Effect-refl)
          (λ i h. record {
            frame = record {
              call_id = refl;
              last_sequence = refl;
              events = refl;
              disconnected = λ d. refl;
            };
            turns = idle refl refl;
          }))
  ]

-- The coordinator after the old delivery is cancelled: as before, but for what is being said.
pub record Cancelled {P : Type 0} (c c' : Coordinator P) : Type 0 where
  pub frame : Frame c.state c'.state
  pub same_processor : c'.processor ≡ c.processor
  pub same_turns : c'.state.processed_turn_ids ≡ c.state.processed_turn_ids

cancel_live-Cancelled :
    {P : Type 0} (c : Coordinator P) (event : RuntimeEvent) (active : Option ActiveDelivery)
    {r : Coordinator P × List DeliveryInstruction}
    → cancel_live c event active ≡ ok r
    → Cancelled c r.0
unfolding cancel_live with_state
cancel_live-Cancelled c event none h =
    along_ok (λ r. Cancelled c r.0) h
      (record { frame = Frame-refl c.state; same_processor = refl; same_turns = refl })
cancel_live-Cancelled c event (some active) h = elim (Bool-cases (is_live active.status)) [
  | inl live ↦
      let (i, _, h1) = >>=-eq-ok (cancel_instruction active.turn_id) _ (rw live at h) in
      let (context, _, h2) =
        >>=-eq-ok (interruption event (record active { status = cancelled })) _ h1 in
      along_ok (λ r. Cancelled c r.0) h2
        (record {
          frame = record {
            call_id = refl;
            last_sequence = refl;
            events = refl;
            disconnected = λ d. d;
          };
          same_processor = refl;
          same_turns = refl;
        })
  | inr over ↦
      along_ok (λ r. Cancelled c r.0) (rw over at h)
        (record { frame = Frame-refl c.state; same_processor = refl; same_turns = refl })
]

-- A turn is made of the id that it is asked for.
coordinated_turn-id :
    (s : RuntimeSessionState) (event : RuntimeEvent) (id utterance : String)
    {turn : CoordinatedUserTurn}
    → coordinated_turn s event id utterance ≡ ok turn
    → turn.turn_id ≡ id
unfolding coordinated_turn new_turn
coordinated_turn-id s event id utterance h =
    let (_, h1) = raise_if-eq-ok _ _ _ h in along_ok (λ t. t.turn_id ≡ id) h1 refl

module _ {P : Type 0} (processor : TurnProcessor P) where
  -- `deliver` changes nothing but what is being said.
  deliver-Cancelled :
      (c : Coordinator P) (turn : CoordinatedUserTurn) (is : List DeliveryInstruction)
      (output : Option CoordinatedTurnOutput)
      → Cancelled c (deliver c turn is output).0
  unfolding deliver with_state
  deliver-Cancelled c turn is none = record {
    frame = Frame-refl c.state;
    same_processor = refl;
    same_turns = refl;
  }
  deliver-Cancelled c turn is (some output) = elim (Bool-cases (output.turn_id == turn.turn_id)) [
    | inl same ↦ rw same (
        attempt_rule (λ r. Cancelled c r.0) _
          (speak_instruction turn.turn_id output.rendered_response.text) _
          (λ e. record {
            frame = record {
              call_id = refl;
              last_sequence = refl;
              events = refl;
              disconnected = λ d. d;
            };
            same_processor = refl;
            same_turns = refl;
          })
          (λ i h. record {
            frame = record {
              call_id = refl;
              last_sequence = refl;
              events = refl;
              disconnected = λ d. d;
            };
            same_processor = refl;
            same_turns = refl;
          }))
    | inr other ↦
        rw other (record { frame = Frame-refl c.state; same_processor = refl; same_turns = refl })
  ]

  Cancelled-Effect : (c c' : Coordinator P) → Cancelled c c' → Effect processor c c'
  Cancelled-Effect c c' k = record { frame = k.frame; turns = idle k.same_processor k.same_turns }

  process-Effect :
      (c c' : Coordinator P) (turn : CoordinatedUserTurn) (is : List DeliveryInstruction)
      → Cancelled c c'
      → member turn.turn_id c.state.processed_turn_ids ≡ false
      → Effect processor c (process processor c' turn is).0
  unfolding process
  process-Effect c c' turn is k new =
      let d = deliver-Cancelled _ turn is (processor c'.processor turn).1 in
      record {
        frame = record {
          call_id = d.frame.call_id ∙ k.frame.call_id;
          last_sequence = d.frame.last_sequence ∙ k.frame.last_sequence;
          events = d.frame.events ∙ k.frame.events;
          disconnected = λ h. d.frame.disconnected (k.frame.disconnected h);
        };
        turns =
            ran turn new (d.same_processor ∙ ap (λ q. (processor q turn).0) k.same_processor)
              (d.same_turns ∙ ap (λ ts. turn.turn_id ∷ ts) k.same_turns);
      }

  final_turn-Effect :
      (c : Coordinator P) (event : RuntimeEvent) (id utterance : String)
      → Effect processor c (final_turn processor c event id utterance).0
  unfolding final_turn answer
  final_turn-Effect c event id utterance =
      elim (Bool-cases (member id c.state.processed_turn_ids)) [
        | inl old ↦ rw old (Effect-refl processor c)
        | inr new ↦ rw new (
            attempt_rule (λ r. Effect processor c r.0) c
              (cancel_live c event c.state.active_delivery) _ (λ e. Effect-refl processor c)
              (λ (c', is) h.
                let k = cancel_live-Cancelled c event c.state.active_delivery h in
                attempt_rule (λ r. Effect processor c r.0) c'
                  (coordinated_turn c'.state event id utterance) _ (λ e. Cancelled-Effect c c' k)
                  (λ turn h'.
                    process-Effect c c' turn is k
                      (rw (coordinated_turn-id c'.state event id utterance h') new))))
      ]

  final_parts-Effect :
      (c : Coordinator P) (event : RuntimeEvent) (id utterance : Option String)
      → Effect processor c (final_parts processor c event id utterance).0
  unfolding final_parts
  final_parts-Effect c event (some id) (some utterance) = final_turn-Effect c event id utterance
  final_parts-Effect c event (some id) none = Effect-refl processor c
  final_parts-Effect c event none utterance = Effect-refl processor c

  -- What a dispatched event may change.
  pub dispatch-Effect :
      (c : Coordinator P) (event : RuntimeEvent) (kind : RuntimeEventType)
      → Effect processor c (dispatch processor c event kind).0
  unfolding dispatch disconnect speech_started delivery_update final_utterance answer fail
  dispatch-Effect c event call_disconnected =
      disconnect_from-Effect processor c c.state.active_delivery
  dispatch-Effect c event RuntimeEventType.runtime_error = Effect-refl processor c
  dispatch-Effect c event user_speech_started =
      speech_over-Effect processor c event c.state.active_delivery
  dispatch-Effect c event user_utterance_final =
      final_parts-Effect c event event.turn_id event.utterance
  dispatch-Effect c event agent_delivery_started =
      update_live-Effect processor c event delivering c.state.active_delivery
  dispatch-Effect c event agent_delivery_completed =
      update_live-Effect processor c event DeliveryStatus.completed c.state.active_delivery
  dispatch-Effect c event agent_delivery_interrupted =
      update_live-Effect processor c event interrupted c.state.active_delivery
  dispatch-Effect c event call_started = Effect-refl processor c
