-- ===== src/Runtime/Coordinator/BargeIn.antt =====
-- The user speaks while a delivery is live.
use text.Mathlib.TextEquality.{eq_iff}
use Prim.Native.String.{count}
use call_forge.Prelude.{
  String, ltb, leb_ℤ, true, false, ◌≡◌, refl, Option, none, some, [], ◌∷◌, ok, err, member,
  string_eq, ◌==◌, is_blank, ◌⊎◌, inl, inr, Bool-cases,
}
use call_forge.Runtime.Contracts.{
  RuntimeEvent, user_speech_started, interrupted, duplicate_ignored, handled, cancel_current,
  CoordinationResult, pending_summary_bounds, ActiveDelivery, new_pending_intent,
  InterruptionContext, PendingConversationIntent,
}
use call_forge.Runtime.Session.{
  Coordinator, TurnProcessor, answer, with_state, record_event, result, attempt, is_live,
  interruption, pending_of_summary, unfinished_summary, interrupted_progress,
}
use call_forge.Runtime.Coordinator.{
  handle, in_sequence, dispatch, speech_started, speech_over, interrupt,
}
use call_forge.Runtime.Coordinator.Ending.{cancels}

-- The event is the first of its id, of the call, and in sequence.
pub record IsNew {P : Type 0} (c : Coordinator P) (e : RuntimeEvent) : Type 0 where
  pub same_call : e.call_id ≡ c.state.call_id
  pub unseen : member e.event_id c.state.processed_event_ids ≡ false
  pub connected : c.state.disconnected ≡ false
  pub in_order : leb_ℤ e.sequence_number c.state.last_sequence ≡ false

-- The delivery's summary can be carried over: there is none, or it is a text of 1 to 240 characters,
-- not blank, beside a goal of 1 to 120.
abbrev pub Carries : String → Option String → Type 0
Carries goal none = Unit
Carries goal (some summary) =
    ((summary == "") ≡ true)
    ⊎ ((is_blank goal ≡ false)
        × (ltb 120 (count goal) ≡ false)
        × (is_blank summary ≡ false)
        × (ltb 240 (count summary) ≡ false))

carried :
    (goal : String) (summary : Option String)
    → Carries goal summary
    → (intent : Option PendingConversationIntent) × (pending_of_summary goal summary ≡ ok intent)
unfolding pending_of_summary new_pending_intent
carried goal none fits = (none, refl)
carried goal (some s) (inl empty) = (none, rw empty)
carried goal (some s) (inr (named, short, said, brief)) = elim (Bool-cases (s == "")) [
  | inl empty ↦ (none, rw empty)
  | inr some_ ↦ (
    some (record { goal = goal; summary = s; completed = false; still_relevant = true }),
    rw (some_, named, short, said, brief),
  )
]

module _ {P : Type 0} (processor : TurnProcessor P) (c : Coordinator P) (e : RuntimeEvent)
    (d : ActiveDelivery) where
  -- Past the guards of `handle`, the delivery is spoken over.
  reaches :
      IsNew c e
      → e.event_type ≡ user_speech_started
      → c.state.active_delivery ≡ some d
      → is_live d.status ≡ true
      → handle processor c e ≡ interrupt (with_state c (record_event c.state e true)) e d
  unfolding handle in_sequence dispatch speech_started speech_over with_state record_event
  reaches n kind active live =
      rw ((eq_iff e.call_id c.state.call_id).1 n.same_call)
        (rw n.unseen (simp n.connected (simp n.in_order (simp kind (simp active (rw live))))))

  -- The event is on record after it, so that it is a duplicate.
  repeated :
      (c' : Coordinator P)
      → e.call_id ≡ c'.state.call_id
      → member e.event_id c'.state.processed_event_ids ≡ true
      → (r : CoordinationResult) × (handle processor c' e ≡ (c', ok r))
        × (r.outcome ≡ duplicate_ignored)
  unfolding handle answer result
  repeated c' same old = (
    result c'.state duplicate_ignored none [],
    simp ((eq_iff e.call_id c'.state.call_id).1 same) (simp old),
    refl,
  )

  pub barge_in :
      IsNew c e
      → e.event_type ≡ user_speech_started
      → c.state.active_delivery ≡ some d
      → is_live d.status ≡ true
      → (d.turn_id == "") ≡ false
      → Carries d.response_plan.communicative_goal
          (unfinished_summary d.unfinished_point_summary d.response_plan)
      → (context : InterruptionContext) × (r : CoordinationResult) × ((handle processor c e).1
          ≡ ok r)
        × (r.outcome ≡ handled)
        × (r.instructions
            ≡ (record {
              action = cancel_current;
              turn_id = some d.turn_id;
              text = none;
              interruptible = true;
            })
              ∷ [])
        × ((handle processor c e).0.state.active_delivery
            ≡ some (record d { status = interrupted; progress = interrupted_progress d.status }))
        × ((handle processor c e).0.state.pending_interruption ≡ some context)
        × (context.was_interrupted ≡ true)
        × (context.voice_activity.barge_in_detected ≡ e.barge_in)
  unfolding interrupt attempt interruption with_state result
  barge_in n kind active live named fits =
      let (intent, made) = carried d.response_plan.communicative_goal _ fits in
      rw (reaches n kind active live)
        (rw made (rw (cancels d.turn_id named) (_, _, refl, refl, refl, refl, refl, refl, refl)))

  -- Where the summary of a live delivery is a blank text, not empty, the same event raises: nothing
  -- is cancelled and the delivery stays as it is, but the event is recorded, so that the same event
  -- again is ignored as a duplicate.
  pub blank_summary_loses_barge_in :
      (summary : String)
      → IsNew c e
      → e.event_type ≡ user_speech_started
      → c.state.active_delivery ≡ some d
      → is_live d.status ≡ true
      → unfinished_summary d.unfinished_point_summary d.response_plan ≡ some summary
      → (summary == "") ≡ false
      → is_blank summary ≡ true
      → is_blank d.response_plan.communicative_goal ≡ false
      → ltb 120 (count d.response_plan.communicative_goal) ≡ false
      → let c' = (handle processor c e).0 in
        ((handle processor c e).1 ≡ err pending_summary_bounds)
        × (c'.state.active_delivery ≡ some d)
        × (r : CoordinationResult) × (handle processor c' e ≡ (c', ok r))
        × (r.outcome ≡ duplicate_ignored)
  unfolding interrupt attempt interruption with_state pending_of_summary new_pending_intent
      record_event member
  blank_summary_loses_barge_in summary n kind active live carried some_ blank named short =
      let (r, same, dup) =
        repeated (with_state c (record_event c.state e true)) n.same_call
          (rw ((eq_iff e.event_id e.event_id).1 refl)) in
      rw (reaches n kind active live)
        (rw carried (rw (some_, named, short, blank) (refl, active, r, same, dup)))
