-- ===== src/Runtime/Coordinator/Runs.antt =====
-- Sequences of events: what repeats, what a turn runs, and what follows a hang-up.
use text.Mathlib.TextEquality.{eq_iff}
use call_forge.Prelude.{
  String, leb_ℤ, Bool, true, false, ◌≡◌, refl, inl, inr, List, [], ◌∷◌, Result, member, string_eq,
  Bool-cases, ◌==◌, ◌∙◌,
}
use call_forge.Runtime.Contracts.{
  RuntimeEvent, RuntimeSessionState, CoordinationResult, CoordinatorError,
}
use call_forge.Runtime.Session.{Coordinator, TurnProcessor, answer, fail, with_state, record_event}
use call_forge.Runtime.Coordinator.{handle, in_sequence}
use call_forge.Runtime.Coordinator.Frame.{Frame, Effect, Effect-refl, dispatch-Effect}

-- No text occurs twice.
abbrev pub Distinct : List String → Type 0
Distinct [] = Unit
Distinct (x ∷ xs) = (member x xs ≡ false) × Distinct xs

module _ {P : Type 0} (processor : TurnProcessor P) where
  -- The events of a call in the order in which they arrive, with what each gave.
  unfoldable pub run :
      Coordinator P
      → List RuntimeEvent
      → Coordinator P × List (Result CoordinatorError CoordinationResult)
  run c [] = (c, [])
  run c (e ∷ events) =
      let (c', r) = handle processor c e in let (last, rs) = run c' events in (last, r ∷ rs)

  -- What `handle` does: nothing, or it records the event, which is new and of the call, and maybe
  -- dispatches it.
  pub data Handled (c : Coordinator P) (e : RuntimeEvent) (c' : Coordinator P) : Type 0 where
    ignored : c' ≡ c → Handled c e c'
    recorded :
        e.call_id ≡ c.state.call_id
        → member e.event_id c.state.processed_event_ids ≡ false
        → c.state.disconnected ≡ false
        → Effect processor (with_state c (record_event c.state e false)) c'
        → Handled c e c'
    advanced :
        e.call_id ≡ c.state.call_id
        → member e.event_id c.state.processed_event_ids ≡ false
        → c.state.disconnected ≡ false
        → leb_ℤ e.sequence_number c.state.last_sequence ≡ false
        → Effect processor (with_state c (record_event c.state e true)) c'
        → Handled c e c'

  in_sequence-Handled :
      (c : Coordinator P) (e : RuntimeEvent)
      → e.call_id ≡ c.state.call_id
      → member e.event_id c.state.processed_event_ids ≡ false
      → c.state.disconnected ≡ false
      → Handled c e (in_sequence processor c e).0
  unfolding in_sequence answer
  in_sequence-Handled c e same new here =
      elim (Bool-cases (leb_ℤ e.sequence_number c.state.last_sequence)) [
        | inl late ↦ simp late (recorded same new here (Effect-refl processor _))
        | inr fresh ↦
            simp fresh (advanced same new here fresh (dispatch-Effect processor _ e e.event_type))
      ]

  pub handle-Handled : (c : Coordinator P) (e : RuntimeEvent) → Handled c e (handle processor c e).0
  unfolding handle answer fail
  handle-Handled c e = elim (Bool-cases (e.call_id == c.state.call_id)) [
    | inr other ↦ simp other (ignored refl)
    | inl same ↦ simp same (elim (Bool-cases (member e.event_id c.state.processed_event_ids)) [
      | inl old ↦ simp old (ignored refl)
      | inr new ↦ simp new (elim (Bool-cases c.state.disconnected) [
        | inl gone ↦ simp gone (ignored refl)
        | inr here ↦
            simp here (in_sequence-Handled c e ((eq_iff e.call_id c.state.call_id).0 same) new here)
      ])
    ])
  ]

  -- An event that is on record changes nothing.
  on_record :
      (c : Coordinator P) (e : RuntimeEvent)
      → member e.event_id c.state.processed_event_ids ≡ true
      → (handle processor c e).0 ≡ c
  unfolding handle answer fail
  on_record c e old = elim (Bool-cases (e.call_id == c.state.call_id)) [
    | inr other ↦ rw other
    | inl same ↦ rw (same, old)
  ]

  -- The event at the head of the record is on record.
  Frame-recorded :
      (s s' : RuntimeSessionState) (e : RuntimeEvent) (advance : Bool)
      → Frame (record_event s e advance) s'
      → member e.event_id s'.processed_event_ids ≡ true
  unfolding record_event member
  Frame-recorded s s' e advance f = rw f.events (rw ((eq_iff e.event_id e.event_id).1 refl))

  again :
      (c : Coordinator P) (e : RuntimeEvent) (c' : Coordinator P)
      → (handle processor c e).0 ≡ c'
      → Handled c e c'
      → (handle processor c' e).0 ≡ c'
  unfolding record_event with_state
  again c e c' h (ignored same) = rw same (h ∙ same)
  again c e c' h (recorded _ _ _ k) =
      on_record c' e (Frame-recorded c.state c'.state e false k.frame)
  again c e c' h (advanced _ _ _ _ k) =
      on_record c' e (Frame-recorded c.state c'.state e true k.frame)

  -- Handling an event a second time changes nothing, whatever the first time gave.
  pub handle-idempotent :
      (c : Coordinator P) (e : RuntimeEvent)
      → (handle processor (handle processor c e).0 e).0 ≡ (handle processor c e).0
  handle-idempotent c e = again c e (handle processor c e).0 refl (handle-Handled c e)
