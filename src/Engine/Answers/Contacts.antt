-- ===== src/Engine/Answers/Contacts.antt =====
-- The contact turns of the engine.
use call_forge.Prelude.{
  String, ℕ, ◌≤◌, ℤ, pos, negsuc, ◌≤ℤ◌, Bool, true, false, ◌&&◌, ◌==◌, string_eq, ◌≡◌, refl, inl,
  inr, Option, none, some, ok, Bool-cases, arith, insert,
}
use call_forge.Vocabulary.{AgentAction, clarify_contact, conversation_state_eq, confirm_contact}
use call_forge.Context.{Context, text, flag}
use call_forge.StateMachine.Config.{MachineConfig}
use call_forge.StateMachine.Machine.{is_terminal}
use call_forge.StateMachine.Machine.Verdict.{IsValid}
use call_forge.Guardrails.Clarification.{
  ContactChannel, ClarificationStage, ClarificationOutcome, ClarificationState,
  ClarificationDecision, evaluate, new_session, new_state, max_for,
}
use call_forge.Guardrails.Clarification.Bounded.{
  IsValid as IsState, Answer, confirmed, asked, ended, evaluate_answers,
}
use call_forge.Engine.Contracts.{
  ContactIntent, ConversationContext, ContactResolver, ContactUnderstanding, ResolutionContext,
  ResolutionResult, ResolutionOutcome, resolved, unsupported_reference, PendingContactMethod,
}
use call_forge.Engine.Results.{given, served, moved_result, plain_result}
use call_forge.Engine.Contact.{
  confirm, handle_confirmation, pending_contact, clarified, session_for, same_channel,
  clarify_action, clarify_outcome, run_clarification, clear_value, with_candidate, resolved_path,
  contact_path, confirms, resolution_context,
}
use call_forge.Guardrails.Validation.Total.{brief_names}
use call_forge.Engine.Answers.{
  Answers, attempt_rule, validated_rule, allowed_rule, moves-Answers, rejected_result-Answers,
}
use call_forge.Engine.Answers.Readings.{
  Turn, RecallsState, Found, Confirming, Reads, consults, consults-confirmed, remembers,
  resolves-candidate,
}
use call_forge.Engine.Answers.Recovery.{
  reject_or_recover-Answers, recover_for_state-Answers, guarded_move-Answers,
}

-- A decision that is no exhaustion has an action.
abbrev Acts : ClarificationOutcome → Option AgentAction → Type 0
Acts ClarificationOutcome.exhausted action = Unit
Acts _ (some action) = Unit
Acts _ none = ⊥

abbrev Decided : ClarificationState → Bool → Type 0
Decided s clear =
    (d : ClarificationDecision) × (evaluate s clear ≡ ok d)
    × IsState d.new_state
    × Acts d.outcome d.action

decided :
    (c : ContactChannel) (stage : ClarificationStage) (n m : ℕ) (clear : Bool)
    (d : ClarificationDecision)
    → 1 ≤ m
    → Answer c stage n m clear d
    → IsState d.new_state × Acts d.outcome d.action
decided c stage n m clear d low (confirmed _ _ o _ a _ s) =
    (rw s (record { attempted = omega arith; limited = omega (arith, low) }), rw (o, a) tt)
decided c stage n m clear d low (asked _ room _ o _ a _ s) =
    (rw s (record { attempted = omega arith; limited = omega (arith, low) }), rw (o, a) tt)
decided c stage n m clear d low (ended _ k _ _ o _ a _ s) =
    (rw s (record { attempted = omega arith; limited = omega (arith, low) }), rw o tt)

evaluates : (s : ClarificationState) (clear : Bool) → IsState s → Decided s clear
evaluates s clear valid =
    of s.channel s.stage s.attempts s.max_attempts valid.attempted valid.limited
  where
    of :
        (c : ContactChannel) (stage : ClarificationStage) (a l : ℤ)
        → pos 0 ≤ℤ a
        → pos 1 ≤ℤ l
        → Decided (record { channel = c; attempts = a; stage = stage; max_attempts = l }) clear
    of c stage (pos n) (pos m) h k =
        let (d, e, answer) = evaluate_answers c stage n m clear (omega (arith, k)) in
        let (state, acts) = decided c stage n m clear d (omega (arith, k)) answer in
        (d, e, state, acts)
    of c stage (pos n) (negsuc m) h k = absurd (omega (arith, k))
    of c stage (negsuc n) l h k = absurd (omega (arith, h))

-- The limits that a clarification engine needs.
abbrev pub HasLimits : MachineConfig → Type 0
HasLimits config = (c : ContactChannel) → pos 1 ≤ℤ max_for config c

opens :
    (config : MachineConfig) (c : ContactChannel)
    → HasLimits config
    → (s : ClarificationState) × (new_session config c ≡ ok s) × IsState s
unfolding new_session new_state
opens config c limits =
    let l = limits c in
    (
      record {
        channel = c;
        attempts = pos 0;
        stage = ClarificationStage.initial;
        max_attempts = max_for config c;
      },
      ground (arith, l),
      record { attempted = omega arith; limited = l },
    )

sessions :
    (config : MachineConfig) (remembered : Option ClarificationState) (c : ContactChannel)
    → HasLimits config
    → RecallsState remembered
    → (s : ClarificationState) × (session_for config remembered c ≡ ok s) × IsState s
unfolding session_for clarified
sessions config none c limits recalls =
    let (s, e, state) = opens config c limits in (s, rw e refl, state)
sessions config (some old) c limits recalls = elim (Bool-cases (same_channel old.channel c)) [
  | inl same ↦ (old, rw same refl, recalls)
  | inr other ↦ let (s, e, state) = opens config c limits in (s, rw other (rw e refl), state)
]

confirms-eq : (i : ContactIntent) → confirms i ≡ true → i ≡ ContactIntent.confirm_contact
unfolding confirms
confirms-eq ContactIntent.confirm_contact h = refl
confirms-eq _ h = absurd (cc)

module _ (t : Turn) (valid : IsValid t.engine.machine)
    (brief : brief_names t.engine.validator ≡ true)
    (open_ : is_terminal t.engine.machine ≡ false) where
  confirm-Answers :
      (context : ConversationContext) (ctx : Context) (pending : Option PendingContactMethod)
      → Confirming t AgentAction.confirm_contact
      → Reads t context ctx
      → Answers t (confirm t.engine context ctx pending)
  unfolding confirm moved_result plain_result
  confirm-Answers context ctx none agreed reads =
      validated_rule t.engine.validator brief (Answers t) t.engine.machine _
        AgentAction.confirm_contact ctx _
        (λ v _. rejected_result-Answers t context v "contact" open_ reads.recalls)
  confirm-Answers context ctx (some pending) agreed reads =
      guarded_move-Answers t valid brief open_ context (record context { contact_confirmed = true })
        AgentAction.confirm_contact (insert "contact_confirmed" (flag true) ctx) "contact"
        (λ r. record r { contact_to_persist = some pending }) reads.recalls
        (λ v m' tr l allowed.
          moves-Answers t AgentAction.confirm_contact (insert "contact_confirmed" (flag true) ctx)
            m' tr _ (consults-confirmed t context ctx reads _ agreed refl refl) allowed l refl refl
            refl refl refl refl refl reads.recalls)

  clarify_action-Answers :
      (context : ConversationContext) (ctx : Context) (decision : ClarificationDecision)
      (action : AgentAction)
      → Reads t context ctx
      → Answers t (clarify_action t.engine context ctx decision (some action))
  unfolding clarify_action moved_result plain_result
  clarify_action-Answers context ctx decision action reads =
      allowed_rule t.engine.validator brief (Answers t) t.engine.machine _ action ctx _
        (λ v yes_ h. simp h (
          attempt_rule t.engine.machine action valid (Answers t) _ _
            (λ m' tr l.
              moves-Answers t action ctx m' tr _ (consults t context ctx reads _ action refl refl)
                yes_ l refl refl refl refl refl refl refl reads.recalls)
            (rejected_result-Answers t context v "contact" open_ reads.recalls)))
        (λ v h. simp h (
          reject_or_recover-Answers t valid brief context ctx reads open_ "contact" (some decision)
            t.engine.fallback v))

  clarify_outcome-Answers :
      (context : ConversationContext) (ctx : Context) (decision : ClarificationDecision)
      (outcome : ClarificationOutcome) (action : Option AgentAction)
      → decision.action ≡ action
      → Acts outcome action
      → Reads t context ctx
      → Answers t (clarify_outcome t.engine context ctx decision outcome)
  unfolding clarify_outcome
  clarify_outcome-Answers context ctx decision ClarificationOutcome.exhausted action h acts reads =
      recover_for_state-Answers t valid brief context ctx reads open_ "contact" (some decision)
        t.engine.fallback clarify_contact
  clarify_outcome-Answers context ctx decision ClarificationOutcome.clear (some action) h acts
        reads =
      simp h (clarify_action-Answers context ctx decision action reads)
  clarify_outcome-Answers context ctx decision ClarificationOutcome.retry (some action) h acts
        reads =
      simp h (clarify_action-Answers context ctx decision action reads)
  clarify_outcome-Answers context ctx decision ClarificationOutcome.clear none h acts reads =
      absurd acts
  clarify_outcome-Answers context ctx decision ClarificationOutcome.retry none h acts reads =
      absurd acts

  module _ (config : MachineConfig) (limits : HasLimits config) where
    run_clarification-Answers :
        (context : ConversationContext) (channel : ContactChannel) (clear : Bool) (ctx : Context)
        → Reads t context ctx
        → Answers t (run_clarification t.engine config context channel clear ctx)
    unfolding run_clarification given clarified
    run_clarification-Answers context channel clear ctx reads =
        let (s, opened, state) =
          sessions config context.clarification channel limits reads.recalls in
        let (d, answered, after, acts) = evaluates s clear state in
        rw opened (
          rw answered (
            clarify_outcome-Answers _ ctx d d.outcome d.action refl acts
              (remembers t context ctx reads d.new_state after)))

    clear_value-Answers :
        (context : ConversationContext) (channel : ContactChannel) (ctx : Context)
        (result : ResolutionResult) (value : Option String)
        → Found t result
        → result.outcome ≡ resolved
        → result.value_normalized ≡ value
        → Reads t context ctx
        → Answers t (clear_value t.engine config context channel ctx result value)
    unfolding clear_value
    clear_value-Answers context channel ctx result none found outcome same reads =
        run_clarification-Answers context channel true ctx reads
    clear_value-Answers context channel ctx result (some value) found outcome same reads =
        elim (Bool-cases (value == "")) [
          | inl empty ↦ rw empty (run_clarification-Answers context channel true ctx reads)
          | inr given_ ↦ rw given_ (
              run_clarification-Answers (with_candidate context result value) channel true
                (insert "contact_candidate" (text value) ctx)
                (resolves-candidate t context ctx reads result value found outcome same))
        ]

    resolved_path-Answers :
        (context : ConversationContext) (channel : ContactChannel) (ctx : Context)
        (result : ResolutionResult) (outcome : ResolutionOutcome)
        → Found t result
        → result.outcome ≡ outcome
        → Reads t context ctx
        → Answers t (resolved_path t.engine config context channel ctx result outcome)
    unfolding resolved_path
    resolved_path-Answers context channel ctx result unsupported_reference found same reads =
        recover_for_state-Answers t valid brief context ctx reads open_ "contact" none
          t.engine.fallback clarify_contact
    resolved_path-Answers context channel ctx result resolved found same reads =
        clear_value-Answers context channel ctx result result.value_normalized found same refl reads
    resolved_path-Answers context channel ctx result _ found same reads =
        run_clarification-Answers context channel false ctx reads

    pub contact_path-Answers :
        (resolver : ContactResolver)
        → t.engine.resolver ≡ some resolver
        → ((u : ContactUnderstanding) (c : ResolutionContext)
            → (r : ResolutionResult) × (resolver u c ≡ some r))
        → (u : ContactUnderstanding) (ctx : Context) → t.understanding ≡ some u
        → Reads t t.before ctx
        → Answers t (contact_path t.engine resolver config t.before u ctx)
    unfolding contact_path handle_confirmation given served
    contact_path-Answers resolver its resolves u ctx understood reads =
        elim (Bool-cases (t.engine.machine.current_state == confirm_contact && confirms u.intent)) [
          | inl yes_ ↦ simp yes_ (
              confirm-Answers t.before ctx (pending_contact t.before)
                (record {
                  confirmation = refl;
                  u = u;
                  understood = understood;
                  agreed = confirms-eq u.intent (second _ _ yes_);
                })
                reads)
          | inr no_ ↦
              let (r, answered) = resolves u (resolution_context t.before) in
              simp no_ (
                rw answered (
                  resolved_path-Answers t.before u.channel ctx r r.outcome
                    (record {
                      resolver = resolver;
                      is_engines = its;
                      u = u;
                      understood = understood;
                      answered = answered;
                    })
                    refl reads))
        ]
      where
        second : (a b : Bool) → (a && b) ≡ true → b ≡ true
        second a b h = ground arith
