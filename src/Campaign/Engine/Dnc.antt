-- ===== src/Campaign/Engine/Dnc.antt =====
-- What the calls on a lead's entry do to its status: do-not-call is final, and attempts are bounded.
use call_forge.Prelude.{
  ℕ, suc, ◌+◌, ◌<◌, leb, Bool, true, false, not, ◌≡◌, ◌↔◌, refl, List, [], ◌∷◌, Result, ok, ◌>>=◌,
  >>=-eq-ok, along_ok, member, is_blank, if◌then◌else◌, arith, Bool-cases, inl, inr,
}
use call_forge.Campaign.Contracts.{
  LeadQueueStatus, LeadQueueStatus-discrete, RetryEligibility, NoAnswerPolicy, lead_queue_status_eq,
  ValueError, CampaignConfig, LeadQueueEntry, force_dnc, new_entry,
}
use call_forge.Campaign.Engine.{
  closed_statuses, is_lead_callable, check_retry_eligibility, apply_no_answer, mark_dnc,
  mark_completed, policy_status,
}

-- The ids that the constructor asks for.
pub record HasIds (e : LeadQueueEntry) : Type 0 where
  pub lead_named : is_blank e.lead_id ≡ false
  pub campaign_named : is_blank e.campaign_id ≡ false
  pub tenant_named : is_blank e.tenant_id ≡ false

-- A call on an entry.
pub data LeadCall : Type 0 where
  no_answer do_not_call complete : LeadCall

unfoldable pub apply_call :
    CampaignConfig → LeadQueueEntry → LeadCall → Result ValueError LeadQueueEntry
apply_call config e no_answer = apply_no_answer e config
apply_call config e do_not_call = mark_dnc e
apply_call config e complete = mark_completed e

unfoldable pub apply_calls :
    CampaignConfig → LeadQueueEntry → List LeadCall → Result ValueError LeadQueueEntry
apply_calls config e [] = ok e
apply_calls config e (c ∷ rest) = do after ← apply_call config e c; apply_calls config after rest

pub record IsDnc (e : LeadQueueEntry) : Type 0 where
  pub flagged : e.is_dnc ≡ true
  pub shown : e.status ≡ LeadQueueStatus.dnc

-- The constructor's answer, if it has one.
new_entry-IsDnc :
    (e : LeadQueueEntry) {e' : LeadQueueEntry} → e.is_dnc ≡ true → new_entry e ≡ ok e' → IsDnc e'
unfolding new_entry LeadQueueStatus-discrete
new_entry-IsDnc e d h = ground arith

apply_call-IsDnc :
    (config : CampaignConfig) (e : LeadQueueEntry) (c : LeadCall) {e' : LeadQueueEntry}
    → e.is_dnc ≡ true
    → apply_call config e c ≡ ok e'
    → IsDnc e'
unfolding apply_call apply_no_answer mark_dnc mark_completed
apply_call-IsDnc config e no_answer d h = new_entry-IsDnc _ d h
apply_call-IsDnc config e do_not_call d h = new_entry-IsDnc _ refl h
apply_call-IsDnc config e complete d h = new_entry-IsDnc _ d h

apply_calls-IsDnc :
    (config : CampaignConfig) (e : LeadQueueEntry) (calls : List LeadCall) {e' : LeadQueueEntry}
    → IsDnc e
    → apply_calls config e calls ≡ ok e'
    → IsDnc e'
unfolding apply_calls
apply_calls-IsDnc config e [] d h = along_ok IsDnc h d
apply_calls-IsDnc config e (c ∷ rest) d h =
    let (after, first, h1) = >>=-eq-ok (apply_call config e c) _ h in
    apply_calls-IsDnc config after rest (apply_call-IsDnc config e c d.flagged first) h1

-- Do-not-call is final: once an entry has been marked, whatever calls follow and whatever the
-- campaign, its status stays DNC, it is not callable, and it may not be retried.
pub dnc_is_final :
    (config : CampaignConfig) (e marked last : LeadQueueEntry) (calls : List LeadCall)
    → mark_dnc e ≡ ok marked
    → apply_calls config marked calls ≡ ok last
    → (last.status ≡ LeadQueueStatus.dnc)
      × (is_lead_callable last config ≡ false)
      × (check_retry_eligibility last config ≡ RetryEligibility.dnc)
unfolding mark_dnc is_lead_callable check_retry_eligibility
dnc_is_final config e marked last calls h run =
    let final = apply_calls-IsDnc config marked calls (new_entry-IsDnc _ refl h) run in
    (final.shown, rw final.flagged refl, rw final.flagged refl)

after_no_answer :
    (config : CampaignConfig) (e e' : LeadQueueEntry)
    → apply_no_answer e config ≡ ok e'
    → (e'.is_dnc ≡ e.is_dnc)
      × (e'.attempt_count ≡ suc e.attempt_count)
      × (e.is_dnc ≡ false
          → e'.status ≡ (
              if leb config.max_retries_per_lead (suc e.attempt_count)
              then LeadQueueStatus.exhausted
              else policy_status config.no_answer_policy))
unfolding apply_no_answer new_entry
after_no_answer config e e' h = ground arith

-- `is_lead_callable` over the fields that it reads.
callable_after : Bool → LeadQueueStatus → Bool → Bool
callable_after flagged status spent =
    if flagged then false else if member status closed_statuses then false else not spent

policy_callable :
    (policy : NoAnswerPolicy) (spent : Bool)
    → callable_after false (if spent then LeadQueueStatus.exhausted else policy_status policy) spent
      ≡ true
    → (spent ≡ false) × (policy ≡ NoAnswerPolicy.retry_later)
unfolding callable_after policy_status member LeadQueueStatus-discrete
policy_callable NoAnswerPolicy.retry_later spent h = ground arith
policy_callable NoAnswerPolicy.skip spent h = ground arith
policy_callable NoAnswerPolicy.mark_exhausted spent h = ground arith

callable_by_fields :
    (config : CampaignConfig) (e : LeadQueueEntry)
    → is_lead_callable e config
      ≡ callable_after e.is_dnc e.status (leb config.max_retries_per_lead e.attempt_count)
unfolding is_lead_callable callable_after
callable_by_fields config e = refl

retry_scheduled_callable : callable_after false LeadQueueStatus.retry_scheduled false ≡ true
unfolding callable_after member LeadQueueStatus-discrete
retry_scheduled_callable = refl

flagged_not_callable :
    (status : LeadQueueStatus) (spent : Bool) → callable_after true status spent ≡ false
unfolding callable_after
flagged_not_callable status spent = refl

-- After an unanswered call an entry is callable again exactly if it is not flagged DNC, its attempts,
-- this one included, are fewer than the campaign's maximum, and the policy is to retry later.
pub no_answer_callable :
    (config : CampaignConfig) (e e' : LeadQueueEntry)
    → apply_no_answer e config ≡ ok e'
    → (is_lead_callable e' config ≡ true) ↔ (
        (e.is_dnc ≡ false)
        × (suc e.attempt_count < config.max_retries_per_lead)
        × (config.no_answer_policy ≡ NoAnswerPolicy.retry_later))
unfolding policy_status
no_answer_callable config e e' h =
    let (flag, count, status) = after_no_answer config e e' h in
    let fields = callable_by_fields config e' in
    (
      λ callable. elim (Bool-cases e.is_dnc) [
        | inl flagged ↦ cc (
          callable,
          fields,
          flag,
          flagged,
          flagged_not_callable e'.status (leb config.max_retries_per_lead e'.attempt_count),
        )
        | inr unflagged ↦
            let (room, policy) =
              policy_callable config.no_answer_policy
                (leb config.max_retries_per_lead (suc e.attempt_count))
                (cc (callable, fields, flag, unflagged, count, status unflagged)) in
            (unflagged, ground arith, policy)
      ],
      λ (unflagged, room, policy).
          let free : leb config.max_retries_per_lead (suc e.attempt_count) ≡ false = ground arith in
          cc (
            fields,
            flag,
            unflagged,
            count,
            free,
            rw (free, policy) at (status unflagged),
            retry_scheduled_callable,
          ),
    )

made :
    (e : LeadQueueEntry) {e' : LeadQueueEntry}
    → new_entry e ≡ ok e'
    → e'.attempt_count ≡ e.attempt_count
unfolding new_entry
made e h = ground arith

pub no_answers : List LeadCall → ℕ
no_answers [] = 0
no_answers (no_answer ∷ rest) = suc (no_answers rest)
no_answers (_ ∷ rest) = no_answers rest

apply_calls-attempts :
    (config : CampaignConfig) (e : LeadQueueEntry) (calls : List LeadCall) {e' : LeadQueueEntry}
    → apply_calls config e calls ≡ ok e'
    → e'.attempt_count ≡ e.attempt_count + no_answers calls
unfolding apply_calls no_answers apply_call apply_no_answer mark_dnc mark_completed
apply_calls-attempts config e [] h = ground arith
apply_calls-attempts config e (no_answer ∷ rest) h =
    let (after, first, h1) = >>=-eq-ok (apply_no_answer e config) _ h in
    omega (arith, made _ first, apply_calls-attempts config after rest h1)
apply_calls-attempts config e (do_not_call ∷ rest) h =
    let (after, first, h1) = >>=-eq-ok (mark_dnc e) _ h in
    omega (arith, made _ first, apply_calls-attempts config after rest h1)
apply_calls-attempts config e (complete ∷ rest) h =
    let (after, first, h1) = >>=-eq-ok (mark_completed e) _ h in
    omega (arith, made _ first, apply_calls-attempts config after rest h1)

callable_below :
    (config : CampaignConfig) (e : LeadQueueEntry)
    → is_lead_callable e config ≡ true
    → e.attempt_count < config.max_retries_per_lead
unfolding is_lead_callable
callable_below config e h = ground arith

-- Attempts are bounded: after any calls on an entry that leave it callable, the unanswered calls, with
-- the attempts that the entry began with, are fewer than the campaign's maximum.
pub attempts_bounded :
    (config : CampaignConfig) (e last : LeadQueueEntry) (calls : List LeadCall)
    → apply_calls config e calls ≡ ok last
    → is_lead_callable last config ≡ true
    → e.attempt_count + no_answers calls < config.max_retries_per_lead
attempts_bounded config e last calls h c =
    omega (arith, apply_calls-attempts config e calls h, callable_below config last c)

constructs : (e : LeadQueueEntry) → HasIds e → (e' : LeadQueueEntry) × (new_entry e ≡ ok e')
unfolding new_entry
constructs e ids = (force_dnc e, rw (ids.lead_named, ids.campaign_named, ids.tenant_named) refl)

applies :
    (config : CampaignConfig) (e : LeadQueueEntry)
    → HasIds e
    → (e' : LeadQueueEntry) × (apply_no_answer e config ≡ ok e')
unfolding apply_no_answer
applies config e ids = constructs _ (record {
  lead_named = ids.lead_named;
  campaign_named = ids.campaign_named;
  tenant_named = ids.tenant_named;
})

-- The status DNC without the flag does not protect a lead: such an entry is not callable, but after
-- one unanswered call it is, if the ids are there, attempts are left and the policy is to retry later.
pub unflagged_dnc_is_lost :
    (config : CampaignConfig) (e : LeadQueueEntry)
    → HasIds e
    → e.status ≡ LeadQueueStatus.dnc
    → e.is_dnc ≡ false
    → suc e.attempt_count < config.max_retries_per_lead
    → config.no_answer_policy ≡ NoAnswerPolicy.retry_later
    → (is_lead_callable e config ≡ false)
      × (e' : LeadQueueEntry) × (apply_no_answer e config ≡ ok e')
      × (is_lead_callable e' config ≡ true)
unfolding is_lead_callable member LeadQueueStatus-discrete
unflagged_dnc_is_lost config e ids status flag room policy =
    let (e', applied) = applies config e ids in
    (
      rw (flag, status) refl,
      e',
      applied,
      (no_answer_callable config e e' applied).1 (flag, room, policy),
    )
