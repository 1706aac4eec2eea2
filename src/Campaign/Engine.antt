-- ===== src/Campaign/Engine.antt =====
-- app/leads/campaign/engine.py. Each method is a function; what its result's constructor may raise is
-- an error.
pub mod Selection
pub mod Dnc
use call_forge.Prelude.{
  String, ℕ, suc, ℤ, pos, ltb, leb, leb_ℤ, Bool, true, false, not, ◌&&◌, ◌||◌, Option, none, some,
  List, [], ◌∷◌, Result, ok, err, raise_if, ◌>>=◌, ◌>>◌, ◌==◌, member, if◌then◌else◌,
}
use call_forge.Campaign.Contracts.{
  CampaignStatus, LeadQueueStatus, CallEligibility, RetryEligibility, NoAnswerPolicy,
  lead_queue_status_eq, ValueError, CallingWindow, contains_time, CampaignConfig, new_config,
  LeadQueueEntry, new_entry, QueueStateSnapshot, CallEligibilityDecision, new_eligibility,
  NextLeadDecision, new_next_lead,
}

-- A refusal of the campaign.
refuse : CampaignConfig → CallEligibility → Result ValueError CallEligibilityDecision
refuse config reason = new_eligibility (record {
  eligible = false;
  reason = reason;
  lead_id = none;
  campaign_id = some config.campaign_id;
})

-- The reason why a status other than ACTIVE refuses, `none` for ACTIVE.
status_refusal : CampaignStatus → Option CallEligibility
status_refusal CampaignStatus.active = none
status_refusal CampaignStatus.paused = some CallEligibility.campaign_paused
status_refusal _ = some CallEligibility.campaign_not_active

in_window : Option CallingWindow → ℤ → ℤ → Bool
in_window none hour minute = true
in_window (some window) hour minute = contains_time window hour minute

check_limits :
    CampaignConfig → QueueStateSnapshot → ℤ → ℤ → Result ValueError CallEligibilityDecision
unfolding refuse in_window
check_limits config snapshot hour minute =
    if leb config.daily_call_limit snapshot.calls_today
    then refuse config CallEligibility.daily_limit_reached
    else if leb config.max_concurrent_calls snapshot.active_calls
    then refuse config CallEligibility.concurrency_limit
    else if not (in_window config.calling_window hour minute)
    then refuse config CallEligibility.outside_calling_window
    else new_eligibility (record {
      eligible = true;
      reason = CallEligibility.eligible;
      lead_id = none;
      campaign_id = some config.campaign_id;
    })

refuse_or_check :
    Option CallEligibility
    → CampaignConfig
    → QueueStateSnapshot
    → ℤ
    → ℤ
    → Result ValueError CallEligibilityDecision
unfolding refuse check_limits
refuse_or_check (some reason) config snapshot hour minute = refuse config reason
refuse_or_check none config snapshot hour minute = check_limits config snapshot hour minute

unfoldable pub check_campaign_eligibility :
    CampaignConfig → QueueStateSnapshot → ℤ → ℤ → Result ValueError CallEligibilityDecision
unfolding refuse_or_check status_refusal new_eligibility
check_campaign_eligibility config snapshot current_hour current_minute =
    refuse_or_check (status_refusal config.status) config snapshot current_hour current_minute

unfoldable pub check_gap_elapsed : CampaignConfig → Option ℤ → Bool
check_gap_elapsed config none = true
check_gap_elapsed config (some elapsed) = leb_ℤ (pos config.gap_between_calls_seconds) elapsed

-- The statuses of the set in `_is_lead_callable`.
abbrev closed_statuses : List LeadQueueStatus
closed_statuses =
    LeadQueueStatus.completed ∷ LeadQueueStatus.dnc ∷ LeadQueueStatus.exhausted
    ∷ LeadQueueStatus.skipped ∷ LeadQueueStatus.in_progress ∷ []

unfoldable pub is_lead_callable : LeadQueueEntry → CampaignConfig → Bool
unfolding member
is_lead_callable entry config =
    if entry.is_dnc
    then false
    else if member entry.status closed_statuses
    then false
    else not (leb config.max_retries_per_lead entry.attempt_count)

callable_entries : CampaignConfig → List LeadQueueEntry → List LeadQueueEntry
callable_entries config [] = []
callable_entries config (e ∷ rest) =
    let others = callable_entries config rest in
    if is_lead_callable e config then e ∷ others else others

-- `sorted` with the queue position for key, which keeps the order of equal keys.
place : LeadQueueEntry → List LeadQueueEntry → List LeadQueueEntry
place e [] = e ∷ []
place e (x ∷ rest) =
    if leb e.queue_position x.queue_position then e ∷ x ∷ rest else x ∷ place e rest

sorted : List LeadQueueEntry → List LeadQueueEntry
unfolding place
sorted [] = []
sorted (e ∷ rest) = place e (sorted rest)

unavailable : CallEligibility → Result ValueError NextLeadDecision
unavailable reason =
    new_next_lead
      (record { available = false; lead_entry = none; ineligibility_reason = some reason })

first_of_entries : List LeadQueueEntry → Result ValueError NextLeadDecision
unfolding unavailable
first_of_entries [] = unavailable CallEligibility.no_leads_available
first_of_entries (e ∷ rest) =
    new_next_lead (record { available = true; lead_entry = some e; ineligibility_reason = none })

select_from :
    CampaignConfig
    → List LeadQueueEntry
    → Option ℤ
    → CallEligibilityDecision
    → Result ValueError NextLeadDecision
unfolding unavailable first_of_entries
select_from config queue elapsed check =
    if not check.eligible
    then unavailable check.reason
    else if not (check_gap_elapsed config elapsed)
    then unavailable CallEligibility.gap_not_elapsed
    else first_of_entries (sorted (callable_entries config queue))

unfoldable pub select_next_lead :
    CampaignConfig
    → List LeadQueueEntry
    → QueueStateSnapshot
    → ℤ
    → ℤ
    → Option ℤ
    → Result ValueError NextLeadDecision
unfolding select_from sorted callable_entries
select_next_lead config queue snapshot current_hour current_minute elapsed = do
  campaign_check ← check_campaign_eligibility config snapshot current_hour current_minute
  select_from config queue elapsed campaign_check

unfoldable pub check_retry_eligibility : LeadQueueEntry → CampaignConfig → RetryEligibility
check_retry_eligibility entry config =
    if entry.is_dnc
    then RetryEligibility.dnc
    else if entry.status == LeadQueueStatus.completed
    then RetryEligibility.completed
    else if leb config.max_retries_per_lead entry.attempt_count
    then RetryEligibility.max_retries_reached
    else RetryEligibility.eligible

policy_status : NoAnswerPolicy → LeadQueueStatus
policy_status NoAnswerPolicy.skip = LeadQueueStatus.skipped
policy_status NoAnswerPolicy.mark_exhausted = LeadQueueStatus.exhausted
policy_status NoAnswerPolicy.retry_later = LeadQueueStatus.retry_scheduled

unfoldable pub apply_no_answer : LeadQueueEntry → CampaignConfig → Result ValueError LeadQueueEntry
unfolding policy_status
apply_no_answer entry config =
    let new_count = suc entry.attempt_count in
    let status =
      if entry.is_dnc
      then LeadQueueStatus.dnc
      else if leb config.max_retries_per_lead new_count
      then LeadQueueStatus.exhausted
      else policy_status config.no_answer_policy in
    new_entry (record entry { status = status; attempt_count = new_count })

unfoldable pub mark_dnc : LeadQueueEntry → Result ValueError LeadQueueEntry
mark_dnc entry = new_entry (record entry { is_dnc = true; status = LeadQueueStatus.dnc })

unfoldable pub mark_completed : LeadQueueEntry → Result ValueError LeadQueueEntry
mark_completed entry = new_entry (record entry { status = LeadQueueStatus.completed })

pause_from : CampaignStatus → CampaignConfig → Result ValueError CampaignConfig
pause_from CampaignStatus.active config =
    new_config (record config { status = CampaignStatus.paused })
pause_from _ config = ok config

unfoldable pub pause_campaign : CampaignConfig → Result ValueError CampaignConfig
unfolding pause_from
pause_campaign config = pause_from config.status config

resume_from : CampaignStatus → CampaignConfig → Result ValueError CampaignConfig
resume_from CampaignStatus.paused config =
    new_config (record config { status = CampaignStatus.active })
resume_from _ config = ok config

unfoldable pub resume_campaign : CampaignConfig → Result ValueError CampaignConfig
unfolding resume_from
resume_campaign config = resume_from config.status config
