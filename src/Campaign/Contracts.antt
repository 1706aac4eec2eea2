-- ===== src/Campaign/Contracts.antt =====
-- app/leads/campaign/contracts.py. The constructors refuse negative integers, so the fields that
-- they check are natural numbers here, and the checks that are left are the other ones. A value is
-- made by its `new_` function, as `replace` makes it too.
pub mod Window
use call_forge.Prelude.{
  ℤ, pos, ltb_ℤ, leb_ℤ, ◌+ℤ◌, ◌*ℤ◌, String, ℕ, ◌+◌, ◌*◌, ltb, leb, Bool, true, false, not, ◌&&◌,
  ◌||◌, Option, none, some, List, Result, ok, err, raise_if, ◌>>=◌, ◌>>◌, Eq, eq_by, ◌==◌, is_blank,
  is_some, if◌then◌else◌,
}

pub data CampaignStatus : Type 0 where
  draft active paused completed archived : CampaignStatus

pub data LeadQueueStatus : Type 0 where
  pending ready in_progress completed failed dnc : LeadQueueStatus
  needs_review skipped retry_scheduled exhausted : LeadQueueStatus

pub data CallEligibility : Type 0 where
  eligible daily_limit_reached outside_calling_window gap_not_elapsed : CallEligibility
  campaign_paused campaign_not_active lead_dnc lead_not_ready : CallEligibility
  max_retries_exhausted concurrency_limit no_leads_available : CallEligibility

pub data RetryEligibility : Type 0 where
  eligible max_retries_reached dnc completed : RetryEligibility

pub data NoAnswerPolicy : Type 0 where
  retry_later skip mark_exhausted : NoAnswerPolicy

unfoldable pub LeadQueueStatus-discrete : Discrete LeadQueueStatus
LeadQueueStatus-discrete = hlevel

instance abbrev pub lead_queue_status_eq : Eq LeadQueueStatus
lead_queue_status_eq = eq_by LeadQueueStatus-discrete

-- `ValueError`, a constructor for each message.
pub data ValueError : Type 0 where
  start_hour start_minute end_hour end_minute timezone_empty : ValueError
  campaign_id_empty tenant_id_empty name_empty lead_id_empty : ValueError
  daily_limit_too_small concurrency_too_small : ValueError
  eligible_without_reason ineligible_with_reason : ValueError
  available_without_entry unavailable_with_entry : ValueError

pub record CallingWindow : Type 0 where
  pub start_hour : ℕ
  pub start_minute : ℕ
  pub end_hour : ℕ
  pub end_minute : ℕ
  pub timezone : String

unfoldable pub new_window : CallingWindow → Result ValueError CallingWindow
new_window w = do
  raise_if (ltb 23 w.start_hour) ValueError.start_hour
  raise_if (ltb 59 w.start_minute) ValueError.start_minute
  raise_if (ltb 23 w.end_hour) ValueError.end_hour
  raise_if (ltb 59 w.end_minute) ValueError.end_minute
  raise_if (is_blank w.timezone) timezone_empty
  ok w

unfoldable pub start_minutes : CallingWindow → ℕ
start_minutes w = w.start_hour * 60 + w.start_minute

unfoldable pub end_minutes : CallingWindow → ℕ
end_minutes w = w.end_hour * 60 + w.end_minute

unfoldable pub contains_time : CallingWindow → ℤ → ℤ → Bool
unfolding start_minutes end_minutes
contains_time w hour minute =
    let current = hour *ℤ pos 60 +ℤ minute in
    let start = start_minutes w in
    let end = end_minutes w in
    if leb start end
    then leb_ℤ (pos start) current && ltb_ℤ current (pos end)
    else leb_ℤ (pos start) current || ltb_ℤ current (pos end)

pub record CampaignConfig : Type 0 where
  pub campaign_id : String
  pub tenant_id : String
  pub name : String
  pub status : CampaignStatus
  pub authorized_service_ids : List String
  pub target_market : Option String
  pub language_preference : Option String
  pub tone : Option String
  pub daily_call_limit : ℕ
  pub gap_between_calls_seconds : ℕ
  pub max_concurrent_calls : ℕ
  pub max_retries_per_lead : ℕ
  pub no_answer_policy : NoAnswerPolicy
  pub calling_window : Option CallingWindow

unfoldable pub new_config : CampaignConfig → Result ValueError CampaignConfig
new_config c = do
  raise_if (is_blank c.campaign_id) campaign_id_empty
  raise_if (is_blank c.tenant_id) tenant_id_empty
  raise_if (is_blank c.name) name_empty
  raise_if (ltb c.daily_call_limit 1) daily_limit_too_small
  raise_if (ltb c.max_concurrent_calls 1) concurrency_too_small
  ok c

pub record LeadQueueEntry : Type 0 where
  pub lead_id : String
  pub campaign_id : String
  pub tenant_id : String
  pub queue_position : ℕ
  pub status : LeadQueueStatus
  pub attempt_count : ℕ
  pub last_attempt_at : Option String
  pub is_dnc : Bool

-- The last step of `__post_init__`.
unfoldable pub force_dnc : LeadQueueEntry → LeadQueueEntry
force_dnc e =
    if e.is_dnc && not (e.status == LeadQueueStatus.dnc)
    then record e { status = LeadQueueStatus.dnc }
    else e

unfoldable pub new_entry : LeadQueueEntry → Result ValueError LeadQueueEntry
unfolding force_dnc
new_entry e = do
  raise_if (is_blank e.lead_id) lead_id_empty
  raise_if (is_blank e.campaign_id) campaign_id_empty
  raise_if (is_blank e.tenant_id) tenant_id_empty
  ok (force_dnc e)

pub record QueueStateSnapshot : Type 0 where
  pub campaign_id : String
  pub tenant_id : String
  pub total_leads : ℕ
  pub pending : ℕ
  pub ready : ℕ
  pub in_progress : ℕ
  pub completed : ℕ
  pub failed : ℕ
  pub dnc : ℕ
  pub exhausted : ℕ
  pub calls_today : ℕ
  pub active_calls : ℕ
  pub last_call_completed_at : Option String

pub record CallEligibilityDecision : Type 0 where
  pub eligible : Bool
  pub reason : CallEligibility
  pub lead_id : Option String
  pub campaign_id : Option String

abbrev pub is_eligible : CallEligibility → Bool
is_eligible CallEligibility.eligible = true
is_eligible _ = false

unfoldable pub new_eligibility : CallEligibilityDecision → Result ValueError CallEligibilityDecision
new_eligibility d = do
  raise_if (d.eligible && not (is_eligible d.reason)) eligible_without_reason
  raise_if (not d.eligible && is_eligible d.reason) ineligible_with_reason
  ok d

pub record NextLeadDecision : Type 0 where
  pub available : Bool
  pub lead_entry : Option LeadQueueEntry
  pub ineligibility_reason : Option CallEligibility

unfoldable pub new_next_lead : NextLeadDecision → Result ValueError NextLeadDecision
new_next_lead d = do
  raise_if (d.available && not (is_some d.lead_entry)) available_without_entry
  raise_if (not d.available && is_some d.lead_entry) unavailable_with_entry
  ok d
