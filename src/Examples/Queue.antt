-- ===== src/Examples/Queue.antt =====
-- The campaign queue at concrete inputs.
use call_forge.Prelude.{
  suc, ◌+◌, ◌<◌, ◌≡◌, ◌↔◌, refl, true, false, none, some, List, [], ◌∷◌, ok, pos, arith, is_blank,
  member,
}
use call_forge.Campaign.Contracts.{
  CampaignStatus, LeadQueueStatus, LeadQueueStatus-discrete, RetryEligibility, NoAnswerPolicy,
  CallingWindow, CampaignConfig, LeadQueueEntry, QueueStateSnapshot, new_entry,
}
use call_forge.Campaign.Engine.{
  is_lead_callable, check_retry_eligibility, apply_no_answer, mark_dnc, mark_completed,
  select_next_lead,
}
use call_forge.Campaign.Engine.Selection.{Selects, select_next_lead-Selects}
use call_forge.Campaign.Engine.Dnc.{
  HasIds, no_answer, complete, apply_call, apply_calls, no_answers, dnc_is_final,
  no_answer_callable, attempts_bounded, unflagged_dnc_is_lost,
}

abbrev evening : CallingWindow
evening = record {
  start_hour = 18;
  start_minute = 0;
  end_hour = 2;
  end_minute = 30;
  timezone = "UTC";
}

abbrev campaign : CampaignConfig
campaign = record {
  campaign_id = "c";
  tenant_id = "t";
  name = "spring";
  status = CampaignStatus.active;
  authorized_service_ids = [];
  target_market = none;
  language_preference = none;
  tone = none;
  daily_call_limit = 50;
  gap_between_calls_seconds = 30;
  max_concurrent_calls = 1;
  max_retries_per_lead = 3;
  no_answer_policy = NoAnswerPolicy.retry_later;
  calling_window = none;
}

abbrev lead : LeadQueueEntry
lead = record {
  lead_id = "l";
  campaign_id = "c";
  tenant_id = "t";
  queue_position = 4;
  status = LeadQueueStatus.pending;
  attempt_count = 0;
  last_attempt_at = none;
  is_dnc = false;
}

abbrev snapshot : QueueStateSnapshot
snapshot = record {
  campaign_id = "c";
  tenant_id = "t";
  total_leads = 2;
  pending = 2;
  ready = 0;
  in_progress = 0;
  completed = 0;
  failed = 0;
  dnc = 0;
  exhausted = 0;
  calls_today = 0;
  active_calls = 0;
  last_call_completed_at = none;
}

abbrev queue : List LeadQueueEntry
queue = lead ∷ record lead { lead_id = "k"; queue_position = 2 } ∷ []

select_next_lead-Selects_example :
    Selects campaign queue snapshot
      (pos 10)
      (pos 0)
      (some (pos 45))
      (select_next_lead campaign queue snapshot (pos 10) (pos 0) (some (pos 45)))
select_next_lead-Selects_example =
    select_next_lead-Selects campaign queue snapshot (pos 10) (pos 0) (some (pos 45))

abbrev marked : LeadQueueEntry
marked = record lead { is_dnc = true; status = LeadQueueStatus.dnc }

abbrev last : LeadQueueEntry
last = record marked { attempt_count = 1 }

dnc_is_final_example :
    (last.status ≡ LeadQueueStatus.dnc)
    × (is_lead_callable last campaign ≡ false)
    × (check_retry_eligibility last campaign ≡ RetryEligibility.dnc)
unfolding mark_dnc mark_completed apply_no_answer apply_calls apply_call new_entry is_blank
    LeadQueueStatus-discrete
dnc_is_final_example = dnc_is_final campaign lead marked last (complete ∷ no_answer ∷ []) refl refl

abbrev rescheduled : LeadQueueEntry
rescheduled = record lead { status = LeadQueueStatus.retry_scheduled; attempt_count = 1 }

no_answer_callable_example : (is_lead_callable rescheduled campaign ≡ true) ↔ (
    (lead.is_dnc ≡ false)
    × (suc lead.attempt_count < campaign.max_retries_per_lead)
    × (campaign.no_answer_policy ≡ NoAnswerPolicy.retry_later))
unfolding apply_no_answer new_entry is_blank
no_answer_callable_example = no_answer_callable campaign lead rescheduled refl

attempts_bounded_example :
    lead.attempt_count + no_answers (no_answer ∷ []) < campaign.max_retries_per_lead
unfolding apply_calls apply_call apply_no_answer new_entry is_blank is_lead_callable member
    LeadQueueStatus-discrete
attempts_bounded_example = attempts_bounded campaign lead rescheduled (no_answer ∷ []) refl refl

lead-HasIds : HasIds lead
unfolding is_blank
lead-HasIds = record { lead_named = refl; campaign_named = refl; tenant_named = refl }

abbrev unflagged : LeadQueueEntry
unflagged = record lead { status = LeadQueueStatus.dnc }

unflagged-HasIds : HasIds unflagged
unflagged-HasIds = record {
  lead_named = lead-HasIds.lead_named;
  campaign_named = lead-HasIds.campaign_named;
  tenant_named = lead-HasIds.tenant_named;
}

unflagged_dnc_is_lost_example :
    (is_lead_callable unflagged campaign ≡ false)
    × (e' : LeadQueueEntry) × (apply_no_answer unflagged campaign ≡ ok e')
    × (is_lead_callable e' campaign ≡ true)
unflagged_dnc_is_lost_example =
    unflagged_dnc_is_lost campaign unflagged unflagged-HasIds refl refl (omega arith) refl
