-- ===== src/Campaign/Engine/Selection.antt =====
-- Which lead is next, and why none is.
use mathlib.Core.Bool.{false≢true}
use call_forge.Prelude.{
  ◌≤◌, ◌<◌, ℤ, pos, leb, ◌≤ℤ◌, true, false, ◌≡◌, ◌≢◌, refl, sym, ◌∙◌, inl, inr, Option, none, some,
  List, [], ◌∷◌, Result, ok, All, Bool-cases, arith,
}
use call_forge.Campaign.Contracts.{
  CampaignStatus, CallEligibility, CallingWindow, contains_time, CampaignConfig, LeadQueueEntry,
  QueueStateSnapshot, CallEligibilityDecision, NextLeadDecision, new_next_lead, new_eligibility,
  ValueError,
}
use call_forge.Campaign.Engine.{
  check_campaign_eligibility, refuse_or_check, status_refusal, check_limits, refuse, in_window,
  check_gap_elapsed, is_lead_callable, callable_entries, place, sorted, first_of_entries,
  select_from, select_next_lead,
}

-- `x` is the first of the callable entries that have the lowest queue position.
pub data IsNext (config : CampaignConfig) (x : LeadQueueEntry) : List LeadQueueEntry → Type 0 where
  here :
      {rest : List LeadQueueEntry}
      → is_lead_callable x config ≡ true
      → All (λ e. is_lead_callable e config ≡ true → x.queue_position ≤ e.queue_position) rest
      → IsNext config x (x ∷ rest)
  later :
      {e : LeadQueueEntry} {rest : List LeadQueueEntry}
      → (is_lead_callable e config ≡ true → x.queue_position < e.queue_position)
      → IsNext config x rest
      → IsNext config x (e ∷ rest)

module _ (config : CampaignConfig) where
  abbrev NoneCallable : List LeadQueueEntry → Type 0
  NoneCallable = All (λ e. is_lead_callable e config ≡ false)

  below-All :
      (y x : LeadQueueEntry) (queue : List LeadQueueEntry)
      → y.queue_position ≤ x.queue_position
      → IsNext config x queue
      → All (λ e. is_lead_callable e config ≡ true → y.queue_position ≤ e.queue_position) queue
  below-All y x queue le (here {rest} callable least) = (λ _. le, all_below rest least)
    where
      all_below :
          (es : List LeadQueueEntry)
          → All (λ e. is_lead_callable e config ≡ true → x.queue_position ≤ e.queue_position) es
          → All (λ e. is_lead_callable e config ≡ true → y.queue_position ≤ e.queue_position) es
      all_below [] h = tt
      all_below (e ∷ es) h = (λ c. omega (arith, h.0 c), all_below es h.1)
  below-All y x queue le (later {e} {rest} above next) =
      (λ c. omega (arith, above c), below-All y x rest le next)

  none_below :
      (y : LeadQueueEntry) (queue : List LeadQueueEntry)
      → NoneCallable queue
      → All (λ e. is_lead_callable e config ≡ true → y.queue_position ≤ e.queue_position) queue
  none_below y [] h = tt
  none_below y (e ∷ rest) h = (λ c. absurd (false≢true (sym h.0 ∙ c)), none_below y rest h.1)

  -- What the sorted list of callable entries tells.
  abbrev Sorts : List LeadQueueEntry → List LeadQueueEntry → Type 0
  Sorts queue [] = NoneCallable queue
  Sorts queue (x ∷ rest) = IsNext config x queue

  place-Sorts :
      (e : LeadQueueEntry) (queue ordered : List LeadQueueEntry)
      → is_lead_callable e config ≡ true
      → Sorts queue ordered
      → Sorts (e ∷ queue) (place e ordered)
  unfolding place
  place-Sorts e queue [] c h = here c (none_below e queue h)
  place-Sorts e queue (x ∷ rest) c h = elim (Bool-cases (leb e.queue_position x.queue_position)) [
    | inl le ↦ rw le (here c (below-All e x queue (ground arith) h))
    | inr gt ↦ rw gt (later (λ _. ground arith) h)
  ]

  skip-Sorts :
      (e : LeadQueueEntry) (queue ordered : List LeadQueueEntry)
      → is_lead_callable e config ≡ false
      → Sorts queue ordered
      → Sorts (e ∷ queue) ordered
  skip-Sorts e queue [] c h = (c, h)
  skip-Sorts e queue (x ∷ rest) c h = later (λ d. absurd (false≢true (sym c ∙ d))) h

  sorted-Sorts :
      (queue : List LeadQueueEntry) → Sorts queue (sorted (callable_entries config queue))
  unfolding sorted callable_entries
  sorted-Sorts [] = tt
  sorted-Sorts (e ∷ rest) = elim (Bool-cases (is_lead_callable e config)) [
    | inl c ↦
        rw c (place-Sorts e rest (sorted (callable_entries config rest)) c (sorted-Sorts rest))
    | inr n ↦ rw n (skip-Sorts e rest (sorted (callable_entries config rest)) n (sorted-Sorts rest))
  ]

-- The campaign lets a call happen now.
pub record AllowsCall (config : CampaignConfig) (snapshot : QueueStateSnapshot) (hour minute : ℤ)
    : Type 0 where
  pub active : config.status ≡ CampaignStatus.active
  pub below_daily_limit : snapshot.calls_today < config.daily_call_limit
  pub below_concurrency : snapshot.active_calls < config.max_concurrent_calls
  pub window_open :
      (w : CallingWindow) → config.calling_window ≡ some w → contains_time w hour minute ≡ true

-- The reason is the first condition that fails.
pub data Refusal (config : CampaignConfig) (snapshot : QueueStateSnapshot) (hour minute : ℤ)
    : CallEligibility → Type 0 where
  paused :
      config.status ≡ CampaignStatus.paused
      → Refusal config snapshot hour minute CallEligibility.campaign_paused
  not_active :
      config.status ≢ CampaignStatus.active
      → config.status ≢ CampaignStatus.paused
      → Refusal config snapshot hour minute CallEligibility.campaign_not_active
  daily_limit :
      config.status ≡ CampaignStatus.active
      → config.daily_call_limit ≤ snapshot.calls_today
      → Refusal config snapshot hour minute CallEligibility.daily_limit_reached
  concurrency :
      config.status ≡ CampaignStatus.active
      → snapshot.calls_today < config.daily_call_limit
      → config.max_concurrent_calls ≤ snapshot.active_calls
      → Refusal config snapshot hour minute CallEligibility.concurrency_limit
  outside :
      (w : CallingWindow)
      → config.status ≡ CampaignStatus.active
      → snapshot.calls_today < config.daily_call_limit
      → snapshot.active_calls < config.max_concurrent_calls
      → config.calling_window ≡ some w
      → contains_time w hour minute ≡ false
      → Refusal config snapshot hour minute CallEligibility.outside_calling_window

-- The gap since the last call has elapsed, or there was no call.
abbrev pub GapElapsed : CampaignConfig → Option ℤ → Type 0
GapElapsed config none = Unit
GapElapsed config (some elapsed) = pos config.gap_between_calls_seconds ≤ℤ elapsed

module _ (config : CampaignConfig) (snapshot : QueueStateSnapshot) (hour minute : ℤ) where
  data CampaignAnswer : CallEligibilityDecision → Type 0 where
    allows :
        (d : CallEligibilityDecision)
        → d.eligible ≡ true
        → AllowsCall config snapshot hour minute
        → CampaignAnswer d
    refuses :
        (d : CallEligibilityDecision)
        → d.eligible ≡ false
        → Refusal config snapshot hour minute d.reason
        → CampaignAnswer d

  abbrev CampaignAnswers : Result ValueError CallEligibilityDecision → Type 0
  CampaignAnswers r = (d : CallEligibilityDecision) × (r ≡ ok d) × CampaignAnswer d

  Refusal-answer :
      (reason : CallEligibility)
      → reason ≢ CallEligibility.eligible
      → Refusal config snapshot hour minute reason
      → CampaignAnswers (refuse config reason)
  unfolding refuse new_eligibility
  Refusal-answer reason real why = (
    record {
      eligible = false;
      reason = reason;
      lead_id = none;
      campaign_id = some config.campaign_id;
    },
    ground arith,
    refuses _ refl why,
  )

  window_answer :
      (window : Option CallingWindow)
      → config.calling_window ≡ window
      → in_window window hour minute ≡ true
      → (w : CallingWindow) → config.calling_window ≡ some w
      → contains_time w hour minute ≡ true
  unfolding in_window
  window_answer none e h w f = cc
  window_answer (some v) e h w f = cc

  window_refusal :
      (window : Option CallingWindow)
      → config.calling_window ≡ window
      → in_window window hour minute ≡ false
      → (w : CallingWindow) × (config.calling_window ≡ some w)
        × (contains_time w hour minute ≡ false)
  unfolding in_window
  window_refusal none e h = cc
  window_refusal (some v) e h = (v, e, h)

  check_limits-answer :
      config.status ≡ CampaignStatus.active
      → CampaignAnswers (check_limits config snapshot hour minute)
  unfolding check_limits new_eligibility
  check_limits-answer active =
      elim (Bool-cases (leb config.daily_call_limit snapshot.calls_today)) [
        | inl full ↦ rw full (
            Refusal-answer CallEligibility.daily_limit_reached (λ e. cc)
              (daily_limit active (ground arith)))
        | inr room ↦ elim (Bool-cases (leb config.max_concurrent_calls snapshot.active_calls)) [
          | inl busy ↦
              rw (room, busy)
                (Refusal-answer CallEligibility.concurrency_limit (λ e. cc)
                  (concurrency active (ground arith) (ground arith)))
          | inr free ↦ elim (Bool-cases (in_window config.calling_window hour minute)) [
            | inl open_ ↦
                rw (room, free, open_)
                  (
                    _,
                    refl,
                    allows _ refl (record {
                      active = active;
                      below_daily_limit = ground arith;
                      below_concurrency = ground arith;
                      window_open = window_answer config.calling_window refl open_;
                    }),
                  )
            | inr shut ↦
                let (w, is, out) = window_refusal config.calling_window refl shut in
                rw (room, free, shut)
                  (Refusal-answer CallEligibility.outside_calling_window (λ e. cc)
                    (outside w active (ground arith) (ground arith) is out))
          ]
        ]
      ]

  status_answer :
      (status : CampaignStatus)
      → config.status ≡ status
      → CampaignAnswers (refuse_or_check (status_refusal status) config snapshot hour minute)
  unfolding refuse_or_check status_refusal
  status_answer CampaignStatus.active e = check_limits-answer e
  status_answer CampaignStatus.paused e =
      Refusal-answer CallEligibility.campaign_paused (λ e. cc) (paused e)
  status_answer _ e =
      Refusal-answer CallEligibility.campaign_not_active (λ e. cc) (not_active (λ a. cc) (λ p. cc))

-- The answers of `select_next_lead`.
pub data Selection (config : CampaignConfig) (queue : List LeadQueueEntry)
    (snapshot : QueueStateSnapshot) (hour minute : ℤ) (elapsed : Option ℤ)
    : NextLeadDecision → Type 0 where
  refused :
      (reason : CallEligibility)
      → Refusal config snapshot hour minute reason
      → Selection config queue snapshot hour minute elapsed
          (record { available = false; lead_entry = none; ineligibility_reason = some reason })
  waiting :
      AllowsCall config snapshot hour minute
      → ¬ (GapElapsed config elapsed)
      → Selection config queue snapshot hour minute elapsed (record {
        available = false;
        lead_entry = none;
        ineligibility_reason = some CallEligibility.gap_not_elapsed;
      })
  nobody :
      AllowsCall config snapshot hour minute
      → GapElapsed config elapsed
      → NoneCallable config queue
      → Selection config queue snapshot hour minute elapsed (record {
        available = false;
        lead_entry = none;
        ineligibility_reason = some CallEligibility.no_leads_available;
      })
  chosen :
      (x : LeadQueueEntry)
      → AllowsCall config snapshot hour minute
      → GapElapsed config elapsed
      → IsNext config x queue
      → Selection config queue snapshot hour minute elapsed
          (record { available = true; lead_entry = some x; ineligibility_reason = none })

gap_true :
    (config : CampaignConfig) (elapsed : Option ℤ)
    → check_gap_elapsed config elapsed ≡ true
    → GapElapsed config elapsed
unfolding check_gap_elapsed
gap_true config none h = tt
gap_true config (some e) h = ground arith

gap_false :
    (config : CampaignConfig) (elapsed : Option ℤ)
    → check_gap_elapsed config elapsed ≡ false
    → ¬ (GapElapsed config elapsed)
unfolding check_gap_elapsed
gap_false config none h g = cc
gap_false config (some e) h g = ground arith

module _ (config : CampaignConfig) (queue : List LeadQueueEntry) (snapshot : QueueStateSnapshot)
    (hour minute : ℤ) (elapsed : Option ℤ) where
  abbrev pub Selects : Result ValueError NextLeadDecision → Type 0
  Selects r =
      (d : NextLeadDecision) × (r ≡ ok d) × Selection config queue snapshot hour minute elapsed d

  first_of_entries-Selects :
      (ordered : List LeadQueueEntry)
      → AllowsCall config snapshot hour minute
      → GapElapsed config elapsed
      → Sorts config queue ordered
      → Selects (first_of_entries ordered)
  unfolding first_of_entries new_next_lead
  first_of_entries-Selects [] a g h = (_, refl, nobody a g h)
  first_of_entries-Selects (x ∷ rest) a g h = (_, refl, chosen x a g h)

  select_from-Selects :
      (d : CallEligibilityDecision)
      → CampaignAnswer config snapshot hour minute d
      → Selects (select_from config queue elapsed d)
  unfolding select_from new_next_lead
  select_from-Selects d (refuses _ no_ why) = rw no_ (_, refl, refused d.reason why)
  select_from-Selects d (allows _ yes_ a) = elim (Bool-cases (check_gap_elapsed config elapsed)) [
    | inl g ↦
        rw (yes_, g)
          (first_of_entries-Selects (sorted (callable_entries config queue)) a
            (gap_true config elapsed g) (sorted-Sorts config queue))
    | inr g ↦ rw (yes_, g) (_, refl, waiting a (gap_false config elapsed g))
  ]

  -- `select_next_lead` never raises, and answers by the first case that applies: the campaign refuses
  -- the call, with the first condition that fails for reason; the gap since the last call has not
  -- elapsed; no entry of the queue is callable; or it chooses the callable entry of the lowest queue
  -- position, the first in the queue among equal ones.
  pub select_next_lead-Selects :
      Selects (select_next_lead config queue snapshot hour minute elapsed)
  unfolding select_next_lead check_campaign_eligibility
  select_next_lead-Selects =
      let (d, e, answer) = status_answer config snapshot hour minute config.status refl in
      rw e (select_from-Selects d answer)
