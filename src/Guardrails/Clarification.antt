-- ===== src/Guardrails/Clarification.antt =====
-- app/conversation/guardrails/clarification.py: the bounded clarification of a contact value. The
-- states are immutable, and their constructor validates.
pub mod Bounded
use call_forge.Prelude.{
  String, ℤ, pos, leb_ℤ, ltb_ℤ, suc_ℤ, Bool, ◌&&◌, ◌||◌, Option, none, some, Result, ok, err,
  raise_if, ◌>>=◌, ◌>>◌, lookup, string_eq, if◌then◌else◌,
}
use call_forge.Vocabulary.{AgentAction, confirm_contact, clarify_contact}
use call_forge.StateMachine.Config.{MachineConfig}

-- app/contracts/contact_info.py
pub data ContactChannel : Type 0 where
  email phone whatsapp sms unknown : ContactChannel

pub data ClarificationStage : Type 0 where
  initial repeat spell exhausted : ClarificationStage

pub data ClarificationOutcome : Type 0 where
  clear retry exhausted : ClarificationOutcome

-- `ValidationError`; `no_response_key` stands for the `KeyError` of the table of response keys.
pub data ValidationError : Type 0 where
  negative_attempts max_attempts_too_small no_response_key : ValidationError

pub record ClarificationState : Type 0 where
  pub channel : ContactChannel
  pub attempts : ℤ
  pub stage : ClarificationStage
  pub max_attempts : ℤ

pub record ClarificationDecision : Type 0 where
  pub channel : ContactChannel
  pub outcome : ClarificationOutcome
  pub stage : ClarificationStage
  pub action : Option AgentAction
  pub response_key : Option String
  pub new_state : ClarificationState

-- The constructor with its `__post_init__`.
unfoldable pub new_state :
    ContactChannel → ℤ → ClarificationStage → ℤ → Result ValidationError ClarificationState
new_state channel attempts stage max_attempts = do
  raise_if (ltb_ℤ attempts (pos 0)) negative_attempts
  raise_if (ltb_ℤ max_attempts (pos 1)) max_attempts_too_small
  ok (record { channel = channel; attempts = attempts; stage = stage; max_attempts = max_attempts })

-- `_RESPONSE_KEYS[channel][stage]`
response_key : ContactChannel → ClarificationStage → Result ValidationError String
response_key ContactChannel.email ClarificationStage.repeat = ok "repeat_email"
response_key ContactChannel.email ClarificationStage.spell = ok "spell_email"
response_key ContactChannel.phone ClarificationStage.repeat = ok "repeat_phone"
response_key ContactChannel.phone ClarificationStage.spell = ok "digits_phone"
response_key ContactChannel.whatsapp ClarificationStage.repeat = ok "repeat_phone"
response_key ContactChannel.whatsapp ClarificationStage.spell = ok "digits_phone"
response_key ContactChannel.sms ClarificationStage.repeat = ok "repeat_phone"
response_key ContactChannel.sms ClarificationStage.spell = ok "digits_phone"
response_key ContactChannel.unknown ClarificationStage.repeat = ok "ask_contact_channel"
response_key ContactChannel.unknown ClarificationStage.spell = ok "ask_contact_channel"
response_key _ _ = err no_response_key

limit_or_three : Option ℤ → ℤ
limit_or_three none = pos 3
limit_or_three (some limit) = limit

abbrev email_key : String
email_key = "email_clarification_max_attempts"

abbrev phone_key : String
phone_key = "phone_clarification_max_attempts"

-- `_max_for`
unfoldable pub max_for : MachineConfig → ContactChannel → ℤ
unfolding limit_or_three
max_for config ContactChannel.email = limit_or_three (lookup email_key config.limits)
max_for config ContactChannel.phone = limit_or_three (lookup phone_key config.limits)
max_for config ContactChannel.whatsapp = limit_or_three (lookup phone_key config.limits)
max_for config ContactChannel.sms = limit_or_three (lookup phone_key config.limits)
max_for config ContactChannel.unknown = limit_or_three (lookup email_key config.limits)

unfoldable pub new_session :
    MachineConfig → ContactChannel → Result ValidationError ClarificationState
new_session config channel =
    new_state channel (pos 0) ClarificationStage.initial (max_for config channel)

abbrev is_exhausted : ClarificationStage → Bool
is_exhausted ClarificationStage.exhausted = Bool.true
is_exhausted _ = Bool.false

-- The stage after one more attempt.
next_stage : ℤ → ℤ → ClarificationStage
next_stage next_attempts max_attempts =
    if leb_ℤ max_attempts next_attempts
    then ClarificationStage.exhausted
    else if leb_ℤ next_attempts (pos 1) && leb_ℤ (pos 1) next_attempts
    then ClarificationStage.repeat
    else ClarificationStage.spell

cleared : ClarificationState → Result ValidationError ClarificationDecision
cleared state = do
  after ← new_state state.channel state.attempts ClarificationStage.initial state.max_attempts
  ok (record {
    channel = state.channel;
    outcome = ClarificationOutcome.clear;
    stage = ClarificationStage.initial;
    action = some confirm_contact;
    response_key = none;
    new_state = after;
  })

-- The decision that hands over to the fallback.
give_up : ClarificationState → ClarificationDecision
give_up after = record {
  channel = after.channel;
  outcome = ClarificationOutcome.exhausted;
  stage = ClarificationStage.exhausted;
  action = none;
  response_key = none;
  new_state = after;
}

stay_exhausted : ClarificationState → Result ValidationError ClarificationDecision
unfolding give_up
stay_exhausted state = do
  after ← new_state state.channel state.attempts ClarificationStage.exhausted state.max_attempts
  ok (give_up after)

-- The last part, once the stage that follows is known.
ask_again :
    ContactChannel
    → ClarificationStage
    → ClarificationState
    → Result ValidationError ClarificationDecision
unfolding give_up response_key
ask_again channel ClarificationStage.exhausted after = ok (give_up after)
ask_again channel stage after = do
  key ← response_key channel stage
  ok (record {
    channel = channel;
    outcome = ClarificationOutcome.retry;
    stage = stage;
    action = some clarify_contact;
    response_key = some key;
    new_state = after;
  })

progress : ClarificationState → Result ValidationError ClarificationDecision
unfolding next_stage ask_again
progress state = do
  let next_attempts = suc_ℤ state.attempts
  let stage = next_stage next_attempts state.max_attempts
  after ← new_state state.channel next_attempts stage state.max_attempts
  ask_again state.channel stage after

unfoldable pub evaluate : ClarificationState → Bool → Result ValidationError ClarificationDecision
unfolding new_state cleared stay_exhausted progress
evaluate state extraction_clear =
    if extraction_clear
    then cleared state
    else if is_exhausted state.stage || leb_ℤ state.max_attempts state.attempts
    then stay_exhausted state
    else progress state
