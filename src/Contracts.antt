-- ===== src/Contracts.antt =====
-- app/contracts/validation.py: the answer of the validator, whose reason is bounded in length.
use Prim.Native.String.{count}
use call_forge.Prelude.{
  String, Bool, true, false, ltb, ◌≡◌, refl, inl, inr, Bool-cases, Option, none, some, Result,
  raise_if, ◌>>◌,
}

pub data ValidationCategory : Type 0 where
  ok not_eligible missing_prerequisite unknown_requirement dnc_conflict : ValidationCategory

-- The string values of the categories, by which the fallbacks are keyed.
unfoldable pub category_value : ValidationCategory → String
category_value ValidationCategory.ok = "ok"
category_value ValidationCategory.not_eligible = "not_eligible"
category_value ValidationCategory.missing_prerequisite = "missing_prerequisite"
category_value ValidationCategory.unknown_requirement = "unknown_requirement"
category_value ValidationCategory.dnc_conflict = "dnc_conflict"

pub record ValidationResult : Type 0 where
  pub allowed : Bool
  pub category : ValidationCategory
  pub reason : Option String
  pub from_deterministic_rule : Bool

-- `ValidationResult.ok()`
abbrev pub accepted : ValidationResult
accepted = record {
  allowed = true;
  category = ValidationCategory.ok;
  reason = none;
  from_deterministic_rule = true;
}

-- What the contract raises.
pub data ContractError : Type 0 where
  reason_too_long : ContractError

-- `max_length=200` of the reason
unfoldable pub long_reason : String → Bool
long_reason reason = ltb 200 (count reason)

-- `ValidationResult.rejected(category, reason)`
unfoldable pub rejected : ValidationCategory → String → Result ContractError ValidationResult
unfolding long_reason
rejected category reason = do
  raise_if (long_reason reason) reason_too_long
  Result.ok (record {
    allowed = false;
    category = category;
    reason = some reason;
    from_deterministic_rule = true;
  })

-- An answer allows: it was given, and says so.
abbrev pub allows : Result ContractError ValidationResult → Bool
allows (Result.ok v) = v.allowed
allows (Result.err e) = false

pub rejected-refuses :
    (c : ValidationCategory) (reason : String) → allows (rejected c reason) ≡ false
unfolding rejected
rejected-refuses c reason = elim (Bool-cases (long_reason reason)) [
  | inl long ↦ rw long refl
  | inr short ↦ rw short refl
]
