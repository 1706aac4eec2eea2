-- ===== src/Context.antt =====
-- The read-only conversation context, a `dict[str, Any]`, and its truth tests. A value that is no
-- None, bool or text is known by its truth value alone.
use call_forge.Prelude.{
  String, Bool, false, not, Option, none, some, List, string_eq, lookup, is_blank, ◌==◌,
  if◌then◌else◌,
}

pub data Value : Type 0 where
  null : Value
  flag : Bool → Value
  text : String → Value
  object : Bool → Value

abbrev pub Context : Type 0
Context = List (String × Value)

-- `bool(value)`
unfoldable pub truth : Value → Bool
truth null = false
truth (flag b) = b
truth (text s) = not (s == "")
truth (object b) = b

-- `bool(context.get(key))`
unfoldable pub truth_of : Option Value → Bool
unfolding truth
truth_of none = false
truth_of (some v) = truth v

-- `_is_true` of app/conversation/guardrails/action_validator.py
unfoldable pub is_true : Context → String → Bool
unfolding truth_of
is_true context key = truth_of (lookup key context)

nonempty : Option Value → Bool
unfolding truth
nonempty none = false
nonempty (some null) = false
nonempty (some (flag b)) = b
nonempty (some (text s)) = if is_blank s then false else truth (text s)
nonempty (some (object b)) = b

-- `_has_nonempty`: None and blank texts are refused before the truth test.
unfoldable pub has_nonempty : Context → String → Bool
unfolding nonempty
has_nonempty context key = nonempty (lookup key context)
