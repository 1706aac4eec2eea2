-- ===== src/StateMachine/Machine/Invariant.antt =====
-- Validity of machines is kept by every call, and a detour returns to where it was entered.
use call_forge.Prelude.{
  Bool, true, false, not, ◌≡◌, refl, Option, List, ◌∷◌, arith, Result, ok, string_eq, member,
  has_key, All, if◌then◌else◌, along_ok, raise_if-eq-ok,
}
use mathlib.Core.Path.{subst}
use call_forge.Vocabulary.{ConversationState, AgentAction, conversation_state_eq, agent_action_eq}
use call_forge.Context.{Context}
use call_forge.StateMachine.Config.{MachineConfig}
use call_forge.StateMachine.WellFormed.{IsWellFormed}
use call_forge.StateMachine.Machine.{
  TransitionError, Machine, ApprovedTransition, TransitionValidator, new_machine, start_state,
  apply_transition, unknown_initial, terminal_initial,
}
use call_forge.StateMachine.Machine.Verdict.{
  IsOpen, IsValid, Verdict, terminal, ineligible, refused, nowhere_to_return, returned, moved,
  apply_transition-Verdict,
}

-- A machine that is created on a well-formed configuration, with or without an override of its first
-- state, is valid.
pub new_machine-IsValid :
    (c : MachineConfig) (start : Option ConversationState) (m : Machine)
    → IsWellFormed c
    → new_machine c start ≡ ok m
    → IsValid m
unfolding new_machine
new_machine-IsValid c start m w h =
    let s = start_state start c.initial_state in
    let (defined, h1) = raise_if-eq-ok (not (has_key s c.states)) (unknown_initial s) _ h in
    let (open_, h2) = raise_if-eq-ok (member s c.terminal_states) (terminal_initial s) _ h1 in
    along_ok IsValid h2 (record { well_formed = w; defined = ground arith; stack = tt })

module _ (m : Machine) (a : AgentAction) (context : Context) (v : Option TransitionValidator) where
  top-IsOpen :
      (s : ConversationState) (rest stack : List ConversationState)
      → stack ≡ s ∷ rest
      → All (IsOpen m.config) stack
      → All (IsOpen m.config) (s ∷ rest)
  top-IsOpen s rest stack e all = subst (All (IsOpen m.config)) e all

  pushed :
      (t : ConversationState) (detour : Bool)
      → IsOpen m.config m.current_state
      → All (IsOpen m.config) m.state_stack
      → All (IsOpen m.config) (if detour then m.current_state ∷ m.state_stack else m.state_stack)
  pushed t true o all = (o, all)
  pushed t false o all = all

  Verdict-IsValid :
      (p : Machine × Result TransitionError ApprovedTransition)
      → IsValid m
      → Verdict m a context v p
      → IsValid p.0
  unfolding has_key
  Verdict-IsValid p valid (terminal _) = valid
  Verdict-IsValid p valid (ineligible _ _ _ _) = valid
  Verdict-IsValid p valid (refused _ _ _) = valid
  Verdict-IsValid p valid (nowhere_to_return _ _ _ _ _) = valid
  Verdict-IsValid p valid (returned r s rest has acc back stack) =
      let all = top-IsOpen s rest m.state_stack stack valid.stack in
      record { well_formed = valid.well_formed; defined = all.0.defined; stack = all.1 }
  Verdict-IsValid p valid (moved r t d has acc fwd parsed found outcome) = record {
    well_formed = valid.well_formed;
    defined = rw found refl;
    stack =
        pushed t d.is_detour (record { defined = valid.defined; not_terminal = has.open_state })
          valid.stack;
  }

-- Every call of `apply_transition`, whether it succeeds or raises, leaves a valid machine valid: its
-- state stays defined and its stack holds defined states that are not terminal only.
pub apply_transition-IsValid :
    (m : Machine) (a : AgentAction) (context : Context) (v : Option TransitionValidator)
    → IsValid m
    → IsValid (apply_transition m a context v).0
apply_transition-IsValid m a context v valid =
    Verdict-IsValid m a context v (apply_transition m a context v) valid
      (apply_transition-Verdict m a context v valid)
