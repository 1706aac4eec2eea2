-- ===== src/Guardrails/Clarification/Bounded.antt =====
-- Clarification never raises on a valid state, and is bounded.
use call_forge.Prelude.{
  String, ℕ, suc, ◌+◌, ◌≤◌, ◌<◌, ℤ, pos, negsuc, leb, ◌≤ℤ◌, Bool, true, false, ◌≡◌, ◌≢◌, refl, ◌⊎◌,
  inl, inr, Bool-cases, Option, none, some, List, [], ◌∷◌, Result, ok, ◌>>=◌, arith, if◌then◌else◌,
}
use call_forge.Vocabulary.{AgentAction, confirm_contact, clarify_contact}
use call_forge.StateMachine.Config.{MachineConfig}
use call_forge.Guardrails.Clarification.{
  ContactChannel, ClarificationStage, ClarificationOutcome, ValidationError, ClarificationState,
  ClarificationDecision, new_state, evaluate, new_session, max_for,
}

-- The values that the constructor lets through.
pub record IsValid (s : ClarificationState) : Type 0 where
  pub attempted : pos 0 ≤ℤ s.attempts
  pub limited : pos 1 ≤ℤ s.max_attempts

-- What a decision says of the state that it left, `n` and `m` being its attempts and its maximum.
module _ (c : ContactChannel) (stage : ClarificationStage) (n m : ℕ) where
  abbrev pub at : ClarificationState
  at = record { channel = c; attempts = pos n; stage = stage; max_attempts = pos m }

-- The stage after a question, the first being a repetition.
abbrev pub asked_stage : ℕ → ClarificationStage
asked_stage n = if leb n 0 then ClarificationStage.repeat else ClarificationStage.spell

-- The texts of the questions.
unfoldable pub asked_key : ContactChannel → ℕ → String
asked_key ContactChannel.email n = if leb n 0 then "repeat_email" else "spell_email"
asked_key ContactChannel.unknown n = "ask_contact_channel"
asked_key _ n = if leb n 0 then "repeat_phone" else "digits_phone"

-- A valid state and its answer: never an error. A clear value confirms, resets the stage and leaves
-- the count; an unclear one is asked for again, and counted, while the next attempt stays below the
-- maximum, first by a repetition and then by spelling, with the channel's text; the attempt that
-- reaches the maximum is counted and exhausts; an exhausted state, or one that is out of attempts,
-- stays as it is but for its stage.
pub data Answer (c : ContactChannel) (stage : ClarificationStage) (n m : ℕ)
    : Bool → ClarificationDecision → Type 0 where
  confirmed :
      (d : ClarificationDecision)
      → d.channel ≡ c
      → d.outcome ≡ ClarificationOutcome.clear
      → d.stage ≡ ClarificationStage.initial
      → d.action ≡ some confirm_contact
      → d.response_key ≡ none
      → d.new_state ≡ at c ClarificationStage.initial n m
      → Answer c stage n m true d
  asked :
      (d : ClarificationDecision)
      → suc n < m
      → d.channel ≡ c
      → d.outcome ≡ ClarificationOutcome.retry
      → d.stage ≡ asked_stage n
      → d.action ≡ some clarify_contact
      → d.response_key ≡ some (asked_key c n)
      → d.new_state ≡ at c (asked_stage n) (suc n) m
      → Answer c stage n m false d
  ended :
      (d : ClarificationDecision) (k : ℕ)
      → (((stage ≡ ClarificationStage.exhausted) ⊎ (m ≤ n)) × (k ≡ n))
        ⊎ ((stage ≢ ClarificationStage.exhausted) × (n < m) × (m ≤ suc n) × (k ≡ suc n))
      → d.channel ≡ c
      → d.outcome ≡ ClarificationOutcome.exhausted
      → d.stage ≡ ClarificationStage.exhausted
      → d.action ≡ none
      → d.response_key ≡ none
      → d.new_state ≡ at c ClarificationStage.exhausted k m
      → Answer c stage n m false d

abbrev pub Answers : (c : ContactChannel) (stage : ClarificationStage) (n m : ℕ) → Bool → Type 0
Answers c stage n m b =
    (d : ClarificationDecision) × (evaluate (at c stage n m) b ≡ ok d) × Answer c stage n m b d

abbrev said :
    ContactChannel
    → ClarificationOutcome
    → ClarificationStage
    → Option AgentAction
    → Option String
    → ClarificationState
    → ClarificationDecision
said c o stage a key after = record {
  channel = c;
  outcome = o;
  stage = stage;
  action = a;
  response_key = key;
  new_state = after;
}

module _ (c : ContactChannel) (stage : ClarificationStage) (n m : ℕ) (h : 1 ≤ m) where
  clear_answer : Answers c stage n m true
  unfolding evaluate
  clear_answer = (
    said c ClarificationOutcome.clear ClarificationStage.initial (some confirm_contact) none
        (at c ClarificationStage.initial n m),
    ground arith,
    confirmed _ refl refl refl refl refl refl,
  )

  spent_answer : (k : ℕ) → ClarificationDecision
  spent_answer k =
      said c ClarificationOutcome.exhausted ClarificationStage.exhausted none none
        (at c ClarificationStage.exhausted k m)

  sticky_answer :
      (stage ≡ ClarificationStage.exhausted) ⊎ (m ≤ n)
      → evaluate (at c stage n m) false ≡ ok (spent_answer n)
  unfolding evaluate spent_answer
  sticky_answer done = ground arith

  last_answer :
      stage ≢ ClarificationStage.exhausted
      → n < m
      → m ≤ suc n
      → evaluate (at c stage n m) false ≡ ok (spent_answer (suc n))
  unfolding evaluate spent_answer
  last_answer fresh room last = ground arith

retry_answer :
    (c : ContactChannel) (stage : ClarificationStage) (n m : ℕ)
    → stage ≢ ClarificationStage.exhausted
    → suc n < m
    → evaluate (at c stage n m) false
      ≡ ok (
          said c ClarificationOutcome.retry
            (asked_stage n)
            (some clarify_contact)
            (some (asked_key c n))
            (at c (asked_stage n) (suc n) m))
unfolding evaluate asked_key
retry_answer ContactChannel.email stage n m fresh room = ground arith
retry_answer _ stage n m fresh room = ground arith

le_of_leb : (a b : ℕ) → leb a b ≡ true → a ≤ b
le_of_leb a b h = ground arith

lt_of_leb : (a b : ℕ) → leb a b ≡ false → b < a
lt_of_leb a b h = ground arith

module _ (c : ContactChannel) (stage : ClarificationStage) (n m : ℕ) (h : 1 ≤ m) where
  spent :
      (k : ℕ)
      → (((stage ≡ ClarificationStage.exhausted) ⊎ (m ≤ n)) × (k ≡ n))
        ⊎ ((stage ≢ ClarificationStage.exhausted) × (n < m) × (m ≤ suc n) × (k ≡ suc n))
      → evaluate (at c stage n m) false ≡ ok (spent_answer c stage n m h k)
      → Answers c stage n m false
  unfolding spent_answer
  spent k why e = (spent_answer c stage n m h k, e, ended _ k why refl refl refl refl refl refl)

  fresh_answers : stage ≢ ClarificationStage.exhausted → Answers c stage n m false
  fresh_answers fresh = elim (Bool-cases (leb m n)) [
    | inl over ↦
        spent n (inl (inr (le_of_leb m n over), refl))
          (sticky_answer c stage n m h (inr (le_of_leb m n over)))
    | inr under ↦ elim (Bool-cases (leb m (suc n))) [
      | inl last ↦
          spent (suc n) (inr (fresh, lt_of_leb m n under, le_of_leb m (suc n) last, refl))
            (last_answer c stage n m h fresh (lt_of_leb m n under) (le_of_leb m (suc n) last))
      | inr room ↦ (
        _,
        retry_answer c stage n m fresh (lt_of_leb m (suc n) room),
        asked _ (lt_of_leb m (suc n) room) refl refl refl refl refl refl,
      )
    ]
  ]

unclear_answers :
    (c : ContactChannel) (stage : ClarificationStage) (n m : ℕ) → 1 ≤ m → Answers c stage n m false
unclear_answers c ClarificationStage.exhausted n m h =
    spent c ClarificationStage.exhausted n m h n (inl (inl refl, refl))
      (sticky_answer c ClarificationStage.exhausted n m h (inl refl))
unclear_answers c stage n m h = fresh_answers c stage n m h (λ e. cc)

pub evaluate_answers :
    (c : ContactChannel) (stage : ClarificationStage) (n m : ℕ) (extraction_clear : Bool)
    → 1 ≤ m
    → Answers c stage n m extraction_clear
evaluate_answers c stage n m true h = clear_answer c stage n m h
evaluate_answers c stage n m false h = unclear_answers c stage n m h

-- The decisions on a sequence of turns, each on the state that the turn before left.
pub decisions : ClarificationState → List Bool → Result ValidationError (List ClarificationDecision)
decisions s [] = ok []
decisions s (clear ∷ rest) = do
  d ← evaluate s clear
  later ← decisions d.new_state rest
  ok (d ∷ later)

pub is_retry : ClarificationOutcome → Bool
is_retry ClarificationOutcome.retry = true
is_retry _ = false

pub retries : List ClarificationDecision → ℕ
unfolding is_retry
retries [] = 0
retries (d ∷ rest) = let n = retries rest in if is_retry d.outcome then suc n else n

-- The turns are all answered, and the retries that are left fit below the maximum.
abbrev pub Bounded : ClarificationState → List Bool → ℕ → ℕ → Type 0
Bounded s inputs n m =
    (ds : List ClarificationDecision) × (decisions s inputs ≡ ok ds)
    × ((retries ds ≡ 0) ⊎ (n + retries ds < m))

-- Exhaustion takes no attempt back.
never_fewer :
    (stage : ClarificationStage) (n m k : ℕ)
    → (((stage ≡ ClarificationStage.exhausted) ⊎ (m ≤ n)) × (k ≡ n))
      ⊎ ((stage ≢ ClarificationStage.exhausted) × (n < m) × (m ≤ suc n) × (k ≡ suc n))
    → n ≤ k
never_fewer stage n m k (inl (_, same)) = omega (arith, same)
never_fewer stage n m k (inr (_, _, _, next)) = omega (arith, next)

step-Bounded :
    (c : ContactChannel) (stage : ClarificationStage) (n m : ℕ) (clear : Bool) (rest : List Bool)
    → Answers c stage n m clear
    → ((stage' : ClarificationStage) (k : ℕ) → Bounded (at c stage' k m) rest k m)
    → Bounded (at c stage n m) (clear ∷ rest) n m
unfolding decisions retries
step-Bounded c stage n m clear rest (d, answered, confirmed _ _ o _ _ _ s) later =
    let (ds, run, bound) = later ClarificationStage.initial n in
    (d ∷ ds, rw answered (rw s (rw run refl)), rw o bound)
step-Bounded c stage n m clear rest (d, answered, asked _ room _ o _ _ _ s) later =
    let (ds, run, bound) = later (asked_stage n) (suc n) in
    (d ∷ ds, rw answered (rw s (rw run refl)), rw o (ground arith))
step-Bounded c stage n m clear rest (d, answered, ended _ k why _ o _ _ _ s) later =
    let low = never_fewer stage n m k why in
    let (ds, run, bound) = later ClarificationStage.exhausted k in
    (d ∷ ds, rw answered (rw s (rw run refl)), rw o (ground arith))

runs-Bounded :
    (inputs : List Bool) (c : ContactChannel) (stage : ClarificationStage) (n m : ℕ)
    → 1 ≤ m
    → Bounded (at c stage n m) inputs n m
unfolding decisions retries
runs-Bounded [] c stage n m h = ([], refl, inl refl)
runs-Bounded (clear ∷ rest) c stage n m h =
    step-Bounded c stage n m clear rest (evaluate_answers c stage n m clear h)
      (λ stage' k. runs-Bounded rest c stage' k m h)

made :
    (limit : ℤ) (c : ContactChannel) (s : ClarificationState)
    → new_state c (pos 0) ClarificationStage.initial limit ≡ ok s
    → (m : ℕ) × (limit ≡ pos m) × (1 ≤ m) × (s ≡ at c ClarificationStage.initial 0 m)
unfolding new_state
made (pos m) c s h = (m, refl, ground arith, ground arith)
made (negsuc m) c s h = absurd (ground arith)

few : (m r : ℕ) → 1 ≤ m → (r ≡ 0) ⊎ (0 + r < m) → r < m
few m r low bound = omega arith

-- A session is bounded: from the state that `new_session` returns, whatever the turns bring, clear or
-- not, no turn raises and the caller is asked again less often than the configured maximum says.
pub new_session_bounded :
    (config : MachineConfig) (c : ContactChannel) (s : ClarificationState) (inputs : List Bool)
    → new_session config c ≡ ok s
    → (m : ℕ) × (max_for config c ≡ pos m)
      × (ds : List ClarificationDecision) × (decisions s inputs ≡ ok ds)
      × (retries ds < m)
unfolding new_session
new_session_bounded config c s inputs h =
    let (m, limit, low, fresh) = made (max_for config c) c s h in
    let (ds, run, bound) = runs-Bounded inputs c ClarificationStage.initial 0 m low in
    (m, limit, ds, rw fresh run, few m (retries ds) low bound)
