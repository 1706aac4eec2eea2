-- ===== src/Vocabulary.antt =====
-- The enumerations of app/core/constants.py, their string values, and the lookup of a member by its
-- value, as `ConversationState(value)` does.
use mathlib.Core.Path.{subst}
use text.Mathlib.TextEquality.{eq_iff}
use call_forge.Prelude.{
  String, ◌≡◌, refl, Option, none, some, List, [], ◌∷◌, Eq, eq_by, ◌==◌, if◌then◌else◌, string_eq,
  some_injective, Bool-cases, inl, inr,
}

pub data ConversationState : Type 0 where
  new_call greeting identify_person check_history introduce : ConversationState
  follow_up reason_for_call listen handle_question explore_alternative : ConversationState
  collect_email confirm_contact schedule_callback identify_decision_maker : ConversationState
  end_call : ConversationState

pub data AgentAction : Type 0 where
  greet ask_identity introduce_reason answer_question offer_service ask_email : AgentAction
  confirm_contact clarify_contact schedule_callback mark_dnc end_call : AgentAction

pub data TopicCategory : Type 0 where
  business_question service_discussion objection callback contact_collection : TopicCategory
  commercial_request qualification off_topic unknown : TopicCategory

pub data CommercialRequestKind : Type 0 where
  pricing_disclosure discount custom_pricing quotation scope_change : CommercialRequestKind
  guarantee contractual_commitment : CommercialRequestKind

unfoldable pub ConversationState-discrete : Discrete ConversationState
ConversationState-discrete = hlevel

unfoldable pub AgentAction-discrete : Discrete AgentAction
AgentAction-discrete = hlevel

unfoldable pub TopicCategory-discrete : Discrete TopicCategory
TopicCategory-discrete = hlevel

unfoldable pub CommercialRequestKind-discrete : Discrete CommercialRequestKind
CommercialRequestKind-discrete = hlevel

instance abbrev pub conversation_state_eq : Eq ConversationState
conversation_state_eq = eq_by ConversationState-discrete

instance abbrev pub agent_action_eq : Eq AgentAction
agent_action_eq = eq_by AgentAction-discrete

instance abbrev pub topic_category_eq : Eq TopicCategory
topic_category_eq = eq_by TopicCategory-discrete

instance abbrev pub commercial_request_kind_eq : Eq CommercialRequestKind
commercial_request_kind_eq = eq_by CommercialRequestKind-discrete

-- `Enum(value)`: the first member whose value is the text.
unfoldable pub find_by_value {ℓ} : {A : Type ℓ} → (A → String) → List A → String → Option A
find_by_value value [] v = none
find_by_value value (a ∷ rest) v = if value a == v then some a else find_by_value value rest v

pub value-find_by_value {ℓ} :
    {A : Type ℓ} (value : A → String) (members : List A) (v : String) {a : A}
    → find_by_value value members v ≡ some a
    → value a ≡ v
unfolding find_by_value
value-find_by_value value [] v h = cc
value-find_by_value value (b ∷ rest) v {a} h = elim (Bool-cases (value b == v)) [
  | inl same ↦
      subst (λ x. value x ≡ v) (some_injective b a (rw same at h)) ((eq_iff (value b) v).0 same)
  | inr other ↦ value-find_by_value value rest v (rw other at h)
]

unfoldable pub state_value : ConversationState → String
state_value new_call = "new_call"
state_value greeting = "greeting"
state_value identify_person = "identify_person"
state_value check_history = "check_history"
state_value introduce = "introduce"
state_value follow_up = "follow_up"
state_value reason_for_call = "reason_for_call"
state_value listen = "listen"
state_value handle_question = "handle_question"
state_value explore_alternative = "explore_alternative"
state_value collect_email = "collect_email"
state_value confirm_contact = "confirm_contact"
state_value schedule_callback = "schedule_callback"
state_value identify_decision_maker = "identify_decision_maker"
state_value end_call = "end_call"

abbrev state_members : List ConversationState
state_members =
    new_call ∷ greeting ∷ identify_person ∷ check_history ∷ introduce ∷ follow_up ∷ reason_for_call
    ∷ listen ∷ handle_question ∷ explore_alternative ∷ collect_email ∷ confirm_contact
    ∷ schedule_callback ∷ identify_decision_maker ∷ end_call ∷ []

unfoldable pub to_state : String → Option ConversationState
unfolding state_value find_by_value
to_state = find_by_value state_value state_members

-- Every member is found by its value.
pub to_state-state_value : (x : ConversationState) → to_state (state_value x) ≡ some x
unfolding to_state
to_state-state_value new_call = refl
to_state-state_value greeting = refl
to_state-state_value identify_person = refl
to_state-state_value check_history = refl
to_state-state_value introduce = refl
to_state-state_value follow_up = refl
to_state-state_value reason_for_call = refl
to_state-state_value listen = refl
to_state-state_value handle_question = refl
to_state-state_value explore_alternative = refl
to_state-state_value collect_email = refl
to_state-state_value confirm_contact = refl
to_state-state_value schedule_callback = refl
to_state-state_value identify_decision_maker = refl
to_state-state_value end_call = refl

-- A text that is parsed is the value of the member that it gives.
pub state_value-to_state :
    (v : String) {x : ConversationState} → to_state v ≡ some x → state_value x ≡ v
unfolding to_state
state_value-to_state v h = value-find_by_value state_value state_members v h

unfoldable pub action_value : AgentAction → String
action_value greet = "greet"
action_value ask_identity = "ask_identity"
action_value introduce_reason = "introduce_reason"
action_value answer_question = "answer_question"
action_value offer_service = "offer_service"
action_value ask_email = "ask_email"
action_value confirm_contact = "confirm_contact"
action_value clarify_contact = "clarify_contact"
action_value schedule_callback = "schedule_callback"
action_value mark_dnc = "mark_dnc"
action_value end_call = "end_call"

abbrev action_members : List AgentAction
action_members =
    greet ∷ ask_identity ∷ introduce_reason ∷ answer_question ∷ offer_service ∷ ask_email
    ∷ confirm_contact ∷ clarify_contact ∷ schedule_callback ∷ mark_dnc ∷ end_call ∷ []

unfoldable pub to_action : String → Option AgentAction
unfolding action_value find_by_value
to_action = find_by_value action_value action_members

-- Every member is found by its value.
pub to_action-action_value : (x : AgentAction) → to_action (action_value x) ≡ some x
unfolding to_action
to_action-action_value greet = refl
to_action-action_value ask_identity = refl
to_action-action_value introduce_reason = refl
to_action-action_value answer_question = refl
to_action-action_value offer_service = refl
to_action-action_value ask_email = refl
to_action-action_value confirm_contact = refl
to_action-action_value clarify_contact = refl
to_action-action_value schedule_callback = refl
to_action-action_value mark_dnc = refl
to_action-action_value end_call = refl

-- A text that is parsed is the value of the member that it gives.
pub action_value-to_action :
    (v : String) {x : AgentAction} → to_action v ≡ some x → action_value x ≡ v
unfolding to_action
action_value-to_action v h = value-find_by_value action_value action_members v h

unfoldable pub topic_value : TopicCategory → String
topic_value business_question = "business_question"
topic_value service_discussion = "service_discussion"
topic_value objection = "objection"
topic_value callback = "callback"
topic_value contact_collection = "contact_collection"
topic_value commercial_request = "commercial_request"
topic_value qualification = "qualification"
topic_value off_topic = "off_topic"
topic_value unknown = "unknown"

abbrev topic_members : List TopicCategory
topic_members =
    business_question ∷ service_discussion ∷ objection ∷ callback ∷ contact_collection
    ∷ commercial_request ∷ qualification ∷ off_topic ∷ unknown ∷ []

unfoldable pub to_topic : String → Option TopicCategory
unfolding topic_value find_by_value
to_topic = find_by_value topic_value topic_members

-- Every member is found by its value.
pub to_topic-topic_value : (x : TopicCategory) → to_topic (topic_value x) ≡ some x
unfolding to_topic
to_topic-topic_value business_question = refl
to_topic-topic_value service_discussion = refl
to_topic-topic_value objection = refl
to_topic-topic_value callback = refl
to_topic-topic_value contact_collection = refl
to_topic-topic_value commercial_request = refl
to_topic-topic_value qualification = refl
to_topic-topic_value off_topic = refl
to_topic-topic_value unknown = refl

-- A text that is parsed is the value of the member that it gives.
pub topic_value-to_topic :
    (v : String) {x : TopicCategory} → to_topic v ≡ some x → topic_value x ≡ v
unfolding to_topic
topic_value-to_topic v h = value-find_by_value topic_value topic_members v h

unfoldable pub commercial_kind_value : CommercialRequestKind → String
commercial_kind_value pricing_disclosure = "pricing_disclosure"
commercial_kind_value discount = "discount"
commercial_kind_value custom_pricing = "custom_pricing"
commercial_kind_value quotation = "quotation"
commercial_kind_value scope_change = "scope_change"
commercial_kind_value guarantee = "guarantee"
commercial_kind_value contractual_commitment = "contractual_commitment"

abbrev commercial_kind_members : List CommercialRequestKind
commercial_kind_members =
    pricing_disclosure ∷ discount ∷ custom_pricing ∷ quotation ∷ scope_change ∷ guarantee
    ∷ contractual_commitment ∷ []

unfoldable pub to_commercial_kind : String → Option CommercialRequestKind
unfolding commercial_kind_value find_by_value
to_commercial_kind = find_by_value commercial_kind_value commercial_kind_members

-- Every member is found by its value.
pub to_commercial_kind-commercial_kind_value :
    (x : CommercialRequestKind) → to_commercial_kind (commercial_kind_value x) ≡ some x
unfolding to_commercial_kind
to_commercial_kind-commercial_kind_value pricing_disclosure = refl
to_commercial_kind-commercial_kind_value discount = refl
to_commercial_kind-commercial_kind_value custom_pricing = refl
to_commercial_kind-commercial_kind_value quotation = refl
to_commercial_kind-commercial_kind_value scope_change = refl
to_commercial_kind-commercial_kind_value guarantee = refl
to_commercial_kind-commercial_kind_value contractual_commitment = refl

-- A text that is parsed is the value of the member that it gives.
pub commercial_kind_value-to_commercial_kind :
    (v : String) {x : CommercialRequestKind}
    → to_commercial_kind v ≡ some x
    → commercial_kind_value x ≡ v
unfolding to_commercial_kind
commercial_kind_value-to_commercial_kind v h =
    value-find_by_value commercial_kind_value commercial_kind_members v h
