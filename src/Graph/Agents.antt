-- ===== src/Graph/Agents.antt =====
-- What the nodes call: the language-model workers and the database, whose answers may differ at each
-- visit of a node (`Agents`), and the parts of the program that compute (`Services`).
-- A call that raises in the source returns `raised`.
use conversational_copil.Prelude.{ℕ, String, Bool, true, Option, List, ◌≡◌, is_text}
use conversational_copil.Access.{PrincipalContext}
use conversational_copil.Entities.{ResolutionPlan}
use conversational_copil.Payload.{Value, Items}
use conversational_copil.Graph.State.{
  PlanStatus, Route, Cause, Confidence, Answer, Message, GlossaryHit, RowsPayload,
}

pub data Attempt {ℓ} (A : Type ℓ) : Type ℓ where
  returned : A → Attempt A
  raised : String → Attempt A

infixl 5 ◌>>=◌
abbrev pub ◌>>=◌ {ℓ κ} : {A : Type ℓ} {B : Type κ} → Attempt A → (A → Attempt B) → Attempt B
returned a >>= f = f a
raised e >>= f = raised e

-- `RawIntentDecision` of app/agents/intent_agent.py: either field may hold the other's values.
pub data RawIntent : Type 0 where
  analytics glossary smalltalk clarify answer_from_previous plan_sql : RawIntent

pub data RawRoute : Type 0 where
  answer_from_previous plan_sql glossary smalltalk clarify analytics : RawRoute

pub record RawIntentDecision : Type 0 where
  pub intent : RawIntent
  pub route : RawRoute
  pub reason : String
  pub is_followup : Bool
  pub resolved_term : Option String
  pub entity_phrases : List String

pub data Intent : Type 0 where
  analytics glossary smalltalk clarify : Intent

pub record IntentDecision : Type 0 where
  pub intent : Intent
  pub route : Route
  pub reason : String
  pub is_followup : Bool
  pub resolved_term : Option String
  pub entity_phrases : Option (List String)

-- `ConversationTurnDecision` of app/agents/conversation_turn_agent.py.
pub data Relation : Type 0 where
  new_question clarification_answer not_applicable : Relation

pub record TurnDecision : Type 0 where
  pub relation_to_previous_clarification : Relation
  pub reuse_previous_clarification : Bool
  pub inherits_previous_filters : Bool
  pub inherits_entity_filters : Bool
  pub inherits_time_period : Bool
  pub contextual_rewrite : Option String
  pub reason : String

-- `SqlPlan` of app/agents/planner_agent.py.
pub data PeriodSource : Type 0 where
  stated assumed no_period : PeriodSource

pub record SqlPlan : Type 0 where
  pub status : PlanStatus
  pub sql : Option String
  pub reason : String
  pub needs_clarification : Bool
  pub clarification_question : Option String
  pub unsupported_reason : Option String
  pub missing_slots : List String
  pub unsupported_cause : Cause
  pub period_source : PeriodSource
  pub period_label : Option String

pub record PlanRequest : Type 0 where
  pub query : String
  pub chat_history : List Message
  pub glossary_context : String
  pub resolved_term : Option String
  pub previous_sql : Option String
  pub previous_rows : Items
  pub retry_reason : Option String
  pub schema_match_confidence : Confidence
  pub lookup_context : String
  pub is_followup : Bool
  pub principal : Option PrincipalContext

-- `WithheldMetric` of app/service/metric_service.py, by the keys of its two metrics; a substitute
-- comes with whether it needs money itself.
pub record WithheldMetric : Type 0 where
  pub requested : String
  pub substitute : Option (String × Bool)

pub record ResolveRequest : Type 0 where
  pub query : String
  pub principal : PrincipalContext
  pub previous_plan : Option ResolutionPlan
  pub selected_option : Option String
  pub entity_phrases : Option (List String)

-- `ResolutionResult`; its spans are not read by the graph.
pub record Resolved : Type 0 where
  pub plan : ResolutionPlan
  pub needs_clarification : Bool
  pub clarification_question : Option String

-- `PreviousAnswerResponse`, with the chart that the node makes of it.
pub record PreviousAnswer : Type 0 where
  pub answer : String
  pub should_replan : Bool
  pub replan_reason : Option String
  pub chart : Items → Option Value

pub record ClarifyRequest : Type 0 where
  pub query : String
  pub chat_history : List Message
  pub glossary_hits : List GlossaryHit
  pub glossary_context : String
  pub resolved_term : Option String
  pub intent_reason : Option String
  pub plan_reason : Option String
  pub planner_question : Option String

pub record Clarification : Type 0 where
  pub clarification_question : String
  pub reason : String

pub record Agents : Type 0 where
  pub decide_turn : String → Answer → Attempt TurnDecision
  pub classify : String → List Message → List GlossaryHit → Attempt RawIntentDecision
  pub generate_plan : PlanRequest → Attempt SqlPlan
  pub resolve : ResolveRequest → Attempt Resolved
  pub answer_from_previous : String → Option Answer → List Message → Attempt PreviousAnswer
  pub explain_glossary_term : String → List GlossaryHit → String → Option String → Attempt String
  pub generate_smalltalk_answer :
      String → List Message → List GlossaryHit → Option String → Attempt String
  pub generate_clarification : ClarifyRequest → Attempt Clarification
  pub run_sql : String → Attempt RowsPayload
  pub analyze_sql_result :
      String → String → Option RowsPayload → Option String → Option String → String → Attempt Value

-- The outcome of a check of a statement: rejected with feedback, with the statement as far as it was
-- normalised, or accepted with its normal form.
pub data SqlValidation : Type 0 where
  accepted : String → SqlValidation
  rejected : String → String → SqlValidation

pub data ShapeValidation : Type 0 where
  shape_ok : ShapeValidation
  shape_rejected : String → ShapeValidation

pub record Services : Type 0 where
  -- app/agents/sql_validator_agent.py, app/service/query_shape_guard.py,
  -- app/graph/helpers/sql_guards.py, app/service/sql_executor.py, app/agents/planner_agent.py
  pub validate_sql : Option String → SqlValidation
  pub validate_query_shape : String → String → ShapeValidation
  pub references_period_table : Option String → Bool
  pub has_period_filter : Option String → Bool
  pub classify_sql_error : String → String
  pub sanitize_sql : String → String
  -- app/service/glossary_service.py, app/service/metric_service.py, app/utils/schema_utils.py
  pub glossary_search : String → ℕ → List GlossaryHit
  pub relevant_schema_context : String → ℕ → String
  pub schema_match_confidence : String → List GlossaryHit → Confidence
  pub withheld_for : String → PrincipalContext → Option WithheldMetric
  pub planner_context : Resolved → String
  -- app/policies/clarification_policy.py
  pub is_terminal_lookup_failure_clarify : Option Answer → Bool
  pub is_prior_assistant_clarification : Option Answer → Bool
  pub looks_like_short_clarification_answer : String → Bool
  pub history_without_active_clarification_window : List Message → List Message
  pub build_clarification_followup_query :
      String → List Message → Option Answer → String × Bool × Option String
  -- `json.dumps` and `json.loads`, and app/agents/answer_agent.py
  pub dumps : Answer → String
  pub dumps_ids : String → Option String → String
  pub loads : String → Option Answer
  pub strip : String → String
  pub generic_fallback_clarification : List GlossaryHit → String
  pub glossary_text : List GlossaryHit → String
  pub glossary_payload : List GlossaryHit → Items
  pub looks_like_empty_result : String → Bool
  pub fallback_empty_answer : String → String
  pub clean_rows : ℕ → List String → Items → Items
  pub compose_answer : Value → Items → String
  pub make_chart : String → Value → List String → Items → Option Value

-- What the guards give back: a rejection says why, and an error has a text. The routes read these
-- texts as the verdict.
pub record GuardLaws (v : Services) : Type 0 where
  pub rejection_said :
      (q : Option String) (sql feedback : String)
      → v.validate_sql q ≡ rejected sql feedback
      → is_text feedback ≡ true
  pub shape_rejection_said :
      (query sql feedback : String)
      → v.validate_query_shape query sql ≡ shape_rejected feedback
      → is_text feedback ≡ true
  pub error_said : (e : String) → is_text (v.classify_sql_error e) ≡ true
