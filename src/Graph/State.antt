-- ===== src/Graph/State.antt =====
-- The state of a turn (app/graph/copilot_state.py), the answer that a turn makes, and the history.
use conversational_copil.Prelude.{ℕ, String, Bool, Option, List}
use conversational_copil.Access.{PrincipalContext, Notice}
use conversational_copil.Entities.{ResolvedSlot, ResolutionPlan}
use conversational_copil.Payload.{Value, Items}

-- The `type` of a result.
pub data ResultType : Type 0 where
  analytics glossary clarify out_of_scope unsupported smalltalk error : ResultType

pub data Route : Type 0 where
  answer_from_previous plan_sql glossary smalltalk clarify : Route

pub data PlanStatus : Type 0 where
  answerable needs_clarification unsupported : PlanStatus

pub data Cause : Type 0 where
  customer_identity not_answerable : Cause

pub data Confidence : Type 0 where
  high medium low none_found : Confidence

-- The dictionary that a terminal node returns. A key that a node does not write is `none`.
pub record Answer : Type 0 where
  pub kind : ResultType
  pub answer : String
  pub chart : Option Value
  pub rows : Items
  pub sql : Option String
  pub glossary_matches : Items
  pub intent_reason : Option String
  pub analysis : Option Value
  pub lookup_matches : Option (List ResolvedSlot)
  pub lookup_context : Option String
  pub lookup_plan : Option ResolutionPlan
  pub policies : Option (List Notice)
  pub answer_source : Option String
  pub denied_reason : Option String
  pub thread_id : Option String
  pub request_id : Option String

pub data Role : Type 0 where
  user assistant : Role

-- A message of the history; its `created_at` and `extra` are not read by the program.
pub record Message : Type 0 where
  pub role : Role
  pub content : String

-- A row of the glossary, as far as the graph reads it.
pub record GlossaryHit : Type 0 where
  pub field_name : String
  pub description : String
  pub data_type : Option String
  pub sample_values : List String

-- `run_sql`'s payload.
pub record RowsPayload : Type 0 where
  pub columns : List String
  pub rows : Items
  pub row_limit : Option ℕ
  pub truncated : Bool
  pub error : Option String
  pub raw_text : String
  pub truncation_note : Option String

-- A key that the turn has not written, or that `reset_turn_state` has emptied, is `none`, `[]`,
-- `false`, "" or 0.
pub record CopilotState : Type 0 where
  pub principal : Option PrincipalContext
  pub query : String
  pub original_query : Option String
  pub clarification_followup : Bool
  pub clarification_followup_reason : Option String
  pub inherits_previous_filters : Bool
  pub inherits_entity_filters : Bool
  pub inherits_time_period : Bool
  pub contextual_rewrite : Option String
  pub contextual_followup_reason : Option String
  pub clarification_selected_option : Option String
  pub thread_id : String
  pub request_id : Option String
  pub history : List Message
  pub glossary_hits : List GlossaryHit
  pub glossary_context : String
  pub schema_match_confidence : Confidence
  pub intent : Option String
  pub route : Option Route
  pub intent_reason : Option String
  pub is_followup : Bool
  pub resolved_term : Option String
  pub entity_phrases : Option (List String)
  pub previous_assistant_payload : Option Answer
  pub lookup_matches : List ResolvedSlot
  pub lookup_context : String
  pub lookup_plan : Option ResolutionPlan
  pub lookup_needs_clarification : Bool
  pub lookup_clarification_question : Option String
  pub sql : Option String
  pub plan_status : Option PlanStatus
  pub plan_reason : Option String
  pub needs_clarification : Bool
  pub clarification_question : Option String
  pub unsupported_reason : Option String
  pub unsupported_cause : Option Cause
  pub missing_slots : List String
  pub validation_error : Option String
  pub execution_error : Option String
  pub retry_count : ℕ
  pub sql_attempts : List String
  pub rows_payload : Option RowsPayload
  pub analysis_result : Option Value
  pub out_of_scope_reason : Option String
  pub out_of_scope_code : Option String
  pub applied_policies : List Notice
  pub result : Option Answer
  pub error : Option String
