-- ===== src/Scenarios.antt =====
-- A small deployment: a service that accepts one statement, agents that answer at once, and callers of
-- both roles.
pub mod Examples
pub mod Matches
pub mod Sessions
pub mod Resolution
pub mod Dialogue
pub mod Registry
use conversational_copil.Prelude.{
  ℕ, zero, suc, ◌+◌, String, ◌≡◌, refl, subst, Bool, true, false, Option, none, some, List, [], ◌∷◌,
  if◌then◌else◌, is_text, str_eq, or_text, truthy, arith,
}
use conversational_copil.Access.{PrincipalContext}
use conversational_copil.Entities.{SlotStatus, ResolvedSlot, SlotOption, ResolutionPlan}
use conversational_copil.Payload.{Items, nil, cons, Value, null}
use conversational_copil.Graph.State.{
  ResultType, PlanStatus, Cause, Confidence, Answer, Message, RowsPayload, CopilotState, Route,
}
use conversational_copil.Graph.Agents.{
  Attempt, returned, raised, RawIntent, RawRoute, Relation, TurnDecision, PeriodSource, SqlPlan,
  WithheldMetric, Agents, SqlValidation, accepted, rejected, ShapeValidation, shape_ok,
  shape_rejected, Services, GuardLaws,
}
use conversational_copil.Database.Executor.{classify_sql_error}
use conversational_copil.Database.Reporting.{error_text}
use conversational_copil.Graph.Deps.{Settings, Deps}
use conversational_copil.Graph.Flow.{Run, at, finished, failed, run, step, Reach, then}

abbrev pub executive : PrincipalContext
executive = record { principal_id = "u-1"; role_level = "EXEC" }

abbrev pub manager : PrincipalContext
manager = record { principal_id = "u-2"; role_level = "HOD" }

-- The one statement that this service accepts.
abbrev pub good_sql : String
good_sql = "SELECT sum(units) FROM sales_daily WHERE day >= '2026-01-01'"

abbrev verdict : Bool → SqlValidation
verdict true = accepted good_sql
verdict false = rejected "" "unknown statement"

abbrev accept_one : Option String → SqlValidation
accept_one q = verdict (str_eq (or_text q "") good_sql)

abbrev pub services : Services
services = record {
  validate_sql = accept_one;
  validate_query_shape = λ query sql. shape_ok;
  references_period_table = λ q. true;
  has_period_filter = truthy;
  classify_sql_error = classify_sql_error;
  sanitize_sql = λ q. q;
  glossary_search = λ q n. [];
  relevant_schema_context = λ q n. "";
  schema_match_confidence = λ q hits. Confidence.high;
  withheld_for = λ query p.
      if str_eq p.role_level "EXEC"
      then some (record { requested = "net_sales"; substitute = none })
      else none;
  planner_context = λ r. "";
  is_terminal_lookup_failure_clarify = λ p. false;
  is_prior_assistant_clarification = λ p. false;
  looks_like_short_clarification_answer = λ q. false;
  history_without_active_clarification_window = λ h. h;
  build_clarification_followup_query = λ q h p. (q, false, none);
  dumps = λ a. a.answer;
  dumps_ids = λ t r. t;
  loads = λ text. none;
  strip = λ text. text;
  generic_fallback_clarification = λ hits. "Could you say more?";
  glossary_text = λ hits. "";
  glossary_payload = λ hits. nil;
  looks_like_empty_result = λ text. false;
  fallback_empty_answer = λ q. "No rows.";
  clean_rows = λ n columns rows. rows;
  compose_answer = λ v rows. "Done.";
  make_chart = λ q v columns rows. none;
}

abbrev feedback_of : SqlValidation → String
feedback_of (rejected sql feedback) = feedback
feedback_of (accepted sql) = "-"

feedback_said : (b : Bool) → is_text (feedback_of (verdict b)) ≡ true
feedback_said true = refl
feedback_said false = refl

pub services-GuardLaws : GuardLaws services
services-GuardLaws = record {
  rejection_said = λ q sql feedback h.
      subst (λ v. is_text (feedback_of v) ≡ true) h
        (feedback_said (str_eq (or_text q "") good_sql));
  shape_rejection_said = λ query sql feedback h. absurd (ground arith);
  error_said = error_text;
}

abbrev pub deps : PrincipalContext → Deps
deps p = record {
  principal = some p;
  settings = record { chat_history_limit = 12; max_sql_retries = 2; max_result_preview_rows = 50 };
  services = services;
}

abbrev pub sales_plan : SqlPlan
sales_plan = record {
  status = PlanStatus.answerable;
  sql = some good_sql;
  reason = "Units by day.";
  needs_clarification = false;
  clarification_question = none;
  unsupported_reason = none;
  missing_slots = [];
  unsupported_cause = Cause.not_answerable;
  period_source = PeriodSource.stated;
  period_label = some "2026";
}

-- A plan whose statement the validator does not accept.
abbrev pub bad_plan : SqlPlan
bad_plan = record sales_plan { sql = some "DROP TABLE sales_daily" }

abbrev pub rows : RowsPayload
rows = record {
  columns = "sum" ∷ [];
  rows = cons (Value.integer "7") nil;
  row_limit = some 50;
  truncated = false;
  error = none;
  raw_text = "7";
  truncation_note = none;
}

abbrev pub empty_plan : ResolutionPlan
empty_plan = record { status = SlotStatus.resolved; slots = [] }

-- Agents that plan with the given plan.
abbrev pub planning : SqlPlan → Agents
planning p = record {
  decide_turn = λ q a. raised "no model";
  classify = λ q h hits. returned (record {
    intent = RawIntent.analytics;
    route = RawRoute.plan_sql;
    reason = "A question about sales.";
    is_followup = false;
    resolved_term = none;
    entity_phrases = [];
  });
  generate_plan = λ r. returned p;
  resolve = λ r.
      returned
        (record { plan = empty_plan; needs_clarification = false; clarification_question = none });
  answer_from_previous = λ q a h. raised "no model";
  explain_glossary_term = λ q hits c r. raised "no model";
  generate_smalltalk_answer = λ q h hits r. raised "no model";
  generate_clarification = λ r. raised "no model";
  run_sql = λ q. returned rows;
  analyze_sql_result = λ q sql p a b c. returned Value.null;
}

abbrev pub question : CopilotState
question = record {
  principal = none;
  query = "How many units did we sell in 2026?";
  original_query = none;
  clarification_followup = false;
  clarification_followup_reason = none;
  inherits_previous_filters = false;
  inherits_entity_filters = false;
  inherits_time_period = false;
  contextual_rewrite = none;
  contextual_followup_reason = none;
  clarification_selected_option = none;
  thread_id = "t-1";
  request_id = some "r-1";
  history = [];
  glossary_hits = [];
  glossary_context = "";
  schema_match_confidence = Confidence.high;
  intent = none;
  route = none;
  intent_reason = none;
  is_followup = false;
  resolved_term = none;
  entity_phrases = none;
  previous_assistant_payload = none;
  lookup_matches = [];
  lookup_context = "";
  lookup_plan = none;
  lookup_needs_clarification = false;
  lookup_clarification_question = none;
  sql = none;
  plan_status = none;
  plan_reason = none;
  needs_clarification = false;
  clarification_question = none;
  unsupported_reason = none;
  unsupported_cause = none;
  missing_slots = [];
  validation_error = none;
  execution_error = none;
  retry_count = 0;
  sql_attempts = [];
  rows_payload = none;
  analysis_result = none;
  out_of_scope_reason = none;
  out_of_scope_code = none;
  applied_policies = [];
  result = none;
  error = none;
}

abbrev pub sample_answer : Answer
sample_answer = record {
  kind = ResultType.clarify;
  answer = "Which period?";
  chart = none;
  rows = nil;
  sql = none;
  glossary_matches = nil;
  intent_reason = none;
  analysis = none;
  lookup_matches = none;
  lookup_context = none;
  lookup_plan = none;
  policies = none;
  answer_source = none;
  denied_reason = none;
  thread_id = none;
  request_id = none;
}

abbrev pub store_slot : ResolvedSlot
store_slot = record {
  slot_id = "slot-1";
  phrase = "central park";
  entity_class = "store";
  target_column = "store_key";
  status = SlotStatus.resolved;
  canonical_value = some "S-0042";
  display_value = some "Central Park";
  category_key = none;
  opco_code = none;
  options = [];
  alternate_columns = [];
}

-- The state in which a run stands, if it has not failed.
abbrev pub state_of : Run → CopilotState
state_of (at n s) = s
state_of (finished s) = s
state_of (failed e) = question

-- A run is reached.
unfoldable pub Reach-run :
    (d : Deps) (worlds : ℕ → Agents) (n k : ℕ) {r t : Run}
    → Reach d r t
    → Reach d r (run d worlds n k t)
unfolding run
Reach-run d worlds zero k p = p
Reach-run d worlds (suc n) k p = Reach-run d worlds n (k + 1) ((then) (worlds k) p)
