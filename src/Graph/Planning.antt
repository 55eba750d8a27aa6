-- ===== src/Graph/Planning.antt =====
-- Planning of the SQL (app/graph/nodes/planning_nodes.py), with the corrections that `plan_sql` of
-- app/agents/planner_agent.py makes of the model's plan.
use conversational_copil.Prelude.{
  String, ◌<>◌, Bool, true, false, not, ◌&&◌, ◌||◌, Option, none, some, List, [], ◌∷◌, ◌++◌,
  if◌then◌else◌, is_text, truthy, or_text, or_else, elem_of, keep_if, map,
}
use conversational_copil.Access.{
  Effect, PolicyItem, built, carried, denial, to_payload, customer_identity,
}
use conversational_copil.Payload.{Items, nil}
use conversational_copil.Graph.State.{PlanStatus, Cause, Answer, CopilotState}
use conversational_copil.Graph.Agents.{
  Attempt, returned, raised, ◌>>=◌, PeriodSource, SqlPlan, PlanRequest, Clarification, Agents,
  Services,
}
use conversational_copil.Graph.Deps.{Deps, caller, reasons, with_lookup}
use conversational_copil.Graph.Replies.{build_clarify_response, build_unsupported_response}

abbrev pub sanitized : Services → Option String → Option String
sanitized v none = none
sanitized v (some sql) = if is_text sql then some (v.sanitize_sql sql) else some sql

-- an answerable plan with no SQL is unsupported
abbrev ground_plan : PlanStatus → SqlPlan → SqlPlan
ground_plan PlanStatus.answerable p = if truthy p.sql then p else record p {
  status = PlanStatus.unsupported;
  unsupported_reason = some (
      or_text p.unsupported_reason
        "The request could not be grounded in the available customer intelligence tables.");
  needs_clarification = false;
  clarification_question = none;
}
ground_plan _ p = p

abbrev settle_plan : PlanStatus → SqlPlan → SqlPlan
settle_plan PlanStatus.answerable p = record p { unsupported_cause = Cause.not_answerable }
settle_plan PlanStatus.needs_clarification p = record p {
  sql = none;
  unsupported_reason = none;
  needs_clarification = true;
  unsupported_cause = Cause.not_answerable;
}
settle_plan PlanStatus.unsupported p = record p {
  sql = none;
  needs_clarification = false;
  clarification_question = none;
}

unfoldable pub normalize_plan : Services → SqlPlan → SqlPlan
normalize_plan v p =
    let q = ground_plan p.status (record p { sql = sanitized v p.sql }) in settle_plan q.status q

abbrev period_question : String
period_question =
    "which period should I use? Every serving table is period-grained, so I need a date range, month, quarter, or year. Sales and daypart questions can use any date range; customer counts are available by whole month."

-- app/graph/helpers/sql_guards.py
unfoldable pub fact_time_period_guard_question : Services → Option String → Option String
fact_time_period_guard_question v sql =
    if not (v.references_period_table sql)
    then none
    else if v.has_period_filter sql
    then none
    else some period_question

abbrev pub payload_sql : Option Answer → Option String
payload_sql none = none
payload_sql (some p) = p.sql

abbrev pub payload_rows : Option Answer → Items
payload_rows none = nil
payload_rows (some p) = p.rows

unfoldable pub plan_request : Deps → CopilotState → PlanRequest
unfolding caller
plan_request d s =
    let retry = truthy s.validation_error || truthy s.execution_error in
    record {
      query = s.query;
      chat_history = s.history;
      glossary_context = s.glossary_context;
      resolved_term = s.resolved_term;
      previous_sql =
          if retry && truthy s.sql then s.sql else payload_sql s.previous_assistant_payload;
      previous_rows = payload_rows s.previous_assistant_payload;
      retry_reason = or_else s.validation_error (or_else s.execution_error s.plan_reason);
      schema_match_confidence = s.schema_match_confidence;
      lookup_context = s.lookup_context;
      is_followup = s.is_followup;
      principal = caller d s;
    }

abbrev pub is_assumed : PeriodSource → Bool
is_assumed PeriodSource.assumed = true
is_assumed _ = false

abbrev pub is_answerable : PlanStatus → Bool
is_answerable PlanStatus.answerable = true
is_answerable _ = false

abbrev pub is_identity : Cause → Bool
is_identity Cause.customer_identity = true
is_identity Cause.not_answerable = false

abbrev pub append_sql : List String → Option String → List String
append_sql attempts none = attempts
append_sql attempts (some sql) = if is_text sql then attempts ++ (sql ∷ []) else attempts

-- a plan that is not executed until the user has given a period
unfoldable pub ask_for_period : CopilotState → SqlPlan → String → String → CopilotState
ask_for_period s p reason question = record s {
  sql = none;
  plan_status = some PlanStatus.needs_clarification;
  plan_reason = some reason;
  needs_clarification = true;
  clarification_question = some question;
  unsupported_reason = none;
  unsupported_cause = some Cause.not_answerable;
  missing_slots = "time_period" ∷ [];
  sql_attempts = append_sql s.sql_attempts p.sql;
  validation_error = none;
  execution_error = none;
}

unfoldable pub take_plan : CopilotState → SqlPlan → CopilotState
take_plan s p = record s {
  sql = p.sql;
  plan_status = some p.status;
  plan_reason = some p.reason;
  needs_clarification = p.needs_clarification;
  clarification_question = p.clarification_question;
  unsupported_reason = p.unsupported_reason;
  unsupported_cause = some p.unsupported_cause;
  out_of_scope_reason = if is_identity p.unsupported_cause then p.unsupported_reason else none;
  out_of_scope_code = if is_identity p.unsupported_cause then some customer_identity else none;
  missing_slots = p.missing_slots;
  sql_attempts = append_sql s.sql_attempts p.sql;
  validation_error = none;
  execution_error = none;
}

abbrev assumed_reason : String → String
assumed_reason label =
    "The question did not state a time period, so the planner chose one ("
    <> ((if is_text label then label else "unspecified")
        <> "). Every serving table is period-grained; answering with an assumed period would report a real number for a question nobody asked.")

abbrev period_offer : String → String
period_offer label =
    if is_text label
    then " I can use "
      <> (label <> (" -- reply \"" <> (label <> "\" to confirm -- or give another period.")))
    else ""

abbrev assumed_question : String → String
assumed_question label =
    "Which time period would you like? Every table here is period-grained (daily for sales, monthly for customers), so there is no all-time total."
    <> period_offer label

abbrev unfiltered_reason : String
unfiltered_reason =
    "SQL planning produced a query with no period filter. Every serving table is period-grained, so execution is blocked rather than silently scanning all history."

-- what the node does with the corrected plan
unfoldable pub adopt_plan : Services → CopilotState → SqlPlan → CopilotState
adopt_plan v s p =
    let runnable = is_answerable p.status && truthy p.sql in
    let label = v.strip (or_text p.period_label "") in
    if runnable && is_assumed p.period_source
    then ask_for_period s p (assumed_reason label) (assumed_question label)
    else if runnable && truthy (fact_time_period_guard_question v p.sql)
    then ask_for_period s p unfiltered_reason (or_text (fact_time_period_guard_question v p.sql) "")
    else take_plan s p

unfoldable pub make_plan : Deps → Agents → CopilotState → Attempt CopilotState
make_plan d w s = w.generate_plan (plan_request d s) >>= λ p.
    returned (adopt_plan d.services s (normalize_plan d.services p))

abbrev is_substituted : Effect → Bool
is_substituted Effect.substituted = true
is_substituted Effect.denied = false

abbrev unsupported_policies : Deps → CopilotState → List PolicyItem
unsupported_policies d s =
    let kept = map carried (keep_if (λ n. not (is_substituted n.effect)) s.applied_policies) in
    elim s.unsupported_cause [
      | none ↦ kept
      | some cause ↦
          if is_identity cause
          then built (
              denial customer_identity
                (or_text s.unsupported_reason "That is outside your access scope.") (caller d s))
            ∷ kept
          else kept
    ]

unfoldable pub unsupported_from_plan : Deps → CopilotState → Attempt CopilotState
unfolding reasons build_unsupported_response caller denial to_payload
unsupported_from_plan d s =
    let reason = reasons (s.intent_reason ∷ s.plan_reason ∷ s.unsupported_reason ∷ []) in
    let answer =
      or_text s.unsupported_reason
        "I can’t answer that from the currently available customer intelligence tables." in
    let result = build_unsupported_response answer (some reason) in
    returned (record s {
      result = some (record result { policies = some (to_payload (unsupported_policies d s)) });
    })

-- the question and the reason: the planner's own on a missing period, else the clarifier's, else the
-- planner's again
abbrev asked : Deps → CopilotState → Attempt Clarification → String × String
asked d s (returned c) =
    (c.clarification_question, reasons (s.intent_reason ∷ s.plan_reason ∷ some c.reason ∷ []))
asked d s (raised e) = (
  or_text s.clarification_question (d.services.generic_fallback_clarification s.glossary_hits),
  reasons (s.intent_reason ∷ s.plan_reason ∷ []),
)

unfoldable pub clarify_from_plan : Deps → Agents → CopilotState → Attempt CopilotState
unfolding reasons build_clarify_response with_lookup
clarify_from_plan d w s =
    let (question, reason) =
      if elem_of "time_period" s.missing_slots && truthy s.clarification_question
      then (
        or_text s.clarification_question "",
        reasons (
            s.intent_reason
            ∷ s.plan_reason
            ∷ some "Monthly fact-table SQL requires an explicit reporting period."
            ∷ []),
      )
      else asked d s (
          w.generate_clarification (record {
            query = s.query;
            chat_history = s.history;
            glossary_hits = s.glossary_hits;
            glossary_context = s.glossary_context;
            resolved_term = s.resolved_term;
            intent_reason = s.intent_reason;
            plan_reason = s.plan_reason;
            planner_question = s.clarification_question;
          })) in
    returned
      (record s { result = some (with_lookup s (build_clarify_response question (some reason))) })
