-- ===== src/Graph/Execution.antt =====
-- Validation, execution and the answer (app/graph/nodes/execution_nodes.py), with
-- `build_analytics_response` of app/agents/answer_agent.py.
use conversational_copil.Prelude.{
  String, ◌<>◌, ◌+◌, Bool, true, false, not, ◌&&◌, List, Option, none, some, [], ◌∷◌, if◌then◌else◌,
  is_text, truthy, or_text, map,
}
use conversational_copil.Access.{carried, to_payload}
use conversational_copil.Payload.{
  Value, Items, nil, cons, object, array, end, keys, texts, get_field, set_field, is_full,
  is_the_text, sanitize_for_json, sanitize_items,
}
use conversational_copil.Entities.{public_lookup_context}
use conversational_copil.Graph.State.{ResultType, Answer, RowsPayload, CopilotState}
use conversational_copil.Graph.Agents.{
  Attempt, returned, raised, ◌>>=◌, SqlValidation, accepted, rejected, ShapeValidation, shape_ok,
  shape_rejected, Agents, Services,
}
use conversational_copil.Graph.Deps.{Deps, reasons, with_lookup}
use conversational_copil.Graph.Replies.{plain, build_error_response}

abbrev pub shape_checked : CopilotState → String → ShapeValidation → CopilotState
shape_checked s sql shape_ok = record s { sql = some sql; validation_error = none }
shape_checked s sql (shape_rejected feedback) = record s {
  sql = some sql;
  validation_error = some feedback;
}

abbrev pub checked : Services → CopilotState → SqlValidation → CopilotState
checked v s (rejected sql feedback) = record s {
  validation_error = some feedback;
  sql = if is_text sql then some sql else s.sql;
}
checked v s (accepted sql) = shape_checked s sql (v.validate_query_shape s.query sql)

unfoldable pub validate_sql_node : Deps → CopilotState → Attempt CopilotState
validate_sql_node d s = returned (checked d.services s (d.services.validate_sql s.sql))

abbrev pub executed : Services → CopilotState → Attempt RowsPayload → CopilotState
executed v s (returned r) =
    if truthy r.error
    then record s {
      execution_error = some (v.classify_sql_error (or_text r.error ""));
      rows_payload = some r;
    }
    else record s { rows_payload = some r; execution_error = none }
executed v s (raised e) = record s { execution_error = some (v.classify_sql_error e) }

-- `state["sql"]`
unfoldable pub execute_sql_node : Deps → Agents → CopilotState → Attempt CopilotState
execute_sql_node d w s = returned (executed d.services s (w.run_sql (or_text s.sql "")))

unfoldable pub retry_sql : CopilotState → Attempt CopilotState
retry_sql s = returned (record s { retry_count = s.retry_count + 1 })

-- the policies of the turn, put on a result
abbrev with_policies : CopilotState → Answer → Answer
with_policies s a = record a { policies = some (to_payload (map carried s.applied_policies)) }

unfoldable pub execute_error : Deps → CopilotState → Attempt CopilotState
unfolding reasons build_error_response with_lookup to_payload
execute_error d s =
    let reason =
      reasons (s.intent_reason ∷ s.plan_reason ∷ s.validation_error ∷ s.execution_error ∷ []) in
    let answer =
      if truthy s.execution_error
      then "I tried a couple of times but couldn't get an answer to that one. Please try again, or rephrase the question — sometimes narrowing the period or filters helps."
      else "I couldn't turn that question into a query I'm confident running, even after retrying. Could you rephrase it, or be a bit more specific about the metric, period, or filters you want?" in
    returned (record s {
      result =
          some (with_policies s (with_lookup s (build_error_response answer s.sql (some reason))));
    })

abbrev pub analyzed : CopilotState → Value → CopilotState
analyzed s analysis =
    let reason = reasons (s.intent_reason ∷ s.plan_reason ∷ []) in
    record s {
      analysis_result = some analysis;
      plan_reason = if is_text reason then some reason else s.plan_reason;
    }

unfoldable pub analyze_result_node : Deps → Agents → CopilotState → Attempt CopilotState
analyze_result_node d w s =
    w.analyze_sql_result s.query (or_text s.sql "") s.rows_payload s.intent_reason s.plan_reason
      (public_lookup_context s.lookup_plan s.lookup_context)
    >>= λ analysis. returned (analyzed s analysis)

abbrev no_payload : RowsPayload
no_payload = record {
  columns = [];
  rows = nil;
  row_limit = none;
  truncated = false;
  error = none;
  raw_text = "";
  truncation_note = none;
}

abbrev payload_of : Option RowsPayload → RowsPayload
payload_of none = no_payload
payload_of (some r) = r

abbrev pub no_rows : Items → Bool
no_rows nil = true
no_rows (cons x xs) = false

abbrev analysis_of : Option Value → Value
analysis_of none = object end
analysis_of (some a) = a

-- the columns of the first row
abbrev first_keys : Items → List String
first_keys (cons (object fs) xs) = keys fs
first_keys _ = []

abbrev columns_or : List String → Items → List String
columns_or [] rows = first_keys rows
columns_or (c ∷ cs) rows = c ∷ cs

-- a table that names no columns is given those of the rows
unfoldable pub with_columns : List String → Items → Value → Value
unfolding get_field set_field keys texts
with_columns columns rows (object fs) =
    if is_the_text "table" (get_field "chart_type" fs) && not (is_full (get_field "columns" fs))
    then object (set_field "columns" (array (texts (columns_or columns rows))) fs)
    else object fs
with_columns columns rows v = v

abbrev pub sanitized_chart : Option Value → Option Value
sanitized_chart none = none
sanitized_chart (some c) = some (sanitize_for_json c)

unfoldable pub build_analytics_response : Deps → String → RowsPayload → String → Value → Answer
unfolding plain build_error_response reasons sanitize_for_json with_columns
build_analytics_response d sql r reason analysis =
    let v = d.services in
    let rows = v.clean_rows d.settings.max_result_preview_rows r.columns r.rows in
    if truthy r.error
    then build_error_response
        "Something went wrong while running that request, so I couldn't get an answer this time. Please try again, and if it keeps happening, try rephrasing or simplifying the question."
        (some sql)
        (some (reasons (some reason ∷ some ("Execution error: " <> or_text r.error "") ∷ [])))
    else if no_rows r.rows
    then (if v.looks_like_empty_result (v.strip r.raw_text)
        then record (plain ResultType.analytics (v.fallback_empty_answer sql) (some sql)
            (some reason)) { analysis = some analysis }
        else build_error_response
            "I ran your request but had trouble reading the result, so I can't show it right now. Please try again in a moment, or rephrase the question."
            (some sql)
            (some
              (reasons (some reason ∷ some "Unrecognized result format from data service." ∷ []))))
    else (let shown = with_columns r.columns rows analysis in
        record (plain ResultType.analytics (v.compose_answer analysis rows) (some sql)
          (some reason)) {
            chart = sanitized_chart (v.make_chart sql shown r.columns rows);
            rows = sanitize_items rows;
            analysis = some (sanitize_for_json shown);
          })

unfoldable pub synthesize : Deps → CopilotState → Attempt CopilotState
unfolding reasons build_analytics_response with_lookup to_payload
synthesize d s =
    let reason = reasons (s.intent_reason ∷ s.plan_reason ∷ []) in
    let result =
      build_analytics_response d (or_text s.sql "") (payload_of s.rows_payload) reason
        (analysis_of s.analysis_result) in
    returned (record s { result = some (with_policies s (with_lookup s result)) })
