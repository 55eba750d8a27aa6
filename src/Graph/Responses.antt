-- ===== src/Graph/Responses.antt =====
-- The terminals that answer without a query (app/graph/nodes/response_nodes.py).
use conversational_copil.Prelude.{
  String, ◌<>◌, Option, none, some, List, [], ◌∷◌, ◌++◌, if◌then◌else◌, is_text, or_text, map,
}
use conversational_copil.Access.{
  PrincipalContext, PolicyItem, built, carried, denial, to_payload, can_see_money, describe_scope,
}
use conversational_copil.Payload.{sanitize_for_json, sanitize_items}
use conversational_copil.Graph.State.{ResultType, Route, Answer, CopilotState}
use conversational_copil.Graph.Agents.{Attempt, returned, raised, ◌>>=◌, PreviousAnswer, Agents}
use conversational_copil.Graph.Deps.{Deps, caller}
use conversational_copil.Graph.Replies.{plain, build_glossary_response}
use conversational_copil.Graph.Planning.{payload_rows, payload_sql}
use conversational_copil.Graph.Execution.{sanitized_chart}

abbrev pub reanswered : CopilotState → PreviousAnswer → CopilotState
reanswered s r =
    if r.should_replan
    then record s {
      route = some Route.plan_sql;
      plan_reason = some (or_text r.replan_reason "Follow-up requires a fresh SQL query.");
    }
    else (let rows = sanitize_items (payload_rows s.previous_assistant_payload) in
        record s {
          result =
              some
                (record (plain ResultType.analytics r.answer
                  (payload_sql s.previous_assistant_payload) s.intent_reason) {
                    chart = sanitized_chart (sanitized_chart (r.chart rows));
                    rows = sanitize_items rows;
                  });
        })

unfoldable pub answer_from_previous_node : Deps → Agents → CopilotState → Attempt CopilotState
unfolding plain sanitize_for_json
answer_from_previous_node d w s =
    w.answer_from_previous s.query s.previous_assistant_payload s.history >>= λ r.
    returned (reanswered s r)

abbrev pub glossary_result : Deps → CopilotState → Attempt String → Answer
glossary_result d s (returned answer) = plain ResultType.glossary answer none s.intent_reason
glossary_result d s (raised e) = build_glossary_response d.services s.glossary_hits s.intent_reason

unfoldable pub glossary_answer : Deps → Agents → CopilotState → Attempt CopilotState
unfolding plain build_glossary_response
glossary_answer d w s = returned (record s {
  result = some (
      glossary_result d s
        (w.explain_glossary_term s.query s.glossary_hits s.glossary_context s.intent_reason));
})

abbrev smalltalk_fallback : String
smalltalk_fallback =
    "I can help with Customer Intelligence questions grounded in the configured Customer 360 serving tables and glossary. You can ask about customer counts, monthly trends, store or category performance, opco comparisons, payment/time-bucket behavior, customer drilldowns, or glossary definitions."

abbrev returned_or : Attempt String → String → String
returned_or (returned a) d = a
returned_or (raised e) d = d

unfoldable pub smalltalk_answer : Deps → Agents → CopilotState → Attempt CopilotState
unfolding plain
smalltalk_answer d w s =
    let answer =
      returned_or (w.generate_smalltalk_answer s.query s.history s.glossary_hits s.intent_reason)
        smalltalk_fallback in
    returned (record s { result = some (plain ResultType.smalltalk answer none s.intent_reason) })

abbrev scope_line : Option PrincipalContext → String
scope_line none = ""
scope_line (some p) = "\n\nYour current access: " <> (describe_scope p <> ".")

abbrev suggestion : Option PrincipalContext → String
suggestion none = ""
suggestion (some p) =
    if can_see_money p
    then ""
    else "\n\nI can still answer this using volume measures such as transactions, units, or customer counts if that is useful."

abbrev pub refusal_policies : Option PrincipalContext → String → Option String → List PolicyItem
refusal_policies p reason none = []
refusal_policies p reason (some code) =
    if is_text code then built (denial code reason p) ∷ [] else []

-- the result of a refusal
unfoldable pub refusal : Deps → CopilotState → Answer
unfolding plain caller describe_scope can_see_money denial to_payload
refusal d s =
    let p = caller d s in
    let reason = or_text s.out_of_scope_reason "That is outside your access scope." in
    record (plain ResultType.out_of_scope (reason <> (scope_line p <> suggestion p)) none
      s.intent_reason) {
        answer_source = some "out_of_scope";
        denied_reason = some reason;
        policies = some (
            to_payload
              (refusal_policies p reason s.out_of_scope_code ++ map carried s.applied_policies));
      }

unfoldable pub out_of_scope_answer : Deps → CopilotState → Attempt CopilotState
out_of_scope_answer d s = returned (record s { result = some (refusal d s) })
