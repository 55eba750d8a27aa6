-- ===== src/Graph/Flow.antt =====
-- The compiled graph (app/graph/copilot_graph.py): the nodes, the routes between them
-- (`route_after_…` of app/graph/nodes), and a run.
pub mod Retries
pub mod Termination
pub mod Ready
pub mod Safety
pub mod Bounds
pub mod Answers
pub mod Policies
use conversational_copil.Prelude.{
  ℕ, zero, suc, ◌+◌, Bool, true, false, not, ◌&&◌, ◌||◌, Option, none, some, String, if◌then◌else◌,
  ltb, truthy,
}
use conversational_copil.Graph.State.{Route, PlanStatus, Cause, Answer, CopilotState}
use conversational_copil.Graph.Agents.{Attempt, returned, raised, Agents, Services}
use conversational_copil.Graph.Deps.{Settings, Deps}
use conversational_copil.Graph.Nodes.{Node}
use conversational_copil.Graph.Context.{reset_turn_state, load_context, save_turn}
use conversational_copil.Graph.Intent.{classify_intent}
use conversational_copil.Graph.Lookup.{resolve_lookup_entities, clarify_from_lookup}
use conversational_copil.Graph.Planning.{
  make_plan, unsupported_from_plan, clarify_from_plan, is_identity,
}
use conversational_copil.Graph.Execution.{
  validate_sql_node, execute_sql_node, retry_sql, execute_error, analyze_result_node, synthesize,
}
use conversational_copil.Graph.Responses.{
  answer_from_previous_node, glossary_answer, smalltalk_answer, out_of_scope_answer,
}

unfoldable pub visit : Deps → Agents → Node → CopilotState → Attempt CopilotState
visit d w Node.reset_turn_state s = returned (reset_turn_state s)
visit d w Node.load_context s = load_context d w s
visit d w Node.classify_intent s = classify_intent d w s
visit d w Node.answer_from_previous s = answer_from_previous_node d w s
visit d w Node.glossary_answer s = glossary_answer d w s
visit d w Node.smalltalk_answer s = smalltalk_answer d w s
visit d w Node.resolve_lookup_entities s = resolve_lookup_entities d w s
visit d w Node.clarify_from_lookup s = clarify_from_lookup d s
visit d w Node.out_of_scope_answer s = out_of_scope_answer d s
visit d w Node.make_plan s = make_plan d w s
visit d w Node.unsupported_from_plan s = unsupported_from_plan d s
visit d w Node.clarify_from_plan s = clarify_from_plan d w s
visit d w Node.validate_sql s = validate_sql_node d s
visit d w Node.execute_sql s = execute_sql_node d w s
visit d w Node.analyze_result s = analyze_result_node d w s
visit d w Node.retry_sql s = retry_sql s
visit d w Node.execute_error s = execute_error d s
visit d w Node.synthesize s = synthesize d s
visit d w Node.save_turn s = save_turn d s

-- with the map of the conditional edge: `clarify` goes to the resolver too
abbrev after_route : Option Route → Node
after_route (some Route.answer_from_previous) = Node.answer_from_previous
after_route (some Route.plan_sql) = Node.resolve_lookup_entities
after_route (some Route.glossary) = Node.glossary_answer
after_route (some Route.smalltalk) = Node.smalltalk_answer
after_route _ = Node.resolve_lookup_entities

unfoldable pub route_after_intent : CopilotState → Node
route_after_intent s = after_route s.route

abbrev is_plan_sql : Option Route → Bool
is_plan_sql (some Route.plan_sql) = true
is_plan_sql _ = false

abbrev is_missing : Option Answer → Bool
is_missing none = true
is_missing (some a) = false

unfoldable pub route_after_answer_from_previous : CopilotState → Node
route_after_answer_from_previous s =
    if is_plan_sql s.route && is_missing s.result
    then Node.resolve_lookup_entities
    else Node.save_turn

unfoldable pub route_after_lookup_resolution : CopilotState → Node
route_after_lookup_resolution s =
    if truthy s.out_of_scope_reason
    then Node.out_of_scope_answer
    else if s.lookup_needs_clarification
    then Node.clarify_from_lookup
    else Node.make_plan

abbrev causes_identity : Option Cause → Bool
causes_identity none = false
causes_identity (some c) = is_identity c

abbrev after_status : Option PlanStatus → CopilotState → Node
after_status (some PlanStatus.unsupported) s =
    if causes_identity s.unsupported_cause
    then Node.out_of_scope_answer
    else Node.unsupported_from_plan
after_status (some PlanStatus.needs_clarification) s = Node.clarify_from_plan
after_status _ s = if truthy s.sql then Node.validate_sql else Node.clarify_from_plan

unfoldable pub route_after_plan : CopilotState → Node
route_after_plan s = after_status s.plan_status s

unfoldable pub route_after_validate : Settings → CopilotState → Node
route_after_validate t s =
    if truthy s.out_of_scope_reason
    then Node.out_of_scope_answer
    else if not (truthy s.validation_error)
    then Node.execute_sql
    else if ltb s.retry_count t.max_sql_retries
    then Node.retry_sql
    else Node.execute_error

unfoldable pub route_after_execute : Settings → CopilotState → Node
route_after_execute t s =
    if not (truthy s.execution_error)
    then Node.analyze_result
    else if ltb s.retry_count t.max_sql_retries
    then Node.retry_sql
    else Node.execute_error

-- the edges, from the state that a node leaves; `none` is END
unfoldable pub next : Settings → Node → CopilotState → Option Node
unfolding route_after_intent route_after_answer_from_previous route_after_lookup_resolution
    route_after_plan route_after_validate route_after_execute
next t Node.reset_turn_state s = some Node.load_context
next t Node.load_context s = some Node.classify_intent
next t Node.classify_intent s = some (route_after_intent s)
next t Node.answer_from_previous s = some (route_after_answer_from_previous s)
next t Node.resolve_lookup_entities s = some (route_after_lookup_resolution s)
next t Node.make_plan s = some (route_after_plan s)
next t Node.validate_sql s = some (route_after_validate t s)
next t Node.retry_sql s = some Node.make_plan
next t Node.execute_sql s = some (route_after_execute t s)
next t Node.analyze_result s = some Node.synthesize
next t Node.save_turn s = none
next t _ s = some Node.save_turn

-- A run in progress, at a node with the state before it; one that has ended; or one that an exception
-- has ended.
pub data Run : Type 0 where
  at : Node → CopilotState → Run
  finished : CopilotState → Run
  failed : String → Run

abbrev pub arrive : Option Node → CopilotState → Run
arrive none s = finished s
arrive (some n) s = at n s

abbrev pub leave : Deps → Node → Attempt CopilotState → Run
leave d n (returned s) = arrive (next d.settings n s) s
leave d n (raised e) = failed e

-- One step, with the agents' answers at this visit.
unfoldable pub step : Deps → Agents → Run → Run
step d w (at n s) = leave d n (visit d w n s)
step d w (finished s) = finished s
step d w (failed e) = failed e

-- `fuel` steps, where `worlds k` answers at the k-th visit.
unfoldable pub run : Deps → (ℕ → Agents) → ℕ → ℕ → Run → Run
unfolding step
run d worlds zero k r = r
run d worlds (suc fuel) k r = run d worlds fuel (k + 1) (step d (worlds k) r)

abbrev pub start : CopilotState → Run
start s = at Node.reset_turn_state s

-- The runs that some answers of the agents lead to.
pub data Reach (d : Deps) (r : Run) : Run → Type 0 where
  here : Reach d r r
  then : {t : Run} (w : Agents) → Reach d r t → Reach d r (step d w t)
