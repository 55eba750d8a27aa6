-- ===== src/Graph/Plans.antt =====
-- Which plans go on to the database, and which are refused (`_normalize_plan`, `make_plan` and
-- `route_after_plan`).
use conversational_copil.Prelude.{◌≡◌, Bool, true, false, not, ◌&&◌, ◌||◌, arith, truthy}
use conversational_copil.Graph.State.{PlanStatus, CopilotState}
use conversational_copil.Graph.Agents.{SqlPlan, Services}
use conversational_copil.Graph.Nodes.{Node}
use conversational_copil.Graph.Planning.{
  normalize_plan, adopt_plan, ask_for_period, take_plan, fact_time_period_guard_question, sanitized,
  is_answerable, is_assumed, is_identity,
}
use conversational_copil.Graph.Flow.{route_after_plan}

-- Where a turn goes with the plan that the model gave.
abbrev pub destination : Services → CopilotState → SqlPlan → Node
destination v s p = route_after_plan (adopt_plan v s (normalize_plan v p))

abbrev pub is_validate : Node → Bool
is_validate Node.validate_sql = true
is_validate _ = false

abbrev pub is_refusal : Node → Bool
is_refusal Node.out_of_scope_answer = true
is_refusal _ = false

-- The model gave a statement to run.
abbrev pub gives_sql : Services → SqlPlan → Bool
gives_sql v p = is_answerable p.status && truthy (sanitized v p.sql)

abbrev pub is_unsupported : PlanStatus → Bool
is_unsupported PlanStatus.unsupported = true
is_unsupported _ = false

-- A plan goes on to validation exactly when the model calls the question answerable and gives a
-- statement, did not choose the period itself, and the statement has a period filter if it reads a
-- period-grained table. A period source of none counts as not choosing it.
pub validated_plans :
    (v : Services) (s : CopilotState) (p : SqlPlan)
    → is_validate (destination v s p) ≡ (
        gives_sql v p
        && (not (is_assumed p.period_source)
            && (not (v.references_period_table (sanitized v p.sql))
                || v.has_period_filter (sanitized v p.sql))))
unfolding route_after_plan adopt_plan ask_for_period take_plan normalize_plan
    fact_time_period_guard_question
validated_plans v s p = ground arith

-- A plan is refused as a question about individuals exactly when the model marked it so and it ends
-- unsupported: called so by the model, or called answerable with no statement.
pub refused_plans :
    (v : Services) (s : CopilotState) (p : SqlPlan)
    → is_refusal (destination v s p) ≡ (
        is_identity p.unsupported_cause
        && (is_unsupported p.status
            || (is_answerable p.status && not (truthy (sanitized v p.sql)))))
unfolding route_after_plan adopt_plan ask_for_period take_plan normalize_plan
    fact_time_period_guard_question
refused_plans v s p = ground arith
