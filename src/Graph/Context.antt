-- ===== src/Graph/Context.antt =====
-- The first and the last nodes of a turn (app/graph/nodes/context_nodes.py): `reset_turn_state`,
-- `load_context` and `save_turn`.
use conversational_copil.Prelude.{
  ℕ, String, max, Bool, false, not, ◌&&◌, ◌||◌, Option, none, some, List, [], ◌∷◌, ◌++◌,
  if◌then◌else◌, is_text, truthy, or_text, ◌==◌, map,
}
use conversational_copil.Access.{carried, to_payload}
use conversational_copil.Entities.{ResolutionPlan}
use conversational_copil.Graph.State.{Answer, Message, Role, Cause, Confidence, CopilotState}
use conversational_copil.Graph.Agents.{Attempt, returned, TurnDecision, Agents, Services}
use conversational_copil.Graph.Deps.{Settings, Deps, last, parse_last_assistant_payload}
use conversational_copil.Graph.Turn.{decide_conversation_turn_relation, is_clarification_answer}

-- Everything but the history, the query, the caller and the ids is emptied.
unfoldable pub reset_turn_state : CopilotState → CopilotState
reset_turn_state s = record {
  principal = s.principal;
  query = s.query;
  original_query = none;
  clarification_followup = false;
  clarification_followup_reason = none;
  inherits_previous_filters = false;
  inherits_entity_filters = false;
  inherits_time_period = false;
  contextual_rewrite = none;
  contextual_followup_reason = none;
  clarification_selected_option = none;
  thread_id = s.thread_id;
  request_id = s.request_id;
  history = s.history;
  glossary_hits = [];
  glossary_context = "";
  schema_match_confidence = Confidence.none_found;
  intent = none;
  route = none;
  intent_reason = some "";
  is_followup = false;
  resolved_term = none;
  entity_phrases = none;
  previous_assistant_payload = none;
  lookup_matches = [];
  lookup_context = "";
  lookup_plan = none;
  lookup_needs_clarification = false;
  lookup_clarification_question = none;
  sql = none;
  plan_status = none;
  plan_reason = none;
  needs_clarification = false;
  clarification_question = none;
  unsupported_reason = none;
  unsupported_cause = some Cause.not_answerable;
  missing_slots = [];
  validation_error = none;
  execution_error = none;
  retry_count = 0;
  sql_attempts = [];
  rows_payload = none;
  analysis_result = none;
  out_of_scope_reason = none;
  out_of_scope_code = none;
  applied_policies = [];
  result = none;
  error = none;
}

abbrev payload_plan : Option Answer → Option ResolutionPlan
payload_plan none = none
payload_plan (some p) = p.lookup_plan

abbrev or_reason : Option String → String → Option String
or_reason o d = if truthy o then o else some d

-- What `load_context` makes of the turn's decision.
pub record Carryover : Type 0 where
  pub terminal_failure : Bool
  pub reuse : Bool
  pub abandoned : Bool

unfoldable pub carryover : Services → Option Answer → TurnDecision → String → Carryover
carryover v previous decision raw =
    let terminal = v.is_terminal_lookup_failure_clarify previous in
    let pending = v.is_prior_assistant_clarification previous in
    let short = pending && (not terminal && v.looks_like_short_clarification_answer raw) in
    let reuse =
      short
      || (decision.reuse_previous_clarification
          && is_clarification_answer decision.relation_to_previous_clarification) in
    record {
      terminal_failure = terminal;
      reuse = reuse;
      abandoned = terminal || (pending && not reuse);
    }

unfoldable pub load_context : Deps → Agents → CopilotState → Attempt CopilotState
unfolding carryover last parse_last_assistant_payload decide_conversation_turn_relation
load_context d w s =
    let v = d.services in
    let history = last d.settings.chat_history_limit s.history in
    let previous = parse_last_assistant_payload v.loads history in
    let decision = decide_conversation_turn_relation v w s.query previous in
    let c = carryover v previous decision s.query in
    let (query, followup, reason) =
      v.build_clarification_followup_query s.query history
        (if c.reuse && not c.terminal_failure then previous else none) in
    let inherits_entities = decision.inherits_entity_filters && not c.abandoned in
    let hits = v.glossary_search query 10 in
    returned (record s {
      query = query;
      original_query = some s.query;
      clarification_followup = followup;
      clarification_followup_reason =
          if followup && not (truthy reason) then some decision.reason else reason;
      inherits_previous_filters = not c.abandoned && decision.inherits_previous_filters;
      inherits_entity_filters = inherits_entities;
      inherits_time_period = not c.abandoned && decision.inherits_time_period;
      contextual_rewrite = if c.abandoned then none else decision.contextual_rewrite;
      contextual_followup_reason = some decision.reason;
      clarification_selected_option = if followup && c.reuse then some s.query else none;
      thread_id = v.strip s.thread_id;
      history =
          if c.abandoned then v.history_without_active_clarification_window history else history;
      glossary_hits = hits;
      glossary_context = v.relevant_schema_context query 24;
      previous_assistant_payload = if c.abandoned then none else previous;
      lookup_plan =
          if not c.abandoned && ((c.reuse && followup) || inherits_entities)
          then payload_plan previous
          else none;
      schema_match_confidence = v.schema_match_confidence query hits;
    })

-- `result.setdefault("policies", …)`, and the ids
abbrev pub default_policies : CopilotState → Answer → Answer
default_policies s a = record a {
  policies = elim a.policies [
    | none ↦ some (to_payload (map carried s.applied_policies))
    | some ps ↦ some ps
  ];
}

abbrev pub with_ids : CopilotState → Answer → Answer
with_ids s a = record a {
  thread_id = elim a.thread_id [
    | none ↦ (if is_text s.thread_id then some s.thread_id else none)
    | some t ↦ some t
  ];
  request_id = elim a.request_id [
    | none ↦ (if truthy s.request_id then s.request_id else none)
    | some r ↦ some r
  ];
}

abbrev pub saved_result : CopilotState → Option Answer
saved_result s = elim s.result [ none ↦ none | some a ↦ some (default_policies s a) ]

abbrev pub user_message : CopilotState → List Message
user_message s =
    let query = or_text s.original_query s.query in
    if is_text query then record { role = Role.user; content = query } ∷ [] else []

-- An empty result is written only with the ids that there are.
abbrev pub assistant_message : Services → CopilotState → List Message
assistant_message v s = elim (saved_result s) [
  | none ↦
      if is_text s.thread_id || truthy s.request_id
      then record { role = Role.assistant; content = v.dumps_ids s.thread_id s.request_id } ∷ []
      else []
  | some a ↦ record { role = Role.assistant; content = v.dumps (with_ids s a) } ∷ []
]

abbrev pub history_limit : Settings → ℕ
history_limit t = max 2 (if t.chat_history_limit == 0 then 12 else t.chat_history_limit)

unfoldable pub save_turn : Deps → CopilotState → Attempt CopilotState
unfolding last to_payload
save_turn d s = returned (record s {
  history =
      last (history_limit d.settings)
        ((s.history ++ user_message s) ++ assistant_message d.services s);
  result = saved_result s;
})
