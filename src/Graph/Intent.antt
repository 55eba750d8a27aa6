-- ===== src/Graph/Intent.antt =====
-- The routing node (app/graph/nodes/intent_nodes.py).
use conversational_copil.Prelude.{String, true, none, some, [], ◌∷◌, if◌then◌else◌, or_text}
use conversational_copil.Graph.State.{Route, CopilotState}
use conversational_copil.Graph.Agents.{Attempt, returned, Intent, IntentDecision, Agents}
use conversational_copil.Graph.Deps.{Deps}
use conversational_copil.Graph.Turn.{detect_intent}

abbrev intent_name : Intent → String
intent_name Intent.analytics = "analytics"
intent_name Intent.glossary = "glossary"
intent_name Intent.smalltalk = "smalltalk"
intent_name Intent.clarify = "clarify"

abbrev routed : CopilotState → IntentDecision → CopilotState
routed s decision = record s {
  intent = some (intent_name decision.intent);
  route = some decision.route;
  intent_reason = some decision.reason;
  is_followup = decision.is_followup;
  resolved_term = decision.resolved_term;
  entity_phrases = decision.entity_phrases;
}

-- an answer to a pending clarification skips the router
unfoldable pub classify_intent : Deps → Agents → CopilotState → Attempt CopilotState
unfolding detect_intent
classify_intent d w s =
    if s.clarification_followup
    then returned (record s {
      intent = some "analytics";
      route = some Route.plan_sql;
      intent_reason = some (
          or_text s.clarification_followup_reason
            "User answered a pending clarification; proceed with analytics SQL planning.");
      is_followup = true;
      resolved_term = none;
      entity_phrases = some (or_text s.original_query "" ∷ []);
    })
    else returned
        (routed s (detect_intent d.services (w.classify s.query s.history s.glossary_hits)))
