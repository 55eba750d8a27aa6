-- ===== src/Graph/Turn.antt =====
-- The decision on how a turn relates to the last one (app/agents/conversation_turn_agent.py) and the
-- router's decision (app/agents/intent_agent.py): the calls of the model, and what the code makes of
-- their answers.
use conversational_copil.Prelude.{
  String, ◌<>◌, Bool, true, false, ◌&&◌, ◌||◌, Option, none, some, if◌then◌else◌, keep_if, is_text,
}
use conversational_copil.Graph.State.{ResultType, Route, Answer}
use conversational_copil.Graph.Agents.{
  Attempt, returned, raised, RawIntent, RawRoute, RawIntentDecision, Intent, IntentDecision,
  Relation, TurnDecision, Agents, Services,
}

-- a decision that reuses nothing
unfoldable pub fresh_turn : Relation → String → TurnDecision
fresh_turn relation reason = record {
  relation_to_previous_clarification = relation;
  reuse_previous_clarification = false;
  inherits_previous_filters = false;
  inherits_entity_filters = false;
  inherits_time_period = false;
  contextual_rewrite = none;
  reason = reason;
}

abbrev pub is_clarify : ResultType → Bool
is_clarify ResultType.clarify = true
is_clarify _ = false

abbrev pub is_clarification_answer : Relation → Bool
is_clarification_answer Relation.clarification_answer = true
is_clarification_answer _ = false

-- the corrections of the model's decision, in order
unfoldable pub correct_turn : Answer → TurnDecision → TurnDecision
correct_turn previous d =
    let relation =
      if is_clarify previous.kind
      then d.relation_to_previous_clarification
      else Relation.not_applicable in
    let reuse =
      is_clarify previous.kind
      && (is_clarification_answer relation && d.reuse_previous_clarification) in
    let entities = d.inherits_previous_filters && d.inherits_entity_filters in
    record d {
      relation_to_previous_clarification =
          if reuse then Relation.clarification_answer else relation;
      reuse_previous_clarification = reuse;
      inherits_previous_filters =
          d.inherits_previous_filters || (entities || d.inherits_time_period);
      inherits_entity_filters = entities;
    }

abbrev pub decided : Answer → Attempt TurnDecision → TurnDecision
decided previous (returned d) = correct_turn previous d
decided previous (raised e) =
    fresh_turn Relation.new_question
      ("Conversation turn decision failed, so stale state was not reused: " <> e)

unfoldable pub decide_conversation_turn_relation :
    Services → Agents → String → Option Answer → TurnDecision
unfolding fresh_turn correct_turn
decide_conversation_turn_relation v w query none =
    fresh_turn Relation.not_applicable "There is no previous assistant payload."
decide_conversation_turn_relation v w query (some previous) =
    if v.is_terminal_lookup_failure_clarify (some previous)
    then fresh_turn Relation.new_question
        "Previous clarification was a terminal lookup failure, so pending lookup clarification state was cleared. The next user message must start as a new question instead of answering the failed lookup."
    else decided previous (w.decide_turn query previous)

-- The router's normalisation: routes that the model put into `intent`, `analytics` in `route`, and
-- the intent of the routes that are answers.
unfoldable pub aligned : RawIntent → RawRoute → Intent × Route
aligned RawIntent.answer_from_previous route = (Intent.analytics, Route.answer_from_previous)
aligned RawIntent.plan_sql route = (Intent.analytics, Route.plan_sql)
aligned intent RawRoute.glossary = (Intent.glossary, Route.glossary)
aligned intent RawRoute.smalltalk = (Intent.smalltalk, Route.smalltalk)
aligned intent RawRoute.clarify = (Intent.clarify, Route.clarify)
aligned RawIntent.analytics RawRoute.answer_from_previous =
    (Intent.analytics, Route.answer_from_previous)
aligned RawIntent.glossary RawRoute.answer_from_previous =
    (Intent.glossary, Route.answer_from_previous)
aligned RawIntent.smalltalk RawRoute.answer_from_previous =
    (Intent.smalltalk, Route.answer_from_previous)
aligned RawIntent.clarify RawRoute.answer_from_previous =
    (Intent.clarify, Route.answer_from_previous)
aligned RawIntent.analytics _ = (Intent.analytics, Route.plan_sql)
aligned RawIntent.glossary _ = (Intent.glossary, Route.plan_sql)
aligned RawIntent.smalltalk _ = (Intent.smalltalk, Route.plan_sql)
aligned RawIntent.clarify _ = (Intent.clarify, Route.plan_sql)

unfoldable pub detect_intent : Services → Attempt RawIntentDecision → IntentDecision
unfolding aligned
detect_intent v (returned raw) =
    let (intent, route) = aligned raw.intent raw.route in
    record {
      intent = intent;
      route = route;
      reason = raw.reason;
      is_followup = raw.is_followup;
      resolved_term = raw.resolved_term;
      entity_phrases = some (keep_if (λ p. is_text (v.strip p)) raw.entity_phrases);
    }
detect_intent v (raised e) = record {
  intent = Intent.analytics;
  route = Route.plan_sql;
  reason = "Intent classification was unavailable; treated as an analytics question.";
  is_followup = false;
  resolved_term = none;
  entity_phrases = none;
}
