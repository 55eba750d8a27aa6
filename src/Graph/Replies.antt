-- ===== src/Graph/Replies.antt =====
-- The results that the terminals build (app/agents/answer_agent.py).
use conversational_copil.Prelude.{String, Option, none, List, [], ◌∷◌}
use conversational_copil.Payload.{nil}
use conversational_copil.Graph.State.{ResultType, Answer, GlossaryHit}
use conversational_copil.Graph.Agents.{Services}

-- a result with no rows and no chart
unfoldable pub plain : ResultType → String → Option String → Option String → Answer
plain kind answer sql reason = record {
  kind = kind;
  answer = answer;
  chart = none;
  rows = nil;
  sql = sql;
  glossary_matches = nil;
  intent_reason = reason;
  analysis = none;
  lookup_matches = none;
  lookup_context = none;
  lookup_plan = none;
  policies = none;
  answer_source = none;
  denied_reason = none;
  thread_id = none;
  request_id = none;
}

unfoldable pub build_clarify_response : String → Option String → Answer
unfolding plain
build_clarify_response answer reason = plain ResultType.clarify answer none reason

unfoldable pub build_unsupported_response : String → Option String → Answer
unfolding plain
build_unsupported_response answer reason = plain ResultType.unsupported answer none reason

unfoldable pub build_error_response : String → Option String → Option String → Answer
unfolding plain
build_error_response answer sql reason = plain ResultType.error answer sql reason

unfoldable pub build_glossary_response : Services → List GlossaryHit → Option String → Answer
unfolding plain build_clarify_response
build_glossary_response v [] reason =
    build_clarify_response
      "I'm not sure which term you mean. Try naming the exact field you're after, or ask me an analytics question instead."
      reason
build_glossary_response v (h ∷ hits) reason =
    record (plain ResultType.glossary (v.glossary_text (h ∷ hits)) none reason) {
      glossary_matches = v.glossary_payload (h ∷ hits);
    }
