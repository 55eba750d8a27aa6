-- ===== src/Lib.antt =====
-- The customer-intelligence copilot answers a question in a turn: a graph of nodes
-- (app/graph/copilot_graph.py) over one state, where nodes call language models, the entity resolver,
-- the SQL validator and the database, and routes read the state.
--
-- Files:
--   Prelude: lists, texts and tests that the other files share.
--   Payload: values and sanitize_for_json (app/utils/common.py). An object of a type that the function
--     returns unchanged is other, by its repr.
--   Access: personas (app/service/principal_service.py) and policies (app/service/access_policy.py).
--   Entities: the resolution plan and what clients see of it (app/service/entity_resolution/models.py).
--   Matching: the passes over a question's words (app/service/entity_resolution/matcher.py): match_exact
--     with leftover_runs, match_fuzzy (Matching/Readings), dedupe_candidates and span_status. Words
--     come normalised, positions taken are a function from positions, and scores are numbers of a
--     fixed unit.
--   Graph/State: CopilotState (app/graph/copilot_state.py); a key that is not written is none, an empty
--     list, false, an empty text or 0.
--   Graph/Agents: what the nodes call. An Agents record holds the answers of the models, the resolver
--     and the database at one visit of a node, so two visits may differ; a Services record holds the
--     parts of the program that only compute and that are not modelled. A call that raises returns
--     raised.
--   Graph/Turn, Intent, Context, Lookup, Planning, Execution, Responses, Replies: the nodes, one
--     function for each method of app/graph/nodes, and the code of app/agents that corrects the
--     models' answers.
--   Graph/Flow: the compiled graph: next is the edges, step visits a node and follows its edge, run
--     takes a number of steps, Reach relates a run to those that some answers lead to.
--   Graph/Flow/Termination, Ready, Safety, Bounds, Answers, Policies, Graph/Plans, Refusals, History,
--     Memory: theorems.
--   Matching/Runs, Spans, Tags, Verdict, Readings/Choice, Ranking, Best: theorems on matching.
--   Database: a session with PostgreSQL: the statements that set it, and a Driver record for
--     PostgreSQL under an AsyncSession, with what they document (DriverLaws). A row is the pairs of its mapping, which dict(row) makes distinct.
--     Scope is
--     app/db/session_scope.py with safe_ident of app/db/v3_ddl.py; Executor is
--     app/service/sql_executor.py. An async function is a function from the session to an outcome and
--     the session it leaves; Fault is what it raises. Released, Reporting and Running: theorems.
--   Wording: normalize_lookup_text and clean_text_value (app/utils/text_utils.py) and the short replies
--     of app/policies/clarification_policy.py; letters are those of ASCII.
--   Clarification: app/policies/clarification_policy.py: the window of the pending clarification here,
--     what a short message looks like in Wordings, the query that a reply stands for in Followup.
--     Windows, Original and Kinds: theorems. The texts of a chosen option are a parameter.
--   Resolving: the resolver after the matching (app/service/entity_resolution/service.py): the budget
--     and the loop over the spans here, the reply that answers a slot in Replies, the texts of the
--     questions in Questions, the OpCo pins, _finalize and resolve in Outcomes. Slots that the source
--     changes in place are put back at their places in the plan. Budget, Scopes, Pins, Adopted, Settled,
--     Answered and Misread: theorems.
--   Metrics: the registry of app/service/metric_service.py from loaded rows on: the metrics that a
--     caller may use, the match of a phrase, the withheld metric and what stands in for it. The two
--     dictionaries are lists in their order. Allowed, Callers, Ties and Withheld:
--     theorems.
--   Scenarios: a small deployment, and the theorems at concrete inputs.
--
-- A run takes fuel; 11 steps and 4 for each retry are enough for a turn, whatever the agents answer.
--
-- Hypotheses: a rejection by the validator or the shape check comes with a text, and an error class has
-- a text (GuardLaws). PostgreSQL does to the role, the two settings and the search path what it
-- documents, if the program alone sets the session (DriverLaws). What json.dumps writes is read back by json.loads, where a theorem says so.
--
-- A Dictionary record gives the candidates for a text, ranked, and the word lists; a Scorer
-- record gives those for a window of the fuzzy pass: the similarity scores are not modelled.
--
-- Not modelled: prompts and network calls of the language models, the parse trees of the SQL validator,
-- spans and usage tracking, streaming and HTTP, migrations and data import. The search of the glossary,
-- charts and the composition of answers are functions of the Services record. So are withheld_for,
-- build_clarification_followup_query and classify_sql_error, which the graph takes as any functions of
-- their types and whose own code is in Metrics, Clarification/Followup and Database/Executor; a theorem
-- that needs one of them as it is says so.
pub mod Prelude
pub mod Payload
pub mod Access
pub mod Entities
pub mod Matching
pub mod Database
pub mod Metrics
pub mod Wording
pub mod Clarification
pub mod Resolving
pub mod Graph
pub mod Scenarios
