-- ===== src/Graph/Nodes.antt =====
-- The names of the graph's nodes (app/graph/copilot_graph.py).
pub data Node : Type 0 where
  reset_turn_state load_context classify_intent answer_from_previous glossary_answer : Node
  smalltalk_answer resolve_lookup_entities clarify_from_lookup out_of_scope_answer : Node
  make_plan unsupported_from_plan clarify_from_plan validate_sql execute_sql : Node
  analyze_result retry_sql execute_error synthesize save_turn : Node
