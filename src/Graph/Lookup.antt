-- ===== src/Graph/Lookup.antt =====
-- Resolution of the names in a question (app/graph/nodes/lookup_nodes.py).
use conversational_copil.Prelude.{
  String, true, false, Option, none, some, [], ◌∷◌, ◌++◌, if◌then◌else◌, or_text, keep_if, map,
}
use conversational_copil.Access.{
  PrincipalContext, role_money_withheld, money_denial, money_substitution, to_dict, carried,
  to_payload,
}
use conversational_copil.Entities.{is_resolved}
use conversational_copil.Graph.State.{CopilotState}
use conversational_copil.Graph.Agents.{
  Attempt, returned, raised, WithheldMetric, Resolved, Agents, Services,
}
use conversational_copil.Graph.Deps.{Deps, caller, reasons, with_lookup}
use conversational_copil.Graph.Replies.{build_clarify_response}

-- a substitute that needs money itself is none
abbrev pub usable_substitute : WithheldMetric → Option String
usable_substitute m = elim m.substitute [
  | none ↦ none
  | some (key, needs_money) ↦ if needs_money then none else some key
]

-- A revenue question that the caller's role cannot have answered: refused here.
unfoldable pub refuse_money : PrincipalContext → CopilotState → CopilotState
unfolding money_denial
refuse_money p s = record s {
  lookup_matches = [];
  lookup_context = "";
  lookup_needs_clarification = false;
  out_of_scope_code = some role_money_withheld;
  out_of_scope_reason = some (money_denial (some p)).message;
}

abbrev substituted_state : PrincipalContext → String → String → CopilotState → CopilotState
substituted_state p requested substitute s = record s {
  applied_policies =
      s.applied_policies ++ (to_dict (money_substitution (some p) requested substitute) ∷ []);
}

abbrev resolved_state : Services → CopilotState → Attempt Resolved → CopilotState
resolved_state v s (returned r) = record s {
  lookup_matches = keep_if (λ slot. is_resolved slot.status) r.plan.slots;
  lookup_context = v.planner_context r;
  lookup_plan = some r.plan;
  lookup_needs_clarification = r.needs_clarification;
  lookup_clarification_question = r.clarification_question;
}
resolved_state v s (raised e) = record s {
  lookup_matches = [];
  lookup_context = "";
  lookup_needs_clarification = true;
  lookup_clarification_question =
      some
        "I ran into a problem matching one of the store or product names in your question. Please try again using the exact name.";
}

-- resolution proper, once the metric is one that the caller may have
unfoldable pub resolve_names : Deps → Agents → PrincipalContext → CopilotState → CopilotState
resolve_names d w p s = resolved_state d.services s (
    w.resolve (record {
      query = s.query;
      principal = p;
      previous_plan = s.lookup_plan;
      selected_option = s.clarification_selected_option;
      entity_phrases = s.entity_phrases;
    }))

unfoldable pub after_metric :
    Deps → Agents → PrincipalContext → Option WithheldMetric → CopilotState → CopilotState
unfolding refuse_money resolve_names money_substitution to_dict
after_metric d w p none s = resolve_names d w p s
after_metric d w p (some m) s = elim (usable_substitute m) [
  | none ↦ refuse_money p s
  | some substitute ↦ resolve_names d w p (substituted_state p m.requested substitute s)
]

unfoldable pub resolve_lookup_entities : Deps → Agents → CopilotState → Attempt CopilotState
unfolding caller
resolve_lookup_entities d w s = elim (caller d s) [
  | none ↦
      raised
        "resolve_lookup_entities reached without a principal; entity resolution must run inside the caller's scope."
  | some p ↦ returned (after_metric d w p (d.services.withheld_for s.query p) s)
]

unfoldable pub clarify_from_lookup : Deps → CopilotState → Attempt CopilotState
unfolding build_clarify_response with_lookup reasons to_payload
clarify_from_lookup d s =
    let reason = reasons (s.intent_reason ∷ some "Entity resolution needs clarification." ∷ []) in
    let question =
      or_text s.lookup_clarification_question
        (d.services.generic_fallback_clarification s.glossary_hits) in
    let result = with_lookup s (build_clarify_response question (some reason)) in
    returned (record s {
      result =
          some (record result { policies = some (to_payload (map carried s.applied_policies)) });
    })
