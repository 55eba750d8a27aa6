-- ===== src/Graph/Refusals.antt =====
-- How a refusal ends the turn.
use conversational_copil.Prelude.{◌≡◌, refl, ap, none, some, List, ◌∷◌, map, arith}
use conversational_copil.Access.{
  PrincipalContext, Notice, carried, denial, money_denial, to_dict, to_payload, role_money_withheld,
}
use conversational_copil.Payload.{nil}
use conversational_copil.Graph.State.{ResultType, Answer, CopilotState}
use conversational_copil.Graph.Agents.{WithheldMetric, Agents}
use conversational_copil.Graph.Deps.{Deps, caller}
use conversational_copil.Graph.Nodes.{Node}
use conversational_copil.Graph.Context.{save_turn}
use conversational_copil.Graph.Lookup.{
  usable_substitute, refuse_money, after_metric, resolve_lookup_entities,
}
use conversational_copil.Graph.Responses.{refusal, out_of_scope_answer}
use conversational_copil.Graph.Flow.{
  Run, at, finished, visit, next, step, route_after_lookup_resolution,
}

-- A refusal, as the client gets it: no rows, no statement, and the given notice before those of the
-- rest of the turn.
pub record IsRefusal (notice : Notice) (rest : List Notice) (a : Answer) : Type 0 where
  pub kind : a.kind ≡ ResultType.out_of_scope
  pub no_rows : a.rows ≡ nil
  pub no_sql : a.sql ≡ none
  pub policies : a.policies ≡ some (notice ∷ to_payload (map carried rest))

-- A run that has finished with such an answer.
pub data Refused (notice : Notice) (rest : List Notice) : Run → Type 0 where
  refused :
      (s : CopilotState) (a : Answer)
      → s.result ≡ some a
      → IsRefusal notice rest a
      → Refused notice rest (finished s)

money_refusal :
    (d : Deps) (p : PrincipalContext) (s : CopilotState)
    → caller d s ≡ some p
    → IsRefusal (to_dict (money_denial (some p))) s.applied_policies (refusal d (refuse_money p s))
unfolding refusal refuse_money money_denial caller denial
money_refusal d p s h = record {
  kind = refl;
  no_rows = refl;
  no_sql = refl;
  policies =
      ap
        (λ c. some (
          to_dict (denial role_money_withheld (money_denial (some p)).message c)
          ∷ to_payload (map carried s.applied_policies)))
        h;
}

-- The resolver sends such a question to the refusal terminal.
money_step :
    (d : Deps) (w : Agents) (s : CopilotState) (p : PrincipalContext) (m : WithheldMetric)
    → caller d s ≡ some p
    → d.services.withheld_for s.query p ≡ some m
    → usable_substitute m ≡ none
    → step d w (at Node.resolve_lookup_entities s) ≡ at Node.out_of_scope_answer (refuse_money p s)
unfolding step visit resolve_lookup_entities after_metric refuse_money money_denial next
    route_after_lookup_resolution
money_step d w s p m c h u = ground arith

-- From the refusal terminal the turn ends with the refusal, whatever the agents answer.
refusal_ends :
    (d : Deps) (w₁ w₂ : Agents) (s : CopilotState) (notice : Notice) (rest : List Notice)
    → IsRefusal notice rest (refusal d s)
    → Refused notice rest (step d w₂ (step d w₁ (at Node.out_of_scope_answer s)))
unfolding step visit next out_of_scope_answer save_turn
refusal_ends d w₁ w₂ s notice rest h = refused _ _ refl (record {
  kind = h.kind;
  no_rows = h.no_rows;
  no_sql = h.no_sql;
  policies = rw h.policies refl;
})

-- If the caller's role may not see the metric that the question asks for, and no usable metric stands
-- in for it, the turn goes from the resolver straight to the refusal and ends there, whatever the
-- agents answer: no rows, no statement, and the denial of revenue as the first notice.
pub money-Refused :
    (d : Deps) (w₀ w₁ w₂ : Agents) (s : CopilotState) (p : PrincipalContext) (m : WithheldMetric)
    → caller d s ≡ some p
    → d.services.withheld_for s.query p ≡ some m
    → usable_substitute m ≡ none
    → Refused
        (to_dict (money_denial (some p)))
        s.applied_policies
        (step d w₂ (step d w₁ (step d w₀ (at Node.resolve_lookup_entities s))))
money-Refused d w₀ w₁ w₂ s p m c h u =
    rw (money_step d w₀ s p m c h u)
      (refusal_ends d w₁ w₂ (refuse_money p s) _ _ (money_refusal d p s c))
