-- ===== src/Graph/Flow/Retries.antt =====
-- Which visits change the retry counter.
use conversational_copil.Prelude.{
  ◌+◌, ◌≤◌, length, length-append, String, ◌≡◌, refl, Bool, true, false, Option, none, some, List,
  arith, Bool-cases, inl, inr, is_text,
}
use conversational_copil.Graph.State.{CopilotState}
use conversational_copil.Graph.Agents.{Attempt, returned, raised, Agents, Services, SqlPlan, ◌>>=◌}
use conversational_copil.Graph.Deps.{Deps}
use conversational_copil.Graph.Nodes.{Node}
use conversational_copil.Graph.Context.{load_context, save_turn}
use conversational_copil.Graph.Intent.{classify_intent}
use conversational_copil.Graph.Lookup.{
  resolve_lookup_entities, clarify_from_lookup, resolve_names, after_metric,
}
use conversational_copil.Graph.Planning.{
  make_plan, unsupported_from_plan, clarify_from_plan, ask_for_period, take_plan, adopt_plan,
  append_sql, plan_request, normalize_plan,
}
use conversational_copil.Graph.Execution.{
  validate_sql_node, execute_sql_node, execute_error, analyze_result_node, synthesize,
}
use conversational_copil.Graph.Responses.{
  answer_from_previous_node, glossary_answer, smalltalk_answer, out_of_scope_answer,
}
use conversational_copil.Graph.Flow.{visit}

-- What holds of the state that an attempt returns, if it returns.
abbrev pub Returns {ℓ} : (CopilotState → Type ℓ) → Attempt CopilotState → Type ℓ
Returns P (returned s) = P s
Returns P (raised e) = Unit

-- The counter and the list of attempts stay.
abbrev pub Keeps : CopilotState → CopilotState → Type 0
Keeps s t = (t.retry_count ≡ s.retry_count) × (t.sql_attempts ≡ s.sql_attempts)

-- The nodes that leave both alone.
abbrev pub is_steady : Node → Bool
is_steady Node.reset_turn_state = false
is_steady Node.make_plan = false
is_steady Node.retry_sql = false
is_steady _ = true

-- Planning keeps the counter, and adds one attempt at most.
abbrev pub Attempts : CopilotState → CopilotState → Type 0
Attempts s t = (t.retry_count ≡ s.retry_count) × (length t.sql_attempts ≤ length s.sql_attempts + 1)

length-append_sql :
    (xs : List String) (o : Option String) → length (append_sql xs o) ≤ length xs + 1
length-append_sql xs none = omega arith
length-append_sql xs (some q) = elim (Bool-cases (is_text q)) [
  | inl e ↦ rw (e, length-append) (omega arith)
  | inr e ↦ rw e (omega arith)
]

adopt_keeps : (v : Services) (s : CopilotState) (p : SqlPlan) → Attempts s (adopt_plan v s p)
unfolding adopt_plan ask_for_period take_plan
adopt_keeps v s p = ground (arith, length-append_sql s.sql_attempts p.sql)

module _ (d : Deps) (w : Agents) (s : CopilotState) where
  load-Keeps : Returns (Keeps s) (load_context d w s)
  unfolding load_context
  load-Keeps = (refl, refl)

  classify-Keeps : Returns (Keeps s) (classify_intent d w s)
  unfolding classify_intent
  classify-Keeps = ground arith

  resolve-Keeps : Returns (Keeps s) (resolve_lookup_entities d w s)
  unfolding resolve_lookup_entities after_metric resolve_names
  resolve-Keeps = ground arith

  validate-Keeps : Returns (Keeps s) (validate_sql_node d s)
  unfolding validate_sql_node
  validate-Keeps = ground arith

  execute-Keeps : Returns (Keeps s) (execute_sql_node d w s)
  unfolding execute_sql_node
  execute-Keeps = ground arith

  previous-Keeps : Returns (Keeps s) (answer_from_previous_node d w s)
  unfolding answer_from_previous_node
  previous-Keeps = ground arith

  analyze-Keeps : Returns (Keeps s) (analyze_result_node d w s)
  unfolding analyze_result_node
  analyze-Keeps = ground arith

  pub plan_keeps : Returns (Attempts s) (make_plan d w s)
  unfolding make_plan
  plan_keeps = on_attempt (w.generate_plan (plan_request d s))
    where
      on_attempt :
          (a : Attempt SqlPlan)
          → Returns
              (Attempts s)
              (a >>= λ p. returned (adopt_plan d.services s (normalize_plan d.services p)))
      on_attempt (returned p) = adopt_keeps d.services s (normalize_plan d.services p)
      on_attempt (raised e) = tt

pub visit-Keeps :
    (d : Deps) (w : Agents) (n : Node) (s : CopilotState)
    → is_steady n ≡ true
    → Returns (Keeps s) (visit d w n s)
unfolding visit
visit-Keeps d w Node.reset_turn_state s h = cc
visit-Keeps d w Node.make_plan s h = cc
visit-Keeps d w Node.retry_sql s h = cc
visit-Keeps d w Node.load_context s h = load-Keeps d w s
visit-Keeps d w Node.classify_intent s h = classify-Keeps d w s
visit-Keeps d w Node.answer_from_previous s h = previous-Keeps d w s
visit-Keeps d w Node.resolve_lookup_entities s h = resolve-Keeps d w s
visit-Keeps d w Node.validate_sql s h = validate-Keeps d w s
visit-Keeps d w Node.execute_sql s h = execute-Keeps d w s
visit-Keeps d w Node.analyze_result s h = analyze-Keeps d w s
visit-Keeps d w Node.glossary_answer s h = unfold glossary_answer in (refl, refl)
visit-Keeps d w Node.smalltalk_answer s h = unfold smalltalk_answer in (refl, refl)
visit-Keeps d w Node.clarify_from_lookup s h = unfold clarify_from_lookup in (refl, refl)
visit-Keeps d w Node.out_of_scope_answer s h = unfold out_of_scope_answer in (refl, refl)
visit-Keeps d w Node.unsupported_from_plan s h = unfold unsupported_from_plan in (refl, refl)
visit-Keeps d w Node.clarify_from_plan s h = unfold clarify_from_plan in (refl, refl)
visit-Keeps d w Node.execute_error s h = unfold execute_error in (refl, refl)
visit-Keeps d w Node.synthesize s h = unfold synthesize in (refl, refl)
visit-Keeps d w Node.save_turn s h = unfold save_turn in (refl, refl)
