-- ===== src/Scenarios/Examples.antt =====
-- The theorems at concrete inputs.
use conversational_copil.Graph.Flow.Policies.{policies-Reported, Reported}
use conversational_copil.Graph.State.{Role, Answer, CopilotState}
use conversational_copil.Prelude.{
  Option, ℕ, zero, suc, ◌+◌, ◌≤◌, ◌≡◌, refl, subst, arith, true, false, none, some, [], ◌∷◌, length,
  ◌↔◌,
}
use conversational_copil.Access.{
  default_settings, persona_schema, persona_role, can_see_money, to_dict, money_denial,
}
use conversational_copil.Access.Personas.{persona_pair}
use conversational_copil.Entities.{
  public_lookup_plan, public_lookup_context, ResolutionPlan, SlotStatus,
}
use conversational_copil.Entities.Redaction.{rekey_plan, store_keys_hidden}
use conversational_copil.Payload.{nil, cons, decimal, nan, array, sanitize_for_json}
use conversational_copil.Payload.Sanitizing.{IsJson, IsPlain, IsKnown, sanitize_exact}
use conversational_copil.Graph.Nodes.{Node}
use conversational_copil.Graph.Deps.{
  Deps, caller, last, first_payload, parse_last_assistant_payload,
}
use conversational_copil.Graph.Planning.{
  make_plan, normalize_plan, adopt_plan, fact_time_period_guard_question, take_plan,
}
use conversational_copil.Graph.Lookup.{resolve_lookup_entities, after_metric, resolve_names}
use conversational_copil.Graph.Context.{
  reset_turn_state, load_context, carryover, save_turn, with_ids,
}
use conversational_copil.Graph.Intent.{classify_intent}
use conversational_copil.Graph.Turn.{
  decide_conversation_turn_relation, fresh_turn, detect_intent, aligned,
}
use conversational_copil.Graph.Execution.{
  synthesize, validate_sql_node, execute_sql_node, retry_sql, execute_error, analyze_result_node,
}
use conversational_copil.Graph.Flow.{
  Run, at, finished, start, run, step, visit, next, Reach, here, then, route_after_intent,
  route_after_lookup_resolution, route_after_plan, route_after_validate, route_after_execute,
}
use conversational_copil.Graph.Flow.Termination.{turn_ends, is_ended}
use conversational_copil.Graph.Flow.Ready.{Gives, Obeys, AllObey}
use conversational_copil.Graph.Flow.Safety.{
  SendsCleared, WritesRows, executes_cleared, answers_from_rows,
}
use conversational_copil.Graph.Flow.Retries.{Returns}
use conversational_copil.Graph.History.{Saved, with_ids-Identified}
use conversational_copil.Clarification.Followup
use conversational_copil.Clarification.Followup.{Sources}
use conversational_copil.Graph.Memory.{
  IsFresh, previous_payload, turn_forgets, clarification_reused, abandoned_forgotten,
}
use conversational_copil.Graph.Flow.Answers.{turn_answers, Recalls, turn_remembered}
use conversational_copil.Graph.Flow.Bounds.{attempts_bounded}
use conversational_copil.Graph.Plans.{
  destination, is_validate, is_refusal, validated_plans, refused_plans,
}
use conversational_copil.Graph.Refusals.{Refused, money-Refused}
use conversational_copil.Scenarios.{
  returned, good_sql, sample_answer, executive, manager, services, services-GuardLaws, deps,
  sales_plan, bad_plan, planning, question, store_slot, state_of, Reach-run,
}

persona_pair_example :
    (persona_schema default_settings executive ≡ "ci_exec")
    × (persona_role default_settings executive ≡ "ci_copilot_exec")
unfolding can_see_money
persona_pair_example = persona_pair default_settings executive

sanitize_exact_example :
    (IsJson (sanitize_for_json (array (cons (decimal nan) nil)))
      ↔ IsPlain (array (cons (decimal nan) nil)))
    × (IsJson (sanitize_for_json (sanitize_for_json (array (cons (decimal nan) nil))))
        ↔ IsKnown (array (cons (decimal nan) nil)))
sanitize_exact_example = sanitize_exact (array (cons (decimal nan) nil))

abbrev store_plan : ResolutionPlan
store_plan = record { status = SlotStatus.resolved; slots = store_slot ∷ [] }

store_keys_hidden_example :
    (public_lookup_plan (some (rekey_plan (λ k. none) (λ k. "S-0001") store_plan))
      ≡ public_lookup_plan (some store_plan))
    × (public_lookup_context (some (rekey_plan (λ k. none) (λ k. "S-0001") store_plan)) ""
        ≡ public_lookup_context (some store_plan) "")
store_keys_hidden_example = store_keys_hidden (λ k. none) (λ k. "S-0001") store_plan ""

turn_ends_example :
    is_ended (run (deps manager) (λ k. planning bad_plan) 19 0 (start question)) ≡ true
turn_ends_example = turn_ends (deps manager) (λ k. planning bad_plan) 19 question (omega arith)

validated_plans_example : is_validate (destination services question sales_plan) ≡ true
validated_plans_example = validated_plans services question sales_plan

refused_plans_example : is_refusal (destination services question sales_plan) ≡ false
refused_plans_example = refused_plans services question sales_plan

abbrev manager_run : ℕ → Run
manager_run n = run (deps manager) (λ k. planning sales_plan) n 0 (start question)

ready_to_execute : manager_run 6 ≡ at Node.execute_sql (state_of (manager_run 6))
unfolding run step visit next reset_turn_state load_context carryover
    decide_conversation_turn_relation fresh_turn parse_last_assistant_payload first_payload last
    classify_intent detect_intent aligned route_after_intent resolve_lookup_entities caller
    after_metric resolve_names route_after_lookup_resolution make_plan normalize_plan adopt_plan
    fact_time_period_guard_question take_plan route_after_plan validate_sql_node
    route_after_validate
ready_to_execute = refl

executes_cleared_example :
    SendsCleared (deps manager) (planning sales_plan) (state_of (manager_run 6))
executes_cleared_example =
    executes_cleared (deps manager) services-GuardLaws question (planning sales_plan) (
      subst (Reach (deps manager) (start question)) ready_to_execute
        (Reach-run (deps manager) (λ k. planning sales_plan) 6 0 here))

ready_to_answer : manager_run 8 ≡ at Node.synthesize (state_of (manager_run 8))
unfolding run step visit next reset_turn_state load_context carryover
    decide_conversation_turn_relation fresh_turn parse_last_assistant_payload first_payload last
    classify_intent detect_intent aligned route_after_intent resolve_lookup_entities caller
    after_metric resolve_names route_after_lookup_resolution make_plan normalize_plan adopt_plan
    fact_time_period_guard_question take_plan route_after_plan validate_sql_node
    route_after_validate execute_sql_node route_after_execute analyze_result_node
ready_to_answer = refl

-- The database answers each statement with the one payload that it has.
abbrev one_payload : Gives
one_payload q r = (planning sales_plan).run_sql q ≡ returned r

same_world : Obeys one_payload (planning sales_plan)
same_world q r h = h

run_obeys :
    (n k : ℕ) {t : Run} (p : Reach (deps manager) (start question) t)
    → AllObey one_payload p
    → AllObey one_payload (Reach-run (deps manager) (λ i. planning sales_plan) n k p)
unfolding Reach-run
run_obeys zero k p h = h
run_obeys (suc n) k p h = run_obeys n (k + 1) ((then) (planning sales_plan) p) (same_world, h)

-- the run of eight steps, step by step
abbrev Stepped : Run → Type 0
Stepped t = (p : Reach (deps manager) (start question) t) × AllObey one_payload p

eight_steps : Stepped (at Node.synthesize (state_of (manager_run 8)))
eight_steps =
    subst Stepped ready_to_answer
      (Reach-run (deps manager) (λ k. planning sales_plan) 8 0 here, run_obeys 8 0 here tt)

answers_from_rows_example :
    WritesRows (deps manager) one_payload (planning sales_plan) (state_of (manager_run 8))
answers_from_rows_example =
    answers_from_rows (deps manager) services-GuardLaws one_payload question (planning sales_plan)
      eight_steps.0 eight_steps.1

-- A turn whose every plan the validator rejects.
abbrev rejected_run : Run
rejected_run = run (deps manager) (λ k. planning bad_plan) 16 0 (start question)

rejected_run_ends : rejected_run ≡ finished (state_of rejected_run)
unfolding run step visit next reset_turn_state load_context carryover
    decide_conversation_turn_relation fresh_turn parse_last_assistant_payload first_payload last
    classify_intent detect_intent aligned route_after_intent resolve_lookup_entities caller
    after_metric resolve_names route_after_lookup_resolution make_plan normalize_plan adopt_plan
    fact_time_period_guard_question take_plan route_after_plan validate_sql_node
    route_after_validate retry_sql execute_error save_turn
rejected_run_ends = refl

attempts_bounded_example :
    ((state_of rejected_run).retry_count ≤ 2)
    × (length (state_of rejected_run).sql_attempts ≤ (state_of rejected_run).retry_count + 1)
attempts_bounded_example = attempts_bounded (deps manager) question (
    subst (Reach (deps manager) (start question)) rejected_run_ends
      (Reach-run (deps manager) (λ k. planning bad_plan) 16 0 here))

money-Refused_example : Refused (to_dict (money_denial (some executive))) [] (
    step (deps executive) (planning sales_plan) (
      step
        (deps executive)
        (planning sales_plan)
        (step (deps executive) (planning sales_plan) (at Node.resolve_lookup_entities question))))
unfolding caller
money-Refused_example =
    money-Refused (deps executive) (planning sales_plan) (planning sales_plan) (planning sales_plan)
      question executive (record { requested = "net_sales"; substitute = none }) refl refl refl

turn_answers_example : Saved (deps manager) (state_of rejected_run)
turn_answers_example = turn_answers (deps manager) question (
    subst (Reach (deps manager) (start question)) rejected_run_ends
      (Reach-run (deps manager) (λ k. planning bad_plan) 16 0 here))

policies-Reported_example : Reported (state_of rejected_run)
policies-Reported_example = policies-Reported (deps manager) question (
    subst (Reach (deps manager) (start question)) rejected_run_ends
      (Reach-run (deps manager) (λ k. planning bad_plan) 16 0 here))

abbrev result_of : Option Answer → Answer
result_of none = sample_answer
result_of (some a) = a

abbrev first_answer : Answer
first_answer = result_of (state_of (manager_run 10)).result

-- A deployment whose `json.loads` gives back the one answer that was written.
abbrev loading : Deps
loading = record (deps manager) {
  services = record services { loads = λ text. some (with_ids question first_answer) };
}

abbrev answered_run : Run
answered_run = run loading (λ k. planning sales_plan) 10 0 (start question)

answered_run_ends : answered_run ≡ finished (state_of answered_run)
unfolding run step visit next reset_turn_state load_context carryover
    decide_conversation_turn_relation fresh_turn parse_last_assistant_payload first_payload last
    classify_intent detect_intent aligned route_after_intent resolve_lookup_entities caller
    after_metric resolve_names route_after_lookup_resolution make_plan normalize_plan adopt_plan
    fact_time_period_guard_question take_plan route_after_plan validate_sql_node
    route_after_validate execute_sql_node route_after_execute analyze_result_node synthesize
    save_turn
answered_run_ends = refl

answered_run_result : (state_of answered_run).result ≡ some first_answer
unfolding run step visit next reset_turn_state load_context carryover
    decide_conversation_turn_relation fresh_turn parse_last_assistant_payload first_payload last
    classify_intent detect_intent aligned route_after_intent resolve_lookup_entities caller
    after_metric resolve_names route_after_lookup_resolution make_plan normalize_plan adopt_plan
    fact_time_period_guard_question take_plan route_after_plan validate_sql_node
    route_after_validate execute_sql_node route_after_execute analyze_result_node synthesize
    save_turn
answered_run_result = refl

answered_run_loads :
    some (with_ids question first_answer) ≡ some (with_ids (state_of answered_run) first_answer)
unfolding run step visit next reset_turn_state load_context carryover
    decide_conversation_turn_relation fresh_turn parse_last_assistant_payload first_payload last
    classify_intent detect_intent aligned route_after_intent resolve_lookup_entities caller
    after_metric resolve_names route_after_lookup_resolution make_plan normalize_plan adopt_plan
    fact_time_period_guard_question take_plan route_after_plan validate_sql_node
    route_after_validate execute_sql_node route_after_execute analyze_result_node synthesize
    save_turn
answered_run_loads = refl

-- The next turn of the conversation.
abbrev next_turn : CopilotState
next_turn = record question { history = (state_of answered_run).history; retry_count = 2 }

abbrev saved_answer : Answer
saved_answer = with_ids (state_of answered_run) first_answer

turn_remembered_example :
    (previous_payload loading next_turn ≡ some saved_answer)
    × Returns
        (Recalls loading (planning sales_plan) next_turn saved_answer)
        (load_context loading (planning sales_plan) next_turn)
turn_remembered_example =
    turn_remembered loading (planning sales_plan) question first_answer saved_answer next_turn
      (subst (Reach loading (start question)) answered_run_ends
        (Reach-run loading (λ k. planning sales_plan) 10 0 here))
      answered_run_result (with_ids-Identified (state_of answered_run) first_answer)
      answered_run_loads refl

-- The state as a checkpoint restores it: with what the last turn left.
abbrev restored : CopilotState
restored = record question {
  sql = some good_sql;
  retry_count = 2;
  lookup_context = "Resolved entity filters:";
  result = some sample_answer;
}

turn_forgets_example :
    run (deps manager) (λ k. planning sales_plan) 10 0 (start restored)
    ≡ run (deps manager) (λ k. planning sales_plan) 10 0 (start question)
turn_forgets_example =
    turn_forgets (deps manager) (λ k. planning sales_plan) 9 0 restored question
      (record {
        principal = refl;
        query = refl;
        thread_id = refl;
        request_id = refl;
        history = refl;
      })

clarification_reused_example :
    (carryover services
      (some sample_answer)
      (decide_conversation_turn_relation services (planning sales_plan) "July" (some sample_answer))
      "July").reuse
    ≡ false
clarification_reused_example =
    clarification_reused services (planning sales_plan) "July" (some sample_answer)

abbrev sources : Sources
sources = record {
  loads = λ text. some sample_answer;
  extract_selected_lookup_option = λ a q. none;
  lookup_fields = "store_name" ∷ [];
}

-- A deployment where the assistant's last message is a pending clarification.
abbrev asking : Deps
asking = record (deps manager) {
  services = record services {
    loads = λ text. some sample_answer;
    is_prior_assistant_clarification = λ p. true;
    build_clarification_followup_query = Followup.build_clarification_followup_query sources;
  };
}

abbrev asked : CopilotState
asked = record question {
  history = record { role = Role.assistant; content = "Which period?" } ∷ [];
}

abandoned_forgotten_example :
    Returns
      (IsFresh asking asked.query (last 12 asked.history))
      (load_context asking (planning sales_plan) asked)
unfolding parse_last_assistant_payload first_payload last
abandoned_forgotten_example =
    abandoned_forgotten asking (planning sales_plan) asked sources refl refl
