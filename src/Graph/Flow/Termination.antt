-- ===== src/Graph/Flow/Termination.antt =====
-- A turn ends: the retries are bounded, whatever the agents answer.
use conversational_copil.Prelude.{
  ℕ, zero, suc, ◌+◌, ◌-◌, ◌*◌, ◌≤◌, ◌<◌, ◌≡◌, refl, Bool, true, false, arith,
}
use conversational_copil.Graph.State.{CopilotState}
use conversational_copil.Graph.Agents.{Attempt, returned, raised, Agents}
use conversational_copil.Graph.Deps.{Settings, Deps}
use conversational_copil.Graph.Nodes.{Node}
use conversational_copil.Graph.Context.{reset_turn_state}
use conversational_copil.Graph.Execution.{retry_sql}
use conversational_copil.Graph.Flow.{
  Run, at, finished, failed, arrive, leave, visit, next, step, run, start,
}
use conversational_copil.Graph.Flow.Retries.{
  Returns, Keeps, Attempts, is_steady, visit-Keeps, plan_keeps,
}

abbrev pub is_ended : Run → Bool
is_ended (at n s) = false
is_ended (finished s) = true
is_ended (failed e) = true

-- A bound on the steps to the end of the turn without another retry.
abbrev distance : Node → ℕ
distance Node.reset_turn_state = 11
distance Node.load_context = 10
distance Node.classify_intent = 9
distance Node.answer_from_previous = 8
distance Node.resolve_lookup_entities = 7
distance Node.make_plan = 6
distance Node.validate_sql = 5
distance Node.execute_sql = 4
distance Node.retry_sql = 7
distance Node.analyze_result = 3
distance Node.save_turn = 1
distance _ = 2

-- The retries that a node may still start.
abbrev retries_left : ℕ → Node → ℕ → ℕ
retries_left m Node.reset_turn_state k = m
retries_left m Node.retry_sql k = m - (k + 1)
retries_left m _ k = m - k

abbrev pub remaining : Settings → Run → ℕ
remaining t (at n s) = distance n + 4 * retries_left t.max_sql_retries n s.retry_count
remaining t (finished s) = 0
remaining t (failed e) = 0

-- From the state that a steady node leaves, each route goes nearer to the end.
next_nearer :
    (t : Settings) (n : Node) (s : CopilotState)
    → is_steady n ≡ true
    → remaining t (arrive (next t n s) s) < distance n + 4 * (t.max_sql_retries - s.retry_count)
unfolding next
next_nearer t Node.load_context s h = omega arith
next_nearer t Node.classify_intent s h = ground arith
next_nearer t Node.answer_from_previous s h = ground arith
next_nearer t Node.resolve_lookup_entities s h = ground arith
next_nearer t Node.validate_sql s h = ground arith
next_nearer t Node.execute_sql s h = ground arith
next_nearer t Node.analyze_result s h = omega arith
next_nearer t Node.save_turn s h = omega arith
next_nearer t Node.reset_turn_state s h = cc
next_nearer t Node.make_plan s h = cc
next_nearer t Node.retry_sql s h = cc
next_nearer t _ s h = omega arith

plan_nearer :
    (t : Settings) (s : CopilotState)
    → remaining t (arrive (next t Node.make_plan s) s) < 6 + 4 * (t.max_sql_retries - s.retry_count)
unfolding next
plan_nearer t s = ground arith

distance_pos : (n : Node) → 0 < distance n
distance_pos Node.reset_turn_state = omega arith
distance_pos Node.load_context = omega arith
distance_pos _ = omega arith

leave_nearer :
    (d : Deps) (n : Node) (s : CopilotState) (a : Attempt CopilotState)
    → is_steady n ≡ true
    → Returns (Keeps s) a
    → remaining d.settings (leave d n a)
      < distance n + 4 * (d.settings.max_sql_retries - s.retry_count)
leave_nearer d n s (returned t) h k = rw (← k.0) (next_nearer d.settings n t h)
leave_nearer d n s (raised e) h k = omega (arith, distance_pos n)

plan_leaves_nearer :
    (d : Deps) (s : CopilotState) (a : Attempt CopilotState)
    → Returns (Attempts s) a
    → remaining d.settings (leave d Node.make_plan a)
      < 6 + 4 * (d.settings.max_sql_retries - s.retry_count)
plan_leaves_nearer d s (returned t) k = rw (← k.0) (plan_nearer d.settings t)
plan_leaves_nearer d s (raised e) k = omega arith

retries_left_steady : (m : ℕ) (n : Node) (k : ℕ) → is_steady n ≡ true → retries_left m n k ≡ m - k
retries_left_steady m Node.reset_turn_state k h = cc
retries_left_steady m Node.make_plan k h = cc
retries_left_steady m Node.retry_sql k h = cc
retries_left_steady m _ k h = refl

steady_nearer :
    (d : Deps) (w : Agents) (n : Node) (s : CopilotState)
    → is_steady n ≡ true
    → remaining d.settings (leave d n (visit d w n s)) < remaining d.settings (at n s)
steady_nearer d w n s h = omega (
  arith,
  leave_nearer d n s (visit d w n s) h (visit-Keeps d w n s h),
  retries_left_steady d.settings.max_sql_retries n s.retry_count h,
)

-- Each step of a run in progress goes nearer to the end.
step_nearer :
    (d : Deps) (w : Agents) (n : Node) (s : CopilotState)
    → remaining d.settings (step d w (at n s)) < remaining d.settings (at n s)
unfolding step
step_nearer d w Node.reset_turn_state s = unfold visit next reset_turn_state in omega arith
step_nearer d w Node.make_plan s = unfold visit in plan_leaves_nearer d s _ (plan_keeps d w s)
step_nearer d w Node.retry_sql s = unfold visit next retry_sql in omega arith
step_nearer d w Node.load_context s = steady_nearer d w Node.load_context s refl
step_nearer d w n s = steady_nearer d w n s refl

run_ends :
    (d : Deps) (worlds : ℕ → Agents) (fuel k : ℕ) (r : Run)
    → remaining d.settings r ≤ fuel
    → is_ended (run d worlds fuel k r) ≡ true
unfolding run
run_ends d worlds zero k (finished s) h = refl
run_ends d worlds zero k (failed e) h = refl
run_ends d worlds zero k (at n s) h = absurd (omega (arith, distance_pos n))
run_ends d worlds (suc fuel) k (finished s) h =
    run_ends d worlds fuel (k + 1) (finished s) (omega arith)
run_ends d worlds (suc fuel) k (failed e) h =
    run_ends d worlds fuel (k + 1) (failed e) (omega arith)
run_ends d worlds (suc fuel) k (at n s) h =
    run_ends d worlds fuel (k + 1) (step d (worlds k) (at n s))
      (omega (arith, step_nearer d (worlds k) n s))

-- With 11 steps and 4 more for each retry that the settings allow, every turn is at its end: whatever
-- the agents answer at each visit, it has finished or an agent's exception has ended it.
pub turn_ends :
    (d : Deps) (worlds : ℕ → Agents) (fuel : ℕ) (s : CopilotState)
    → 11 + 4 * d.settings.max_sql_retries ≤ fuel
    → is_ended (run d worlds fuel 0 (start s)) ≡ true
turn_ends d worlds fuel s h = run_ends d worlds fuel 0 (start s) h
