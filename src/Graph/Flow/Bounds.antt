-- ===== src/Graph/Flow/Bounds.antt =====
-- How often a turn plans and retries.
use conversational_copil.Prelude.{ℕ, ◌+◌, ◌≤◌, ◌≡◌, refl, true, arith, length}
use conversational_copil.Graph.State.{CopilotState}
use conversational_copil.Graph.Agents.{Attempt, returned, raised, Agents}
use conversational_copil.Graph.Deps.{Settings, Deps}
use conversational_copil.Graph.Nodes.{Node}
use conversational_copil.Graph.Context.{reset_turn_state}
use conversational_copil.Graph.Execution.{retry_sql}
use conversational_copil.Graph.Flow.{
  Run, at, finished, failed, arrive, leave, visit, next, step, start, Reach, here, then,
}
use conversational_copil.Graph.Flow.Retries.{
  Returns, Keeps, Attempts, is_steady, visit-Keeps, plan_keeps,
}

-- The attempts that a node may hold beyond the retries.
abbrev allowance : Node → ℕ
allowance Node.load_context = 0
allowance Node.classify_intent = 0
allowance Node.answer_from_previous = 0
allowance Node.resolve_lookup_entities = 0
allowance Node.make_plan = 0
allowance _ = 1

abbrev pub Counted : ℕ → ℕ → CopilotState → Type 0
Counted m extra s = (s.retry_count ≤ m) × (length s.sql_attempts ≤ s.retry_count + extra)

abbrev Within : ℕ → Node → CopilotState → Type 0
Within m Node.reset_turn_state s = Unit
Within m Node.retry_sql s = (s.retry_count + 1 ≤ m) × (length s.sql_attempts ≤ s.retry_count + 1)
Within m n s = Counted m (allowance n) s

abbrev IsWithin : ℕ → Run → Type 0
IsWithin m (at n s) = Within m n s
IsWithin m (finished s) = Counted m 1 s
IsWithin m (failed e) = Unit

next-IsWithin :
    (t : Settings) (n : Node) (s : CopilotState)
    → is_steady n ≡ true
    → Counted t.max_sql_retries (allowance n) s
    → IsWithin t.max_sql_retries (arrive (next t n s) s)
unfolding next
next-IsWithin t Node.reset_turn_state s h c = cc
next-IsWithin t Node.make_plan s h c = cc
next-IsWithin t Node.retry_sql s h c = cc
next-IsWithin t Node.load_context s h c = c
next-IsWithin t Node.classify_intent s h c = ground arith
next-IsWithin t Node.answer_from_previous s h c = ground arith
next-IsWithin t Node.resolve_lookup_entities s h c = ground arith
next-IsWithin t Node.validate_sql s h c = ground arith
next-IsWithin t Node.execute_sql s h c = ground arith
next-IsWithin t _ s h c = c

plan-IsWithin :
    (t : Settings) (s : CopilotState)
    → Counted t.max_sql_retries 1 s
    → IsWithin t.max_sql_retries (arrive (next t Node.make_plan s) s)
unfolding next
plan-IsWithin t s c = ground arith

Within-steady :
    (m : ℕ) (n : Node) (s : CopilotState)
    → is_steady n ≡ true
    → Within m n s
    → Counted m (allowance n) s
Within-steady m Node.reset_turn_state s h c = cc
Within-steady m Node.retry_sql s h c = cc
Within-steady m _ s h c = c

leave-IsWithin :
    (d : Deps) (n : Node) (s : CopilotState) (a : Attempt CopilotState)
    → is_steady n ≡ true
    → Counted d.settings.max_sql_retries (allowance n) s
    → Returns (Keeps s) a
    → IsWithin d.settings.max_sql_retries (leave d n a)
leave-IsWithin d n s (returned t) h c k =
    next-IsWithin d.settings n t h (rw k.0 c.0, rw (k.0, k.1) c.1)
leave-IsWithin d n s (raised e) h c k = tt

plan_leaves-IsWithin :
    (d : Deps) (s : CopilotState) (a : Attempt CopilotState)
    → Counted d.settings.max_sql_retries 0 s
    → Returns (Attempts s) a
    → IsWithin d.settings.max_sql_retries (leave d Node.make_plan a)
plan_leaves-IsWithin d s (returned t) c k = plan-IsWithin d.settings t (rw k.0 c.0, omega arith)
plan_leaves-IsWithin d s (raised e) c k = tt

visit-Within :
    (d : Deps) (w : Agents) (n : Node) (s : CopilotState)
    → Within d.settings.max_sql_retries n s
    → IsWithin d.settings.max_sql_retries (leave d n (visit d w n s))
visit-Within d w Node.reset_turn_state s h =
    unfold visit next reset_turn_state in (omega arith, omega arith)
visit-Within d w Node.retry_sql s h = unfold visit next retry_sql in (h.0, omega arith)
visit-Within d w Node.make_plan s h =
    unfold visit in plan_leaves-IsWithin d s _ h (plan_keeps d w s)
visit-Within d w n s h =
    leave-IsWithin d n s (visit d w n s) refl (Within-steady d.settings.max_sql_retries n s refl h)
      (visit-Keeps d w n s refl)

step-IsWithin :
    (d : Deps) (w : Agents) (r : Run)
    → IsWithin d.settings.max_sql_retries r
    → IsWithin d.settings.max_sql_retries (step d w r)
unfolding step
step-IsWithin d w (at n s) h = visit-Within d w n s h
step-IsWithin d w (finished s) h = h
step-IsWithin d w (failed e) h = tt

Reach-IsWithin :
    (d : Deps) {r t : Run}
    → IsWithin d.settings.max_sql_retries r
    → Reach d r t
    → IsWithin d.settings.max_sql_retries t
Reach-IsWithin d h here = h
Reach-IsWithin d h (then {t = t} w p) = step-IsWithin d w t (Reach-IsWithin d h p)

-- A turn that finishes has retried at most as often as the settings allow, and has planned at most
-- one statement more than it has retried.
pub attempts_bounded :
    (d : Deps) (s : CopilotState) {t : CopilotState}
    → Reach d (start s) (finished t)
    → (t.retry_count ≤ d.settings.max_sql_retries) × (length t.sql_attempts ≤ t.retry_count + 1)
attempts_bounded d s p = Reach-IsWithin d tt p
