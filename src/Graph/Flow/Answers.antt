-- ===== src/Graph/Flow/Answers.antt =====
-- Every turn that finishes has an answer, which the next turn can read.
use conversational_copil.Prelude.{
  ◌≡◌, ◌∙◌, ap, refl, Bool, true, false, Option, none, some, arith, Bool-cases, inl, inr,
  if◌then◌else◌,
}
use conversational_copil.Graph.State.{Answer, CopilotState, Route}
use conversational_copil.Graph.Agents.{Attempt, returned, raised, ◌>>=◌, PreviousAnswer, Agents}
use conversational_copil.Graph.Deps.{Deps, last, parse_last_assistant_payload}
use conversational_copil.Graph.Nodes.{Node}
use conversational_copil.Graph.Context.{save_turn, load_context}
use conversational_copil.Graph.Lookup.{clarify_from_lookup}
use conversational_copil.Graph.Planning.{unsupported_from_plan, clarify_from_plan}
use conversational_copil.Graph.Execution.{execute_error, synthesize}
use conversational_copil.Graph.Responses.{
  reanswered, answer_from_previous_node, glossary_answer, smalltalk_answer, out_of_scope_answer,
}
use conversational_copil.Graph.Flow.{
  Run, at, finished, failed, arrive, leave, visit, next, step, start, Reach, here, then,
  route_after_answer_from_previous,
}
use conversational_copil.Graph.History.{Identified, Saved, save_turn-Saved, Saved-parse}
use conversational_copil.Graph.Flow.Retries.{Returns}
use conversational_copil.Graph.Memory.{previous_payload, turn_carryover}

-- A state with an answer.
abbrev HasAnswer : CopilotState → Type 0
HasAnswer s = (a : Answer) × (s.result ≡ some a)

abbrev Ends : Node → CopilotState → Type 0
Ends Node.save_turn s = HasAnswer s
Ends _ s = Unit

abbrev IsAnswered : Deps → Run → Type 0
IsAnswered d (at n s) = Ends n s
IsAnswered d (finished s) = Saved d s
IsAnswered d (failed e) = Unit

-- The nodes that never lead to the end directly.
abbrev pub goes_on : Node → Bool
goes_on Node.reset_turn_state = true
goes_on Node.load_context = true
goes_on Node.classify_intent = true
goes_on Node.resolve_lookup_entities = true
goes_on Node.make_plan = true
goes_on Node.validate_sql = true
goes_on Node.execute_sql = true
goes_on Node.analyze_result = true
goes_on Node.retry_sql = true
goes_on _ = false

abbrev pub is_on : Option Node → Bool
is_on none = false
is_on (some Node.save_turn) = false
is_on (some n) = true

on_IsAnswered :
    (d : Deps) (o : Option Node) (s : CopilotState) → is_on o ≡ true → IsAnswered d (arrive o s)
on_IsAnswered d none s h = absurd (ground arith)
on_IsAnswered d (some Node.save_turn) s h = absurd (ground arith)
on_IsAnswered d (some _) s h = tt

-- A state with an answer may go to the end; the other way needs none.
either-Ends :
    (b : Bool) (s : CopilotState)
    → HasAnswer s
    → Ends (if b then Node.resolve_lookup_entities else Node.save_turn) s
either-Ends true s h = tt
either-Ends false s h = h

replan-Ends :
    (s : CopilotState) (o : Option Answer)
    → s.route ≡ some Route.plan_sql
    → s.result ≡ o
    → Ends (route_after_answer_from_previous s) s
unfolding route_after_answer_from_previous
replan-Ends s none e h = rw (e, h) tt
replan-Ends s (some a) e h = either-Ends _ s (a, h)

module _ (d : Deps) where
  pub next_on :
      (n : Node) (s : CopilotState) → goes_on n ≡ true → is_on (next d.settings n s) ≡ true
  unfolding next
  next_on Node.classify_intent s h = ground arith
  next_on Node.resolve_lookup_entities s h = ground arith
  next_on Node.make_plan s h = ground arith
  next_on Node.validate_sql s h = ground arith
  next_on Node.execute_sql s h = ground arith
  next_on n s h = ground arith

  leave_on : (n : Node) (a : Attempt CopilotState) → goes_on n ≡ true → IsAnswered d (leave d n a)
  leave_on n (returned s) h = on_IsAnswered d (next d.settings n s) s (next_on n s h)
  leave_on n (raised e) h = tt

  -- An answer from the previous turn, or a plan in its place.
  reanswered_ends :
      (s : CopilotState) (a : Attempt PreviousAnswer)
      → IsAnswered d (leave d Node.answer_from_previous (a >>= λ r. returned (reanswered s r)))
  unfolding next route_after_answer_from_previous
  reanswered_ends s (returned r) = elim (Bool-cases r.should_replan) [
    | inl e ↦ rw e (replan-Ends _ s.result refl refl)
    | inr e ↦ rw e (either-Ends _ _ (_, refl))
  ]
  reanswered_ends s (raised e) = tt

module _ (d : Deps) where
  visit_answers :
      (w : Agents) (n : Node) (s : CopilotState)
      → Ends n s
      → IsAnswered d (leave d n (visit d w n s))
  unfolding visit
  visit_answers w Node.answer_from_previous s h =
      unfold answer_from_previous_node in reanswered_ends d s _
  visit_answers w Node.glossary_answer s h = unfold glossary_answer next in (_, refl)
  visit_answers w Node.smalltalk_answer s h = unfold smalltalk_answer next in (_, refl)
  visit_answers w Node.clarify_from_lookup s h = unfold clarify_from_lookup next in (_, refl)
  visit_answers w Node.out_of_scope_answer s h = unfold out_of_scope_answer next in (_, refl)
  visit_answers w Node.unsupported_from_plan s h = unfold unsupported_from_plan next in (_, refl)
  visit_answers w Node.clarify_from_plan s h = unfold clarify_from_plan next in (_, refl)
  visit_answers w Node.execute_error s h = unfold execute_error next in (_, refl)
  visit_answers w Node.synthesize s h = unfold synthesize next in (_, refl)
  visit_answers w Node.save_turn s h = unfold save_turn next in save_turn-Saved d s h.0 h.1
  visit_answers w n s h = leave_on d n (visit d w n s) refl

  step_answers : (w : Agents) (r : Run) → IsAnswered d r → IsAnswered d (step d w r)
  unfolding step
  step_answers w (at n s) h = visit_answers w n s h
  step_answers w (finished s) h = h
  step_answers w (failed e) h = tt

  Reach-answers : {r t : Run} → IsAnswered d r → Reach d r t → IsAnswered d t
  Reach-answers h here = h
  Reach-answers h ((then) {t = t} w p) = step_answers w t (Reach-answers h p)

-- Every turn that finishes has an answer, and its history, within the limit, ends with that answer and
-- its ids: the ones that it had, or else those of the turn that are not empty.
pub turn_answers :
    (d : Deps) (s : CopilotState) {t : CopilotState} → Reach d (start s) (finished t) → Saved d t
turn_answers d s p = Reach-answers d tt p

-- `load_context` of the next turn puts what it reads in the state, unless it is abandoned.
abbrev pub Recalls : Deps → Agents → CopilotState → Answer → CopilotState → Type 0
Recalls d w u b x =
    x.previous_assistant_payload ≡ (if (turn_carryover d w u).abandoned then none else some b)

load-Recalls :
    (d : Deps) (w : Agents) (u : CopilotState) (b : Answer)
    → previous_payload d u ≡ some b
    → Returns (Recalls d w u b) (load_context d w u)
unfolding load_context
load-Recalls d w u b h = ap (λ o. if (turn_carryover d w u).abandoned then none else o) h

-- The next turn, whatever else its state holds, reads the answer of a finished turn with its ids out
-- of the history, and loads it as the assistant's last payload unless it abandons it, if `json.loads`
-- gives back what `json.dumps` wrote of that answer.
pub turn_remembered :
    (d : Deps) (w : Agents) (s : CopilotState) {t : CopilotState} (a b : Answer) (u : CopilotState)
    → Reach d (start s) (finished t)
    → t.result ≡ some a
    → Identified t a b
    → d.services.loads (d.services.dumps b) ≡ some b
    → u.history ≡ t.history
    → (previous_payload d u ≡ some b) × Returns (Recalls d w u b) (load_context d w u)
turn_remembered d w s {t = t} a b u p held ids h same =
    let read : previous_payload d u ≡ some b =
      ap
        (λ ms.
          parse_last_assistant_payload d.services.loads (last d.settings.chat_history_limit ms))
        same
      ∙ Saved-parse d t (turn_answers d s p) a b held ids h in
    (read, load-Recalls d w u b read)
