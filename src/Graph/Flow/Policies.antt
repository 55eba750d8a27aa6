-- ===== src/Graph/Flow/Policies.antt =====
-- Every policy that shaped a turn is reported in its answer.
use conversational_copil.Prelude.{
  if◌then◌else◌, or_text, String, ◌≡◌, refl, ap, Bool, true, false, Option, none, some, List, [],
  ◌∷◌, ◌++◌, map, arith, Bool-cases, ◌⊎◌, inl, inr, is_text,
}
use conversational_copil.Access.{to_dict, Notice, PolicyItem, built, carried, to_payload}
use conversational_copil.Graph.State.{GlossaryHit, ResultType, Answer, CopilotState}
use conversational_copil.Graph.Agents.{Attempt, returned, raised, ◌>>=◌, PreviousAnswer, Agents}
use conversational_copil.Graph.Deps.{with_lookup, caller, Deps}
use conversational_copil.Graph.Nodes.{Node}
use conversational_copil.Graph.Context.{reset_turn_state, load_context, save_turn, default_policies}
use conversational_copil.Graph.Intent.{classify_intent}
use conversational_copil.Graph.Replies.{
  build_unsupported_response, build_clarify_response, plain, build_glossary_response,
}
use conversational_copil.Graph.Lookup.{clarify_from_lookup}
use conversational_copil.Graph.Planning.{unsupported_from_plan, clarify_from_plan}
use conversational_copil.Graph.Execution.{execute_error, synthesize}
use conversational_copil.Graph.Responses.{
  glossary_result, refusal_policies, reanswered, answer_from_previous_node, glossary_answer,
  smalltalk_answer, out_of_scope_answer, refusal,
}
use conversational_copil.Graph.Flow.{
  Run, at, finished, failed, arrive, leave, visit, next, step, start, Reach, here, then,
  route_after_answer_from_previous,
}
use conversational_copil.Graph.Flow.Retries.{Returns}

-- The policies of the turn, as a payload.
abbrev pub turn_payload : CopilotState → List Notice
turn_payload s = to_payload (map carried s.applied_policies)

abbrev pub is_refused_plan : ResultType → Bool
is_refused_plan ResultType.unsupported = true
is_refused_plan _ = false

-- An answer that reports the policies of the turn, perhaps after others, or that is the verdict that
-- the question cannot be planned.
abbrev pub Reports : CopilotState → Answer → Type 0
Reports s a =
    (is_refused_plan a.kind ≡ true)
    ⊎ ((front : List Notice) × (a.policies ≡ some (front ++ turn_payload s)))

abbrev Reporting : CopilotState → Type 0
Reporting s = (a : Answer) × ((s.result ≡ some a) × ((a.policies ≡ none) ⊎ Reports s a))

abbrev Pending : Node → CopilotState → Type 0
Pending Node.load_context s = s.result ≡ none
Pending Node.classify_intent s = s.result ≡ none
Pending Node.answer_from_previous s = s.result ≡ none
Pending Node.save_turn s = Reporting s
Pending _ s = Unit

pub record Reported (s : CopilotState) : Type 0 where
  pub answer : Answer
  pub held : s.result ≡ some answer
  pub reports : Reports s answer

abbrev IsReporting : Run → Type 0
IsReporting (at n s) = Pending n s
IsReporting (finished s) = Reported s
IsReporting (failed e) = Unit

to_payload-append :
    (ps qs : List PolicyItem) → to_payload (ps ++ qs) ≡ to_payload ps ++ to_payload qs
unfolding to_payload
to_payload-append [] qs = refl
to_payload-append (built p ∷ ps) qs = ap (λ r. to_dict p ∷ r) (to_payload-append ps qs)
to_payload-append (carried n ∷ ps) qs = elim (Bool-cases (is_text n.code)) [
  | inl e ↦ rw e (ap (λ r. n ∷ r) (to_payload-append ps qs))
  | inr e ↦ rw e (to_payload-append ps qs)
]

default-Reports :
    (s : CopilotState) (a : Answer) (o : Option (List Notice))
    → a.policies ≡ o
    → (a.policies ≡ none) ⊎ Reports s a
    → Reports s (default_policies s a)
default-Reports s a none e (inl h) = inr ([], rw h refl)
default-Reports s a (some ps) e (inl h) = inr ([], rw h refl)
default-Reports s a o e (inr (inl h)) = inl h
default-Reports s a o e (inr (inr (front, h))) = inr (front, rw h refl)

save-Reported : (d : Deps) (s : CopilotState) → Reporting s → Returns Reported (save_turn d s)
unfolding save_turn
save-Reported d s (a, (h, r)) = rw h (record {
  answer = default_policies s a;
  held = refl;
  reports = default-Reports s a a.policies refl r;
})

is_later : Option Node → Bool
is_later none = false
is_later (some Node.save_turn) = false
is_later (some Node.load_context) = false
is_later (some Node.classify_intent) = false
is_later (some Node.answer_from_previous) = false
is_later (some n) = true

later_pending : (o : Option Node) (s : CopilotState) → is_later o ≡ true → IsReporting (arrive o s)
unfolding is_later
later_pending none s h = absurd (ground arith)
later_pending (some Node.save_turn) s h = absurd (ground arith)
later_pending (some Node.load_context) s h = absurd (ground arith)
later_pending (some Node.classify_intent) s h = absurd (ground arith)
later_pending (some Node.answer_from_previous) s h = absurd (ground arith)
later_pending (some _) s h = tt

-- The nodes after which nothing is pending.
abbrev settles : Node → Bool
settles Node.resolve_lookup_entities = true
settles Node.make_plan = true
settles Node.validate_sql = true
settles Node.execute_sql = true
settles Node.analyze_result = true
settles Node.retry_sql = true
settles _ = false

either-Pending :
    (b : Bool) (s : CopilotState)
    → Reporting s
    → Pending (if b then Node.resolve_lookup_entities else Node.save_turn) s
either-Pending true s h = tt
either-Pending false s h = h

module _ (d : Deps) where
  next_later :
      (n : Node) (s : CopilotState) → settles n ≡ true → is_later (next d.settings n s) ≡ true
  unfolding next is_later
  next_later n s h = ground arith

  leave_pending :
      (n : Node) (a : Attempt CopilotState) → settles n ≡ true → IsReporting (leave d n a)
  leave_pending n (returned s) h = later_pending (next d.settings n s) s (next_later n s h)
  leave_pending n (raised e) h = tt

  load_pending :
      (w : Agents) (s : CopilotState)
      → s.result ≡ none
      → IsReporting (leave d Node.load_context (load_context d w s))
  unfolding load_context next
  load_pending w s h = h

  classified_pending :
      (s : CopilotState)
      → s.result ≡ none
      → IsReporting (arrive (next d.settings Node.classify_intent s) s)
  unfolding next
  classified_pending s h = ground arith

  reanswered_pending :
      (s : CopilotState) (a : Attempt PreviousAnswer)
      → s.result ≡ none
      → IsReporting (leave d Node.answer_from_previous (a >>= λ r. returned (reanswered s r)))
  unfolding next route_after_answer_from_previous plain
  reanswered_pending s (returned r) h = elim (Bool-cases r.should_replan) [
    | inl e ↦ rw (e, h) tt
    | inr e ↦ rw e (either-Pending _ _ (_, (refl, inl refl)))
  ]
  reanswered_pending s (raised e) h = tt

  classify_pending :
      (w : Agents) (s : CopilotState)
      → s.result ≡ none
      → IsReporting (leave d Node.classify_intent (classify_intent d w s))
  unfolding classify_intent
  classify_pending w s h = elim (Bool-cases s.clarification_followup) [
    | inl e ↦ rw e (classified_pending _ h)
    | inr e ↦ rw e (classified_pending _ h)
  ]

  hits_unset :
      (hits : List GlossaryHit) (reason : Option String)
      → (build_glossary_response d.services hits reason).policies ≡ none
  unfolding plain build_glossary_response build_clarify_response
  hits_unset [] reason = refl
  hits_unset (h ∷ hs) reason = refl

  glossary_unset : (s : CopilotState) (o : Attempt String) → (glossary_result d s o).policies ≡ none
  unfolding plain
  glossary_unset s (returned a) = refl
  glossary_unset s (raised e) = hits_unset s.glossary_hits s.intent_reason

  visit_reports :
      (w : Agents) (n : Node) (s : CopilotState)
      → Pending n s
      → IsReporting (leave d n (visit d w n s))
  unfolding visit
  visit_reports w Node.reset_turn_state s h = unfold reset_turn_state next in refl
  visit_reports w Node.load_context s h = load_pending w s h
  visit_reports w Node.classify_intent s h = classify_pending w s h
  visit_reports w Node.answer_from_previous s h =
      unfold answer_from_previous_node in reanswered_pending s _ h
  visit_reports w Node.glossary_answer s h =
      unfold glossary_answer next in (_, (refl, inl (glossary_unset s _)))
  visit_reports w Node.smalltalk_answer s h =
      unfold smalltalk_answer next plain in (_, (refl, inl refl))
  visit_reports w Node.clarify_from_lookup s h =
      unfold clarify_from_lookup next in (_, (refl, inr (inr ([], refl))))
  visit_reports w Node.out_of_scope_answer s h =
      unfold out_of_scope_answer refusal next in
      (
        _,
        (
          refl,
          inr (
              inr (
                _,
                ap some (
                    to_payload-append
                      (refusal_policies (caller d s)
                        (or_text s.out_of_scope_reason "That is outside your access scope.")
                        s.out_of_scope_code)
                      _),
              )),
        ),
      )
  visit_reports w Node.unsupported_from_plan s h =
      unfold unsupported_from_plan build_unsupported_response plain next in
      (_, (refl, inr (inl refl)))
  visit_reports w Node.clarify_from_plan s h =
      unfold clarify_from_plan with_lookup build_clarify_response plain next in
      (_, (refl, inl refl))
  visit_reports w Node.execute_error s h =
      unfold execute_error next in (_, (refl, inr (inr ([], refl))))
  visit_reports w Node.synthesize s h = unfold synthesize next in (_, (refl, inr (inr ([], refl))))
  visit_reports w Node.save_turn s h = unfold save_turn next in save-Reported d s h
  visit_reports w n s h = leave_pending n (visit d w n s) refl

  step_reports : (w : Agents) (r : Run) → IsReporting r → IsReporting (step d w r)
  unfolding step
  step_reports w (at n s) h = visit_reports w n s h
  step_reports w (finished s) h = h
  step_reports w (failed e) h = tt

  Reach-reports : {r t : Run} → IsReporting r → Reach d r t → IsReporting t
  Reach-reports h here = h
  Reach-reports h ((then) {t = t} w p) = step_reports w t (Reach-reports h p)

-- Every turn that finishes has an answer that reports, perhaps after a refusal, each policy that the
-- turn applied, unless the answer is the verdict that the question cannot be planned.
pub policies-Reported :
    (d : Deps) (s : CopilotState) {t : CopilotState} → Reach d (start s) (finished t) → Reported t
policies-Reported d s p = Reach-reports d tt p
