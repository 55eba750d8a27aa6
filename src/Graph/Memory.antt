-- ===== src/Graph/Memory.antt =====
-- What a turn keeps of the last one (`reset_turn_state`, `load_context` and the decision on the turn).
use conversational_copil.Prelude.{
  ℕ, suc, ◌+◌, String, ◌≡◌, ◌∙◌, refl, ap, Bool, true, false, not, ◌&&◌, ◌||◌, Option, none, some,
  List, arith, Bool-cases, inl, inr, if◌then◌else◌,
}
use conversational_copil.Clarification.Followup
use conversational_copil.Clarification.Followup.{Sources}
use conversational_copil.Graph.State.{Answer, Message, CopilotState}
use conversational_copil.Graph.Agents.{Attempt, returned, raised, TurnDecision, Agents, Services}
use conversational_copil.Graph.Deps.{Deps, last, parse_last_assistant_payload}
use conversational_copil.Graph.Nodes.{Node}
use conversational_copil.Graph.Turn.{
  is_clarify, is_clarification_answer, correct_turn, fresh_turn, decided,
  decide_conversation_turn_relation,
}
use conversational_copil.Graph.Context.{reset_turn_state, Carryover, carryover, load_context}
use conversational_copil.Graph.Flow.Retries.{Returns}
use conversational_copil.Graph.Flow.{at, run, step, start, visit, next}

-- Two states that agree on what outlives a turn.
pub record Agree (s t : CopilotState) : Type 0 where
  pub principal : s.principal ≡ t.principal
  pub query : s.query ≡ t.query
  pub thread_id : s.thread_id ≡ t.thread_id
  pub request_id : s.request_id ≡ t.request_id
  pub history : s.history ≡ t.history

reset-Agree : (s t : CopilotState) → Agree s t → reset_turn_state s ≡ reset_turn_state t
unfolding reset_turn_state
reset-Agree s t h = rw (h.principal, h.query, h.thread_id, h.request_id, h.history) refl

start-Agree :
    (d : Deps) (w : Agents) (s t : CopilotState)
    → Agree s t
    → step d w (start s) ≡ step d w (start t)
unfolding step visit next
start-Agree d w s t h = ap (at Node.load_context) (reset-Agree s t h)

-- A whole turn, whatever the agents answer, depends on nothing of the restored state but the caller,
-- the question, the two ids and the history.
pub turn_forgets :
    (d : Deps) (worlds : ℕ → Agents) (fuel k : ℕ) (s t : CopilotState)
    → Agree s t
    → run d worlds (suc fuel) k (start s) ≡ run d worlds (suc fuel) k (start t)
unfolding run
turn_forgets d worlds fuel k s t h = ap (run d worlds fuel (k + 1)) (start-Agree d (worlds k) s t h)

-- The model's decision says that the message answers the clarification.
abbrev pub says : Attempt TurnDecision → Bool
says (returned d) =
    is_clarification_answer d.relation_to_previous_clarification && d.reuse_previous_clarification
says (raised e) = false

-- The assistant asked for a clarification, and the model says that the message answers it.
abbrev pub model_reuses : Agents → String → Option Answer → Bool
model_reuses w query none = false
model_reuses w query (some a) = is_clarify a.kind && says (w.decide_turn query a)

abbrev reuses : TurnDecision → Bool
reuses d =
    d.reuse_previous_clarification && is_clarification_answer d.relation_to_previous_clarification

reuses-decided :
    (a : Answer) (o : Attempt TurnDecision) → reuses (decided a o) ≡ (is_clarify a.kind && says o)
unfolding correct_turn fresh_turn
reuses-decided a (returned d) = ground arith
reuses-decided a (raised e) = ground arith

decision_reuses :
    (v : Services) (w : Agents) (query : String) (previous : Option Answer)
    → v.is_terminal_lookup_failure_clarify previous ≡ false
    → reuses (decide_conversation_turn_relation v w query previous) ≡ model_reuses w query previous
unfolding decide_conversation_turn_relation fresh_turn
decision_reuses v w query none h = refl
decision_reuses v w query (some a) h = rw h (reuses-decided a (w.decide_turn query a))

terminal_decision :
    (v : Services) (w : Agents) (query : String) (previous : Option Answer)
    → v.is_terminal_lookup_failure_clarify previous ≡ true
    → reuses (decide_conversation_turn_relation v w query previous) ≡ false
unfolding decide_conversation_turn_relation fresh_turn
terminal_decision v w query none h = refl
terminal_decision v w query (some a) h = rw h refl

-- A message is taken as the answer to the assistant's last one exactly when that was no terminal
-- lookup failure, and either it is a pending clarification and the message a short reply, or it asked
-- for a clarification and the model says that the message answers it. A model that fails says no.
pub clarification_reused :
    (v : Services) (w : Agents) (query : String) (previous : Option Answer)
    → (carryover v previous (decide_conversation_turn_relation v w query previous) query).reuse ≡ (
        not (v.is_terminal_lookup_failure_clarify previous)
        && ((v.is_prior_assistant_clarification previous
              && v.looks_like_short_clarification_answer query)
            || model_reuses w query previous))
unfolding carryover
clarification_reused v w query previous =
    elim (Bool-cases (v.is_terminal_lookup_failure_clarify previous)) [
      | inl e ↦ rw (e, terminal_decision v w query previous e) (ground arith)
      | inr e ↦ rw (e, decision_reuses v w query previous e) refl
    ]

carryover_abandons :
    (v : Services) (w : Agents) (query : String) (previous : Option Answer)
    → (carryover v previous (decide_conversation_turn_relation v w query previous) query).abandoned
      ≡ (v.is_terminal_lookup_failure_clarify previous
          || (v.is_prior_assistant_clarification previous
              && not
                  (carryover v previous
                    (decide_conversation_turn_relation v w query previous)
                    query).reuse))
unfolding carryover
carryover_abandons v w query previous = refl

-- The previous payload of a state, as `load_context` reads it, and the turn's carry-over.
abbrev pub previous_payload : Deps → CopilotState → Option Answer
previous_payload d s =
    parse_last_assistant_payload d.services.loads (last d.settings.chat_history_limit s.history)

abbrev pub turn_carryover : Deps → Agents → CopilotState → Carryover
turn_carryover d w s =
    carryover d.services (previous_payload d s)
      (decide_conversation_turn_relation d.services w s.query (previous_payload d s)) s.query

-- A state that has nothing of the clarification that was pending: its question is the message alone.
pub record IsFresh (d : Deps) (message : String) (history : List Message) (t : CopilotState)
    : Type 0 where
  pub own_query : t.query ≡ message
  pub no_followup : t.clarification_followup ≡ false
  pub no_payload : t.previous_assistant_payload ≡ none
  pub no_plan : t.lookup_plan ≡ none
  pub no_option : t.clarification_selected_option ≡ none
  pub no_rewrite : t.contextual_rewrite ≡ none
  pub no_filters : t.inherits_previous_filters ≡ false
  pub no_entities : t.inherits_entity_filters ≡ false
  pub no_period : t.inherits_time_period ≡ false
  pub window_cut : t.history ≡ d.services.history_without_active_clarification_window history

-- The assistant's last message asked for something, which the user's message does not answer.
abbrev pub goes_unanswered : Services → Agents → String → Option Answer → Bool
goes_unanswered v w query previous =
    v.is_terminal_lookup_failure_clarify previous
    || (v.is_prior_assistant_clarification previous
        && (not (v.looks_like_short_clarification_answer query)
            && not (model_reuses w query previous)))

unanswered_abandoned :
    (v : Services) (w : Agents) (query : String) (previous : Option Answer)
    → goes_unanswered v w query previous ≡ true
    → (carryover v previous (decide_conversation_turn_relation v w query previous) query).abandoned
      ≡ true
unanswered_abandoned v w query previous h =
    ground (arith, carryover_abandons v w query previous, clarification_reused v w query previous)

abandoned_unused :
    (v : Services) (w : Agents) (query : String) (previous : Option Answer)
    → (carryover v previous (decide_conversation_turn_relation v w query previous) query).abandoned
      ≡ true
    → (carryover v previous (decide_conversation_turn_relation v w query previous) query).reuse
      ≡ false
abandoned_unused v w query previous h =
    ground (arith, carryover_abandons v w query previous, clarification_reused v w query previous)

and_false : (b : Bool) → (b && false) ≡ false
and_false b = ground arith

no_choice : (b c : Bool) (query : String) → c ≡ false → (if b && c then some query else none) ≡ none
no_choice b c query h = ground arith

-- Without a clarification the followup query is the message.
message_alone :
    (f : Sources) (q : String) (h : List Message)
    → Followup.build_clarification_followup_query f q h none ≡ (q, false, none)
unfolding Followup.build_clarification_followup_query
message_alone f q h = refl

-- What `load_context` gives to the builder of the query.
built :
    (d : Deps) (w : Agents) (s : CopilotState) (f : Sources)
    → d.services.build_clarification_followup_query ≡ Followup.build_clarification_followup_query f
    → (turn_carryover d w s).reuse ≡ false
    → d.services.build_clarification_followup_query s.query
        (last d.settings.chat_history_limit s.history)
        (if (turn_carryover d w s).reuse && not (turn_carryover d w s).terminal_failure
          then previous_payload d s
          else none)
      ≡ (s.query, false, none)
built d w s f e r =
    (λ i.
      e i s.query (last d.settings.chat_history_limit s.history)
        (if r i && not (turn_carryover d w s).terminal_failure then previous_payload d s else none))
    ∙ message_alone f s.query (last d.settings.chat_history_limit s.history)

load_abandons :
    (d : Deps) (w : Agents) (s : CopilotState) (f : Sources)
    → d.services.build_clarification_followup_query ≡ Followup.build_clarification_followup_query f
    → (turn_carryover d w s).abandoned ≡ true
    → (turn_carryover d w s).reuse ≡ false
    → Returns
        (IsFresh d s.query (last d.settings.chat_history_limit s.history))
        (load_context d w s)
unfolding load_context
load_abandons d w s f e h r = record {
  own_query = λ i. (built d w s f e r i).0;
  no_followup = λ i. (built d w s f e r i).1;
  no_payload = rw h refl;
  no_plan = rw h refl;
  no_option = no_choice _ (turn_carryover d w s).reuse s.query r;
  no_rewrite = rw h refl;
  no_filters = rw h refl;
  no_entities = rw h (and_false _);
  no_period = rw h refl;
  window_cut = rw h refl;
}

-- If the assistant's last message was a terminal lookup failure, or a pending clarification that the
-- message neither answers shortly nor, for the model, at all, then the turn starts with nothing of it:
-- its question is the message alone, there is no payload, plan, chosen option, rewrite or inherited
-- filter, and the history is without its window, if the followup query is built as the clarification
-- policy does.
pub abandoned_forgotten :
    (d : Deps) (w : Agents) (s : CopilotState) (f : Sources)
    → d.services.build_clarification_followup_query ≡ Followup.build_clarification_followup_query f
    → goes_unanswered d.services w s.query (previous_payload d s) ≡ true
    → Returns
        (IsFresh d s.query (last d.settings.chat_history_limit s.history))
        (load_context d w s)
abandoned_forgotten d w s f same h =
    let e = unanswered_abandoned d.services w s.query (previous_payload d s) h in
    load_abandons d w s f same e (abandoned_unused d.services w s.query (previous_payload d s) e)
