-- ===== src/Graph/Flow/Safety.antt =====
-- What reaches the database, and what an answer rests on.
use conversational_copil.Prelude.{String, ◌≡◌, refl, false, some, truthy, Bool-cases, inl, inr, ◌⊎◌}
use conversational_copil.Payload.{Value, nil, sanitize_items}
use conversational_copil.Graph.State.{Answer, RowsPayload, CopilotState}
use conversational_copil.Graph.Agents.{returned, Agents, GuardLaws}
use conversational_copil.Graph.Deps.{Deps, with_lookup}
use conversational_copil.Graph.Replies.{plain, build_error_response}
use conversational_copil.Graph.Nodes.{Node}
use conversational_copil.Graph.Execution.{executed, synthesize, build_analytics_response, no_rows}
use conversational_copil.Graph.Flow.{Run, at, leave, visit, next, step, start, Reach, here, then}
use conversational_copil.Graph.Flow.Ready.{
  Cleared, HoldsRows, Gives, AllObey, or_text-some, sent_statement, Reach-IsReady,
}

-- The relation that every answer is in.
abbrev anything : Gives
anything q r = Unit

all_obey : {d : Deps} {r t : Run} (p : Reach d r t) → AllObey anything p
all_obey here = tt
all_obey (then w p) = ((λ q r e. tt), all_obey p)

-- The node sends that statement: what it makes of the state is what the agents say of it.
pub record SendsCleared (d : Deps) (w : Agents) (s : CopilotState) : Type 0 where
  pub statement : String
  pub held : s.sql ≡ some statement
  pub cleared : Cleared d.services s.query statement
  pub sent :
      step d w (at Node.execute_sql s)
      ≡ leave d Node.execute_sql (returned (executed d.services s (w.run_sql statement)))

-- Whatever the agents answer, each statement that a turn sends to the database is one that the
-- validator accepted, in the form that it gave back, and that the shape check passed for the
-- question, if a rejection always says why.
pub executes_cleared :
    (d : Deps) (laws : GuardLaws d.services) (s : CopilotState) (w : Agents) {t : CopilotState}
    → Reach d (start s) (at Node.execute_sql t)
    → SendsCleared d w t
executes_cleared d laws s w {t = t} p =
    let h = Reach-IsReady d laws anything p (all_obey p) tt in
    record {
      statement = h.statement;
      held = h.held;
      cleared = h.cleared;
      sent = sent_statement d laws anything w t h;
    }

-- The answer that is written from rows, and the rows that it shows.
pub record WritesRows (d : Deps) (R : Gives) (w : Agents) (s : CopilotState) : Type 0 where
  pub source : HoldsRows d.services R s
  pub answer : Answer
  pub wrote :
      step d w (at Node.synthesize s) ≡ at Node.save_turn (record s { result = some answer })
  pub quotes : answer.sql ≡ some source.source.statement
  pub shows :
      (answer.rows ≡ nil)
      ⊎ (answer.rows
          ≡ sanitize_items (
              d.services.clean_rows d.settings.max_result_preview_rows source.payload.columns
                source.payload.rows))

analytics_answer :
    (d : Deps) (q reason : String) (r : RowsPayload) (v : Value)
    → truthy r.error ≡ false
    → ((build_analytics_response d q r reason v).sql ≡ some q)
      × (((build_analytics_response d q r reason v).rows ≡ nil)
          ⊎ ((build_analytics_response d q r reason v).rows
              ≡ sanitize_items
                  (d.services.clean_rows d.settings.max_result_preview_rows r.columns r.rows)))
unfolding build_analytics_response plain build_error_response
analytics_answer d q reason r v h = elim (Bool-cases (no_rows r.rows)) [
  | inl e ↦ elim (Bool-cases (d.services.looks_like_empty_result (d.services.strip r.raw_text))) [
    | inl f ↦ rw (h, e, f) (refl, inl refl)
    | inr f ↦ rw (h, e, f) (refl, inl refl)
  ]
  | inr e ↦ rw (h, e) (refl, inr refl)
]

written :
    (d : Deps) (R : Gives) (w : Agents) (s : CopilotState)
    → HoldsRows d.services R s
    → WritesRows d R w s
unfolding step visit next synthesize with_lookup
written d R w s h =
    let q = or_text-some s.sql h.source.statement h.source.held in
    let a = analytics_answer d h.source.statement _ h.payload _ h.no_error in
    record {
      source = record {
        source = record {
          statement = h.source.statement;
          held = h.source.held;
          cleared = h.source.cleared;
        };
        payload = h.payload;
        given = h.given;
        held = h.held;
        no_error = h.no_error;
      };
      answer = _;
      wrote = refl;
      quotes = rw (q, h.held) a.0;
      shows = rw (q, h.held) a.1;
    }

-- Whatever the agents answer, the answer from data quotes a statement that the validator and the
-- shape check passed, and shows no rows or the cleaned ones of a payload without an error that the
-- database gave for that statement, if a rejection always says why and an error always has a text.
pub answers_from_rows :
    (d : Deps) (laws : GuardLaws d.services) (R : Gives) (s : CopilotState) (w : Agents)
    {t : CopilotState} (p : Reach d (start s) (at Node.synthesize t))
    → AllObey R p
    → WritesRows d R w t
answers_from_rows d laws R s w {t = t} p g = written d R w t (Reach-IsReady d laws R p g tt)
