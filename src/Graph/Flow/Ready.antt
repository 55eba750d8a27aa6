-- ===== src/Graph/Flow/Ready.antt =====
-- What a run holds at the nodes that the database and the answer from data depend on.
use conversational_copil.Prelude.{
  String, ◌≡◌, refl, sym, ap, eq_iff, Bool, true, false, Option, none, some, arith, truthy, or_text,
  Bool-cases, inl, inr,
}
use conversational_copil.Payload.{Value}
use conversational_copil.Graph.State.{RowsPayload, CopilotState}
use conversational_copil.Graph.Agents.{
  Attempt, returned, raised, ◌>>=◌, Agents, Services, SqlValidation, accepted, rejected,
  ShapeValidation, shape_ok, shape_rejected, GuardLaws,
}
use conversational_copil.Graph.Deps.{Deps}
use conversational_copil.Graph.Nodes.{Node}
use conversational_copil.Graph.Execution.{
  validate_sql_node, execute_sql_node, analyze_result_node, analyzed, checked, shape_checked,
  executed,
}
use conversational_copil.Graph.Flow.{
  Run, at, finished, failed, arrive, leave, visit, next, step, Reach, here, then,
  route_after_validate, route_after_execute,
}

-- A statement that the validator gave back and the shape check passed, for the question asked.
pub record Cleared (v : Services) (query sql : String) : Type 0 where
  pub submitted : Option String
  pub validated : v.validate_sql submitted ≡ accepted sql
  pub shaped : v.validate_query_shape query sql ≡ shape_ok

-- The state holds such a statement.
pub record HoldsCleared (v : Services) (s : CopilotState) : Type 0 where
  pub statement : String
  pub held : s.sql ≡ some statement
  pub cleared : Cleared v s.query statement

-- What the database may give for a statement, as a relation.
abbrev pub Gives : Type 1
Gives = String → RowsPayload → Type 0

-- Each answer of these agents for a statement is one that the relation has.
abbrev pub Obeys : Gives → Agents → Type 0
Obeys R w = (q : String) (r : RowsPayload) → w.run_sql q ≡ returned r → R q r

-- So are those of the agents of each step of a run.
abbrev pub AllObey : Gives → {d : Deps} → {r t : Run} → Reach d r t → Type 0
AllObey R here = Unit
AllObey R (then w p) = Obeys R w × AllObey R p

-- The state holds what the database gave for that statement, with no error.
pub record HoldsRows (v : Services) (R : Gives) (s : CopilotState) : Type 0 where
  pub source : HoldsCleared v s
  pub payload : RowsPayload
  pub given : R source.statement payload
  pub held : s.rows_payload ≡ some payload
  pub no_error : truthy payload.error ≡ false

or_text_self : (q : String) → or_text (some q) "" ≡ q
or_text_self q = ground (arith, eq_iff q "")

pub or_text-some : (o : Option String) (q : String) → o ≡ some q → or_text o "" ≡ q
or_text-some o q h = rw h (or_text_self q)

abbrev pub Ready : Services → Gives → Node → CopilotState → Type 0
Ready v R Node.execute_sql s = HoldsCleared v s
Ready v R Node.analyze_result s = HoldsRows v R s
Ready v R Node.synthesize s = HoldsRows v R s
Ready v R _ s = Unit

abbrev pub IsReady : Services → Gives → Run → Type 0
IsReady v R (at n s) = Ready v R n s
IsReady v R (finished s) = Unit
IsReady v R (failed e) = Unit

-- The nodes that need nothing.
abbrev is_free : Node → Bool
is_free Node.execute_sql = false
is_free Node.analyze_result = false
is_free Node.synthesize = false
is_free _ = true

abbrev is_free? : Option Node → Bool
is_free? none = true
is_free? (some n) = is_free n

free-Ready :
    (v : Services) (R : Gives) (n : Node) (s : CopilotState) → is_free n ≡ true → Ready v R n s
free-Ready v R Node.execute_sql s h = cc
free-Ready v R Node.analyze_result s h = cc
free-Ready v R Node.synthesize s h = cc
free-Ready v R _ s h = tt

arrive-IsReady :
    (v : Services) (R : Gives) (o : Option Node) (s : CopilotState)
    → is_free? o ≡ true
    → IsReady v R (arrive o s)
arrive-IsReady v R none s h = tt
arrive-IsReady v R (some n) s h = free-Ready v R n s h

-- The nodes after which no need arises.
abbrev leads_free : Node → Bool
leads_free Node.validate_sql = false
leads_free Node.execute_sql = false
leads_free Node.analyze_result = false
leads_free _ = true

module _ (d : Deps) (R : Gives) where
  next_free :
      (n : Node) (s : CopilotState) → leads_free n ≡ true → is_free? (next d.settings n s) ≡ true
  unfolding next
  next_free Node.validate_sql s h = cc
  next_free Node.execute_sql s h = cc
  next_free Node.analyze_result s h = cc
  next_free Node.classify_intent s h = ground arith
  next_free Node.answer_from_previous s h = ground arith
  next_free Node.resolve_lookup_entities s h = ground arith
  next_free Node.make_plan s h = ground arith
  next_free _ s h = refl

  leave-IsReady :
      (n : Node) (a : Attempt CopilotState)
      → leads_free n ≡ true
      → IsReady d.services R (leave d n a)
  leave-IsReady n (returned s) h =
      arrive-IsReady d.services R (next d.settings n s) s (next_free n s h)
  leave-IsReady n (raised e) h = tt

module _ (d : Deps) (laws : GuardLaws d.services) (R : Gives) where
  -- What the validator rejects does not go on to the database.
  rejected_ready :
      (s : CopilotState)
      → truthy s.validation_error ≡ true
      → is_free? (next d.settings Node.validate_sql s) ≡ true
  unfolding next
  rejected_ready s h = ground arith

  cleared-IsReady :
      (s : CopilotState)
      → truthy s.validation_error ≡ false
      → HoldsCleared d.services s
      → IsReady d.services R (arrive (next d.settings Node.validate_sql s) s)
  unfolding next route_after_validate
  cleared-IsReady s h c = elim (Bool-cases (truthy s.out_of_scope_reason)) [
    | inl e ↦ rw e tt
    | inr e ↦ rw (e, h) c
  ]

  shaped-IsReady :
      (s : CopilotState) (submitted : Option String) (sql : String) (o : ShapeValidation)
      → d.services.validate_sql submitted ≡ accepted sql
      → d.services.validate_query_shape s.query sql ≡ o
      → IsReady d.services R (leave d Node.validate_sql (returned (shape_checked s sql o)))
  shaped-IsReady s submitted sql shape_ok e o = cleared-IsReady _ refl (record {
    statement = sql;
    held = refl;
    cleared = record { submitted = submitted; validated = e; shaped = o };
  })
  shaped-IsReady s submitted sql (shape_rejected f) e o =
      arrive-IsReady d.services R (next d.settings Node.validate_sql _) _
        (rejected_ready _ (laws.shape_rejection_said s.query sql f o))

  checked-IsReady :
      (s : CopilotState) (o : SqlValidation)
      → d.services.validate_sql s.sql ≡ o
      → IsReady d.services R (leave d Node.validate_sql (returned (checked d.services s o)))
  checked-IsReady s (accepted sql) e =
      shaped-IsReady s s.sql sql (d.services.validate_query_shape s.query sql) e refl
  checked-IsReady s (rejected sql f) e =
      arrive-IsReady d.services R (next d.settings Node.validate_sql _) _
        (rejected_ready _ (laws.rejection_said s.sql sql f e))

  -- What the database reports as an error does not go on to the analysis.
  errored_ready :
      (s : CopilotState)
      → truthy s.execution_error ≡ true
      → is_free? (next d.settings Node.execute_sql s) ≡ true
  unfolding next
  errored_ready s h = ground arith

  rows-IsReady :
      (s : CopilotState)
      → truthy s.execution_error ≡ false
      → HoldsRows d.services R s
      → IsReady d.services R (arrive (next d.settings Node.execute_sql s) s)
  unfolding next route_after_execute
  rows-IsReady s h r = rw h r

  executed-IsReady :
      (s : CopilotState) (w : Agents) (c : HoldsCleared d.services s) (a : Attempt RowsPayload)
      → Obeys R w
      → w.run_sql c.statement ≡ a
      → IsReady d.services R (leave d Node.execute_sql (returned (executed d.services s a)))
  executed-IsReady s w c (returned r) g e = elim (Bool-cases (truthy r.error)) [
    | inl x ↦ rw x (
        arrive-IsReady d.services R (next d.settings Node.execute_sql _) _
          (errored_ready _ (laws.error_said (or_text r.error ""))))
    | inr x ↦ rw x (
        rows-IsReady _ refl (record {
          source = record { statement = c.statement; held = c.held; cleared = c.cleared };
          payload = r;
          given = g c.statement r e;
          held = refl;
          no_error = x;
        }))
  ]
  executed-IsReady s w c (raised e) g x =
      arrive-IsReady d.services R (next d.settings Node.execute_sql _) _
        (errored_ready _ (laws.error_said e))

  analyzed-IsReady :
      (s : CopilotState) (a : Attempt Value)
      → HoldsRows d.services R s
      → IsReady d.services R
          (leave d Node.analyze_result (a >>= λ analysis. returned (analyzed s analysis)))
  unfolding next
  analyzed-IsReady s (returned v) h = record {
    source = record {
      statement = h.source.statement;
      held = h.source.held;
      cleared = h.source.cleared;
    };
    payload = h.payload;
    given = h.given;
    held = h.held;
    no_error = h.no_error;
  }
  analyzed-IsReady s (raised e) h = tt

  pub sent_statement :
      (w : Agents) (s : CopilotState) (h : HoldsCleared d.services s)
      → step d w (at Node.execute_sql s)
        ≡ leave d Node.execute_sql (returned (executed d.services s (w.run_sql h.statement)))
  unfolding step visit execute_sql_node
  sent_statement w s h =
      ap (λ q. leave d Node.execute_sql (returned (executed d.services s (w.run_sql q))))
        (or_text-some s.sql h.statement h.held)

  visit-Ready :
      (w : Agents) (n : Node) (s : CopilotState)
      → Obeys R w
      → Ready d.services R n s
      → IsReady d.services R (leave d n (visit d w n s))
  unfolding visit
  visit-Ready w Node.validate_sql s g h = unfold validate_sql_node in checked-IsReady s _ refl
  visit-Ready w Node.execute_sql s g h =
      unfold execute_sql_node in
      executed-IsReady s w h _ g (ap w.run_sql (sym (or_text-some s.sql h.statement h.held)))
  visit-Ready w Node.analyze_result s g h = unfold analyze_result_node in analyzed-IsReady s _ h
  visit-Ready w n s g h = leave-IsReady d R n (visit d w n s) refl

  step-IsReady :
      (w : Agents) (r : Run)
      → Obeys R w
      → IsReady d.services R r
      → IsReady d.services R (step d w r)
  unfolding step
  step-IsReady w (at n s) g h = visit-Ready w n s g h
  step-IsReady w (finished s) g h = tt
  step-IsReady w (failed e) g h = tt

  pub Reach-IsReady :
      {r t : Run} (p : Reach d r t) → AllObey R p → IsReady d.services R r → IsReady d.services R t
  Reach-IsReady here g h = h
  Reach-IsReady (then {t = t} w p) g h = step-IsReady w t g.0 (Reach-IsReady p g.1 h)
