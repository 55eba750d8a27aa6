-- ===== src/Database/Running.antt =====
-- What a run of a statement reports: its rows, its failures, and the session that it leaves.
use conversational_copil.Prelude.{
  str_eq, ◌+◌, ◌*◌, inl, inr, String, ◌≡◌, ◌⊎◌, refl, ap, ◌∙◌, subst, true, Bool-cases, Option,
  none, some, List, arith, is_text, text-append,
}
use conversational_copil.Access.{Settings}
use conversational_copil.Graph.State.{RowsPayload}
use conversational_copil.Database.{
  Fault, timed_out, failed, Outcome, done, fault, Action, continue, set_statement_timeout, Row,
  Driver, DriverLaws, SameScope,
}
use conversational_copil.Database.Scope.{
  safe_persona_roles, wrong_role, find_key, unset_level, unknown_level, against,
  assert_scope_active, check_scope,
}
use conversational_copil.Database.Released.{Accepts, assert_exact}
use conversational_copil.Database.Reporting.{Reports, capped-Reports}
use conversational_copil.Database.Executor.{
  with_row_cap, Limits, row_cap, error_payload, fault_payload, closing, raise_again, attempt_sql,
  run_sql, recovered,
}

-- A step that returned: its first part returned, and then the rest did.
continue-done :
    {S A B : Type 0} (f : A → Action S B) (r : Outcome A × S) (b : B) (t : S)
    → continue f r ≡ (done b, t)
    → (a : A) × (u : S) × (r ≡ (done a, u)) × (f a u ≡ (done b, t))
continue-done f (done a, u) b t h = (a, u, refl, h)
continue-done f (fault e, u) b t h = absurd (ground arith)

-- A check of a scope passes or raises with a text.
against-cases :
    (role level : String) (o : Option String)
    → (against role level o ≡ done tt)
      ⊎ ((m : String) × (against role level o ≡ fault (failed m)) × (is_text m ≡ true))
against-cases role level none =
    inr (unknown_level level, refl, text-append "app.role_level is " _ refl)
against-cases role level (some x) = elim (Bool-cases (str_eq role x)) [
  | inl e ↦ rw e (inl refl)
  | inr e ↦
      rw e (inr (wrong_role role level x, refl, text-append "query attempted as role " _ refl))
]

check_scope-cases :
    (c : Settings) (row : String × Option String)
    → (check_scope c row ≡ done tt)
      ⊎ ((m : String) × (check_scope c row ≡ fault (failed m)) × (is_text m ≡ true))
unfolding check_scope
check_scope-cases c (role, none) = inr (unset_level, refl, refl)
check_scope-cases c (role, some level) = elim (Bool-cases (is_text level)) [
  | inl e ↦ rw e (against-cases role level (find_key level (safe_persona_roles c)))
  | inr e ↦ rw e (inr (unset_level, refl, refl))
]

SameScope-trans :
    {S : Type 0} (d : Driver S) (s t u : S) → SameScope d s t → SameScope d t u → SameScope d s u
SameScope-trans d s t u f g = record {
  same_user = g.same_user ∙ f.same_user;
  same_settings = λ n o. g.same_settings n o ∙ f.same_settings n o;
  same_path = g.same_path ∙ f.same_path;
}

fault_said : (l : Limits) (f : Fault) → (fault_payload l f).error ≡ none → ⊥
unfolding fault_payload error_payload
fault_said l timed_out h = ground arith
fault_said l (failed m) h = ground arith

abbrev payload_or : RowsPayload → Outcome RowsPayload → RowsPayload
payload_or p (done q) = q
payload_or p (fault e) = p

module _ {S : Type 0} (d : Driver S) (laws : DriverLaws d) (c : Settings) (l : Limits) where
  -- A statement is not sent to a session whose role is not the one that its role level requires:
  -- the run gives a payload without rows whose error is the text of a failed check, and the session
  -- keeps the role, the program's settings and the path that it had.
  pub unscoped_refused :
      (sql : String) (s t : S) (row : String × Option String)
      → d.select_scope s ≡ (done row, t)
      → ¬ Accepts c (d.current_user s) (d.setting s "app.role_level")
      → (m : String) × (run_sql d c l sql s ≡ (error_payload m, t))
        × (is_text m ≡ true)
        × SameScope d s t
  unfolding run_sql error_payload fault_payload
  unscoped_refused sql s t (role, level) h refused = elim (check_scope-cases c (role, level)) [
    | inl e ↦ absurd (refused ((assert_exact d laws c s t (role, level) h).0 (asserted _ e)))
    | inr (m, e, text) ↦ (m, rw (asserted _ e) refl, text, (laws.scope_read s t role level h).2)
  ]
    where
      asserted :
          (o : Outcome Unit) → check_scope c (role, level) ≡ o → assert_scope_active d c s ≡ (o, t)
      asserted o e = unfold assert_scope_active in rw (h, e) refl

  asserted_scope :
      (s t : S)
      → assert_scope_active d c s ≡ (done tt, t)
      → Accepts c (d.current_user s) (d.setting s "app.role_level") × SameScope d s t
  unfolding assert_scope_active
  asserted_scope s t h =
      let ((role, level), u, read, rest) = continue-done _ (d.select_scope s) tt t h in
      let at = read ∙ (λ i. (done (role, level), (rest i).1)) in
      ((assert_exact d laws c s t (role, level) at).0 h, (laws.scope_read s t role level at).2)

  -- the rows behind a `with` block that returned
  nested_rows :
      (sql : String) (s t : S) (rows : List Row) (r : Outcome (List Row) × S)
      → closing d r ≡ (done rows, t)
      → (y : S) × (r ≡ (done rows, y))
  nested_rows sql s t rows (done got, y) h =
      let (u, z, released, same) = continue-done _ (d.release_savepoint y) rows t h in
      (y, λ i. ((same i).0, y))
  nested_rows sql s t rows (fault e, y) h = absurd (again (d.rollback_to_savepoint y) h)
    where
      again : (r : Outcome Unit × S) → raise_again d e r ≡ (done rows, t) → ⊥
      again (done u, z) h = ground arith
      again (fault f, z) h = ground arith

  -- Rows that the database gave for the statement under its cap, in a session of the role that its
  -- role level requires, and a payload that reports them.
  pub record Fetched (sql : String) (s : S) (p : RowsPayload) : Type 0 where
    pub accepted : Accepts c (d.current_user s) (d.setting s "app.role_level")
    pub fetched : List Row
    pub session : S
    pub left : S
    pub in_scope : SameScope d s session
    pub answered :
        d.query (l.sql_timeout_seconds + 5) (with_row_cap sql (row_cap l)) session
        ≡ (done fetched, left)
    pub reports : Reports (row_cap l) fetched p

  attempted_rows :
      (sql : String) (s t : S) (p : RowsPayload)
      → attempt_sql d c l sql s ≡ (done p, t)
      → Fetched sql s p
  unfolding attempt_sql
  attempted_rows sql s t p h =
      let (_, s1, asserted, h1) = continue-done _ (assert_scope_active d c s) p t h in
      let (_, s2, limited, h2) =
        continue-done _ (d.execute (set_statement_timeout (l.sql_timeout_seconds * 1000)) s1) p t
          h1 in
      let (rows, s3, fetched, h3) = continue-done _ _ p t h2 in
      let (_, x, saved, h4) = continue-done _ (d.savepoint s2) rows s3 fetched in
      let (y, answered) = nested_rows sql x s3 rows _ h4 in
      let (accepted, checked) = asserted_scope s s1 asserted in
      record {
        accepted = accepted;
        fetched = rows;
        session = x;
        left = y;
        in_scope =
            SameScope-trans d s s2 x
              (SameScope-trans d s s1 s2 checked (laws.timeout_set _ s1 s2 tt limited))
              (laws.savepoint_set s2 x tt saved);
        answered = answered;
        reports =
            subst (Reports (row_cap l) rows) (ap (payload_or p) (λ i. (h3 i).0))
              (capped-Reports (row_cap l) rows);
      }

  recovered_rows :
      (sql : String) (s t : S) (p : RowsPayload) (r : Outcome RowsPayload × S)
      → attempt_sql d c l sql s ≡ r
      → recovered d l r ≡ (p, t)
      → p.error ≡ none
      → Fetched sql s p
  recovered_rows sql s t p (done q, u) a h e =
      attempted_rows sql s u p (a ∙ (λ i. (done (h i).0, u)))
  recovered_rows sql s t p (fault f, u) a h e =
      absurd (fault_said l f (ap (λ (q : RowsPayload × S). q.0.error) h ∙ e))

  -- A run that reports no error got its rows from the database, for the statement under its cap, in
  -- a session of the role that its role level requires. It reports as many of them as the cap
  -- allows, and that some are left out exactly if some are. Its columns are the names of the first row,
  -- and each reported row has under them what the fetched one last says under that name, or null.
  pub reported_rows :
      (sql : String) (s t : S) (p : RowsPayload)
      → run_sql d c l sql s ≡ (p, t)
      → p.error ≡ none
      → Fetched sql s p
  unfolding run_sql
  reported_rows sql s t p h e = recovered_rows sql s t p (attempt_sql d c l sql s) refl h e
