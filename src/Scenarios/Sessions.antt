-- ===== src/Scenarios/Sessions.antt =====
-- A server that keeps a session's role, settings and path and answers one statement, with the
-- theorems on sessions and runs at it.
use conversational_copil.Database.Running.{reported_rows, Fetched, unscoped_refused}
use conversational_copil.Database.Reporting.{error_text}
use conversational_copil.Prelude.{
  get_key, digits_before, ap, ℕ, String, ◌≡◌, ◌↔◌, ◌≢◌, ◌⊎◌, inr, refl, subst, sym, ◌∙◌, true, not,
  Option, none, some, List, [], ◌∷◌, arith, str_eq, eq_iff, is_text, if◌then◌else◌, numeral,
  is_name_rest,
}
use conversational_copil.Access.{
  persona_schemas, persona_roles, default_settings, persona_role, persona_schema,
}
use conversational_copil.Payload.{Value}
use conversational_copil.Database.{
  failed, Outcome, done, fault, Action, Statement, reset_role, set_local_role, set_config,
  set_search_path, set_statement_timeout, Cell, Row, Driver, DriverLaws, SameScope, null_if_empty,
}
use conversational_copil.Database.Scope.{
  check_scope, safe_reset, copilot_scope, assert_scope_active, Deployment, is_ident, safe_ident,
  issue, scope_statements, set_role, set_guc, find_key, safe_persona_roles,
}
use conversational_copil.Database.Released.{
  copilot_scope_lem, Stuck, Scoped, assert_exact, Named, Accepts,
}
use conversational_copil.Database.Executor.{
  normalize_pg_rows, capped_payload, error_payload, classify_sql_error, attempt_sql, Limits,
  with_row_cap, run_sql,
}
use conversational_copil.Scenarios.{executive, good_sql}

pub record Server : Type 0 where
  pub user : String
  pub settings : String → Option String
  pub path : List String

abbrev login : String
login = "ci_app"

abbrev put : String → String → (String → Option String) → String → Option String
put n v f m = if str_eq m n then some v else f m

abbrev perform : Statement → Action Server Unit
perform reset_role s = (done tt, record s { user = login })
perform (set_local_role r) s = (done tt, record s { user = r })
perform (set_config n v) s = (done tt, record s { settings = put n v s.settings })
perform (set_search_path p) s = (done tt, record s { path = p })
perform (set_statement_timeout n) s = (done tt, s)

abbrev limits : Limits
limits = record { sql_timeout_seconds = 30; max_query_rows = 1 }

abbrev capped_sql : String
capped_sql =
    "SELECT * FROM (\nSELECT sum(units) FROM sales_daily WHERE day >= '2026-01-01'\n) AS _row_cap LIMIT 2"

abbrev two_rows : List Row
two_rows =
    (("sum", Cell.plain (Value.integer "7")) ∷ [])
    ∷ (("sum", Cell.plain (Value.integer "9")) ∷ [])
    ∷ []

abbrev server : Driver Server
server = record {
  execute = perform;
  select_scope = λ s. (done (s.user, null_if_empty (s.settings "app.role_level")), s);
  query = λ n q s. (
    (if str_eq q capped_sql then done two_rows else fault (failed "syntax error at or near")),
    s,
  );
  in_transaction = λ s. not (str_eq s.user login);
  rollback = λ s. (done tt, record s { user = login });
  savepoint = λ s. (done tt, s);
  release_savepoint = λ s. (done tt, s);
  rollback_to_savepoint = λ s. (done tt, s);
  login_role = login;
  current_user = λ s. s.user;
  setting = λ s. s.settings;
  search_path = λ s. s.path;
}

unchanged : (s t : Server) → s ≡ t → SameScope server s t
unchanged s t e = record {
  same_user = sym (ap (λ (x : Server). x.user) e);
  same_settings = λ n o. sym (ap (λ (x : Server). x.settings n) e);
  same_path = sym (ap (λ (x : Server). x.path) e);
}

put-other : (n v m : String) (f : String → Option String) → m ≢ n → put n v f m ≡ f m
put-other n v m f h = ground (arith, eq_iff m n)

put_self : (n v : String) (f : String → Option String) → put n v f n ≡ some v
put_self n v f = ground (arith, eq_iff n n)

left :
    {A : Type 0} {o p : Outcome A} {s t : Server}
    → ◌≡◌ {A = Outcome A × Server} (o, s) (p, t)
    → s ≡ t
left h i = (h i).1

same_user :
    {A : Type 0} {o p : Outcome A} {s t : Server}
    → ◌≡◌ {A = Outcome A × Server} (o, s) (p, t)
    → t.user ≡ s.user
same_user h = sym (ap (λ (x : Server). x.user) (left h))

row_of : String × Option String → Outcome (String × Option String) → String × Option String
row_of d (done r) = r
row_of d (fault e) = d

server-DriverLaws : DriverLaws server
unfolding row_of
server-DriverLaws = record {
  role_set = λ r s t u h. same_user h;
  config_set = λ n v s t u o h. (
    same_user h,
    sym (ap (λ (x : Server). x.settings n) (left h)) ∙ put_self n v s.settings,
    λ m own ne. sym (ap (λ (x : Server). x.settings m) (left h)) ∙ put-other n v m s.settings ne,
  );
  path_set = λ p s t u h. (
    same_user h,
    (λ m own. sym (ap (λ (x : Server). x.settings m) (left h))),
    sym (ap (λ (x : Server). x.path) (left h)),
  );
  timeout_set = λ n s t u h. unchanged s t (left h);
  scope_read = λ s t r l h.
      let row = ap (row_of (r, l)) (λ i. (h i).0) in
      (
        sym (ap (λ (x : String × Option String). x.0) row),
        sym (ap (λ (x : String × Option String). x.1) row),
        unchanged s t (left h),
      );
  role_reset = λ s t u h. same_user h;
  reset_failed = λ s t e h. absurd (ground arith);
  role_local = λ s h. ground (arith, eq_iff s.user login);
  rolled_back = λ s t u h. same_user h;
  savepoint_set = λ s t u h. unchanged s t (left h);
  savepoint_restored = λ s t x y u v n q e h1 h2 h3. unchanged s y (left h1 ∙ left h2 ∙ left h3);
}

abbrev deployment : Deployment
deployment = record {
  settings = default_settings;
  ci_core_schema = "ci_core";
  ci_meta_schema = "ci_meta";
  ci_loader_role = "ci_loader";
}

deployment-Named : Named deployment
unfolding is_ident is_name_rest
deployment-Named = record {
  hod_schema = refl;
  exec_schema = refl;
  hod_role = refl;
  exec_role = refl;
}

abbrev fresh : Server
fresh = record { user = login; settings = λ n. none; path = "public" ∷ [] }

abbrev executive_session : Server
executive_session = record {
  user = "ci_copilot_exec";
  settings = put "app.role_level" "EXEC" (put "app.principal_id" "u-1" (λ n. none));
  path = "ci_exec" ∷ "ci_core" ∷ "ci_meta" ∷ [];
}

executive_set :
    issue server (scope_statements deployment executive) fresh ≡ (done tt, executive_session)
unfolding issue scope_statements set_role set_guc safe_ident is_ident is_name_rest persona_role
    persona_roles persona_schema persona_schemas get_key
executive_set = refl

-- A statement that the server does not know.
abbrev bad_sql : String
bad_sql = "SELEC 1"

abbrev answering : Action Server ℕ
answering s = (done 7, s)

copilot_scope_lem_example :
    (copilot_scope server deployment executive answering fresh
      ≡ (done 7, safe_reset server executive_session))
    × Scoped server deployment executive executive_session
    × Accepts default_settings "ci_copilot_exec" (some "EXEC")
    × ((server.current_user (safe_reset server executive_session) ≡ login)
        ⊎ Stuck server server-DriverLaws executive_session)
copilot_scope_lem_example =
    copilot_scope_lem server server-DriverLaws deployment executive answering fresh
      executive_session executive_session (done 7) deployment-Named (inr refl) executive_set refl

assert_exact_example :
    (assert_scope_active server default_settings executive_session ≡ (done tt, executive_session))
    ↔ Accepts default_settings "ci_copilot_exec" (some "EXEC")
assert_exact_example =
    assert_exact server server-DriverLaws default_settings executive_session executive_session
      ("ci_copilot_exec", some "EXEC") refl

-- a session of the manager's role that claims to be an executive's
abbrev escalated : Server
escalated = record executive_session { user = "ci_copilot_hod" }

escalated_refused : ¬ Accepts default_settings "ci_copilot_hod" (some "EXEC")
unfolding find_key safe_persona_roles safe_ident is_ident is_name_rest persona_roles
escalated_refused (l, e, f) =
    two_roles (subst (λ o. level_role o ≡ some "ci_copilot_hod") (sym e) f)
  where
    level_role : Option String → Option String
    level_role none = none
    level_role (some v) = find_key v (safe_persona_roles default_settings)

    two_roles : ◌≡◌ {A = Option String} (some "ci_copilot_exec") (some "ci_copilot_hod") → ⊥
    two_roles h = ground (arith, eq_iff "ci_copilot_exec" "ci_copilot_hod")

unscoped_refused_example :
    (m : String) × (run_sql server default_settings limits good_sql escalated
      ≡ (error_payload m, escalated))
    × (is_text m ≡ true)
    × SameScope server escalated escalated
unscoped_refused_example =
    unscoped_refused server server-DriverLaws default_settings limits good_sql escalated escalated
      ("ci_copilot_hod", some "EXEC") refl escalated_refused

good_run :
    run_sql server default_settings limits good_sql executive_session
    ≡ (capped_payload 1 two_rows, executive_session)
unfolding run_sql attempt_sql assert_scope_active check_scope find_key safe_persona_roles safe_ident
    is_ident is_name_rest persona_roles with_row_cap numeral digits_before
good_run = refl

reported_rows_example :
    Fetched server server-DriverLaws default_settings limits good_sql executive_session
      (capped_payload 1 two_rows)
unfolding capped_payload normalize_pg_rows
reported_rows_example =
    reported_rows server server-DriverLaws default_settings limits good_sql executive_session
      executive_session (capped_payload 1 two_rows) good_run refl

error_text_example : is_text (classify_sql_error "") ≡ true
error_text_example = error_text ""
