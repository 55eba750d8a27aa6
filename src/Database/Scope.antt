-- ===== src/Database/Scope.antt =====
-- The role and the persona of a request (app/db/session_scope.py), with the role names and
-- `safe_ident` of app/db/v3_ddl.py.
use conversational_copil.Prelude.{
  String, ◌<>◌, Bool, false, ◌&&◌, Option, none, some, List, [], ◌∷◌, ◌++◌, map, if◌then◌else◌,
  str_eq, is_text, is_name_start, is_name_rest,
}
use conversational_copil.Access.{
  Settings, PrincipalContext, persona_roles, persona_schema, persona_role,
}
use conversational_copil.Database.{
  failed, Outcome, done, fault, Action, continue, after, Statement, reset_role, set_local_role,
  set_config, set_search_path, Driver,
}

-- `CORE`, `META` and `LOADER_ROLE`, with the names that Access reads
pub record Deployment : Type 0 where
  pub settings : Settings
  pub ci_core_schema : String
  pub ci_meta_schema : String
  pub ci_loader_role : String

-- `_IDENT_RE.match(value)`
unfoldable pub is_ident : String → Bool
unfolding is_name_rest
is_ident String.[] = false
is_ident (String.◌∷◌ c s) = is_name_start c && is_name_rest s

unfoldable pub safe_ident : String → String → String
safe_ident value fallback = if is_ident value then value else fallback

-- `_PERSONA_ROLES`
unfoldable pub safe_persona_roles : Settings → List (String × String)
unfolding persona_roles
safe_persona_roles c =
    map (λ (entry : String × String). (entry.0, safe_ident entry.1 "ci_copilot_exec"))
      (persona_roles c)

-- `_PERSONA_ROLES.get(level)`
unfoldable pub find_key : String → List (String × String) → Option String
find_key k [] = none
find_key k ((j, v) ∷ m) = if str_eq k j then some v else find_key k m

-- the statements of `_set_role` and `_set_guc`
unfoldable pub set_role : String → List Statement
set_role role = reset_role ∷ set_local_role role ∷ []

unfoldable pub set_guc : String → String → List Statement
set_guc name value = set_config name value ∷ []

-- the statements that precede the `yield` of `copilot_scope`
unfoldable pub scope_statements : Deployment → PrincipalContext → List Statement
unfolding set_role set_guc
scope_statements c p =
    set_role (safe_ident (persona_role c.settings p) c.settings.ci_copilot_exec_role)
    ++ set_guc "app.principal_id" p.principal_id
    ++ set_guc "app.role_level" p.role_level
    ++ set_search_path (
        safe_ident (persona_schema c.settings p) c.settings.ci_exec_schema
        ∷ c.ci_core_schema
        ∷ c.ci_meta_schema
        ∷ [])
      ∷ []

module _ {S : Type 0} (d : Driver S) where
  -- Statements in order, up to the first that raises.
  unfoldable pub issue : List Statement → Action S Unit
  issue [] s = (done tt, s)
  issue (x ∷ xs) s = continue (λ u. issue xs) (d.execute x s)

  -- What a call leaves, its exception dropped.
  abbrev pub suppressed : {A : Type 0} → Outcome A × S → S
  suppressed (o, s) = s

  unfoldable pub safe_reset : S → S
  safe_reset s =
      suppressed
        (d.execute reset_role (if d.in_transaction s then suppressed (d.rollback s) else s))

  -- `try: yield db  finally: await _safe_reset(db)`
  abbrev pub cleaned : {A : Type 0} → Outcome A × S → Outcome A × S
  cleaned (o, s) = (o, safe_reset s)

  abbrev pub within : {A : Type 0} → Action S A → Unit {0} → Action S A
  within body u s = cleaned (body s)

  unfoldable pub system_scope : {A : Type 0} → Deployment → Action S A → Action S A
  unfolding set_role
  system_scope c body =
      after (issue (set_role (safe_ident c.ci_loader_role "ci_loader"))) (within body)

  unfoldable pub copilot_scope :
      {A : Type 0} → Deployment → PrincipalContext → Action S A → Action S A
  unfolding scope_statements safe_reset
  copilot_scope c p body = after (issue (scope_statements c p)) (within body)

-- `repr` of a text that has no quotes and nothing to escape
abbrev quoted : String → String
quoted s = "'" <> (s <> "'")

abbrev pub unset_level : String
unset_level =
    "app.role_level is not set, so the persona schema fell back to the executive view and money columns would be silently absent. SQL must run inside copilot_scope()."

-- sorted(_PERSONA_ROLES)
abbrev pub unknown_level : String → String
unknown_level l =
    "app.role_level is "
    <> (quoted l <> ", which maps to no persona role. Known levels: EXEC, HOD.")

abbrev pub wrong_role : String → String → String → String
wrong_role role level expected =
    "query attempted as role "
    <> (quoted role
        <> (", but role_level "
            <> (quoted level
                <> (" requires "
                    <> (quoted expected <> ". SQL must run inside copilot_scope().")))))

abbrev pub against : String → String → Option String → Outcome Unit
against role level none = fault (failed (unknown_level level))
against role level (some expected) =
    if str_eq role expected then done tt else fault (failed (wrong_role role level expected))

-- the checks of `assert_scope_active` on the row that it reads
unfoldable pub check_scope : Settings → String × Option String → Outcome Unit
unfolding safe_persona_roles find_key
check_scope c (role, none) = fault (failed unset_level)
check_scope c (role, some level) =
    if is_text level
    then against role level (find_key level (safe_persona_roles c))
    else fault (failed unset_level)

unfoldable pub assert_scope_active : {S : Type 0} → Driver S → Settings → Action S Unit
unfolding check_scope
assert_scope_active d c = after d.select_scope (λ row s. (check_scope c row, s))
