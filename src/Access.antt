-- ===== src/Access.antt =====
-- The caller's persona (app/service/principal_service.py, app/db/v3_ddl.py) and the structured
-- record of each policy that shaped an answer (app/service/access_policy.py).
pub mod Personas
use conversational_copil.Prelude.{
  String, ◌<>◌, Bool, Option, none, some, List, [], ◌∷◌, if◌then◌else◌, str_eq, is_text, truthy,
  or_text, get_key,
}

-- The role and schema names of the deployment (app/core/config.py).
pub record Settings : Type 0 where
  pub ci_hod_schema : String
  pub ci_exec_schema : String
  pub ci_copilot_hod_role : String
  pub ci_copilot_exec_role : String

abbrev pub default_settings : Settings
default_settings = record {
  ci_hod_schema = "ci_hod";
  ci_exec_schema = "ci_exec";
  ci_copilot_hod_role = "ci_copilot_hod";
  ci_copilot_exec_role = "ci_copilot_exec";
}

pub record PrincipalContext : Type 0 where
  pub principal_id : String
  pub role_level : String

unfoldable pub persona_schemas : Settings → List (String × String)
persona_schemas s = ("HOD", s.ci_hod_schema) ∷ ("EXEC", s.ci_exec_schema) ∷ []

unfoldable pub persona_roles : Settings → List (String × String)
persona_roles s = ("HOD", s.ci_copilot_hod_role) ∷ ("EXEC", s.ci_copilot_exec_role) ∷ []

-- the executive schema is the default of an unknown role level
unfoldable pub persona_schema : Settings → PrincipalContext → String
unfolding persona_schemas get_key
persona_schema s p = get_key p.role_level s.ci_exec_schema (persona_schemas s)

unfoldable pub persona_role : Settings → PrincipalContext → String
unfolding persona_roles get_key
persona_role s p = get_key p.role_level s.ci_copilot_exec_role (persona_roles s)

unfoldable pub can_see_money : PrincipalContext → Bool
can_see_money p = str_eq p.role_level "HOD"

unfoldable pub describe_scope : PrincipalContext → String
unfolding can_see_money
describe_scope p =
    "all OpCos and all categories; "
    <> (if can_see_money p then "including revenue measures" else "excluding revenue measures")

-- `DENIED` and `SUBSTITUTED`
pub data Effect : Type 0 where
  denied substituted : Effect

pub Effect-discrete : Discrete Effect
Effect-discrete = hlevel

pub record AppliedPolicy : Type 0 where
  pub code : String
  pub effect : Effect
  pub message : String
  -- the caller's role level; `none` is the empty scope of a missing caller
  pub scope : Option String
  pub requested_metric : Option String
  pub substituted_with : Option String

-- The serialised policy. A metric that is left out of the dictionary is `none`.
pub record Notice : Type 0 where
  pub code : String
  pub effect : Effect
  pub enforced_by : String
  pub message : String
  pub scope : Option String
  pub requested_metric : Option String
  pub substituted_with : Option String

abbrev pub customer_identity : String
customer_identity = "customer_identity"

abbrev pub role_money_withheld : String
role_money_withheld = "role_money_withheld"

unfoldable pub enforced_by_code : List (String × String)
enforced_by_code =
    (customer_identity, "schema.no_customer_key")
    ∷ (role_money_withheld, "persona_view.ci_exec")
    ∷ []

unfoldable pub enforced_by : AppliedPolicy → String
unfolding enforced_by_code get_key
enforced_by p = get_key p.code "" enforced_by_code

-- a key whose value is false is not written
abbrev pub when_truthy : Option String → Option String
when_truthy o = if truthy o then o else none

unfoldable pub to_dict : AppliedPolicy → Notice
unfolding enforced_by
to_dict p = record {
  code = p.code;
  effect = p.effect;
  enforced_by = enforced_by p;
  message = p.message;
  scope = p.scope;
  requested_metric = when_truthy p.requested_metric;
  substituted_with = when_truthy p.substituted_with;
}

unfoldable pub scope_of : Option PrincipalContext → Option String
scope_of none = none
scope_of (some p) = some p.role_level

unfoldable pub denial : String → String → Option PrincipalContext → AppliedPolicy
unfolding scope_of
denial code message principal = record {
  code = code;
  effect = denied;
  message = message;
  scope = scope_of principal;
  requested_metric = none;
  substituted_with = none;
}

unfoldable pub money_substitution : Option PrincipalContext → String → String → AppliedPolicy
unfolding scope_of
money_substitution principal requested substitute = record {
  code = role_money_withheld;
  effect = substituted;
  message =
      "Revenue measures are not available at your role level, so this answer uses a volume measure instead. The figure is not money.";
  scope = scope_of principal;
  requested_metric = some requested;
  substituted_with = some substitute;
}

unfoldable pub money_denial : Option PrincipalContext → AppliedPolicy
unfolding scope_of
money_denial principal = record {
  code = role_money_withheld;
  effect = denied;
  message =
      "That question can only be answered with revenue, which is not available at your role level.";
  scope = scope_of principal;
  requested_metric = none;
  substituted_with = none;
}

-- What a list of policies may hold: one built at this node, or one that the state carried.
pub data PolicyItem : Type 0 where
  built : AppliedPolicy → PolicyItem
  carried : Notice → PolicyItem

unfoldable pub to_payload : List PolicyItem → List Notice
to_payload [] = []
to_payload (built p ∷ ps) = to_dict p ∷ to_payload ps
to_payload (carried n ∷ ps) = let rest = to_payload ps in if is_text n.code then n ∷ rest else rest
