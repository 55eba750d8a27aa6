-- ===== src/Access/Personas.antt =====
-- Access control by persona: which schema and role a role level reads with
-- (`persona_schema`, `persona_role` and `can_see_money` of app/service/principal_service.py).
use conversational_copil.Prelude.{◌≡◌, if◌then◌else◌, str_eq, Bool-cases, inl, inr}
use conversational_copil.Access.{
  Settings, PrincipalContext, persona_schema, persona_role, can_see_money,
}

-- For every role level, known or not, the schema and the role that a caller reads with are the
-- revenue pair if the caller may see money, and the executive pair otherwise: never a mixed pair.
pub persona_pair :
    (s : Settings) (p : PrincipalContext)
    → (persona_schema s p ≡ (if can_see_money p then s.ci_hod_schema else s.ci_exec_schema))
      × (persona_role s p
          ≡ (if can_see_money p then s.ci_copilot_hod_role else s.ci_copilot_exec_role))
unfolding persona_schema persona_role can_see_money
persona_pair s p = elim (Bool-cases (str_eq p.role_level "HOD")) [
  | inl e ↦ (rw e, rw e)
  | inr e ↦ elim (Bool-cases (str_eq p.role_level "EXEC")) [
    | inl x ↦ (rw (e, x), rw (e, x))
    | inr x ↦ (rw (e, x), rw (e, x))
  ]
]
