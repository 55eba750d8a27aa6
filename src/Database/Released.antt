-- ===== src/Database/Released.antt =====
-- What a session is inside `copilot_scope`, and after it.
use conversational_copil.Prelude.{
  get_key, String, ◌≡◌, ◌↔◌, ◌⊎◌, inl, inr, refl, sym, ap, ◌∙◌, subst, Bool, true, false,
  Bool-cases, Option, none, some, List, [], ◌∷◌, arith, eq_iff, is_text,
}
use conversational_copil.Access.{
  Settings, persona_roles, PrincipalContext, persona_schema, persona_role, can_see_money,
}
use conversational_copil.Access.Personas.{persona_pair}
use conversational_copil.Database.{
  Fault, Outcome, done, fault, Action, continue, Statement, reset_role, Driver, DriverLaws,
  null_if_empty,
}
use conversational_copil.Database.Scope.{
  against, Deployment, is_ident, safe_ident, set_role, set_guc, suppressed, safe_reset, issue,
  scope_statements, copilot_scope, check_scope, assert_scope_active, find_key, safe_persona_roles,
}

module _ {S : Type 0} (d : Driver S) where
  -- Statements that all returned: the first did, and then the rest.
  issue-done :
      (x : Statement) (xs : List Statement) (s t : S)
      → issue d (x ∷ xs) s ≡ (done tt, t)
      → (u : S) × (d.execute x s ≡ (done tt, u)) × (issue d xs u ≡ (done tt, t))
  unfolding issue
  issue-done x xs s t h = from (d.execute x s) refl h
    where
      from :
          (r : Outcome Unit × S)
          → d.execute x s ≡ r
          → continue (λ u. issue d xs) r ≡ (done tt, t)
          → (u : S) × (d.execute x s ≡ (done tt, u)) × (issue d xs u ≡ (done tt, t))
      from (done a, u) e h = (u, e, h)
      from (fault x, u) e h = absurd (ground arith)

  issue-end : (s t : S) → issue d [] s ≡ (done tt, t) → s ≡ t
  unfolding issue
  issue-end s t h = λ i. (h i).1

-- The role, the two settings and the search path that a caller's statements run with.
pub record Scoped {S : Type 0} (d : Driver S) (c : Deployment) (p : PrincipalContext) (s : S)
    : Type 0 where
  pub role : d.current_user s ≡ persona_role c.settings p
  pub principal : d.setting s "app.principal_id" ≡ some p.principal_id
  pub level : d.setting s "app.role_level" ≡ some p.role_level
  pub path :
      d.search_path s ≡ persona_schema c.settings p ∷ c.ci_core_schema ∷ c.ci_meta_schema ∷ []

-- The role and schema names of the deployment are bare names.
pub record Named (c : Deployment) : Type 0 where
  pub hod_schema : is_ident c.settings.ci_hod_schema ≡ true
  pub exec_schema : is_ident c.settings.ci_exec_schema ≡ true
  pub hod_role : is_ident c.settings.ci_copilot_hod_role ≡ true
  pub exec_role : is_ident c.settings.ci_copilot_exec_role ≡ true

Named-role :
    (c : Deployment) (p : PrincipalContext) → Named c → is_ident (persona_role c.settings p) ≡ true
Named-role c p n = rw ((persona_pair c.settings p).1) (elim (Bool-cases (can_see_money p)) [
  | inl e ↦ rw (e, n.hod_role)
  | inr e ↦ rw (e, n.exec_role)
])

Named-schema :
    (c : Deployment) (p : PrincipalContext)
    → Named c
    → is_ident (persona_schema c.settings p) ≡ true
Named-schema c p n = rw ((persona_pair c.settings p).0) (elim (Bool-cases (can_see_money p)) [
  | inl e ↦ rw (e, n.hod_schema)
  | inr e ↦ rw (e, n.exec_schema)
])

safe_ident-ident : (v f : String) → is_ident v ≡ true → safe_ident v f ≡ v
unfolding safe_ident
safe_ident-ident v f h = rw h

module _ {S : Type 0} (d : Driver S) (laws : DriverLaws d) (c : Deployment) (n : Named c) where
  entered :
      (p : PrincipalContext) (s t : S)
      → issue d (scope_statements c p) s ≡ (done tt, t)
      → Scoped d c p t
  unfolding scope_statements set_role set_guc
  entered p s t h0 =
      let (s1, reset, h1) = issue-done d _ _ s t h0 in
      let (s2, role_set, h2) = issue-done d _ _ s1 t h1 in
      let (s3, id_set, h3) = issue-done d _ _ s2 t h2 in
      let (s4, level_set, h4) = issue-done d _ _ s3 t h3 in
      let (s5, path_set, h5) = issue-done d _ _ s4 t h4 in
      let a = laws.role_set _ _ _ _ role_set in
      let b = laws.config_set _ _ _ _ _ (inl refl) id_set in
      let e = laws.config_set _ _ _ _ _ (inr refl) level_set in
      let g = laws.path_set _ _ _ _ path_set in
      subst (Scoped d c p) (issue-end d s5 t h5) (record {
        role = g.0 ∙ e.0 ∙ b.0 ∙ a ∙ safe_ident-ident _ _ (Named-role c p n);
        principal =
            g.1 "app.principal_id" (inl refl)
            ∙ e.2 "app.principal_id" (inl refl)
                (ground (arith, eq_iff "app.principal_id" "app.role_level"))
            ∙ b.1;
        level = g.1 "app.role_level" (inr refl) ∙ e.1;
        path =
            g.2
            ∙ ap (λ x. x ∷ c.ci_core_schema ∷ c.ci_meta_schema ∷ [])
                (safe_ident-ident _ _ (Named-schema c p n));
      })

-- A role level that a persona is defined for.
abbrev pub IsKnown : PrincipalContext → Type 0
IsKnown p = (p.role_level ≡ "HOD") ⊎ (p.role_level ≡ "EXEC")

known_role :
    (c : Deployment) (p : PrincipalContext)
    → Named c
    → IsKnown p
    → find_key p.role_level (safe_persona_roles c.settings) ≡ some (persona_role c.settings p)
unfolding find_key safe_persona_roles persona_role persona_roles get_key
known_role c p n (inl e) =
    rw (e, safe_ident-ident c.settings.ci_copilot_hod_role "ci_copilot_exec" n.hod_role)
known_role c p n (inr e) =
    rw (e, safe_ident-ident c.settings.ci_copilot_exec_role "ci_copilot_exec" n.exec_role)

known_text :
    (p : PrincipalContext) → IsKnown p → null_if_empty (some p.role_level) ≡ some p.role_level
known_text p (inl e) = rw e refl
known_text p (inr e) = rw e refl

-- What the check of a scope accepts: a level that is there, whose role is the session's.
abbrev pub Accepts : Settings → String → Option String → Type 0
Accepts c role level =
    (l : String) × (null_if_empty level ≡ some l) × (find_key l (safe_persona_roles c) ≡ some role)

against-exact :
    (role level : String) (o : Option String) → (against role level o ≡ done tt) ↔ (o ≡ some role)
against-exact role level none = (λ h. absurd (ground arith), λ h. absurd (ground arith))
against-exact role level (some x) = ground (arith, eq_iff role x)

none-some : {x : String} → none ≡ some x → ⊥
none-some h = ground arith

some-some : {x y : String} → some x ≡ some y → x ≡ y
some-some h = ground arith

check_scope-exact :
    (c : Settings) (role : String) (level : Option String)
    → (check_scope c (role, null_if_empty level) ≡ done tt) ↔ Accepts c role level
unfolding check_scope
check_scope-exact c role none = (λ h. absurd (ground arith), λ h. absurd (none-some h.1))
check_scope-exact c role (some v) = elim (Bool-cases (is_text v)) [
  | inl e ↦
      rw (e, e)
        (
          (λ h. (v, refl, (against-exact role v (find_key v (safe_persona_roles c))).0 h)),
          (λ h. (against-exact role v (find_key v (safe_persona_roles c))).1 (
              subst (λ l. find_key l (safe_persona_roles c) ≡ some role) (sym (some-some h.1))
                h.2)),
        )
  | inr e ↦ rw e (λ h. absurd (ground arith), λ h. absurd (none-some h.1))
]

module _ {S : Type 0} (d : Driver S) (laws : DriverLaws d) where
  -- Where the database answers, `assert_scope_active` returns exactly if the session has a role
  -- level, a persona role is defined for that level, and the session's role is that one.
  pub assert_exact :
      (c : Settings) (s t : S) (row : String × Option String)
      → d.select_scope s ≡ (done row, t)
      → (assert_scope_active d c s ≡ (done tt, t))
        ↔ Accepts c (d.current_user s) (d.setting s "app.role_level")
  unfolding assert_scope_active
  assert_exact c s t (role, level) h =
      let read = laws.scope_read s t role level h in
      let exact = check_scope-exact c (d.current_user s) (d.setting s "app.role_level") in
      let same : check_scope c (role, level)
          ≡ check_scope c (d.current_user s, null_if_empty (d.setting s "app.role_level")) =
        λ i. check_scope c (read.0 i, read.1 i) in
      rw h ((λ e. exact.0 (sym same ∙ (λ i. (e i).0))), (λ a. ap (λ o. (o, t)) (same ∙ exact.1 a)))

  -- A session that a caller's scope was set on passes the check.
  Scoped-accepted :
      (c : Deployment) (n : Named c) (p : PrincipalContext) (s : S)
      → IsKnown p
      → Scoped d c p s
      → Accepts c.settings (d.current_user s) (d.setting s "app.role_level")
  Scoped-accepted c n p s k h =
      rw (h.level, h.role) (p.role_level, known_text p k, known_role c p n k)

  -- `ROLLBACK` and `RESET ROLE` that both failed
  pub record Stuck (x : S) : Type 0 where
    pub after_rollback : S
    pub after_reset : S
    pub rollback_fault : Fault
    pub reset_fault : Fault
    pub rollback_failed : d.rollback x ≡ (fault rollback_fault, after_rollback)
    pub reset_failed : d.execute reset_role after_rollback ≡ (fault reset_fault, after_reset)

  -- after the reset of a session, unless it failed
  reset_from :
      (x : S) (r : Outcome Unit × S)
      → d.execute reset_role x ≡ r
      → (d.current_user (suppressed d r) ≡ d.login_role)
        ⊎ ((e : Fault) × (r ≡ (fault e, suppressed d r))
            × (d.current_user (suppressed d r) ≡ d.current_user x))
  reset_from x (done u, y) h = inl (laws.role_reset x y u h)
  reset_from x (fault e, y) h = inr (e, refl, laws.reset_failed x y e h)

  released_from :
      (x : S) (b : Bool) (r : Outcome Unit × S)
      → d.in_transaction x ≡ b
      → d.rollback x ≡ r
      → (d.current_user (safe_reset d x) ≡ d.login_role) ⊎ Stuck x
  unfolding safe_reset
  released_from x false r hb hr = rw hb (elim (reset_from x (d.execute reset_role x) refl) [
    | inl e ↦ inl e
    | inr (f, e, same) ↦ inl (same ∙ laws.role_local x hb)
  ])
  released_from x true (done u, y) hb hr =
      rw (hb, hr)
        (elim (reset_from y (d.execute reset_role y) refl) [
          | inl e ↦ inl e
          | inr (f, e, same) ↦ inl (same ∙ laws.rolled_back x y u hr)
        ])
  released_from x true (fault x0, y) hb hr =
      rw (hb, hr)
        (elim (reset_from y (d.execute reset_role y) refl) [
          | inl e ↦ inl e
          | inr (f, e, same) ↦ inr (record {
            after_rollback = y;
            after_reset = suppressed d (d.execute reset_role y);
            rollback_fault = x0;
            reset_fault = f;
            rollback_failed = hr;
            reset_failed = e;
          })
        ])

  -- Once the session's role and persona are set, `copilot_scope` runs its body in a session that
  -- `assert_scope_active` accepts, for a caller whose role level has a persona and bare names of
  -- roles and schemas. It returns or raises what the body does, and leaves the login role, whatever
  -- the body did, unless both the rollback and the reset fail.
  pub copilot_scope_lem :
      {A : Type 0} (c : Deployment) (p : PrincipalContext) (body : Action S A) (s t x : S)
      (o : Outcome A)
      → Named c
      → IsKnown p
      → issue d (scope_statements c p) s ≡ (done tt, t)
      → body t ≡ (o, x)
      → (copilot_scope d c p body s ≡ (o, safe_reset d x))
        × Scoped d c p t
        × Accepts c.settings (d.current_user t) (d.setting t "app.role_level")
        × ((d.current_user (safe_reset d x) ≡ d.login_role) ⊎ Stuck x)
  unfolding copilot_scope
  copilot_scope_lem c p body s t x o n k h b = (
    rw (h, b) refl,
    entered d laws c n p s t h,
    Scoped-accepted c n p t k (entered d laws c n p s t h),
    released_from x (d.in_transaction x) (d.rollback x) refl refl,
  )
