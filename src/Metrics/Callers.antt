-- ===== src/Metrics/Callers.antt =====
-- Which metrics a caller is given, and what is withheld from one who sees no money.
use conversational_copil.Prelude.{
  String, ◌≡◌, inl, inr, refl, sym, ◌∙◌, subst, Bool, true, false, not, ◌||◌, Bool-cases, Option,
  none, some, List, [], ◌∷◌, arith, if◌then◌else◌, keep_if, keep_if-cons_true, keep_if-cons_false,
  elem_of, str_eq, eq_iff, is_text, All,
}
use conversational_copil.Access.{PrincipalContext}
use conversational_copil.Wording.{normalize_lookup_text}
use conversational_copil.Metrics.{
  MetricDefinition, needs_money, MetricService, put_metric, load, sees_money, available, get_metric,
  match_metric, keys, metric_at, resolve,
}
use conversational_copil.Metrics.Allowed.{match_allowed}

abbrev has_key : String → List MetricDefinition → Bool
has_key k ms = elem_of k (keys ms)

-- No key is there twice.
abbrev pub Distinct : List MetricDefinition → Type 0
Distinct [] = Unit
Distinct (m ∷ ms) = (has_key m.metric_key ms ≡ false) × Distinct ms

-- A metric that needs money is for the higher role.
abbrev pub IsGuarded : MetricDefinition → Type 0
IsGuarded m = (not (needs_money m) || str_eq m.min_role_level "HOD") ≡ true

has_key-put :
    (m : MetricDefinition) (ms : List MetricDefinition) (k : String)
    → has_key k (put_metric m ms) ≡ (str_eq k m.metric_key || has_key k ms)
unfolding put_metric elem_of
has_key-put m [] k = refl
has_key-put m (x ∷ xs) k = elim (Bool-cases (str_eq m.metric_key x.metric_key)) [
  | inl e ↦ rw e (
      ground
        (arith, eq_iff m.metric_key x.metric_key, eq_iff k m.metric_key, eq_iff k x.metric_key, e))
  | inr e ↦ rw (e, has_key-put m xs k) (ground arith)
]

put-Distinct :
    (m : MetricDefinition) (ms : List MetricDefinition) → Distinct ms → Distinct (put_metric m ms)
unfolding put_metric elem_of
put-Distinct m [] h = (refl, tt)
put-Distinct m (x ∷ xs) h = elim (Bool-cases (str_eq m.metric_key x.metric_key)) [
  | inl e ↦
      rw e
        (subst (λ k. has_key k xs ≡ false) (sym ((eq_iff m.metric_key x.metric_key).0 e)) h.0, h.1)
  | inr e ↦ rw e (
    has_key-put m xs x.metric_key
        ∙ ground
            (arith, eq_iff m.metric_key x.metric_key, eq_iff x.metric_key m.metric_key, e, h.0),
    put-Distinct m xs h.1,
  )
]

put-Guarded :
    (m : MetricDefinition) (ms : List MetricDefinition)
    → IsGuarded m
    → All IsGuarded ms
    → All IsGuarded (put_metric m ms)
unfolding put_metric
put-Guarded m [] g h = (g, tt)
put-Guarded m (x ∷ xs) g h = elim (Bool-cases (str_eq m.metric_key x.metric_key)) [
  | inl e ↦ rw e (g, h.1)
  | inr e ↦ rw e (h.0, put-Guarded m xs g h.1)
]

load-Guarded :
    (rows : List MetricDefinition) (r : MetricService)
    → Distinct r.metrics
    → All IsGuarded r.metrics
    → All IsGuarded rows
    → Distinct (load r rows).metrics × All IsGuarded (load r rows).metrics
unfolding load
load-Guarded [] r d g h = (d, g)
load-Guarded (m ∷ ms) r d g h =
    load-Guarded ms _ (put-Distinct m r.metrics d) (put-Guarded m r.metrics h.0 g) h.1

has_key-keep :
    (p : MetricDefinition → Bool) (ms : List MetricDefinition) (k : String)
    → has_key k ms ≡ false
    → has_key k (keep_if p ms) ≡ false
unfolding elem_of
has_key-keep p [] k h = unfold keep_if in refl
has_key-keep p (x ∷ xs) k h = elim (Bool-cases (p x)) [
  | inl e ↦
      rw (keep_if-cons_true p x xs e) (ground (arith, has_key-keep p xs k (ground (arith, h)), h))
  | inr e ↦ rw (keep_if-cons_false p x xs e) (has_key-keep p xs k (ground (arith, h)))
]

some_metric : (m n : MetricDefinition) → some m ≡ some n → m ≡ n
some_metric m n h = cc

has_key-later :
    (p : MetricDefinition → Bool) (x : MetricDefinition) (xs : List MetricDefinition) (k : String)
    → str_eq k x.metric_key ≡ false
    → has_key k (keep_if p (x ∷ xs)) ≡ true
    → has_key k (keep_if p xs) ≡ true
unfolding elem_of
has_key-later p x xs k t h = elim (Bool-cases (p x)) [
  | inl q ↦ ground (arith, t, subst (λ ys. has_key k ys ≡ true) (keep_if-cons_true p x xs q) h)
  | inr q ↦ subst (λ ys. has_key k ys ≡ true) (keep_if-cons_false p x xs q) h
]

-- Where keys are distinct, the metric at the key of one that passes passes, and is one of them.
got_passes :
    (p : MetricDefinition → Bool) (P : MetricDefinition → Type 0) (ms : List MetricDefinition)
    (k : String) (m : MetricDefinition)
    → Distinct ms
    → All P ms
    → has_key k (keep_if p ms) ≡ true
    → get_metric k ms ≡ some m
    → (p m ≡ true) × P m
unfolding get_metric elem_of
got_passes p P [] k m d a h e = absurd (ground arith)
got_passes p P (x ∷ xs) k m d a h e = elim (Bool-cases (str_eq k x.metric_key)) [
  | inl t ↦
      let same : x ≡ m =
        some_metric x m (subst (λ b. (if b then some x else get_metric k xs) ≡ some m) t e) in
      elim (Bool-cases (p x)) [
        | inl q ↦ (subst (λ y. p y ≡ true) same q, subst P same a.0)
        | inr q ↦ absurd (
            ground (
              arith,
              has_key-keep p xs k
                  (subst (λ z. has_key z xs ≡ false) (sym ((eq_iff k x.metric_key).0 t)) d.0),
              subst (λ ys. has_key k ys ≡ true) (keep_if-cons_false p x xs q) h,
            ))
      ]
  | inr t ↦
      got_passes p P xs k m d.1 a.1 (has_key-later p x xs k t h)
        (subst (λ b. (if b then some x else get_metric k xs) ≡ some m) t e)
]

-- From a registry without repeated keys, whose metrics that need money are for the higher role, a
-- caller who sees no money is given a metric that needs none.
module _ (r : MetricService) (d : Distinct r.metrics) (g : All IsGuarded r.metrics)
    (p : Option PrincipalContext) (blind : sees_money p ≡ false) where
  no_money :
      (m : MetricDefinition)
      → (sees_money p || not (str_eq m.min_role_level "HOD")) ≡ true
      → IsGuarded m
      → needs_money m ≡ false
  no_money m h f = elim (Bool-cases (needs_money m)) [
    | inl e ↦ absurd (ground (arith, e, f, h, blind))
    | inr e ↦ e
  ]

  got_no_money :
      (k : String) (m : MetricDefinition)
      → has_key k (available r p) ≡ true
      → get_metric k r.metrics ≡ some m
      → needs_money m ≡ false
  unfolding available
  got_no_money k m h e =
      let both =
        got_passes (λ (x : MetricDefinition). sees_money p || not (str_eq x.min_role_level "HOD"))
          IsGuarded r.metrics k m d g h e in
      no_money m both.0 both.1

  at_no_money :
      (o : Option String) (m : MetricDefinition)
      → ((k : String) → o ≡ some k → has_key k (available r p) ≡ true)
      → metric_at r o ≡ some m
      → needs_money m ≡ false
  at_no_money none m f e = absurd (ground arith)
  at_no_money (some k) m f e = elim (Bool-cases (is_text k)) [
    | inl t ↦
        got_no_money k m (f k refl)
          (subst (λ b. (if b then get_metric k r.metrics else none) ≡ some m) t e)
    | inr t ↦
        absurd
          (ground (arith, subst (λ b. (if b then get_metric k r.metrics else none) ≡ some m) t e))
  ]

  resolved_no_money :
      (phrase : String) (m : MetricDefinition) → resolve r phrase p ≡ some m → needs_money m ≡ false
  unfolding resolve
  resolved_no_money phrase m e = elim (Bool-cases (is_text (normalize_lookup_text phrase))) [
    | inl t ↦
        at_no_money _ m
          (λ k q.
            match_allowed r (λ x. elem_of x (keys (available r p))) (normalize_lookup_text phrase)
              (sees_money p) k q)
          (subst
            (λ b.
              (if b
                then metric_at r (
                    match_metric r (λ x. elem_of x (keys (available r p)))
                      (normalize_lookup_text phrase) (sees_money p))
                else none)
              ≡ some m)
            t e)
    | inr t ↦ absurd (
        ground (
          arith,
          subst
              (λ b.
                (if b
                  then metric_at r (
                      match_metric r (λ x. elem_of x (keys (available r p)))
                        (normalize_lookup_text phrase) (sees_money p))
                  else none)
                ≡ some m)
              t e,
        ))
  ]

-- Where every metric that needs money is for the role HOD, a caller who sees no money is never
-- given, by a registry loaded from those rows, a metric that needs money.
pub money_guarded :
    (rows : List MetricDefinition) (phrase : String) (p : Option PrincipalContext)
    (m : MetricDefinition)
    → All IsGuarded rows
    → sees_money p ≡ false
    → resolve (load (record { metrics = []; by_synonym = [] }) rows) phrase p ≡ some m
    → needs_money m ≡ false
money_guarded rows phrase p m h blind e =
    let both = load-Guarded rows (record { metrics = []; by_synonym = [] }) tt tt h in
    resolved_no_money _ both.0 both.1 p blind phrase m e
