-- ===== src/Metrics/Withheld.antt =====
-- What a caller who sees no money is told of a metric that is withheld, and what stands in for it.
use conversational_copil.Prelude.{
  String, ◌≡◌, ◌⊎◌, inl, inr, refl, sym, subst, Bool, true, false, Bool-cases, Option, none, some,
  List, [], ◌∷◌, arith, if◌then◌else◌, elem_of, str_eq, eq_iff, is_text,
}
use conversational_copil.Access.{PrincipalContext}
use conversational_copil.Wording.{normalize_lookup_text}
use conversational_copil.Metrics.{
  MetricDefinition, needs_money, MetricService, sees_money, available, get_metric, keys_of,
  match_metric, keys, metric_at, volume_only, as_candidate, or_candidate, first_candidate, twin_of,
  volume_twin, WithheldMetric, withheld, withheld_for,
}

or_some :
    (a b : Option MetricDefinition) (c : MetricDefinition)
    → or_candidate a b ≡ some c
    → (a ≡ some c) ⊎ (b ≡ some c)
or_some none b c h = inr h
or_some (some m) b c h = inl h

or_none : (a b : Option MetricDefinition) → or_candidate a b ≡ none → (a ≡ none) × (b ≡ none)
or_none none b h = (refl, h)
or_none (some m) b h = absurd (ground arith)

elem_of-here : (k : String) (ks : List String) → elem_of k (k ∷ ks) ≡ true
unfolding elem_of
elem_of-here k ks = ground (arith, eq_iff k k)

elem_of-there : (k x : String) (ks : List String) → elem_of k ks ≡ true → elem_of k (x ∷ ks) ≡ true
unfolding elem_of
elem_of-there k x ks h = ground (arith, h)

elem_of-cases :
    (k x : String) (ks : List String) → elem_of k (x ∷ ks) ≡ true → (x ≡ k) ⊎ (elem_of k ks ≡ true)
unfolding elem_of
elem_of-cases k x ks h = elim (Bool-cases (str_eq k x)) [
  | inl e ↦ inl (sym ((eq_iff k x).0 e))
  | inr e ↦ inr (ground (arith, e, h))
]

some_metric : (m n : MetricDefinition) → some m ≡ some n → m ≡ n
some_metric m n h = cc

-- The metrics that may stand in, whatever the order in which they are tried.
module _ (r : MetricService) (allowed : String → Bool) where
  abbrev pub StandsAt : String → MetricDefinition → Type 0
  StandsAt k c = (allowed k ≡ true) × (get_metric k r.metrics ≡ some c) × (needs_money c ≡ false)

  abbrev pub StandsIn : List String → MetricDefinition → Type 0
  StandsIn ks c = (k : String) × (elem_of k ks ≡ true) × StandsAt k c

  -- a synonym of the metric leads to the one that stands in
  abbrev pub Shares : List String → MetricDefinition → Type 0
  Shares ss c =
      (s : String) × (elem_of s ss ≡ true)
      × (is_text (normalize_lookup_text s) ≡ true)
      × StandsIn (keys_of (normalize_lookup_text s) r.by_synonym) c

  only_some :
      (o : Option MetricDefinition) (c : MetricDefinition)
      → volume_only o ≡ some c
      → (o ≡ some c) × (needs_money c ≡ false)
  only_some none c h = absurd (ground arith)
  only_some (some m) c h = elim (Bool-cases (needs_money m)) [
    | inl e ↦ absurd (ground (arith, subst (λ b. (if b then none else some m) ≡ some c) e h))
    | inr e ↦
        let same = subst (λ b. (if b then none else some m) ≡ some c) e h in
        (same, plain m c same e)
  ]
    where
      plain :
          (m c : MetricDefinition) → some m ≡ some c → needs_money m ≡ false → needs_money c ≡ false
      plain m c h e = subst (λ (x : MetricDefinition). needs_money x ≡ false) (some_metric m c h) e

  only_none : (c : MetricDefinition) → needs_money c ≡ false → ¬ (volume_only (some c) ≡ none)
  only_none c e h = ground (arith, subst (λ b. (if b then none else some c) ≡ none) e h)

  at_some :
      (k : String) (c : MetricDefinition) → as_candidate r (allowed k) k ≡ some c → StandsAt k c
  at_some k c h = elim (Bool-cases (allowed k)) [
    | inl e ↦
        let q =
          only_some (get_metric k r.metrics) c (subst (λ b. as_candidate r b k ≡ some c) e h) in
        (e, q.0, q.1)
    | inr e ↦ absurd (ground (arith, subst (λ b. as_candidate r b k ≡ some c) e h))
  ]

  at_none :
      (k : String) (c : MetricDefinition) → as_candidate r (allowed k) k ≡ none → ¬ StandsAt k c
  at_none k c h s =
      only_none c s.2
        (subst (λ o. volume_only o ≡ none) s.1 (subst (λ b. as_candidate r b k ≡ none) s.0 h))

  first_some :
      (ks : List String) (c : MetricDefinition)
      → first_candidate r allowed ks ≡ some c
      → StandsIn ks c
  unfolding first_candidate
  first_some [] c h = absurd (ground arith)
  first_some (k ∷ ks) c h =
      elim (or_some (as_candidate r (allowed k) k) (first_candidate r allowed ks) c h) [
        | inl e ↦ (k, elem_of-here k ks, at_some k c e)
        | inr e ↦ let rest = first_some ks c e in (rest.0, elem_of-there rest.0 k ks rest.1, rest.2)
      ]

  first_none :
      (ks : List String) (c : MetricDefinition)
      → first_candidate r allowed ks ≡ none
      → ¬ StandsIn ks c
  unfolding first_candidate
  first_none [] c h s = unfold elem_of in ground (arith, s.1)
  first_none (k ∷ ks) c h s =
      let both = or_none (as_candidate r (allowed k) k) (first_candidate r allowed ks) h in
      elim (elem_of-cases s.0 k ks s.1) [
        | inl e ↦ at_none k c both.0 (subst (λ x. StandsAt x c) (sym e) s.2)
        | inr e ↦ first_none ks c both.1 (s.0, e, s.2)
      ]

  abbrev at_synonym : Bool → String → Option MetricDefinition
  at_synonym b norm = if b then first_candidate r allowed (keys_of norm r.by_synonym) else none

  twin_some :
      (ss : List String) (c : MetricDefinition) → twin_of r allowed ss ≡ some c → Shares ss c
  unfolding twin_of
  twin_some [] c h = absurd (ground arith)
  twin_some (s ∷ ss) c h =
      let norm = normalize_lookup_text s in
      elim (or_some (at_synonym (is_text norm) norm) (twin_of r allowed ss) c h) [
        | inl e ↦ elim (Bool-cases (is_text norm)) [
          | inl t ↦ (
            s,
            elem_of-here s ss,
            t,
            first_some _ c (subst (λ b. at_synonym b norm ≡ some c) t e),
          )
          | inr t ↦ absurd (ground (arith, subst (λ b. at_synonym b norm ≡ some c) t e))
        ]
        | inr e ↦
            let rest = twin_some ss c e in
            (rest.0, elem_of-there rest.0 s ss rest.1, rest.2, rest.3)
      ]

  twin_none :
      (ss : List String) (c : MetricDefinition) → twin_of r allowed ss ≡ none → ¬ Shares ss c
  unfolding twin_of
  twin_none [] c h s = unfold elem_of in ground (arith, s.1)
  twin_none (s ∷ ss) c h t =
      let norm = normalize_lookup_text s in
      let both = or_none (at_synonym (is_text norm) norm) (twin_of r allowed ss) h in
      elim (elem_of-cases t.0 s ss t.1) [
        | inl e ↦
            first_none _ c
              (subst (λ b. at_synonym b norm ≡ none)
                (subst (λ x. is_text (normalize_lookup_text x) ≡ true) (sym e) t.2) both.0)
              (subst (λ x. StandsIn (keys_of (normalize_lookup_text x) r.by_synonym) c) (sym e) t.3)
        | inr e ↦ twin_none ss c both.1 (t.0, e, t.2, t.3)
      ]

-- A metric that needs no money, that the caller may use, and that shares a synonym with `m`.
abbrev pub IsTwin :
    MetricService → Option PrincipalContext → MetricDefinition → MetricDefinition → Type 0
IsTwin r p m c = Shares r (λ k. elem_of k (keys (available r p))) (m.metric_name ∷ m.synonyms) c

-- The substitute is such a metric; without a substitute there is none.
abbrev pub StandsFor :
    MetricService → Option PrincipalContext → MetricDefinition → Option MetricDefinition → Type 0
StandsFor r p m none = (c : MetricDefinition) → ¬ IsTwin r p m c
StandsFor r p m (some c) = IsTwin r p m c

volume_twin-StandsFor :
    (r : MetricService) (p : Option PrincipalContext) (m : MetricDefinition)
    → StandsFor r p m (volume_twin r m p)
unfolding volume_twin
volume_twin-StandsFor r p m =
    go (twin_of r (λ k. elem_of k (keys (available r p))) (m.metric_name ∷ m.synonyms)) refl
  where
    go :
        (o : Option MetricDefinition)
        → twin_of r (λ k. elem_of k (keys (available r p))) (m.metric_name ∷ m.synonyms) ≡ o
        → StandsFor r p m o
    go none h = λ c. twin_none r _ (m.metric_name ∷ m.synonyms) c h
    go (some c) h = twin_some r _ (m.metric_name ∷ m.synonyms) c h

abbrev pub Withholds : MetricService → Option PrincipalContext → WithheldMetric → Type 0
Withholds r p w =
    (sees_money p ≡ false)
    × (needs_money w.requested ≡ true)
    × StandsFor r p w.requested w.substitute

some_withheld : (v w : WithheldMetric) → some v ≡ some w → v ≡ w
some_withheld v w h = cc

withheld-Withholds :
    (r : MetricService) (p : Option PrincipalContext) (o : Option MetricDefinition)
    (w : WithheldMetric)
    → sees_money p ≡ false
    → withheld r p o ≡ some w
    → Withholds r p w
withheld-Withholds r p none w b h = absurd (ground arith)
withheld-Withholds r p (some m) w b h = elim (Bool-cases (needs_money m)) [
  | inl e ↦
      subst (Withholds r p)
        (some_withheld _ w (
          subst
            (λ c.
              (if c then some (record { requested = m; substitute = volume_twin r m p }) else none)
              ≡ some w)
            e h))
        (b, e, volume_twin-StandsFor r p m)
  | inr e ↦ absurd (
      ground (
        arith,
        subst
            (λ c.
              (if c then some (record { requested = m; substitute = volume_twin r m p }) else none)
              ≡ some w)
            e h,
      ))
]

-- A metric is reported as withheld only to a caller who sees no money and only if it needs money.
-- Its substitute needs no money, is one that the caller may use, and shares a synonym with it; where
-- no substitute is reported, the registry has no such metric.
pub withheld_for_lem :
    (r : MetricService) (phrase : String) (p : Option PrincipalContext) (w : WithheldMetric)
    → withheld_for r phrase p ≡ some w
    → Withholds r p w
unfolding withheld_for
withheld_for_lem r phrase p w h = go (sees_money p) (is_text (normalize_lookup_text phrase)) refl h
  where
    found : Option MetricDefinition
    found =
        metric_at r
          (match_metric r (λ k. elem_of k (keys r.metrics)) (normalize_lookup_text phrase) true)

    go :
        (b c : Bool)
        → sees_money p ≡ b
        → (if b then none else if c then withheld r p found else none) ≡ some w
        → Withholds r p w
    go true c e h = absurd (ground arith)
    go false true e h = withheld-Withholds r p found w e h
    go false false e h = absurd (ground arith)
