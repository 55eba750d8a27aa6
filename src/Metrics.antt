-- ===== src/Metrics.antt =====
-- The metric registry (app/service/metric_service.py): which metrics a caller may use, the metric
-- that a question asks for, and what stands in for one that is withheld. The rows come from the
-- database or a file.
pub mod Allowed
pub mod Callers
pub mod Ties
pub mod Withheld
use Prim.Native.String.{len}
use conversational_copil.Prelude.{
  ℕ, zero, String, Bool, true, false, not, ◌&&◌, ◌||◌, Option, none, some, List, [], ◌∷◌, ◌++◌, map,
  if◌then◌else◌, ltb, ◌==◌, keep_if, elem_of, str_eq, is_text, contains,
}
use conversational_copil.Access.{PrincipalContext, can_see_money}
use conversational_copil.Wording.{normalize_lookup_text}
use conversational_copil.Resolving.{add_text}
use conversational_copil.Resolving.Questions.{sort_texts}

-- `MetricDefinition`, as far as the choice of a metric reads it
pub record MetricDefinition : Type 0 where
  pub metric_key : String
  pub metric_name : String
  pub metric_class : String
  pub min_role_level : String
  pub synonyms : List String

unfoldable pub needs_money : MetricDefinition → Bool
needs_money m = str_eq m.metric_class "money" || str_eq m.metric_class "ratio_money"

-- `self.metrics`, in its order, and `self._by_synonym`
pub record MetricService : Type 0 where
  pub metrics : List MetricDefinition
  pub by_synonym : List (String × List String)

-- `self.metrics[metric.metric_key] = metric`
unfoldable pub put_metric : MetricDefinition → List MetricDefinition → List MetricDefinition
put_metric m [] = m ∷ []
put_metric m (x ∷ xs) =
    let rest = put_metric m xs in if str_eq m.metric_key x.metric_key then m ∷ xs else x ∷ rest

-- `self._by_synonym.setdefault(norm, []).append(key)`
unfoldable pub add_key : String → String → List (String × List String) → List (String × List String)
add_key norm key [] = (norm, key ∷ []) ∷ []
add_key norm key ((s, ks) ∷ rest) =
    let later = add_key norm key rest in
    if str_eq norm s then (s, ks ++ (key ∷ [])) ∷ rest else (s, ks) ∷ later

unfoldable pub add_synonyms :
    String → List String → List (String × List String) → List (String × List String)
unfolding normalize_lookup_text add_key
add_synonyms key [] index = index
add_synonyms key (s ∷ ss) index =
    let norm = normalize_lookup_text s in
    add_synonyms key ss (if is_text norm then add_key norm key index else index)

-- the loop of `_load`
unfoldable pub load : MetricService → List MetricDefinition → MetricService
unfolding put_metric add_synonyms
load r [] = r
load r (m ∷ ms) =
    load
      (record {
        metrics = put_metric m r.metrics;
        by_synonym = add_synonyms m.metric_key (m.metric_name ∷ m.synonyms) r.by_synonym;
      })
      ms

-- `bool(principal.can_see_money) if principal else True`
abbrev pub sees_money : Option PrincipalContext → Bool
sees_money none = true
sees_money (some p) = can_see_money p

unfoldable pub available : MetricService → Option PrincipalContext → List MetricDefinition
unfolding keep_if can_see_money
available r p =
    keep_if (λ (m : MetricDefinition). sees_money p || not (str_eq m.min_role_level "HOD"))
      r.metrics

-- `self.metrics.get(key)`
unfoldable pub get_metric : String → List MetricDefinition → Option MetricDefinition
get_metric key [] = none
get_metric key (m ∷ ms) =
    let rest = get_metric key ms in if str_eq key m.metric_key then some m else rest

-- `self._by_synonym.get(norm, ())`
unfoldable pub keys_of : String → List (String × List String) → List String
keys_of norm [] = []
keys_of norm ((s, ks) ∷ rest) = let later = keys_of norm rest in if str_eq norm s then ks else later

unfoldable pub set_of : List String → List String
unfolding add_text
set_of [] = []
set_of (x ∷ xs) = add_text x (set_of xs)

abbrev pub is_money_key : MetricService → String → Bool
is_money_key r key = elim (get_metric key r.metrics) [ none ↦ false | some m ↦ needs_money m ]

unfoldable pub first_money : MetricService → List String → Option String
unfolding get_metric needs_money
first_money r [] = none
first_money r (k ∷ ks) = let rest = first_money r ks in if is_money_key r k then some k else rest

abbrev first_key : List String → Option String
first_key [] = none
first_key (k ∷ ks) = some k

abbrev or_first : Option String → List String → Option String
or_first none ks = first_key ks
or_first (some k) ks = some k

-- `_prefer`, which is called with at least one key
unfoldable pub prefer : MetricService → Bool → List String → Option String
unfolding set_of sort_texts first_money
prefer r prefer_money keys =
    let ordered = sort_texts (set_of keys) in
    if prefer_money then or_first (first_money r ordered) ordered else first_key ordered

-- The longest synonym so far and the keys that are tied at it.
pub record Tied : Type 0 where
  pub best_len : ℕ
  pub tied : List String

abbrev pub longer : Tied → ℕ → List String → Tied
longer t n [] = t
longer t n (k ∷ ks) =
    if ltb t.best_len n
    then record { best_len = n; tied = k ∷ ks }
    else if n == t.best_len
    then record t { tied = t.tied ++ (k ∷ ks) }
    else t

-- the loop of `_match` over the synonyms
unfoldable pub longest : (String → Bool) → String → Tied → List (String × List String) → Tied
unfolding keep_if
longest allowed norm t [] = t
longest allowed norm t ((s, ks) ∷ rest) =
    let next = longer t (len s) (keep_if allowed ks) in
    longest allowed norm (if is_text s && contains norm s then next else t) rest

abbrev pub or_longest :
    MetricService → (String → Bool) → String → Bool → List String → Option String
or_longest r allowed norm prefer_money (k ∷ ks) = prefer r prefer_money (k ∷ ks)
or_longest r allowed norm prefer_money [] =
    prefer r prefer_money
      (longest allowed norm (record { best_len = 0; tied = [] }) r.by_synonym).tied

-- `_match`
unfoldable pub match_metric : MetricService → (String → Bool) → String → Bool → Option String
unfolding keys_of keep_if prefer longest
match_metric r allowed norm prefer_money =
    or_longest r allowed norm prefer_money (keep_if allowed (keys_of norm r.by_synonym))

abbrev pub keys : List MetricDefinition → List String
keys ms = map (λ (m : MetricDefinition). m.metric_key) ms

abbrev pub metric_at : MetricService → Option String → Option MetricDefinition
metric_at r none = none
metric_at r (some key) = if is_text key then get_metric key r.metrics else none

unfoldable pub resolve : MetricService → String → Option PrincipalContext → Option MetricDefinition
unfolding normalize_lookup_text available match_metric get_metric can_see_money elem_of
resolve r phrase p =
    let norm = normalize_lookup_text phrase in
    if is_text norm
    then metric_at r (match_metric r (λ k. elem_of k (keys (available r p))) norm (sees_money p))
    else none

abbrev pub volume_only : Option MetricDefinition → Option MetricDefinition
volume_only none = none
volume_only (some m) = if needs_money m then none else some m

-- a metric at a key that the caller may use, if it needs no money
abbrev pub as_candidate : MetricService → Bool → String → Option MetricDefinition
as_candidate r allowed key = if allowed then volume_only (get_metric key r.metrics) else none

abbrev pub or_candidate :
    Option MetricDefinition → Option MetricDefinition → Option MetricDefinition
or_candidate none b = b
or_candidate (some m) b = some m

unfoldable pub first_candidate :
    MetricService → (String → Bool) → List String → Option MetricDefinition
unfolding get_metric needs_money
first_candidate r allowed [] = none
first_candidate r allowed (k ∷ ks) =
    or_candidate (as_candidate r (allowed k) k) (first_candidate r allowed ks)

-- the loops of `_volume_twin`
unfoldable pub twin_of : MetricService → (String → Bool) → List String → Option MetricDefinition
unfolding normalize_lookup_text keys_of first_candidate
twin_of r allowed [] = none
twin_of r allowed (s ∷ ss) =
    let norm = normalize_lookup_text s in
    or_candidate
      (if is_text norm then first_candidate r allowed (keys_of norm r.by_synonym) else none)
      (twin_of r allowed ss)

unfoldable pub volume_twin :
    MetricService → MetricDefinition → Option PrincipalContext → Option MetricDefinition
unfolding available twin_of elem_of
volume_twin r m p = twin_of r (λ k. elem_of k (keys (available r p))) (m.metric_name ∷ m.synonyms)

pub record WithheldMetric : Type 0 where
  pub requested : MetricDefinition
  pub substitute : Option MetricDefinition

abbrev pub withheld :
    MetricService → Option PrincipalContext → Option MetricDefinition → Option WithheldMetric
withheld r p none = none
withheld r p (some m) =
    if needs_money m then some (record { requested = m; substitute = volume_twin r m p }) else none

unfoldable pub withheld_for :
    MetricService → String → Option PrincipalContext → Option WithheldMetric
unfolding normalize_lookup_text match_metric get_metric needs_money volume_twin can_see_money
    elem_of
withheld_for r phrase p =
    let norm = normalize_lookup_text phrase in
    if sees_money p
    then none
    else if is_text norm
    then withheld r p (metric_at r (match_metric r (λ k. elem_of k (keys r.metrics)) norm true))
    else none
