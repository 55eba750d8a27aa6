-- ===== src/Metrics/Allowed.antt =====
-- Which metrics a caller is given, and what is withheld.
use Prim.Native.String.{len}
use conversational_copil.Prelude.{
  ℕ, String, ◌≡◌, inl, inr, subst, Bool, true, false, ◌&&◌, Bool-cases, Option, none, some, List,
  [], ◌∷◌, arith, if◌then◌else◌, ltb, ◌==◌, keep_if, keep_if_passes, elem_of, is_text, contains,
  All, All-append, text_le,
}
use conversational_copil.Resolving.{add_text}
use conversational_copil.Resolving.Questions.{insert_text, sort_texts}
use conversational_copil.Metrics.{
  MetricService, keys_of, set_of, is_money_key, first_money, or_first, first_key, prefer, Tied,
  longer, longest, or_longest, match_metric,
}

-- What holds of every key holds of the one that is preferred.
module _ (P : String → Type 0) where
  All-set : (ks : List String) → All P ks → All P (set_of ks)
  unfolding set_of add_text
  All-set [] h = tt
  All-set (k ∷ ks) h = elim (Bool-cases (elem_of k (set_of ks))) [
    | inl e ↦ rw e (All-set ks h.1)
    | inr e ↦ rw e (h.0, All-set ks h.1)
  ]

  All-insert : (k : String) (ks : List String) → P k → All P ks → All P (insert_text k ks)
  unfolding insert_text
  All-insert k [] h hs = (h, tt)
  All-insert k (x ∷ xs) h hs = elim (Bool-cases (text_le k x)) [
    | inl e ↦ rw e (h, hs)
    | inr e ↦ rw e (hs.0, All-insert k xs h hs.1)
  ]

  All-sort : (ks : List String) → All P ks → All P (sort_texts ks)
  unfolding sort_texts
  All-sort [] h = tt
  All-sort (k ∷ ks) h = All-insert k (sort_texts ks) h.0 (All-sort ks h.1)

  some_key : (k x : String) → P x → some x ≡ some k → P k
  some_key k x h e = subst P (some_inj e) h
    where
      some_inj : {s t : String} → some s ≡ some t → s ≡ t
      some_inj h = ground arith

  first_money_all :
      (r : MetricService) (ks : List String) (k : String)
      → All P ks
      → first_money r ks ≡ some k
      → P k
  unfolding first_money
  first_money_all r [] k h e = absurd (ground arith)
  first_money_all r (x ∷ xs) k h e = elim (Bool-cases (is_money_key r x)) [
    | inl t ↦ some_key k x h.0 (subst (λ b. (if b then some x else first_money r xs) ≡ some k) t e)
    | inr t ↦
        first_money_all r xs k h.1
          (subst (λ b. (if b then some x else first_money r xs) ≡ some k) t e)
  ]

  first_key_all : (ks : List String) (k : String) → All P ks → first_key ks ≡ some k → P k
  first_key_all [] k h e = absurd (ground arith)
  first_key_all (x ∷ xs) k h e = some_key k x h.0 e

  or_first_all :
      (o : Option String) (ks : List String) (k : String)
      → All P ks
      → ((x : String) → o ≡ some x → P x)
      → or_first o ks ≡ some k
      → P k
  or_first_all none ks k h f e = first_key_all ks k h e
  or_first_all (some x) ks k h f e = f k e

  prefer_all :
      (r : MetricService) (b : Bool) (ks : List String) (k : String)
      → All P ks
      → prefer r b ks ≡ some k
      → P k
  unfolding prefer
  prefer_all r true ks k h e =
      or_first_all (first_money r (sort_texts (set_of ks))) (sort_texts (set_of ks)) k
        (All-sort (set_of ks) (All-set ks h))
        (λ x g.
          first_money_all r (sort_texts (set_of ks)) x (All-sort (set_of ks) (All-set ks h)) g)
        e
  prefer_all r false ks k h e =
      first_key_all (sort_texts (set_of ks)) k (All-sort (set_of ks) (All-set ks h)) e

  longer_all :
      (t : Tied) (n : ℕ) (ks : List String) → All P t.tied → All P ks → All P (longer t n ks).tied
  longer_all t n [] ht h = ht
  longer_all t n (k ∷ ks) ht h = elim (Bool-cases (ltb t.best_len n)) [
    | inl e ↦ rw e h
    | inr e ↦ rw e (elim (Bool-cases (n == t.best_len)) [
      | inl f ↦ rw f (All-append P t.tied (k ∷ ks) ht h)
      | inr f ↦ rw f ht
    ])
  ]

-- The key that is matched is one of the allowed.
module _ (r : MetricService) (allowed : String → Bool) (norm : String) where
  longest_all :
      (index : List (String × List String)) (t : Tied)
      → All (λ k. allowed k ≡ true) t.tied
      → All (λ k. allowed k ≡ true) (longest allowed norm t index).tied
  unfolding longest
  longest_all [] t h = h
  longest_all ((s, ks) ∷ rest) t h = longest_all rest _ (either (is_text s && contains norm s))
    where
      either :
          (b : Bool)
          → All
              (λ k. allowed k ≡ true)
              (if b then longer t (len s) (keep_if allowed ks) else t).tied
      either true = longer_all _ t (len s) (keep_if allowed ks) h (keep_if_passes allowed ks)
      either false = h

  or_longest_all :
      (b : Bool) (ks : List String) (k : String)
      → All (λ k. allowed k ≡ true) ks
      → or_longest r allowed norm b ks ≡ some k
      → allowed k ≡ true
  or_longest_all b (x ∷ xs) k h e = prefer_all _ r b (x ∷ xs) k h e
  or_longest_all b [] k h e =
      prefer_all _ r b _ k (longest_all r.by_synonym (record { best_len = 0; tied = [] }) tt) e

  pub match_allowed :
      (b : Bool) (k : String) → match_metric r allowed norm b ≡ some k → allowed k ≡ true
  unfolding match_metric
  match_allowed b k e =
      or_longest_all b (keep_if allowed (keys_of norm r.by_synonym)) k
        (keep_if_passes allowed (keys_of norm r.by_synonym)) e
