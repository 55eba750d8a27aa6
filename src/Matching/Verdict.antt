-- ===== src/Matching/Verdict.antt =====
-- Duplicates among candidates (`dedupe_candidates`) and the verdict on a span (`span_status`).
use conversational_copil.Prelude.{
  ℕ, ◌+◌, ◌≤◌, ◌<◌, ◌≡◌, refl, true, false, ◌||◌, List, [], ◌∷◌, arith, leb, any, All, AllPairs,
  All-map, Bool-cases, inl, inr, eq_iff,
}
use conversational_copil.Matching.{
  Candidate, EntitySpan, same_entity, dedupe_from, dedupe_candidates, Limits, is_exact, verdict,
  span_is_resolved,
}

same_entity-sym : (a b : Candidate) → same_entity a b ≡ false → same_entity b a ≡ false
same_entity-sym a b h =
    ground (
      arith,
      eq_iff a.canonical_value b.canonical_value,
      eq_iff b.canonical_value a.canonical_value,
    )

-- Two candidates are different entities.
abbrev pub IsOther : Candidate → Candidate → Type 0
IsOther a b = same_entity a b ≡ false

module _ {κ} (P : Candidate → Type κ) where
  All-dedupe_from : (seen cs : List Candidate) → All P cs → All P (dedupe_from seen cs)
  unfolding dedupe_from
  All-dedupe_from seen [] h = tt
  All-dedupe_from seen (c ∷ cs) h = elim (Bool-cases (any (same_entity c) seen)) [
    | inl e ↦ rw e (All-dedupe_from seen cs h.1)
    | inr e ↦ rw e (h.0, All-dedupe_from (c ∷ seen) cs h.1)
  ]

AllPairs-dedupe_from {κ} :
    (R : Candidate → Candidate → Type κ) (seen cs : List Candidate)
    → AllPairs R cs
    → AllPairs R (dedupe_from seen cs)
unfolding dedupe_from
AllPairs-dedupe_from R seen [] h = tt
AllPairs-dedupe_from R seen (c ∷ cs) h = elim (Bool-cases (any (same_entity c) seen)) [
  | inl e ↦ rw e (AllPairs-dedupe_from R seen cs h.1)
  | inr e ↦ rw e (All-dedupe_from (R c) (c ∷ seen) cs h.0, AllPairs-dedupe_from R (c ∷ seen) cs h.1)
]

unseen :
    (seen cs : List Candidate) → All (λ c. any (same_entity c) seen ≡ false) (dedupe_from seen cs)
unfolding dedupe_from
unseen seen [] = tt
unseen seen (c ∷ cs) = elim (Bool-cases (any (same_entity c) seen)) [
  | inl e ↦ rw e (unseen seen cs)
  | inr e ↦ rw e (
    e,
    All-map (λ x. any (same_entity x) (c ∷ seen) ≡ false) (λ x. any (same_entity x) seen ≡ false)
        (λ x h. unfold any in ground arith) _ (unseen (c ∷ seen) cs),
  )
]

dedupe_from-IsOther : (seen cs : List Candidate) → AllPairs IsOther (dedupe_from seen cs)
unfolding dedupe_from
dedupe_from-IsOther seen [] = tt
dedupe_from-IsOther seen (c ∷ cs) = elim (Bool-cases (any (same_entity c) seen)) [
  | inl e ↦ rw e (dedupe_from-IsOther seen cs)
  | inr e ↦ rw e (
    All-map (λ x. any (same_entity x) (c ∷ seen) ≡ false) _
        (λ x h. same_entity-sym x c (unfold any in ground arith)) _ (unseen (c ∷ seen) cs),
    dedupe_from-IsOther (c ∷ seen) cs,
  )
]

-- The candidates are in the order of their scores, up to the rounding in the sort key.
abbrev pub IsRanked : ℕ → Candidate → Candidate → Type 0
IsRanked slack a b = b.score ≤ a.score + slack

-- Candidates with one that wins: it matched exactly or with confidence, and each other one is another
-- entity, behind it by more than the margin, up to the rounding.
pub record IsClear (l : Limits) (slack : ℕ) (cs : List Candidate) : Type 0 where
  pub winner : Candidate
  pub others : List Candidate
  pub split : cs ≡ winner ∷ others
  pub sure : (is_exact winner.match_kind || leb l.confident_score winner.score) ≡ true
  pub behind : All (λ k. k.score + l.ambiguity_margin < winner.score + slack) others
  pub other : All (IsOther winner) others

verdict-IsClear :
    (l : Limits) (slack : ℕ) (cs : List Candidate)
    → AllPairs (IsRanked slack) cs
    → AllPairs IsOther cs
    → verdict l cs ≡ true
    → IsClear l slack cs
verdict-IsClear l slack [] r o h = absurd (ground arith)
verdict-IsClear l slack (c ∷ []) r o h = record {
  winner = c;
  others = [];
  split = refl;
  sure = ground arith;
  behind = tt;
  other = tt;
}
verdict-IsClear l slack (c ∷ k ∷ ks) r o h = record {
  winner = c;
  others = k ∷ ks;
  split = refl;
  sure = ground arith;
  behind = (ground arith, All-map (IsRanked slack k) _ (λ j q. ground arith) ks r.1.0);
  other = o.0;
}

-- A span that resolves without a question, whose candidates are ranked by their scores, has a winner
-- that matched exactly or with confidence; and every candidate left besides it is another entity,
-- behind it by more than the ambiguity margin, up to the rounding of the ranking.
pub resolved_clearly :
    (l : Limits) (slack : ℕ) (s : EntitySpan)
    → AllPairs (IsRanked slack) s.candidates
    → span_is_resolved l s ≡ true
    → IsClear l slack (dedupe_candidates s.candidates)
unfolding span_is_resolved dedupe_candidates
resolved_clearly l slack s r h =
    verdict-IsClear l slack _ (AllPairs-dedupe_from (IsRanked slack) [] s.candidates r)
      (dedupe_from-IsOther [] s.candidates) h
