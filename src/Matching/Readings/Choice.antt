-- ===== src/Matching/Readings/Choice.antt =====
-- The choice among readings (`choose`): what is chosen is apart, and beats what is not.
use conversational_copil.Prelude.{
  subst, ℕ, zero, suc, ◌+◌, ◌-◌, ◌≤◌, ◌<◌, ◌≡◌, refl, sym, ap, ◌∙◌, Bool, true, false, ◌&&◌, ◌||◌,
  List, [], ◌∷◌, arith, ltb, any, All, AllPairs, All-map, Bool-cases, inl, inr,
}
use conversational_copil.Matching.{EntitySpan, any_from}
use conversational_copil.Matching.Spans.{inside, IsDisjoint, any_from_none, apart-IsDisjoint}
use conversational_copil.Matching.Readings.{Scorer, no_worse, choose}

abbrev pub IsProper : EntitySpan → Type 0
IsProper s = s.start_token < s.end_token

-- Two readings share a word.
abbrev pub meets : EntitySpan → EntitySpan → Bool
meets s t = ltb s.start_token t.end_token && ltb t.start_token s.end_token

abbrev pub beats : Scorer → EntitySpan → EntitySpan → Bool
beats z s k = meets k s && no_worse z k s

any_from_some :
    (p : ℕ → Bool) (start count : ℕ)
    → any_from p start count ≡ true
    → (i : ℕ) × ((start ≤ i) × ((i < start + count) × (p i ≡ true)))
unfolding any_from
any_from_some p start zero h = absurd (ground arith)
any_from_some p start (suc count) h = elim (Bool-cases (p start)) [
  | inl e ↦ (start, (omega arith, (omega arith, e)))
  | inr e ↦
      let (i, (a, (b, c))) = any_from_some p (start + 1) count (ground arith) in
      (i, (omega arith, (omega arith, c)))
]

-- What is chosen has no claimed word.
choose_free :
    (claimed : ℕ → Bool) (ss : List EntitySpan)
    → All IsProper ss
    → All (λ k. IsProper k × ((i : ℕ) → inside i k ≡ true → claimed i ≡ false)) (choose claimed ss)
unfolding choose
choose_free claimed [] h = tt
choose_free claimed (s ∷ ss) h =
    elim (Bool-cases (any_from claimed s.start_token (s.end_token - s.start_token))) [
      | inl e ↦ rw e (choose_free claimed ss h.1)
      | inr e ↦ rw e (
        (
          h.0,
          λ i k.
              any_from_none claimed s.start_token (s.end_token - s.start_token) e i (ground arith)
                (ground arith),
        ),
        All-map
            (λ k. IsProper k × ((i : ℕ) → inside i k ≡ true → (claimed i || inside i s) ≡ false)) _
            (λ k f. (f.0, λ i q. ground (arith, f.1 i q))) _
            (choose_free (λ i. claimed i || inside i s) ss h.1),
      )
    ]

pub choose-IsDisjoint :
    (claimed : ℕ → Bool) (ss : List EntitySpan)
    → All IsProper ss
    → AllPairs IsDisjoint (choose claimed ss)
unfolding choose
choose-IsDisjoint claimed [] h = tt
choose-IsDisjoint claimed (s ∷ ss) h =
    elim (Bool-cases (any_from claimed s.start_token (s.end_token - s.start_token))) [
      | inl e ↦ rw e (choose-IsDisjoint claimed ss h.1)
      | inr e ↦ rw e (
        All-map
            (λ k. IsProper k × ((i : ℕ) → inside i k ≡ true → (claimed i || inside i s) ≡ false)) _
            (λ k f. apart-IsDisjoint s k h.0 f.0 (λ i a b. ground (arith, f.1 i (ground arith)))) _
            (choose_free (λ i. claimed i || inside i s) ss h.1),
        choose-IsDisjoint (λ i. claimed i || inside i s) ss h.1,
      )
    ]

-- Something that shares a word and is no worse is among readings that are no worse and cover a word.
beaten :
    (z : Scorer) (s : EntitySpan) (i : ℕ) (prior : List EntitySpan)
    → inside i s ≡ true
    → any (inside i) prior ≡ true
    → All (λ k. no_worse z k s ≡ true) prior
    → any (beats z s) prior ≡ true
unfolding any
beaten z s i [] h k n = k
beaten z s i (p ∷ ps) h k n = elim (Bool-cases (inside i p)) [
  | inl e ↦ ground (arith, n.0)
  | inr e ↦ ground (arith, beaten z s i ps h (ground arith) n.1)
]

choose-skipped :
    (claimed : ℕ → Bool) (s : EntitySpan) (ss : List EntitySpan)
    → any_from claimed s.start_token (s.end_token - s.start_token) ≡ true
    → choose claimed (s ∷ ss) ≡ choose claimed ss
unfolding choose
choose-skipped claimed s ss e = rw e refl

choose-kept :
    (claimed : ℕ → Bool) (s : EntitySpan) (ss : List EntitySpan)
    → any_from claimed s.start_token (s.end_token - s.start_token) ≡ false
    → choose claimed (s ∷ ss) ≡ s ∷ choose (λ i. claimed i || inside i s) ss
unfolding choose
choose-kept claimed s ss e = rw e refl

self_beats : (z : Scorer) (s : EntitySpan) → IsProper s → beats z s s ≡ true
self_beats z s h = ground arith

blocked_beaten :
    (z : Scorer) (claimed : ℕ → Bool) (prior : List EntitySpan) (s : EntitySpan)
    → ((i : ℕ) → claimed i ≡ any (inside i) prior)
    → All (λ k. no_worse z k s ≡ true) prior
    → any_from claimed s.start_token (s.end_token - s.start_token) ≡ true
    → IsProper s
    → any (beats z s) prior ≡ true
blocked_beaten z claimed prior s c n e h =
    let (i, (a, (b, q))) = any_from_some claimed s.start_token (s.end_token - s.start_token) e in
    beaten z s i prior (ground arith) (sym (c i) ∙ q) n

-- Each reading meets one of either list that is no worse.
abbrev pub AreBeaten : Scorer → List EntitySpan → List EntitySpan → List EntitySpan → Type 0
AreBeaten z prior ss kept = All (λ s. (any (beats z s) prior || any (beats z s) kept) ≡ true) ss

pub choose-beats :
    (z : Scorer) (claimed : ℕ → Bool) (prior ss : List EntitySpan)
    → ((i : ℕ) → claimed i ≡ any (inside i) prior)
    → All (λ k. All (λ s. no_worse z k s ≡ true) ss) prior
    → AllPairs (λ s t. no_worse z s t ≡ true) ss
    → All IsProper ss
    → All (λ s. (any (beats z s) prior || any (beats z s) (choose claimed ss)) ≡ true) ss
choose-beats z claimed prior [] c n r h = tt
choose-beats z claimed prior (s ∷ ss) c n r h =
    elim (Bool-cases (any_from claimed s.start_token (s.end_token - s.start_token))) [
      | inl e ↦ subst (AreBeaten z prior (s ∷ ss)) (sym (choose-skipped claimed s ss e)) (
        ap (λ b. b || any (beats z s) (choose claimed ss))
            (blocked_beaten z claimed prior s c
              (All-map (λ k. All (λ x. no_worse z k x ≡ true) (s ∷ ss)) _ (λ k a. a.0) prior n) e
              h.0),
        choose-beats z claimed prior ss c
            (All-map (λ k. All (λ x. no_worse z k x ≡ true) (s ∷ ss)) _ (λ k a. a.1) prior n) r.1
            h.1,
      )
      | inr e ↦ subst (AreBeaten z prior (s ∷ ss)) (sym (choose-kept claimed s ss e)) (
        unfold any in ground (arith, self_beats z s h.0),
        All-map
            (λ x.
              (any (beats z x) (s ∷ prior)
                || any (beats z x) (choose (λ i. claimed i || inside i s) ss))
              ≡ true)
            (λ x.
              (any (beats z x) prior
                || any (beats z x) (s ∷ choose (λ i. claimed i || inside i s) ss))
              ≡ true)
            (λ x q. unfold any in ground arith) ss
            (choose-beats z (λ i. claimed i || inside i s) (s ∷ prior) ss
              (λ i. unfold any in ground (arith, c i))
              (r.0, All-map (λ k. All (λ x. no_worse z k x ≡ true) (s ∷ ss)) _ (λ k a. a.1) prior n)
              r.1 h.1),
      )
    ]

pub All-choose {κ} :
    (P : EntitySpan → Type κ) (claimed : ℕ → Bool) (ss : List EntitySpan)
    → All P ss
    → All P (choose claimed ss)
unfolding choose
All-choose P claimed [] h = tt
All-choose P claimed (s ∷ ss) h =
    elim (Bool-cases (any_from claimed s.start_token (s.end_token - s.start_token))) [
      | inl e ↦ rw e (All-choose P claimed ss h.1)
      | inr e ↦ rw e (h.0, All-choose P (λ i. claimed i || inside i s) ss h.1)
    ]
