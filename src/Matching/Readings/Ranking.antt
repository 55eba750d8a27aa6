-- ===== src/Matching/Readings/Ranking.antt =====
-- The order of readings (`sort_readings`).
use conversational_copil.Prelude.{
  if◌then◌else◌, subst, ◌≡◌, true, false, List, [], ◌∷◌, arith, All, AllPairs, All-map, Bool-cases,
  inl, inr,
}
use conversational_copil.Matching.{EntitySpan}
use conversational_copil.Matching.Readings.{Scorer, no_worse, insert_reading, sort_readings}

no_worse_trans :
    (z : Scorer) (a b c : EntitySpan)
    → no_worse z a b ≡ true
    → no_worse z b c ≡ true
    → no_worse z a c ≡ true
no_worse_trans z a b c h k = ground arith

no_worse_total : (z : Scorer) (a b : EntitySpan) → no_worse z a b ≡ false → no_worse z b a ≡ true
no_worse_total z a b h = ground arith

module _ (z : Scorer) (s : EntitySpan) where
  All-insert_reading {κ} :
      (P : EntitySpan → Type κ) (ts : List EntitySpan)
      → P s
      → All P ts
      → All P (insert_reading z s ts)
  unfolding insert_reading
  All-insert_reading P [] h k = (h, tt)
  All-insert_reading P (t ∷ ts) h k = elim (Bool-cases (no_worse z s t)) [
    | inl e ↦ rw e (h, k)
    | inr e ↦ rw e (k.0, All-insert_reading P ts h k.1)
  ]

  insert_ranked :
      (ts : List EntitySpan)
      → AllPairs (λ s t. no_worse z s t ≡ true) ts
      → AllPairs (λ s t. no_worse z s t ≡ true) (insert_reading z s ts)
  unfolding insert_reading
  insert_ranked [] h = (tt, tt)
  insert_ranked (t ∷ ts) h = elim (Bool-cases (no_worse z s t)) [
    | inl e ↦
        rw e (
          (e, All-map (λ u. no_worse z t u ≡ true) _ (λ u k. no_worse_trans z s t u e k) ts h.0),
          h,
        )
    | inr e ↦ rw e (
      All-insert_reading (λ u. no_worse z t u ≡ true) ts (no_worse_total z s t e) h.0,
      insert_ranked ts h.1,
    )
  ]

module _ (z : Scorer) where
  pub All-sort_readings {κ} :
      (P : EntitySpan → Type κ) (ss : List EntitySpan) → All P ss → All P (sort_readings z ss)
  unfolding sort_readings
  All-sort_readings P [] h = tt
  All-sort_readings P (s ∷ ss) h =
      All-insert_reading z s P (sort_readings z ss) h.0 (All-sort_readings P ss h.1)

  All-uninsert {κ} :
      (P : EntitySpan → Type κ) (s : EntitySpan) (ts : List EntitySpan)
      → All P (insert_reading z s ts)
      → P s × All P ts
  unfolding insert_reading
  All-uninsert P s [] h = h
  All-uninsert P s (t ∷ ts) h = elim (Bool-cases (no_worse z s t)) [
    | inl e ↦ subst (λ b. All P (if b then s ∷ t ∷ ts else t ∷ insert_reading z s ts)) e h
    | inr e ↦
        let k = subst (λ b. All P (if b then s ∷ t ∷ ts else t ∷ insert_reading z s ts)) e h in
        let (a, b) = All-uninsert P s ts k.1 in (a, (k.0, b))
  ]

  pub All-unsort {κ} :
      (P : EntitySpan → Type κ) (ss : List EntitySpan) → All P (sort_readings z ss) → All P ss
  unfolding sort_readings
  All-unsort P [] h = tt
  All-unsort P (s ∷ ss) h =
      let (a, b) = All-uninsert P s (sort_readings z ss) h in (a, All-unsort P ss b)

  pub sort_ranked :
      (ss : List EntitySpan) → AllPairs (λ s t. no_worse z s t ≡ true) (sort_readings z ss)
  unfolding sort_readings
  sort_ranked [] = tt
  sort_ranked (s ∷ ss) = insert_ranked z s (sort_readings z ss) (sort_ranked ss)
