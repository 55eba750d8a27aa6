-- ===== src/Matching/Tags.antt =====
-- What `match_exact` gives: the absorption of brand tails, the order of the spans, and the runs.
use conversational_copil.Prelude.{
  ℕ, ◌-◌, ◌≤◌, min, String, ◌≡◌, refl, sym, ap, ◌∙◌, inl, inr, Bool, true, false, not, ◌||◌, Option,
  none, some, List, [], ◌∷◌, arith, leb, length, keep_if, any, keep_if-cons_true,
  keep_if-cons_false, All, AllPairs, All-map, All-keep_if, AllPairs-keep_if, Bool-cases,
}
use conversational_copil.Matching.{
  EntitySpan, TokenRun, Dictionary, Tagging, any_from, tag_sizes, absorb_opco_brand_tails,
  insert_span, sort_spans, leftover_runs, match_exact,
}
use conversational_copil.Matching.Runs.{covers, may_name, runs_maximal}
use conversational_copil.Matching.Spans.{
  inside, IsDisjoint, IsNamed, IsTagged, any_from_none, tag_sizes-IsTagged,
}

abbrev survives : (ℕ → Bool) → EntitySpan → Bool
survives a s = any_from (λ i. not (a i)) s.start_token (s.end_token - s.start_token)

dropped_inside :
    (a : ℕ → Bool) (s : EntitySpan) (i : ℕ) → survives a s ≡ false → inside i s ≡ true → a i ≡ true
dropped_inside a s i h k = ground (
  arith,
  any_from_none (λ j. not (a j)) s.start_token (s.end_token - s.start_token) h i (ground arith)
      (ground arith),
)

-- A span is dropped only if all its words are absorbed.
kept_taken :
    (a : ℕ → Bool) (spans : List EntitySpan) (i : ℕ)
    → (any (inside i) (keep_if (survives a) spans) || a i) ≡ (any (inside i) spans || a i)
unfolding any keep_if
kept_taken a [] i = refl
kept_taken a (s ∷ ss) i = elim (Bool-cases (survives a s)) [
  | inl e ↦ rw (keep_if-cons_true (survives a) s ss e) (ground (arith, kept_taken a ss i))
  | inr e ↦
      rw (keep_if-cons_false (survives a) s ss e)
        (ground (arith, kept_taken a ss i, dropped_inside a s i e))
]

module _ (s : EntitySpan) where
  any-insert_span :
      (p : EntitySpan → Bool) (ts : List EntitySpan) → any p (insert_span s ts) ≡ (p s || any p ts)
  unfolding any insert_span
  any-insert_span p [] = refl
  any-insert_span p (t ∷ ts) = ground (arith, any-insert_span p ts)

  All-insert_span {κ} :
      (P : EntitySpan → Type κ) (ts : List EntitySpan) → P s → All P ts → All P (insert_span s ts)
  unfolding insert_span
  All-insert_span P [] h k = (h, tt)
  All-insert_span P (t ∷ ts) h k = elim (Bool-cases (leb s.start_token t.start_token)) [
    | inl e ↦ rw e (h, k)
    | inr e ↦ rw e (k.0, All-insert_span P ts h k.1)
  ]

abbrev pub IsBefore : EntitySpan → EntitySpan → Type 0
IsBefore s t = s.start_token ≤ t.start_token

insert-IsBefore :
    (s : EntitySpan) (ts : List EntitySpan)
    → AllPairs IsBefore ts
    → AllPairs IsBefore (insert_span s ts)
unfolding insert_span
insert-IsBefore s [] h = (tt, tt)
insert-IsBefore s (t ∷ ts) h = elim (Bool-cases (leb s.start_token t.start_token)) [
  | inl e ↦ rw e ((ground arith, All-map (IsBefore t) (IsBefore s) (λ u k. ground arith) ts h.0), h)
  | inr e ↦ rw e (All-insert_span s (IsBefore t) ts (ground arith) h.0, insert-IsBefore s ts h.1)
]

IsDisjoint-sym : (s t : EntitySpan) → IsDisjoint s t → IsDisjoint t s
IsDisjoint-sym s t (inl h) = inr h
IsDisjoint-sym s t (inr h) = inl h

insert-IsDisjoint :
    (s : EntitySpan) (ts : List EntitySpan)
    → All (IsDisjoint s) ts
    → AllPairs IsDisjoint ts
    → AllPairs IsDisjoint (insert_span s ts)
unfolding insert_span
insert-IsDisjoint s [] h k = (tt, tt)
insert-IsDisjoint s (t ∷ ts) h k = elim (Bool-cases (leb s.start_token t.start_token)) [
  | inl e ↦ rw e (h, k)
  | inr e ↦ rw e (
    All-insert_span s (IsDisjoint t) ts (IsDisjoint-sym s t h.0) k.0,
    insert-IsDisjoint s ts h.1 k.1,
  )
]

module _ where
  pub any-sort_spans :
      (p : EntitySpan → Bool) (ss : List EntitySpan) → any p (sort_spans ss) ≡ any p ss
  unfolding any sort_spans
  any-sort_spans p [] = refl
  any-sort_spans p (s ∷ ss) =
      any-insert_span s p (sort_spans ss) ∙ ap (λ b. p s || b) (any-sort_spans p ss)

  pub All-sort_spans {κ} :
      (P : EntitySpan → Type κ) (ss : List EntitySpan) → All P ss → All P (sort_spans ss)
  unfolding sort_spans
  All-sort_spans P [] h = tt
  All-sort_spans P (s ∷ ss) h = All-insert_span s P (sort_spans ss) h.0 (All-sort_spans P ss h.1)

  sort_spans-IsBefore : (ss : List EntitySpan) → AllPairs IsBefore (sort_spans ss)
  unfolding sort_spans
  sort_spans-IsBefore [] = tt
  sort_spans-IsBefore (s ∷ ss) = insert-IsBefore s (sort_spans ss) (sort_spans-IsBefore ss)

  pub sort_spans-IsDisjoint :
      (ss : List EntitySpan) → AllPairs IsDisjoint ss → AllPairs IsDisjoint (sort_spans ss)
  unfolding sort_spans
  sort_spans-IsDisjoint [] h = tt
  sort_spans-IsDisjoint (s ∷ ss) h =
      insert-IsDisjoint s (sort_spans ss) (All-sort_spans (IsDisjoint s) ss h.0)
        (sort_spans-IsDisjoint ss h.1)

-- The spans of a question and the runs that are left for guessing.
pub record IsMatched (d : Dictionary) (tokens : List String) (m : List EntitySpan × List TokenRun)
    : Type 0 where
  pub named : All (IsNamed d tokens) m.0
  pub disjoint : AllPairs IsDisjoint m.0
  pub ordered : AllPairs IsBefore m.0
  pub apart : (i : ℕ) → any (inside i) m.0 ≡ true → any (covers i) m.1 ≡ false

tagged :
    (d : Dictionary) (tokens : List String)
    → IsTagged d tokens (
        tag_sizes d tokens
          (min d.max_span_tokens (length tokens))
          (record { spans = []; consumed = λ i. false }))
unfolding any
tagged d tokens =
    tag_sizes-IsTagged d tokens _ _ (omega arith)
      (record { taken = λ i. refl; disjoint = tt; named = tt })

may_name-taken :
    (d : Dictionary) (consumed : ℕ → Bool) (i : ℕ) (o : Option String)
    → consumed i ≡ true
    → may_name d consumed i o ≡ false
may_name-taken d consumed i none h = refl
may_name-taken d consumed i (some t) h = rw h refl

runs_apart :
    (d : Dictionary) (tokens : List String) (a : ℕ → Bool) (g : Tagging) (i : ℕ)
    → g.consumed i ≡ any (inside i) g.spans
    → any (inside i) (keep_if (survives a) g.spans) ≡ true
    → any (covers i) (leftover_runs d tokens (λ j. g.consumed j || a j)) ≡ false
runs_apart d tokens a g i e h =
    (runs_maximal d tokens (λ j. g.consumed j || a j)).covered i
    ∙ may_name-taken d (λ j. g.consumed j || a j) i _ (ground (arith, kept_taken a g.spans i))

-- Each span of the exact pass is a place in the question whose words the dictionary knows, and its
-- candidates are the first of those with the others of its family; no single word that is common is a
-- span; spans share no word and come in order; and no run that is left for guessing has a word of a
-- span.
pub exact_spans :
    (d : Dictionary) (tokens : List String) → IsMatched d tokens (match_exact d tokens)
unfolding match_exact absorb_opco_brand_tails
exact_spans d tokens =
    let t = tagged d tokens in
    record {
      named = All-sort_spans (IsNamed d tokens) _ (All-keep_if (IsNamed d tokens) _ _ t.named);
      disjoint = sort_spans-IsDisjoint _ (AllPairs-keep_if IsDisjoint _ _ t.disjoint);
      ordered = sort_spans-IsBefore _;
      apart = λ i h. runs_apart d tokens _ _ i (t.taken i) (sym (any-sort_spans (inside i) _) ∙ h);
    }
