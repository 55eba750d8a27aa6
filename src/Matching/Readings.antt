-- ===== src/Matching/Readings.antt =====
-- The fuzzy pass over the leftover runs (`_best_reading_of_run` and `match_fuzzy`).
pub mod Choice
pub mod Ranking
pub mod Best
use conversational_copil.Prelude.{
  ℕ, zero, suc, ◌+◌, ◌-◌, min, String, Bool, true, false, not, ◌&&◌, ◌||◌, Option, none, some, List,
  [], ◌∷◌, ◌++◌, if◌then◌else◌, leb, ltb, ◌==◌, length, keep_if, any, join, str_eq,
}
use conversational_copil.Matching.{
  EntityClass, Candidate, EntitySpan, TokenRun, best, slice, is_between, any_from, class_family,
  sort_spans,
}

-- What the fuzzy pass computes on scores: the candidates of a window, `round(score, 1)`, and how many
-- letters a word has.
pub record Scorer : Type 0 where
  pub score_window : List String → List Candidate
  pub rounded : ℕ → ℕ
  pub letters : String → ℕ

abbrev pub max_fuzzy_window_tokens : ℕ
max_fuzzy_window_tokens = 4

abbrev pub min_single_token_fuzzy_chars : ℕ
min_single_token_fuzzy_chars = 4

abbrev pub is_short_word : Scorer → List String → Bool
is_short_word z (w ∷ []) = ltb (z.letters w) min_single_token_fuzzy_chars
is_short_word z _ = false

abbrev pub reading : ℕ → ℕ → List String → List Candidate → List EntitySpan
reading start size window [] = []
reading start size window (c ∷ cs) =
    record {
      text = join " " window;
      normalized = join " " window;
      start_token = start;
      end_token = start + size;
      candidates = c ∷ cs;
    }
    ∷ []

-- the reading of one window, if there is one
unfoldable pub read_window : Scorer → TokenRun → ℕ → ℕ → List EntitySpan
read_window z run size offset =
    let window = slice offset (offset + size) run.tokens in
    if (size == 1) && is_short_word z window
    then []
    else reading (run.start + offset) size window (z.score_window window)

-- the windows of one size, from the left
unfoldable pub read_offsets : Scorer → TokenRun → ℕ → ℕ → ℕ → List EntitySpan
unfolding read_window
read_offsets z run size zero offset = []
read_offsets z run size (suc count) offset =
    read_window z run size offset ++ read_offsets z run size count (offset + 1)

-- the sizes, the longest first
unfoldable pub read_sizes : Scorer → TokenRun → ℕ → List EntitySpan
unfolding read_offsets
read_sizes z run zero = []
read_sizes z run (suc size) =
    read_offsets z run (suc size) (length run.tokens - size) 0 ++ read_sizes z run size

unfoldable pub scored : Scorer → TokenRun → List EntitySpan
unfolding read_sizes
scored z run = read_sizes z run (min (length run.tokens) max_fuzzy_window_tokens)

abbrev best_score : EntitySpan → ℕ
best_score s = elim (best s) [ none ↦ 0 | some c ↦ c.score ]

abbrev span_length : EntitySpan → ℕ
span_length s = s.end_token - s.start_token

-- The sort key: the higher score, then the longer reading, then the one further left.
abbrev pub no_worse : Scorer → EntitySpan → EntitySpan → Bool
no_worse z s t =
    ltb (z.rounded (best_score t)) (z.rounded (best_score s))
    || ((z.rounded (best_score s) == z.rounded (best_score t))
        && (ltb (span_length t) (span_length s)
            || ((span_length s == span_length t) && leb s.start_token t.start_token)))

unfoldable pub insert_reading : Scorer → EntitySpan → List EntitySpan → List EntitySpan
insert_reading z s [] = s ∷ []
insert_reading z s (t ∷ ts) =
    let rest = insert_reading z s ts in if no_worse z s t then s ∷ t ∷ ts else t ∷ rest

unfoldable pub sort_readings : Scorer → List EntitySpan → List EntitySpan
unfolding insert_reading
sort_readings z [] = []
sort_readings z (s ∷ ss) = insert_reading z s (sort_readings z ss)

-- the loop that keeps each reading whose words no better one has claimed
unfoldable pub choose : (ℕ → Bool) → List EntitySpan → List EntitySpan
unfolding any_from
choose claimed [] = []
choose claimed (s ∷ ss) =
    let skipped = choose claimed ss in
    let kept = choose (λ i. claimed i || is_between s.start_token s.end_token i) ss in
    if any_from claimed s.start_token (s.end_token - s.start_token) then skipped else s ∷ kept

unfoldable pub best_reading_of_run : Scorer → TokenRun → List EntitySpan
unfolding sort_spans choose sort_readings scored
best_reading_of_run z run = sort_spans (choose (λ i. false) (sort_readings z (scored z run)))

-- a banner word beside a branch name is a store
abbrev name_family : (String → String) → Candidate → ℕ
name_family lower c =
    if str_eq (lower c.target_column) "store_type" then 1 else class_family c.entity_class

abbrev is_boundary : (String → String) → ℕ → Candidate → EntitySpan → Bool
is_boundary lower i c s = elim (best s) [
  | none ↦ false
  | some b ↦
      (name_family lower b == name_family lower c) && ((s.start_token == i) || (s.end_token == i))
]

abbrev touches : (String → String) → List EntitySpan → EntitySpan → Bool
touches lower exact s = elim (best s) [
  | none ↦ false
  | some c ↦
      any (is_boundary lower s.start_token c) exact || any (is_boundary lower s.end_token c) exact
]

-- `lower` is Python's `str.lower`
unfoldable pub drop_name_tails :
    (String → String) → List EntitySpan → List EntitySpan → List EntitySpan
drop_name_tails lower fuzzy exact = keep_if (λ s. not (touches lower exact s)) fuzzy

unfoldable pub readings : Scorer → List TokenRun → List EntitySpan
unfolding best_reading_of_run
readings z [] = []
readings z (r ∷ rs) = best_reading_of_run z r ++ readings z rs

unfoldable pub match_fuzzy :
    Scorer → (String → String) → List TokenRun → List EntitySpan → List EntitySpan
unfolding readings drop_name_tails
match_fuzzy z lower runs exact = drop_name_tails lower (readings z runs) exact
