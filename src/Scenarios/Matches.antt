-- ===== src/Scenarios/Matches.antt =====
-- The theorems on matching at concrete inputs.
use conversational_copil.Matching.Readings.Best.{best_readings, AreBest}
use conversational_copil.Matching.Readings.{best_reading_of_run, Scorer}
use conversational_copil.Prelude.{
  ◌-◌, length, arith, any, String, refl, false, none, List, [], ◌∷◌, if◌then◌else◌, str_eq, elem_of,
}
use conversational_copil.Matching.{
  TokenRun, dedupe_from, EntityClass, MatchKind, Candidate, EntitySpan, Dictionary, Limits,
  leftover_runs, match_exact, dedupe_candidates, span_is_resolved,
}
use conversational_copil.Matching.Runs.{AreRuns, runs_maximal}
use conversational_copil.Matching.Tags.{IsMatched, exact_spans}
use conversational_copil.Matching.Verdict.{IsClear, resolved_clearly}

abbrev credit : Candidate
credit = record {
  entity_class = EntityClass.opco;
  canonical_value = "NORTHCO_CREDIT";
  display_value = "NorthCo Credit";
  target_column = "opco_code";
  score = 1000;
  match_kind = MatchKind.exact;
  opco_code = none;
  category_key = none;
  category_level = none;
  alternate_columns = [];
}

abbrev card : Candidate
card = record credit {
  entity_class = EntityClass.enum_value;
  canonical_value = "Card";
  display_value = "Card";
  target_column = "payment_type";
}

abbrev dictionary : Dictionary
dictionary = record {
  max_span_tokens = 3;
  lookup_exact = λ text.
      if str_eq text "northco credit"
      then credit ∷ []
      else if str_eq text "card"
      then card ∷ []
      else [];
  schema_terms = λ text. str_eq text "revenue";
  is_stopword = λ text. elem_of text ("how" ∷ "many" ∷ "in" ∷ []);
  is_digits = λ text. str_eq text "2026";
}

abbrev words : List String
words = "how" ∷ "many" ∷ "northco" ∷ "credit" ∷ "card" ∷ "in" ∷ "veld" ∷ "2026" ∷ []

runs_maximal_example :
    AreRuns dictionary words (λ i. false) (leftover_runs dictionary words (λ i. false))
runs_maximal_example = runs_maximal dictionary words (λ i. false)

exact_spans_example : IsMatched dictionary words (match_exact dictionary words)
exact_spans_example = exact_spans dictionary words

abbrev limits : Limits
limits = record { ambiguity_margin = 50; confident_score = 850; whole_score = 1000 }

abbrev rival : Candidate
rival = record credit { canonical_value = "NORTHCO_BANK"; score = 700 }

abbrev credit_span : EntitySpan
credit_span = record {
  text = "northco credit";
  normalized = "northco credit";
  start_token = 2;
  end_token = 4;
  candidates = credit ∷ credit ∷ rival ∷ [];
}

resolved_clearly_example : IsClear limits 0 (dedupe_candidates credit_span.candidates)
unfolding span_is_resolved dedupe_candidates dedupe_from any
resolved_clearly_example =
    resolved_clearly limits 0 credit_span
      ((omega arith, (omega arith, tt)), ((omega arith, tt), (tt, tt))) refl

-- A scorer for a run of two words, of which the second alone names nothing.
abbrev scorer : Scorer
scorer = record {
  score_window = λ window.
      if elem_of "veld" window then (record rival { score = 800 - length window } ∷ []) else [];
  rounded = λ score. score;
  letters = λ word. 4;
}

abbrev run_of_two : TokenRun
run_of_two = record { start = 6; tokens = "veld" ∷ "nin" ∷ [] }

best_readings_example : AreBest scorer run_of_two (best_reading_of_run scorer run_of_two)
best_readings_example = best_readings scorer run_of_two
