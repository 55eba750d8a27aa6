-- ===== src/Matching/Readings/Best.antt =====
-- The readings that are kept: they are apart, and each reading left out meets a kept one that is no
-- worse.
use conversational_copil.Matching.Readings.Choice.{
  choose-beats, choose-IsDisjoint, All-choose, IsProper, beats,
}
use conversational_copil.Matching.Readings.Ranking.{sort_ranked, All-unsort, All-sort_readings}
use conversational_copil.Matching.Tags.{any-sort_spans, sort_spans-IsDisjoint, All-sort_spans}
use conversational_copil.Prelude.{
  ◌==◌, ℕ, zero, suc, ◌+◌, ◌-◌, ◌≤◌, ◌<◌, String, ◌≡◌, refl, ◌∙◌, Bool, true, false, ◌&&◌, ◌||◌,
  List, [], ◌∷◌, arith, any, length, All, AllPairs, All-map, All-append, Bool-cases, inl, inr,
}
use conversational_copil.Matching.{slice, run_end, Candidate, EntitySpan, TokenRun}
use conversational_copil.Matching.Spans.{IsDisjoint}
use conversational_copil.Matching.Readings.{
  is_short_word, reading, Scorer, sort_readings, choose, best_reading_of_run, scored, read_sizes,
  read_offsets, read_window,
}

-- Each reading is a proper stretch of its run.
abbrev pub IsWithin : TokenRun → EntitySpan → Type 0
IsWithin r s =
    (r.start ≤ s.start_token) × ((s.start_token < s.end_token) × (s.end_token ≤ run_end r))

module _ (z : Scorer) (r : TokenRun) where
  reading-IsWithin :
      (size offset : ℕ) (window : List String) (cs : List Candidate)
      → offset + suc size ≤ length r.tokens
      → All (IsWithin r) (reading (r.start + offset) (suc size) window cs)
  reading-IsWithin size offset window [] h = tt
  reading-IsWithin size offset window (c ∷ cs) h = ((omega arith, (omega arith, omega arith)), tt)

  read_window-IsWithin :
      (size offset : ℕ)
      → offset + suc size ≤ length r.tokens
      → All (IsWithin r) (read_window z r (suc size) offset)
  unfolding read_window
  read_window-IsWithin size offset h =
      elim (Bool-cases
        ((suc size == 1) && is_short_word z (slice offset (offset + suc size) r.tokens))) [
          | inl e ↦ rw e tt
          | inr e ↦ rw e (reading-IsWithin size offset _ _ h)
        ]

  read_offsets-IsWithin :
      (size count offset : ℕ)
      → offset + count + size ≤ length r.tokens
      → All (IsWithin r) (read_offsets z r (suc size) count offset)
  unfolding read_offsets
  read_offsets-IsWithin size zero offset h = tt
  read_offsets-IsWithin size (suc count) offset h =
      All-append (IsWithin r) (read_window z r (suc size) offset) _
        (read_window-IsWithin size offset (omega arith))
        (read_offsets-IsWithin size count (offset + 1) (omega arith))

  read_sizes-IsWithin : (size : ℕ) → size ≤ length r.tokens → All (IsWithin r) (read_sizes z r size)
  unfolding read_sizes
  read_sizes-IsWithin zero h = tt
  read_sizes-IsWithin (suc size) h =
      All-append (IsWithin r) (read_offsets z r (suc size) (length r.tokens - size) 0) _
        (read_offsets-IsWithin size (length r.tokens - size) 0 (omega arith))
        (read_sizes-IsWithin size (omega arith))

  scored-IsWithin : All (IsWithin r) (scored z r)
  unfolding scored
  scored-IsWithin = read_sizes-IsWithin _ (omega arith)

of_empty :
    (p : EntitySpan → Bool) (ss : List EntitySpan) → (any p [] || any p ss) ≡ true → any p ss ≡ true
unfolding any
of_empty p ss h = h

-- The readings that a run keeps.
pub record AreBest (z : Scorer) (r : TokenRun) (kept : List EntitySpan) : Type 0 where
  pub within : All (IsWithin r) kept
  pub apart : AllPairs IsDisjoint kept
  pub unbeaten : All (λ s. any (beats z s) kept ≡ true) (scored z r)

-- The readings kept of a run lie in it and share no word; and each reading that has candidates shares
-- a word with a kept one that is no worse: by the score, then the length, then the place.
pub best_readings : (z : Scorer) (r : TokenRun) → AreBest z r (best_reading_of_run z r)
unfolding best_reading_of_run
best_readings z r =
    let within = All-sort_readings z (IsWithin r) _ (scored-IsWithin z r) in
    let proper = All-map (IsWithin r) IsProper (λ s h. h.1.0) _ within in
    record {
      within = All-sort_spans (IsWithin r) _ (All-choose (IsWithin r) (λ i. false) _ within);
      apart = sort_spans-IsDisjoint _ (choose-IsDisjoint (λ i. false) _ proper);
      unbeaten =
          All-unsort z (λ s. any (beats z s) (best_reading_of_run z r) ≡ true) (scored z r)
            (All-map
              (λ s.
                (any (beats z s) []
                  || any (beats z s) (choose (λ i. false) (sort_readings z (scored z r))))
                ≡ true)
              _ (λ s h. any-sort_spans (beats z s) _ ∙ of_empty (beats z s) _ h) _
              (choose-beats z (λ i. false) [] _ (λ i. unfold any in refl) tt
                (sort_ranked z (scored z r)) proper));
    }
