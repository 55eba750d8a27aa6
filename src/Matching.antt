-- ===== src/Matching.antt =====
-- Matching of a question's words against the dictionary of stores, categories and values
-- (app/service/entity_resolution/matcher.py): what the passes do with the candidates that the
-- dictionary gives. Scores are numbers of one fixed unit, and a hundred is 100 of them times the unit.
pub mod Runs
pub mod Spans
pub mod Tags
pub mod Verdict
pub mod Readings
use conversational_copil.Prelude.{
  ℕ, zero, suc, ◌+◌, ◌-◌, min, String, Bool, true, false, not, ◌&&◌, ◌||◌, Option, none, some, List,
  [], ◌∷◌, ◌++◌, if◌then◌else◌, leb, ltb, ◌==◌, length, take, drop, keep_if, any, elem_of, join,
  str_eq,
}

-- The classes of dictionary entries; `enum_value` is "enum".
pub data EntityClass : Type 0 where
  opco store category_l1 category_l2 category_l3 category_l4 enum_value : EntityClass

pub data MatchKind : Type 0 where
  exact fuzzy : MatchKind

-- `EntityCandidate`, without its `row_context`.
pub record Candidate : Type 0 where
  pub entity_class : EntityClass
  pub canonical_value : String
  pub display_value : String
  pub target_column : String
  pub score : ℕ
  pub match_kind : MatchKind
  pub opco_code : Option String
  pub category_key : Option ℕ
  pub category_level : Option ℕ
  pub alternate_columns : List String

pub record EntitySpan : Type 0 where
  pub text : String
  pub normalized : String
  pub start_token : ℕ
  pub end_token : ℕ
  pub candidates : List Candidate

pub record TokenRun : Type 0 where
  pub start : ℕ
  pub tokens : List String

abbrev pub run_end : TokenRun → ℕ
run_end r = r.start + length r.tokens

-- `span.best`
abbrev pub best : EntitySpan → Option Candidate
best s = elim s.candidates [ [] ↦ none | c ∷ cs ↦ some c ]

-- `tokens[start:end]`
abbrev pub slice {ℓ} : {A : Type ℓ} → ℕ → ℕ → List A → List A
slice start stop xs = take (stop - start) (drop start xs)

-- The four category levels are one family.
abbrev pub class_family : EntityClass → ℕ
class_family EntityClass.opco = 0
class_family EntityClass.store = 1
class_family EntityClass.enum_value = 2
class_family _ = 3

-- What the passes read of the dictionary and of the word lists. `lookup_exact` gives its candidates in
-- the order of `_candidate_sort_key`.
pub record Dictionary : Type 0 where
  pub max_span_tokens : ℕ
  pub lookup_exact : String → List Candidate
  pub schema_terms : String → Bool
  pub is_stopword : String → Bool
  pub is_digits : String → Bool

abbrev pub is_common : Dictionary → String → Bool
is_common d text = d.is_stopword text || d.schema_terms text

abbrev pub is_filler : Dictionary → String → Bool
is_filler d t = d.is_stopword t || d.is_digits t

-- The loop of `leftover_runs` and of `restrict_runs`, over the flags that say which words break a run:
-- from position `index`, with the start of the run that is open.
unfoldable pub runs_loop : List String → List Bool → ℕ → Option ℕ → List TokenRun
runs_loop tokens [] index none = []
runs_loop tokens [] index (some start) =
    record { start = start; tokens = slice start index tokens } ∷ []
runs_loop tokens (true ∷ bs) index none = runs_loop tokens bs (index + 1) none
runs_loop tokens (true ∷ bs) index (some start) =
    record { start = start; tokens = slice start index tokens }
    ∷ runs_loop tokens bs (index + 1) none
runs_loop tokens (false ∷ bs) index none = runs_loop tokens bs (index + 1) (some index)
runs_loop tokens (false ∷ bs) index (some start) = runs_loop tokens bs (index + 1) (some start)

-- the flags of the words from position `index`
unfoldable pub breaks : Dictionary → (ℕ → Bool) → ℕ → List String → List Bool
breaks d consumed index [] = []
breaks d consumed index (t ∷ ts) =
    (consumed index || (is_filler d t || d.schema_terms t)) ∷ breaks d consumed (index + 1) ts

unfoldable pub leftover_runs : Dictionary → List String → (ℕ → Bool) → List TokenRun
unfolding breaks runs_loop
leftover_runs d tokens consumed = runs_loop tokens (breaks d consumed 0 tokens) 0 none

-- The words matched so far, and which positions they take.
pub record Tagging : Type 0 where
  pub spans : List EntitySpan
  pub consumed : ℕ → Bool

abbrev pub is_between : ℕ → ℕ → ℕ → Bool
is_between start stop i = leb start i && ltb i stop

-- `any(consumed[start:start + count])`
unfoldable pub any_from : (ℕ → Bool) → ℕ → ℕ → Bool
any_from p start zero = false
any_from p start (suc count) = p start || any_from p (start + 1) count

abbrev pub in_family : Candidate → Candidate → Bool
in_family c k = class_family k.entity_class == class_family c.entity_class

abbrev pub tagged_span : String → ℕ → ℕ → Candidate → List Candidate → EntitySpan
tagged_span text start size c cs = record {
  text = text;
  normalized = text;
  start_token = start;
  end_token = start + size;
  candidates = c ∷ keep_if (in_family c) cs;
}

abbrev pub tag_with : String → ℕ → ℕ → List Candidate → Tagging → Tagging
tag_with text start size [] g = g
tag_with text start size (c ∷ cs) g = record {
  spans = g.spans ++ (tagged_span text start size c cs ∷ []);
  consumed = λ i. g.consumed i || is_between start (start + size) i;
}

-- one window
unfoldable pub tag_window : Dictionary → List String → ℕ → ℕ → Tagging → Tagging
tag_window d tokens size start g =
    let text = join " " (slice start (start + size) tokens) in
    if any_from g.consumed start size
    then g
    else if (size == 1) && is_common d text
    then g
    else tag_with text start size (d.lookup_exact text) g

-- the windows of one size, from the left
unfoldable pub tag_starts : Dictionary → List String → ℕ → ℕ → ℕ → Tagging → Tagging
tag_starts d tokens size zero start g = g
tag_starts d tokens size (suc count) start g =
    tag_starts d tokens size count (start + 1) (tag_window d tokens size start g)

-- the sizes, the longest first
unfoldable pub tag_sizes : Dictionary → List String → ℕ → Tagging → Tagging
unfolding tag_starts
tag_sizes d tokens zero g = g
tag_sizes d tokens (suc size) g =
    tag_sizes d tokens size (tag_starts d tokens (suc size) (length tokens - size) 0 g)

abbrev pub opco_brand_tail : List String
opco_brand_tail =
    "card" ∷ "cards" ∷ "account" ∷ "accounts" ∷ "service" ∷ "services" ∷ "group" ∷ "ltd" ∷ []

-- how many words from here name an OpCo's product line
unfoldable pub tail_length : List String → ℕ
tail_length [] = 0
tail_length (t ∷ ts) =
    let rest = tail_length ts in if elem_of t opco_brand_tail then rest + 1 else 0

abbrev is_opco : Option Candidate → Bool
is_opco none = false
is_opco (some c) = class_family c.entity_class == 0

-- `absorbed`: the positions of such words that follow an OpCo
unfoldable pub absorbed : List EntitySpan → List String → ℕ → Bool
absorbed spans tokens i =
    any
      (λ s.
        is_opco (best s)
        && is_between s.end_token (s.end_token + tail_length (drop s.end_token tokens)) i)
      spans

unfoldable pub absorb_opco_brand_tails : List String → Tagging → Tagging
absorb_opco_brand_tails tokens g = record {
  spans =
      keep_if
        (λ s.
          any_from (λ i. not (absorbed g.spans tokens i)) s.start_token
            (s.end_token - s.start_token))
        g.spans;
  consumed = λ i. g.consumed i || absorbed g.spans tokens i;
}

-- `spans.sort(key=lambda s: s.start_token)`
unfoldable pub insert_span : EntitySpan → List EntitySpan → List EntitySpan
insert_span s [] = s ∷ []
insert_span s (t ∷ ts) =
    let rest = insert_span s ts in if leb s.start_token t.start_token then s ∷ t ∷ ts else t ∷ rest

unfoldable pub sort_spans : List EntitySpan → List EntitySpan
sort_spans [] = []
sort_spans (s ∷ ss) = insert_span s (sort_spans ss)

unfoldable pub match_exact : Dictionary → List String → List EntitySpan × List TokenRun
match_exact d tokens =
    let g = absorb_opco_brand_tails tokens (
      tag_sizes d tokens (min d.max_span_tokens (length tokens))
        (record { spans = []; consumed = λ i. false })) in
    (sort_spans g.spans, leftover_runs d tokens g.consumed)

-- Identity of a candidate.
abbrev pub class_index : EntityClass → ℕ
class_index EntityClass.opco = 0
class_index EntityClass.store = 1
class_index EntityClass.category_l1 = 2
class_index EntityClass.category_l2 = 3
class_index EntityClass.category_l3 = 4
class_index EntityClass.category_l4 = 5
class_index EntityClass.enum_value = 6

abbrev pub same_entity : Candidate → Candidate → Bool
same_entity a b =
    (class_index a.entity_class == class_index b.entity_class)
    && str_eq a.canonical_value b.canonical_value

-- the loop of `dedupe_candidates`, with the candidates already seen
unfoldable pub dedupe_from : List Candidate → List Candidate → List Candidate
dedupe_from seen [] = []
dedupe_from seen (c ∷ cs) =
    let kept = dedupe_from (c ∷ seen) cs in
    let rest = dedupe_from seen cs in if any (same_entity c) seen then rest else c ∷ kept

unfoldable pub dedupe_candidates : List Candidate → List Candidate
unfolding dedupe_from
dedupe_candidates cs = dedupe_from [] cs

-- The limits of the settings that the verdict reads, in the unit of the scores.
pub record Limits : Type 0 where
  pub ambiguity_margin : ℕ
  pub confident_score : ℕ
  pub whole_score : ℕ

abbrev pub is_exact : MatchKind → Bool
is_exact MatchKind.exact = true
is_exact MatchKind.fuzzy = false

-- the lead of the best candidate, or 100 if it is alone
abbrev lead : Limits → Candidate → List Candidate → ℕ
lead l c [] = l.whole_score
lead l c (k ∷ ks) = c.score - k.score

abbrev pub verdict : Limits → List Candidate → Bool
verdict l [] = false
verdict l (c ∷ cs) =
    not (leb (lead l c cs) l.ambiguity_margin)
    && (is_exact c.match_kind || leb l.confident_score c.score)

-- `span_status`: whether the span is resolved
unfoldable pub span_is_resolved : Limits → EntitySpan → Bool
unfolding dedupe_candidates
span_is_resolved l s = verdict l (dedupe_candidates s.candidates)
