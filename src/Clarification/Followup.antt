-- ===== src/Clarification/Followup.antt =====
-- The query that an answer to the pending clarification stands for:
-- `find_original_user_query_for_clarification` and `build_clarification_followup_query`.
use mathlib.Core.List.{reverse}
use conversational_copil.Prelude.{
  ℕ, String, ◌<>◌, Bool, true, false, not, ◌&&◌, Option, none, some, List, [], ◌∷◌, ◌++◌,
  if◌then◌else◌, take, any, is_text, join, contains,
}
use conversational_copil.Entities.{ResolvedSlot}
use conversational_copil.Wording.{clean_text_value, normalize_lookup_text, is_confirmation_text}
use conversational_copil.Resolving.{is_ambiguous}
use conversational_copil.Graph.State.{Answer, Message}
use conversational_copil.Clarification.{
  is_prior_assistant_clarification, is_assistant, last_assistant_payload_index,
  active_clarification_window,
}
use conversational_copil.Clarification.Wordings.{
  looks_like_new_analytics_question, looks_like_short_clarification_answer,
}

-- The texts of an option that a reply chose (`extract_selected_lookup_option`).
pub record Selected : Type 0 where
  pub value : String
  pub phrase : Option String
  pub field : Option String
  pub context : Option String

-- What the policy reads elsewhere: `json.loads`, the option that a reply chooses in the text of an
-- answer, and the names of the glossary's lookup columns.
pub record Sources : Type 0 where
  pub loads : String → Option Answer
  pub extract_selected_lookup_option : String → String → Option Selected
  pub lookup_fields : List String

-- a user's message that may be the question itself
unfoldable pub is_question : String → Bool
is_question content =
    is_text content
    && (not (contains content "User provided missing clarification detail:")
        && not (contains content "User selected clarification option:"))

-- the first of the messages, with what passes, in stripped form
unfoldable pub first_said : (String → Bool) → List Message → Option String
unfolding is_question clean_text_value
first_said passes [] = none
first_said passes (m ∷ ms) =
    let rest = first_said passes ms in
    let content = clean_text_value m.content in
    if not (is_assistant m.role) && (is_question content && passes content)
    then some content
    else rest

abbrev pub or_said : Option String → Option String → Option String
or_said none b = b
or_said (some q) b = some q

-- the two loops over `reversed(items[:last_idx])`
unfoldable pub original_in : List Message → Option String
unfolding first_said looks_like_short_clarification_answer
original_in before =
    or_said (first_said (λ t. not (looks_like_short_clarification_answer t)) before)
      (first_said (λ t. true) before)

abbrev pub before_last : List Message → Option (ℕ × Answer) → List Message
before_last items none = []
before_last items (some (i, p)) = take i items

unfoldable pub find_original_user_query_for_clarification :
    (String → Option Answer) → List Message → Option String
unfolding active_clarification_window last_assistant_payload_index original_in
find_original_user_query_for_clarification loads history =
    let items = active_clarification_window loads history in
    original_in (reverse (before_last items (last_assistant_payload_index loads items)))

abbrev has_options : ResolvedSlot → Bool
has_options s = is_ambiguous s.status && (elim s.options [ [] ↦ false | o ∷ os ↦ true ])

unfoldable pub has_numbered_lookup_options : Option Answer → Bool
unfolding any
has_numbered_lookup_options none = false
has_numbered_lookup_options (some p) = elim p.lookup_plan [
  | none ↦ false
  | some plan ↦ any has_options plan.slots
]

unfoldable pub mentions_lookup_backed_field : List String → String → Bool
unfolding normalize_lookup_text any
mentions_lookup_backed_field fields text =
    let q = normalize_lookup_text text in
    is_text q
    && any (λ f. is_text (normalize_lookup_text f) && contains q (normalize_lookup_text f)) fields

-- `INTERNAL_LINE_MARKER`
abbrev pub marker : String
marker = "[internal]"

abbrev line_for : String → Option String → List String
line_for label none = []
line_for label (some s) = if is_text s then (marker <> (label <> s)) ∷ [] else []

abbrev pub selected_query : String → Selected → String
selected_query original o = join "\n" (
    original
    ∷ (marker <> (" User selected clarification option: " <> o.value))
    ∷ (marker
        <> (" Use exactly this canonical selected value when it is a filter value: " <> o.value))
    ∷ (line_for " Resolved raw lookup phrase: " o.phrase
        ++ (line_for " Selected lookup field: " o.field
            ++ line_for " Selected option context only: " o.context)))

-- A query, whether it is a followup, and the reason.
abbrev pub Built : Type 0
Built = String × Bool × Option String

abbrev pub unselected : Sources → String → Option Answer → String → Built
unselected v q previous original =
    if is_confirmation_text q && has_numbered_lookup_options previous
    then (
      original <> ("\n" <> (marker <> (" Reply with the option number only: " <> q))),
      true,
      some "User replied with yes/no to numbered lookup options; ask for an option number.",
    )
    else if is_confirmation_text q
    then (
      original
          <> ("\n"
              <> (marker
                  <> " User confirmed the pending clarification. Proceed with the already clarified request.")),
      true,
      some "User confirmed pending clarification; proceed to SQL planning.",
    )
    else if mentions_lookup_backed_field v.lookup_fields q
    then (q, false, none)
    else (
      original <> ("\n" <> (marker <> (" User provided missing clarification detail: " <> q))),
      true,
      some "User supplied missing clarification detail; proceed to SQL planning.",
    )

abbrev pub with_selected : Sources → String → Option Answer → String → Option Selected → Built
with_selected v q previous original none = unselected v q previous original
with_selected v q previous original (some o) =
    if is_text o.value
    then (
      selected_query original o,
      true,
      some ("Resolved pending clarification with selected option `" <> (o.value <> "`.")),
    )
    else unselected v q previous original

abbrev pub answer_of : Option Answer → String
answer_of none = ""
answer_of (some p) = p.answer

abbrev pub with_original : Sources → String → String → Option Answer → Option String → Built
with_original v current q previous none = (current, false, none)
with_original v current q previous (some original) =
    if is_text original
    then with_selected v q previous original
        (v.extract_selected_lookup_option (answer_of previous) q)
    else (current, false, none)

abbrev pub is_reply : String → Bool
is_reply q = not (looks_like_new_analytics_question q) && looks_like_short_clarification_answer q

unfoldable pub build_clarification_followup_query :
    Sources → String → List Message → Option Answer → Built
unfolding is_prior_assistant_clarification looks_like_new_analytics_question
    looks_like_short_clarification_answer find_original_user_query_for_clarification
    is_confirmation_text has_numbered_lookup_options mentions_lookup_backed_field join
    clean_text_value
build_clarification_followup_query v current history previous =
    let q = clean_text_value current in
    if is_prior_assistant_clarification previous && is_reply q
    then with_original v current q previous
        (find_original_user_query_for_clarification v.loads history)
    else (current, false, none)
