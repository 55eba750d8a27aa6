-- ===== src/Scenarios/Dialogue.antt =====
-- A conversation with a clarification that failed and one that is pending, and the theorems on
-- clarifications at it.
use conversational_copil.Prelude.{
  String, ◌≡◌, refl, true, false, Option, none, some, List, [], ◌∷◌, ◌++◌, if◌then◌else◌, str_eq,
}
use conversational_copil.Graph.State.{Answer, Message, Role}
use conversational_copil.Clarification.{
  active_clarification_window, active_clarification_window_start_index,
  history_without_active_clarification_window,
}
use conversational_copil.Clarification.Wordings.{
  looks_like_new_analytics_question, looks_like_short_clarification_answer,
}
use conversational_copil.Clarification.Followup.{Sources, build_clarification_followup_query}
use conversational_copil.Clarification.Windows.{Pending, windows}
use conversational_copil.Clarification.Original.{FollowsUp, followups}
use conversational_copil.Clarification.Kinds.{answer_not_question}
use conversational_copil.Scenarios.{sample_answer}

abbrev failed_lookup : Answer
failed_lookup = record sample_answer { answer = "I could not find lamb in the lookup master data." }

abbrev loads : String → Option Answer
loads content =
    if str_eq content "asked"
    then some sample_answer
    else if str_eq content "failed"
    then some failed_lookup
    else none

abbrev says : Role → String → Message
says r t = record { role = r; content = t }

abbrev dialogue : List Message
dialogue =
    says Role.user "How many customers buy lamb"
    ∷ says Role.assistant "failed"
    ∷ says Role.user "How many customers buy beef"
    ∷ says Role.assistant "asked"
    ∷ []

abbrev sources : Sources
sources = record {
  loads = loads;
  extract_selected_lookup_option = λ a q. none;
  lookup_fields = "store_name" ∷ [];
}

-- The chain begins after the failed lookup.
begins : active_clarification_window_start_index loads dialogue ≡ some 2
unfolding active_clarification_window_start_index
begins = refl

merged :
    (build_clarification_followup_query sources "in 2026" dialogue (some sample_answer)).0
    ≡ "How many customers buy beef\n[internal] User provided missing clarification detail: in 2026"
unfolding build_clarification_followup_query
merged = refl

windows_example :
    (history_without_active_clarification_window loads dialogue
        ++ active_clarification_window loads dialogue
      ≡ dialogue)
    × Pending loads dialogue (active_clarification_window_start_index loads dialogue)
windows_example = windows loads dialogue

followups_example :
    FollowsUp sources "in 2026" dialogue
      (some sample_answer)
      (build_clarification_followup_query sources "in 2026" dialogue (some sample_answer))
followups_example = followups sources "in 2026" dialogue (some sample_answer)

a_short_answer : looks_like_short_clarification_answer "in 2026" ≡ true
unfolding looks_like_short_clarification_answer
a_short_answer = refl

answer_not_question_example : looks_like_new_analytics_question "in 2026" ≡ false
answer_not_question_example = answer_not_question "in 2026" a_short_answer
