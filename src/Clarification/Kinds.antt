-- ===== src/Clarification/Kinds.antt =====
-- A message is taken for one thing.
use conversational_copil.Prelude.{
  String, ◌≡◌, ap, ◌∙◌, sym, Bool, true, false, not, ◌&&◌, arith, is_text,
}
use conversational_copil.Wording.{normalize_short_text}
use conversational_copil.Wording.Normal.{short_text_idem}
use conversational_copil.Clarification.Wordings.{
  asks_anew, looks_like_new_analytics_question, looks_like_short_clarification_answer,
}

middle_false : (a n r : Bool) → ((a && not n) && r) ≡ true → n ≡ false
middle_false a n r h = ground arith

same_question :
    (text : String)
    → looks_like_new_analytics_question (normalize_short_text text)
      ≡ looks_like_new_analytics_question text
unfolding looks_like_new_analytics_question
same_question text = ap asks_anew (short_text_idem text)

-- A message that looks like a short answer to a clarification never looks like a new analytics
-- question, although one test reads the message as it is and the other its short form.
pub answer_not_question :
    (text : String)
    → looks_like_short_clarification_answer text ≡ true
    → looks_like_new_analytics_question text ≡ false
unfolding looks_like_short_clarification_answer
answer_not_question text h =
    sym (same_question text)
    ∙ middle_false (is_text (normalize_short_text text))
        (looks_like_new_analytics_question (normalize_short_text text)) _ h
