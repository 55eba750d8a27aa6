-- ===== src/Resolving/Questions.antt =====
-- The texts of the questions: `_format_clarification_option`, `_slot_label`, `_budget_noun` and the
-- f-strings of `_finalize` and `_too_many_lookup_values_result`.
use conversational_copil.Prelude.{
  ℕ, suc, ◌+◌, String, ◌<>◌, Option, List, [], ◌∷◌, ◌++◌, map, if◌then◌else◌, ◌==◌, length, take,
  join, str_eq, is_text, truthy, or_text, starts_with, numeral, to_lower, upper_letter, split_on,
  text_le, keep_if,
}
use conversational_copil.Entities.{SlotOption, ResolvedSlot}
use conversational_copil.Wording.{clean_text_value, is_confirmation_text}
use conversational_copil.Resolving.{
  counts_against_budget, Limits, lookup_slot_limit, budgeted_columns, add_text, FoundSpan,
}

abbrev pub clarify_noun : String → String
clarify_noun c =
    if str_eq c "store"
    then "store"
    else if str_eq c "opco"
    then "OpCo"
    else if str_eq c "enum"
    then "value"
    else "product"

abbrev texts_or : String → String → String
texts_or a b = if is_text a then a else b

-- `part.capitalize()`
abbrev capitalize : String → String
capitalize String.[] = String.[]
capitalize (String.◌∷◌ c s) = String.◌∷◌ (upper_letter c) (to_lower s)

abbrev shown_part : String → String
shown_part p = if str_eq p "NorthCo" then p else capitalize p

-- `_display_opco_code`
unfoldable pub display_opco_code : Option String → String
unfolding clean_text_value split_on to_lower join
display_opco_code opco_code =
    let code = clean_text_value (or_text opco_code "") in
    if is_text code
    then (if str_eq code "N360" then "N360" else join " " (map shown_part (split_on "_" code)))
    else ""

-- `sorted` of texts
unfoldable pub insert_text : String → List String → List String
insert_text x [] = x ∷ []
insert_text x (y ∷ ys) = let rest = insert_text x ys in if text_le x y then x ∷ y ∷ ys else y ∷ rest

unfoldable pub sort_texts : List String → List String
unfolding insert_text
sort_texts [] = []
sort_texts (x ∷ xs) = insert_text x (sort_texts xs)

-- `_format_clarification_option`
unfoldable pub format_option : SlotOption → String
unfolding clean_text_value display_opco_code
format_option o =
    let label = texts_or (clean_text_value o.display_value) (clean_text_value o.canonical_value) in
    let opco =
      texts_or (clean_text_value (or_text o.opco_name "")) (display_opco_code o.opco_code) in
    if is_text opco then label <> (" (OpCo: " <> (opco <> ")")) else label

unfoldable pub option_lines : ℕ → List SlotOption → List String
unfolding format_option numeral
option_lines i [] = []
option_lines i (o ∷ os) = (numeral i <> (". " <> format_option o)) ∷ option_lines (suc i) os

unfoldable pub impossible_question : List String → ResolvedSlot → String
unfolding sort_texts join
impossible_question codes s =
    let pinned = texts_or (join ", " (sort_texts codes)) "the selected OpCo" in
    let noun = clarify_noun s.entity_class in
    "I could not find the "
    <> (noun
        <> (" \""
            <> (s.phrase
                <> ("\" within "
                    <> (pinned
                        <> (", which is fixed by the store you selected. Entities from different OpCos cannot be combined. Please name a "
                            <> (noun
                                <> (" from "
                                    <> (pinned <> ", or ask again with a different store.")))))))))

-- The question about a slot, after the reply that answered nothing, if there was one.
unfoldable pub slot_question : ℕ → Option String → ResolvedSlot → String
unfolding option_lines join is_confirmation_text
slot_question max_options invalid s =
    let options = join "\n" (option_lines 1 (take max_options s.options)) in
    let noun = clarify_noun s.entity_class in
    if truthy invalid
    then (if is_confirmation_text (or_text invalid "")
        then "Please reply with the option number only, not yes/no. Which "
          <> (noun <> (" did you mean?\n" <> options))
        else "I could not match your reply to one of the options. Please reply with the option number only.\n"
          <> options)
    else if length s.options == 1
    then "I could not match \""
      <> (s.phrase
          <> ("\" exactly. Select the option number if this is the right "
              <> (noun <> (".\nReply with the option number only.\n" <> options))))
    else "I found more than one "
      <> (noun
          <> (" matching \""
              <> (s.phrase
                  <> ("\". Which one did you mean?\nReply with the option number only.\n"
                      <> options))))

abbrev quoted : String → String
quoted s = "\"" <> (s <> "\"")

abbrev first_shown : List SlotOption → String
first_shown [] = ""
first_shown (o ∷ os) = clean_text_value o.display_value

unfoldable pub slot_label : ResolvedSlot → String
unfolding clean_text_value
slot_label s = texts_or (clean_text_value (or_text s.display_value "")) (
    texts_or (clean_text_value (or_text s.canonical_value ""))
      (texts_or (first_shown s.options) (quoted s.phrase)))

unfoldable pub span_label : FoundSpan → String
unfolding clean_text_value
span_label s = texts_or (first_shown s.candidates) (quoted s.text)

abbrev plural_label : String → String
plural_label c =
    if str_eq c "store"
    then "stores"
    else if starts_with c "category_"
    then "products"
    else "lookup values"

-- the labels of `_budget_noun`, each once
abbrev one_label : List String → String
one_label (x ∷ []) = x
one_label _ = "store or product filters"

unfoldable pub budget_noun : List String → String
unfolding add_text
budget_noun classes = one_label (labels classes)
  where
    labels : List String → List String
    labels [] = []
    labels (c ∷ cs) = add_text (plural_label c) (labels cs)

-- the classes of the spans that found no place, each once
unfoldable pub distinct_classes : List (FoundSpan × String) → List String
unfolding add_text
distinct_classes [] = []
distinct_classes ((s, c) ∷ os) = add_text c (distinct_classes os)

unfoldable pub budget_question : Limits → List ResolvedSlot → List (FoundSpan × String) → String
unfolding lookup_slot_limit counts_against_budget budgeted_columns slot_label span_label budget_noun
    distinct_classes numeral join keep_if
budget_question l slots overflow =
    let counted = keep_if (λ (s : ResolvedSlot). counts_against_budget s.entity_class) slots in
    let limit = numeral (lookup_slot_limit l) in
    let noun = budget_noun (
      map (λ (s : ResolvedSlot). s.entity_class) counted
      ++ map (λ (o : FoundSpan × String). o.1) overflow) in
    let distinct = length (budgeted_columns slots) + length (distinct_classes overflow) in
    let labels =
      map slot_label counted ++ map (λ (o : FoundSpan × String). span_label o.0) overflow in
    "I can use at most "
    <> (limit
        <> (" kinds of "
            <> (noun
                <> (" in one question, and this one has "
                    <> (numeral distinct
                        <> (": "
                            <> (join ", " labels
                                <> (". Please ask again using no more than "
                                    <> (limit <> ".")))))))))
