-- ===== src/Clarification/Wordings.antt =====
-- What a short message looks like: a time, a new question, an answer.
use Prim.Native.Char.{Char, code}
use conversational_copil.Prelude.{
  String, ◌≡◌, refl, Bool, true, false, not, ◌&&◌, ◌||◌, Option, none, some, List, [], ◌∷◌,
  if◌then◌else◌, leb, ◌==◌, length, any, elem_of, is_text, is_digit, split_on, contains, keep_if,
}
use conversational_copil.Wording.{
  is_space, nothing, squeeze, normalize_short_text, is_option_number, is_confirmation_text,
  after_prefix,
}

-- The maximal runs of the characters that pass, in their order.
unfoldable pub runs_of : (Char → Bool) → String → List String
unfolding squeeze split_on keep_if
runs_of keep s = keep_if is_text (split_on " " (squeeze keep nothing s))

-- `text.split()`
abbrev is_solid : Char → Bool
is_solid c = not (is_space c)

-- `q.replace(",", " ").split()`
abbrev is_solid_no_comma : Char → Bool
is_solid_no_comma c = is_solid c && not (code c == 44)

-- `[a-z0-9&]`
abbrev is_token_char : Char → Bool
is_token_char c = (leb 97 (code c) && leb (code c) 122) || (is_digit c || (code c == 38))

-- `\w` of ASCII
abbrev is_word_char : Char → Bool
is_word_char c =
    (leb 97 (code c) && leb (code c) 122)
    || ((leb 65 (code c) && leb (code c) 90) || (is_digit c || (code c == 95)))

-- two digits to the end
abbrev two_digits : Option String → Bool
two_digits (some (String.◌∷◌ c (String.◌∷◌ d String.[]))) = is_digit c && is_digit d
two_digits _ = false

-- `20\d{2}`
unfoldable pub is_year : String → Bool
unfolding after_prefix
is_year s = two_digits (after_prefix "20" s)

-- `(?:19|20)\d{2}`
unfoldable pub is_any_year : String → Bool
unfolding after_prefix
is_any_year s = two_digits (after_prefix "20" s) || two_digits (after_prefix "19" s)

abbrev month_words : List String
month_words =
    "jan" ∷ "january" ∷ "feb" ∷ "february" ∷ "mar" ∷ "march" ∷ "apr" ∷ "april" ∷ "may" ∷ "jun"
    ∷ "june" ∷ "jul" ∷ "july" ∷ "aug" ∷ "august" ∷ "sep" ∷ "sept" ∷ "september" ∷ "oct" ∷ "october"
    ∷ "nov" ∷ "november" ∷ "dec" ∷ "december" ∷ []

abbrev relative_times : List String
relative_times = "this year" ∷ "last year" ∷ "this month" ∷ "last month" ∷ "ytd" ∷ "mtd" ∷ []

abbrev analytics_intent_words : List String
analytics_intent_words =
    "how" ∷ "many" ∷ "count" ∷ "number" ∷ "total" ∷ "sum" ∷ "average" ∷ "avg" ∷ "show" ∷ "list"
    ∷ "give" ∷ "compare" ∷ "trend" ∷ "breakdown" ∷ "distribution" ∷ []

abbrev analytics_metric_words : List String
analytics_metric_words =
    "customer" ∷ "customers" ∷ "cust" ∷ "people" ∷ "person" ∷ "member" ∷ "members" ∷ "transaction"
    ∷ "transactions" ∷ "sale" ∷ "sales" ∷ "revenue" ∷ "spend" ∷ "spent" ∷ "amount" ∷ "basket"
    ∷ "visit" ∷ "visits" ∷ "store" ∷ "stores" ∷ "product" ∷ "products" ∷ []

abbrev analytics_action_words : List String
analytics_action_words =
    "buy" ∷ "buys" ∷ "bought" ∷ "purchase" ∷ "purchases" ∷ "purchased" ∷ "visit" ∷ "visited"
    ∷ "spend" ∷ "spent" ∷ "has" ∷ "have" ∷ "having" ∷ "with" ∷ "in" ∷ "by" ∷ "for" ∷ "are" ∷ "is"
    ∷ "there" ∷ "across" ∷ "over" ∷ "near" ∷ "live" ∷ "lives" ∷ "living" ∷ []

abbrev population_words : List String
population_words = "are" ∷ "is" ∷ "there" ∷ "across" ∷ "ecosystem" ∷ []

-- `bool(tokens & words)`
unfoldable pub shares_word : List String → List String → Bool
unfolding any elem_of
shares_word tokens words = any (λ t. elem_of t words) tokens

abbrev or_whole : String → Option String → String
or_whole s none = s
or_whole s (some rest) = rest

-- `(?:in\s+)?(?:year\s+)?20\d{2}`
unfoldable pub is_year_phrase : String → Bool
unfolding after_prefix is_year
is_year_phrase q =
    let rest = or_whole q (after_prefix "in " q) in
    is_year rest || is_year (or_whole rest (after_prefix "year " rest))

unfoldable pub looks_like_time_slot_answer : String → Bool
unfolding normalize_short_text is_year_phrase runs_of shares_word any is_year elem_of
looks_like_time_slot_answer text =
    let q = normalize_short_text text in
    let tokens = runs_of is_solid_no_comma q in
    is_text q
    && (is_year_phrase q
        || ((shares_word tokens month_words && any is_year tokens) || elem_of q relative_times))

unfoldable pub has_time_signal : String → Bool
unfolding normalize_short_text runs_of shares_word any is_any_year elem_of
has_time_signal text =
    let q = normalize_short_text text in
    is_text q
    && (any is_any_year (runs_of is_word_char q)
        || (shares_word (runs_of is_solid_no_comma q) month_words || elem_of q relative_times))

-- A set's size: each text once.
unfoldable pub distinct : List String → List String
unfolding elem_of
distinct [] = []
distinct (t ∷ ts) = let rest = distinct ts in if elem_of t rest then rest else t ∷ rest

abbrev asks_metric : List String → Bool → Bool
asks_metric tokens has_time =
    let has_intent = shares_word tokens analytics_intent_words in
    let has_metric = shares_word tokens analytics_metric_words in
    let has_action = shares_word tokens analytics_action_words in
    (has_intent && (has_metric && (has_action || has_time)))
    || ((has_intent && (has_metric && shares_word tokens population_words))
        || (has_metric && (has_time && leb 3 (length (distinct tokens)))))

-- `looks_like_new_analytics_question` of a text in its short form
unfoldable pub asks_anew : String → Bool
unfolding is_option_number is_confirmation_text runs_of has_time_signal shares_word distinct
asks_anew q =
    (is_text q && (not (is_option_number q) && not (is_confirmation_text q)))
    && asks_metric (runs_of is_token_char q) (has_time_signal q)

unfoldable pub looks_like_new_analytics_question : String → Bool
unfolding normalize_short_text asks_anew
looks_like_new_analytics_question text = asks_anew (normalize_short_text text)

unfoldable pub looks_like_short_clarification_answer : String → Bool
unfolding normalize_short_text looks_like_new_analytics_question is_option_number
    is_confirmation_text looks_like_time_slot_answer runs_of
looks_like_short_clarification_answer text =
    let q = normalize_short_text text in
    (is_text q && not (looks_like_new_analytics_question q))
    && ((is_option_number q || (is_confirmation_text q || looks_like_time_slot_answer q))
        || (not (contains q "?") && leb (length (runs_of is_solid q)) 4))

new_question : looks_like_new_analytics_question "How many customers buy grocery in dec 2026" ≡ true
unfolding looks_like_new_analytics_question
new_question = refl

compact_question : looks_like_new_analytics_question "customers grocery dec 2026" ≡ true
unfolding looks_like_new_analytics_question
compact_question = refl

a_time : looks_like_time_slot_answer "in year 2026" ≡ true
unfolding looks_like_time_slot_answer
a_time = refl

short_answer : looks_like_short_clarification_answer "NorthCo Mart" ≡ true
unfolding looks_like_short_clarification_answer
short_answer = refl
