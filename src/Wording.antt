-- ===== src/Wording.antt =====
-- Texts as they are compared (app/utils/text_utils.py, and `normalize` of
-- app/service/entity_resolution/dictionary.py), and the short replies of
-- app/policies/clarification_policy.py. `str.lower` is that of ASCII, and white space is that of
-- Latin-1.
pub mod Normal
use Prim.Native.Char.{Char, code}
use conversational_copil.Prelude.{
  ℕ, ◌+◌, ◌-◌, ◌*◌, String, ◌≡◌, refl, Bool, true, false, not, ◌&&◌, ◌||◌, Option, none, some, List,
  [], ◌∷◌, if◌then◌else◌, ltb, leb, ◌==◌, elem_of, str_eq, to_lower, is_digit,
}

-- `str.isspace` of a character
abbrev pub is_space : Char → Bool
is_space c =
    (leb 9 (code c) && leb (code c) 13)
    || ((leb 28 (code c) && leb (code c) 32) || ((code c == 133) || (code c == 160)))

unfoldable pub strip_left : String → String
strip_left String.[] = String.[]
strip_left (String.◌∷◌ c s) = let rest = strip_left s in if is_space c then rest else String.◌∷◌ c s

abbrev pub put_before : Char → String → String
put_before c String.[] = if is_space c then String.[] else String.◌∷◌ c String.[]
put_before c (String.◌∷◌ d s) = String.◌∷◌ c (String.◌∷◌ d s)

unfoldable pub strip_right : String → String
strip_right String.[] = String.[]
strip_right (String.◌∷◌ c s) = put_before c (strip_right s)

-- `clean_text_value` of a text, which is `str.strip`
unfoldable pub clean_text_value : String → String
unfolding strip_left strip_right
clean_text_value value = strip_left (strip_right value)

-- what `[^a-z0-9\s]` and `_` leave of a lowered text
abbrev pub is_kept : Char → Bool
is_kept c = (leb 97 (code c) && leb (code c) 122) || is_digit c

-- Where a text is being written: nothing yet, after a word's character, or after a gap that follows
-- one.
pub data Place : Type 0 where
  nothing inside gap : Place

abbrev pub to_gap : Place → Place
to_gap nothing = nothing
to_gap inside = gap
to_gap gap = gap

abbrev pub spaced : Place → Char → String → String
spaced gap c rest = String.◌∷◌ " " (String.◌∷◌ c rest)
spaced _ c rest = String.◌∷◌ c rest

-- The characters that pass, with one space for what is between two of them.
unfoldable pub squeeze : (Char → Bool) → Place → String → String
squeeze keep place String.[] = String.[]
squeeze keep place (String.◌∷◌ c s) =
    let kept = squeeze keep inside s in
    let dropped = squeeze keep (to_gap place) s in if keep c then spaced place c kept else dropped

-- `normalize_lookup_text`, and `normalize` of the dictionary
unfoldable pub normalize_lookup_text : String → String
unfolding squeeze to_lower
normalize_lookup_text value = squeeze is_kept nothing (to_lower value)

-- `" ".join((value or "").strip().lower().split())`
unfoldable pub normalize_short_text : String → String
unfolding squeeze to_lower
normalize_short_text value = squeeze (λ c. not (is_space c)) nothing (to_lower value)

-- `\d{1,2}` to the end
abbrev pub is_short_number : String → Bool
is_short_number (String.◌∷◌ c String.[]) = is_digit c
is_short_number (String.◌∷◌ c (String.◌∷◌ d String.[])) = is_digit c && is_digit d
is_short_number _ = false

-- `text.removeprefix(prefix)`, or `none` where the text does not begin so
unfoldable pub after_prefix : String → String → Option String
after_prefix String.[] s = some s
after_prefix (String.◌∷◌ p ps) String.[] = none
after_prefix (String.◌∷◌ p ps) (String.◌∷◌ c s) =
    let rest = after_prefix ps s in if code p == code c then rest else none

abbrev pub number_after : Option String → Bool
number_after none = false
number_after (some s) = is_short_number s

-- `(?:option\s*)?\d{1,2}` on a text whose gaps are single spaces
unfoldable pub is_option_number : String → Bool
unfolding normalize_short_text after_prefix
is_option_number text =
    let q = normalize_short_text text in
    is_short_number q
    || (number_after (after_prefix "option " q) || number_after (after_prefix "option" q))

abbrev confirmation_replies : List String
confirmation_replies =
    "yes" ∷ "y" ∷ "yeah" ∷ "yep" ∷ "ok" ∷ "okay" ∷ "sure" ∷ "correct" ∷ "confirm" ∷ "confirmed"
    ∷ "proceed" ∷ "continue" ∷ "go ahead" ∷ "run it" ∷ "do it" ∷ []

unfoldable pub is_confirmation_text : String → Bool
unfolding normalize_short_text elem_of
is_confirmation_text text = elem_of (normalize_short_text text) confirmation_replies

-- `int(text)` of digits
abbrev digits_value : ℕ → String → Option ℕ
digits_value n String.[] = some n
digits_value n (String.◌∷◌ c s) =
    let rest = digits_value (n * 10 + (code c - 48)) s in if is_digit c then rest else none

abbrev pub int_of : String → Option ℕ
int_of String.[] = none
int_of (String.◌∷◌ c s) = digits_value 0 (String.◌∷◌ c s)

normalized : normalize_lookup_text "  MEGA_Mall (No. 7)!" ≡ "mega mall no 7"
unfolding normalize_lookup_text
normalized = refl

an_option : is_option_number " Option  12 " ≡ true
unfolding is_option_number
an_option = refl

a_number : int_of "42" ≡ some 42
a_number = refl
