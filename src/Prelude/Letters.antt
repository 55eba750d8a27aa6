-- ===== src/Prelude/Letters.antt =====
-- Texts by their characters: `str.lower()` for the letters of ASCII, `needle in text`, and the
-- characters that a bare name is made of.
use Prim.Native.Nat.{ℕ, zero, suc, ◌+◌, ◌/◌, ◌%◌}
use Prim.Native.Char.{Char, code}
use Prim.Native.String.{String, compare, slice, ◌++◌ as ◌<>◌}
use mathlib.Core.Path.{◌≡◌, refl}
use mathlib.Core.Bool.{Bool, true, false, ◌&&◌, ◌||◌}
use mathlib.Core.List.{List, [], ◌∷◌}
use mathlib.Core.Option.{Option, none, some}
use text.Mathlib.Text.{find?, is_le}
use conversational_copil.Prelude.Tests.{ltb, leb, ◌==◌, if◌then◌else◌}

abbrev pub lower_by : String → String → Char → Char
lower_by (String.◌∷◌ u us) (String.◌∷◌ l ls) c =
    let rest = lower_by us ls c in if code u == code c then l else rest
lower_by _ _ c = c

-- `str.lower` of a letter
abbrev pub lower_letter : Char → Char
lower_letter c = lower_by "ABCDEFGHIJKLMNOPQRSTUVWXYZ" "abcdefghijklmnopqrstuvwxyz" c

unfoldable pub to_lower : String → String
to_lower String.[] = String.[]
to_lower (String.◌∷◌ c s) = String.◌∷◌ (lower_letter c) (to_lower s)

-- `str.upper` of a letter
abbrev pub upper_letter : Char → Char
upper_letter c = lower_by "abcdefghijklmnopqrstuvwxyz" "ABCDEFGHIJKLMNOPQRSTUVWXYZ" c

-- the order of texts by their characters' numbers
abbrev pub text_le : String → String → Bool
text_le s t = is_le (compare s t)

abbrev grown : Char → List String → List String
grown c [] = String.◌∷◌ c String.[] ∷ []
grown c (part ∷ parts) = String.◌∷◌ c part ∷ parts

-- `text.split(separator)` of one character
unfoldable pub split_on : Char → String → List String
split_on d String.[] = String.[] ∷ []
split_on d (String.◌∷◌ c s) =
    let rest = split_on d s in if code c == code d then String.[] ∷ rest else grown c rest

abbrev is_found : Option ℕ → Bool
is_found none = false
is_found (some i) = true

-- `needle in text`
abbrev pub contains : String → String → Bool
contains text needle = is_found (find? text needle)

abbrev pub is_digit : Char → Bool
is_digit c = leb 48 (code c) && leb (code c) 57

abbrev pub is_name_start : Char → Bool
is_name_start c =
    (leb 65 (code c) && leb (code c) 90) || (leb 97 (code c) && leb (code c) 122) || (code c == 95)

-- the rest of a bare name, where `$` also matches before a line's end that ends the text
unfoldable pub is_name_rest : String → Bool
is_name_rest String.[] = true
is_name_rest (String.◌∷◌ c String.[]) = is_name_start c || is_digit c || (code c == 10)
is_name_rest (String.◌∷◌ c (String.◌∷◌ d s)) =
    (is_name_start c || is_digit c) && is_name_rest (String.◌∷◌ d s)

lowered : to_lower "Syntax ERROR at 7" ≡ "syntax error at 7"
unfolding to_lower
lowered = refl

found : contains "a syntax error" "syntax error" ≡ true
found = refl

abbrev digit : ℕ → String
digit k = slice "0123456789" k (k + 1)

-- the digits of a number, before those that are already written
unfoldable pub digits_before : ℕ → ℕ → String → String
digits_before zero n written = written
digits_before (suc fuel) n written =
    let rest = digits_before fuel (n / 10) (digit (n % 10) <> written) in
    if ltb n 10 then digit n <> written else rest

-- `str(n)`; a number has no more digits than it has predecessors, and one
unfoldable pub numeral : ℕ → String
unfolding digits_before
numeral n = digits_before (suc n) n ""

numerals : numeral 10507 ≡ "10507"
unfolding numeral
numerals = refl
