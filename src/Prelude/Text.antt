-- ===== src/Prelude/Text.antt =====
-- Texts as the program uses them: equality, membership, truth of an optional text, joining.
use Prim.Native.String.{String, ◌++◌ as ◌<>◌}
use mathlib.Core.Path.{◌≡◌, refl}
use mathlib.Core.Bool.{Bool, true, false, not, ◌||◌}
use mathlib.Core.Option.{Option, none, some}
use mathlib.Core.List.{List, [], ◌∷◌}
use text.Mathlib.Text.{◌==◌ as str_eq}
use native.Mathlib.Omega.{arith}
use mathlib.Core.Logic.{inl, inr}
use text.Mathlib.TextLemmas.{append-eq-nil_iff}
use text.Mathlib.TextEquality.{eq_iff}
use conversational_copil.Prelude.Tests.{if◌then◌else◌, Bool-cases}
pub use Prim.Native.String.{◌++◌ as ◌<>◌}
pub use text.Mathlib.Text.{◌==◌ as str_eq, starts_with}
pub use text.Mathlib.TextEquality.{eq_iff}
pub use text.Mathlib.TextPositions.{eq_refl}

-- `x in xs`
unfoldable pub elem_of : String → List String → Bool
elem_of x [] = false
elem_of x (y ∷ ys) = str_eq x y || elem_of x ys

-- the truth of a text: it is not empty
abbrev pub is_text : String → Bool
is_text s = not (str_eq s "")

-- the truth of a value that may be `None`
abbrev pub truthy : Option String → Bool
truthy none = false
truthy (some s) = is_text s

-- `value or default`, with a text as the default
abbrev pub or_text : Option String → String → String
or_text none d = d
or_text (some s) d = if is_text s then s else d

-- `a or b`, where both may be `None`
abbrev pub or_else : Option String → Option String → Option String
or_else none b = b
or_else (some s) b = if is_text s then some s else b

-- `[x for x in xs if x]`
unfoldable pub present : List (Option String) → List String
present [] = []
present (none ∷ xs) = present xs
present (some s ∷ xs) = let rest = present xs in if is_text s then s ∷ rest else rest

-- `sep.join(xs)`
unfoldable pub join : String → List String → String
join sep [] = ""
join sep (x ∷ []) = x
join sep (x ∷ y ∷ ys) = x <> (sep <> join sep (y ∷ ys))

-- `dict.get(k, default)` of a dictionary literal
unfoldable pub get_key : String → String → List (String × String) → String
get_key k d [] = d
get_key k d ((j, v) ∷ m) = if str_eq k j then v else get_key k d m

-- A value that is true is a text that is there.
pub truthy→some : (o : Option String) → truthy o ≡ true → (s : String) × (o ≡ some s)
truthy→some none h = absurd (ground arith)
truthy→some (some s) h = (s, λ i. some s)

-- A text that begins with one that is not empty is not empty.
pub text-append : (s t : String) → is_text s ≡ true → is_text (s <> t) ≡ true
text-append s t h = elim (Bool-cases (str_eq (s <> t) "")) [
  | inl e ↦ absurd (
      ground
        (arith, eq_iff s "", (append-eq-nil_iff {p = s} {q = t}).0 ((eq_iff (s <> t) "").0 e), h))
  | inr e ↦ rw e refl
]
