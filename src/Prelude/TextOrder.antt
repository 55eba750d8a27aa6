-- ===== src/Prelude/TextOrder.antt =====
-- The order of texts by their characters' numbers is a linear order.
use Prim.Native.Nat.{Ordering, compare as compare_ℕ}
use Prim.Native.Char.{Char, code}
use Prim.Native.String.compare
use Prim.Native.String.{String, [], ◌∷◌, compare, then}
use mathlib.Core.Path.{◌≡◌, refl, sym, ◌∙◌, ap}
use mathlib.Core.Bool.{true, false, ◌&&◌, ◌||◌}
use text.Mathlib.Text.{is_le}
use text.Mathlib.TextEquality.{Char-path}
use native.Mathlib.Omega.{arith, compare-lt, compare-eq, compare-gt}
use conversational_copil.Prelude.Tests.{ltb, ◌==◌}
use conversational_copil.Prelude.Letters.{text_le}

le-cons :
    (c d : Char) (s t : String)
    → text_le (c ∷ s) (d ∷ t) ≡ (ltb (code c) (code d) || (code c == code d && text_le s t))
le-cons c d s t = ap is_le (compare.cons-cons c d s t) ∙ go (compare_ℕ (code c) (code d)) refl
  where
    go :
        (o : Ordering)
        → compare_ℕ (code c) (code d) ≡ o
        → is_le (then o (compare s t))
          ≡ (ltb (code c) (code d) || (code c == code d && text_le s t))
    go Ordering.lt e = ground (arith, compare-lt (code c) (code d) e)
    go Ordering.eq e = ground (arith, compare-eq (code c) (code d) e)
    go Ordering.gt e = ground (arith, compare-gt (code c) (code d) e)

pub le_total : (s t : String) → text_le s t ≡ false → text_le t s ≡ true
le_total [] [] h = refl
le_total [] (d ∷ t) h =
    ap is_le (compare.cons-nil d t) ∙ absurd (ground (arith, h, compare.nil-cons d t))
le_total (c ∷ s) [] h = ap is_le (compare.nil-cons c s)
le_total (c ∷ s) (d ∷ t) h =
    le-cons d c t s ∙ ground (arith, le_total s t, sym (le-cons c d s t) ∙ h)

nil_le : (t : String) → text_le [] t ≡ true
nil_le [] = refl
nil_le (d ∷ t) = ap is_le (compare.nil-cons d t)

cons_not-le : (c : Char) (s : String) → text_le (c ∷ s) [] ≡ false
cons_not-le c s = ap is_le (compare.cons-nil c s)

pub le_trans : (s t u : String) → text_le s t ≡ true → text_le t u ≡ true → text_le s u ≡ true
le_trans [] t u h g = nil_le u
le_trans (c ∷ s) [] u h g = absurd (ground (arith, sym (cons_not-le c s) ∙ h))
le_trans (c ∷ s) (d ∷ t) [] h g = absurd (ground (arith, sym (cons_not-le d t) ∙ g))
le_trans (c ∷ s) (d ∷ t) (e ∷ u) h g =
    le-cons c e s u
    ∙ ground (arith, sym (le-cons c d s t) ∙ h, sym (le-cons d e t u) ∙ g, le_trans s t u)

pub le_antisym : (s t : String) → text_le s t ≡ true → text_le t s ≡ true → s ≡ t
le_antisym [] [] h g = refl
le_antisym [] (d ∷ t) h g = absurd (ground (arith, sym (cons_not-le d t) ∙ g))
le_antisym (c ∷ s) [] h g = absurd (ground (arith, sym (cons_not-le c s) ∙ h))
le_antisym (c ∷ s) (d ∷ t) h g =
    let a = sym (le-cons c d s t) ∙ h in
    let b = sym (le-cons d c t s) ∙ g in
    let heads : c ≡ d = Char-path c d (ground (arith, a, b)) in
    λ i. heads i ∷ le_antisym s t (ground (arith, a, b)) (ground (arith, a, b)) i
