-- ===== src/Prelude/Predicates.antt =====
-- Predicates on lists by recursion, which the tactics read and build.
use mathlib.Core.Path.{◌≡◌}
use mathlib.Core.Bool.{Bool, true, false}
use mathlib.Core.Logic.{inl, inr}
use mathlib.Core.List.{List, [], ◌∷◌, ◌++◌}
use native.Mathlib.Omega.{arith}
use conversational_copil.Prelude.Lists.{keep_if, any, keep_if-cons_true, keep_if-cons_false}
use conversational_copil.Prelude.Tests.{Bool-cases}

abbrev pub All {ℓ κ} : {A : Type ℓ} → (A → Type κ) → List A → Type κ
All P [] = Unit
All P (x ∷ xs) = P x × All P xs

-- Any two entries, the earlier one first, are related.
abbrev pub AllPairs {ℓ κ} : {A : Type ℓ} → (A → A → Type κ) → List A → Type κ
AllPairs R [] = Unit
AllPairs R (x ∷ xs) = All (R x) xs × AllPairs R xs

module _ {ℓ κ} {A : Type ℓ} (P : A → Type κ) where
  pub All-append : (xs ys : List A) → All P xs → All P ys → All P (xs ++ ys)
  All-append [] ys hx hy = hy
  All-append (x ∷ xs) ys hx hy = (hx.0, All-append xs ys hx.1 hy)

  pub All-keep_if : (p : A → Bool) (xs : List A) → All P xs → All P (keep_if p xs)
  All-keep_if p [] h = unfold keep_if in h
  All-keep_if p (x ∷ xs) h = elim (Bool-cases (p x)) [
    | inl e ↦ rw (keep_if-cons_true p x xs e) (h.0, All-keep_if p xs h.1)
    | inr e ↦ rw (keep_if-cons_false p x xs e) (All-keep_if p xs h.1)
  ]

pub All-map {ℓ κ μ} :
    {A : Type ℓ} (P : A → Type κ) (Q : A → Type μ)
    → ((x : A) → P x → Q x)
    → (xs : List A) → All P xs
    → All Q xs
All-map P Q f [] h = tt
All-map P Q f (x ∷ xs) h = (f x h.0, All-map P Q f xs h.1)

pub All-of {ℓ κ} : {A : Type ℓ} (P : A → Type κ) → ((x : A) → P x) → (xs : List A) → All P xs
All-of P f [] = tt
All-of P f (x ∷ xs) = (f x, All-of P f xs)

-- What a filter keeps has passed its test.
pub keep_if_passes {ℓ} :
    {A : Type ℓ} (p : A → Bool) (xs : List A) → All (λ x. p x ≡ true) (keep_if p xs)
keep_if_passes p [] = unfold keep_if in tt
keep_if_passes p (x ∷ xs) = elim (Bool-cases (p x)) [
  | inl e ↦ rw (keep_if-cons_true p x xs e) (e, keep_if_passes p xs)
  | inr e ↦ rw (keep_if-cons_false p x xs e) (keep_if_passes p xs)
]

pub AllPairs-keep_if {ℓ κ} :
    {A : Type ℓ} (R : A → A → Type κ) (p : A → Bool) (xs : List A)
    → AllPairs R xs
    → AllPairs R (keep_if p xs)
AllPairs-keep_if R p [] h = unfold keep_if in tt
AllPairs-keep_if R p (x ∷ xs) h = elim (Bool-cases (p x)) [
  | inl e ↦
      rw (keep_if-cons_true p x xs e) (All-keep_if (R x) p xs h.0, AllPairs-keep_if R p xs h.1)
  | inr e ↦ rw (keep_if-cons_false p x xs e) (AllPairs-keep_if R p xs h.1)
]

-- `any` fails exactly when every entry fails.
pub any_none {ℓ} :
    {A : Type ℓ} (p : A → Bool) (xs : List A) → any p xs ≡ false → All (λ x. p x ≡ false) xs
unfolding any
any_none p [] h = tt
any_none p (x ∷ xs) h = elim (Bool-cases (p x)) [
  | inl e ↦ absurd (ground arith)
  | inr e ↦ (e, any_none p xs (ground arith))
]
