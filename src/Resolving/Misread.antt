-- ===== src/Resolving/Misread.antt =====
-- The replies that make the selection raise.
use conversational_copil.Prelude.{
  ℕ, String, ◌≡◌, ◌⊎◌, inl, inr, refl, ap, subst, true, Bool-cases, Option, none, some, List, [],
  ◌∷◌, arith, if◌then◌else◌, is_text,
}
use conversational_copil.Entities.{SlotOption, ResolvedSlot}
use conversational_copil.Graph.Agents.{Attempt, returned, raised}
use conversational_copil.Wording.{normalize_lookup_text, is_option_number, int_of, after_prefix}
use conversational_copil.Resolving.Replies.{
  Placed, ambiguous_in_ask_order, first_named, option_number, without_option, numbered,
  numbered_option, chosen, or_next, select_from, put_chosen, apply_selection,
}

-- the text that is read as a number
abbrev pub number_part : String → String
number_part target = without_option (after_prefix "option " target) target

numbered_raised : (o : Option ℕ) (text e : String) → numbered o text ≡ raised e → o ≡ none
numbered_raised none text e h = refl
numbered_raised (some n) text e h = absurd (ground arith)

option_number_raised :
    (target e : String) → option_number target ≡ raised e → int_of (number_part target) ≡ none
unfolding option_number
option_number_raised target e h =
    numbered_raised (int_of (number_part target)) (number_part target) e h

raised_text :
    (f e : String) → ◌≡◌ {A = Attempt (Option (List ResolvedSlot))} (raised f) (raised e) → f ≡ e
raised_text f e h = cc

module _ (lookup_exact : String → List SlotOption) (selection : String) where
  -- A reply that passes for an option's number and is not one.
  abbrev pub Misread : Type 0
  Misread =
      (is_option_number selection ≡ true)
      × (int_of (number_part (normalize_lookup_text selection)) ≡ none)

  numbered_option_raised :
      (p : Placed) (a : Attempt ℕ) (e : String)
      → numbered_option lookup_exact p a ≡ raised e
      → (f : String) × (a ≡ raised f)
  numbered_option_raised p (returned n) e h = absurd (ground arith)
  numbered_option_raised p (raised f) e h = (f, refl)

  chosen_raised :
      (p : Placed) (o : Option SlotOption) (e : String)
      → chosen lookup_exact p selection (normalize_lookup_text selection) o ≡ raised e
      → Misread
  chosen_raised p (some o) e h = absurd (ground arith)
  chosen_raised p none e h = elim (Bool-cases (is_option_number selection)) [
    | inl t ↦
        let at = numbered_option_raised p _ e (
          subst
            (λ b.
              (if b
                then numbered_option lookup_exact p
                    (option_number (normalize_lookup_text selection))
                else returned none)
              ≡ raised e)
            t h) in
        (t, option_number_raised (normalize_lookup_text selection) at.0 at.1)
    | inr t ↦ absurd (ground (arith, t, h))
  ]

  next_raised :
      (a b : Attempt (Option (ℕ × ResolvedSlot))) (e : String)
      → or_next a b ≡ raised e
      → (a ≡ raised e) ⊎ (b ≡ raised e)
  next_raised (raised f) b e h = inl h
  next_raised (returned none) b e h = inr h
  next_raised (returned (some x)) b e h = absurd (ground arith)

  select_raised :
      (ps : List Placed) (e : String)
      → select_from lookup_exact selection (normalize_lookup_text selection) ps ≡ raised e
      → Misread
  unfolding select_from
  select_raised [] e h = absurd (ground arith)
  select_raised (p ∷ ps) e h =
      elim (next_raised
        (chosen lookup_exact p selection (normalize_lookup_text selection)
          (first_named (normalize_lookup_text selection) p.1.options))
        (select_from lookup_exact selection (normalize_lookup_text selection) ps) e h) [
          | inl t ↦ chosen_raised p _ e t
          | inr t ↦ select_raised ps e t
        ]

  put_raised :
      (slots : List ResolvedSlot) (a : Attempt (Option (ℕ × ResolvedSlot))) (e : String)
      → put_chosen slots a ≡ raised e
      → a ≡ raised e
  put_raised slots (raised f) e h = ap (λ t. raised t) (raised_text f e h)
  put_raised slots (returned none) e h = absurd (ground arith)
  put_raised slots (returned (some (i, s))) e h = absurd (ground arith)

  -- A reply makes the selection raise only if it passes as the number of an option and what is left
  -- of it without "option " is not a number, as in a reply "option2".
  pub selection_raises :
      (slots : List ResolvedSlot) (e : String)
      → apply_selection lookup_exact slots selection ≡ raised e
      → (is_option_number selection ≡ true)
        × (int_of (number_part (normalize_lookup_text selection)) ≡ none)
  unfolding apply_selection
  selection_raises slots e h = elim (Bool-cases (is_text (normalize_lookup_text selection))) [
    | inl t ↦ select_raised _ e (
        put_raised slots _ e (
          subst
            (λ b.
              (if b
                then put_chosen slots (
                    select_from lookup_exact selection (normalize_lookup_text selection)
                      (ambiguous_in_ask_order slots))
                else returned none)
              ≡ raised e)
            t h))
    | inr t ↦ absurd (ground (arith, t, h))
  ]
