-- ===== src/Resolving/Budget.antt =====
-- The budget of a question: how many columns the slots of a plan filter.
use mathlib.Core.List.{append-nil, append_assoc}
use conversational_copil.Prelude.{
  ap, ◌+◌, ◌≤◌, String, ◌≡◌, refl, sym, ◌∙◌, inl, inr, Bool, true, false, not, ◌&&◌, ◌||◌,
  Bool-cases, Option, none, some, List, [], ◌∷◌, ◌++◌, if◌then◌else◌, arith, leb, length, elem_of,
  str_eq, eq_iff, is_text, subst,
}
use conversational_copil.Entities.{ResolvedSlot, SlotOption}
use conversational_copil.Resolving.{
  counts_against_budget, budgeted_columns, add_text, append_lookup_slot, Limits, lookup_slot_limit,
  Merge, FoundSpan, placed, slot_of, merge_best, merge_span, merge_spans, is_known,
}

-- A slot whose column the budget counts.
abbrev pub is_counted : ResolvedSlot → Bool
is_counted s = counts_against_budget s.entity_class && is_text s.target_column

module _ (s : ResolvedSlot) where
  counted_here :
      (ss : List ResolvedSlot)
      → is_counted s ≡ true
      → budgeted_columns (s ∷ ss) ≡ add_text s.target_column (budgeted_columns ss)
  unfolding budgeted_columns
  counted_here ss h = rw h refl

  uncounted_here :
      (ss : List ResolvedSlot)
      → is_counted s ≡ false
      → budgeted_columns (s ∷ ss) ≡ budgeted_columns ss
  unfolding budgeted_columns
  uncounted_here ss h = rw h refl

known_text :
    (y x : String) (xs : List String)
    → elem_of x xs ≡ true
    → elem_of y xs ≡ (str_eq y x || elem_of y xs)
known_text y x xs h = elim (Bool-cases (str_eq y x)) [
  | inl e ↦ rw e (subst (λ z. elem_of z xs ≡ true) (sym ((eq_iff y x).0 e)) h)
  | inr e ↦ rw e refl
]

elem_of-add_text :
    (y x : String) (xs : List String) → elem_of y (add_text x xs) ≡ (str_eq y x || elem_of y xs)
unfolding add_text elem_of
elem_of-add_text y x xs = elim (Bool-cases (elem_of x xs)) [
  | inl e ↦ rw e (known_text y x xs e)
  | inr e ↦ rw e refl
]

length-add_text :
    (x : String) (xs : List String)
    → length (add_text x xs) ≡ (if elem_of x xs then length xs else length xs + 1)
unfolding add_text
length-add_text x xs = ground arith

grown_twice :
    (x c : String) (B : List String)
    → (if str_eq x c || elem_of x B
        then (if elem_of c B then length B else length B + 1)
        else (if elem_of c B then length B else length B + 1) + 1)
      ≡ (if str_eq c x || elem_of c B
          then (if elem_of x B then length B else length B + 1)
          else (if elem_of x B then length B else length B + 1) + 1)
grown_twice x c B = elim (Bool-cases (str_eq x c)) [
  | inl e ↦
      let same : elem_of x B ≡ elem_of c B = λ i. elem_of ((eq_iff x c).0 e i) B in
      ground (arith, eq_iff x c, eq_iff c x, same, e)
  | inr e ↦ ground (arith, eq_iff x c, eq_iff c x, e)
]

-- A slot at the end of a plan adds its column, if that is counted and new.
columns-append :
    (xs : List ResolvedSlot) (s : ResolvedSlot)
    → is_counted s ≡ true
    → (length (budgeted_columns (xs ++ (s ∷ []))) ≡ (
        if elem_of s.target_column (budgeted_columns xs)
        then length (budgeted_columns xs)
        else length (budgeted_columns xs) + 1))
      × ((y : String)
          → elem_of y (budgeted_columns (xs ++ (s ∷ [])))
            ≡ (str_eq y s.target_column || elem_of y (budgeted_columns xs)))
columns-append [] s h = rw (counted_here s [] h) (
  (unfold budgeted_columns add_text elem_of in refl),
  λ y. unfold budgeted_columns add_text elem_of in refl,
)
columns-append (x ∷ xs) s h =
    let (ih, ih_of) = columns-append xs s h in
    elim (Bool-cases (is_counted x)) [
      | inl e ↦
          rw (counted_here x xs e, counted_here x (xs ++ (s ∷ [])) e)
            (
              (rw
                  (
                    length-add_text x.target_column (budgeted_columns (xs ++ (s ∷ []))),
                    length-add_text x.target_column (budgeted_columns xs),
                    elem_of-add_text s.target_column x.target_column (budgeted_columns xs),
                    ih_of x.target_column,
                    ih,
                  )
                  (grown_twice x.target_column s.target_column (budgeted_columns xs))),
              λ y.
                  rw
                    (
                      elem_of-add_text y x.target_column (budgeted_columns (xs ++ (s ∷ []))),
                      elem_of-add_text y x.target_column (budgeted_columns xs),
                      ih_of y,
                    )
                    (ground arith),
            )
      | inr e ↦ rw (uncounted_here x xs e, uncounted_here x (xs ++ (s ∷ [])) e) (ih, ih_of)
    ]

uncounted-append :
    (xs : List ResolvedSlot) (s : ResolvedSlot)
    → is_counted s ≡ false
    → budgeted_columns (xs ++ (s ∷ [])) ≡ budgeted_columns xs
uncounted-append [] s h = uncounted_here s [] h
uncounted-append (x ∷ xs) s h = elim (Bool-cases (is_counted x)) [
  | inl e ↦
      rw (counted_here x xs e, counted_here x (xs ++ (s ∷ [])) e, uncounted-append xs s h) refl
  | inr e ↦
      rw (uncounted_here x xs e, uncounted_here x (xs ++ (s ∷ [])) e) (uncounted-append xs s h)
]

-- The columns of a plan are within the limit.
abbrev pub WithinBudget : Limits → List ResolvedSlot → Type 0
WithinBudget l slots = length (budgeted_columns slots) ≤ lookup_slot_limit l

-- the test of `_append_lookup_slot`
abbrev exceeds : Limits → List ResolvedSlot → ResolvedSlot → Bool
exceeds l slots s =
    counts_against_budget s.entity_class
    && (not (elem_of s.target_column (budgeted_columns slots))
        && leb (lookup_slot_limit l) (length (budgeted_columns slots)))

appended-WithinBudget :
    (l : Limits) (slots : List ResolvedSlot) (s : ResolvedSlot)
    → WithinBudget l slots
    → exceeds l slots s ≡ false
    → WithinBudget l (slots ++ (s ∷ []))
appended-WithinBudget l slots s h e = elim (Bool-cases (is_counted s)) [
  | inl c ↦ ground (arith, (columns-append slots s c).0, h, e, c)
  | inr c ↦ rw (uncounted-append slots s c) h
]

some-inj : {xs ys : List ResolvedSlot} → some xs ≡ some ys → xs ≡ ys
some-inj h = cc

-- What one more slot makes of a plan within the budget.
pub record Extended (l : Limits) (slots after : List ResolvedSlot) : Type 0 where
  pub within : WithinBudget l after
  pub added : List ResolvedSlot
  pub kept : after ≡ slots ++ added

append-Extended :
    (l : Limits) (slots : List ResolvedSlot) (s : ResolvedSlot) (after : List ResolvedSlot)
    → WithinBudget l slots
    → append_lookup_slot l slots s ≡ some after
    → Extended l slots after
unfolding append_lookup_slot
append-Extended l slots s after h e = elim (Bool-cases (exceeds l slots s)) [
  | inl g ↦ absurd (ground (arith, g, e))
  | inr g ↦
      let same : some (slots ++ (s ∷ [])) ≡ some after =
        subst (λ b. (if b then none else some (slots ++ (s ∷ []))) ≡ some after) g e in
      record {
        within = subst (WithinBudget l) (some-inj same) (appended-WithinBudget l slots s h g);
        added = s ∷ [];
        kept = sym (some-inj same);
      }
]

module _ (l : Limits) where
  Extended-refl : (slots : List ResolvedSlot) → WithinBudget l slots → Extended l slots slots
  Extended-refl slots h = record { within = h; added = []; kept = sym (append-nil slots) }

  Extended-trans : (a b c : List ResolvedSlot) → Extended l a b → Extended l b c → Extended l a c
  Extended-trans a b c f g = record {
    within = g.within;
    added = f.added ++ g.added;
    kept = g.kept ∙ ap (λ xs. xs ++ g.added) f.kept ∙ append_assoc a f.added g.added;
  }

  placed-Extended :
      (m : Merge) (s : FoundSpan) (c : SlotOption) (x : ResolvedSlot)
      (o : Option (List ResolvedSlot))
      → WithinBudget l m.slots
      → append_lookup_slot l m.slots x ≡ o
      → Extended l m.slots (placed m s c o).slots
  placed-Extended m s c x none h e = Extended-refl m.slots h
  placed-Extended m s c x (some after) h e = append-Extended l m.slots x after h e

  best-Extended :
      (m : Merge) (s : FoundSpan) (cs : List SlotOption)
      → WithinBudget l m.slots
      → Extended l m.slots (merge_best l m s cs).slots
  best-Extended m s [] h = Extended-refl m.slots h
  best-Extended m s (c ∷ cs) h =
      elim (Bool-cases (is_known c.entity_class c.canonical_value m.existing)) [
        | inl e ↦ rw e (Extended-refl m.slots h)
        | inr e ↦ rw e (placed-Extended m s c (slot_of l s c) _ h refl)
      ]

  -- From a plan whose columns are within the limit of a question, the loop over the spans makes one
  -- that is within it too: each column is counted once, and OpCos and values are not counted. The
  -- plan's own slots stay, in their order, before those that are added.
  pub merge_spans-Extended :
      (m : Merge) (spans : List FoundSpan)
      → WithinBudget l m.slots
      → Extended l m.slots (merge_spans l m spans).slots
  unfolding merge_spans merge_span
  merge_spans-Extended m [] h = Extended-refl m.slots h
  merge_spans-Extended m (s ∷ ss) h =
      let here = best-Extended m s s.candidates h in
      Extended-trans m.slots (merge_span l m s).slots (merge_spans l (merge_span l m s) ss).slots
        here (merge_spans-Extended (merge_span l m s) ss here.within)
