-- ===== src/Resolving/Settled.antt =====
-- What `_finalize` ends with: a plan without open slots, or a question.
use conversational_copil.Prelude.{
  ℕ, suc, String, ◌≡◌, ◌⊎◌, inl, inr, refl, sym, ◌∙◌, ap, subst, Bool, true, false, not, Bool-cases,
  Option, none, some, List, [], ◌∷◌, map, arith, leb, any, keep_if, keep_if-cons_true,
  keep_if-cons_false, All,
}
use conversational_copil.Entities.{
  SlotStatus, pending, resolved, ambiguous, is_resolved, ResolvedSlot,
}
use conversational_copil.Graph.Agents.{Resolved}
use conversational_copil.Resolving.{is_ambiguous, slot_priority, Limits}
use conversational_copil.Resolving.Replies.{
  Placed, placed_from, insert_by_priority, sort_by_priority, ambiguous_in_ask_order,
}
use conversational_copil.Resolving.Pins.{pin_slot-closed}
use conversational_copil.Resolving.Outcomes.{
  pinned_opcos, pin_slot, apply_opco_pin, is_impossible, resolved_families, is_redundant,
  without_redundant, ask_impossible, finalize,
}

-- Some slot is ambiguous.
abbrev pub is_open : List ResolvedSlot → Bool
is_open slots = any (λ (s : ResolvedSlot). is_ambiguous s.status) slots

abbrev pub InPlan : ResolvedSlot → List ResolvedSlot → Type 0
InPlan s [] = ⊥
InPlan s (t ∷ ts) = (s ≡ t) ⊎ InPlan s ts

abbrev is_full {ℓ} : {A : Type ℓ} → List A → Bool
is_full [] = false
is_full (x ∷ xs) = true

full_insert : (p : Placed) (ps : List Placed) → is_full (insert_by_priority p ps) ≡ true
unfolding insert_by_priority
full_insert p [] = refl
full_insert p (q ∷ qs) =
    elim (Bool-cases (leb (slot_priority p.1.entity_class) (slot_priority q.1.entity_class))) [
      | inl e ↦ rw e refl
      | inr e ↦ rw e refl
    ]

full_sort : (ps : List Placed) → is_full (sort_by_priority ps) ≡ is_full ps
unfolding sort_by_priority
full_sort [] = refl
full_sort (p ∷ ps) = full_insert p (sort_by_priority ps)

full_placed :
    (i : ℕ) (slots : List ResolvedSlot)
    → is_full (keep_if (λ (p : Placed). is_ambiguous p.1.status) (placed_from i slots))
      ≡ is_open slots
unfolding placed_from any
full_placed i [] = unfold keep_if in refl
full_placed i (s ∷ ss) = elim (Bool-cases (is_ambiguous s.status)) [
  | inl e ↦
      rw
        (
          keep_if-cons_true (λ (p : Placed). is_ambiguous p.1.status) (i, s)
              (placed_from (suc i) ss) e,
          e,
        )
        refl
  | inr e ↦
      rw
        (
          keep_if-cons_false (λ (p : Placed). is_ambiguous p.1.status) (i, s)
              (placed_from (suc i) ss) e,
          e,
        )
        (full_placed (suc i) ss)
]

-- There is a slot to ask about exactly if a slot is ambiguous.
asked_open : (slots : List ResolvedSlot) → is_full (ambiguous_in_ask_order slots) ≡ is_open slots
unfolding ambiguous_in_ask_order
asked_open slots = full_sort _ ∙ full_placed 0 slots

not_impossible : (s : ResolvedSlot) → is_ambiguous s.status ≡ false → is_impossible s ≡ false
unfolding is_impossible
not_impossible s h = rw h refl

impossible_open :
    (slots : List ResolvedSlot)
    → is_full (keep_if is_impossible slots) ≡ true
    → is_open slots ≡ true
unfolding any keep_if
impossible_open [] h = absurd (ground arith)
impossible_open (s ∷ ss) h = elim (Bool-cases (is_ambiguous s.status)) [
  | inl e ↦ rw e refl
  | inr e ↦ rw e (
      impossible_open ss (
        subst (λ xs. is_full xs ≡ true) (keep_if-cons_false is_impossible s ss (not_impossible s e))
          h))
]

-- What a turn's resolution says of a plan's slots.
pub record Settles (slots : List ResolvedSlot) (r : Resolved) : Type 0 where
  pub asks :
      r.needs_clarification ≡ true
      → (r.plan.status ≡ pending)
        × (is_open r.plan.slots ≡ true)
        × (q : String) × (r.clarification_question ≡ some q)
  pub answers :
      r.needs_clarification ≡ false
      → (r.plan.status ≡ resolved)
        × (is_open r.plan.slots ≡ false)
        × (r.clarification_question ≡ none)
  pub keeps : All (λ s. is_resolved s.status ≡ true → InPlan s r.plan.slots) slots

-- the slots of the plan that is given back
abbrev pub left_slots : List ResolvedSlot → List ResolvedSlot
left_slots slots = without_redundant (apply_opco_pin slots)

resolved_closed : (t : SlotStatus) → is_resolved t ≡ true → is_ambiguous t ≡ false
resolved_closed pending h = refl
resolved_closed resolved h = refl
resolved_closed ambiguous h = absurd (ground arith)

pin_kept :
    (pinned named : List String) (s : ResolvedSlot)
    → is_resolved s.status ≡ true
    → pin_slot pinned named s ≡ s
pin_kept pinned named s h = pin_slot-closed pinned named s (resolved_closed s.status h)

pin_keeps :
    (pinned named : List String) (slots : List ResolvedSlot) (s : ResolvedSlot)
    → is_resolved s.status ≡ true
    → InPlan s slots
    → InPlan s (map (pin_slot pinned named) slots)
pin_keeps pinned named [] s h i = i
pin_keeps pinned named (t ∷ ts) s h (inl e) =
    inl (sym (pin_kept pinned named s h) ∙ ap (pin_slot pinned named) e)
pin_keeps pinned named (t ∷ ts) s h (inr i) = inr (pin_keeps pinned named ts s h i)

filter_keeps :
    (p : ResolvedSlot → Bool) (slots : List ResolvedSlot) (s : ResolvedSlot)
    → p s ≡ true
    → InPlan s slots
    → InPlan s (keep_if p slots)
filter_keeps p [] s h i = absurd i
filter_keeps p (t ∷ ts) s h (inl e) =
    rw (keep_if-cons_true p t ts (subst (λ x. p x ≡ true) e h)) (inl e)
filter_keeps p (t ∷ ts) s h (inr i) = elim (Bool-cases (p t)) [
  | inl e ↦ rw (keep_if-cons_true p t ts e) (inr (filter_keeps p ts s h i))
  | inr e ↦ rw (keep_if-cons_false p t ts e) (filter_keeps p ts s h i)
]

kept_unredundant :
    (families : List String) (s : ResolvedSlot)
    → is_resolved s.status ≡ true
    → not (is_redundant families s) ≡ true
unfolding is_redundant
kept_unredundant families s h = rw (not_impossible s (resolved_closed s.status h)) refl

left_keeps :
    (slots : List ResolvedSlot) (s : ResolvedSlot)
    → is_resolved s.status ≡ true
    → InPlan s slots
    → InPlan s (left_slots slots)
unfolding without_redundant apply_opco_pin
left_keeps slots s h i =
    filter_keeps _ (apply_opco_pin slots) s
      (kept_unredundant (resolved_families (apply_opco_pin slots)) s h)
      (pin_keeps (pinned_opcos false slots) (pinned_opcos true slots) slots s h i)

-- Each entry of a list that passes is in it.
all_in :
    (slots all : List ResolvedSlot)
    → ((s : ResolvedSlot) → InPlan s slots → InPlan s all)
    → (P : ResolvedSlot → Type 0) → ((s : ResolvedSlot) → InPlan s all → P s)
    → All P slots
all_in [] all f P g = tt
all_in (s ∷ ss) all f P g = (g s (f s (inl refl)), all_in ss all (λ t i. f t (inr i)) P g)

Settles-from :
    (l : Limits) (invalid : Option String) (slots : List ResolvedSlot)
    (left stuck : List ResolvedSlot)
    → (is_full stuck ≡ true → is_open left ≡ true)
    → (order : List Placed) → is_full order ≡ is_open left
    → ambiguous_in_ask_order left ≡ order
    → All (λ s. is_resolved s.status ≡ true → InPlan s left) slots
    → Settles slots (ask_impossible l invalid left stuck)
Settles-from l invalid slots left (s ∷ ss) h order o e k = record {
  asks = λ n. (refl, h refl, _, refl);
  answers = λ n. absurd (ground arith);
  keeps = k;
}
Settles-from l invalid slots left [] h [] o e k =
    rw e
      (record { asks = λ n. absurd (ground arith); answers = λ n. (refl, sym o, refl); keeps = k })
Settles-from l invalid slots left [] h ((i, s) ∷ ps) o e k =
    rw e (record {
      asks = λ n. (refl, sym o, _, refl);
      answers = λ n. absurd (ground arith);
      keeps = k;
    })

-- `_finalize` on any plan: with a question the plan is pending and has an ambiguous slot; without one
-- it is resolved and has none. Each slot that was resolved before is in the plan as it was.
pub finalize-Settles :
    (l : Limits) (slots : List ResolvedSlot) (invalid : Option String)
    → Settles slots (finalize l slots invalid)
unfolding finalize
finalize-Settles l slots invalid =
    Settles-from l invalid slots (left_slots slots) (keep_if is_impossible (left_slots slots))
      (impossible_open (left_slots slots)) (ambiguous_in_ask_order (left_slots slots))
      (asked_open (left_slots slots)) refl
      (all_in slots slots (λ s i. i) _ (λ s i h. left_keeps slots s h i))
