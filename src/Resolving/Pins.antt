-- ===== src/Resolving/Pins.antt =====
-- What the OpCos that resolved slots fix leave of the other slots.
use conversational_copil.Prelude.{
  suc, All-of, keep_if-cons_true, keep_if-cons_false, length-keep_if-le, ==_iff, String, ◌≡◌, refl,
  sym, ◌∙◌, ap, inl, inr, Bool, true, false, Bool-cases, List, [], ◌∷◌, if◌then◌else◌, arith, ◌==◌,
  length, str_eq, subst, map, keep_if, All, ◌≤◌, ℕ, ◌&&◌, ◌||◌, not, ltb, truthy, or_text,
}
use conversational_copil.Entities.{ResolvedSlot, SlotOption, is_store}
use conversational_copil.Resolving.{is_ambiguous}
use conversational_copil.Resolving.Replies.{adopt_option}
use conversational_copil.Resolving.Adopted.{Adopted, adopt_option-Adopted}
use conversational_copil.Resolving.Outcomes.{
  pinned_opcos, is_within, with_kept, pinned_to, pin_slot, apply_opco_pin,
}
use conversational_copil.Resolving.Scopes.{
  has_scope, is_fixed, is_some_code, elem_of-pinned, scope_pinned,
}

-- What a slot may still be: for a store the OpCos that the user named count, and else all that are
-- fixed. Without any, every option suits; an option of no OpCo always does.
abbrev pub suits : List ResolvedSlot → ResolvedSlot → SlotOption → Bool
suits slots s o =
    not (has_scope (is_store s.entity_class) slots)
    || (not (truthy o.opco_code)
        || is_fixed (is_store s.entity_class) (or_text o.opco_code "") slots)

abbrev pub suited : List ResolvedSlot → ResolvedSlot → List SlotOption
suited slots s = keep_if (suits slots s) s.options

-- one option that matched exactly
abbrev pub is_sole : List SlotOption → Bool
is_sole (o ∷ []) = str_eq o.match_kind "exact"
is_sole _ = false

-- What the pin makes of an ambiguous slot. If options were dropped and the only one left matched
-- exactly, the slot is resolved to it. Else it has the options that suit, in their order.
pub data Pinned (left : List SlotOption) (s t : ResolvedSlot) : Type 0 where
  kept :
      t ≡ record s { options = left }
      → (ltb (length left) (length s.options) && is_sole left) ≡ false
      → Pinned left s t
  taken :
      (o : SlotOption)
      → left ≡ o ∷ []
      → (ltb (length left) (length s.options) && is_sole left) ≡ true
      → Adopted s o t
      → Pinned left s t

-- A filter that drops nothing keeps what passes.
none_dropped :
    (p : SlotOption → Bool) (os : List SlotOption)
    → length (keep_if p os) ≡ length os
    → All (λ o. p o ≡ true) os
none_dropped p [] h = tt
none_dropped p (x ∷ xs) h = elim (Bool-cases (p x)) [
  | inl e ↦ (
    e,
    none_dropped p xs
        (omega (arith, subst (λ ys. length ys ≡ suc (length xs)) (keep_if-cons_true p x xs e) h)),
  )
  | inr e ↦ absurd (
      omega (
        arith,
        length-keep_if-le p xs,
        subst (λ ys. length ys ≡ suc (length xs)) (keep_if-cons_false p x xs e) h,
      ))
]

keep_if_all :
    (p : SlotOption → Bool) (os : List SlotOption) → All (λ o. p o ≡ true) os → keep_if p os ≡ os
keep_if_all p [] h = unfold keep_if in refl
keep_if_all p (o ∷ os) h = keep_if-cons_true p o os h.0 ∙ ap (λ xs. o ∷ xs) (keep_if_all p os h.1)

with_kept-Pinned :
    (s : ResolvedSlot) (os : List SlotOption)
    → ltb (length os) (length s.options) ≡ true
    → Pinned os s (with_kept s os)
with_kept-Pinned s [] h = kept refl (ground arith)
with_kept-Pinned s (o ∷ []) h = elim (Bool-cases (str_eq o.match_kind "exact")) [
  | inl e ↦ rw e (taken o refl (ground (arith, h, e)) (adopted_from o))
  | inr e ↦ rw e (kept refl (ground (arith, e)))
]
  where
    adopted_from : (o : SlotOption) → Adopted s o (adopt_option (record s { options = o ∷ [] }) o)
    adopted_from o =
        let a = adopt_option-Adopted (record s { options = o ∷ [] }) o in
        record {
          status = a.status;
          canonical = a.canonical;
          display = a.display;
          category = a.category;
          opco = a.opco;
          entity = a.entity;
          column = a.column;
          emptied = a.emptied;
          same_id = a.same_id;
          same_phrase = a.same_phrase;
          same_alternates = a.same_alternates;
        }
with_kept-Pinned s (o ∷ p ∷ os) h = kept refl (ground arith)

not_less : (n : ℕ) (b : Bool) → (ltb n n && b) ≡ false
not_less n b = ground arith

-- A slot whose options all suit stays.
whole-Pinned : (s : ResolvedSlot) (os : List SlotOption) → os ≡ s.options → Pinned os s s
whole-Pinned s os h =
    subst (λ xs. Pinned xs s s) (sym h)
      (kept refl (not_less (length s.options) (is_sole s.options)))

scoped-Pinned :
    (c : String) (cs : List String) (s : ResolvedSlot)
    → Pinned (keep_if (is_within (c ∷ cs)) s.options) s (pinned_to (c ∷ cs) s)
scoped-Pinned c cs s =
    elim (Bool-cases (length (keep_if (is_within (c ∷ cs)) s.options) == length s.options)) [
      | inl e ↦ rw e (
          whole-Pinned s _ (
            keep_if_all (is_within (c ∷ cs)) s.options
              (none_dropped (is_within (c ∷ cs)) s.options ((==_iff _ (length s.options)).0 e))))
      | inr e ↦
          rw e (with_kept-Pinned s _ (fewer (length-keep_if-le (is_within (c ∷ cs)) s.options) e))
    ]
  where
    fewer : {m n : ℕ} → m ≤ n → (m == n) ≡ false → ltb m n ≡ true
    fewer h e = ground (arith, h, e)

suited_alike :
    (slots : List ResolvedSlot) (s : ResolvedSlot) (p : SlotOption → Bool)
    → ((o : SlotOption) → p o ≡ suits slots s o)
    → keep_if p s.options ≡ suited slots s
suited_alike slots s p h = ap (λ f. keep_if f s.options) (λ i o. h o i)

pinned_to-Pinned :
    (slots : List ResolvedSlot) (s : ResolvedSlot) (scope : List String)
    → pinned_opcos (is_store s.entity_class) slots ≡ scope
    → Pinned (suited slots s) s (pinned_to scope s)
unfolding is_within
pinned_to-Pinned slots s [] e =
    whole-Pinned s _ (keep_if_all (suits slots s) s.options (All-of _ (λ o. all_suit o) s.options))
  where
    all_suit : (o : SlotOption) → suits slots s o ≡ true
    all_suit o = ground (arith, scope_pinned (is_store s.entity_class) slots ∙ ap is_some_code e)
pinned_to-Pinned slots s (c ∷ cs) e =
    subst (λ os. Pinned os s (pinned_to (c ∷ cs) s))
      (suited_alike slots s (is_within (c ∷ cs)) (λ o. alike o)) (scoped-Pinned c cs s)
  where
    alike : (o : SlotOption) → is_within (c ∷ cs) o ≡ suits slots s o
    alike o =
        rw
          (
            scope_pinned (is_store s.entity_class) slots ∙ ap is_some_code e,
            sym (elem_of-pinned (is_store s.entity_class) (or_text o.opco_code "") slots),
            e,
          )
          refl

-- What `_apply_opco_pin` makes of a slot: one that is not ambiguous stays as it is.
abbrev pub PinnedSlot : List ResolvedSlot → ResolvedSlot → ResolvedSlot → Type 0
PinnedSlot slots s t = if is_ambiguous s.status then Pinned (suited slots s) s t else (t ≡ s)

-- A slot that is not ambiguous stays as it is.
pub pin_slot-closed :
    (pinned named : List String) (s : ResolvedSlot)
    → is_ambiguous s.status ≡ false
    → pin_slot pinned named s ≡ s
unfolding pin_slot
pin_slot-closed pinned named s h = rw h refl

pin_slot-PinnedSlot :
    (slots : List ResolvedSlot) (s : ResolvedSlot)
    → PinnedSlot slots s (pin_slot (pinned_opcos false slots) (pinned_opcos true slots) s)
unfolding pin_slot
pin_slot-PinnedSlot slots s = elim (Bool-cases (is_ambiguous s.status)) [
  | inl e ↦ rw e (
      subst (λ scope. Pinned (suited slots s) s (pinned_to scope s))
        (sym (named_or (is_store s.entity_class))) (pinned_to-Pinned slots s _ refl))
  | inr e ↦ rw e refl
]
  where
    named_or :
        (b : Bool)
        → (if b then pinned_opcos true slots else pinned_opcos false slots) ≡ pinned_opcos b slots
    named_or true = refl
    named_or false = refl

-- Slot by slot.
abbrev pub AllTwo :
    (ResolvedSlot → ResolvedSlot → Type 0) → List ResolvedSlot → List ResolvedSlot → Type 0
AllTwo R [] [] = Unit
AllTwo R [] (t ∷ ts) = ⊥
AllTwo R (s ∷ ss) [] = ⊥
AllTwo R (s ∷ ss) (t ∷ ts) = R s t × AllTwo R ss ts

pinned_all :
    (slots rest : List ResolvedSlot)
    → AllTwo
        (PinnedSlot slots)
        rest
        (map (pin_slot (pinned_opcos false slots) (pinned_opcos true slots)) rest)
pinned_all slots [] = tt
pinned_all slots (s ∷ ss) = (pin_slot-PinnedSlot slots s, pinned_all slots ss)

-- The OpCos that the plan's resolved slots fix leave every slot that is not ambiguous as it is. An
-- ambiguous one keeps exactly the options that suit: those of no OpCo or of a fixed one; for a store
-- only the OpCos that the user named count, and where none counts every option suits. If options were
-- dropped and the only one left matched exactly, the slot is resolved to it.
pub apply_opco_pin-Pinned :
    (slots : List ResolvedSlot) → AllTwo (PinnedSlot slots) slots (apply_opco_pin slots)
unfolding apply_opco_pin
apply_opco_pin-Pinned slots = pinned_all slots slots
