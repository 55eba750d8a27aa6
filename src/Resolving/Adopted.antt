-- ===== src/Resolving/Adopted.antt =====
-- A slot that took the identity of an option (`_adopt_option`), field by field, and the option with
-- the dictionary's value of a store (`_option_with_internal_value`).
use conversational_copil.Prelude.{
  ℕ, suc, String, ◌≡◌, refl, inl, inr, Bool, true, false, ◌&&◌, Bool-cases, Option, none, some,
  List, [], ◌∷◌, arith, All, get_elem?, str_eq, is_text, or_else, if◌then◌else◌,
}
use conversational_copil.Entities.{resolved, is_store, SlotOption, ResolvedSlot}
use conversational_copil.Wording.{clean_text_value, normalize_lookup_text}
use conversational_copil.Resolving.Replies.{
  adopt_option, same_store, with_store, stored_as, option_with_internal_value,
}

-- `t` is `s` resolved to `o`: a class or a column that the option lacks is the slot's own.
pub record Adopted (s : ResolvedSlot) (o : SlotOption) (t : ResolvedSlot) : Type 0 where
  pub status : t.status ≡ resolved
  pub canonical : t.canonical_value ≡ some o.canonical_value
  pub display : t.display_value ≡ some o.display_value
  pub category : t.category_key ≡ o.category_key
  pub opco : t.opco_code ≡ o.opco_code
  pub entity : t.entity_class ≡ (if is_text o.entity_class then o.entity_class else s.entity_class)
  pub column :
      t.target_column ≡ (if is_text o.target_column then o.target_column else s.target_column)
  pub emptied : t.options ≡ []
  pub same_id : t.slot_id ≡ s.slot_id
  pub same_phrase : t.phrase ≡ s.phrase
  pub same_alternates : t.alternate_columns ≡ s.alternate_columns

pub adopt_option-Adopted : (s : ResolvedSlot) (o : SlotOption) → Adopted s o (adopt_option s o)
unfolding adopt_option
adopt_option-Adopted s o = record {
  status = refl;
  canonical = refl;
  display = refl;
  category = refl;
  opco = refl;
  entity = refl;
  column = refl;
  emptied = refl;
  same_id = refl;
  same_phrase = refl;
  same_alternates = refl;
}

-- The candidate is the store that the option shows.
abbrev pub is_shown : SlotOption → SlotOption → Bool
is_shown o c =
    (is_store o.entity_class && is_text (clean_text_value o.display_value))
    && (is_store c.entity_class
        && str_eq (normalize_lookup_text c.display_value)
            (normalize_lookup_text (clean_text_value o.display_value)))

-- An option as the dictionary holds it: as it is, if no candidate is the store that it shows; else
-- with the value, the column, the OpCo and the key of one that is.
pub data StoredAs (candidates : List SlotOption) (o : SlotOption) : SlotOption → Type 0 where
  itself : All (λ c. is_shown o c ≡ false) candidates → StoredAs candidates o o
  held :
      (i : ℕ) (c : SlotOption)
      → get_elem? candidates i ≡ some c
      → is_shown o c ≡ true
      → StoredAs candidates o (record o {
        canonical_value = c.canonical_value;
        target_column = c.target_column;
        opco_code = c.opco_code;
        opco_name = or_else c.opco_name o.opco_name;
        category_key = c.category_key;
      })

abbrev Same : SlotOption → List SlotOption → Option SlotOption → Type 0
Same o cs none = All (λ c. is_shown o c ≡ false) cs
Same o cs (some c) = (i : ℕ) × (get_elem? cs i ≡ some c) × (is_shown o c ≡ true)

same_store-Same :
    (o : SlotOption) (cs : List SlotOption)
    → (is_store o.entity_class && is_text (clean_text_value o.display_value)) ≡ true
    → Same o cs (same_store (clean_text_value o.display_value) cs)
unfolding same_store
same_store-Same o [] h = tt
same_store-Same o (c ∷ cs) h =
    elim (Bool-cases (
      is_store c.entity_class
      && str_eq (normalize_lookup_text c.display_value)
          (normalize_lookup_text (clean_text_value o.display_value)))) [
            | inl e ↦ rw e (0, refl, ground (arith, h, e))
            | inr e ↦ rw e (
                later (same_store (clean_text_value o.display_value) cs) (ground (arith, e))
                  (same_store-Same o cs h))
          ]
  where
    later : (r : Option SlotOption) → is_shown o c ≡ false → Same o cs r → Same o (c ∷ cs) r
    later none e g = (e, g)
    later (some x) e (i, at, said) = (suc i, at, said)

none_shown :
    (o : SlotOption) (cs : List SlotOption)
    → (is_store o.entity_class && is_text (clean_text_value o.display_value)) ≡ false
    → All (λ c. is_shown o c ≡ false) cs
none_shown o [] h = tt
none_shown o (c ∷ cs) h = (rw h refl, none_shown o cs h)

-- The option that is adopted is the one that was picked, as the dictionary holds it.
pub option-StoredAs :
    (lookup_exact : String → List SlotOption) (o : SlotOption)
    → StoredAs
        (lookup_exact (normalize_lookup_text (clean_text_value o.display_value)))
        o
        (option_with_internal_value lookup_exact o)
unfolding option_with_internal_value stored_as
option-StoredAs lookup_exact o =
    elim (Bool-cases (is_store o.entity_class && is_text (clean_text_value o.display_value))) [
      | inl e ↦ rw e (
          of_same _ (
            same_store-Same o
              (lookup_exact (normalize_lookup_text (clean_text_value o.display_value))) e))
      | inr e ↦ rw e (itself (none_shown o _ e))
    ]
  where
    of_same :
        {cs : List SlotOption} (r : Option SlotOption)
        → Same o cs r
        → StoredAs cs o (with_store o r)
    of_same none g = itself g
    of_same (some c) (i, at, said) = held i c at said
