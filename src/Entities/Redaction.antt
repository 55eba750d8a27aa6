-- ===== src/Entities/Redaction.antt =====
-- Internal store keys do not reach a client (`public_lookup_slots`, `public_lookup_plan` and
-- `public_lookup_context` of app/service/entity_resolution/models.py).
use conversational_copil.Prelude.{
  String, ◌≡◌, refl, ap, ap₂, Option, some, List, [], ◌∷◌, map, arith, if◌then◌else◌, Bool-cases,
  inl, inr,
}
use conversational_copil.Entities.{
  ResolvedSlot, SlotOption, ResolutionPlan, is_store, public_option, public_slot_value,
  public_lookup_plan, public_line, public_lines, public_lookup_context,
}

-- Another key for a store, in a slot and in its options; every other entity stays.
abbrev pub rekey_option : (String → String) → SlotOption → SlotOption
rekey_option f o =
    if is_store o.entity_class then record o { canonical_value = f o.canonical_value } else o

abbrev pub rekey : (String → Option String) → (String → String) → ResolvedSlot → ResolvedSlot
rekey g f s = record s {
  canonical_value = if is_store s.entity_class then g s.slot_id else s.canonical_value;
  options = map (rekey_option f) s.options;
}

public_option-rekey :
    (f : String → String) (o : SlotOption) → public_option (rekey_option f o) ≡ public_option o
unfolding public_option
public_option-rekey f o = ground arith

map-public_option-rekey :
    (f : String → String) (os : List SlotOption)
    → map public_option (map (rekey_option f) os) ≡ map public_option os
map-public_option-rekey f [] = refl
map-public_option-rekey f (o ∷ os) =
    ap₂ (λ x xs. x ∷ xs) (public_option-rekey f o) (map-public_option-rekey f os)

public_slot_value-rekey :
    (g : String → Option String) (f : String → String) (s : ResolvedSlot)
    → public_slot_value (rekey g f s) ≡ public_slot_value s
public_slot_value-rekey g f s = elim (Bool-cases (is_store s.entity_class)) [
  | inl e ↦ unfold public_slot_value in rw (e, map-public_option-rekey f s.options)
  | inr e ↦ unfold public_slot_value in rw (e, map-public_option-rekey f s.options)
]

public_line-rekey :
    (g : String → Option String) (f : String → String) (s : ResolvedSlot)
    → public_line (rekey g f s) ≡ public_line s
unfolding public_line
public_line-rekey g f s = ground arith

abbrev pub rekey_plan :
    (String → Option String) → (String → String) → ResolutionPlan → ResolutionPlan
rekey_plan g f p = record p { slots = map (rekey g f) p.slots }

public_lookup_slots-rekey :
    (g : String → Option String) (f : String → String) (ss : List ResolvedSlot)
    → map public_slot_value (map (rekey g f) ss) ≡ map public_slot_value ss
public_lookup_slots-rekey g f [] = refl
public_lookup_slots-rekey g f (s ∷ ss) =
    ap₂ (λ x xs. x ∷ xs) (public_slot_value-rekey g f s) (public_lookup_slots-rekey g f ss)

public_lines-rekey :
    (g : String → Option String) (f : String → String) (ss : List ResolvedSlot)
    → public_lines (map (rekey g f) ss) ≡ public_lines ss
unfolding public_lines
public_lines-rekey g f [] = refl
public_lines-rekey g f (s ∷ ss) = rw (public_line-rekey g f s, public_lines-rekey g f ss)

-- The plan and the context that a client gets do not depend on the internal keys of stores: with
-- any other keys in the store slots and in their store options, both are the same.
pub store_keys_hidden :
    (g : String → Option String) (f : String → String) (p : ResolutionPlan) (fallback : String)
    → (public_lookup_plan (some (rekey_plan g f p)) ≡ public_lookup_plan (some p))
      × (public_lookup_context (some (rekey_plan g f p)) fallback
          ≡ public_lookup_context (some p) fallback)
unfolding public_lookup_plan public_lookup_context
store_keys_hidden g f p fallback = (
  ap (λ slots. some (record p { slots = slots })) (public_lookup_slots-rekey g f p.slots),
  rw (public_lines-rekey g f p.slots),
)
