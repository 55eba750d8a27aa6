-- ===== src/Resolving/Replies.antt =====
-- The reply that answers a slot: `_adopt_option`, `_ambiguous_in_ask_order` and `_apply_selection`.
use conversational_copil.Prelude.{
  ℕ, zero, suc, String, ◌<>◌, Bool, ◌&&◌, ◌||◌, Option, none, some, List, [], ◌∷◌, map,
  if◌then◌else◌, leb, get_elem?, keep_if, str_eq, is_text, or_text, or_else, contains,
}
use conversational_copil.Entities.{resolved, SlotOption, ResolvedSlot, is_store}
use conversational_copil.Graph.Agents.{Attempt, returned, raised}
use conversational_copil.Wording.{
  clean_text_value, normalize_lookup_text, is_option_number, after_prefix, int_of,
}
use conversational_copil.Resolving.{is_ambiguous, slot_priority}

-- an option's own identity; a class or a column that is missing there is the slot's
unfoldable pub adopt_option : ResolvedSlot → SlotOption → ResolvedSlot
adopt_option slot o = record slot {
  status = resolved;
  entity_class = or_text (some o.entity_class) slot.entity_class;
  target_column = or_text (some o.target_column) slot.target_column;
  canonical_value = some o.canonical_value;
  display_value = some o.display_value;
  category_key = o.category_key;
  opco_code = o.opco_code;
  options = [];
}

-- A slot with its place in the plan.
abbrev pub Placed : Type 0
Placed = ℕ × ResolvedSlot

unfoldable pub placed_from : ℕ → List ResolvedSlot → List Placed
placed_from i [] = []
placed_from i (s ∷ ss) = (i, s) ∷ placed_from (suc i) ss

unfoldable pub insert_by_priority : Placed → List Placed → List Placed
insert_by_priority p [] = p ∷ []
insert_by_priority p (q ∷ qs) =
    let rest = insert_by_priority p qs in
    if leb (slot_priority p.1.entity_class) (slot_priority q.1.entity_class)
    then p ∷ q ∷ qs
    else q ∷ rest

unfoldable pub sort_by_priority : List Placed → List Placed
unfolding insert_by_priority
sort_by_priority [] = []
sort_by_priority (p ∷ ps) = insert_by_priority p (sort_by_priority ps)

unfoldable pub ambiguous_in_ask_order : List ResolvedSlot → List Placed
unfolding placed_from sort_by_priority keep_if
ambiguous_in_ask_order slots =
    sort_by_priority (keep_if (λ (p : Placed). is_ambiguous p.1.status) (placed_from 0 slots))

-- the slot at a place of the plan, changed
unfoldable pub put_slot : ℕ → ResolvedSlot → List ResolvedSlot → List ResolvedSlot
put_slot i x [] = []
put_slot zero x (s ∷ ss) = x ∷ ss
put_slot (suc i) x (s ∷ ss) = s ∷ put_slot i x ss

-- The dictionary's store of an option that shows the same name.
unfoldable pub same_store : String → List SlotOption → Option SlotOption
same_store display [] = none
same_store display (c ∷ cs) =
    let rest = same_store display cs in
    if is_store c.entity_class
      && str_eq (normalize_lookup_text c.display_value) (normalize_lookup_text display)
    then some c
    else rest

abbrev pub with_store : SlotOption → Option SlotOption → SlotOption
with_store o none = o
with_store o (some c) = record o {
  canonical_value = c.canonical_value;
  target_column = c.target_column;
  opco_code = c.opco_code;
  opco_name = or_else c.opco_name o.opco_name;
  category_key = c.category_key;
}

abbrev pub restored : ResolvedSlot → Option SlotOption → ResolvedSlot
restored s none = s
restored s (some c) = record s {
  canonical_value = some c.canonical_value;
  target_column = or_text (some c.target_column) s.target_column;
  opco_code = or_else c.opco_code s.opco_code;
  category_key = elim c.category_key [
    | none ↦ s.category_key
    | some n ↦ elim n [ zero ↦ s.category_key | suc k ↦ some (suc k) ]
  ];
}

-- the test on an option's texts
unfoldable pub is_named : String → SlotOption → Bool
is_named target o =
    let display = normalize_lookup_text o.display_value in
    (str_eq target display || str_eq target (normalize_lookup_text o.canonical_value))
    || (is_text display && contains display target)

unfoldable pub first_named : String → List SlotOption → Option SlotOption
unfolding is_named
first_named target [] = none
first_named target (o ∷ os) =
    let rest = first_named target os in if is_named target o then some o else rest

-- `target.removeprefix("option ")`
abbrev pub without_option : Option String → String → String
without_option none target = target
without_option (some rest) target = rest

abbrev pub numbered : Option ℕ → String → Attempt ℕ
numbered none text = raised ("invalid literal for int() with base 10: '" <> (text <> "'"))
numbered (some n) text = returned n

-- `int(number)`, which raises for a text that is no number
unfoldable pub option_number : String → Attempt ℕ
unfolding after_prefix
option_number target =
    let number = without_option (after_prefix "option " target) target in
    numbered (int_of number) number

-- the option at a number from 1
abbrev pub option_at : ℕ → List SlotOption → Option SlotOption
option_at zero os = none
option_at (suc i) os = get_elem? os i

abbrev pub or_next :
    Attempt (Option (ℕ × ResolvedSlot))
    → Attempt (Option (ℕ × ResolvedSlot))
    → Attempt (Option (ℕ × ResolvedSlot))
or_next (raised e) rest = raised e
or_next (returned none) rest = rest
or_next (returned (some x)) rest = returned (some x)

abbrev pub put_chosen :
    List ResolvedSlot → Attempt (Option (ℕ × ResolvedSlot)) → Attempt (Option (List ResolvedSlot))
put_chosen slots (raised e) = raised e
put_chosen slots (returned none) = returned none
put_chosen slots (returned (some (i, s))) = returned (some (put_slot i s slots))

module _ (lookup_exact : String → List SlotOption) where
  -- the store of a class and a shown name, if they are a store's
  unfoldable pub stored_as : String → String → Option SlotOption
  unfolding same_store clean_text_value normalize_lookup_text
  stored_as c display =
      let shown = clean_text_value display in
      if is_store c && is_text shown
      then same_store shown (lookup_exact (normalize_lookup_text shown))
      else none

  -- `_option_with_internal_value`
  unfoldable pub option_with_internal_value : SlotOption → SlotOption
  unfolding stored_as
  option_with_internal_value o = with_store o (stored_as o.entity_class o.display_value)

  -- one pass of `_restore_internal_store_values`
  unfoldable pub restore_slot : ResolvedSlot → ResolvedSlot
  unfolding stored_as option_with_internal_value
  restore_slot s =
      if is_store s.entity_class
      then record (restored s (stored_as s.entity_class (or_text s.display_value ""))) {
        options = map option_with_internal_value s.options;
      }
      else s

  abbrev pub adopted : Placed → Option SlotOption → Option (ℕ × ResolvedSlot)
  adopted p none = none
  adopted p (some o) = some (p.0, adopt_option p.1 (option_with_internal_value o))

  abbrev pub numbered_option : Placed → Attempt ℕ → Attempt (Option (ℕ × ResolvedSlot))
  numbered_option p (raised e) = raised e
  numbered_option p (returned n) = returned (adopted p (option_at n p.1.options))

  -- one slot of `_apply_selection`: the changed slot with its place, or none
  abbrev pub chosen :
      Placed → String → String → Option SlotOption → Attempt (Option (ℕ × ResolvedSlot))
  chosen p selection target (some o) = returned (adopted p (some o))
  chosen p selection target none =
      if is_option_number selection then numbered_option p (option_number target) else returned none

  unfoldable pub select_from : String → String → List Placed → Attempt (Option (ℕ × ResolvedSlot))
  unfolding first_named option_number adopt_option option_with_internal_value is_option_number
  select_from selection target [] = returned none
  select_from selection target (p ∷ ps) =
      or_next (chosen p selection target (first_named target p.1.options))
        (select_from selection target ps)

  -- The plan's slots after the reply, or none where it returns False.
  unfoldable pub apply_selection : List ResolvedSlot → String → Attempt (Option (List ResolvedSlot))
  unfolding ambiguous_in_ask_order select_from put_slot normalize_lookup_text
  apply_selection slots selection =
      let target = normalize_lookup_text selection in
      if is_text target
      then put_chosen slots (select_from selection target (ambiguous_in_ask_order slots))
      else returned none
