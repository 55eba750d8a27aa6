-- ===== src/Resolving.antt =====
-- The resolver's work on a plan of slots (app/service/entity_resolution/service.py): the budget of a
-- question, the OpCos that resolved slots fix, the reply that answers a slot, and the question about
-- the next one. The plan is app/service/entity_resolution/models.py, in Entities.
pub mod Replies
pub mod Adopted
pub mod Questions
pub mod Outcomes
pub mod Budget
pub mod Scopes
pub mod Pins
pub mod Settled
pub mod Answered
pub mod Misread
use conversational_copil.Prelude.{
  take, ℕ, zero, suc, ◌+◌, String, ◌<>◌, Bool, true, false, not, ◌&&◌, ◌||◌, Option, none, some,
  List, [], ◌∷◌, ◌++◌, map, if◌then◌else◌, ltb, leb, ◌==◌, length, keep_if, any, elem_of, str_eq,
  is_text, truthy, or_text, starts_with,
}
use conversational_copil.Entities.{
  SlotStatus, pending, resolved, ambiguous, is_resolved, SlotOption, ResolvedSlot, ResolutionPlan,
  is_store,
}

abbrev pub is_ambiguous : SlotStatus → Bool
is_ambiguous ambiguous = true
is_ambiguous _ = false

-- `settings.lookup_max_slots_per_question` and `max_options_per_span()`
pub record Limits : Type 0 where
  pub lookup_max_slots_per_question : ℕ
  pub max_options : ℕ

-- `_lookup_slot_limit`; 0 counts as unset
unfoldable pub lookup_slot_limit : Limits → ℕ
lookup_slot_limit l = elim l.lookup_max_slots_per_question [ zero ↦ 2 | suc n ↦ suc n ]

unfoldable pub entity_family : String → String
entity_family c = if starts_with c "category_" then "category" else c

unfoldable pub slot_priority : String → ℕ
unfolding entity_family
slot_priority c =
    let family = entity_family c in
    if str_eq family "opco"
    then 0
    else if str_eq family "store"
    then 1
    else if str_eq family "category"
    then 2
    else if str_eq family "enum"
    then 3
    else 9

-- `_counts_against_budget`
unfoldable pub counts_against_budget : String → Bool
counts_against_budget c = not (str_eq c "opco" || str_eq c "enum")

-- Python's set of texts: each once, in the order of their first places.
unfoldable pub add_text : String → List String → List String
add_text x xs = if elem_of x xs then xs else x ∷ xs

-- `_budgeted_columns`
unfoldable pub budgeted_columns : List ResolvedSlot → List String
unfolding counts_against_budget add_text
budgeted_columns [] = []
budgeted_columns (s ∷ ss) =
    let rest = budgeted_columns ss in
    if counts_against_budget s.entity_class && is_text s.target_column
    then add_text s.target_column rest
    else rest

-- `_append_lookup_slot`, or `none` where it returns False
unfoldable pub append_lookup_slot :
    Limits → List ResolvedSlot → ResolvedSlot → Option (List ResolvedSlot)
unfolding lookup_slot_limit counts_against_budget budgeted_columns
append_lookup_slot l slots slot =
    let columns = budgeted_columns slots in
    if counts_against_budget slot.entity_class
      && (not (elem_of slot.target_column columns) && leb (lookup_slot_limit l) (length columns))
    then none
    else some (slots ++ (slot ∷ []))

-- A span of the matcher as the loop of `resolve` reads it: its candidates as `to_dict` gives them,
-- whether `span_status` is "resolved", and the normalised text, or the index of the span.
pub record FoundSpan : Type 0 where
  pub text : String
  pub key : String
  pub start_token : ℕ
  pub candidates : List SlotOption
  pub is_settled : Bool

abbrev slot_id : String → String → String
slot_id c key = c <> (":" <> key)

-- `_resolved_slot`
unfoldable pub resolved_slot : FoundSpan → SlotOption → ResolvedSlot
resolved_slot s c = record {
  slot_id = slot_id c.entity_class s.key;
  phrase = s.text;
  entity_class = c.entity_class;
  target_column = c.target_column;
  status = resolved;
  canonical_value = some c.canonical_value;
  display_value = some c.display_value;
  category_key = c.category_key;
  opco_code = c.opco_code;
  options = [];
  alternate_columns = c.alternate_columns;
}

unfoldable pub ambiguous_slot : Limits → FoundSpan → SlotOption → ResolvedSlot
ambiguous_slot l s c = record {
  slot_id = slot_id c.entity_class s.key;
  phrase = s.text;
  entity_class = c.entity_class;
  target_column = c.target_column;
  status = ambiguous;
  canonical_value = none;
  display_value = none;
  category_key = none;
  opco_code = none;
  options = take l.max_options s.candidates;
  alternate_columns = [];
}

-- What the loop over the spans has so far. `existing` is the entities that are resolved.
pub record Merge : Type 0 where
  pub slots : List ResolvedSlot
  pub existing : List (String × String)
  pub overflow : List (FoundSpan × String)

abbrev pub is_known : String → String → List (String × String) → Bool
is_known c v known = any (λ (e : String × String). str_eq e.0 c && str_eq e.1 v) known

-- what the loop makes of a span's slot: `slots` is the plan with it, or none
abbrev pub placed : Merge → FoundSpan → SlotOption → Option (List ResolvedSlot) → Merge
placed m s c none = record m { overflow = m.overflow ++ ((s, c.entity_class) ∷ []) }
placed m s c (some slots) = record m {
  slots = slots;
  existing = if s.is_settled then (c.entity_class, c.canonical_value) ∷ m.existing else m.existing;
}

-- the slot that a span is given
unfoldable pub slot_of : Limits → FoundSpan → SlotOption → ResolvedSlot
unfolding resolved_slot ambiguous_slot
slot_of l s c = if s.is_settled then resolved_slot s c else ambiguous_slot l s c

abbrev pub merge_best : Limits → Merge → FoundSpan → List SlotOption → Merge
merge_best l m s [] = m
merge_best l m s (c ∷ cs) =
    if is_known c.entity_class c.canonical_value m.existing
    then m
    else placed m s c (append_lookup_slot l m.slots (slot_of l s c))

-- one pass of the loop of `resolve`
unfoldable pub merge_span : Limits → Merge → FoundSpan → Merge
unfolding append_lookup_slot slot_of any
merge_span l m s = merge_best l m s s.candidates

unfoldable pub merge_spans : Limits → Merge → List FoundSpan → Merge
unfolding merge_span
merge_spans l m [] = m
merge_spans l m (s ∷ ss) = merge_spans l (merge_span l m s) ss

-- `{(s.entity_class, s.canonical_value) for s in plan.resolved}`; a value that is missing is equal to
-- no candidate's
unfoldable pub resolved_entities : List ResolvedSlot → List (String × String)
resolved_entities [] = []
resolved_entities (s ∷ ss) =
    let rest = resolved_entities ss in
    elim s.canonical_value [
      | none ↦ rest
      | some v ↦ if is_resolved s.status then (s.entity_class, v) ∷ rest else rest
    ]

abbrev pub span_priority : FoundSpan → ℕ
span_priority s = elim s.candidates [ [] ↦ 9 | c ∷ cs ↦ slot_priority c.entity_class ]

abbrev pub no_later : FoundSpan → FoundSpan → Bool
no_later s t =
    ltb (span_priority s) (span_priority t)
    || ((span_priority s == span_priority t) && leb s.start_token t.start_token)

-- `spans.sort(key=..)`
unfoldable pub insert_span : FoundSpan → List FoundSpan → List FoundSpan
insert_span s [] = s ∷ []
insert_span s (t ∷ ts) =
    let rest = insert_span s ts in if no_later s t then s ∷ t ∷ ts else t ∷ rest

unfoldable pub sort_spans : List FoundSpan → List FoundSpan
unfolding insert_span
sort_spans [] = []
sort_spans (s ∷ ss) = insert_span s (sort_spans ss)
