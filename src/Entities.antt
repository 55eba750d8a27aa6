-- ===== src/Entities.antt =====
-- The resolution plan that travels between turns, and the copies of it that clients see
-- (app/service/entity_resolution/models.py).
pub mod Redaction
use conversational_copil.Prelude.{
  ℕ, String, ◌<>◌, Bool, true, false, Option, none, some, List, [], ◌∷◌, map, if◌then◌else◌, str_eq,
  is_text, or_text, or_else, truthy, join,
}

pub data SlotStatus : Type 0 where
  pending resolved ambiguous : SlotStatus

abbrev pub is_resolved : SlotStatus → Bool
is_resolved resolved = true
is_resolved _ = false

-- `EntityCandidate.to_dict()`, which is what a slot keeps of a candidate. The score is rounded to
-- one decimal there, so it is a number of tenths.
pub record SlotOption : Type 0 where
  pub entity_class : String
  pub canonical_value : String
  pub display_value : String
  pub target_column : String
  pub score_tenths : ℕ
  pub match_kind : String
  pub opco_code : Option String
  pub opco_name : Option String
  pub category_key : Option ℕ
  pub category_level : Option ℕ
  pub alternate_columns : List String

pub record ResolvedSlot : Type 0 where
  pub slot_id : String
  pub phrase : String
  pub entity_class : String
  pub target_column : String
  pub status : SlotStatus
  pub canonical_value : Option String
  pub display_value : Option String
  pub category_key : Option ℕ
  pub opco_code : Option String
  pub options : List SlotOption
  pub alternate_columns : List String

pub record ResolutionPlan : Type 0 where
  pub status : SlotStatus
  pub slots : List ResolvedSlot

abbrev pub is_store : String → Bool
is_store c = str_eq c "store"

abbrev selected_store : String → String
selected_store display = if is_text display then display else "Selected store"

unfoldable pub public_option : SlotOption → SlotOption
public_option o =
    if is_store o.entity_class
    then record o { target_column = "store"; canonical_value = selected_store o.display_value }
    else o

-- the first half of `_public_slot_value`: the slot's own value
abbrev public_value : ResolvedSlot → ResolvedSlot
public_value s =
    if is_store s.entity_class
    then record s {
      target_column = "store";
      canonical_value = some (or_text s.display_value "Selected store");
    }
    else s

unfoldable pub public_slot_value : ResolvedSlot → ResolvedSlot
unfolding public_option
public_slot_value s = record (public_value s) { options = map public_option s.options }

unfoldable pub public_lookup_slots : List ResolvedSlot → List ResolvedSlot
unfolding public_slot_value
public_lookup_slots slots = map public_slot_value slots

unfoldable pub public_lookup_plan : Option ResolutionPlan → Option ResolutionPlan
unfolding public_lookup_slots
public_lookup_plan none = none
public_lookup_plan (some plan) = some (record plan { slots = public_lookup_slots plan.slots })

-- `slot.get(a) or slot.get(b)` in an f-string, where a missing value is written `None`
abbrev shown : Option String → String
shown none = "None"
shown (some s) = s

-- the line for one resolved slot that has a phrase
unfoldable pub public_line : ResolvedSlot → String
public_line s =
    if is_store s.entity_class
    then "- \""
      <> (s.phrase
          <> ("\" resolves to store \"" <> (or_text s.display_value "selected store" <> "\"")))
    else if str_eq s.entity_class "opco"
    then "- \""
      <> (s.phrase <> ("\" resolves to opco_code = '" <> (shown s.canonical_value <> "'")))
    else "- \""
      <> (s.phrase <> ("\" resolves to " <> (target <> (" = \"" <> (shown display <> "\"")))))
  where
    display : Option String
    display = or_else s.display_value s.canonical_value

    target : String
    target = or_text (some s.target_column) (or_text (some s.entity_class) "value")

-- the loop of `public_lookup_context`
unfoldable pub public_lines : List ResolvedSlot → List String
unfolding public_line
public_lines [] = []
public_lines (s ∷ slots) =
    let rest = public_lines slots in
    if is_resolved s.status then (if is_text s.phrase then public_line s ∷ rest else rest) else rest

abbrev headed : List String → String
headed [] = ""
headed (l ∷ ls) = "Resolved entity filters:\n" <> join "\n" (l ∷ ls)

unfoldable pub public_lookup_context : Option ResolutionPlan → String → String
unfolding public_lines join
public_lookup_context none fallback = fallback
public_lookup_context (some plan) fallback = headed (public_lines plan.slots)
