-- ===== src/Scenarios/Resolution.antt =====
-- A plan with a store and a product to choose, and the theorems on plans at it.
use conversational_copil.Prelude.{
  String, ◌≡◌, refl, true, none, some, List, [], ◌∷◌, arith, elem_of,
}
use conversational_copil.Entities.{ambiguous, resolved, ResolvedSlot, SlotOption}
use conversational_copil.Graph.Agents.{raised}
use conversational_copil.Wording.{normalize_lookup_text, is_option_number, int_of}
use conversational_copil.Wording.Normal.{normalize_idem}
use conversational_copil.Resolving.{
  Limits, FoundSpan, Merge, merge_spans, budgeted_columns, counts_against_budget, lookup_slot_limit,
  add_text,
}
use conversational_copil.Resolving.Replies.{
  apply_selection, adopt_option, option_with_internal_value,
}
use conversational_copil.Resolving.Outcomes.{apply_opco_pin, finalize}
use conversational_copil.Resolving.Budget.{WithinBudget, Extended, merge_spans-Extended}
use conversational_copil.Resolving.Pins.{AllTwo, PinnedSlot, apply_opco_pin-Pinned}
use conversational_copil.Resolving.Settled.{Settles, finalize-Settles}
use conversational_copil.Resolving.Misread.{number_part, selection_raises}

abbrev limits : Limits
limits = record { lookup_max_slots_per_question = 0; max_options = 5 }

abbrev lamb : String → String → SlotOption
lamb opco key = record {
  entity_class = "category_l3";
  canonical_value = key;
  display_value = "Lamb";
  target_column = "category_l3_key";
  score_tenths = 1000;
  match_kind = "exact";
  opco_code = some opco;
  opco_name = none;
  category_key = some 7;
  category_level = some 3;
  alternate_columns = [];
}

abbrev chosen_store : ResolvedSlot
chosen_store = record {
  slot_id = "store:inglegate";
  phrase = "inglegate";
  entity_class = "store";
  target_column = "store_id";
  status = resolved;
  canonical_value = some "1013";
  display_value = some "Inglegate";
  category_key = none;
  opco_code = some "NORTHCO";
  options = [];
  alternate_columns = [];
}

abbrev open_lamb : ResolvedSlot
open_lamb = record {
  slot_id = "category_l3:lamb";
  phrase = "lamb";
  entity_class = "category_l3";
  target_column = "category_l3_key";
  status = ambiguous;
  canonical_value = none;
  display_value = none;
  category_key = none;
  opco_code = none;
  options = lamb "NORTHCO" "Fresh" ∷ lamb "MART" "Frozen" ∷ [];
  alternate_columns = [];
}

abbrev two_slots : List ResolvedSlot
two_slots = open_lamb ∷ chosen_store ∷ []

abbrev lamb_span : FoundSpan
lamb_span = record {
  text = "lamb";
  key = "lamb";
  start_token = 3;
  candidates = lamb "NORTHCO" "Fresh" ∷ [];
  is_settled = true;
}

abbrev nothing_stored : String → List SlotOption
nothing_stored s = []

apply_opco_pin-Pinned_example : AllTwo (PinnedSlot two_slots) two_slots (apply_opco_pin two_slots)
apply_opco_pin-Pinned_example = apply_opco_pin-Pinned two_slots

finalize-Settles_example : Settles two_slots (finalize limits two_slots none)
finalize-Settles_example = finalize-Settles limits two_slots none

abbrev start : Merge
start = record { slots = chosen_store ∷ []; existing = []; overflow = [] }

start_within : WithinBudget limits (chosen_store ∷ [])
unfolding budgeted_columns lookup_slot_limit counts_against_budget add_text elem_of
start_within = omega arith

merge_spans-Extended_example :
    Extended limits (chosen_store ∷ []) (merge_spans limits start (lamb_span ∷ [])).slots
merge_spans-Extended_example = merge_spans-Extended limits start (lamb_span ∷ []) start_within

abbrev answered_lamb : ResolvedSlot
answered_lamb =
    adopt_option open_lamb (option_with_internal_value nothing_stored (lamb "MART" "Frozen"))

joined_number :
    apply_selection nothing_stored two_slots "option2"
    ≡ raised "invalid literal for int() with base 10: 'option2'"
unfolding apply_selection
joined_number = refl

selection_raises_example :
    (is_option_number "option2" ≡ true)
    × (int_of (number_part (normalize_lookup_text "option2")) ≡ none)
selection_raises_example =
    selection_raises nothing_stored "option2" two_slots
      "invalid literal for int() with base 10: 'option2'" joined_number

normalize_idem_example :
    normalize_lookup_text (normalize_lookup_text "MEGA_Mall!") ≡ normalize_lookup_text "MEGA_Mall!"
normalize_idem_example = normalize_idem "MEGA_Mall!"
