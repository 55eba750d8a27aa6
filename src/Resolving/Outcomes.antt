-- ===== src/Resolving/Outcomes.antt =====
-- What a turn's resolution ends with: `_apply_opco_pin`, `_too_many_lookup_values_result`,
-- `_finalize`, and `resolve` after the matching.
use conversational_copil.Prelude.{
  String, Bool, true, false, not, ◌&&◌, ◌||◌, Option, none, some, List, [], ◌∷◌, map, if◌then◌else◌,
  ◌==◌, length, keep_if, any, elem_of, str_eq, is_text, truthy, or_text,
}
use conversational_copil.Entities.{
  pending, resolved, is_resolved, SlotOption, ResolvedSlot, ResolutionPlan, is_store,
}
use conversational_copil.Graph.Agents.{Attempt, returned, raised, Resolved}
use conversational_copil.Resolving.{
  is_ambiguous, entity_family, Limits, add_text, FoundSpan, Merge, merge_spans, sort_spans,
  resolved_entities,
}
use conversational_copil.Resolving.Questions.{budget_question, impossible_question, slot_question}
use conversational_copil.Resolving.Replies.{
  adopt_option, ambiguous_in_ask_order, apply_selection, restore_slot, Placed,
}

-- `_pinned_opcos`, with the OpCos in the order of their slots
unfoldable pub pinned_opcos : Bool → List ResolvedSlot → List String
unfolding add_text
pinned_opcos named_only [] = []
pinned_opcos named_only (s ∷ ss) =
    let rest = pinned_opcos named_only ss in
    if is_resolved s.status
      && (truthy s.opco_code && (not named_only || str_eq s.entity_class "opco"))
    then add_text (or_text s.opco_code "") rest
    else rest

-- An option of no OpCo, or of one in the scope.
unfoldable pub is_within : List String → SlotOption → Bool
unfolding elem_of
is_within scope o = not (truthy o.opco_code) || elem_of (or_text o.opco_code "") scope

-- a slot with the options that are left; the only one is adopted if it matched exactly
abbrev pub with_kept : ResolvedSlot → List SlotOption → ResolvedSlot
with_kept s (o ∷ []) =
    if str_eq o.match_kind "exact"
    then adopt_option (record s { options = o ∷ [] }) o
    else record s { options = o ∷ [] }
with_kept s kept = record s { options = kept }

abbrev pub pinned_to : List String → ResolvedSlot → ResolvedSlot
pinned_to [] s = s
pinned_to (code ∷ codes) s =
    let kept = keep_if (is_within (code ∷ codes)) s.options in
    if length kept == length s.options then s else with_kept s kept

-- one pass of `_apply_opco_pin`
unfoldable pub pin_slot : List String → List String → ResolvedSlot → ResolvedSlot
unfolding keep_if is_within adopt_option
pin_slot pinned named s =
    if is_ambiguous s.status
    then pinned_to (if is_store s.entity_class then named else pinned) s
    else s

unfoldable pub apply_opco_pin : List ResolvedSlot → List ResolvedSlot
unfolding pinned_opcos pin_slot
apply_opco_pin slots = map (pin_slot (pinned_opcos false slots) (pinned_opcos true slots)) slots

abbrev pub no_options : List SlotOption → Bool
no_options [] = true
no_options (o ∷ os) = false

unfoldable pub is_impossible : ResolvedSlot → Bool
is_impossible s = is_ambiguous s.status && no_options s.options

unfoldable pub resolved_families : List ResolvedSlot → List String
unfolding entity_family
resolved_families [] = []
resolved_families (s ∷ ss) =
    let rest = resolved_families ss in
    if is_resolved s.status then entity_family s.entity_class ∷ rest else rest

-- An emptied slot of a class that is resolved already; equal slots are alike in this.
unfoldable pub is_redundant : List String → ResolvedSlot → Bool
unfolding is_impossible elem_of entity_family
is_redundant families s = is_impossible s && elem_of (entity_family s.entity_class) families

unfoldable pub without_redundant : List ResolvedSlot → List ResolvedSlot
unfolding resolved_families is_redundant keep_if
without_redundant slots = keep_if (λ s. not (is_redundant (resolved_families slots) s)) slots

abbrev pub asking : List ResolvedSlot → String → Resolved
asking slots question = record {
  plan = record { status = pending; slots = slots };
  needs_clarification = true;
  clarification_question = some question;
}

abbrev pub settled : List ResolvedSlot → Resolved
settled slots = record {
  plan = record { status = resolved; slots = slots };
  needs_clarification = false;
  clarification_question = none;
}

abbrev pub ask_next : Limits → Option String → List ResolvedSlot → List Placed → Resolved
ask_next l invalid slots [] = settled slots
ask_next l invalid slots ((i, s) ∷ ps) = asking slots (slot_question l.max_options invalid s)

abbrev pub ask_impossible :
    Limits → Option String → List ResolvedSlot → List ResolvedSlot → Resolved
ask_impossible l invalid slots [] = ask_next l invalid slots (ambiguous_in_ask_order slots)
ask_impossible l invalid slots (s ∷ ss) =
    asking slots (impossible_question (pinned_opcos false slots) s)

-- `_finalize`
unfoldable pub finalize : Limits → List ResolvedSlot → Option String → Resolved
unfolding apply_opco_pin without_redundant is_impossible slot_question impossible_question keep_if
    ambiguous_in_ask_order pinned_opcos
finalize l slots invalid =
    let left = without_redundant (apply_opco_pin slots) in
    ask_impossible l invalid left (keep_if is_impossible left)

abbrev is_empty {ℓ} : {A : Type ℓ} → List A → Bool
is_empty [] = true
is_empty (x ∷ xs) = false

-- the end of `resolve` after the loop over the spans
unfoldable pub merged_result : Limits → Merge → Resolved
unfolding finalize budget_question
merged_result l m =
    if is_empty m.overflow
    then finalize l m.slots none
    else asking m.slots (budget_question l m.slots m.overflow)

unfoldable pub resolve_spans : Limits → List ResolvedSlot → List FoundSpan → Resolved
unfolding merge_spans sort_spans resolved_entities merged_result
resolve_spans l slots spans = merged_result l (
    merge_spans l (record { slots = slots; existing = resolved_entities slots; overflow = [] })
      (sort_spans spans))

abbrev pub answered :
    Limits → List ResolvedSlot → String → Attempt (Option (List ResolvedSlot)) → Attempt Resolved
answered l slots selection (raised e) = raised e
answered l slots selection (returned none) = returned (finalize l slots (some selection))
answered l slots selection (returned (some chosen)) = returned (finalize l chosen none)

-- `plan.pending` is not empty
unfoldable pub is_waiting : List ResolvedSlot → Bool
unfolding any
is_waiting slots = any (λ (s : ResolvedSlot). not (is_resolved s.status)) slots

-- `resolve`, with the spans that the matcher found and `clean`, the text without internal lines
unfoldable pub resolve :
    (String → List SlotOption)
    → Limits
    → String
    → List FoundSpan
    → ResolutionPlan
    → Option String
    → Attempt Resolved
unfolding restore_slot apply_selection resolve_spans is_waiting finalize
resolve lookup_exact l clean spans plan selected =
    let slots = map (restore_slot lookup_exact) plan.slots in
    if is_text clean
    then (if truthy selected && is_waiting slots
        then answered l slots (or_text selected "")
            (apply_selection lookup_exact slots (or_text selected ""))
        else returned (resolve_spans l slots spans))
    else returned
        (record { plan = plan; needs_clarification = false; clarification_question = none })
