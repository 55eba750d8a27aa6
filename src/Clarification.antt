-- ===== src/Clarification.antt =====
-- The pending clarification of a conversation (app/policies/clarification_policy.py): which of the
-- last messages belong to it. `loads` is `json.loads` of a message that holds a dictionary.
pub mod Wordings
pub mod Followup
pub mod Windows
pub mod Original
pub mod Kinds
use conversational_copil.Prelude.{
  ℕ, zero, suc, String, ◌<>◌, Bool, true, false, not, ◌&&◌, ◌||◌, Option, none, some, List, [], ◌∷◌,
  if◌then◌else◌, get_elem?, take, drop, is_text, or_text, to_lower, contains,
}
use conversational_copil.Wording.{clean_text_value}
use conversational_copil.Graph.State.{ResultType, Answer, Message, Role}

abbrev pub is_clarify : ResultType → Bool
is_clarify ResultType.clarify = true
is_clarify _ = false

unfoldable pub is_terminal_lookup_failure_clarify : Option Answer → Bool
unfolding to_lower
is_terminal_lookup_failure_clarify none = false
is_terminal_lookup_failure_clarify (some p) =
    let text = to_lower p.answer <> ("\n" <> to_lower (or_text p.intent_reason "")) in
    is_clarify p.kind && (contains text "could not find" && contains text "lookup master data")

-- `_is_assistant_clarification_payload`, and `is_prior_assistant_clarification`
unfoldable pub is_prior_assistant_clarification : Option Answer → Bool
unfolding clean_text_value
is_prior_assistant_clarification none = false
is_prior_assistant_clarification (some p) = is_clarify p.kind && is_text (clean_text_value p.answer)

abbrev pub is_assistant : Role → Bool
is_assistant Role.assistant = true
is_assistant Role.user = false

module _ (loads : String → Option Answer) where
  -- `_parse_assistant_payload`
  unfoldable pub parse_assistant_payload : Message → Option Answer
  parse_assistant_payload m = if is_assistant m.role then loads m.content else none

  abbrev found_later : ℕ → Option Answer → Option (ℕ × Answer) → Option (ℕ × Answer)
  found_later i here (some later) = some later
  found_later i (some p) none = some (i, p)
  found_later i none none = none

  unfoldable pub payload_index_from : ℕ → List Message → Option (ℕ × Answer)
  unfolding parse_assistant_payload
  payload_index_from i [] = none
  payload_index_from i (m ∷ ms) =
      found_later i (parse_assistant_payload m) (payload_index_from (suc i) ms)

  unfoldable pub last_assistant_payload_index : List Message → Option (ℕ × Answer)
  unfolding payload_index_from
  last_assistant_payload_index items = payload_index_from 0 items

  -- the message at which the scan of the chain stops: a terminal failure, or no clarification
  unfoldable pub is_boundary : Message → Bool
  unfolding parse_assistant_payload is_terminal_lookup_failure_clarify
      is_prior_assistant_clarification
  is_boundary m =
      is_assistant m.role
      && (is_terminal_lookup_failure_clarify (parse_assistant_payload m)
          || not (is_prior_assistant_clarification (parse_assistant_payload m)))

  abbrev pub stops : Option Message → Bool
  stops none = false
  stops (some m) = is_boundary m

  -- the loop over `range(last_idx - 1, -1, -1)`
  unfoldable pub chain_start : List Message → ℕ → ℕ
  unfolding is_boundary
  chain_start items zero = 0
  chain_start items (suc i) =
      let earlier = chain_start items i in if stops (get_elem? items i) then suc i else earlier

  abbrev pub start_of : List Message → Option (ℕ × Answer) → Option ℕ
  start_of items none = none
  start_of items (some (i, p)) =
      if is_prior_assistant_clarification (some p) then some (chain_start items i) else none

  unfoldable pub active_clarification_window_start_index : List Message → Option ℕ
  unfolding last_assistant_payload_index chain_start is_prior_assistant_clarification
  active_clarification_window_start_index items =
      start_of items (last_assistant_payload_index items)

  -- `active_clarification_window` has the loop of its own
  abbrev pub window_stops : Option Message → Bool
  window_stops none = false
  window_stops (some m) =
      if not (is_assistant m.role)
      then false
      else if is_terminal_lookup_failure_clarify (parse_assistant_payload m)
      then true
      else not (is_prior_assistant_clarification (parse_assistant_payload m))

  unfoldable pub window_start : List Message → ℕ → ℕ
  unfolding parse_assistant_payload is_terminal_lookup_failure_clarify
      is_prior_assistant_clarification
  window_start items zero = 0
  window_start items (suc i) =
      let earlier = window_start items i in
      if window_stops (get_elem? items i) then suc i else earlier

  abbrev pub window_of : List Message → Option (ℕ × Answer) → List Message
  window_of items none = []
  window_of items (some (i, p)) =
      if not (is_prior_assistant_clarification (some p))
      then []
      else drop (window_start items i) items

  unfoldable pub active_clarification_window : List Message → List Message
  unfolding last_assistant_payload_index window_start is_prior_assistant_clarification
  active_clarification_window items = window_of items (last_assistant_payload_index items)

  abbrev pub history_before : List Message → Option ℕ → List Message
  history_before items none = items
  history_before items (some k) = take k items

  unfoldable pub history_without_active_clarification_window : List Message → List Message
  unfolding active_clarification_window_start_index
  history_without_active_clarification_window items =
      history_before items (active_clarification_window_start_index items)
