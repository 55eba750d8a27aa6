-- ===== src/Resolving/Answered.antt =====
-- A question about a slot, and the reply to it on the next turn.
use conversational_copil.Prelude.{ℕ, ◌≤◌, ◌≡◌, ◌≢◌, true, some, List, [], ◌∷◌, get_elem?, All}
use conversational_copil.Entities.{SlotOption, ResolvedSlot}
use conversational_copil.Resolving.{is_ambiguous, slot_priority}
use conversational_copil.Resolving.Adopted.{Adopted, StoredAs}
use conversational_copil.Resolving.Replies.{Placed}

-- A slot that stands at its place in the plan.
abbrev Stands : List ResolvedSlot → Placed → Type 0
Stands slots p = get_elem? slots p.0 ≡ some p.1

-- In the order of asking no later slot comes before an earlier one.
abbrev InOrder : Placed → Placed → Type 0
InOrder p q = slot_priority p.1.entity_class ≤ slot_priority q.1.entity_class

abbrev Sorted : List Placed → Type 0
Sorted [] = Unit
Sorted (p ∷ ps) = All (InOrder p) ps × Sorted ps

-- The slots `ys` after a reply to the question about slot `i`, which was `s` and is resolved to `o`.
pub record Answers (candidates : List SlotOption) (slots : List ResolvedSlot) (i : ℕ)
    (s : ResolvedSlot) (ps : List Placed) (o : SlotOption) (ys : List ResolvedSlot) : Type 0 where
  pub stood : get_elem? slots i ≡ some s
  pub was_ambiguous : is_ambiguous s.status ≡ true
  pub first : All (InOrder (i, s)) ps
  pub now : ResolvedSlot
  pub stands : get_elem? ys i ≡ some now
  pub stored : SlotOption
  pub as_stored : StoredAs candidates o stored
  pub adopted : Adopted s stored now
  pub others : (j : ℕ) → j ≢ i → get_elem? ys j ≡ get_elem? slots j
