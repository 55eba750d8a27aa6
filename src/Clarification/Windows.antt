-- ===== src/Clarification/Windows.antt =====
-- Which messages the pending clarification is.
use mathlib.Core.List.{append-nil}
use conversational_copil.Prelude.{
  ◌+◌, ◌∙◌, Bool, true, false, not, ◌&&◌, ◌||◌, ℕ, zero, suc, ◌≤◌, ◌<◌, String, ◌≡◌, ◌⊎◌, inl, inr,
  refl, sym, ap, subst, Bool-cases, Option, none, some, List, [], ◌∷◌, ◌++◌, arith, get_elem?, take,
  drop,
}
use conversational_copil.Graph.State.{Answer, Message}
use conversational_copil.Clarification.{
  parse_assistant_payload, is_boundary, is_assistant, is_terminal_lookup_failure_clarify,
  is_prior_assistant_clarification, last_assistant_payload_index, stops, chain_start, start_of,
  active_clarification_window_start_index, window_stops, window_start, window_of,
  payload_index_from, found_later, active_clarification_window, history_before,
  history_without_active_clarification_window,
}

module _ (loads : String → Option Answer) where
  -- what the message at a place holds, if it is the assistant's and loads
  abbrev pub parsed_at : List Message → ℕ → Option Answer
  parsed_at items j = elim (get_elem? items j) [
    | none ↦ none
    | some m ↦ parse_assistant_payload loads m
  ]

  -- The last payload of the assistant in the history, and its place.
  abbrev pub IsLast : List Message → ℕ → Answer → Type 0
  IsLast items i p = (parsed_at items i ≡ some p) × ((j : ℕ) → i < j → parsed_at items j ≡ none)

  abbrev Located : List Message → ℕ → Option (ℕ × Answer) → Type 0
  Located items k none = (j : ℕ) → parsed_at items j ≡ none
  Located items k (some (i, p)) = (n : ℕ) × (i ≡ k + n) × IsLast items n p

  payload_index-Located :
      (items : List Message) (k : ℕ) → Located items k (payload_index_from loads k items)
  unfolding payload_index_from
  payload_index-Located [] k = λ j. refl
  payload_index-Located (m ∷ ms) k =
      both (parse_assistant_payload loads m) (payload_index_from loads (suc k) ms) refl
        (payload_index-Located ms (suc k))
    where
      both :
          (here : Option Answer) (later : Option (ℕ × Answer))
          → parse_assistant_payload loads m ≡ here
          → Located ms (suc k) later
          → Located (m ∷ ms) k (found_later loads k here later)
      both here (some (i, p)) e (n, same, (at, after)) =
          (suc n, omega (arith, same), (at, (λ j h. passed j h)))
        where
          passed : (j : ℕ) → suc n < j → parsed_at (m ∷ ms) j ≡ none
          passed zero h = absurd (omega (arith, h))
          passed (suc j) h = after j (omega (arith, h))
      both (some p) none e after = (0, omega arith, (e, (λ j h. passed j h)))
        where
          passed : (j : ℕ) → 0 < j → parsed_at (m ∷ ms) j ≡ none
          passed zero h = absurd (omega (arith, h))
          passed (suc j) h = after j
      both none none e after = λ j. nowhere j
        where
          nowhere : (j : ℕ) → parsed_at (m ∷ ms) j ≡ none
          nowhere zero = e
          nowhere (suc j) = after j

  -- The messages of the active chain: from `start` up to the last payload, which asks, none ends a
  -- chain; and the one before `start`, if there is one, does.
  pub record Chain (items : List Message) (start : ℕ) : Type 0 where
    pub last : ℕ
    pub payload : Answer
    pub latest : IsLast items last payload
    pub asks : is_prior_assistant_clarification (some payload) ≡ true
    pub starts : start ≤ last
    pub unbroken :
        (j : ℕ) (m : Message)
        → start ≤ j
        → j < last
        → get_elem? items j ≡ some m
        → is_assistant m.role ≡ true
        → (is_terminal_lookup_failure_clarify (parse_assistant_payload loads m) ≡ false)
          × (is_prior_assistant_clarification (parse_assistant_payload loads m) ≡ true)
    pub bounded :
        (start ≡ 0) ⊎ ((j : ℕ) × (start ≡ suc j) × (stops loads (get_elem? items j) ≡ true))

  boundary_split :
      (m : Message)
      → is_boundary loads m ≡ false
      → is_assistant m.role ≡ true
      → (is_terminal_lookup_failure_clarify (parse_assistant_payload loads m) ≡ false)
        × (is_prior_assistant_clarification (parse_assistant_payload loads m) ≡ true)
  unfolding is_boundary
  boundary_split m h a = three (is_assistant m.role) _ _ h a
    where
      three : (x y z : Bool) → (x && (y || not z)) ≡ false → x ≡ true → (y ≡ false) × (z ≡ true)
      three x y z h a = ground arith

  chain_start-le : (items : List Message) (n : ℕ) → chain_start loads items n ≤ n
  unfolding chain_start
  chain_start-le items zero = omega arith
  chain_start-le items (suc i) = elim (Bool-cases (stops loads (get_elem? items i))) [
    | inl e ↦ rw e (omega arith)
    | inr e ↦ rw e (omega (arith, chain_start-le items i))
  ]

  chain_start-unbroken :
      (items : List Message) (n j : ℕ)
      → chain_start loads items n ≤ j
      → j < n
      → stops loads (get_elem? items j) ≡ false
  unfolding chain_start
  chain_start-unbroken items zero j h k = absurd (omega arith)
  chain_start-unbroken items (suc i) j h k = elim (Bool-cases (stops loads (get_elem? items i))) [
    | inl e ↦ absurd (ground (arith, e, h, k))
    | inr e ↦ elim (nat_cases j i k) [
      | inl same ↦ subst (λ x. stops loads (get_elem? items x) ≡ false) (sym same) e
      | inr less ↦ chain_start-unbroken items i j (ground (arith, e, h)) less
    ]
  ]
    where
      nat_cases : (j i : ℕ) → j < suc i → (j ≡ i) ⊎ (j < i)
      nat_cases j i k = ground (arith, k)

  chain_start-bounded :
      (items : List Message) (n : ℕ)
      → (chain_start loads items n ≡ 0)
        ⊎ ((j : ℕ) × (chain_start loads items n ≡ suc j) × (stops loads (get_elem? items j) ≡ true))
  unfolding chain_start
  chain_start-bounded items zero = inl refl
  chain_start-bounded items (suc i) = elim (Bool-cases (stops loads (get_elem? items i))) [
    | inl e ↦ rw e (inr (i, refl, e))
    | inr e ↦ rw e (chain_start-bounded items i)
  ]

  Chain-Chain :
      (items : List Message) (i : ℕ) (p : Answer)
      → IsLast items i p
      → is_prior_assistant_clarification (some p) ≡ true
      → Chain items (chain_start loads items i)
  Chain-Chain items i p at c = record {
    last = i;
    payload = p;
    latest = at;
    asks = c;
    starts = chain_start-le items i;
    unbroken = λ j m lo hi at a.
        boundary_split m
          (subst (λ o. stops loads o ≡ false) at (chain_start-unbroken items i j lo hi)) a;
    bounded = chain_start-bounded items i;
  }

  same_payload : {p q : Answer} → some p ≡ some q → p ≡ q
  same_payload h = cc

  IsLast-unique :
      (items : List Message) (i k : ℕ) (p q : Answer) → IsLast items i p → IsLast items k q → p ≡ q
  IsLast-unique items i k p q a b = elim (three i k) [
    | inl less ↦ absurd (nothing (sym (a.1 k less) ∙ b.0))
    | inr (inl more) ↦ absurd (nothing (sym (b.1 i more) ∙ a.0))
    | inr (inr same) ↦ same_payload (sym a.0 ∙ ap (parsed_at items) same ∙ b.0)
  ]
    where
      three : (i k : ℕ) → (i < k) ⊎ ((k < i) ⊎ (i ≡ k))
      three i k = ground arith

      nothing : {p : Answer} → none ≡ some p → ⊥
      nothing h = ground arith

  -- A start is that of the chain of the last payload; without one, the last payload does not ask.
  abbrev pub Pending : List Message → Option ℕ → Type 0
  Pending items none =
      (i : ℕ) (p : Answer)
      → ¬ (IsLast items i p × (is_prior_assistant_clarification (some p) ≡ true))
  Pending items (some start) = Chain items start

  start_of-Pending :
      (items : List Message) (o : Option (ℕ × Answer))
      → Located items 0 o
      → Pending items (start_of loads items o)
  start_of-Pending items none h = λ i p q. ground (arith, h i, q.0.0)
  start_of-Pending items (some (i, p)) (n, same, at) =
      elim (Bool-cases (is_prior_assistant_clarification (some p))) [
        | inl c ↦
            rw c (Chain-Chain items i p (subst (λ k. IsLast items k p) (omega (arith, same)) at) c)
        | inr c ↦ rw c (λ k q r. ground (
          arith,
          r.1,
          c,
          ap (λ x. is_prior_assistant_clarification (some x)) (IsLast-unique items n k p q at r.0),
        ))
      ]

  -- the two loops stop at the same messages
  stops_alike : (o : Option Message) → window_stops loads o ≡ stops loads o
  stops_alike none = refl
  stops_alike (some m) = unfold is_boundary in ground arith

  starts_alike :
      (items : List Message) (n : ℕ) → window_start loads items n ≡ chain_start loads items n
  unfolding window_start chain_start
  starts_alike items zero = refl
  starts_alike items (suc i) = rw (stops_alike (get_elem? items i), starts_alike items i) refl

  take-drop : (k : ℕ) (xs : List Message) → take k xs ++ drop k xs ≡ xs
  take-drop zero xs = refl
  take-drop (suc k) [] = refl
  take-drop (suc k) (x ∷ xs) = ap (λ ys. x ∷ ys) (take-drop k xs)

  split_at :
      (items : List Message) (o : Option (ℕ × Answer))
      → history_before loads items (start_of loads items o) ++ window_of loads items o ≡ items
  split_at items none = append-nil items
  split_at items (some (i, p)) = elim (Bool-cases (is_prior_assistant_clarification (some p))) [
    | inl c ↦ rw (c, starts_alike items i) (take-drop (chain_start loads items i) items)
    | inr c ↦ rw c (append-nil items)
  ]

  -- A history is what is left without the pending clarification, and then its window: the two loops
  -- agree. There is a start exactly if the last payload of the assistant asks. Then no message of the
  -- assistant from the start to that payload is a terminal failure or anything but a clarification,
  -- and the chain starts with the history or after such a message.
  pub windows :
      (items : List Message)
      → (history_without_active_clarification_window loads items
            ++ active_clarification_window loads items
          ≡ items)
        × Pending items (active_clarification_window_start_index loads items)
  unfolding history_without_active_clarification_window active_clarification_window
      active_clarification_window_start_index last_assistant_payload_index
  windows items = (
    split_at items (payload_index_from loads 0 items),
    start_of-Pending items (payload_index_from loads 0 items) (payload_index-Located items 0),
  )
