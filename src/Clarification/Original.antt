-- ===== src/Clarification/Original.antt =====
-- Where the query of a followup comes from.
use mathlib.Core.List.{reverse, reverse_aux}
use conversational_copil.Prelude.{
  ℕ, zero, suc, String, ◌<>◌, ◌≡◌, ◌⊎◌, inl, inr, refl, subst, Bool, true, false, not, ◌&&◌,
  Bool-cases, Option, none, some, List, [], ◌∷◌, arith, if◌then◌else◌, take, is_text, join,
}
use conversational_copil.Wording.{clean_text_value, is_confirmation_text}
use conversational_copil.Graph.State.{Answer, Message}
use conversational_copil.Clarification.{
  is_prior_assistant_clarification, is_assistant, last_assistant_payload_index,
  active_clarification_window,
}
use conversational_copil.Clarification.Wordings.{looks_like_short_clarification_answer}
use conversational_copil.Clarification.Followup.{
  Selected, Sources, is_question, first_said, or_said, original_in, marker, answer_of, before_last,
  find_original_user_query_for_clarification, has_numbered_lookup_options,
  mentions_lookup_backed_field, Built, unselected, with_selected, with_original, is_reply,
  build_clarification_followup_query,
}

abbrev pub InHistory : Message → List Message → Type 0
InHistory m [] = ⊥
InHistory m (x ∷ xs) = (m ≡ x) ⊎ InHistory m xs

in_reverse_aux :
    (m : Message) (xs acc : List Message)
    → InHistory m (reverse_aux xs acc)
    → InHistory m xs ⊎ InHistory m acc
in_reverse_aux m [] acc h = inr h
in_reverse_aux m (x ∷ xs) acc h = elim (in_reverse_aux m xs (x ∷ acc) h) [
  | inl t ↦ inl (inr t)
  | inr t ↦ elim t [ inl e ↦ inl (inl e) | inr u ↦ inr u ]
]

in_reverse : (m : Message) (xs : List Message) → InHistory m (reverse xs) → InHistory m xs
in_reverse m xs h = elim (in_reverse_aux m xs [] h) [ inl t ↦ t | inr t ↦ absurd t ]

in_take : (m : Message) (n : ℕ) (xs : List Message) → InHistory m (take n xs) → InHistory m xs
in_take m zero xs h = absurd h
in_take m (suc n) [] h = h
in_take m (suc n) (x ∷ xs) (inl e) = inl e
in_take m (suc n) (x ∷ xs) (inr t) = inr (in_take m n xs t)

-- A user's message of these that says `q`, and is not a line that the program added.
pub record Said (ms : List Message) (q : String) : Type 0 where
  pub message : Message
  pub listed : InHistory message ms
  pub by_user : is_assistant message.role ≡ false
  pub text : clean_text_value message.content ≡ q
  pub question : is_question q ≡ true

Said-later : (m : Message) (ms : List Message) (q : String) → Said ms q → Said (m ∷ ms) q
Said-later m ms q s = record {
  message = s.message;
  listed = inr s.listed;
  by_user = s.by_user;
  text = s.text;
  question = s.question;
}

and_split : (a b c : Bool) → (not a && (b && c)) ≡ true → (a ≡ false) × (b ≡ true)
and_split a b c h = ground arith

first_said-Said :
    (passes : String → Bool) (ms : List Message) (q : String)
    → first_said passes ms ≡ some q
    → Said ms q
unfolding first_said
first_said-Said passes [] q h = absurd (ground arith)
first_said-Said passes (m ∷ ms) q h =
    elim (Bool-cases (
      not (is_assistant m.role)
      && (is_question (clean_text_value m.content) && passes (clean_text_value m.content)))) [
        | inl e ↦
            let same : clean_text_value m.content ≡ q = some_inj (
              subst
                (λ b.
                  (if b then some (clean_text_value m.content) else first_said passes ms) ≡ some q)
                e h) in
            let parts = and_split (is_assistant m.role) _ _ e in
            record {
              message = m;
              listed = inl refl;
              by_user = parts.0;
              text = same;
              question = subst (λ t. is_question t ≡ true) same parts.1;
            }
        | inr e ↦ Said-later m ms q (
            first_said-Said passes ms q (
              subst
                (λ b.
                  (if b then some (clean_text_value m.content) else first_said passes ms) ≡ some q)
                e h))
      ]
  where
    some_inj : {s t : String} → some s ≡ some t → s ≡ t
    some_inj h = ground arith

or_split : (a b : Option String) (q : String) → or_said a b ≡ some q → (a ≡ some q) ⊎ (b ≡ some q)
or_split none b q h = inr h
or_split (some p) b q h = inl h

original_in-Said : (ms : List Message) (q : String) → original_in ms ≡ some q → Said ms q
unfolding original_in
original_in-Said ms q h =
    elim (or_split (first_said (λ t. not (looks_like_short_clarification_answer t)) ms)
      (first_said (λ t. true) ms) q h) [
        | inl e ↦ first_said-Said (λ t. not (looks_like_short_clarification_answer t)) ms q e
        | inr e ↦ first_said-Said (λ t. true) ms q e
      ]

within_window :
    (ms all : List Message) (q : String)
    → ((m : Message) → InHistory m ms → InHistory m all)
    → Said ms q
    → Said all q
within_window ms all q f s = record {
  message = s.message;
  listed = f s.message s.listed;
  by_user = s.by_user;
  text = s.text;
  question = s.question;
}

in_before :
    (items : List Message) (o : Option (ℕ × Answer)) (m : Message)
    → InHistory m (reverse (before_last items o))
    → InHistory m items
in_before items none m h = absurd h
in_before items (some (i, p)) m h = in_take m i items (in_reverse m (take i items) h)

original-Said :
    (loads : String → Option Answer) (history : List Message) (q : String)
    → find_original_user_query_for_clarification loads history ≡ some q
    → Said (active_clarification_window loads history) q
unfolding find_original_user_query_for_clarification
original-Said loads history q h =
    within_window _ (active_clarification_window loads history) q
      (in_before (active_clarification_window loads history)
        (last_assistant_payload_index loads (active_clarification_window loads history)))
      (original_in-Said _ q h)

-- What is made of a reply `q` in the message `current`: a followup is the original query, then a new
-- line with what the program added; else it is the message, or its stripped text.
abbrev pub Continues : String → String → Option String → Built → Type 0
Continues current q original (text, followup, reason) =
    (followup ≡ true
      → (o : String) × (original ≡ some o)
        × ((rest : String) × (text ≡ o <> ("\n" <> rest)))
        × ((r : String) × (reason ≡ some r)))
    × (followup ≡ false → ((text ≡ current) ⊎ (text ≡ q)) × (reason ≡ none))

continued :
    (current q o rest r : String) → Continues current q (some o) (o <> ("\n" <> rest), true, some r)
continued current q o rest r =
    ((λ h. (o, refl, (rest, refl), (r, refl))), λ h. absurd (ground arith))

left_alone :
    (current q text : String) (original : Option String)
    → (text ≡ current) ⊎ (text ≡ q)
    → Continues current q original (text, false, none)
left_alone current q text original h = ((λ e. absurd (ground arith)), λ e. (h, refl))

unselected-Continues :
    (v : Sources) (current q o : String) (p : Option Answer)
    → Continues current q (some o) (unselected v q p o)
unselected-Continues v current q o p =
    elim (Bool-cases (is_confirmation_text q && has_numbered_lookup_options p)) [
      | inl e ↦ rw e (continued current q o _ _)
      | inr e ↦ rw e (elim (Bool-cases (is_confirmation_text q)) [
        | inl f ↦ rw f (
            continued current q o
              (marker
                <> " User confirmed the pending clarification. Proceed with the already clarified request.")
              "User confirmed pending clarification; proceed to SQL planning.")
        | inr f ↦ rw f (elim (Bool-cases (mentions_lookup_backed_field v.lookup_fields q)) [
          | inl g ↦ rw g (left_alone current q q (some o) (inr refl))
          | inr g ↦ rw g (continued current q o _ _)
        ])
      ])
    ]

with_selected-Continues :
    (v : Sources) (current q o : String) (p : Option Answer) (s : Option Selected)
    → Continues current q (some o) (with_selected v q p o s)
unfolding join
with_selected-Continues v current q o p none = unselected-Continues v current q o p
with_selected-Continues v current q o p (some x) = elim (Bool-cases (is_text x.value)) [
  | inl e ↦ rw e (continued current q o _ _)
  | inr e ↦ rw e (unselected-Continues v current q o p)
]

with_original-Continues :
    (v : Sources) (current q : String) (p : Option Answer) (o : Option String)
    → Continues current q o (with_original v current q p o)
with_original-Continues v current q p none = left_alone current q current none (inl refl)
with_original-Continues v current q p (some o) = elim (Bool-cases (is_text o)) [
  | inl e ↦
      rw e
        (with_selected-Continues v current q o p (v.extract_selected_lookup_option (answer_of p) q))
  | inr e ↦ rw e (left_alone current q current (some o) (inl refl))
]

-- What a reply to the pending clarification is made into: the question that the user asked in the
-- active chain, with what the program adds in further lines; or else the message as it is or stripped.
pub record FollowsUp (v : Sources) (current : String) (history : List Message)
    (previous : Option Answer) (b : Built) : Type 0 where
  pub merged :
      b.1 ≡ true
      → (is_prior_assistant_clarification previous ≡ true)
        × (o : String) × Said (active_clarification_window v.loads history) o
        × ((rest : String) × (b.0 ≡ o <> ("\n" <> rest)))
        × ((r : String) × (b.2 ≡ some r))
  pub alone : b.1 ≡ false → ((b.0 ≡ current) ⊎ (b.0 ≡ clean_text_value current)) × (b.2 ≡ none)

made_from :
    (v : Sources) (current : String) (history : List Message) (previous : Option Answer)
    → is_prior_assistant_clarification previous ≡ true
    → (b : Built)
    → Continues current
        (clean_text_value current)
        (find_original_user_query_for_clarification v.loads history)
        b
    → FollowsUp v current history previous b
made_from v current history previous h b c = record {
  merged = λ t.
      let (o, found, rest, r) = c.0 t in (h, o, original-Said v.loads history o found, rest, r);
  alone = c.1;
}

-- build_clarification_followup_query on any message, history and payload: it makes a followup only
-- where the payload is a clarification, out of a question that the user asked in the window of the
-- pending clarification, which comes first, unchanged, and says why; where it makes none the query
-- is the message, as it is or stripped.
pub followups :
    (v : Sources) (current : String) (history : List Message) (previous : Option Answer)
    → FollowsUp v current history previous
        (build_clarification_followup_query v current history previous)
unfolding build_clarification_followup_query
followups v current history previous =
    elim (Bool-cases
      (is_prior_assistant_clarification previous && is_reply (clean_text_value current))) [
        | inl e ↦ rw e (
            made_from v current history previous (left_of _ _ e) _ (
              with_original-Continues v current (clean_text_value current) previous
                (find_original_user_query_for_clarification v.loads history)))
        | inr e ↦
            rw e (record { merged = λ t. absurd (ground arith); alone = λ t. (inl refl, refl) })
      ]
  where
    left_of : (a b : Bool) → (a && b) ≡ true → a ≡ true
    left_of a b h = ground arith
