-- ===== src/Graph/History.antt =====
-- The history that a turn leaves (`save_turn`), as the next turn reads it.
use mathlib.Core.List.{reverse_aux}
use conversational_copil.Prelude.{
  ℕ, zero, suc, ◌+◌, ◌-◌, ◌≤◌, String, ◌≡◌, refl, sym, ap, ◌∙◌, Option, none, some, List, [], ◌∷◌,
  ◌++◌, subst, if◌then◌else◌, truthy, is_text, arith, length, drop, length-append, length-drop,
}
use conversational_copil.Graph.State.{Answer, Message, Role, CopilotState}
use conversational_copil.Graph.Agents.{Services}
use conversational_copil.Graph.Flow.Retries.{Returns}
use conversational_copil.Graph.Deps.{Deps, last, first_payload, parse_last_assistant_payload}
use conversational_copil.Graph.Context.{
  save_turn, with_ids, default_policies, user_message, history_limit,
}

module _ {ℓ} {A : Type ℓ} where
  drop-append : (n : ℕ) (xs ys : List A) → n ≤ length xs → drop n (xs ++ ys) ≡ drop n xs ++ ys
  drop-append zero xs ys h = refl
  drop-append (suc n) [] ys h = absurd (omega arith)
  drop-append (suc n) (x ∷ xs) ys h = drop-append n xs ys (omega arith)

  last-drop : (n : ℕ) (xs : List A) → 1 ≤ n → last n xs ≡ drop (length xs - n) xs
  unfolding last
  last-drop n xs h = ground arith

  -- The last entries of a list end as the list does.
  last-snoc :
      (n : ℕ) (xs : List A) (x : A)
      → 1 ≤ n
      → last n (xs ++ (x ∷ [])) ≡ drop (length xs + 1 - n) xs ++ (x ∷ [])
  last-snoc n xs x h =
      rw (last-drop n (xs ++ (x ∷ [])) h, length-append xs (x ∷ []))
        (drop-append (length xs + 1 - n) xs (x ∷ []) (omega arith))

  length-last : (n : ℕ) (xs : List A) → 1 ≤ n → length (last n xs) ≤ n
  length-last n xs h = rw (last-drop n xs h, length-drop (length xs - n) xs) (omega arith)

module _ {ℓ} {A : Type ℓ} where
  reverse_aux-append :
      (xs ys acc : List A) → reverse_aux (xs ++ ys) acc ≡ reverse_aux ys (reverse_aux xs acc)
  reverse_aux-append [] ys acc = refl
  reverse_aux-append (x ∷ xs) ys acc = reverse_aux-append xs ys (x ∷ acc)

-- An assistant's message at the end of the history is the one that is read.
parse-snoc :
    (loads : String → Option Answer) (ms : List Message) (content : String) (a : Answer)
    → loads content ≡ some a
    → parse_last_assistant_payload loads
        (ms ++ (record { role = Role.assistant; content = content } ∷ []))
      ≡ some a
unfolding parse_last_assistant_payload first_payload
parse-snoc loads ms content a h =
    rw (reverse_aux-append ms (record { role = Role.assistant; content = content } ∷ []) [], h) refl

abbrev pub saved_message : Services → Answer → Message
saved_message v a = record { role = Role.assistant; content = v.dumps a }

-- An id of a message: the answer's own, or else the turn's, if that is not empty.
abbrev pub IsIdOf : Option String → Option String → Option String → Type 0
IsIdOf (some own) turn x = x ≡ some own
IsIdOf none turn x = x ≡ (if truthy turn then turn else none)

-- `b` is `a` with its ids.
pub record Identified (s : CopilotState) (a b : Answer) : Type 0 where
  pub thread : IsIdOf a.thread_id (some s.thread_id) b.thread_id
  pub request : IsIdOf a.request_id s.request_id b.request_id
  pub same : b ≡ record a { thread_id = b.thread_id; request_id = b.request_id }

-- What a turn that has been saved holds: an answer, and a history within its limit that ends with
-- that answer and the turn's ids.
pub record Saved (d : Deps) (s : CopilotState) : Type 0 where
  pub answer : Answer
  pub held : s.result ≡ some answer
  pub bounded : length s.history ≤ history_limit d.settings
  pub earlier : List Message
  pub message : Answer
  pub identified : Identified s answer message
  pub written : s.history ≡ earlier ++ (saved_message d.services message ∷ [])

thread_given :
    (o : Option String) (t : String)
    → IsIdOf o (some t) (elim o [ none ↦ (if is_text t then some t else none) | some x ↦ some x ])
thread_given none t = refl
thread_given (some x) t = refl

request_given :
    (o r : Option String)
    → IsIdOf o r (elim o [ none ↦ (if truthy r then r else none) | some x ↦ some x ])
request_given none r = refl
request_given (some x) r = refl

pub with_ids-Identified : (s : CopilotState) (a : Answer) → Identified s a (with_ids s a)
with_ids-Identified s a = record {
  thread = thread_given a.thread_id s.thread_id;
  request = request_given a.request_id s.request_id;
  same = refl;
}

-- The ids leave no choice.
IsIdOf-unique : (o turn x y : Option String) → IsIdOf o turn x → IsIdOf o turn y → x ≡ y
IsIdOf-unique none turn x y h g = h ∙ sym g
IsIdOf-unique (some own) turn x y h g = h ∙ sym g

Identified-unique :
    (s : CopilotState) (a b c : Answer) → Identified s a b → Identified s a c → b ≡ c
Identified-unique s a b c f g =
    f.same
    ∙ (λ i. record a {
      thread_id =
          IsIdOf-unique a.thread_id (some s.thread_id) b.thread_id c.thread_id f.thread g.thread i;
      request_id =
          IsIdOf-unique a.request_id s.request_id b.request_id c.request_id f.request g.request i;
    })
    ∙ sym g.same

pub save_turn-Saved :
    (d : Deps) (s : CopilotState) (a : Answer)
    → s.result ≡ some a
    → Returns (Saved d) (save_turn d s)
unfolding save_turn
save_turn-Saved d s a h = rw h (record {
  answer = default_policies s a;
  held = refl;
  bounded = length-last (history_limit d.settings) _ (omega arith);
  earlier = _;
  message = with_ids s (default_policies s a);
  identified = with_ids-Identified _ (default_policies s a);
  written = last-snoc (history_limit d.settings) (s.history ++ user_message s) _ (omega arith);
})

answer_or : Answer → Option Answer → Answer
answer_or a none = a
answer_or a (some b) = b

same_answer : {a b : Answer} → some a ≡ some b → a ≡ b
unfolding answer_or
same_answer {a} p = ap (answer_or a) p

-- The last entries of a list that ends with an entry end with it.
last-ends :
    {A : Type 0} (n : ℕ) (xs : List A) (x : A)
    → (ys : List A) × (last n (xs ++ (x ∷ [])) ≡ ys ++ (x ∷ []))
last-ends zero xs x = (xs, unfold last in refl)
last-ends (suc n) xs x = (_, last-snoc (suc n) xs x (omega arith))

-- What is saved is what is read of the last entries, if it loads.
pub Saved-parse :
    (d : Deps) (s : CopilotState) (saved : Saved d s) (a b : Answer)
    → s.result ≡ some a
    → Identified s a b
    → d.services.loads (d.services.dumps b) ≡ some b
    → parse_last_assistant_payload d.services.loads (last d.settings.chat_history_limit s.history)
      ≡ some b
Saved-parse d s saved a b held ids h =
    let same : saved.message ≡ b =
      Identified-unique s a saved.message b
        (subst (λ x. Identified s x saved.message) (same_answer (sym saved.held ∙ held))
          saved.identified)
        ids in
    let ends = last-ends d.settings.chat_history_limit saved.earlier (saved_message d.services b) in
    ap (λ ms. parse_last_assistant_payload d.services.loads (last d.settings.chat_history_limit ms))
      (saved.written ∙ ap (λ x. saved.earlier ++ (saved_message d.services x ∷ [])) same)
    ∙ ap (parse_last_assistant_payload d.services.loads) ends.1
    ∙ parse-snoc d.services.loads ends.0 _ b h
