-- ===== src/Metrics/Ties.antt =====
-- The metric that is preferred does not depend on the order in which the keys were loaded.
use mathlib.Core.List.{Permᴰ}
use conversational_copil.Prelude.{
  String, ◌≡◌, refl, sym, ◌∙◌, ap, ap₂, inl, inr, Bool, true, false, ◌||◌, Bool-cases, List, [],
  ◌∷◌, arith, if◌then◌else◌, elem_of, str_eq, eq_iff, text_le, le_total, le_trans, le_antisym,
}
use conversational_copil.Resolving.{add_text}
use conversational_copil.Resolving.Questions.{insert_text, sort_texts}
use conversational_copil.Metrics.{MetricService, set_of, first_money, first_key, or_first, prefer}

elem_of-insert :
    (z x : String) (ks : List String) → elem_of z (insert_text x ks) ≡ (str_eq z x || elem_of z ks)
unfolding insert_text elem_of
elem_of-insert z x [] = refl
elem_of-insert z x (k ∷ ks) = elim (Bool-cases (text_le x k)) [
  | inl e ↦ rw e refl
  | inr e ↦ rw (e, elem_of-insert z x ks) (ground arith)
]

elem_of-sort : (z : String) (ks : List String) → elem_of z (sort_texts ks) ≡ elem_of z ks
unfolding sort_texts elem_of
elem_of-sort z [] = refl
elem_of-sort z (k ∷ ks) =
    elem_of-insert z k (sort_texts ks) ∙ ap (λ b. str_eq z k || b) (elem_of-sort z ks)

insert-le :
    (x k : String) (ks : List String) → text_le x k ≡ true → insert_text x (k ∷ ks) ≡ x ∷ k ∷ ks
unfolding insert_text
insert-le x k ks e = rw e refl

insert-gt :
    (x k : String) (ks : List String)
    → text_le x k ≡ false
    → insert_text x (k ∷ ks) ≡ k ∷ insert_text x ks
unfolding insert_text
insert-gt x k ks e = rw e refl

-- Where one of two is before the head, and it before the other, both orders insert them alike.
insert-first :
    (x y k : String) (ks : List String)
    → text_le x k ≡ true
    → text_le y k ≡ false
    → insert_text x (insert_text y (k ∷ ks)) ≡ insert_text y (insert_text x (k ∷ ks))
insert-first x y k ks e f =
    ap (insert_text x) (insert-gt y k ks f)
    ∙ insert-le x k (insert_text y ks) e
    ∙ sym (
        ap (insert_text y) (insert-le x k ks e)
        ∙ insert-gt y x (k ∷ ks) (ground (arith, e, f, le_trans y x k))
        ∙ ap (λ ls. x ∷ ls) (insert-gt y k ks f))

-- Two texts are put in front of a list that neither is after in one order only.
insert_pair :
    (x y : String) (ks : List String)
    → insert_text x (y ∷ ks) ≡ x ∷ y ∷ ks
    → insert_text y (x ∷ ks) ≡ x ∷ insert_text y ks
    → insert_text y ks ≡ y ∷ ks
    → insert_text x (y ∷ ks) ≡ insert_text y (x ∷ ks)
insert_pair x y ks a b c = a ∙ sym (b ∙ ap (λ ls. x ∷ ls) c)

-- Two texts that both come before the rest are put before it in one order only.
insert_two :
    (x y : String) (ks : List String)
    → insert_text x ks ≡ x ∷ ks
    → insert_text y ks ≡ y ∷ ks
    → insert_text x (y ∷ ks) ≡ insert_text y (x ∷ ks)
insert_two x y ks p q = elim (Bool-cases (text_le x y)) [
  | inl e ↦ elim (Bool-cases (text_le y x)) [
    | inl f ↦ ap₂ (λ a b. insert_text a (b ∷ ks)) (le_antisym x y e f) (le_antisym y x f e)
    | inr f ↦ insert_pair x y ks (insert-le x y ks e) (insert-gt y x ks f) q
  ]
  | inr e ↦ sym (insert_pair y x ks (insert-le y x ks (le_total x y e)) (insert-gt x y ks e) p)
]

insert_comm :
    (x y : String) (ks : List String)
    → insert_text x (insert_text y ks) ≡ insert_text y (insert_text x ks)
insert_comm x y [] = unfold insert_text in insert_two x y [] refl refl
insert_comm x y (k ∷ ks) = elim (Bool-cases (text_le x k)) [
  | inl e ↦ elim (Bool-cases (text_le y k)) [
    | inl f ↦
        ap (insert_text x) (insert-le y k ks f)
        ∙ insert_two x y (k ∷ ks) (insert-le x k ks e) (insert-le y k ks f)
        ∙ ap (insert_text y) (sym (insert-le x k ks e))
    | inr f ↦ insert-first x y k ks e f
  ]
  | inr e ↦ elim (Bool-cases (text_le y k)) [
    | inl f ↦ sym (insert-first y x k ks f e)
    | inr f ↦
        ap (insert_text x) (insert-gt y k ks f)
        ∙ insert-gt x k (insert_text y ks) e
        ∙ ap (λ ls. k ∷ ls) (insert_comm x y ks)
        ∙ sym (ap (insert_text y) (insert-gt x k ks e) ∙ insert-gt y k (insert_text x ks) f)
  ]
]

abbrev put : String → List String → List String
put x ks = if elem_of x ks then ks else insert_text x ks

-- the distinct keys, in order
abbrev ordered : List String → List String
ordered ks = sort_texts (set_of ks)

ordered-cons : (x : String) (ks : List String) → ordered (x ∷ ks) ≡ put x (ordered ks)
unfolding set_of add_text sort_texts
ordered-cons x ks = elim (Bool-cases (elem_of x (set_of ks))) [
  | inl e ↦ rw (elem_of-sort x (set_of ks), e) refl
  | inr e ↦ rw (elem_of-sort x (set_of ks), e) refl
]

put_new : (x : String) (ks : List String) → elem_of x ks ≡ false → put x ks ≡ insert_text x ks
put_new x ks e = rw e refl

put_old : (x : String) (ks : List String) → elem_of x ks ≡ true → put x ks ≡ ks
put_old x ks e = rw e refl

-- A text that is there already is there after another one is put.
put-there :
    (x y : String) (ks : List String) → elem_of x ks ≡ true → put x (put y ks) ≡ put y (put x ks)
put-there x y ks e = elim (Bool-cases (elem_of y ks)) [
  | inl f ↦
      ap (put x) (put_old y ks f)
      ∙ put_old x ks e
      ∙ sym (ap (put y) (put_old x ks e) ∙ put_old y ks f)
  | inr f ↦
      ap (put x) (put_new y ks f)
      ∙ put_old x (insert_text y ks) (elem_of-insert x y ks ∙ ground (arith, e))
      ∙ sym (ap (put y) (put_old x ks e) ∙ put_new y ks f)
]

put_comm : (x y : String) (ks : List String) → put x (put y ks) ≡ put y (put x ks)
put_comm x y ks = elim (Bool-cases (elem_of x ks)) [
  | inl e ↦ put-there x y ks e
  | inr e ↦ elim (Bool-cases (elem_of y ks)) [
    | inl f ↦ sym (put-there y x ks f)
    | inr f ↦ elim (Bool-cases (str_eq x y)) [
      | inl g ↦ ap₂ (λ a b. put a (put b ks)) ((eq_iff x y).0 g) (sym ((eq_iff x y).0 g))
      | inr g ↦
          ap (put x) (put_new y ks f)
          ∙ put_new x (insert_text y ks) (elem_of-insert x y ks ∙ ground (arith, e, g))
          ∙ insert_comm x y ks
          ∙ sym (
              ap (put y) (put_new x ks e)
              ∙ put_new y (insert_text x ks)
                  (elem_of-insert y x ks ∙ ground (arith, f, g, eq_iff x y, eq_iff y x)))
    ]
  ]
]

ordered-Perm : {ks js : List String} → Permᴰ ks js → ordered ks ≡ ordered js
ordered-Perm Permᴰ.nil = refl
ordered-Perm (Permᴰ.cons {a} {b} {l₁} {l₂} e d) =
    ordered-cons a l₁ ∙ ap₂ put e (ordered-Perm d) ∙ sym (ordered-cons b l₂)
ordered-Perm (Permᴰ.swap {a} {b} {a'} {b'} {l} e f) =
    ordered-cons a (b ∷ l)
    ∙ ap (put a) (ordered-cons b l)
    ∙ put_comm a b (ordered l)
    ∙ ap₂ (λ x y. put x (put y (ordered l))) f e
    ∙ sym (ordered-cons a' (b' ∷ l) ∙ ap (put a') (ordered-cons b' l))
ordered-Perm (Permᴰ.trans c d) = ordered-Perm c ∙ ordered-Perm d

-- Of keys that are tied the same one is preferred in whatever order they come.
pub prefer-Perm :
    (r : MetricService) (prefer_money : Bool) (ks js : List String)
    → Permᴰ ks js
    → prefer r prefer_money ks ≡ prefer r prefer_money js
unfolding prefer
prefer-Perm r b ks js d =
    ap (λ ls. if b then or_first (first_money r ls) ls else first_key ls) (ordered-Perm d)
