-- ===== src/Database/Reporting.antt =====
-- What a payload reports of the rows that the database gave, and the text of an error
-- (app/service/sql_executor.py).
use conversational_copil.Prelude.{
  contains, any, to_lower, or_text, ℕ, zero, suc, ◌<◌, min, inl, inr, String, ◌≡◌, ◌↔◌, refl, ap,
  ◌∙◌, sym, subst, Bool, true, false, ◌||◌, str_eq, eq_iff, elem_of, if◌then◌else◌, Option,
  Bool-cases, none, some, List, [], ◌∷◌, map, arith, length, take, ltb, is_text, All,
}
use conversational_copil.Payload.{Value, Items, nil, cons}
use conversational_copil.Graph.State.{RowsPayload}
use conversational_copil.Database.{Cell, Row}
use conversational_copil.Database.Executor.{
  error_classes, first_class, items, json_safe, get_cell, put_cell, dict_from, dict_of, columns_of,
  data_row, normalize_pg_rows, classify_sql_error, capped_payload,
}

first_class_text :
    (low : String) (classes : List (List String × String)) (default : String)
    → All (λ (c : List String × String). is_text c.1 ≡ true) classes
    → is_text default ≡ true
    → is_text (first_class low classes default) ≡ true
unfolding first_class
first_class_text low [] default h hd = hd
first_class_text low ((needles, said) ∷ classes) default h hd =
    elim (Bool-cases (any (contains low) needles)) [
      | inl e ↦ rw e h.0
      | inr e ↦ rw e (first_class_text low classes default h.1 hd)
    ]

default_text : (s : String) → is_text (or_text (some s) "Unknown SQL execution error.") ≡ true
default_text s = elim (Bool-cases (is_text s)) [ inl e ↦ rw (e, e) refl | inr e ↦ rw e refl ]

-- Whatever the database says, its error is classified as a text that is not empty.
pub error_text : (message : String) → is_text (classify_sql_error message) ≡ true
unfolding classify_sql_error
error_text message =
    first_class_text (to_lower message) error_classes _
      (refl, (refl, (refl, (refl, (refl, (refl, tt)))))) (default_text message)

-- the number of rows of a payload
abbrev pub count : Items → ℕ
count nil = 0
count (cons x xs) = suc (count xs)

-- a row with as many values as there are columns
abbrev HasWidth : ℕ → Value → Type 0
HasWidth n (Value.array xs) = count xs ≡ n
HasWidth n _ = ⊥

abbrev AllItems : (Value → Type 0) → Items → Type 0
AllItems P nil = Unit
AllItems P (cons x xs) = P x × AllItems P xs

count-items : (vs : List Value) → count (items vs) ≡ length vs
unfolding items
count-items [] = refl
count-items (v ∷ vs) = ap suc (count-items vs)

length-map : {A B : Type 0} (f : A → B) (xs : List A) → length (map f xs) ≡ length xs
length-map f [] = refl
length-map f (x ∷ xs) = ap suc (length-map f xs)

length-take : {A : Type 0} (n : ℕ) (xs : List A) → length (take n xs) ≡ min n (length xs)
length-take zero xs = omega arith
length-take (suc n) [] = omega arith
length-take (suc n) (x ∷ xs) = omega (arith, length-take n xs)

-- what a row says under a name: its last entry of that name
abbrev pub last_named : Row → String → Option Cell
last_named [] k = none
last_named ((j, x) ∷ row) k = elim (last_named row k) [
  | some y ↦ some y
  | none ↦ if str_eq j k then some x else none
]

abbrev pub value_of : Value → Option Cell → Value
value_of v none = v
value_of v (some x) = json_safe x

abbrev pub names : String → Row → Bool
names k [] = false
names k ((j, x) ∷ row) = str_eq k j || names k row

-- the names of the first row
abbrev pub is_named : String → List Row → Bool
is_named k [] = false
is_named k (row ∷ rows) = names k row

-- Each reported row has, for each column in its order, what the row that was fetched says of it, and
-- null where that says nothing.
abbrev pub Shows : List String → List Row → Items → Type 0
Shows columns [] nil = Unit
Shows columns (row ∷ rows) (cons v xs) =
    (v ≡ Value.array (items (map (λ k. value_of Value.null (last_named row k)) columns)))
    × Shows columns rows xs
Shows columns _ _ = ⊥

-- What the payload of a statement that returned `rows` reports of them.
pub record Reports (cap : ℕ) (rows : List Row) (p : RowsPayload) : Type 0 where
  pub counted : count p.rows ≡ min cap (length rows)
  pub marked : (p.truncated ≡ true) ↔ (cap < length rows)
  pub limit : p.row_limit ≡ some cap
  pub no_error : p.error ≡ none
  pub wide : AllItems (HasWidth (length p.columns)) p.rows
  pub named : (k : String) → elem_of k p.columns ≡ is_named k (take cap rows)
  pub shown : Shows p.columns (take cap rows) p.rows

get_cell-put :
    (k c : String) (x : Cell) (row : Row)
    → get_cell (put_cell k x row) c ≡ (if str_eq k c then json_safe x else get_cell row c)
unfolding get_cell put_cell
get_cell-put k c x [] = refl
get_cell-put k c x ((j, y) ∷ row) = elim (Bool-cases (str_eq k j)) [
  | inl e ↦ rw (e, sym ((eq_iff k j).0 e)) (ground arith)
  | inr e ↦ rw (e, get_cell-put k c x row) (ground (arith, e, eq_iff k j, eq_iff k c, eq_iff j c))
]

get_cell-dict :
    (made row : Row) (c : String)
    → get_cell (dict_from made row) c ≡ value_of (get_cell made c) (last_named row c)
unfolding dict_from
get_cell-dict made [] c = refl
get_cell-dict made ((k, x) ∷ row) c =
    get_cell-dict (put_cell k x made) row c ∙ latest (last_named row c)
  where
    latest :
        (o : Option Cell)
        → value_of (get_cell (put_cell k x made) c) o
          ≡ value_of
              (get_cell made c)
              (elim o [ some y ↦ some y | none ↦ if str_eq k c then some x else none ])
    latest (some y) = refl
    latest none =
        get_cell-put k c x made
        ∙ (elim (Bool-cases (str_eq k c)) [ inl e ↦ rw e refl | inr e ↦ rw e refl ])

elem_of-put :
    (k j : String) (x : Cell) (row : Row)
    → elem_of k (columns_of (put_cell j x row)) ≡ (str_eq k j || elem_of k (columns_of row))
unfolding elem_of columns_of put_cell
elem_of-put k j x [] = refl
elem_of-put k j x ((i, y) ∷ row) = elim (Bool-cases (str_eq j i)) [
  | inl e ↦ rw (e, sym ((eq_iff j i).0 e)) (ground arith)
  | inr e ↦ rw (e, elem_of-put k j x row) (ground arith)
]

elem_of-dict :
    (made row : Row) (k : String)
    → elem_of k (columns_of (dict_from made row)) ≡ (elem_of k (columns_of made) || names k row)
unfolding dict_from
elem_of-dict made [] k = ground arith
elem_of-dict made ((j, x) ∷ row) k =
    elem_of-dict (put_cell j x made) row k ∙ rw (elem_of-put k j x made) (ground arith)

wide_rows :
    (columns : List String) (rows : List Row)
    → AllItems (HasWidth (length columns)) (items (map (data_row columns) rows))
unfolding items data_row
wide_rows columns [] = tt
wide_rows columns (row ∷ rows) = (count-items _ ∙ length-map _ columns, wide_rows columns rows)

shown_rows :
    (columns : List String) (rows : List Row)
    → Shows columns rows (items (map (data_row columns) (map dict_of rows)))
unfolding items data_row
shown_rows columns [] = tt
shown_rows columns (row ∷ rows) =
    ((λ i. Value.array (items (map (λ k. said k i) columns))), shown_rows columns rows)
  where
    said : (k : String) → get_cell (dict_of row) k ≡ value_of Value.null (last_named row k)
    said k = unfold get_cell in get_cell-dict [] row k

-- A payload of rows that reports them all.
record Normal (rows : List Row) (p : RowsPayload) : Type 0 where
  counted : count p.rows ≡ length rows
  no_error : p.error ≡ none
  wide : AllItems (HasWidth (length p.columns)) p.rows
  named : (k : String) → elem_of k p.columns ≡ is_named k rows
  shown : Shows p.columns rows p.rows

normalized : (rows : List Row) → Normal rows (normalize_pg_rows (map dict_of rows))
unfolding normalize_pg_rows
normalized [] = record {
  counted = refl;
  no_error = refl;
  wide = tt;
  named = λ k. unfold elem_of in refl;
  shown = tt;
}
normalized (row ∷ rows) = record {
  counted =
      count-items (map (data_row (columns_of (dict_of row))) (map dict_of (row ∷ rows)))
      ∙ length-map (data_row (columns_of (dict_of row))) (map dict_of (row ∷ rows))
      ∙ length-map dict_of (row ∷ rows);
  no_error = refl;
  wide = wide_rows (columns_of (dict_of row)) (map dict_of (row ∷ rows));
  named = λ k. unfold elem_of columns_of in elem_of-dict [] row k;
  shown = shown_rows (columns_of (dict_of row)) (row ∷ rows);
}

take-all : (n : ℕ) (rows : List Row) → ltb n (length rows) ≡ false → rows ≡ take n rows
take-all zero [] h = refl
take-all zero (x ∷ xs) h = absurd (ground (arith, h))
take-all (suc n) [] h = refl
take-all (suc n) (x ∷ xs) h = ap (λ ys. x ∷ ys) (take-all n xs (ground (arith, h)))

capped_Normal :
    (cap : ℕ) (rows : List Row)
    → Normal
        (take cap rows)
        (normalize_pg_rows (map dict_of (if ltb cap (length rows) then take cap rows else rows)))
capped_Normal cap rows = elim (Bool-cases (ltb cap (length rows))) [
  | inl e ↦ rw e (normalized (take cap rows))
  | inr e ↦
      subst
        (λ b.
          Normal (take cap rows)
            (normalize_pg_rows (map dict_of (if b then take cap rows else rows))))
        (sym e)
        (subst (λ ys. Normal ys (normalize_pg_rows (map dict_of rows))) (take-all cap rows e)
          (normalized rows))
]

pub capped-Reports : (cap : ℕ) (rows : List Row) → Reports cap rows (capped_payload cap rows)
unfolding capped_payload
capped-Reports cap rows =
    let n = capped_Normal cap rows in
    record {
      counted = n.counted ∙ length-take cap rows;
      marked = ground arith;
      limit = refl;
      no_error = n.no_error;
      wide = n.wide;
      named = n.named;
      shown = n.shown;
    }
