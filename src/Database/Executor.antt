-- ===== src/Database/Executor.antt =====
-- One generated statement against the database (app/service/sql_executor.py). Its spans and its usage
-- tracker are left out.
use conversational_copil.Prelude.{
  ℕ, ◌+◌, ◌*◌, max, String, ◌<>◌, false, none, some, List, [], ◌∷◌, map, if◌then◌else◌, str_eq, ltb,
  length, take, any, or_text, to_lower, contains, numeral,
}
use conversational_copil.Access.{Settings}
use conversational_copil.Payload.{Value, null, Items, nil, cons}
use conversational_copil.Graph.State.{RowsPayload}
use conversational_copil.Database.{
  Fault, timed_out, failed, Outcome, done, fault, Action, after, set_statement_timeout, Cell, Row,
  Driver,
}
use conversational_copil.Database.Scope.{assert_scope_active}

unfoldable pub json_safe : Cell → Value
json_safe (Cell.decimal f) = Value.float f
json_safe (Cell.date s) = Value.text s
json_safe (Cell.plain v) = v

-- `_json_safe(row.get(column))`
unfoldable pub get_cell : Row → String → Value
unfolding json_safe
get_cell [] column = null
get_cell ((k, x) ∷ row) column =
    let rest = get_cell row column in if str_eq k column then json_safe x else rest

-- `dict(row)`: a name has one entry, at its first place, with its last value
unfoldable pub put_cell : String → Cell → Row → Row
put_cell k x [] = (k, x) ∷ []
put_cell k x ((j, y) ∷ row) =
    let rest = put_cell k x row in if str_eq k j then (j, x) ∷ row else (j, y) ∷ rest

unfoldable pub dict_from : Row → Row → Row
unfolding put_cell
dict_from made [] = made
dict_from made ((k, x) ∷ row) = dict_from (put_cell k x made) row

abbrev pub dict_of : Row → Row
dict_of row = dict_from [] row

unfoldable pub items : List Value → Items
items [] = nil
items (v ∷ vs) = cons v (items vs)

unfoldable pub columns_of : Row → List String
columns_of [] = []
columns_of ((k, x) ∷ row) = k ∷ columns_of row

unfoldable pub data_row : List String → Row → Value
unfolding get_cell items
data_row columns row = Value.array (items (map (get_cell row) columns))

unfoldable pub normalize_pg_rows : List Row → RowsPayload
unfolding columns_of data_row items
normalize_pg_rows [] = record {
  columns = [];
  rows = nil;
  row_limit = none;
  truncated = false;
  error = none;
  raw_text = "no rows";
  truncation_note = none;
}
normalize_pg_rows (row ∷ rows) = record {
  columns = columns_of row;
  rows = items (map (data_row (columns_of row)) (row ∷ rows));
  row_limit = none;
  truncated = false;
  error = none;
  raw_text = "";
  truncation_note = none;
}

unfoldable pub with_row_cap : String → ℕ → String
unfolding numeral
with_row_cap sql row_cap =
    "SELECT * FROM (\n" <> (sql <> ("\n) AS _row_cap LIMIT " <> numeral (row_cap + 1)))

-- the tests of `classify_sql_error` in their order: any of these in the text, and what is said then
abbrev pub error_classes : List (List String × String)
error_classes =
    (
      "current transaction is aborted" ∷ "infailedsqltransactionerror" ∷ [],
      "A previous PostgreSQL statement failed and left the transaction aborted. Rollback the session before retrying the SQL.",
    )
    ∷ (
      "missing from-clause entry" ∷ "invalid reference to from-clause entry" ∷ [],
      "The SQL referenced a table column incorrectly. Use table alias.column format, not schema.table.column, after assigning an alias.",
    )
    ∷ (
      "does not exist" ∷ "undefinedcolumn" ∷ "undefinedtable" ∷ [],
      "The SQL referenced a missing table or column. Use exact table and column names from the glossary.",
    )
    ∷ ("syntax error" ∷ [], "The SQL has a PostgreSQL syntax problem. Fix the query structure.")
    ∷ (
      "operator does not exist" ∷ "invalid input syntax" ∷ "cannot cast" ∷ [],
      "The SQL has a type mismatch. Fix casting, comparison, or filter logic.",
    )
    ∷ (
      "permission denied" ∷ [],
      "The database user does not have permission to query one of the referenced tables.",
    )
    ∷ []

unfoldable pub first_class : String → List (List String × String) → String → String
unfolding any
first_class low [] default = default
first_class low ((needles, said) ∷ classes) default =
    let rest = first_class low classes default in if any (contains low) needles then said else rest

unfoldable pub classify_sql_error : String → String
unfolding to_lower first_class
classify_sql_error message =
    first_class (to_lower message) error_classes
      (or_text (some message) "Unknown SQL execution error.")

-- `settings.sql_timeout_seconds` and `settings.max_query_rows`
pub record Limits : Type 0 where
  pub sql_timeout_seconds : ℕ
  pub max_query_rows : ℕ

-- `max(1, int(settings.max_query_rows))`
abbrev pub row_cap : Limits → ℕ
row_cap l = max 1 l.max_query_rows

unfoldable pub truncation_note : ℕ → String
unfolding numeral
truncation_note cap =
    "Only the first "
    <> (numeral cap
        <> " rows are included; the query returned more. Narrow the period or the filters, or ask for a ranking, to see a complete result.")

-- the payload of the rows that were fetched, cut at the cap
unfoldable pub capped_payload : ℕ → List Row → RowsPayload
unfolding normalize_pg_rows truncation_note dict_from
capped_payload cap rows =
    let truncated = ltb cap (length rows) in
    record (normalize_pg_rows (map dict_of (if truncated then take cap rows else rows))) {
      row_limit = some cap;
      truncated = truncated;
      truncation_note = if truncated then some (truncation_note cap) else none;
    }

unfoldable pub error_payload : String → RowsPayload
error_payload message = record {
  columns = [];
  rows = nil;
  row_limit = none;
  truncated = false;
  error = some message;
  raw_text = "";
  truncation_note = none;
}

unfoldable pub timeout_message : Limits → String
unfolding numeral
timeout_message l =
    "SQL execution timed out after "
    <> (numeral l.sql_timeout_seconds
        <> " seconds. The generated query may be too expensive. Please simplify the query, add a period, or use a customer-level snapshot table when possible.")

-- what the two `except` clauses return
unfoldable pub fault_payload : Limits → Fault → RowsPayload
unfolding error_payload timeout_message
fault_payload l timed_out = error_payload (timeout_message l)
fault_payload l (failed message) = error_payload message

module _ {S : Type 0} (d : Driver S) where
  -- `async with db.begin_nested()` around the statement: an exception is raised again after the
  -- return to the savepoint
  abbrev pub raise_again : Fault → Outcome Unit × S → Outcome (List Row) × S
  raise_again e (done u, s) = (fault e, s)
  raise_again e (fault f, s) = (fault f, s)

  abbrev pub closing : Outcome (List Row) × S → Outcome (List Row) × S
  closing (done rows, s) = after d.release_savepoint (λ u t. (done rows, t)) s
  closing (fault e, s) = raise_again e (d.rollback_to_savepoint s)

  abbrev query_nested : Limits → String → Action S (List Row)
  query_nested l sql =
      after d.savepoint
        (λ u s. closing (d.query (l.sql_timeout_seconds + 5) (with_row_cap sql (row_cap l)) s))

  -- the body of the `try`
  unfoldable pub attempt_sql : Settings → Limits → String → Action S RowsPayload
  unfolding with_row_cap
  attempt_sql c l sql = after (assert_scope_active d c) (λ u.
      after (d.execute (set_statement_timeout (l.sql_timeout_seconds * 1000)))
        (λ u. after (query_nested l sql) (λ rows s. (done (capped_payload (row_cap l) rows), s))))

  abbrev pub recovered : Limits → Outcome RowsPayload × S → RowsPayload × S
  recovered l (done p, s) = (p, s)
  recovered l (fault e, s) = (fault_payload l e, s)

  unfoldable pub run_sql : Settings → Limits → String → S → RowsPayload × S
  unfolding attempt_sql
  run_sql c l sql s = recovered l (attempt_sql c l sql s)
