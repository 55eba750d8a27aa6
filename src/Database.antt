-- ===== src/Database.antt =====
-- The session of a request with PostgreSQL: the statements that the program issues through
-- SQLAlchemy, and what it relies on of both. app/db/session_scope.py is in Scope, and
-- app/service/sql_executor.py in Executor.
pub mod Scope
pub mod Released
pub mod Executor
pub mod Reporting
pub mod Running
use conversational_copil.Prelude.{
  ℕ, String, ◌≡◌, ◌≢◌, ◌⊎◌, Bool, false, Option, none, some, List, if◌then◌else◌, is_text,
}
use conversational_copil.Payload.{Float, Value}

-- What a call raises: `asyncio.TimeoutError`, or another exception, by its text.
pub data Fault : Type 0 where
  timed_out : Fault
  failed : String → Fault

pub data Outcome (A : Type 0) : Type 0 where
  done : A → Outcome A
  fault : Fault → Outcome A

-- A step of an `async` function: what it returns or raises, and the session that it leaves.
abbrev pub Action : Type 0 → Type 0 → Type 0
Action S A = S → Outcome A × S

abbrev pub continue : {S A B : Type 0} → (A → Action S B) → Outcome A × S → Outcome B × S
continue f (done a, s) = f a s
continue f (fault e, s) = (fault e, s)

-- `x = await m` and then the rest, unless `m` raises
abbrev pub after : {S A B : Type 0} → Action S A → (A → Action S B) → Action S B
after m f s = continue f (m s)

-- The statements that set the session.
pub data Statement : Type 0 where
  reset_role : Statement
  set_local_role : String → Statement
  set_config : String → String → Statement
  set_search_path : List String → Statement
  set_statement_timeout : ℕ → Statement

-- A value of a row. A date is given by its `isoformat()`.
pub data Cell : Type 0 where
  decimal : Float → Cell
  date : String → Cell
  plain : Value → Cell

abbrev pub Row : Type 0
Row = List (String × Cell)

-- PostgreSQL under an `AsyncSession`. `S` is the session's state, with the database's.
-- `query` runs a generated statement, within the given number of seconds (`asyncio.wait_for`).
pub record Driver (S : Type 0) : Type 0 where
  pub execute : Statement → Action S Unit
  pub select_scope : Action S (String × Option String)
  pub query : ℕ → String → Action S (List Row)
  pub in_transaction : S → Bool
  pub rollback : Action S Unit
  pub savepoint : Action S Unit
  pub release_savepoint : Action S Unit
  pub rollback_to_savepoint : Action S Unit
  -- what the server holds for the session
  pub login_role : String
  pub current_user : S → String
  pub setting : S → String → Option String
  pub search_path : S → List String

-- `NULLIF(current_setting(name, true), '')`
abbrev pub null_if_empty : Option String → Option String
null_if_empty none = none
null_if_empty (some v) = if is_text v then some v else none

-- The settings that the program gives a session.
abbrev pub IsOwn : String → Type 0
IsOwn n = (n ≡ "app.principal_id") ⊎ (n ≡ "app.role_level")

-- The role, the program's settings and the search path of a session are those of another.
pub record SameScope {S : Type 0} (d : Driver S) (s t : S) : Type 0 where
  pub same_user : d.current_user t ≡ d.current_user s
  pub same_settings : (n : String) → IsOwn n → d.setting t n ≡ d.setting s n
  pub same_path : d.search_path t ≡ d.search_path s

-- What PostgreSQL documents, for a session that the program alone sets, of `SET LOCAL`, `set_config(.., true)`, `RESET ROLE`, `ROLLBACK` and
-- savepoints.
pub record DriverLaws {S : Type 0} (d : Driver S) : Type 0 where
  pub role_set :
      (r : String) (s t : S) (u : Unit)
      → d.execute (set_local_role r) s ≡ (done u, t)
      → d.current_user t ≡ r
  pub config_set :
      (n v : String) (s t : S) (u : Unit)
      → IsOwn n
      → d.execute (set_config n v) s ≡ (done u, t)
      → (d.current_user t ≡ d.current_user s)
        × (d.setting t n ≡ some v)
        × ((m : String) → IsOwn m → m ≢ n → d.setting t m ≡ d.setting s m)
  pub path_set :
      (p : List String) (s t : S) (u : Unit)
      → d.execute (set_search_path p) s ≡ (done u, t)
      → (d.current_user t ≡ d.current_user s)
        × ((m : String) → IsOwn m → d.setting t m ≡ d.setting s m)
        × (d.search_path t ≡ p)
  pub timeout_set :
      (n : ℕ) (s t : S) (u : Unit)
      → d.execute (set_statement_timeout n) s ≡ (done u, t)
      → SameScope d s t
  pub scope_read :
      (s t : S) (r : String) (l : Option String)
      → d.select_scope s ≡ (done (r, l), t)
      → (r ≡ d.current_user s)
        × (l ≡ null_if_empty (d.setting s "app.role_level"))
        × SameScope d s t
  pub role_reset :
      (s t : S) (u : Unit) → d.execute reset_role s ≡ (done u, t) → d.current_user t ≡ d.login_role
  -- a `RESET ROLE` that fails leaves the role
  pub reset_failed :
      (s t : S) (e : Fault)
      → d.execute reset_role s ≡ (fault e, t)
      → d.current_user t ≡ d.current_user s
  -- a local role lasts as long as its transaction
  pub role_local : (s : S) → d.in_transaction s ≡ false → d.current_user s ≡ d.login_role
  pub rolled_back :
      (s t : S) (u : Unit) → d.rollback s ≡ (done u, t) → d.current_user t ≡ d.login_role
  pub savepoint_set : (s t : S) (u : Unit) → d.savepoint s ≡ (done u, t) → SameScope d s t
  -- what a failed statement set after a savepoint is undone
  pub savepoint_restored :
      (s t x y : S) (u v : Unit) (n : ℕ) (q : String) (e : Fault)
      → d.savepoint s ≡ (done u, t)
      → d.query n q t ≡ (fault e, x)
      → d.rollback_to_savepoint x ≡ (done v, y)
      → SameScope d s y
