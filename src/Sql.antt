-- ===== src/Sql.antt =====
-- How the program runs SQL (`database/sql`): statements that may fail, and transactions. A session
-- holds the tables, the outcome of each statement to come, and the clock. Each statement, `BEGIN`
-- and `COMMIT` included, takes one outcome: `some` is the driver's error. The clock stands still
-- while one handler or one worker step runs.
mod Action
pub mod Laws
pub mod Keeps
pub mod Atomic
pub mod Ensures
unfoldable pub use Action.*
use pve_manage.Prelude.{ℕ, Option, none, some, List, [], ◌∷◌}
use pve_manage.Text.{Text}

pub record Session (D : Type 0) : Type 0 where
  pub db : D
  pub faults : List (Option Text)
  pub now : ℕ

abbrev pub next_fault : List (Option Text) → Option Text
next_fault [] = none
next_fault (f ∷ fs) = f

abbrev pub later_faults : List (Option Text) → List (Option Text)
later_faults [] = []
later_faults (f ∷ fs) = fs

abbrev pub outcome : {A : Type 0} → Option Text → A → Except Text A
outcome none a = ok a
outcome (some e) a = err e

module _ {D : Type 0} where
  abbrev pub tick : Session D → Session D
  tick s = record s { faults = later_faults s.faults }

  abbrev pub after : Option Text → (D → D) → D → D
  after none f d = f d
  after (some e) f d = d

  -- `db.ExecContext`, `tx.ExecContext`
  unfoldable pub exec : (D → D) → Exec Text (Session D) (Unit {0})
  exec f s =
      let fault = next_fault s.faults in
      (outcome fault tt, record s { db = after fault f s.db; faults = later_faults s.faults })

  -- `db.QueryContext`, `db.QueryRowContext(...).Scan`
  unfoldable pub query : {A : Type 0} → (D → A) → Exec Text (Session D) A
  query f s = (outcome (next_fault s.faults) (f s.db), tick s)

  abbrev pub written : {A : Type 0} → Session D → Except Text (A × D) → Except Text A × Session D
  written s (err e) = (err e, tick s)
  written s (ok (a, d)) = (ok a, record (tick s) { db = d })

  abbrev pub unless_fault :
      {A : Type 0} → Session D → (D → Except Text (A × D)) → Option Text → Except Text A × Session D
  unless_fault s f none = written s (f s.db)
  unless_fault s f (some e) = (err e, tick s)

  -- A statement with a result, such as the rows affected, that a constraint may refuse.
  unfoldable pub statement : {A : Type 0} → (D → Except Text (A × D)) → Exec Text (Session D) A
  statement f s = unless_fault s f (next_fault s.faults)

  -- The clock as `timestamp()` and `time.Now()` read it.
  unfoldable pub with_now : {E A : Type 0} → (ℕ → Exec E (Session D) A) → Exec E (Session D) A
  with_now f s = f s.now s

  abbrev pub commit :
      {E A : Type 0} → (Text → E) → D → A → Session D → Option Text → Except E A × Session D
  commit failed before a s none = (ok a, tick s)
  commit failed before a s (some e) = (err (failed e), record (tick s) { db = before })

  -- The deferred `tx.Rollback()` after an early return, or the `COMMIT`.
  abbrev pub close :
      {E A : Type 0} → (Text → E) → D → Except E A × Session D → Except E A × Session D
  close failed before (err e, s) = (err e, record s { db = before })
  close failed before (ok a, s) = commit failed before a s (next_fault s.faults)

  abbrev pub begun :
      {E A : Type 0}
      → (Text → E)
      → Exec E (Session D) A
      → Session D
      → Option Text
      → Except E A × Session D
  begun failed body s none = close failed s.db (body (tick s))
  begun failed body s (some e) = (err (failed e), tick s)

  -- `BeginTx`, the statements of `body`, and `Commit`; a failure undoes what `body` wrote.
  -- `failed` is what the caller makes of an error of `BeginTx` or `Commit`.
  unfoldable pub in_tx : {E A : Type 0} → (Text → E) → Exec E (Session D) A → Exec E (Session D) A
  in_tx failed body s = begun failed body s (next_fault s.faults)
