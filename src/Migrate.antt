-- ===== src/Migrate.antt =====
-- Schema migrations: `Migrate`, `applyMigration` and `migrationApplied` of internal/db/migrate.go.
-- The effect of a migration's SQL on the rest of the database is the parameter `run`; the list of
-- migrations is one as well.
pub mod Applied
use pve_manage.Prelude.{
  ℕ, Bool, true, false, Option, none, some, List, [], ◌∷◌, ◌++◌, if◌then◌else◌, any, ◌==◌,
}
use pve_manage.Text.{Text}
use pve_manage.Sql.{Session, Except, ok, err, Exec, exec, query, statement, pure, ◌>>=◌, ◌>>◌}

-- `Migration`
pub record Migration : Type 0 where
  pub version : ℕ
  pub name : Text
  pub sql : Text

-- The database: the versions in `schema_migrations`, and everything else.
pub record Schema (D : Type 0) : Type 0 where
  pub versions : List ℕ
  pub content : D

-- `BEGIN`, `ROLLBACK`, `COMMIT`, and taking or closing a connection: what may fail and writes nothing
-- by itself.
unfoldable pub control : {D : Type 0} → Exec Text (Session D) (Unit {0})
control = exec (λ d. d)

module _ {D : Type 0} where
  abbrev pub restored : D → Except Text (Unit {0}) × Session D → Except Text (Unit {0}) × Session D
  restored before (ok a, s) = (ok a, s)
  restored before (err e, s) = (err e, record s { db = before })

  -- The deferred `ROLLBACK` where the transaction has not been committed.
  unfoldable pub all_or_nothing :
      Exec Text (Session D) (Unit {0}) → Exec Text (Session D) (Unit {0})
  all_or_nothing body s = restored s.db (body s)

module _ {D : Type 0} (run : Text → D → Except Text D) where
  -- `migrationApplied`
  unfoldable pub is_applied : ℕ → Schema D → Bool
  is_applied version d = any (λ v. v == version) d.versions

  abbrev pub changed : Schema D → Except Text D → Except Text (Unit {0} × Schema D)
  changed d (err e) = err e
  changed d (ok content) = ok (tt, record d { content = content })

  abbrev pub record_version : ℕ → Schema D → Schema D
  record_version version d = record d { versions = version ∷ d.versions }

  unfoldable pub apply_new : Migration → Exec Text (Session (Schema D)) (Unit {0})
  apply_new m = do
    statement (λ d. changed d (run m.sql d.content))
    exec (record_version m.version)
    control

  -- `applyMigration`
  unfoldable pub apply_migration : Migration → Exec Text (Session (Schema D)) (Unit {0})
  apply_migration m =
      control
      >> all_or_nothing
          (query (is_applied m.version) >>= λ applied. if applied then control else apply_new m)

  -- The loop of `Migrate`, with the connection of each round.
  unfoldable pub migrate_each : List Migration → Exec Text (Session (Schema D)) (Unit {0})
  migrate_each [] = pure tt
  migrate_each (m ∷ ms) = control >> (apply_migration m >> (control >> migrate_each ms))

  -- `Migrate`; the table `schema_migrations` is there.
  unfoldable pub migrate : List Migration → Exec Text (Session (Schema D)) (Unit {0})
  migrate ms = control >> migrate_each ms
