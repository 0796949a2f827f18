-- ===== src/Examples/Migrations.antt =====
-- The theorems on migrations at a database whose content counts the scripts run.
use pve_manage.Prelude.{ℕ, suc, ◌≡◌, refl, none, some, [], ◌∷◌}
use pve_manage.Text.{Text, codes}
use pve_manage.Sql.{Session, Except, ok, err, exec, query, statement, ◌>>=◌, ◌>>◌}
use pve_manage.Migrate.{
  Migration, Schema, control, all_or_nothing, is_applied, apply_new, apply_migration, migrate_each,
  migrate,
}
use pve_manage.Migrate.Applied.{migrate_again}

abbrev run : Text → ℕ → Except Text ℕ
run [] n = err (codes "empty query")
run (c ∷ s) n = ok (suc n)

abbrev initial : Migration
initial = record { version = 1; name = codes "initial_schema"; sql = codes "CREATE" }

abbrev second : Migration
second = record { version = 2; name = codes "add_column"; sql = codes "ALTER" }

abbrev broken : Migration
broken = record { version = 3; name = codes "broken"; sql = [] }

abbrev fresh : Session (Schema ℕ)
fresh = record { db = record { versions = []; content = 0 }; faults = []; now = 0 }

abbrev up_to_date : Schema ℕ
up_to_date = record { versions = 2 ∷ 1 ∷ []; content = 2 }

-- The second start, whose third statement fails.
abbrev again : Session (Schema ℕ)
again = record {
  db = up_to_date;
  faults = none ∷ none ∷ some (codes "connection reset") ∷ [];
  now = 9;
}

migrate_again_example :
    (migrate run (initial ∷ second ∷ []) again).1.db
    ≡ (migrate run (initial ∷ second ∷ []) fresh).1.db
unfolding migrate migrate_each apply_migration apply_new all_or_nothing is_applied control exec
    query statement ◌>>=◌ ◌>>◌
migrate_again_example = migrate_again run (initial ∷ second ∷ []) fresh again tt refl refl
