-- ===== src/Worker.antt =====
-- The worker: internal/worker/worker.go. Its state is the tables, through `*sql.DB`, and Proxmox VE,
-- through the client `w.pve`, whose operations are the record `Pve`.
pub mod Remote
pub mod Power
pub mod Marks
pub mod Deletion
pub mod Disks
pub mod Net0
pub mod Rewritten
pub mod Rewrites
pub mod Settings
pub mod Apply
pub mod Provision
pub mod Snapshot
pub mod Scan
pub mod Scanning
pub mod ScanKept
pub mod Swept
pub mod Loop
pub mod Maintains
pub mod Deadline
pub mod Effects
pub mod Reached
pub mod Rollback
pub mod Ordered
pub mod Kept
pub mod Applied
pub mod Provisioned
pub mod Pass
use pve_manage.Prelude.{ℕ, Bool, true, false, Option, none, some, List, [], ◌∷◌}
use pve_manage.Text.{Text}
use pve_manage.Sql.{Session, Except, ok, err, Exec, pure}
use pve_manage.Tables.{Db}

pub record World (P : Type 0) : Type 0 where
  pub tables : Session Db
  pub remote : P

module _ {P A : Type 0} where
  -- Statements on the tables.
  unfoldable pub local : Exec Text (Session Db) A → Exec Text (World P) A
  local m w = let (r, s) = m w.tables in (r, record w { tables = s })

  -- A call of the client.
  unfoldable pub call : Exec Text P A → Exec Text (World P) A
  call m w = let (r, p) = m w.remote in (r, record w { remote = p })

  unfoldable pub at_now : (ℕ → Exec Text (World P) A) → Exec Text (World P) A
  at_now f w = f w.tables.now w

  -- The error as a value: `if err := m(); err != nil { … }` that goes on.
  unfoldable pub attempt : Exec Text (World P) A → Exec Text (World P) (Except Text A)
  attempt m w = let (r, w') = m w in (ok r, w')

  abbrev pub undo_if :
      Exec Text (World P) (Unit {0}) → Except Text A × World P → Except Text A × World P
  undo_if undo (ok a, w) = (ok a, w)
  undo_if undo (err e, w) = (err e, (undo w).1)

  -- `defer func() { if err != nil { undo() } }()` before `m`.
  unfoldable pub undo_on_error :
      Exec Text (World P) (Unit {0}) → Exec Text (World P) A → Exec Text (World P) A
  undo_on_error undo m w = undo_if undo (m w)
