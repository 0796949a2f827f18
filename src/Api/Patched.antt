-- ===== src/Api/Patched.antt =====
-- What `handlePatchVM` of internal/api/vm_handlers.go does to the tables.
use pve_manage.Prelude.{ℕ, Option, none, some}
use pve_manage.Text.{Text}
use pve_manage.Sql.{on_error, ◌>>=◌}
use pve_manage.Sql.Atomic.{
  ReadOnly, ReadOnly-pure, ReadOnly-fail, ReadOnly-query, ReadOnly-bind, ReadOnly-on_error,
}
use pve_manage.Sql.Ensures.{Ensures}
use pve_manage.Tables.{Vm}
use pve_manage.Api.{server_error, load_vm_row}
use pve_manage.Api.PatchBody.{PatchBody}
use pve_manage.Api.Patch.{patched_reply}
use pve_manage.Api.Settles.{Settles}

pub ReadOnly-patched_reply : (row : Option Vm) → ReadOnly (patched_reply row)
ReadOnly-patched_reply none = ReadOnly-fail _
ReadOnly-patched_reply (some vm) = ReadOnly-pure _

pub ReadOnly-reread : (id : ℕ) → ReadOnly (on_error server_error (load_vm_row id) >>= patched_reply)
unfolding load_vm_row
ReadOnly-reread id =
    ReadOnly-bind _ _ (ReadOnly-on_error _ _ (ReadOnly-query _)) ReadOnly-patched_reply
