-- ===== src/Worker/Applied.antt =====
-- The order of the queue during `applyVMConfigIfNeeded` and `syncFirewall` of
-- internal/worker/worker.go.
use pve_manage.Prelude.{ℕ, Option, none, some}
use pve_manage.Text.{Text}
use pve_manage.Json.{Object}
use pve_manage.Sql.{Except, ok, err}
use pve_manage.Tables.{Vm}
use pve_manage.Vmname.{NameError}
use pve_manage.Config.{App, BridgeConfig}
use pve_manage.Worker.Settings.{Libraries}
use pve_manage.Worker.Remote.{Pve}
use pve_manage.Worker.Maintains.{
  Maintains, Maintains-pure, Maintains-fail, Maintains-bind, Maintains-then, Maintains-if,
}
use pve_manage.Worker.Ordered.{Keeps-update_vm, Ordered, Ordered-call, Ordered-local}
use pve_manage.Sql.Keeps.{Keeps, Keeps-bind, Keeps-query, Keeps-pure, Keeps-fail}
use pve_manage.Worker.Apply.{send_params, apply_vm_config_if_needed, sync_firewall}
use pve_manage.Worker.Settings.{
  from_except, name_or_fail, row_or_none, mark_password_synced, load_security_group_config,
}
use pve_manage.Tasks.Sequence.{IsOrdered}
use pve_manage.Client.{Values}

row-Keeps : {A : Type 0} → (o : Option A) → Keeps IsOrdered (row_or_none o)
row-Keeps none = Keeps-fail IsOrdered _
row-Keeps (some a) = Keeps-pure IsOrdered a

Keeps-mark_password_synced : (id : ℕ) → Keeps IsOrdered (mark_password_synced id)
unfolding mark_password_synced
Keeps-mark_password_synced id =
    Keeps-bind IsOrdered _ _ (Keeps-query IsOrdered _)
      λ row. Keeps-bind IsOrdered _ _ (row-Keeps row) λ vm. Keeps-update_vm id _

Keeps-load_security_group :
    (owner name : Text) → Keeps IsOrdered (load_security_group_config owner name)
unfolding load_security_group_config
Keeps-load_security_group owner name =
    Keeps-bind IsOrdered _ _ (Keeps-query IsOrdered _)
      λ row. Keeps-bind IsOrdered _ _ (row-Keeps row) λ g. Keeps-pure IsOrdered _

pub name_or_fail-Ordered :
    {P : Type 0} → (e : NameError) → Maintains Ordered (name_or_fail {P = P} e)
name_or_fail-Ordered NameError.valid = Maintains-pure Ordered tt
name_or_fail-Ordered NameError.required = Maintains-fail Ordered _
name_or_fail-Ordered NameError.invalid = Maintains-fail Ordered _

from_except-Ordered :
    {P A : Type 0} → (r : Except Text A) → Maintains Ordered (from_except {P = P} r)
from_except-Ordered (ok a) = Maintains-pure Ordered a
from_except-Ordered (err e) = Maintains-fail Ordered e

module _ {P : Type 0} (app : App) (libraries : Libraries) (pve : Pve P) (vm : Vm) where
  send-Ordered :
      (node : Text) (params : Values)
      → Maintains Ordered (send_params app libraries pve vm node params)
  send-Ordered node params = Maintains-if Ordered _ _ _ (Maintains-pure Ordered tt) (
      Maintains-then Ordered _ _ (Ordered-call _) (
        Maintains-if Ordered _ _ _ (Ordered-local _ (Keeps-mark_password_synced vm.id))
          (Maintains-pure Ordered tt)))

  pub apply-Ordered :
      (prefer : Object) (key : Text) (bridge : BridgeConfig) (cfg : Object) (node : Text)
      → Maintains Ordered
          (apply_vm_config_if_needed app libraries pve vm prefer key bridge cfg node)
  unfolding apply_vm_config_if_needed
  apply-Ordered prefer key bridge cfg node = Maintains-then Ordered _ _ (name_or_fail-Ordered _) (
      Maintains-bind Ordered _ _ (from_except-Ordered _)
        λ keys. Maintains-bind Ordered _ _ (from_except-Ordered _) λ current. send-Ordered node _)

  pub firewall-Ordered :
      (prefer : Object) (bridge : BridgeConfig) (node : Text)
      → Maintains Ordered (sync_firewall app libraries pve vm prefer bridge node)
  unfolding sync_firewall
  firewall-Ordered prefer bridge node =
      Maintains-bind Ordered _ _ (Ordered-local _ (Keeps-load_security_group _ _))
        λ g. Ordered-call _
