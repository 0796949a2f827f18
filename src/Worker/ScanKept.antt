-- ===== src/Worker/ScanKept.antt =====
-- The order of the queue under the inventory scan of internal/worker/worker.go.
use mathlib.Core.Path.{subst}
use pve_manage.Prelude.{ℕ, ◌≡◌, if◌then◌else◌, Bool, true, false, Option, none, some, List, [], ◌∷◌}
use pve_manage.Text.{Text}
use pve_manage.Json.{Object}
use pve_manage.Sql.{Except, ok, err, statement}
use pve_manage.Sql.Keeps.{
  Keeps, Keeps-exec, Keeps-statement, Keeps-query, Keeps-bind, Keeps-then, Keeps-pure, Keeps-if,
}
use pve_manage.Tables.{Db, Vm, Template as Stored}
use pve_manage.Tasks.Sequence.{IsOrdered}
use pve_manage.Config.{App, Cluster}
use pve_manage.Api.Successful.{same}
use pve_manage.Api.Create.{insert_vm}
use pve_manage.Worker.Remote.{Pve, Resource, Template}
use pve_manage.Worker.Scan.{
  upsert_template, store_unmanaged, mark_each_deleted, mark_missing_unmanaged_vms_deleted,
  join_errors,
}
use pve_manage.Worker.Scanning.{
  cluster_nodes, upsert_templates, sync_templates, record_node_metric, sync_nodes,
  sync_cluster_nodes, sync_node_metrics, upsert_unmanaged_vm, upsert_unmanaged_vms,
  sync_unmanaged_vms, replace_vm_metrics, sync_each_vm_metrics, sync_vm_metrics, scan_pve,
}
use pve_manage.Worker.Maintains.{
  Maintains, Maintains-pure, Maintains-fail, Maintains-bind, Maintains-then, Maintains-attempt,
  Maintains-if,
}
use pve_manage.Worker.Ordered.{Ordered, Ordered-local, Ordered-call, Ordered-at_now}

-- Statements on other tables.
inserted-IsOrdered :
    (b : Bool) (e : Text) (x y : ℕ × Db)
    → IsOrdered x.1
    → ◌≡◌ {A = Except Text (ℕ × Db)} (if b then err e else ok x) (ok y)
    → IsOrdered y.1
inserted-IsOrdered true e x y h k = absurd (cc)
inserted-IsOrdered false e x y h k = subst (λ z. IsOrdered z.1) (same k) h

Keeps-upsert_template : (row : Stored) → Keeps IsOrdered (upsert_template row)
unfolding upsert_template
Keeps-upsert_template row =
    Keeps-bind IsOrdered _ _ (Keeps-query IsOrdered _)
      λ known. Keeps-exec IsOrdered _ λ db h. record { apart = h.apart; ids_below = h.ids_below }

Keeps-insert_vm : (f : ℕ → Vm) → Keeps IsOrdered (statement (insert_vm f))
Keeps-insert_vm f = Keeps-statement IsOrdered (insert_vm f) λ d a d' h e.
    inserted-IsOrdered _ _ _ (a, d') (record { apart = h.apart; ids_below = h.ids_below }) e

Keeps-store_unmanaged :
    (key : Text) (resource : Resource) (cfg : Object) (name : Text) (now : ℕ) (row : Option Vm)
    → Keeps IsOrdered (store_unmanaged key resource cfg name now row)
unfolding store_unmanaged
Keeps-store_unmanaged key resource cfg name now none =
    Keeps-bind IsOrdered _ _ (Keeps-insert_vm _) (λ _. Keeps-pure IsOrdered tt)
Keeps-store_unmanaged key resource cfg name now (some vm) =
    Keeps-if IsOrdered vm.managed _ _ (Keeps-pure IsOrdered tt)
      (Keeps-exec IsOrdered _ λ db h. record { apart = h.apart; ids_below = h.ids_below })

Keeps-mark_each_deleted : (now : ℕ) (vms : List Vm) → Keeps IsOrdered (mark_each_deleted now vms)
unfolding mark_each_deleted
Keeps-mark_each_deleted now [] = Keeps-pure IsOrdered tt
Keeps-mark_each_deleted now (vm ∷ vms) =
    Keeps-then IsOrdered _ _
      (Keeps-exec IsOrdered _ λ db h. record { apart = h.apart; ids_below = h.ids_below })
      (Keeps-mark_each_deleted now vms)

Keeps-mark_missing :
    (key : Text) (seen : List ℕ) (now : ℕ)
    → Keeps IsOrdered (mark_missing_unmanaged_vms_deleted key seen now)
unfolding mark_missing_unmanaged_vms_deleted
Keeps-mark_missing key seen now =
    Keeps-bind IsOrdered _ _ (Keeps-query IsOrdered _) (Keeps-mark_each_deleted now)

join_errors-Ordered : {P : Type 0} (es : List Text) → Maintains {P = P} Ordered (join_errors es)
join_errors-Ordered [] = Maintains-pure Ordered tt
join_errors-Ordered (e ∷ es) = Maintains-fail Ordered _

module _ {P : Type 0} (app : App) (disk_mib : Text → ℕ) (pve : Pve P) where
  upsert_templates-Ordered :
      (key : Text) (now : ℕ) (ts : List Template)
      → Maintains Ordered (upsert_templates app disk_mib pve key now ts)
  unfolding upsert_templates
  upsert_templates-Ordered key now [] = Maintains-pure Ordered tt
  upsert_templates-Ordered key now (t ∷ ts) =
      Maintains-then Ordered _ _ (Ordered-local _ (Keeps-upsert_template _))
        (upsert_templates-Ordered key now ts)

  sync_templates-Ordered :
      (now : ℕ) (clusters : List (Text × Cluster))
      → Maintains Ordered (sync_templates app disk_mib pve now clusters)
  unfolding sync_templates
  sync_templates-Ordered now [] = Maintains-pure Ordered tt
  sync_templates-Ordered now ((key, cluster) ∷ clusters) =
      Maintains-then Ordered _ _
        (Maintains-bind Ordered _ _ (Ordered-call _) (upsert_templates-Ordered key now))
        (sync_templates-Ordered now clusters)

  sync_nodes-Ordered :
      (key : Text) (nodes : List Text) → Maintains Ordered (sync_nodes app disk_mib pve key nodes)
  unfolding sync_nodes record_node_metric
  sync_nodes-Ordered key [] = Maintains-pure Ordered []
  sync_nodes-Ordered key (node ∷ nodes) =
      Maintains-bind Ordered _ _
        (Maintains-attempt Ordered _ (
          Maintains-then Ordered _ _ (Ordered-call _)
            (Ordered-local _ (Keeps-exec IsOrdered _ (λ db h. h)))))
        λ result.
          Maintains-bind Ordered _ _ (sync_nodes-Ordered key nodes)
            λ later. Maintains-pure Ordered _

  sync_cluster_nodes-Ordered :
      (clusters : List (Text × Cluster))
      → Maintains Ordered (sync_cluster_nodes app disk_mib pve clusters)
  unfolding sync_cluster_nodes
  sync_cluster_nodes-Ordered [] = Maintains-pure Ordered []
  sync_cluster_nodes-Ordered ((key, cluster) ∷ clusters) =
      Maintains-bind Ordered _ _ (sync_nodes-Ordered key (cluster_nodes cluster)) λ here.
        Maintains-bind Ordered _ _ (sync_cluster_nodes-Ordered clusters)
          λ later. Maintains-pure Ordered _

  upsert_unmanaged_vm-Ordered :
      (key : Text) (now : ℕ) (resource : Resource)
      → Maintains Ordered (upsert_unmanaged_vm app disk_mib pve key now resource)
  unfolding upsert_unmanaged_vm
  upsert_unmanaged_vm-Ordered key now resource =
      Maintains-bind Ordered _ _ (Ordered-local _ (Keeps-query IsOrdered _)) λ row.
        Maintains-bind Ordered _ _ (Maintains-attempt Ordered _ (Ordered-call _))
          λ raw. Ordered-local _ (Keeps-store_unmanaged key resource _ _ now row)

  upsert_unmanaged_vms-Ordered :
      (key : Text) (now : ℕ) (resources : List Resource)
      → Maintains Ordered (upsert_unmanaged_vms app disk_mib pve key now resources)
  unfolding upsert_unmanaged_vms
  upsert_unmanaged_vms-Ordered key now [] = Maintains-pure Ordered []
  upsert_unmanaged_vms-Ordered key now (resource ∷ resources) =
      let rest = upsert_unmanaged_vms-Ordered key now resources in
      Maintains-if Ordered _ _ _ rest (
        Maintains-then Ordered _ _ (upsert_unmanaged_vm-Ordered key now resource)
          (Maintains-bind Ordered _ _ rest (λ seen. Maintains-pure Ordered _)))

  sync_unmanaged_vms-Ordered :
      (now : ℕ) (clusters : List (Text × Cluster))
      → Maintains Ordered (sync_unmanaged_vms app disk_mib pve now clusters)
  unfolding sync_unmanaged_vms
  sync_unmanaged_vms-Ordered now [] = Maintains-pure Ordered tt
  sync_unmanaged_vms-Ordered now ((key, cluster) ∷ clusters) =
      Maintains-then Ordered _ _
        (Maintains-bind Ordered _ _
          (Maintains-bind Ordered _ _ (Ordered-call _) (upsert_unmanaged_vms-Ordered key now))
          (λ seen. Ordered-local _ (Keeps-mark_missing key seen now)))
        (sync_unmanaged_vms-Ordered now clusters)

  sync_each_vm_metrics-Ordered :
      (now : ℕ) (vms : List Vm) → Maintains Ordered (sync_each_vm_metrics app disk_mib pve now vms)
  unfolding sync_each_vm_metrics replace_vm_metrics
  sync_each_vm_metrics-Ordered now [] = Maintains-pure Ordered []
  sync_each_vm_metrics-Ordered now (vm ∷ vms) =
      Maintains-bind Ordered _ _
        (Maintains-attempt Ordered _ (
          Maintains-then Ordered _ _ (Ordered-call _) (
            Ordered-local _ (
              Keeps-exec IsOrdered _ λ db h. record { apart = h.apart; ids_below = h.ids_below }))))
        λ result.
          Maintains-bind Ordered _ _ (sync_each_vm_metrics-Ordered now vms)
            λ later. Maintains-pure Ordered _

  pub scan_pve-Ordered : Maintains Ordered (scan_pve app disk_mib pve)
  unfolding scan_pve sync_node_metrics sync_vm_metrics
  scan_pve-Ordered = Ordered-at_now _ λ now.
      Maintains-bind Ordered _ _ (Maintains-attempt Ordered _ (sync_templates-Ordered now _)) λ t.
        Maintains-bind Ordered _ _
          (Maintains-attempt Ordered _
            (Maintains-bind Ordered _ _ (sync_cluster_nodes-Ordered _) join_errors-Ordered))
          λ n.
            Maintains-bind Ordered _ _
              (Maintains-attempt Ordered _ (sync_unmanaged_vms-Ordered now _))
              λ u.
                Maintains-bind Ordered _ _
                  (Maintains-attempt Ordered _ (
                    Maintains-bind Ordered _ _ (Ordered-local _ (Keeps-query IsOrdered _)) λ vms.
                      Maintains-bind Ordered _ _ (sync_each_vm_metrics-Ordered now vms)
                        join_errors-Ordered))
                  (λ m. join_errors-Ordered _)
