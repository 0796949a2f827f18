-- ===== src/Worker/Deadline.antt =====
-- The deadline of a deletion: `syncDelete` of internal/worker/worker.go.
use pve_manage.Prelude.{ℕ, ◌<◌, ◌≡◌, sym, Bool, true, false, Option, some, arith, ltb}
use mathlib.Core.Path.{subst}
use pve_manage.Text.{Text}
use pve_manage.Json.{Object}
use pve_manage.Sql.{Except, ok, err, Exec, exec, with_now, pure, ◌>>=◌}
use pve_manage.Tables.{Db, Vm}
use pve_manage.Worker.{World, local, call, at_now}
use pve_manage.Worker.Remote.{Pve}
use pve_manage.Worker.Marks.{mark_deleted, mark_delete_pending}
use pve_manage.Worker.Deletion.{
  sync_delete, delete_on, wait_or_delete, hard_stop, stop_for_deletion,
  delete_execute_after_for_task,
}
use pve_manage.Worker.Maintains.{
  Maintains, Maintains-pure, Maintains-bind, Maintains-then, Maintains-attempt, Maintains-if,
}

-- An operation of Proxmox VE that keeps `I`, whether it succeeds or not.
pub record Spares {P : Type 0} (I : P → Type 0) {A : Type 0} (m : Exec Text P A) : Type 0 where
  pub at : (p : P) → I p → I (m p).1

module _ {P : Type 0} (I : P → Type 0) (now : ℕ) where
  -- The clock stands at `now` and Proxmox VE satisfies `I`.
  abbrev Holds : World P → Type 0
  Holds w = (w.tables.now ≡ now) × I w.remote

  Maintains-call : {A : Type 0} (m : Exec Text P A) → Spares I m → Maintains Holds (call m)
  unfolding call
  Maintains-call m h = record { at = λ w q. (q.0, h.at w.remote q.1) }

  Maintains-local : (f : ℕ → Db → Db) → Maintains Holds (local (with_now λ now. exec (f now)))
  unfolding local with_now exec
  Maintains-local f = record { at = λ w q. q }

  Maintains-at_now :
      {A : Type 0} (f : ℕ → Exec Text (World P) A)
      → Maintains Holds (f now)
      → Maintains Holds (at_now f)
  unfolding at_now
  Maintains-at_now f h = record { at = λ w q. subst (λ n. Holds (f n w).1) (sym q.0) (h.at w q) }

  Maintains-pure_bind :
      {A B : Type 0} (a : A) (f : A → Exec Text (World P) B)
      → Maintains Holds (f a)
      → Maintains Holds (pure a >>= f)
  unfolding ◌>>=◌
  Maintains-pure_bind a f h = record { at = λ w q. h.at w q }

module _ {P : Type 0} (I : P → Type 0) (pve : Pve P) (vm : Vm) (prefer : Object)
    (payload : Option Object) (now delete_at : ℕ)
    (finding : Spares I (pve.find_vm_node vm.cluster_key vm.vmid))
    (shutting_down : (node : Text) → Spares I (pve.shutdown_vm vm.cluster_key node vm.vmid))
    (stopping : (node : Text) → Spares I (pve.stop_vm vm.cluster_key node vm.vmid))
    (deadline : delete_execute_after_for_task vm prefer payload ≡ some delete_at)
    (not_due : now < delete_at) where
  hard_stop-Maintains :
      (node : Text) (r : Except Text (Unit {0})) → Maintains (Holds I now) (hard_stop pve vm node r)
  hard_stop-Maintains node (ok _) = Maintains-pure (Holds I now) tt
  hard_stop-Maintains node (err e) =
      Maintains-if (Holds I now) _ _ _
        (Maintains-then (Holds I now) _ _
          (Maintains-attempt (Holds I now) _ (Maintains-call I now _ (stopping node)))
          (Maintains-pure (Holds I now) tt))
        (Maintains-pure (Holds I now) tt)

  stop_for_deletion-Maintains :
      (node : Text) → Maintains (Holds I now) (stop_for_deletion pve vm node)
  unfolding stop_for_deletion
  stop_for_deletion-Maintains node =
      Maintains-bind (Holds I now) _ _
        (Maintains-attempt (Holds I now) _ (Maintains-call I now _ (shutting_down node)))
        (hard_stop-Maintains node)

  is_early : ltb now delete_at ≡ true
  is_early = ground arith

  wait-Maintains :
      (node : Text) → Maintains (Holds I now) (wait_or_delete pve vm node delete_at now)
  unfolding mark_delete_pending
  wait-Maintains node = rw is_early (Maintains-local I now _)

  delete_on-Maintains :
      (found : Text × Bool) → Maintains (Holds I now) (delete_on pve vm prefer payload found)
  unfolding mark_deleted
  delete_on-Maintains (node, false) = Maintains-local I now _
  delete_on-Maintains (node, true) =
      Maintains-then (Holds I now) _ _ (stop_for_deletion-Maintains node) (
        rw deadline
          (Maintains-pure_bind I now delete_at _ (Maintains-at_now I now _ (wait-Maintains node))))

  -- Before its deadline the deletion of a VM changes nothing in Proxmox VE but what looking for the
  -- VM, shutting it down and stopping it do: what these three keep, such as that the VM or a backup
  -- of it exists, holds after the step if it held before.
  pub sync_delete-before_deadline :
      (w : World P)
      → w.tables.now ≡ now
      → I w.remote
      → I (sync_delete pve vm prefer payload w).1.remote
  unfolding sync_delete
  sync_delete-before_deadline w e h =
      let found =
        Maintains-bind (Holds I now) _ _ (Maintains-call I now _ finding) delete_on-Maintains in
      (found.at w (e, h)).1
