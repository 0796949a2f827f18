-- ===== src/Api/RowFacts.antt =====
-- The rows that `handleCreateVM` of internal/api/vm_handlers.go adds.
use mathlib.Core.Path.{subst}
use pve_manage.Prelude.{
  ℕ, suc, ◌≡◌, refl, sym, ◌∙◌, ap, Bool, true, false, Option, none, some, [], ◌∷◌, ◌++◌,
  if◌then◌else◌,
}
use pve_manage.Prelude.Int.{ℤ, pos, pos_part}
use pve_manage.Text.{Text, trim_space}
use pve_manage.Json.{Object, num, str, get}
use pve_manage.Sql.{Except, ok, err}
use pve_manage.Sql.Atomic.{ReadOnly-on_error}
use pve_manage.Sql.Ensures.{
  Ensures, Ensures-pure, Ensures-bind, Ensures-then, Ensures-on_error, Ensures-query, Ensures-exec,
  Ensures-statement, Ensures-with_now, Ensures-weaken, given,
}
use pve_manage.Api.Successful.{Ensures-reads}
use pve_manage.Tables.{Db, Vm, Task, Kind, Status, SyncState}
use pve_manage.Tasks.{new_task, insert_task, queue_vm_task_tx}
use pve_manage.Config.{App, Cluster, cluster_by_key}
use pve_manage.Api.{User}
use pve_manage.Api.Ipv4.{Octets, derive_ipv4}
use pve_manage.Api.Allocation.{user_vm_usage, used_vmids, free_from, available, next_cluster_vmid}
use pve_manage.Api.Placement.{Floats, choose_placement_node}
use pve_manage.Api.AllocationLaws.{IsLeastFree, free_from_iff}
use pve_manage.Api.Create.{Plan, new_config, new_vm, insert_vm, allocate, insert_rows}
use pve_manage.Api.CreateChecks.{CreateBody}
use pve_manage.Api.CreateOptions.{effective_quota, fits_quota}
use pve_manage.Api.Reads.{ReadOnly-place}
use pve_manage.Api.PlanFacts.{IsPlan, Ensures-accepted}
use pve_manage.Api.UsageLaws.{IsWithin, usage-new_vm, its_usage, room-IsWithin}

accepted_row :
    (b : Bool) (e : Text) (x y : ℕ × Db)
    → ◌≡◌ {A = Except Text (ℕ × Db)} (if b then err e else ok x) (ok y)
    → x ≡ y
accepted_row true e x y h = cc
accepted_row false e x y h = cc

-- The creation that a request asks for: the tables before and after it.
pub record IsCreated (app : App) (to_v4 : Text → Option Octets) (body : Option CreateBody)
    (user : User) (before after : Db) : Type 0 where
  pub req : CreateBody
  pub requested : body ≡ some req
  pub vm : Vm
  pub task : Task
  pub cluster : Cluster
  pub config : Object
  -- One VM of the user's is added, with a new id, and one task, its provision.
  pub adds_vm : after.vms ≡ before.vms ++ vm ∷ []
  pub adds_task : after.vm_tasks ≡ before.vm_tasks ++ task ∷ []
  pub is_owned : vm.owner_username ≡ user.username
  pub has_new_id : (vm.id ≡ before.next_vm_id) × (after.next_vm_id ≡ suc before.next_vm_id)
  pub is_for_vm : task.vm_id ≡ vm.id
  pub provisions : (task.kind ≡ Kind.provision) × (task.status ≡ Status.pending)
  -- The VM is what the request says, pending and managed.
  pub in_cluster : vm.cluster_key ≡ req.cluster_key
  pub is_named : vm.vmname ≡ trim_space req.vmname
  pub in_group : vm.security_group_name ≡ req.security_group_name
  pub is_managed : (vm.managed ≡ true) × (vm.quota_exempt ≡ false) × (vm.deleted_at ≡ none)
  pub is_pending : vm.sync_state ≡ SyncState.pending
  pub has_config : vm.config ≡ some config
  pub cores : get "cpu_cores" config ≡ some (num req.cpu_cores)
  pub memory : get "memory_gb" config ≡ some (num req.memory_gb)
  pub disk : get "disk_gb" config ≡ some (num req.disk_gb)
  pub classes :
      (get "cpu_key" config ≡ some (str req.cpu_key))
      × (get "storage_key" config ≡ some (str req.storage_key))
  pub template : get "template_vmid" config ≡ some (num req.template_vmid)
  pub bridge : get "bridge_key" config ≡ some (str req.bridge_key)
  -- The cluster is configured, and the VM has the least free id of its range there.
  pub known_cluster : cluster_by_key app vm.cluster_key ≡ some cluster
  pub has_least_vmid :
      IsLeastFree
        (pos_part cluster.limit)
        (pos_part cluster.start_vmid)
        (used_vmids vm.cluster_key before)
        vm.vmid
  -- The address is the one of the id, in the bridge of the request.
  pub has_address : derive_ipv4 to_v4 cluster req.bridge_key vm.vmid ≡ ok vm.ip

module _ {F : Type 0} (app : App) (float : Floats F) (to_v4 : Text → Option Octets)
    (body : Option CreateBody) (user : User) (d0 : Db) where
  abbrev pub Outcome : ℕ → Db → Type 0
  Outcome id d =
      IsCreated app to_v4 body user d0 d
      × IsWithin (effective_quota app user) (user_vm_usage user.username d)
      × (id ≡ d0.next_vm_id)

  module _ (p : Plan) (plan : IsPlan app d0 body user p) (vmid now : ℕ) (ip node : Text) where
    abbrev new : ℕ → Vm
    new id = new_vm p id vmid ip node now

    -- The tables with the new VM, before its task.
    abbrev with_vm : Db → Db
    with_vm d = record d { vms = d.vms ++ new d.next_vm_id ∷ []; next_vm_id = suc d.next_vm_id }

    inserted :
        (d : Db) (id : ℕ) (d' : Db)
        → d ≡ d0
        → insert_vm new d ≡ ok (id, d')
        → (id ≡ d0.next_vm_id) × (d' ≡ with_vm d0)
    inserted d id d' e h =
        let k = accepted_row _ _ (d.next_vm_id, with_vm d) (id, d') h in
        (sym (ap (λ x. x.0) k) ∙ ap (λ x. x.next_vm_id) e, sym (ap (λ x. x.1) k) ∙ ap with_vm e)

    outcome :
        (id seq later : ℕ)
        → IsLeastFree
            (pos_part p.options.cluster.limit)
            (pos_part p.options.cluster.start_vmid)
            (used_vmids p.req.cluster_key d0)
            vmid
        → derive_ipv4 to_v4 p.options.cluster p.req.bridge_key vmid ≡ ok ip
        → id ≡ d0.next_vm_id
        → Outcome id
            (insert_task id seq Kind.provision (("vm_id", num (pos id)) ∷ []) later (with_vm d0))
    unfolding get
    outcome id seq later least address e = (
      record {
        req = p.req;
        requested = plan.its_body;
        vm = new d0.next_vm_id;
        task = new_task d0.next_task_id id seq Kind.provision (("vm_id", num (pos id)) ∷ []) later;
        cluster = p.options.cluster;
        config = new_config p ip node;
        adds_vm = refl;
        adds_task = refl;
        is_owned = ap (λ u. u.username) plan.its_user;
        has_new_id = (refl, refl);
        is_for_vm = e;
        provisions = (refl, refl);
        in_cluster = refl;
        is_named = plan.its_name;
        in_group = refl;
        is_managed = (refl, refl, refl);
        is_pending = refl;
        has_config = refl;
        cores = refl;
        memory = refl;
        disk = refl;
        classes = (refl, refl);
        template = refl;
        bridge = refl;
        known_cluster = plan.its_cluster;
        has_least_vmid = least;
        has_address = address;
      },
      subst (λ u. IsWithin (effective_quota app user) (user_vm_usage u.username after))
          plan.its_user within,
      e,
    )
      where
        after : Db
        after = insert_task id seq Kind.provision (("vm_id", num (pos id)) ∷ []) later (with_vm d0)

        within : IsWithin (effective_quota app user) (user_vm_usage p.user.username after)
        within =
            subst (IsWithin (effective_quota app user))
              (sym (
                usage-new_vm p d0.next_vm_id vmid now ip node d0.vms d0 after refl refl
                ∙ its_usage p d0.next_vm_id vmid now ip node (user_vm_usage p.user.username d0)))
              (room-IsWithin app (effective_quota app user) (user_vm_usage p.user.username d0) p.req
                (subst
                  (λ u.
                    fits_quota app (effective_quota app user) (user_vm_usage u.username d0) p.req
                    ≡ true)
                  (sym plan.its_user) plan.room))

  Ensures-available :
      (o : Option ℕ)
      → Ensures {E = Text} (λ d. d ≡ d0) (available o) (λ vmid d. (o ≡ some vmid) × (d ≡ d0))
  Ensures-available none = record { at = λ s a h e. cc }
  Ensures-available (some v) = Ensures-pure v (λ d h. (refl, h))

  Ensures-vmid :
      (key : Text) (start limit : ℤ)
      → Ensures
          (λ d. d ≡ d0)
          (next_cluster_vmid key start limit)
          (λ vmid d.
            IsLeastFree (pos_part limit) (pos_part start) (used_vmids key d0) vmid × (d ≡ d0))
  unfolding next_cluster_vmid
  Ensures-vmid key start limit =
      Ensures-bind {R = λ used d. (used ≡ used_vmids key d0) × (d ≡ d0)} _ _
        (Ensures-query _ (λ d h. (ap (used_vmids key) h, h)))
        λ used. given λ e.
          Ensures-weaken (Ensures-available (free_from (pos_part limit) (pos_part start) used))
            (λ vmid d (h, k). (
              ((free_from_iff (pos_part limit) (pos_part start) (used_vmids key d0)).0 vmid).0
                  (subst (λ u. free_from (pos_part limit) (pos_part start) u ≡ some vmid) e h),
              k,
            ))

  -- The two rows that the transaction of a plan adds.
  Ensures-rows :
      (p : Plan) (plan : IsPlan app d0 body user p) (vmid now : ℕ) (ip node : Text)
      → IsLeastFree
          (pos_part p.options.cluster.limit)
          (pos_part p.options.cluster.start_vmid)
          (used_vmids p.req.cluster_key d0)
          vmid
      → derive_ipv4 to_v4 p.options.cluster p.req.bridge_key vmid ≡ ok ip
      → Ensures (λ d. d ≡ d0) (insert_rows p vmid ip node now) Outcome
  unfolding insert_rows queue_vm_task_tx
  Ensures-rows p plan vmid now ip node least address =
      Ensures-bind {R = λ id d. (id ≡ d0.next_vm_id) × (d ≡ with_vm p plan vmid now ip node d0)} _ _
        (Ensures-on_error _ _ (Ensures-statement _ (inserted p plan vmid now ip node)))
        λ id.
          Ensures-then _ _
            (Ensures-on_error _ _ (
              given λ e.
                Ensures-bind {R = λ _ d. d ≡ with_vm p plan vmid now ip node d0} _ _
                  (Ensures-query _ (λ d h. h))
                  λ last. Ensures-with_now _ λ later. Ensures-exec _ λ d h.
                    subst
                      (λ x. Outcome id (
                        insert_task id (suc last) Kind.provision (("vm_id", num (pos id)) ∷ [])
                          later x))
                      (sym h)
                      (outcome p plan vmid now ip node id (suc last) later least address e)))
            (Ensures-pure id (λ d h. h))

  -- The transaction of a plan.
  pub Ensures-allocate :
      (p : Plan)
      → IsPlan app d0 body user p
      → Ensures (λ d. d ≡ d0) (allocate float to_v4 p) Outcome
  unfolding allocate choose_placement_node
  Ensures-allocate p plan = Ensures-bind _ _ (Ensures-on_error _ _ (Ensures-vmid _ _ _)) λ vmid.
      given λ least. Ensures-bind _ _ (Ensures-accepted _ _) λ ip. given λ address.
        Ensures-bind _ _ (Ensures-reads _ _ (ReadOnly-on_error _ _ (ReadOnly-place _ _ _ _ _ _)))
          λ node. Ensures-with_now _ λ now. Ensures-rows p plan vmid now ip node least address
