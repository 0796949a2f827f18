-- ===== src/Api/PatchReads.antt =====
-- The steps of `handlePatchVM` before its transaction only read.
use pve_manage.Prelude.{ℕ, Bool, not, ◌||◌, Option, none, some, List, [], ◌∷◌, String}
use pve_manage.Prelude.Int.{ℤ}
use pve_manage.Text.{Text, text_eq}
use pve_manage.Json.{Object}
use pve_manage.Sql.{Except, pure, ◌>>◌}
use pve_manage.Sql.Atomic.{
  ReadOnly, ReadOnly-pure, ReadOnly-query, ReadOnly-on_error, ReadOnly-bind, ReadOnly-then,
}
use pve_manage.Tables.{Db, Vm, User}
use pve_manage.Config.{App, Cluster}
use pve_manage.Api.{Api, require}
use pve_manage.Api.Access.{ReadOnly-require, ReadOnly-parsed}
use pve_manage.Api.Successful.{ReadOnly-accepted}
use pve_manage.Api.Allocation.{list_user_vm_usage}
use pve_manage.Api.Reads.{ReadOnly-if, ReadOnly-load_ssh_keys_by_ids, ReadOnly-well_named}
use pve_manage.Api.PatchBody.{
  PatchBody, Draft, on_field, needs_quota, has_resources, is_shared_only, draft_of,
}
use pve_manage.Api.PatchFields.{
  required_row, require_group, target_owner, keeps_group, patch_owner, check_immutable, patch_keys,
  patch_shared, patch_group, patch_resources, patch_options,
}
use pve_manage.Api.Patch.{check_patched_quota, edit, draft_patch}

pub ReadOnly-row :
    {A : Type 0} (find : Db → Option A) (text : String) → ReadOnly (required_row find text)
ReadOnly-row find text =
    ReadOnly-bind _ _ (ReadOnly-on_error _ _ (ReadOnly-query find)) λ row. ReadOnly-parsed row text

pub ReadOnly-group : (owner name : Text) (text : String) → ReadOnly (require_group owner name text)
ReadOnly-group owner name text = ReadOnly-then _ _ (ReadOnly-row _ text) (ReadOnly-pure tt)

ReadOnly-target_owner :
    (user : User) (vm : Vm) (o : Option Text) → ReadOnly (target_owner user vm o)
unfolding target_owner
ReadOnly-target_owner user vm none = ReadOnly-pure _
ReadOnly-target_owner user vm (some raw) = ReadOnly-then _ _ (ReadOnly-require _ _ _) (
    ReadOnly-then _ _ (ReadOnly-require _ _ _)
      (ReadOnly-then _ _ (ReadOnly-row _ _) (ReadOnly-pure _)))

ReadOnly-on_field :
    {A : Type 0} (field : Option A) (step : A → Draft → Api Draft)
    → ((a : A) (d : Draft) → ReadOnly (step a d))
    → (d : Draft) → ReadOnly (on_field field step d)
unfolding on_field
ReadOnly-on_field none step h d = ReadOnly-pure d
ReadOnly-on_field (some a) step h d = h a d

-- A guard, then the edited draft.
ReadOnly-guarded :
    {A : Type 0} (c : Bool) (code : ℕ) (text : String) (a : A)
    → ReadOnly (require c code text >> pure a)
ReadOnly-guarded c code text a = ReadOnly-then _ _ (ReadOnly-require c code text) (ReadOnly-pure a)

ReadOnly-patch_owner :
    (req : PatchBody) (owner : Text) (d : Draft) → ReadOnly (patch_owner req owner d)
ReadOnly-patch_owner req owner d =
    ReadOnly-then _ _ (keeps req.security_group_name) (ReadOnly-pure _)
  where
    keeps : (o : Option Text) → ReadOnly (keeps_group o owner d)
    keeps none = ReadOnly-group _ _ _
    keeps (some name) = ReadOnly-pure tt

ReadOnly-check_immutable : (old : Object) (req : PatchBody) → ReadOnly (check_immutable old req)
unfolding check_immutable
ReadOnly-check_immutable old req =
    ReadOnly-then _ _ (ReadOnly-require _ _ _)
      (ReadOnly-then _ _ (ReadOnly-require _ _ _) (ReadOnly-require _ _ _))

ReadOnly-patch_shared : (raw : List Text) (d : Draft) → ReadOnly (patch_shared raw d)
ReadOnly-patch_shared raw d =
    ReadOnly-then _ _ (ReadOnly-require _ _ _)
      (ReadOnly-then _ _ (ReadOnly-require _ _ _) (ReadOnly-pure _))

ReadOnly-patch_group : (owner name : Text) (d : Draft) → ReadOnly (patch_group owner name d)
ReadOnly-patch_group owner name d =
    ReadOnly-then _ _ (ReadOnly-require _ _ _)
      (ReadOnly-then _ _ (ReadOnly-group _ _ _) (ReadOnly-pure _))

module _ (cluster : Cluster) where
  ReadOnly-patch_resources :
      (old : Object) (req : PatchBody) (d : Draft) → ReadOnly (patch_resources cluster old req d)
  unfolding patch_resources
  ReadOnly-patch_resources old req d =
      ReadOnly-bind _ _
        (ReadOnly-on_field req.cpu_key _
          (λ key d. ReadOnly-then _ _ (ReadOnly-parsed _ _) (ReadOnly-pure _)) d)
        λ d.
          ReadOnly-bind _ _
            (ReadOnly-on_field req.storage_key _
              (λ key d. ReadOnly-then _ _ (ReadOnly-parsed _ _) (ReadOnly-pure _)) d)
            λ d.
              ReadOnly-bind _ _
                (ReadOnly-on_field req.bridge_key _
                  (λ key d. ReadOnly-bind _ _ (ReadOnly-parsed _ _) λ b. ReadOnly-pure _) d)
                λ d.
                  ReadOnly-bind _ _
                    (ReadOnly-on_field req.boot_order _
                      (λ raw d. ReadOnly-bind _ _ (ReadOnly-accepted _) λ b. ReadOnly-pure _) d)
                    λ d.
                      ReadOnly-bind _ _
                        (ReadOnly-on_field req.template_vmid _
                          (λ n d. ReadOnly-then _ _ (ReadOnly-row _ _) (ReadOnly-pure _)) d)
                        λ d.
                          ReadOnly-bind _ _
                            (ReadOnly-on_field req.cpu_cores _ (λ n d. ReadOnly-pure _) d)
                            λ d.
                              ReadOnly-bind _ _
                                (ReadOnly-on_field req.memory_gb _ (λ n d. ReadOnly-pure _) d)
                                λ d.
                                  ReadOnly-bind _ _
                                    (ReadOnly-on_field req.disk_gb _
                                      (λ n d.
                                        ReadOnly-then _ _ (ReadOnly-require _ _ _)
                                          (ReadOnly-pure _))
                                      d)
                                    λ d. ReadOnly-pure _

module _ (app : App) where
  ReadOnly-patch_options :
      (shared : Bool) (old : Object) (req : PatchBody) (d : Draft)
      → ReadOnly (patch_options app shared old req d)
  unfolding patch_options
  ReadOnly-patch_options shared old req d =
      ReadOnly-if (not (has_resources req)) _ _ (ReadOnly-pure d) (
        ReadOnly-then _ _ (ReadOnly-require _ _ _) (
          ReadOnly-bind _ _ (ReadOnly-parsed _ _)
            λ cluster. ReadOnly-patch_resources cluster old req d))

  ReadOnly-check_patched_quota :
      (user : User) (old : Object) (owner : Text) (req : PatchBody) (d : Draft)
      → ReadOnly (check_patched_quota app user old owner req d)
  unfolding check_patched_quota list_user_vm_usage
  ReadOnly-check_patched_quota user old owner req d =
      ReadOnly-if (d.vm.quota_exempt || not (needs_quota req)) _ _ (ReadOnly-pure tt) (
        ReadOnly-bind _ _ (ReadOnly-parsed _ _) λ cluster.
          ReadOnly-then _ _ (ReadOnly-require _ _ _) (
            ReadOnly-then _ _ (ReadOnly-require _ _ _) (
              ReadOnly-then _ _ (ReadOnly-require _ _ _) (
                ReadOnly-bind _ _
                  (ReadOnly-if (text_eq owner user.username) _ _ (ReadOnly-pure user)
                    (ReadOnly-row _ _))
                  λ its_user.
                    ReadOnly-bind _ _ (ReadOnly-on_error _ _ (ReadOnly-query _))
                      λ used. ReadOnly-require _ _ _))))

  module _ (parse_key : Text → Except Text (Text × Text)) where
    ReadOnly-patch_keys :
        (owner : Text) (ids : Option (List ℤ)) (keys : Option (List Text)) (d : Draft)
        → ReadOnly (patch_keys parse_key owner ids keys d)
    unfolding patch_keys
    ReadOnly-patch_keys owner (some []) keys d = ReadOnly-pure _
    ReadOnly-patch_keys owner (some (id ∷ ids)) keys d =
        ReadOnly-bind _ _
          (ReadOnly-on_error _ _ (ReadOnly-load_ssh_keys_by_ids parse_key owner (id ∷ ids)))
          λ loaded. ReadOnly-pure _
    ReadOnly-patch_keys owner none none d = ReadOnly-pure d
    ReadOnly-patch_keys owner none (some keys) d =
        ReadOnly-bind _ _ (ReadOnly-accepted _) λ normalized. ReadOnly-pure _

    ReadOnly-edit :
        (shared : Bool) (old : Object) (owner : Text) (req : PatchBody) (d : Draft)
        → ReadOnly (edit app parse_key shared old owner req d)
    unfolding edit
    ReadOnly-edit shared old owner req d =
        ReadOnly-bind _ _ (ReadOnly-on_field req.vmname _ (λ raw d. ReadOnly-guarded _ _ _ _) d)
          λ d.
            ReadOnly-bind _ _
              (ReadOnly-on_field req.owner_username _ (λ _. ReadOnly-patch_owner req owner) d)
              λ d.
                ReadOnly-bind _ _
                  (ReadOnly-on_field req.password _ (λ raw d. ReadOnly-guarded _ _ _ _) d)
                  λ d. ReadOnly-then _ _ (ReadOnly-check_immutable old req) (
                    ReadOnly-bind _ _ (ReadOnly-patch_keys owner _ _ d) λ d.
                      ReadOnly-bind _ _ (ReadOnly-on_field _ _ ReadOnly-patch_shared d) λ d.
                        ReadOnly-bind _ _ (ReadOnly-on_field _ _ (ReadOnly-patch_group owner) d)
                          λ d.
                            ReadOnly-bind _ _ (ReadOnly-on_field _ _ (λ b d. ReadOnly-pure _) d)
                              λ d. ReadOnly-patch_options shared old req d)

    pub ReadOnly-draft_patch :
        (user : User) (vm : Vm) (req : PatchBody) → ReadOnly (draft_patch app parse_key user vm req)
    unfolding draft_patch
    ReadOnly-draft_patch user vm req = ReadOnly-bind _ _ (ReadOnly-target_owner user vm _) λ owner.
        ReadOnly-then _ _ (ReadOnly-well_named parse_key _) (
          ReadOnly-bind _ _ (ReadOnly-edit (is_shared_only user vm) _ owner req (draft_of vm)) λ d.
            ReadOnly-then _ _ (ReadOnly-require _ _ _) (
              ReadOnly-then _ _ (ReadOnly-require _ _ _) (
                ReadOnly-then _ _ (ReadOnly-check_patched_quota user _ owner req d)
                  (ReadOnly-pure d))))
