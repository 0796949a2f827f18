-- ===== src/Api/AdoptionFacts.antt =====
-- What the checks of an adoption establish: `handleAdminAdoptVM` of internal/api/vm_handlers.go.
use pve_manage.Prelude.{
  ℕ, String, ◌≡◌, refl, sym, ◌∙◌, ap, Bool, true, false, Option, some, find?, is_nil,
}
use pve_manage.Text.{Text, text_eq}
use pve_manage.Sql.{Except, ◌>>◌}
use pve_manage.Sql.Atomic.{
  ReadOnly, ReadOnly-pure, ReadOnly-query, ReadOnly-on_error, ReadOnly-bind, ReadOnly-then,
}
use pve_manage.Tables.{Db, Vm, User}
use pve_manage.Config.{App, Cluster}
use pve_manage.Api.{require}
use pve_manage.Api.Access.{ReadOnly-require, ReadOnly-parsed}
use pve_manage.Api.Successful.{ReadOnly-accepted}
use pve_manage.Api.Reads.{ReadOnly-if, ReadOnly-load_ssh_keys_by_ids, ReadOnly-well_named}
use pve_manage.Api.PatchReads.{ReadOnly-row, ReadOnly-group}
use pve_manage.Api.Allocation.{user_vm_usage, list_user_vm_usage}
use pve_manage.Api.CreateOptions.{effective_quota}
use pve_manage.Api.Authority.{
  Needs, Needs-const, Needs-bind, Needs-query, Needs-asked, Needs-parsed,
}
use pve_manage.Api.PatchFields.{required_row}
use pve_manage.Api.Adoption.{
  AdoptBody, room_for, check_adopted_fields, check_adopted_options, check_adopted_quota,
  adopted_keys, plan_adoption,
}

Needs-required_row :
    {A : Type 0} (before : Db) (find : Db → Option A) (text : String)
    → Needs before (required_row find text) (λ a. find before ≡ some a)
Needs-required_row before find text =
    Needs-bind before _ _ (ReadOnly-on_error _ _ (ReadOnly-query find)) (Needs-asked before _ find)
      λ row its. record { at = λ s a e k. sym its ∙ (Needs-parsed before row text).at s a e k }

Needs-passed :
    (before : Db) (c : Bool) (code : ℕ) (text : String)
    → Needs before (require c code text) (λ _. c ≡ true)
unfolding require
Needs-passed before true code text = record { at = λ s a e k. refl }
Needs-passed before false code text = record { at = λ s a e k. cc }

ReadOnly-check_adopted_fields :
    (parse_key : Text → Except Text (Text × Text)) (req : AdoptBody)
    → ReadOnly (check_adopted_fields req)
unfolding check_adopted_fields
ReadOnly-check_adopted_fields parse_key req = ReadOnly-then _ _ (ReadOnly-require _ _ _) (
    ReadOnly-then _ _ (ReadOnly-require _ _ _) (
      ReadOnly-then _ _ (ReadOnly-well_named parse_key _) (
        ReadOnly-then _ _ (ReadOnly-row _ _)
          (ReadOnly-then _ _ (ReadOnly-require _ _ _) (ReadOnly-require _ _ _)))))

module _ (app : App) where
  ReadOnly-check_adopted_options :
      (cluster : Cluster) (req : AdoptBody) → ReadOnly (check_adopted_options app cluster req)
  unfolding check_adopted_options
  ReadOnly-check_adopted_options cluster req = ReadOnly-bind _ _ (ReadOnly-parsed _ _) λ cpu.
      ReadOnly-bind _ _ (ReadOnly-parsed _ _) λ storage.
        ReadOnly-bind _ _ (ReadOnly-parsed _ _)
          λ bridge. ReadOnly-then _ _ (ReadOnly-require _ _ _) (ReadOnly-pure _)

  ReadOnly-check_adopted_quota : (req : AdoptBody) → ReadOnly (check_adopted_quota app req)
  unfolding check_adopted_quota list_user_vm_usage
  ReadOnly-check_adopted_quota req = ReadOnly-bind _ _ (ReadOnly-row _ _) λ owner.
      ReadOnly-bind _ _ (ReadOnly-on_error _ _ (ReadOnly-query _)) λ used. ReadOnly-require _ _ _

  -- The new owner is a user, whose quota has room for the VM.
  pub record HasRoom (req : AdoptBody) (before : Db) : Type 0 where
    pub owner : User
    pub row : find? (λ u. text_eq u.username req.owner_username) before.users ≡ some owner
    pub room :
        room_for (effective_quota app owner) (user_vm_usage req.owner_username before) req ≡ true

  Needs-check_adopted_quota :
      (before : Db) (req : AdoptBody)
      → Needs before (check_adopted_quota app req) (λ _. HasRoom req before)
  unfolding check_adopted_quota list_user_vm_usage
  Needs-check_adopted_quota before req =
      Needs-bind before _ _ (ReadOnly-row _ _) (Needs-required_row before _ _) λ owner row.
        Needs-bind before _ _ (ReadOnly-on_error _ _ (ReadOnly-query _)) (Needs-query before _)
          λ used count. record {
            at = λ s u e k. record {
              owner = owner;
              row = row;
              room =
                  ap (λ x. room_for (effective_quota app owner) x req) (sym count)
                  ∙ (Needs-passed before _ _ _).at s u e k;
            };
          }

module _ (app : App) (parse_key : Text → Except Text (Text × Text)) (is_cidr : Text → Bool)
    (draw : ℕ → Option ℕ) where
  ReadOnly-adopted_keys : (req : AdoptBody) → ReadOnly (adopted_keys parse_key req)
  unfolding adopted_keys
  ReadOnly-adopted_keys req = ReadOnly-if (is_nil req.ssh_key_ids) _ _ (ReadOnly-accepted _) (
      ReadOnly-on_error _ _
        (ReadOnly-load_ssh_keys_by_ids parse_key req.owner_username req.ssh_key_ids))

  pub ReadOnly-plan_adoption :
      (vm : Vm) (req : AdoptBody) → ReadOnly (plan_adoption app parse_key is_cidr draw vm req)
  unfolding plan_adoption
  ReadOnly-plan_adoption vm req = ReadOnly-then _ _ (ReadOnly-check_adopted_fields parse_key req) (
      ReadOnly-bind _ _ (ReadOnly-parsed _ _) λ cluster.
        ReadOnly-bind _ _ (ReadOnly-check_adopted_options app cluster req) λ bridge.
          ReadOnly-then _ _ (ReadOnly-check_adopted_quota app req) (
            ReadOnly-then _ _ (ReadOnly-require _ _ _) (
              ReadOnly-then _ _ (ReadOnly-require _ _ _) (
                ReadOnly-bind _ _ (ReadOnly-accepted _) λ boot_order.
                  ReadOnly-bind _ _ (ReadOnly-adopted_keys req) λ keys.
                    ReadOnly-then _ _ (ReadOnly-require _ _ _) (
                      ReadOnly-then _ _ (ReadOnly-require _ _ _) (
                        ReadOnly-then _ _ (ReadOnly-require _ _ _)
                          (ReadOnly-then _ _ (ReadOnly-group _ _ _) (ReadOnly-pure _))))))))

  pub Needs-plan_adoption :
      (before : Db) (vm : Vm) (req : AdoptBody)
      → Needs before (plan_adoption app parse_key is_cidr draw vm req) (λ _. HasRoom app req before)
  unfolding plan_adoption ◌>>◌
  Needs-plan_adoption before vm req =
      Needs-bind before _ _ (ReadOnly-check_adopted_fields parse_key req) (Needs-const before _ tt)
        λ fields _.
          Needs-bind before _ _ (ReadOnly-parsed _ _) (Needs-const before _ tt) λ cluster _.
            Needs-bind before _ _ (ReadOnly-check_adopted_options app cluster req)
              (Needs-const before _ tt)
              λ bridge _.
                Needs-bind before _ _ (ReadOnly-check_adopted_quota app req)
                  (Needs-check_adopted_quota app before req) λ quota room. Needs-const before _ room
