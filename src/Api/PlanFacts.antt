-- ===== src/Api/PlanFacts.antt =====
-- What the checks of `handleCreateVM` establish before its transaction.
use mathlib.Core.Path.{subst}
use pve_manage.Prelude.{ℕ, ◌≡◌, refl, ap, true, String, Option, none, some}
use pve_manage.Text.{Text, trim_space}
use pve_manage.Sql.{Except, ok, err}
use pve_manage.Sql.Atomic.{
  ReadOnly, ReadOnly-pure, ReadOnly-query, ReadOnly-on_error, ReadOnly-bind, ReadOnly-then,
}
use pve_manage.Sql.Ensures.{
  Ensures, Ensures-pure, Ensures-bind, Ensures-then, Ensures-on_error, Ensures-query, given,
}
use pve_manage.Tables.{Db}
use pve_manage.Config.{App, cluster_by_key}
use pve_manage.Api.{User, parsed}
use pve_manage.Api.Access.{ReadOnly-require, ReadOnly-parsed, ReadOnly-logged_in}
use pve_manage.Api.Successful.{Ensures-reads, ReadOnly-accepted, Ensures-passed, Ensures-logged_in}
use pve_manage.Api.Groups.{accepted}
use pve_manage.Api.Allocation.{list_user_vm_usage, user_vm_usage}
use pve_manage.Api.Placement.{Floats}
use pve_manage.Api.Ipv4.{Octets}
use pve_manage.Api.Create.{Plan, plan_vm}
use pve_manage.Api.CreateOptions.{check_options, check_quota, fits_quota, effective_quota}
use pve_manage.Api.CreateChecks.{CreateBody, CreateRequest, check_body}
use pve_manage.Api.Reads.{ReadOnly-check_body, ReadOnly-well_named, ReadOnly-chosen_keys}

-- The guards, with what they let through.
pub Ensures-parsed :
    {A : Type 0} (P : Db → Type 0) (o : Option A) (text : String)
    → Ensures P (parsed o text) (λ a d. (o ≡ some a) × P d)
unfolding parsed
Ensures-parsed P none text = record { at = λ s a h e. cc }
Ensures-parsed P (some x) text = Ensures-pure x (λ d h. (refl, h))

pub Ensures-accepted :
    {A : Type 0} (P : Db → Type 0) (r : Except Text A)
    → Ensures P (accepted r) (λ a d. (r ≡ ok a) × P d)
unfolding accepted
Ensures-accepted P (ok x) = Ensures-pure x (λ d h. (refl, h))
Ensures-accepted P (err e) = record { at = λ s a h e. cc }

module _ (app : App) where
  ReadOnly-check_options : (user : User) (req : CreateBody) → ReadOnly (check_options app user req)
  unfolding check_options
  ReadOnly-check_options user req = ReadOnly-bind _ _ (ReadOnly-parsed _ _) λ cluster.
      ReadOnly-bind _ _ (ReadOnly-parsed _ _) λ cpu.
        ReadOnly-bind _ _ (ReadOnly-parsed _ _) λ storage.
          ReadOnly-bind _ _ (ReadOnly-parsed _ _) λ bridge.
            ReadOnly-then _ _ (ReadOnly-require _ _ _) (
              ReadOnly-bind _ _ (ReadOnly-on_error _ _ (ReadOnly-query _)) λ row.
                ReadOnly-bind _ _ (ReadOnly-parsed _ _) λ template.
                  ReadOnly-bind _ _ (ReadOnly-on_error _ _ (ReadOnly-query _))
                    λ group. ReadOnly-then _ _ (ReadOnly-parsed _ _) (ReadOnly-pure _))

  ReadOnly-check_quota : (user : User) (req : CreateBody) → ReadOnly (check_quota app user req)
  unfolding check_quota list_user_vm_usage
  ReadOnly-check_quota user req =
      ReadOnly-then _ _ (ReadOnly-require _ _ _) (
        ReadOnly-bind _ _ (ReadOnly-on_error _ _ (ReadOnly-query _)) λ used. ReadOnly-require _ _ _)

  module _ {F : Type 0} (float : Floats F) (to_v4 : Text → Option Octets)
      (parse_key : Text → Except Text (Text × Text)) (draw : ℕ → Option ℕ) (r : CreateRequest) where
    pub ReadOnly-plan_vm : ReadOnly (plan_vm float to_v4 parse_key app draw r)
    unfolding plan_vm
    ReadOnly-plan_vm = ReadOnly-bind _ _ (ReadOnly-logged_in r.user) λ user.
        ReadOnly-bind _ _ (ReadOnly-parsed r.body _) λ req.
          ReadOnly-bind _ _ (ReadOnly-check_body parse_key user req) λ checked.
            ReadOnly-bind _ _ (ReadOnly-check_options user req)
              λ options. ReadOnly-then _ _ (ReadOnly-check_quota user req) (ReadOnly-pure _)

-- The name that is checked is the one of the request without the space around it.
Ensures-check_body :
    (P : Db → Type 0) (parse_key : Text → Except Text (Text × Text)) (user : User)
    (req : CreateBody)
    → Ensures P (check_body parse_key user req) (λ c d. (c.vmname ≡ trim_space req.vmname) × P d)
unfolding check_body
Ensures-check_body P parse_key user req =
    Ensures-then _ _ (Ensures-reads _ _ (ReadOnly-require _ _ _)) (
      Ensures-then _ _ (Ensures-reads _ _ (ReadOnly-well_named parse_key _)) (
        Ensures-then _ _ (Ensures-reads _ _ (ReadOnly-require _ _ _)) (
          Ensures-then _ _ (Ensures-reads _ _ (ReadOnly-require _ _ _)) (
            Ensures-then _ _ (Ensures-reads _ _ (ReadOnly-require _ _ _)) (
              Ensures-then _ _ (Ensures-reads _ _ (ReadOnly-require _ _ _)) (
                Ensures-bind _ _ (Ensures-reads _ _ (ReadOnly-accepted _)) λ boot.
                  Ensures-bind _ _ (Ensures-reads _ _ (ReadOnly-chosen_keys parse_key user req))
                    λ keys. Ensures-then _ _ (Ensures-reads _ _ (ReadOnly-require _ _ _)) (
                      Ensures-then _ _ (Ensures-reads _ _ (ReadOnly-require _ _ _))
                        (Ensures-pure _ (λ d h. (refl, h))))))))))

module _ (app : App) (d0 : Db) where
  -- The cluster of the options is the one that the request names.
  Ensures-check_options :
      (user : User) (req : CreateBody)
      → Ensures
          (λ d. d ≡ d0)
          (check_options app user req)
          (λ o d. (cluster_by_key app req.cluster_key ≡ some o.cluster) × (d ≡ d0))
  unfolding check_options
  Ensures-check_options user req = Ensures-bind _ _ (Ensures-parsed _ _ _) λ cluster. given λ found.
      Ensures-bind _ _ (Ensures-reads _ _ (ReadOnly-parsed _ _)) λ cpu.
        Ensures-bind _ _ (Ensures-reads _ _ (ReadOnly-parsed _ _)) λ storage.
          Ensures-bind _ _ (Ensures-reads _ _ (ReadOnly-parsed _ _)) λ bridge.
            Ensures-then _ _ (Ensures-reads _ _ (ReadOnly-require _ _ _)) (
              Ensures-bind _ _ (Ensures-reads _ _ (ReadOnly-on_error _ _ (ReadOnly-query _))) λ row.
                Ensures-bind _ _ (Ensures-reads _ _ (ReadOnly-parsed _ _)) λ template.
                  Ensures-bind _ _ (Ensures-reads _ _ (ReadOnly-on_error _ _ (ReadOnly-query _)))
                    λ group.
                      Ensures-then _ _ (Ensures-reads _ _ (ReadOnly-parsed _ _))
                        (Ensures-pure _ (λ d h. (found, h))))

  abbrev pub HasRoom : User → CreateBody → Type 0
  HasRoom user req =
      fits_quota app (effective_quota app user) (user_vm_usage user.username d0) req ≡ true

  -- The quota has room for the request, beside what the owner uses.
  Ensures-check_quota :
      (user : User) (req : CreateBody)
      → Ensures (λ d. d ≡ d0) (check_quota app user req) (λ _ d. HasRoom user req × (d ≡ d0))
  unfolding check_quota list_user_vm_usage
  Ensures-check_quota user req = Ensures-then _ _ (Ensures-reads _ _ (ReadOnly-require _ _ _)) (
      Ensures-bind {R = λ used d. (used ≡ user_vm_usage user.username d0) × (d ≡ d0)} _ _
        (Ensures-on_error _ _ (Ensures-query _ λ d h. (ap (user_vm_usage user.username) h, h)))
        λ used. given λ e.
          Ensures-passed _ _ _
            λ d h k. (subst (λ u. fits_quota app (effective_quota app user) u req ≡ true) e k, h))

  -- What the checks before the transaction establish.
  pub record IsPlan (body : Option CreateBody) (user : User) (p : Plan) : Type 0 where
    pub its_body : body ≡ some p.req
    pub its_name : p.checked.vmname ≡ trim_space p.req.vmname
    pub its_user : p.user ≡ user
    pub its_cluster : cluster_by_key app p.req.cluster_key ≡ some p.options.cluster
    pub room : HasRoom user p.req

  module _ {F : Type 0} (float : Floats F) (to_v4 : Text → Option Octets)
      (parse_key : Text → Except Text (Text × Text)) (draw : ℕ → Option ℕ) (r : CreateRequest) where
    pub Ensures-plan_vm :
        (user : User)
        → r.user ≡ ok user
        → Ensures
            (λ d. d ≡ d0)
            (plan_vm float to_v4 parse_key app draw r)
            (λ p d. IsPlan r.body user p × (d ≡ d0))
    unfolding plan_vm
    Ensures-plan_vm user its_user =
        Ensures-bind _ _ (Ensures-logged_in (λ d. d ≡ d0) r.user user its_user) λ u. given λ e.
          Ensures-bind _ _ (Ensures-parsed _ r.body _) λ req. given λ is_body.
            Ensures-bind _ _ (Ensures-check_body (λ d. d ≡ d0) parse_key u req) λ checked.
              given λ named. Ensures-bind _ _ (Ensures-check_options u req) λ options.
                given λ known. Ensures-then _ _ (Ensures-check_quota u req) (
                  given λ room. Ensures-pure _ (λ d h. (
                    record {
                      its_body = is_body;
                      its_name = named;
                      its_user = e;
                      its_cluster = known;
                      room = subst (λ x. HasRoom x req) e room;
                    },
                    h,
                  )))
