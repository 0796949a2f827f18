-- ===== src/Api.antt =====
-- The HTTP handlers of internal/api: what they share. A request holds what chi and the session give
-- the handler; a handler ends with a reply, as its result or as its error.
pub mod Access
pub mod Authority
pub mod Deletion
pub mod Restoration
pub mod Rules
pub mod RuleLaws
pub mod Groups
pub mod Successful
pub mod GroupLaws
pub mod Quota
pub mod Vms
pub mod PatchBody
pub mod PatchFields
pub mod Patch
pub mod Settles
pub mod Admin
pub mod Adoption
pub mod Adopt
pub mod Edits
pub mod AdminLaws
pub mod ExemptLaws
pub mod AdoptionFacts
pub mod AdoptLaws
pub mod AdoptedUsage
pub mod PatchReads
pub mod PatchRows
pub mod Patched
pub mod Ipv4
pub mod Ipv4Laws
pub mod Addresses
pub mod Allocation
pub mod Placement
pub mod AllocationLaws
pub mod PlacementLaws
pub mod Keys
pub mod Create
pub mod CreateOptions
pub mod CreateChecks
pub mod Reads
pub mod PlanFacts
pub mod Created
pub mod RowFacts
pub mod UsageLaws
use pve_manage.Prelude.{
  ℕ, String, Bool, true, false, not, ◌&&◌, ◌||◌, Option, none, some, List, ◌==◌, if◌then◌else◌,
  find?,
}
use pve_manage.Text.{Text, text_eq, contains_string}
use pve_manage.Sql.{Session, Except, ok, err, Exec, query, pure, fail, on_error, ◌>>=◌, ◌>>◌}
use pve_manage.Tables.{Db, Vm}
pub use pve_manage.Tables.{User}

pub data Body : Type 0 where
  message : String → Body
  failure : Text → Body
  done : Body
  power : Text → Body
  execute_after : ℕ → Body

pub data Reply : Type 0 where
  reply : ℕ → Body → Reply

-- What `currentUser`, `chi.URLParam` with `strconv.ParseInt`, and `decodeJSONBody` return. Ids are
-- natural numbers; a negative one finds no row either.
pub record Request (B : Type 0) : Type 0 where
  pub user : Except Text User
  pub id : Option ℕ
  pub body : Option B

abbrev pub Api : Type 0 → Type 0
Api A = Exec Reply (Session Db) A

module _ {A : Type 0} where
  -- `s.jsonError(w, code, text); return`
  abbrev pub deny : ℕ → String → Api A
  deny code text = fail (reply code (message text))

abbrev pub server_error : Text → Reply
server_error e = reply 500 (failure e)

-- `if !condition { s.jsonError(w, code, text); return }`
unfoldable pub require : Bool → ℕ → String → Api (Unit {0})
require condition code text = if condition then pure tt else deny code text

unfoldable pub logged_in : Except Text User → Api User
logged_in (ok user) = pure user
logged_in (err e) = fail (reply 401 (failure e))

unfoldable pub parsed : {A : Type 0} → Option A → String → Api A
parsed none text = deny 400 text
parsed (some a) text = pure a

unfoldable pub found : {A : Type 0} → Option A → String → Api A
found none text = deny 404 text
found (some a) text = pure a

-- `loadVMRow`
unfoldable pub load_vm_row : ℕ → Exec Text (Session Db) (Option Vm)
load_vm_row id = query (λ db. find? (λ v. v.id == id) db.vms)

-- The head of every handler on a VM: the user, the id and the row.
unfoldable pub request_vm : {B : Type 0} → Request B → Api (User × Vm)
request_vm r = do
  user ← logged_in r.user
  id ← parsed r.id "invalid vm id"
  row ← on_error server_error (load_vm_row id)
  vm ← found row "vm not found"
  pure (user, vm)

-- `vmVisibleToCurrentUser`, and `isVisibleTo` of internal/api/helpers.go.
unfoldable pub vm_visible_to : Vm → User → Bool
vm_visible_to vm user =
    user.is_admin
    || text_eq user.username vm.owner_username
    || contains_string vm.shared_usernames user.username

-- `current.IsAdmin || current.Username == vm.OwnerUsername`
unfoldable pub is_owner_or_admin : Vm → User → Bool
is_owner_or_admin vm user = user.is_admin || text_eq user.username vm.owner_username
