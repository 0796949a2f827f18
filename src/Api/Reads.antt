-- ===== src/Api/Reads.antt =====
-- The steps of `handleCreateVM` that only read, and what they find out.
use pve_manage.Prelude.{
  Bool, true, false, ◌||◌, Option, none, some, List, [], ◌∷◌, any, if◌then◌else◌, is_nil,
}
use pve_manage.Prelude.Int.{ℤ, pos, leb_ℤ, eqb_ℤ}
use pve_manage.Text.{Text}
use pve_manage.Sql.{Session, Except, ok, err, Exec}
use pve_manage.Sql.Atomic.{
  ReadOnly, ReadOnly-pure, ReadOnly-fail, ReadOnly-query, ReadOnly-on_error, ReadOnly-bind,
  ReadOnly-then,
}
use pve_manage.Tables.{Db, SshKey}
use pve_manage.Vmname.{NameError}
use pve_manage.Config.{CpuClass}
use pve_manage.Api.{User}
use pve_manage.Api.Access.{ReadOnly-require}
use pve_manage.Api.Successful.{ReadOnly-accepted}
use pve_manage.Api.Placement.{
  Floats, Candidate, lowest_from, place_on, place, node_static_allocation, normalize_string_list,
}
use pve_manage.Api.Keys.{scanned, load_ssh_key_row, load_keys, listed, load_ssh_keys_by_ids}
use pve_manage.Api.CreateChecks.{CreateBody, well_named, chosen_keys, check_body}

-- Keys.
ReadOnly-scanned : (row : Option SshKey) → ReadOnly (scanned row)
ReadOnly-scanned none = ReadOnly-fail _
ReadOnly-scanned (some k) = ReadOnly-pure k

ReadOnly-load_ssh_key_row : (owner : Text) (id : ℤ) → ReadOnly (load_ssh_key_row owner id)
unfolding load_ssh_key_row
ReadOnly-load_ssh_key_row owner id =
    ReadOnly-bind _ _ (ReadOnly-on_error _ _ (ReadOnly-query _)) ReadOnly-scanned

pub ReadOnly-if :
    {E A : Type 0} (b : Bool) (m n : Exec E (Session Db) A)
    → ReadOnly m
    → ReadOnly n
    → ReadOnly (if b then m else n)
ReadOnly-if true m n h k = h
ReadOnly-if false m n h k = k

ReadOnly-load_keys : (owner : Text) (ids seen : List ℤ) → ReadOnly (load_keys owner seen ids)
unfolding load_keys
ReadOnly-load_keys owner [] seen = ReadOnly-pure []
ReadOnly-load_keys owner (id ∷ ids) seen =
    ReadOnly-if (leb_ℤ id (pos 0) || any (eqb_ℤ id) seen) _ _ (ReadOnly-load_keys owner ids seen) (
      ReadOnly-bind _ _ (ReadOnly-load_ssh_key_row owner id)
        λ k. ReadOnly-bind _ _ (ReadOnly-load_keys owner ids (id ∷ seen)) λ keys. ReadOnly-pure _)

module _ (parse_key : Text → Except Text (Text × Text)) where
  ReadOnly-listed : (r : Except Text (List Text)) → ReadOnly (listed parse_key r)
  ReadOnly-listed (ok lines) = ReadOnly-pure lines
  ReadOnly-listed (err e) = ReadOnly-fail _

  pub ReadOnly-load_ssh_keys_by_ids :
      (owner : Text) (ids : List ℤ) → ReadOnly (load_ssh_keys_by_ids parse_key owner ids)
  unfolding load_ssh_keys_by_ids
  ReadOnly-load_ssh_keys_by_ids owner [] = ReadOnly-pure []
  ReadOnly-load_ssh_keys_by_ids owner (id ∷ ids) =
      ReadOnly-bind _ _ (ReadOnly-load_keys owner (id ∷ ids) []) λ keys. ReadOnly-listed _

  pub ReadOnly-chosen_keys :
      (user : User) (req : CreateBody) → ReadOnly (chosen_keys parse_key user req)
  ReadOnly-chosen_keys user req =
      ReadOnly-if (is_nil req.ssh_key_ids) _ _ (ReadOnly-accepted _)
        (ReadOnly-on_error _ _ (ReadOnly-load_ssh_keys_by_ids user.username req.ssh_key_ids))

  pub ReadOnly-well_named : (e : NameError) → ReadOnly (well_named e)
  ReadOnly-well_named NameError.valid = ReadOnly-pure tt
  ReadOnly-well_named NameError.required = ReadOnly-fail _
  ReadOnly-well_named NameError.invalid = ReadOnly-fail _

  pub ReadOnly-check_body :
      (user : User) (req : CreateBody) → ReadOnly (check_body parse_key user req)
  unfolding check_body
  ReadOnly-check_body user req = ReadOnly-then _ _ (ReadOnly-require _ _ _) (
      ReadOnly-then _ _ (ReadOnly-well_named _) (
        ReadOnly-then _ _ (ReadOnly-require _ _ _) (
          ReadOnly-then _ _ (ReadOnly-require _ _ _) (
            ReadOnly-then _ _ (ReadOnly-require _ _ _) (
              ReadOnly-then _ _ (ReadOnly-require _ _ _) (
                ReadOnly-bind _ _ (ReadOnly-accepted _) λ boot.
                  ReadOnly-bind _ _ (ReadOnly-chosen_keys user req) λ keys.
                    ReadOnly-then _ _ (ReadOnly-require _ _ _)
                      (ReadOnly-then _ _ (ReadOnly-require _ _ _) (ReadOnly-pure _))))))))

-- Placement.
module _ {F : Type 0} (float : Floats F) (cluster_key : Text) (cores memory : ℤ) (tie : Text) where
  ReadOnly-lowest_from :
      (cpu : CpuClass) (nodes : List Text) (best : Option Candidate)
      → ReadOnly (lowest_from float cluster_key cpu cores memory tie best nodes)
  unfolding lowest_from node_static_allocation
  ReadOnly-lowest_from cpu [] best = ReadOnly-pure best
  ReadOnly-lowest_from cpu (node ∷ nodes) best =
      ReadOnly-bind _ _ (ReadOnly-query _) λ a. ReadOnly-lowest_from cpu nodes _

  ReadOnly-place_on :
      (cpu : CpuClass) (nodes : List Text)
      → ReadOnly (place_on float cluster_key cpu cores memory tie nodes)
  ReadOnly-place_on cpu [] = ReadOnly-pure tie
  ReadOnly-place_on cpu (node ∷ nodes) =
      ReadOnly-bind _ _ (ReadOnly-lowest_from cpu (node ∷ nodes) none) λ best. ReadOnly-pure _

  pub ReadOnly-place :
      (cpu : Option CpuClass) → ReadOnly (place float cluster_key cpu cores memory tie)
  ReadOnly-place none = ReadOnly-fail _
  ReadOnly-place (some cpu) = ReadOnly-place_on cpu (normalize_string_list cpu.node)
