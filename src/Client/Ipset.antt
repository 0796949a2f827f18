-- ===== src/Client/Ipset.antt =====
-- The IP set of a VM: `ensureVMIPSet` and `canonicalIPSetCIDR` of internal/pve/firewall.go, and
-- `EnsureFirewall` of internal/pve/client.go.
use pve_manage.Prelude.{
  ℕ, Bool, true, false, ◌||◌, Option, none, some, List, [], ◌∷◌, ◌++◌, if◌then◌else◌, any, is_nil,
  map,
}
use pve_manage.Text.{Text, codes, text_eq, trim_space, has_prefix, contains_string}
use pve_manage.Json.{Object, get, as_string}
use pve_manage.Sql.{Exec, pure, ◌>>=◌, ◌>>◌}
use pve_manage.Client.{Method, Requests}
use pve_manage.Client.Firewall.{
  FirewallSpec, pve_policy, send, send_new, vm_path, apply_vm_firewall_rules, ensure_vm_group_rules,
}

-- What Go's `net` makes of a text: `parse_network` is `net.ParseCIDR` with the address masked, as the
-- text of the network; `parse_ip` is `net.ParseIP`, as its text and whether it is one of IPv4.
pub record Net : Type 0 where
  pub parse_network : Text → Option Text
  pub parse_ip : Text → Option (Text × Bool)

abbrev pub of_ip : Text → Option (Text × Bool) → Text
of_ip value none = value
of_ip value (some (ip, true)) = ip ++ codes "/32"
of_ip value (some (ip, false)) = ip ++ codes "/128"

abbrev pub of_network : Net → Text → Option Text → Text
of_network net value none = of_ip value (net.parse_ip value)
of_network net value (some network) = network

abbrev pub without_sign : Text → Text
without_sign [] = []
without_sign (c ∷ s) =
    if has_prefix (c ∷ s) (codes "+") || has_prefix (c ∷ s) (codes "-") then trim_space s else c ∷ s

-- `canonicalIPSetCIDR`
unfoldable pub canonical_ipset_cidr : Net → Text → Text
canonical_ipset_cidr net raw =
    let value = trim_space raw in
    if is_nil value
    then []
    else of_network net (without_sign value) (net.parse_network (without_sign value))

abbrev pub cidr_of : Object → Text
cidr_of o = as_string (get "cidr" o)

abbrev pub name_of : Object → Text
name_of o = as_string (get "name" o)

module _ (canonical : Text → Text) where
  abbrev pub without : Text → List (Text × Text) → List (Text × Text)
  without c [] = []
  without c ((d, raw) ∷ have) =
      let rest = without c have in if text_eq d c then rest else (d, raw) ∷ rest

  -- The map `have`: the canonical form of each entry, and the entry; a later one replaces an earlier.
  unfoldable pub have_of : List (Text × Text) → List Text → List (Text × Text)
  have_of have [] = have
  have_of have (raw ∷ entries) =
      have_of
        (if is_nil (canonical raw)
          then have
          else (canonical raw, raw) ∷ without (canonical raw) have)
        entries

  -- The keys of the map `want`.
  unfoldable pub want_of : List Text → List Text
  want_of [] = []
  want_of (entry ∷ entries) =
      let rest = want_of entries in
      if is_nil (canonical entry) then rest else canonical entry ∷ rest

  abbrev pub keys_of : List (Text × Text) → List Text
  keys_of have = map (λ e. e.0) have

module _ {P : Type 0} (request : Requests P) (path_escape : Text → Text) (cluster_key : Text) where
  -- The first loop: what is wanted and not there is added.
  unfoldable pub add_wanted : Text → List Text → List Text → Exec Text P (Unit {0})
  add_wanted path have [] = pure tt
  add_wanted path have (c ∷ want) =
      if contains_string have c
      then add_wanted path have want
      else send_new request path_escape cluster_key path (("cidr", c) ∷ [])
        >> add_wanted path have want

  -- The second loop: what is there and not wanted is deleted.
  unfoldable pub delete_unwanted : Text → List Text → List (Text × Text) → Exec Text P (Unit {0})
  delete_unwanted path want [] = pure tt
  delete_unwanted path want ((c, raw) ∷ have) =
      if contains_string want c
      then delete_unwanted path want have
      else send request path_escape cluster_key Method.delete (path ++ 47 ∷ path_escape raw) []
        >> delete_unwanted path want have

  -- The two loops, over the entries that the set has. `visit` is the order in which `range` goes
  -- through the map `have`.
  unfoldable pub converge :
      (Text → Text)
      → (List (Text × Text) → List (Text × Text))
      → Text
      → List Text
      → Exec Text P (Unit {0})
  converge canonical visit path entries = do
    current ← request cluster_key Method.get path []
    let have = have_of canonical [] (map cidr_of current)
    let want = want_of canonical entries
    add_wanted path (keys_of canonical have) want
    delete_unwanted path want (visit have)

  -- `ensureVMIPSet`
  unfoldable pub ensure_vm_ipset :
      Net
      → (List (Text × Text) → List (Text × Text))
      → Text
      → ℕ
      → Text
      → List Text
      → Exec Text P (Unit {0})
  ensure_vm_ipset net visit node vmid name entries = do
    let base = vm_path request path_escape cluster_key node vmid "/ipset"
    sets ← request cluster_key Method.get base []
    (if any (λ o. text_eq (name_of o) name) sets
        then pure tt
        else send request path_escape cluster_key Method.post base (("name", name) ∷ []))
    converge (canonical_ipset_cidr net) visit (base ++ 47 ∷ path_escape name) entries

  -- `EnsureFirewall`
  unfoldable pub ensure_firewall :
      Net
      → (List (Text × Text) → List (Text × Text))
      → Text
      → ℕ
      → FirewallSpec
      → Exec Text P (Unit {0})
  ensure_firewall net visit node vmid spec = do
    apply_vm_firewall_rules request path_escape cluster_key node vmid spec.rules
    send request path_escape cluster_key Method.put
        (vm_path request path_escape cluster_key node vmid "/options")
        (("enable", codes "1")
          ∷ ("dhcp", codes "0")
          ∷ ("ndp", codes "1")
          ∷ ("radv", codes "0")
          ∷ ("macfilter", codes "1")
          ∷ ("ipfilter", codes "1")
          ∷ ("log_level_in", codes "nolog")
          ∷ ("log_level_out", codes "nolog")
          ∷ ("policy_in", pve_policy spec.policy_in)
          ∷ ("policy_out", pve_policy spec.policy_out)
          ∷ [])
    ensure_vm_ipset net visit node vmid (codes "ipfilter-net0") spec.ip_filter
    ensure_vm_group_rules request path_escape cluster_key node vmid spec.groups
