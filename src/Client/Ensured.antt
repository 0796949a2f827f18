-- ===== src/Client/Ensured.antt =====
-- `ensureVMIPSet` of internal/pve/firewall.go: the IP set is found or made, and brought about.
use pve_manage.Prelude.{
  ℕ, ◌≡◌, ◌↔◌, refl, sym, ◌∙◌, Bool, true, false, List, [], ◌∷◌, ◌++◌, if◌then◌else◌, is_nil, any,
}
use mathlib.Core.Path.{subst}
use pve_manage.Text.{Text, text_eq}
use pve_manage.Json.{Object}
use pve_manage.Sql.{Except, ok, err, continue, pure, ◌>>=◌, ◌>>◌}
use pve_manage.Client.{Method, Requests}
use pve_manage.Client.Firewall.{send, vm_path}
use pve_manage.Client.Ipset.{Net, canonical_ipset_cidr, name_of, converge, ensure_vm_ipset}
use pve_manage.Client.Forms.{Have}
use pve_manage.Client.Steps.{Has, bind_runs, then_runs, Covers, IsIpset}
use pve_manage.Client.Converged.{converge_converges}

module _ {P : Type 0} (request : Requests P) (path_escape : Text → Text) (cluster_key : Text)
    (net : Net) (visit : Have → Have) (node : Text) (vmid : ℕ) (name : Text)
    (entries : P → List Text) where
  abbrev pub base : Text
  base = vm_path request path_escape cluster_key node vmid "/ipset"

  abbrev pub set_path : Text
  set_path = base ++ 47 ∷ path_escape name

  -- Listing the sets of the VM and making the set change no entry of it: a new set is empty.
  pub record IsSets : Type 0 where
    pub lists_sets : (p : P) → entries (request cluster_key Method.get base [] p).1 ≡ entries p
    pub makes :
        (p : P)
        → entries (request cluster_key Method.post base (("name", name) ∷ []) p).1 ≡ entries p

  module _ (sets : IsSets) where
    send_keeps :
        (p : P)
        → entries (send request path_escape cluster_key Method.post base (("name", name) ∷ []) p).1
          ≡ entries p
    unfolding ◌>>=◌
    send_keeps p = go (request cluster_key Method.post base (("name", name) ∷ []) p) ∙ sets.makes p
      where
        go :
            (r : Except Text (List Object) × P)
            → entries (continue r (λ _. pure tt)).1 ≡ entries r.1
        go (ok a, q) = refl
        go (err e, q) = refl

    made_keeps :
        (b : Bool) (p : P)
        → entries
            ((if b
                then pure tt
                else send request path_escape cluster_key Method.post base (("name", name) ∷ []))
              p).1
          ≡ entries p
    made_keeps true p = refl
    made_keeps false p = send_keeps p

    -- A run of `ensureVMIPSet` that succeeds brings the IP set to what is wanted: a form that is not
    -- empty is the canonical form of some entry of the set if and only if it is that of a wanted
    -- entry, whatever the order in which Go goes through the map. The requests list the entries, add
    -- one with the form that is sent, refuse one whose form is there, and delete the entry that is
    -- named (`IsIpset`); listing the sets and making the set change no entry; the form of a wanted
    -- entry is its own form, and no two entries of the set had one form before.
    pub ensure_vm_ipset_converges :
        (api : IsIpset request path_escape cluster_key (canonical_ipset_cidr net) set_path entries)
        → ((have : Have) (x : Text × Text) → Has x (visit have) ↔ Has x have)
        → (wanted : List Text) (p : P) (u : Unit {0})
        → ((e : Text)
            → Has e wanted
            → canonical_ipset_cidr net (canonical_ipset_cidr net e) ≡ canonical_ipset_cidr net e)
        → ((e f : Text)
            → Has e (entries p)
            → Has f (entries p)
            → canonical_ipset_cidr net e ≡ canonical_ipset_cidr net f
            → e ≡ f)
        → (ensure_vm_ipset request path_escape cluster_key net visit node vmid name wanted p).0
          ≡ ok u
        → (c : Text) → is_nil c ≡ false
        → Covers request path_escape cluster_key
            (canonical_ipset_cidr net)
            set_path
            entries
            c
            (ensure_vm_ipset request path_escape cluster_key net visit node vmid name wanted p).1
          ↔ ((e : Text) × Has e wanted × (canonical_ipset_cidr net e ≡ c))
    unfolding ensure_vm_ipset
    ensure_vm_ipset_converges api visits wanted p u forms distinct h =
        let loop =
          converge request path_escape cluster_key (canonical_ipset_cidr net) visit set_path
            wanted in
        let make = λ (found : List Object).
          if any (λ o. text_eq (name_of o) name) found
          then pure tt
          else send request path_escape cluster_key Method.post base (("name", name) ∷ []) in
        let (found, listed, rest, same) =
          bind_runs (request cluster_key Method.get base []) (λ found. make found >> loop) p u h in
        let p1 = (request cluster_key Method.get base [] p).1 in
        let (a, made, done, then_same) = then_runs (make found) loop p1 u rest in
        let keeps = made_keeps (any (λ o. text_eq (name_of o) name) found) p1 ∙ sets.lists_sets p in
        let distinct' =
          subst
            (λ (x : List Text).
              (e f : Text)
              → Has e x
              → Has f x
              → canonical_ipset_cidr net e ≡ canonical_ipset_cidr net f
              → e ≡ f)
            (sym keeps) distinct in
        subst
          (λ x.
            (c : Text)
            → is_nil c ≡ false
            → Covers request path_escape cluster_key (canonical_ipset_cidr net) set_path entries c
                x.1
              ↔ ((e : Text) × Has e wanted × (canonical_ipset_cidr net e ≡ c)))
          (sym (same ∙ then_same))
          (converge_converges request path_escape cluster_key (canonical_ipset_cidr net) visit
            set_path entries api visits wanted (make found p1).1 u forms distinct' done)
