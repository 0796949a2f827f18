-- ===== src/Client/Converged.antt =====
-- `ensureVMIPSet` of internal/pve/firewall.go brings an IP set about.
use pve_manage.Prelude.{◌≡◌, ◌↔◌, sym, ◌∙◌, ap, false, inl, inr, List, [], map, Bool-cases, is_nil}
use mathlib.Core.Path.{subst}
use pve_manage.Text.{Text, contains_string}
use pve_manage.Sql.{Exec, ok, ◌>>◌}
use pve_manage.Client.{Method, Requests}
use pve_manage.Client.Ipset.{
  cidr_of, have_of, want_of, keys_of, add_wanted, delete_unwanted, converge,
}
use pve_manage.Client.Forms.{
  Have, have_of_sound, have_of_complete, want_of_sound, want_of_complete, keys_of-Has,
}
use pve_manage.Client.Steps.{Has, Has→contains, contains→Has, bind_runs, then_runs, Covers, IsIpset}
use pve_manage.Client.Loops.{Added, Deleted, add_wanted-Added, delete_unwanted-Deleted}

module _ {P : Type 0} (request : Requests P) (path_escape : Text → Text) (cluster_key : Text)
    (canonical : Text → Text) (visit : Have → Have) (path : Text) (entries : P → List Text)
    (api : IsIpset request path_escape cluster_key canonical path entries)
    (visits : (have : Have) (x : Text × Text) → Has x (visit have) ↔ Has x have) where
  -- No two entries of the set have one form.
  abbrev pub HasDistinct : P → Type 0
  HasDistinct p =
      (e f : Text) → Has e (entries p) → Has f (entries p) → canonical e ≡ canonical f → e ≡ f

  abbrev pub Covered : Text → P → Type 0
  Covered c p = Covers request path_escape cluster_key canonical path entries c p

  -- The form of each entry that is wanted is its own form.
  abbrev pub HasForms : List Text → Type 0
  HasForms wanted = (e : Text) → Has e wanted → canonical (canonical e) ≡ canonical e

  module _ (wanted : List Text) (p q r : P) (forms : HasForms wanted)
      (distinct : HasDistinct p) where
    abbrev want : List Text
    want = want_of canonical wanted

    abbrev have : Have
    have = have_of canonical [] (entries p)

    module _
        (added : Added request path_escape cluster_key canonical path entries api
          (keys_of canonical have)
          want
          p
          q)
        (deleted : Deleted request path_escape cluster_key canonical path entries api want
          (visit have)
          q
          r) where
      -- An entry that was there and is there still is wanted.
      old_is_wanted :
          (raw c : Text)
          → is_nil c ≡ false
          → canonical raw ≡ c
          → Has raw (entries p)
          → Has raw (entries r)
          → Has c want
      old_is_wanted raw c named form h k =
          let (s, m) =
            have_of_complete canonical [] (entries p) raw h
              (subst (λ x. is_nil x ≡ false) (sym form) named) in
          elim (have_of_sound canonical [] (entries p) (canonical raw) s m) [
            | inl z ↦ absurd z
            | inr (in_set, same) ↦
                let e : s ≡ raw = distinct s raw in_set h same in
                let n : Has (c, raw) have =
                  subst (λ x. Has (x, raw) have) form
                    (subst (λ x. Has (canonical raw, x) have) e m) in
                elim (Bool-cases (contains_string want c)) [
                  | inl yes_wanted ↦ contains→Has want c yes_wanted
                  | inr unwanted ↦
                      absurd (deleted.gone c raw ((visits have (c, raw)).1 n) unwanted k)
                ]
          ]

      only_wanted : (c : Text) → is_nil c ≡ false → Covered c r → Has c want
      only_wanted c named (raw, h, form) = elim (added.only raw (deleted.only raw h)) [
        | inl old ↦ old_is_wanted raw c named form old h
        | inr new ↦ subst (λ x. Has x want) form new
      ]

      stays : (c raw : Text) → Has c want → canonical raw ≡ c → Has raw (entries q) → Covered c r
      stays c raw h form k = elim (deleted.keeps raw k) [
        | inl m ↦ (raw, m, form)
        | inr (d, m, unwanted) ↦
            elim (have_of_sound canonical [] (entries p) d raw ((visits have (d, raw)).0 m)) [
              | inl z ↦ absurd z
              | inr (n, e) ↦
                  let t = Has→contains want d (subst (λ x. Has x want) (sym form ∙ e) h) in
                  absurd (cc)
            ]
      ]

      all_wanted : (c : Text) → Has c want → Covered c r
      all_wanted c h = elim (added.covers c h) [
        | inl k ↦
            let (raw, m) = keys_of-Has canonical have c k in
            elim (have_of_sound canonical [] (entries p) c raw m) [
              | inl z ↦ absurd z
              | inr (n, e) ↦ stays c raw h e (added.keeps raw n)
            ]
        | inr (raw, n, e) ↦ stays c raw h e n
      ]

  want-canonical :
      (wanted : List Text) (c : Text)
      → HasForms wanted
      → Has c (want_of canonical wanted)
      → canonical c ≡ c
  want-canonical wanted c forms h =
      let (e, m, k) = want_of_sound canonical wanted c h in ap canonical (sym k) ∙ forms e m ∙ k

  -- A form is wanted where it is the form of a wanted entry.
  want_of_iff :
      (wanted : List Text) (c : Text)
      → is_nil c ≡ false
      → Has c (want_of canonical wanted) ↔ ((e : Text) × Has e wanted × (canonical e ≡ c))
  want_of_iff wanted c named = (
    want_of_sound canonical wanted c,
    λ (e, m, k).
        subst (λ x. Has x (want_of canonical wanted)) k
          (want_of_complete canonical wanted e m (subst (λ x. is_nil x ≡ false) (sym k) named)),
  )

  -- The two loops, from the entries `raws` that the listing has shown.
  abbrev loops : List Text → List Text → Exec Text P (Unit {0})
  loops wanted raws =
      add_wanted request path_escape cluster_key path
        (keys_of canonical (have_of canonical [] raws)) (want_of canonical wanted)
      >> delete_unwanted request path_escape cluster_key path (want_of canonical wanted)
          (visit (have_of canonical [] raws))

  abbrev pub IsConverged : List Text → P → Type 0
  IsConverged wanted q =
      (c : Text) → is_nil c ≡ false → Covered c q ↔ ((e : Text) × Has e wanted × (canonical e ≡ c))

  loops_converge :
      (wanted : List Text) (p : P) (u : Unit {0})
      → HasForms wanted
      → HasDistinct p
      → (loops wanted (entries p) p).0 ≡ ok u
      → IsConverged wanted (loops wanted (entries p) p).1
  loops_converge wanted p u forms distinct h =
      let keys = keys_of canonical (have_of canonical [] (entries p)) in
      let first = add_wanted request path_escape cluster_key path keys (want_of canonical wanted) in
      let (a, added, deleted, same) =
        then_runs first
          (delete_unwanted request path_escape cluster_key path (want_of canonical wanted)
            (visit (have_of canonical [] (entries p))))
          p u h in
      let one =
        add_wanted-Added request path_escape cluster_key canonical path entries api keys
          (want_of canonical wanted) p a (λ c. want-canonical wanted c forms) added in
      let two =
        delete_unwanted-Deleted request path_escape cluster_key canonical path entries api
          (want_of canonical wanted) (visit (have_of canonical [] (entries p))) _ u deleted in
      subst (λ x. IsConverged wanted x.1) (sym same)
        (λ c named.
          let iff = want_of_iff wanted c named in
          (
            λ k. iff.0 (only_wanted wanted p _ _ forms distinct one two c named k),
            λ k. all_wanted wanted p _ _ forms distinct one two c (iff.1 k),
          ))

  pub converge_converges :
      (wanted : List Text) (p : P) (u : Unit {0})
      → HasForms wanted
      → HasDistinct p
      → (converge request path_escape cluster_key canonical visit path wanted p).0 ≡ ok u
      → IsConverged wanted
          (converge request path_escape cluster_key canonical visit path wanted p).1
  unfolding converge
  converge_converges wanted p u forms distinct h =
      let (current, got, rest, same) =
        bind_runs (request cluster_key Method.get path [])
          (λ current. loops wanted (map cidr_of current)) p u h in
      let seen = api.lists p current got ∙ sym (api.lists_only p) in
      let distinct' =
        subst
          (λ (x : List Text). (e f : Text) → Has e x → Has f x → canonical e ≡ canonical f → e ≡ f)
          (sym (api.lists_only p)) distinct in
      subst (λ x. IsConverged wanted x.1) (sym same)
        (subst
          (λ raws.
            (loops wanted raws (request cluster_key Method.get path [] p).1).0 ≡ ok u
            → IsConverged wanted (loops wanted raws (request cluster_key Method.get path [] p).1).1)
          (sym seen)
          (loops_converge wanted (request cluster_key Method.get path [] p).1 u forms distinct')
          rest)
