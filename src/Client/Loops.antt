-- ===== src/Client/Loops.antt =====
-- The two loops of `ensureVMIPSet` of internal/pve/firewall.go: what each does to the entries.
use pve_manage.Prelude.{
  ◌≡◌, refl, sym, ◌∙◌, ap, true, false, ◌⊎◌, inl, inr, List, [], ◌∷◌, ◌++◌, Bool-cases,
}
use mathlib.Core.Path.{subst}
use pve_manage.Text.{Text, contains_string}
use pve_manage.Json.{Object}
use pve_manage.Sql.{Exec, Except, ok, err, pure}
use pve_manage.Client.{Method, Requests}
use pve_manage.Client.Firewall.{send, send_new, unless_exists, is_already_exists_err}
use pve_manage.Client.Ipset.{add_wanted, delete_unwanted}
use pve_manage.Client.Steps.{
  Has, contains→Has, other_than, Has-other, Has-kept, bind_runs, then_runs, Covers, Grown, IsIpset,
}

module _ {P : Type 0} (request : Requests P) (path_escape : Text → Text) (cluster_key : Text)
    (canonical : Text → Text) (path : Text) (entries : P → List Text)
    (api : IsIpset request path_escape cluster_key canonical path entries) where
  abbrev Covered : Text → P → Type 0
  Covered c p = Covers request path_escape cluster_key canonical path entries c p

  -- What adding the entries `want` does; those of `have` are skipped.
  pub record Added (have want : List Text) (p q : P) : Type 0 where
    pub keeps : (e : Text) → Has e (entries p) → Has e (entries q)
    pub only : (e : Text) → Has e (entries q) → Has e (entries p) ⊎ Has (canonical e) want
    pub covers : (c : Text) → Has c want → Has c have ⊎ Covered c q

  -- One entry sent that is its own form: an entry of that form is there afterwards.
  record Sent (c : Text) (p q : P) : Type 0 where
    keeps : (e : Text) → Has e (entries p) → Has e (entries q)
    only : (e : Text) → Has e (entries q) → Has e (entries p) ⊎ (c ≡ canonical e)
    covers : Covered c q

  abbrev post : Text → Exec Text P (List Object)
  post c = request cluster_key Method.post path (("cidr", c) ∷ [])

  abbrev IsGrown : Text → P → P → Type 0
  IsGrown c p q = Grown request path_escape cluster_key canonical path entries c p q

  posted_new : (c : Text) (p q : P) → canonical c ≡ c → IsGrown c p q → Sent c p q
  posted_new c p q h g = record {
    keeps = g.keeps;
    only = λ x k. elim (g.only x k) [ inl a ↦ inl a | inr b ↦ inr (sym (b ∙ h)) ];
    covers = subst (λ x. Covered x q) h g.covers;
  }

  posted_known : (c : Text) (p q : P) → entries q ≡ entries p → Covered c p → Sent c p q
  posted_known c p q e (raw, h, k) = record {
    keeps = λ x k. subst (Has x) (sym e) k;
    only = λ x k. inl (subst (Has x) e k);
    covers = (raw, subst (Has raw) (sym e) h, k);
  }

  send_new-Sent :
      (c : Text) (p : P) (u : Unit {0})
      → canonical c ≡ c
      → (send_new request path_escape cluster_key path (("cidr", c) ∷ []) p).0 ≡ ok u
      → Sent c p (send_new request path_escape cluster_key path (("cidr", c) ∷ []) p).1
  unfolding send_new
  send_new-Sent c p u h k = go (post c p) refl k
    where
      go :
          (r : Except Text (List Object) × P)
          → post c p ≡ r
          → (unless_exists request path_escape cluster_key r).0 ≡ ok u
          → Sent c p (unless_exists request path_escape cluster_key r).1
      go (ok found, q) e k =
          posted_new c p q h (subst (λ r. IsGrown c p r.1) e (api.adds p c found (ap (λ r. r.0) e)))
      go (err x, q) e k = elim (Bool-cases (is_already_exists_err x)) [
        | inl known ↦
            let (same, covered) = api.refuses p c x (ap (λ r. r.0) e) known in
            rw known (posted_known c p q (subst (λ r. entries r.1 ≡ entries p) e same) covered)
        | inr other ↦
            let z : ◌≡◌ {A = Except Text (Unit {0})} (err x) (ok u) = rw other at k in absurd (cc)
      ]

  nothing-Added : (have : List Text) (p : P) → Added have [] p p
  nothing-Added have p = record { keeps = λ e h. h; only = λ e h. inl h; covers = λ c h. absurd h }

  skip-Added :
      (have want : List Text) (c : Text) (p q : P)
      → Has c have
      → Added have want p q
      → Added have (c ∷ want) p q
  skip-Added have want c p q h rest = record {
    keeps = rest.keeps;
    only = λ e k. elim (rest.only e k) [ inl a ↦ inl a | inr b ↦ inr (inr b) ];
    covers = λ x k. elim k [ inl e ↦ inl (subst (λ y. Has y have) e h) | inr b ↦ rest.covers x b ];
  }

  covers_later :
      (x : Text) (p q : P)
      → ((e : Text) → Has e (entries p) → Has e (entries q))
      → Covered x p
      → Covered x q
  covers_later x p q keeps (raw, h, k) = (raw, keeps raw h, k)

  step-Added :
      (have want : List Text) (c : Text) (p q r : P)
      → Sent c p q
      → Added have want q r
      → Added have (c ∷ want) p r
  step-Added have want c p q r first rest = record {
    keeps = λ e h. rest.keeps e (first.keeps e h);
    only = λ e h. elim (rest.only e h) [
      | inl a ↦ elim (first.only e a) [ inl b ↦ inl b | inr b ↦ inr (inl b) ]
      | inr b ↦ inr (inr b)
    ];
    covers = λ x k. elim k [
      | inl e ↦ inr (subst (λ y. Covered y r) e (covers_later c q r rest.keeps first.covers))
      | inr b ↦ rest.covers x b
    ];
  }

  pub add_wanted-Added :
      (have want : List Text) (p : P) (u : Unit {0})
      → ((c : Text) → Has c want → canonical c ≡ c)
      → (add_wanted request path_escape cluster_key path have want p).0 ≡ ok u
      → Added have want p (add_wanted request path_escape cluster_key path have want p).1
  unfolding add_wanted
  add_wanted-Added have [] p u idem h = nothing-Added have p
  add_wanted-Added have (c ∷ want) p u idem h = elim (Bool-cases (contains_string have c)) [
    | inl e ↦ rw e (
        skip-Added have want c p _ (contains→Has have c e)
          (add_wanted-Added have want p u (λ x k. idem x (inr k)) (rw e at h)))
    | inr e ↦
        let (a, sent, rest, same) =
          then_runs (send_new request path_escape cluster_key path (("cidr", c) ∷ []))
            (add_wanted request path_escape cluster_key path have want) p u (rw e at h) in
        rw e (
          subst (λ r. Added have (c ∷ want) p r.1) (sym same)
            (step-Added have want c p _ _ (send_new-Sent c p a (idem c (inl refl)) sent)
              (add_wanted-Added have want _ u (λ x k. idem x (inr k)) rest)))
  ]

  -- What deleting the entries of `have` that are not wanted does.
  pub record Deleted (want : List Text) (have : List (Text × Text)) (p q : P) : Type 0 where
    pub only : (e : Text) → Has e (entries q) → Has e (entries p)
    pub keeps :
        (e : Text)
        → Has e (entries p)
        → Has e (entries q) ⊎ ((c : Text) × Has (c, e) have × (contains_string want c ≡ false))
    pub gone :
        (c raw : Text)
        → Has (c, raw) have
        → contains_string want c ≡ false
        → Has raw (entries q)
        → ⊥

  skip-Deleted :
      (want : List Text) (c raw : Text) (have : List (Text × Text)) (p q : P)
      → contains_string want c ≡ true
      → Deleted want have p q
      → Deleted want ((c, raw) ∷ have) p q
  skip-Deleted want c raw have p q h rest = record {
    only = rest.only;
    keeps = λ e k. elim (rest.keeps e k) [ inl a ↦ inl a | inr (d, m, f) ↦ inr (d, inr m, f) ];
    gone = λ d e k f g. elim k [
      | inl same ↦
          let t : contains_string want d ≡ true =
            subst (λ x. contains_string want x ≡ true) (ap (λ x. x.0) same) h in
          cc
      | inr m ↦ rest.gone d e m f g
    ];
  }

  drop-Deleted :
      (want : List Text) (c raw : Text) (have : List (Text × Text)) (p q r : P)
      → contains_string want c ≡ false
      → entries q ≡ other_than raw (entries p)
      → Deleted want have q r
      → Deleted want ((c, raw) ∷ have) p r
  drop-Deleted want c raw have p q r h same rest = record {
    only = λ e k. (Has-other raw e (entries p) (subst (Has e) same (rest.only e k))).0;
    keeps = λ e k. elim (Has-kept raw e (entries p) k) [
      | inl a ↦ inr (c, inl (ap (λ x. (c, x)) a), h)
      | inr b ↦ elim (rest.keeps e (subst (Has e) (sym same) b)) [
        | inl m ↦ inl m
        | inr (d, m, f) ↦ inr (d, inr m, f)
      ]
    ];
    gone = λ d e k f g. elim k [
      | inl pair ↦
          (Has-other raw e (entries p) (subst (Has e) same (rest.only e g))).1 (ap (λ x. x.1) pair)
      | inr m ↦ rest.gone d e m f g
    ];
  }

  abbrev remove : Text → Exec Text P (Unit {0})
  remove raw = send request path_escape cluster_key Method.delete (path ++ 47 ∷ path_escape raw) []

  remove_entries :
      (raw : Text) (p : P) (u : Unit {0})
      → (remove raw p).0 ≡ ok u
      → entries (remove raw p).1 ≡ other_than raw (entries p)
  remove_entries raw p u h =
      let (found, done, rest, same) =
        bind_runs (request cluster_key Method.delete (path ++ 47 ∷ path_escape raw) [])
          (λ _. pure tt) p u h in
      ap (λ r. entries r.1) same ∙ api.deletes p raw found done

  pub delete_unwanted-Deleted :
      (want : List Text) (have : List (Text × Text)) (p : P) (u : Unit {0})
      → (delete_unwanted request path_escape cluster_key path want have p).0 ≡ ok u
      → Deleted want have p (delete_unwanted request path_escape cluster_key path want have p).1
  unfolding delete_unwanted
  delete_unwanted-Deleted want [] p u h = record {
    only = λ e k. k;
    keeps = λ e k. inl k;
    gone = λ c raw k. absurd k;
  }
  delete_unwanted-Deleted want ((c, raw) ∷ have) p u h =
      elim (Bool-cases (contains_string want c)) [
        | inl e ↦
            rw e (
              skip-Deleted want c raw have p _ e
                (delete_unwanted-Deleted want have p u (rw e at h)))
        | inr e ↦
            let (a, removed, rest, same) =
              then_runs (remove raw)
                (delete_unwanted request path_escape cluster_key path want have) p u (rw e at h) in
            rw e (
              subst (λ r. Deleted want ((c, raw) ∷ have) p r.1) (sym same)
                (drop-Deleted want c raw have p _ _ e (remove_entries raw p a removed)
                  (delete_unwanted-Deleted want have _ u rest)))
      ]
