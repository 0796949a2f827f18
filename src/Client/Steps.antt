-- ===== src/Client/Steps.antt =====
-- What is relied on of Proxmox VE for an IP set, and what the two loops of `ensureVMIPSet` of
-- internal/pve/firewall.go do to it.
use pve_manage.Prelude.{
  ◌≡◌, ◌≢◌, refl, sym, ◌∙◌, true, false, not, ◌⊎◌, inl, inr, List, [], ◌∷◌, ◌++◌, map, arith,
  filter, Bool-cases,
}
use pve_manage.Text.{Text, text_eq, text_eq_iff, text_eq_refl, contains_string}
use pve_manage.Json.{Object}
use pve_manage.Sql.{Exec, Except, ok, err, continue, ◌>>=◌, ◌>>◌}
use pve_manage.Client.{Method, Requests}
use pve_manage.Client.Firewall.{is_already_exists_err}
use pve_manage.Client.Ipset.{cidr_of}

abbrev pub Has : {A : Type 0} → A → List A → Type 0
Has a [] = ⊥
Has a (x ∷ xs) = (x ≡ a) ⊎ Has a xs

pub Has-append : {A : Type 0} (a : A) (xs ys : List A) → Has a (xs ++ ys) → Has a xs ⊎ Has a ys
Has-append a [] ys h = inr h
Has-append a (x ∷ xs) ys (inl e) = inl (inl e)
Has-append a (x ∷ xs) ys (inr h) = elim (Has-append a xs ys h) [
  | inl k ↦ inl (inr k)
  | inr k ↦ inr k
]

pub Has-left : {A : Type 0} (a : A) (xs ys : List A) → Has a xs → Has a (xs ++ ys)
Has-left a [] ys h = absurd h
Has-left a (x ∷ xs) ys (inl e) = inl e
Has-left a (x ∷ xs) ys (inr h) = inr (Has-left a xs ys h)

pub Has-right : {A : Type 0} (a : A) (xs ys : List A) → Has a ys → Has a (xs ++ ys)
Has-right a [] ys h = h
Has-right a (x ∷ xs) ys h = inr (Has-right a xs ys h)

pub contains→Has : (xs : List Text) (a : Text) → contains_string xs a ≡ true → Has a xs
unfolding contains_string
contains→Has [] a h = absurd (cc)
contains→Has (x ∷ xs) a h = elim (Bool-cases (text_eq x a)) [
  | inl e ↦ inl ((text_eq_iff x a).0 e)
  | inr e ↦ inr (contains→Has xs a (rw e at h))
]

pub Has→contains : (xs : List Text) (a : Text) → Has a xs → contains_string xs a ≡ true
unfolding contains_string
Has→contains [] a h = absurd h
Has→contains (x ∷ xs) a (inl e) = rw e (rw (text_eq_refl a) refl)
Has→contains (x ∷ xs) a (inr h) = let k = Has→contains xs a h in ground arith

-- The entries other than one.
abbrev pub other_than : Text → List Text → List Text
other_than raw xs = filter (λ x. not (text_eq x raw)) xs

different : (x a raw : Text) → x ≡ a → text_eq x raw ≡ false → raw ≢ a
different x a raw e h k = let q = (text_eq_iff x raw).1 (e ∙ sym k) in cc

pub Has-other : (raw a : Text) (xs : List Text) → Has a (other_than raw xs) → Has a xs × (raw ≢ a)
Has-other raw a [] h = absurd h
Has-other raw a (x ∷ xs) h = elim (Bool-cases (text_eq x raw)) [
  | inl e ↦ let k = Has-other raw a xs (rw e at h) in (inr k.0, k.1)
  | inr e ↦
      let k : (x ≡ a) ⊎ Has a (other_than raw xs) = rw e at h in
      elim k [
        | inl p ↦ (inl p, different x a raw p e)
        | inr q ↦ (inr (Has-other raw a xs q).0, (Has-other raw a xs q).1)
      ]
]

pub Has-kept : (raw a : Text) (xs : List Text) → Has a xs → (raw ≡ a) ⊎ Has a (other_than raw xs)
Has-kept raw a [] h = absurd h
Has-kept raw a (x ∷ xs) h = elim (Bool-cases (text_eq x raw)) [
  | inl e ↦ elim h [
    | inl p ↦ inl (sym ((text_eq_iff x raw).0 e) ∙ p)
    | inr q ↦ rw e (Has-kept raw a xs q)
  ]
  | inr e ↦ elim h [
    | inl p ↦ inr (rw e (inl p))
    | inr q ↦ elim (Has-kept raw a xs q) [ inl k ↦ inl k | inr k ↦ inr (rw e (inr k)) ]
  ]
]

module _ {P A B : Type 0} where
  -- A successful run of two steps: each has succeeded, and the state is that after the second.
  pub bind_runs :
      (m : Exec Text P A) (f : A → Exec Text P B) (p : P) (b : B)
      → ((m >>= f) p).0 ≡ ok b
      → (a : A) × ((m p).0 ≡ ok a) × ((f a (m p).1).0 ≡ ok b) × ((m >>= f) p ≡ f a (m p).1)
  unfolding ◌>>=◌
  bind_runs m f p b h = go (m p) h
    where
      go :
          (r : Except Text A × P)
          → (continue r f).0 ≡ ok b
          → (a : A) × (r.0 ≡ ok a) × ((f a r.1).0 ≡ ok b) × (continue r f ≡ f a r.1)
      go (ok a, q) k = (a, refl, k, refl)
      go (err e, q) k = absurd (cc)

  pub then_runs :
      (m : Exec Text P A) (n : Exec Text P B) (p : P) (b : B)
      → ((m >> n) p).0 ≡ ok b
      → (a : A) × ((m p).0 ≡ ok a) × ((n (m p).1).0 ≡ ok b) × ((m >> n) p ≡ n (m p).1)
  unfolding ◌>>◌
  then_runs m n p b h = bind_runs m (λ _. n) p b h

module _ {P : Type 0} (request : Requests P) (path_escape : Text → Text) (cluster_key : Text)
    (canonical : Text → Text) (path : Text) (entries : P → List Text) where
  -- Some entry of the set has the canonical form `c`.
  abbrev pub Covers : Text → P → Type 0
  Covers c p = (raw : Text) × Has raw (entries p) × (canonical raw ≡ c)

  -- The entry sent as `c` is in the set: an entry of its form is there, all the old ones are, and
  -- any other entry was there. In which form it is written, and where, is left open.
  pub record Grown (c : Text) (p q : P) : Type 0 where
    pub keeps : (e : Text) → Has e (entries p) → Has e (entries q)
    pub only : (e : Text) → Has e (entries q) → Has e (entries p) ⊎ (canonical e ≡ canonical c)
    pub covers : Covers (canonical c) q

  -- What is relied on of the entries of an IP set under the requests on it.
  pub record IsIpset : Type 0 where
    pub lists :
        (p : P) (found : List Object)
        → (request cluster_key Method.get path [] p).0 ≡ ok found
        → map cidr_of found ≡ entries p
    pub lists_only : (p : P) → entries (request cluster_key Method.get path [] p).1 ≡ entries p
    pub adds :
        (p : P) (c : Text) (found : List Object)
        → (request cluster_key Method.post path (("cidr", c) ∷ []) p).0 ≡ ok found
        → Grown c p (request cluster_key Method.post path (("cidr", c) ∷ []) p).1
    pub refuses :
        (p : P) (c e : Text)
        → (request cluster_key Method.post path (("cidr", c) ∷ []) p).0 ≡ err e
        → is_already_exists_err e ≡ true
        → (entries (request cluster_key Method.post path (("cidr", c) ∷ []) p).1 ≡ entries p)
          × Covers c p
    pub deletes :
        (p : P) (raw : Text) (found : List Object)
        → (request cluster_key Method.delete (path ++ 47 ∷ path_escape raw) [] p).0 ≡ ok found
        → entries (request cluster_key Method.delete (path ++ 47 ∷ path_escape raw) [] p).1
          ≡ other_than raw (entries p)
