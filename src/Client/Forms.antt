-- ===== src/Client/Forms.antt =====
-- The maps `have` and `want` of `ensureVMIPSet` of internal/pve/firewall.go.
use pve_manage.Prelude.{
  ◌≡◌, refl, sym, ◌∙◌, ap, false, ◌⊎◌, inl, inr, List, [], ◌∷◌, if◌then◌else◌, Bool-cases, is_nil,
}
use mathlib.Core.Path.{subst}
use pve_manage.Text.{Text, text_eq, text_eq_iff}
use pve_manage.Client.Ipset.{without, have_of, want_of, keys_of}
use pve_manage.Client.Steps.{Has}

abbrev pub Have : Type 0
Have = List (Text × Text)

module _ (canonical : Text → Text) where
  without_sound :
      (c : Text) (have : Have) (x : Text × Text) → Has x (without canonical c have) → Has x have
  without_sound c [] x h = h
  without_sound c ((d, raw) ∷ have) x h = elim (Bool-cases (text_eq d c)) [
    | inl e ↦ inr (without_sound c have x (rw e at h))
    | inr e ↦
        let k : ((d, raw) ≡ x) ⊎ Has x (without canonical c have) = rw e at h in
        elim k [ inl p ↦ inl p | inr q ↦ inr (without_sound c have x q) ]
  ]

  without_complete :
      (c : Text) (have : Have) (d raw : Text)
      → Has (d, raw) have
      → (c ≡ d) ⊎ Has (d, raw) (without canonical c have)
  without_complete c [] d raw h = absurd h
  without_complete c ((b, r) ∷ have) d raw h = elim (Bool-cases (text_eq b c)) [
    | inl e ↦ elim h [
      | inl p ↦ inl (sym ((text_eq_iff b c).0 e) ∙ ap (λ x. x.0) p)
      | inr q ↦ rw e (without_complete c have d raw q)
    ]
    | inr e ↦ elim h [
      | inl p ↦ inr (rw e (inl p))
      | inr q ↦ elim (without_complete c have d raw q) [
        | inl k ↦ inl k
        | inr k ↦ inr (rw e (inr k))
      ]
    ]
  ]

  abbrev next : Text → Have → Have
  next raw have =
      if is_nil (canonical raw)
      then have
      else (canonical raw, raw) ∷ without canonical (canonical raw) have

  next_sound :
      (raw : Text) (have : Have) (c r : Text)
      → Has (c, r) (next raw have)
      → Has (c, r) have ⊎ ((raw ≡ r) × (canonical r ≡ c))
  next_sound raw have c r h = elim (Bool-cases (is_nil (canonical raw))) [
    | inl e ↦ inl (rw e at h)
    | inr e ↦
        let k : ((canonical raw, raw) ≡ (c, r))
            ⊎ Has (c, r) (without canonical (canonical raw) have) =
          rw e at h in
        elim k [
          | inl p ↦ inr (ap (λ x. x.1) p, ap canonical (sym (ap (λ x. x.1) p)) ∙ ap (λ x. x.0) p)
          | inr q ↦ inl (without_sound (canonical raw) have (c, r) q)
        ]
  ]

  -- Each pair of the map is an entry with its form.
  pub have_of_sound :
      (have : Have) (raws : List Text) (c r : Text)
      → Has (c, r) (have_of canonical have raws)
      → Has (c, r) have ⊎ (Has r raws × (canonical r ≡ c))
  unfolding have_of
  have_of_sound have [] c r h = inl h
  have_of_sound have (raw ∷ raws) c r h = elim (have_of_sound (next raw have) raws c r h) [
    | inl k ↦ elim (next_sound raw have c r k) [ inl a ↦ inl a | inr (e, f) ↦ inr (inl e, f) ]
    | inr (k, f) ↦ inr (inr k, f)
  ]

  abbrev pub HasKey : Text → Have → Type 0
  HasKey c have = (r : Text) × Has (c, r) have

  next_keeps : (raw : Text) (have : Have) (c : Text) → HasKey c have → HasKey c (next raw have)
  next_keeps raw have c (r, h) = elim (Bool-cases (is_nil (canonical raw))) [
    | inl e ↦ rw e (r, h)
    | inr e ↦ rw e (elim (without_complete (canonical raw) have c r h) [
      | inl p ↦ (raw, inl (ap (λ x. (x, raw)) p))
      | inr q ↦ (r, inr q)
    ])
  ]

  have_of_keeps :
      (have : Have) (raws : List Text) (c : Text)
      → HasKey c have
      → HasKey c (have_of canonical have raws)
  unfolding have_of
  have_of_keeps have [] c h = h
  have_of_keeps have (raw ∷ raws) c h =
      have_of_keeps (next raw have) raws c (next_keeps raw have c h)

  -- Each entry that has a form has it in the map.
  pub have_of_complete :
      (have : Have) (raws : List Text) (r : Text)
      → Has r raws
      → is_nil (canonical r) ≡ false
      → HasKey (canonical r) (have_of canonical have raws)
  unfolding have_of
  have_of_complete have [] r h e = absurd h
  have_of_complete have (raw ∷ raws) r h e = elim h [
    | inl p ↦ have_of_keeps (next raw have) raws (canonical r) (
        subst (λ x. HasKey (canonical x) (next raw have)) p
          (let f = subst (λ x. is_nil (canonical x) ≡ false) (sym p) e in rw f (raw, inl refl)))
    | inr q ↦ have_of_complete (next raw have) raws r q e
  ]

  pub want_of_sound :
      (entries : List Text) (c : Text)
      → Has c (want_of canonical entries)
      → (e : Text) × Has e entries × (canonical e ≡ c)
  unfolding want_of
  want_of_sound [] c h = absurd h
  want_of_sound (x ∷ xs) c h = elim (Bool-cases (is_nil (canonical x))) [
    | inl e ↦ let (x', m, k) = want_of_sound xs c (rw e at h) in (x', inr m, k)
    | inr e ↦
        let k : (canonical x ≡ c) ⊎ Has c (want_of canonical xs) = rw e at h in
        elim k [
          | inl p ↦ (x, inl refl, p)
          | inr q ↦ let (x', m, f) = want_of_sound xs c q in (x', inr m, f)
        ]
  ]

  pub want_of_complete :
      (entries : List Text) (e : Text)
      → Has e entries
      → is_nil (canonical e) ≡ false
      → Has (canonical e) (want_of canonical entries)
  unfolding want_of
  want_of_complete [] e h named = absurd h
  want_of_complete (x ∷ xs) e (inl p) named =
      subst (λ y. Has (canonical y) (want_of canonical (x ∷ xs))) p
        (let f = subst (λ y. is_nil (canonical y) ≡ false) (sym p) named in rw f (inl refl))
  want_of_complete (x ∷ xs) e (inr q) named =
      let k = want_of_complete xs e q named in
      elim (Bool-cases (is_nil (canonical x))) [ inl f ↦ rw f k | inr f ↦ rw f (inr k) ]

  pub keys_of-Has : (have : Have) (c : Text) → Has c (keys_of canonical have) → HasKey c have
  keys_of-Has [] c h = absurd h
  keys_of-Has ((d, r) ∷ have) c (inl e) = (r, inl (ap (λ x. (x, r)) e))
  keys_of-Has ((d, r) ∷ have) c (inr h) = let (s, k) = keys_of-Has have c h in (s, inr k)
