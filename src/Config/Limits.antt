-- ===== src/Config/Limits.antt =====
-- The limit of a user in several groups: `EffectiveUserLimit` of internal/config/config.go.
use mathlib.Core.List.{Memᴰ}
use pve_manage.Prelude.{
  ◌≡◌, refl, sym, ◌∙◌, Bool, true, false, ◌||◌, Option, none, some, List, [], ◌∷◌, arith, any,
  Bool-cases, inl, inr,
}
use pve_manage.Prelude.Int.{ℤ, ◌≤ℤ◌}
use pve_manage.Text.{Text, text_eq, text_eq_refl, codes}
use pve_manage.Config.{
  App, UserLimit, no_limit, larger, raise, merge, merge_groups, or_no_limit, effective_user_limit,
  lookup,
}

-- A limit that allows at least as much of each resource.
pub record ◌≤ₗ◌ (l m : UserLimit) : Type 0 where
  pub number : l.number ≤ℤ m.number
  pub cpu : l.cpu ≤ℤ m.cpu
  pub memory : l.memory ≤ℤ m.memory
  pub storage : l.storage ≤ℤ m.storage
  pub security_group : l.security_group ≤ℤ m.security_group

infix 50 ◌≤ₗ◌
larger-old : (n o : ℤ) → o ≤ℤ larger n o
larger-old n o = ground arith

larger-new : (n o : ℤ) → n ≤ℤ larger n o
larger-new n o = ground arith

larger-least : (n o m : ℤ) → n ≤ℤ m → o ≤ℤ m → larger n o ≤ℤ m
larger-least n o m h k = ground arith

≤ℤ_trans : (a b c : ℤ) → a ≤ℤ b → b ≤ℤ c → a ≤ℤ c
≤ℤ_trans a b c h k = omega arith

≤ₗ_refl : (l : UserLimit) → l ≤ₗ l
≤ₗ_refl l = record {
  number = omega arith;
  cpu = omega arith;
  memory = omega arith;
  storage = omega arith;
  security_group = omega arith;
}

≤ₗ_trans : (k l m : UserLimit) → k ≤ₗ l → l ≤ₗ m → k ≤ₗ m
≤ₗ_trans k l m h i = record {
  number = ≤ℤ_trans k.number l.number m.number h.number i.number;
  cpu = ≤ℤ_trans k.cpu l.cpu m.cpu h.cpu i.cpu;
  memory = ≤ℤ_trans k.memory l.memory m.memory h.memory i.memory;
  storage = ≤ℤ_trans k.storage l.storage m.storage h.storage i.storage;
  security_group =
      ≤ℤ_trans k.security_group l.security_group m.security_group h.security_group i.security_group;
}

module _ (o n : UserLimit) where
  raise-old : o ≤ₗ raise o n
  unfolding raise
  raise-old = record {
    number = larger-old n.number o.number;
    cpu = larger-old n.cpu o.cpu;
    memory = larger-old n.memory o.memory;
    storage = larger-old n.storage o.storage;
    security_group = larger-old n.security_group o.security_group;
  }

  raise-new : n ≤ₗ raise o n
  unfolding raise
  raise-new = record {
    number = larger-new n.number o.number;
    cpu = larger-new n.cpu o.cpu;
    memory = larger-new n.memory o.memory;
    storage = larger-new n.storage o.storage;
    security_group = larger-new n.security_group o.security_group;
  }

  raise-least : (m : UserLimit) → o ≤ₗ m → n ≤ₗ m → raise o n ≤ₗ m
  unfolding raise
  raise-least m h k = record {
    number = larger-least n.number o.number m.number k.number h.number;
    cpu = larger-least n.cpu o.cpu m.cpu k.cpu h.cpu;
    memory = larger-least n.memory o.memory m.memory k.memory h.memory;
    storage = larger-least n.storage o.storage m.storage k.storage h.storage;
    security_group =
        larger-least n.security_group o.security_group m.security_group k.security_group
          h.security_group;
  }

module _ (l : UserLimit) where
  -- The limit so far is there and allows what `l` does.
  abbrev Above : Option UserLimit → Type 0
  Above none = l ≤ₗ no_limit × (true ≡ false)
  Above (some o) = l ≤ₗ o

  merge-Above : (out new : Option UserLimit) → Above out → Above (merge out new)
  merge-Above out none h = h
  merge-Above none (some n) (h, e) = cc
  merge-Above (some o) (some n) h = ≤ₗ_trans l o (raise o n) h (raise-old o n)

  merge-Above_new : (out : Option UserLimit) → Above (merge out (some l))
  merge-Above_new none = ≤ₗ_refl l
  merge-Above_new (some o) = raise-new o l

  or_no_limit-Above : (out : Option UserLimit) → Above out → l ≤ₗ or_no_limit out
  or_no_limit-Above none (h, e) = h
  or_no_limit-Above (some o) h = h

  abbrev Below : Option UserLimit → Type 0
  Below none = Unit
  Below (some o) = o ≤ₗ l

  merge-Below : (out new : Option UserLimit) → Below out → Below new → Below (merge out new)
  merge-Below out none h k = h
  merge-Below none (some n) h k = k
  merge-Below (some o) (some n) h k = raise-least o n l h k

module _ (a : App) where
  merge_groups-Above :
      (l : UserLimit) (out : Option UserLimit) (groups : List Text)
      → Above l out
      → Above l (merge_groups a out groups)
  unfolding merge_groups
  merge_groups-Above l out [] h = h
  merge_groups-Above l out (g ∷ groups) h =
      merge_groups-Above l (merge out (lookup g a.limit)) groups
        (merge-Above l out (lookup g a.limit) h)

  merge_groups-Above_new :
      (l : UserLimit) (g : Text) (out : Option UserLimit) (groups : List Text)
      → Memᴰ g groups
      → lookup g a.limit ≡ some l
      → Above l (merge_groups a out groups)
  unfolding merge_groups
  merge_groups-Above_new l g out [] m h = elim m [ ]
  merge_groups-Above_new l g out (j ∷ groups) (Memᴰ.head e) h =
      merge_groups-Above l (merge out (lookup j a.limit)) groups
        (rw (sym e) (rw h (merge-Above_new l out)))
  merge_groups-Above_new l g out (j ∷ groups) (Memᴰ.tail m) h =
      merge_groups-Above_new l g (merge out (lookup j a.limit)) groups m h

  -- A user may use what any of their groups allows.
  pub effective_user_limit-bound :
      (groups : List Text) (g : Text) (l : UserLimit)
      → Memᴰ g groups
      → lookup g a.limit ≡ some l
      → l ≤ₗ effective_user_limit a groups
  unfolding effective_user_limit
  effective_user_limit-bound groups g l m h =
      or_no_limit-Above l (merge_groups a none groups) (merge_groups-Above_new l g none groups m h)

  merge_groups-Below :
      (m : UserLimit) (out : Option UserLimit) (groups : List Text)
      → ((g : Text) → Memᴰ g groups → Below m (lookup g a.limit))
      → Below m out
      → Below m (merge_groups a out groups)
  unfolding merge_groups
  merge_groups-Below m out [] step h = h
  merge_groups-Below m out (g ∷ groups) step h =
      merge_groups-Below m (merge out (lookup g a.limit)) groups (λ j k. step j (Memᴰ.tail k))
        (merge-Below m out (lookup g a.limit) h (step g (Memᴰ.head refl)))

  below :
      (m : UserLimit) (o : Option UserLimit) → ((l : UserLimit) → o ≡ some l → l ≤ₗ m) → Below m o
  below m none h = tt
  below m (some l) h = h l refl

  or_no_limit-Below :
      (m : UserLimit) (o : Option UserLimit) → Below m o → no_limit ≤ₗ m → or_no_limit o ≤ₗ m
  or_no_limit-Below m none h k = k
  or_no_limit-Below m (some l) h k = h

  -- A user may use no more than that: what is enough for each of their groups, and is not negative,
  -- is enough for their limit.
  pub effective_user_limit-least :
      (groups : List Text) (m : UserLimit)
      → ((g : Text) (l : UserLimit) → Memᴰ g groups → lookup g a.limit ≡ some l → l ≤ₗ m)
      → no_limit ≤ₗ m
      → effective_user_limit a groups ≤ₗ m
  unfolding effective_user_limit
  effective_user_limit-least groups m h k =
      or_no_limit-Below m (merge_groups a none groups)
        (merge_groups-Below m none groups (λ g i. below m (lookup g a.limit) (λ l. h g l i)) tt) k

abbrev pub chooses : Option UserLimit → Bool
chooses none = false
chooses (some l) = text_eq l.uestc (codes "choose")

merge-chooses :
    (out new : Option UserLimit) → chooses (merge out new) ≡ (chooses out || chooses new)
unfolding raise
merge-chooses none none = refl
merge-chooses (some o) none = ground arith
merge-chooses none (some n) = refl
merge-chooses (some o) (some n) = elim (Bool-cases (text_eq n.uestc (codes "choose"))) [
  | inl e ↦ rw e (ground (arith, text_eq_refl (codes "choose")))
  | inr e ↦ rw e (ground arith)
]

module _ (a : App) where
  merge_groups-chooses :
      (out : Option UserLimit) (groups : List Text)
      → chooses (merge_groups a out groups)
        ≡ (chooses out || any (λ g. chooses (lookup g a.limit)) groups)
  unfolding merge_groups
  merge_groups-chooses out [] = ground arith
  merge_groups-chooses out (g ∷ groups) = ground (
    arith,
    merge_groups-chooses (merge out (lookup g a.limit)) groups,
    merge-chooses out (lookup g a.limit),
  )

  chooses-or_no_limit :
      (o : Option UserLimit) → text_eq (or_no_limit o).uestc (codes "choose") ≡ chooses o
  unfolding text_eq
  chooses-or_no_limit none = refl
  chooses-or_no_limit (some l) = refl

  -- A user may choose their network if one of their groups may.
  pub effective_user_limit-uestc :
      (groups : List Text)
      → text_eq (effective_user_limit a groups).uestc (codes "choose")
        ≡ any (λ g. chooses (lookup g a.limit)) groups
  unfolding effective_user_limit
  effective_user_limit-uestc groups =
      chooses-or_no_limit (merge_groups a none groups) ∙ merge_groups-chooses none groups
