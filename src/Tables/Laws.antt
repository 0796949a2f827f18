-- ===== src/Tables/Laws.antt =====
-- Laws of `UPDATE` and `DELETE` on a table.
use mathlib.Core.List.{Memᴰ}
use pve_manage.Prelude.{
  sym, ◌∙◌, ap, ◌≡◌, refl, Bool, true, false, List, [], ◌∷◌, ◌++◌, if◌then◌else◌, All, filter,
  Bool-cases, inl, inr,
}
use pve_manage.Tables.{update_where}

module _ {A : Type 0} (P : A → Type 0) where
  All-if : (b : Bool) (x y : A) → (b ≡ true → P y) → (b ≡ false → P x) → P (if b then y else x)
  All-if true x y h k = h refl
  All-if false x y h k = k refl

  -- An update keeps a property of rows that the assignment keeps where the condition holds.
  pub All-update_where :
      (p : A → Bool) (f : A → A) (xs : List A)
      → ((x : A) → p x ≡ true → P x → P (f x))
      → All P xs
      → All P (update_where p f xs)
  unfolding update_where
  All-update_where p f [] step h = tt
  All-update_where p f (x ∷ xs) step (h, hs) =
      (All-if (p x) x (f x) (λ e. step x e h) (λ _. h), All-update_where p f xs step hs)

  -- An update brings about what it assigns, if the other rows have it already.
  pub All-update_where_new :
      (p : A → Bool) (f : A → A) (xs : List A)
      → ((x : A) → p x ≡ true → P (f x))
      → ((x : A) → p x ≡ false → P x)
      → All P (update_where p f xs)
  unfolding update_where
  All-update_where_new p f [] hit miss = tt
  All-update_where_new p f (x ∷ xs) hit miss =
      (All-if (p x) x (f x) (hit x) (miss x), All-update_where_new p f xs hit miss)

module _ {A : Type 0} (p : A → Bool) where
  filter_skip : (b : Bool) (x : A) (xs : List A) → b ≡ false → (if b then x ∷ xs else xs) ≡ xs
  filter_skip true x xs h = cc
  filter_skip false x xs h = refl

  miss :
      (q b : Bool) (f : A → A) (x : A)
      → (p x ≡ true → p (f x) ≡ false)
      → b ≡ p x
      → p (if b then f x else x) ≡ false
  miss q true f x h e = h (sym e)
  miss q false f x h e = sym e

  -- An update after which no row satisfies its own condition.
  pub filter-update_where :
      (f : A → A) (xs : List A)
      → ((x : A) → p x ≡ true → p (f x) ≡ false)
      → filter p (update_where p f xs) ≡ []
  unfolding update_where
  filter-update_where f [] h = refl
  filter-update_where f (x ∷ xs) h =
      filter_skip _ _ _ (miss true (p x) f x (h x) refl) ∙ filter-update_where f xs h

  pub filter-append : (xs ys : List A) → filter p (xs ++ ys) ≡ filter p xs ++ filter p ys
  filter-append [] ys = refl
  filter-append (x ∷ xs) ys = elim (Bool-cases (p x)) [
    | inl e ↦ rw e (ap (λ zs. x ∷ zs) (filter-append xs ys))
    | inr e ↦ rw e (filter-append xs ys)
  ]

module _ {A : Type 0} where
  -- An update keeps the rows that its condition does not select.
  pub mem-update_where :
      (p : A → Bool) (f : A → A) (x : A) (xs : List A)
      → p x ≡ false
      → Memᴰ x xs
      → Memᴰ x (update_where p f xs)
  unfolding update_where
  mem-update_where p f x [] h m = elim m [ ]
  mem-update_where p f x (y ∷ xs) h (Memᴰ.head e) = rw (sym e) (rw h (Memᴰ.head refl))
  mem-update_where p f x (y ∷ xs) h (Memᴰ.tail m) = Memᴰ.tail (mem-update_where p f x xs h m)

  pub mem-append_left : (x : A) (xs ys : List A) → Memᴰ x xs → Memᴰ x (xs ++ ys)
  mem-append_left x [] ys m = elim m [ ]
  mem-append_left x (y ∷ xs) ys (Memᴰ.head e) = Memᴰ.head e
  mem-append_left x (y ∷ xs) ys (Memᴰ.tail m) = Memᴰ.tail (mem-append_left x xs ys m)
