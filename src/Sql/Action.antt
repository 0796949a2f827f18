-- ===== src/Sql/Action.antt =====
-- Go's `(T, error)` results over a state that is passed along.
pub data Except (E A : Type 0) : Type 0 where
  ok : A → Except E A
  err : E → Except E A

abbrev pub Exec : Type 0 → Type 0 → Type 0 → Type 0
Exec E S A = S → Except E A × S

module _ {E S A : Type 0} where
  abbrev pub pure : A → Exec E S A
  pure a s = (ok a, s)

  abbrev pub fail : E → Exec E S A
  fail e s = (err e, s)

module _ {E S A B : Type 0} where
  abbrev pub continue : Except E A × S → (A → Exec E S B) → Except E B × S
  continue (ok a, s) f = f a s
  continue (err e, s) f = (err e, s)

  infixl 5 ◌>>=◌ ◌>>◌
  unfoldable pub ◌>>=◌ : Exec E S A → (A → Exec E S B) → Exec E S B
  ◌>>=◌ m f s = continue (m s) f

  unfoldable pub ◌>>◌ : Exec E S A → Exec E S B → Exec E S B
  m >> n = m >>= λ _. n

abbrev pub map_err : {E F A : Type 0} → (E → F) → Except E A → Except F A
map_err f (ok a) = ok a
map_err f (err e) = err (f e)

-- `if err != nil { … }` with another error.
unfoldable pub on_error : {E F S A : Type 0} → (E → F) → Exec E S A → Exec F S A
on_error f m s = let (r, s') = m s in (map_err f r, s')
