-- ===== src/Auth/Checks.antt =====
-- What the checks of the handlers in internal/auth/auth.go establish.
use pve_manage.Prelude.{◌≡◌, refl, Bool, true, false, Option, none, some}
use pve_manage.Sql.{Session, Except, ok, err, Exec, ◌>>=◌, ◌>>◌}
use pve_manage.Sql.Atomic.{ReadOnly, ReadOnly-pure, ReadOnly-fail}
use pve_manage.Sql.Ensures.{Ensures}
use pve_manage.Auth.Handlers.{some_or, ok_or, guard}

module _ {D E : Type 0} where
  pub ReadOnly-some_or : {A : Type 0} (e : E) (o : Option A) → ReadOnly {D = D} (some_or e o)
  unfolding some_or
  ReadOnly-some_or e none = ReadOnly-fail e
  ReadOnly-some_or e (some a) = ReadOnly-pure a

  pub ReadOnly-ok_or :
      {F A : Type 0} (f : F → E) (result : Except F A) → ReadOnly {D = D} (ok_or f result)
  unfolding ok_or
  ReadOnly-ok_or f (ok a) = ReadOnly-pure a
  ReadOnly-ok_or f (err x) = ReadOnly-fail (f x)

  pub ReadOnly-guard : (e : E) (b : Bool) → ReadOnly {D = D} (guard e b)
  unfolding guard
  ReadOnly-guard e true = ReadOnly-pure tt
  ReadOnly-guard e false = ReadOnly-fail e

module _ {D E B : Type 0} {P : D → Type 0} {Q : B → D → Type 0} where
  pub Ensures-some_or :
      {A : Type 0} (e : E) (o : Option A) (f : A → Exec E (Session D) B)
      → ((a : A) → o ≡ some a → Ensures P (f a) Q)
      → Ensures P (some_or e o >>= f) Q
  unfolding some_or ◌>>=◌
  Ensures-some_or e none f step = record { at = λ s a p h. cc }
  Ensures-some_or e (some a) f step = record { at = (step a refl).at }

  pub Ensures-ok_or :
      {F A : Type 0} (g : F → E) (result : Except F A) (f : A → Exec E (Session D) B)
      → ((a : A) → result ≡ ok a → Ensures P (f a) Q)
      → Ensures P (ok_or g result >>= f) Q
  unfolding ok_or ◌>>=◌
  Ensures-ok_or g (err x) f step = record { at = λ s a p h. cc }
  Ensures-ok_or g (ok a) f step = record { at = (step a refl).at }

  pub Ensures-guard :
      (e : E) (b : Bool) (m : Exec E (Session D) B)
      → (b ≡ true → Ensures P m Q)
      → Ensures P (guard e b >> m) Q
  unfolding guard ◌>>◌ ◌>>=◌
  Ensures-guard e true m step = record { at = (step refl).at }
  Ensures-guard e false m step = record { at = λ s a p h. cc }
