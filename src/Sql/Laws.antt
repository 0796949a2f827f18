-- ===== src/Sql/Laws.antt =====
-- The tables after a transaction.
use pve_manage.Prelude.{◌≡◌, refl, Option, none, some, arith}
use pve_manage.Text.{Text}
use pve_manage.Sql.{Session, Except, ok, err, Exec, in_tx, close, begun, next_fault, tick}

module _ {D E A : Type 0} where
  db-close :
      (failed : Text → E) (before : D) (r : Except E A × Session D) {e : E}
      → (close failed before r).0 ≡ err e
      → (close failed before r).1.db ≡ before
  db-close failed before (err x, s) h = refl
  db-close failed before (ok a, s) h = ground arith

  pub db-in_tx :
      (failed : Text → E) (body : Exec E (Session D) A) (s : Session D) {e : E}
      → (in_tx failed body s).0 ≡ err e
      → (in_tx failed body s).1.db ≡ s.db
  unfolding in_tx
  db-in_tx failed body s h = go (next_fault s.faults) h
    where
      go :
          (f : Option Text) {e : E}
          → (begun failed body s f).0 ≡ err e
          → (begun failed body s f).1.db ≡ s.db
      go none k = db-close failed s.db (body (tick s)) k
      go (some x) k = refl
