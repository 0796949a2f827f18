-- ===== src/Worker/Maintains.antt =====
-- Invariants of the worker's state: what its steps keep, whichever of them fail.
use pve_manage.Prelude.{Bool, true, false, if◌then◌else◌}
use pve_manage.Text.{Text}
use pve_manage.Sql.{Except, ok, err, Exec, continue, pure, fail, ◌>>=◌, ◌>>◌}
use pve_manage.Worker.{World, attempt, undo_if, undo_on_error}

module _ {P : Type 0} (Q : World P → Type 0) where
  pub record Maintains {A : Type 0} (m : Exec Text (World P) A) : Type 0 where
    pub at : (w : World P) → Q w → Q (m w).1

  pub Maintains-pure : {A : Type 0} (a : A) → Maintains (pure a)
  Maintains-pure a = record { at = λ w q. q }

  pub Maintains-fail : {A : Type 0} (e : Text) → Maintains (fail {A = A} e)
  Maintains-fail e = record { at = λ w q. q }

  continue_at :
      {A B : Type 0} (r : Except Text A × World P) (f : A → Exec Text (World P) B)
      → ((a : A) → Maintains (f a))
      → Q r.1
      → Q (continue r f).1
  continue_at (ok a, w) f h q = (h a).at w q
  continue_at (err e, w) f h q = q

  pub Maintains-bind :
      {A B : Type 0} (m : Exec Text (World P) A) (f : A → Exec Text (World P) B)
      → Maintains m
      → ((a : A) → Maintains (f a))
      → Maintains (m >>= f)
  unfolding ◌>>=◌
  Maintains-bind m f h k = record { at = λ w q. continue_at (m w) f k (h.at w q) }

  pub Maintains-then :
      {A B : Type 0} (m : Exec Text (World P) A) (n : Exec Text (World P) B)
      → Maintains m
      → Maintains n
      → Maintains (m >> n)
  unfolding ◌>>◌
  Maintains-then m n h k = Maintains-bind m (λ _. n) h (λ _. k)

  pub Maintains-attempt :
      {A : Type 0} (m : Exec Text (World P) A) → Maintains m → Maintains (attempt m)
  unfolding attempt
  Maintains-attempt m h = record { at = λ w q. h.at w q }

  pub Maintains-if :
      {A : Type 0} (b : Bool) (m n : Exec Text (World P) A)
      → Maintains m
      → Maintains n
      → Maintains (if b then m else n)
  Maintains-if true m n h k = h
  Maintains-if false m n h k = k

  undone :
      {A : Type 0} (undo : Exec Text (World P) (Unit {0})) (r : Except Text A × World P)
      → Maintains undo
      → Q r.1
      → Q (undo_if undo r).1
  undone undo (ok a, w) h q = q
  undone undo (err e, w) h q = h.at w q

  pub Maintains-undo_on_error :
      {A : Type 0} (undo : Exec Text (World P) (Unit {0})) (m : Exec Text (World P) A)
      → Maintains undo
      → Maintains m
      → Maintains (undo_on_error undo m)
  unfolding undo_on_error
  Maintains-undo_on_error undo m h k = record { at = λ w q. undone undo (m w) h (k.at w q) }
