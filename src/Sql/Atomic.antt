-- ===== src/Sql/Atomic.antt =====
-- Runs of statements that change no table, or none when they report an error.
use pve_manage.Prelude.{ℕ, ◌≡◌, refl, ◌∙◌, Option, none, some}
use pve_manage.Text.{Text}
use pve_manage.Sql.{
  Session, Except, ok, err, Exec, exec, query, statement, written, unless_fault, in_tx, continue,
  ◌>>=◌, ◌>>◌, next_fault, with_now, pure, fail, on_error, map_err, outcome, after,
}
use pve_manage.Sql.Laws.{db-in_tx}

module _ {D E A : Type 0} where
  pub record ReadOnly (m : Exec E (Session D) A) : Type 0 where
    pub at : (s : Session D) → (m s).1.db ≡ s.db

  pub record Atomic (m : Exec E (Session D) A) : Type 0 where
    pub at : (s : Session D) (e : E) → (m s).0 ≡ err e → (m s).1.db ≡ s.db

  pub ReadOnly-pure : (a : A) → ReadOnly (pure a)
  ReadOnly-pure a = record { at = λ s. refl }

  pub ReadOnly-fail : (e : E) → ReadOnly (fail e)
  ReadOnly-fail e = record { at = λ s. refl }

  pub Atomic-of_ReadOnly : (m : Exec E (Session D) A) → ReadOnly m → Atomic m
  Atomic-of_ReadOnly m h = record { at = λ s e _. h.at s }

  pub Atomic-in_tx : (failed : Text → E) (body : Exec E (Session D) A) → Atomic (in_tx failed body)
  Atomic-in_tx failed body = record { at = λ s e h. db-in_tx failed body s h }

  pub Atomic-with_now :
      (f : ℕ → Exec E (Session D) A) → ((now : ℕ) → Atomic (f now)) → Atomic (with_now f)
  unfolding with_now
  Atomic-with_now f h = record { at = λ s. (h s.now).at s }

module _ {D : Type 0} where
  pub ReadOnly-query : {A : Type 0} (f : D → A) → ReadOnly (query f)
  unfolding query
  ReadOnly-query f = record { at = λ s. refl }

  exec_atomic :
      (f : D → D) (o : Option Text) (d : D) {e : Text} → outcome o tt ≡ err e → after o f d ≡ d
  exec_atomic f none d h = cc
  exec_atomic f (some x) d h = refl

  -- One statement is atomic.
  pub Atomic-exec : (f : D → D) → Atomic (exec f)
  unfolding exec
  Atomic-exec f = record { at = λ s e h. exec_atomic f (next_fault s.faults) s.db h }

err_of_map :
    {E F A : Type 0} (g : E → F) (r : Except E A) {f : F}
    → map_err g r ≡ err f
    → (e : E) × (r ≡ err e)
err_of_map g (ok a) h = cc
err_of_map g (err e) h = (e, refl)

module _ {D E F A : Type 0} where
  pub ReadOnly-on_error :
      (g : E → F) (m : Exec E (Session D) A) → ReadOnly m → ReadOnly (on_error g m)
  unfolding on_error
  ReadOnly-on_error g m h = record { at = λ s. h.at s }

  pub Atomic-on_error : (g : E → F) (m : Exec E (Session D) A) → Atomic m → Atomic (on_error g m)
  unfolding on_error
  Atomic-on_error g m h = record { at = λ s e k. let (x, p) = err_of_map g (m s).0 k in h.at s x p }

module _ {D E A B : Type 0} where
  continue_reads :
      (r : Except E A × Session D) (f : A → Exec E (Session D) B)
      → ((a : A) → ReadOnly (f a))
      → (continue r f).1.db ≡ r.1.db
  continue_reads (ok a, s) f h = (h a).at s
  continue_reads (err e, s) f h = refl

  pub ReadOnly-bind :
      (m : Exec E (Session D) A) (f : A → Exec E (Session D) B)
      → ReadOnly m
      → ((a : A) → ReadOnly (f a))
      → ReadOnly (m >>= f)
  unfolding ◌>>=◌
  ReadOnly-bind m f h k = record { at = λ s. continue_reads (m s) f k ∙ h.at s }

  continue-Atomic :
      (r : Except E A × Session D) (f : A → Exec E (Session D) B) (e : E)
      → ((a : A) → Atomic (f a))
      → (continue r f).0 ≡ err e
      → (continue r f).1.db ≡ r.1.db
  continue-Atomic (ok a, s) f e h k = (h a).at s e k
  continue-Atomic (err x, s) f e h k = refl

  -- Reads, then something atomic.
  pub Atomic-bind :
      (m : Exec E (Session D) A) (f : A → Exec E (Session D) B)
      → ReadOnly m
      → ((a : A) → Atomic (f a))
      → Atomic (m >>= f)
  unfolding ◌>>=◌
  Atomic-bind m f h k = record { at = λ s e p. continue-Atomic (m s) f e k p ∙ h.at s }

  pub Atomic-skip :
      (m : Exec E (Session D) A) (n : Exec E (Session D) B)
      → ReadOnly m
      → Atomic n
      → Atomic (m >> n)
  unfolding ◌>>◌ ◌>>=◌
  Atomic-skip m n h k = Atomic-bind m (λ _. n) h (λ _. k)

  continue-pure :
      (r : Except E A × Session D) (b : B) (e : E)
      → (continue r (λ _. pure b)).0 ≡ err e
      → (x : E) × (r.0 ≡ err x)
  continue-pure (ok a, s) b e h = cc
  continue-pure (err x, s) b e h = (x, refl)

  continue_same : (r : Except E A × Session D) (b : B) → (continue r (λ _. pure b)).1.db ≡ r.1.db
  continue_same (ok a, s) b = refl
  continue_same (err x, s) b = refl

  -- Something atomic, then a reply.
  pub Atomic-then : (m : Exec E (Session D) A) (b : B) → Atomic m → Atomic (m >> pure b)
  unfolding ◌>>◌ ◌>>=◌
  Atomic-then m b h = record {
    at = λ s e p. let (x, q) = continue-pure (m s) b e p in continue_same (m s) b ∙ h.at s x q;
  }

  continue_ok :
      (r : Except E A × Session D) (f : A → Exec E (Session D) B) (b : B)
      → (continue r f).0 ≡ ok b
      → (a : A) × (r.0 ≡ ok a) × ((f a r.1).0 ≡ ok b)
  continue_ok (ok a, s) f b h = (a, refl, h)
  continue_ok (err e, s) f b h = cc

  -- A successful run's two halves succeeded.
  pub bind_ok :
      (m : Exec E (Session D) A) (f : A → Exec E (Session D) B) (s : Session D) (b : B)
      → ((m >>= f) s).0 ≡ ok b
      → (a : A) × ((m s).0 ≡ ok a) × ((f a (m s).1).0 ≡ ok b)
  unfolding ◌>>=◌
  bind_ok m f s b h = continue_ok (m s) f b h

module _ {D E A B : Type 0} where
  pub ReadOnly-then :
      (m : Exec E (Session D) A) (n : Exec E (Session D) B)
      → ReadOnly m
      → ReadOnly n
      → ReadOnly (m >> n)
  unfolding ◌>>◌
  ReadOnly-then m n h k = ReadOnly-bind m (λ _. n) h (λ _. k)

module _ {D A : Type 0} where
  written_failed :
      (s : Session D) (r : Except Text (A × D)) {e : Text}
      → (written s r).0 ≡ err e
      → (written s r).1.db ≡ s.db
  written_failed s (err x) h = refl
  written_failed s (ok (a, d)) h = cc

  unless_fault_failed :
      (f : D → Except Text (A × D)) (s : Session D) (o : Option Text) {e : Text}
      → (unless_fault s f o).0 ≡ err e
      → (unless_fault s f o).1.db ≡ s.db
  unless_fault_failed f s none h = written_failed s (f s.db) h
  unless_fault_failed f s (some x) h = refl

  -- So is a statement with a result.
  pub Atomic-statement : (f : D → Except Text (A × D)) → Atomic (statement f)
  unfolding statement
  Atomic-statement f = record { at = λ s e h. unless_fault_failed f s (next_fault s.faults) h }
