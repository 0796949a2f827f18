-- ===== src/Sql/Keeps.antt =====
-- Invariants of the tables: what a run of statements keeps, whichever of them fail.
use pve_manage.Prelude.{Bool, true, false, if◌then◌else◌, ℕ, Option, none, some, ◌≡◌, refl}
use pve_manage.Text.{Text}
use pve_manage.Sql.{
  Session, Except, ok, err, Exec, exec, query, in_tx, begun, close, commit, continue, ◌>>=◌, ◌>>◌,
  tick, next_fault, with_now, pure, fail, after, on_error, statement, written, unless_fault,
}

module _ {D : Type 0} (P : D → Type 0) where
  pub record Keeps {E A : Type 0} (m : Exec E (Session D) A) : Type 0 where
    pub at : (s : Session D) → P s.db → P (m s).1.db

  pub Keeps-pure : {E A : Type 0} (a : A) → Keeps (pure {E = E} {S = Session D} a)
  Keeps-pure a = record { at = λ s h. h }

  pub Keeps-fail : {E A : Type 0} (e : E) → Keeps (fail {E = E} {S = Session D} {A = A} e)
  Keeps-fail e = record { at = λ s h. h }

  exec_at : (f : D → D) (s : Session D) → ((d : D) → P d → P (f d)) → P s.db → P (exec f s).1.db
  unfolding exec
  exec_at f s step h = go (next_fault s.faults)
    where
      go : (o : Option Text) → P (after o f s.db)
      go none = step s.db h
      go (some e) = h

  pub Keeps-exec : (f : D → D) → ((d : D) → P d → P (f d)) → Keeps (exec f)
  Keeps-exec f step = record { at = λ s. exec_at f s step }

  written_at :
      {A : Type 0} (s : Session D) (r : Except Text (A × D))
      → P s.db
      → ((a : A) (d : D) → r ≡ ok (a, d) → P d)
      → P (written s r).1.db
  written_at s (err e) h k = h
  written_at s (ok (a, d)) h k = k a d refl

  unless_fault_at :
      {A : Type 0} (s : Session D) (f : D → Except Text (A × D)) (fault : Option Text)
      → P s.db
      → ((a : A) (d : D) → f s.db ≡ ok (a, d) → P d)
      → P (unless_fault s f fault).1.db
  unless_fault_at s f none h k = written_at s (f s.db) h k
  unless_fault_at s f (some e) h k = h

  pub Keeps-statement :
      {A : Type 0} (f : D → Except Text (A × D))
      → ((d : D) (a : A) (d' : D) → P d → f d ≡ ok (a, d') → P d')
      → Keeps (statement f)
  unfolding statement
  Keeps-statement f step = record {
    at = λ s h. unless_fault_at s f (next_fault s.faults) h (λ a d e. step s.db a d h e);
  }

  pub Keeps-query : {A : Type 0} (f : D → A) → Keeps (query f)
  unfolding query
  Keeps-query f = record { at = λ s h. h }

  pub Keeps-with_now :
      {E A : Type 0} (f : ℕ → Exec E (Session D) A)
      → ((now : ℕ) → Keeps (f now))
      → Keeps (with_now f)
  unfolding with_now
  Keeps-with_now f h = record { at = λ s k. (h s.now).at s k }

  continue_at :
      {E A B : Type 0} (r : Except E A × Session D) (f : A → Exec E (Session D) B)
      → ((a : A) → Keeps (f a))
      → P r.1.db
      → P (continue r f).1.db
  continue_at (ok a, s) f h k = (h a).at s k
  continue_at (err e, s) f h k = k

  pub Keeps-bind :
      {E A B : Type 0} (m : Exec E (Session D) A) (f : A → Exec E (Session D) B)
      → Keeps m
      → ((a : A) → Keeps (f a))
      → Keeps (m >>= f)
  unfolding ◌>>=◌
  Keeps-bind m f h k = record { at = λ s p. continue_at (m s) f k (h.at s p) }

  pub Keeps-then :
      {E A B : Type 0} (m : Exec E (Session D) A) (n : Exec E (Session D) B)
      → Keeps m
      → Keeps n
      → Keeps (m >> n)
  unfolding ◌>>◌
  Keeps-then m n h k = Keeps-bind m (λ _. n) h (λ _. k)

  pub Keeps-if :
      {E A : Type 0} (b : Bool) (m n : Exec E (Session D) A)
      → Keeps m
      → Keeps n
      → Keeps (if b then m else n)
  Keeps-if true m n h k = h
  Keeps-if false m n h k = k

  pub Keeps-on_error :
      {E F A : Type 0} (g : E → F) (m : Exec E (Session D) A) → Keeps m → Keeps (on_error g m)
  unfolding on_error
  Keeps-on_error g m h = record { at = λ s p. h.at s p }

  commit_at :
      {E A : Type 0} (failed : Text → E) (before : D) (a : A) (s : Session D) (o : Option Text)
      → P before
      → P s.db
      → P (commit failed before a s o).1.db
  commit_at failed before a s none h k = k
  commit_at failed before a s (some e) h k = h

  close_at :
      {E A : Type 0} (failed : Text → E) (before : D) (r : Except E A × Session D)
      → P before
      → P r.1.db
      → P (close failed before r).1.db
  close_at failed before (ok a, s) h k = commit_at failed before a s (next_fault s.faults) h k
  close_at failed before (err e, s) h k = h

  begun_at :
      {E A : Type 0} (failed : Text → E) (body : Exec E (Session D) A) (s : Session D)
      (o : Option Text)
      → Keeps body
      → P s.db
      → P (begun failed body s o).1.db
  begun_at failed body s none h k = close_at failed s.db (body (tick s)) k (h.at (tick s) k)
  begun_at failed body s (some e) h k = k

  pub Keeps-in_tx :
      {E A : Type 0} (failed : Text → E) (body : Exec E (Session D) A)
      → Keeps body
      → Keeps (in_tx failed body)
  unfolding in_tx
  Keeps-in_tx failed body h = record {
    at = λ s p. begun_at failed body s (next_fault s.faults) h p;
  }
