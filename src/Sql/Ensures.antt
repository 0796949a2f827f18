-- ===== src/Sql/Ensures.antt =====
-- What holds of the result and the tables when a run of statements reports no error.
use pve_manage.Prelude.{ℕ, ◌≡◌, refl, Option, none, some}
use pve_manage.Text.{Text}
use mathlib.Core.Path.{subst}
use pve_manage.Sql.{
  Session, Except, ok, err, Exec, exec, query, in_tx, begun, close, commit, continue, ◌>>=◌, ◌>>◌,
  tick, next_fault, with_now, pure, on_error, map_err, outcome, after, statement, unless_fault,
  written,
}

module _ {D E A : Type 0} where
  pub record Ensures (P : D → Type 0) (m : Exec E (Session D) A) (Q : A → D → Type 0) : Type 0 where
    pub at : (s : Session D) (a : A) → P s.db → (m s).0 ≡ ok a → Q a (m s).1.db

pub ok_injective : {E A : Type 0} {a b : A} → ◌≡◌ {A = Except E A} (ok a) (ok b) → a ≡ b
ok_injective h = cc

mapped_ok : {E F A : Type 0} (g : E → F) (r : Except E A) (a : A) → map_err g r ≡ ok a → r ≡ ok a
mapped_ok g (ok b) a h = cc
mapped_ok g (err e) a h = cc

module _ {D : Type 0} where
  exec_at :
      (P Q : D → Type 0) (f : D → D) (o : Option Text) (d : D) (a : Unit {0})
      → ((d : D) → P d → Q (f d))
      → P d
      → outcome o tt ≡ ok a
      → Q (after o f d)
  exec_at P Q f none d a step h e = step d h
  exec_at P Q f (some x) d a step h e = cc

  pub Ensures-exec :
      {P Q : D → Type 0} (f : D → D) → ((d : D) → P d → Q (f d)) → Ensures P (exec f) (λ _. Q)
  unfolding exec
  Ensures-exec {P} {Q} f step = record {
    at = λ s a h e. exec_at P Q f (next_fault s.faults) s.db a step h e;
  }

  query_at :
      {A : Type 0} (Q : A → D → Type 0) (o : Option Text) (d : D) (b a : A)
      → Q b d
      → outcome o b ≡ ok a
      → Q a d
  query_at Q none d b a h e = subst (λ x. Q x d) (ok_injective e) h
  query_at Q (some x) d b a h e = cc

  pub Ensures-query :
      {A : Type 0} {P : D → Type 0} {Q : A → D → Type 0} (f : D → A)
      → ((d : D) → P d → Q (f d) d)
      → Ensures P (query f) Q
  unfolding query
  Ensures-query {Q = Q} f step = record {
    at = λ s a h e. query_at Q (next_fault s.faults) s.db (f s.db) a (step s.db h) e;
  }

  written_at :
      {A : Type 0} (Q : A → D → Type 0) (s : Session D) (r : Except Text (A × D)) (a : A)
      → ((b : A) (d : D) → r ≡ ok (b, d) → Q b d)
      → (written s r).0 ≡ ok a
      → Q a (written s r).1.db
  written_at Q s (err x) a step e = cc
  written_at Q s (ok (b, d)) a step e = subst (λ x. Q x d) (ok_injective e) (step b d refl)

  statement_at :
      {A : Type 0} (P : D → Type 0) (Q : A → D → Type 0) (f : D → Except Text (A × D))
      (s : Session D) (o : Option Text) (a : A)
      → ((d : D) (b : A) (d' : D) → P d → f d ≡ ok (b, d') → Q b d')
      → P s.db
      → (unless_fault s f o).0 ≡ ok a
      → Q a (unless_fault s f o).1.db
  statement_at P Q f s none a step p e = written_at Q s (f s.db) a (λ b d h. step s.db b d p h) e
  statement_at P Q f s (some x) a step p e = cc

  pub Ensures-statement :
      {A : Type 0} {P : D → Type 0} {Q : A → D → Type 0} (f : D → Except Text (A × D))
      → ((d : D) (b : A) (d' : D) → P d → f d ≡ ok (b, d') → Q b d')
      → Ensures P (statement f) Q
  unfolding statement
  Ensures-statement {P = P} {Q} f step = record {
    at = λ s a p e. statement_at P Q f s (next_fault s.faults) a step p e;
  }

  pub Ensures-with_now :
      {E A : Type 0} {P : D → Type 0} {Q : A → D → Type 0} (f : ℕ → Exec E (Session D) A)
      → ((now : ℕ) → Ensures P (f now) Q)
      → Ensures P (with_now f) Q
  unfolding with_now
  Ensures-with_now f h = record { at = λ s a. (h s.now).at s a }

  continue_at :
      {E A B : Type 0} (R : A → D → Type 0) (Q : B → D → Type 0) (r : Except E A × Session D)
      (f : A → Exec E (Session D) B) (b : B)
      → ((a : A) → Ensures (R a) (f a) Q)
      → ((a : A) → r.0 ≡ ok a → R a r.1.db)
      → (continue r f).0 ≡ ok b
      → Q b (continue r f).1.db
  continue_at R Q (ok a, s) f b step h e = (step a).at s b (h a refl) e
  continue_at R Q (err x, s) f b step h e = cc

  pub Ensures-bind :
      {E A B : Type 0} {P : D → Type 0} {R : A → D → Type 0} {Q : B → D → Type 0}
      (m : Exec E (Session D) A) (f : A → Exec E (Session D) B)
      → Ensures P m R
      → ((a : A) → Ensures (R a) (f a) Q)
      → Ensures P (m >>= f) Q
  unfolding ◌>>=◌
  Ensures-bind {R = R} {Q} m f h step = record {
    at = λ s b p e. continue_at R Q (m s) f b step (λ a. h.at s a p) e;
  }

  pub Ensures-then :
      {E A B : Type 0} {P R : D → Type 0} {Q : B → D → Type 0} (m : Exec E (Session D) A)
      (n : Exec E (Session D) B)
      → Ensures P m (λ _. R)
      → Ensures R n Q
      → Ensures P (m >> n) Q
  unfolding ◌>>◌
  Ensures-then m n h k = Ensures-bind m (λ _. n) h (λ _. k)

  pub Ensures-const :
      {E A : Type 0} {Q : A → D → Type 0} (m : Exec E (Session D) A)
      → ((a : A) (d : D) → Q a d)
      → Ensures (λ _. Unit {0}) m Q
  Ensures-const m q = record { at = λ s a _ _. q a (m s).1.db }

  pub Ensures-pure :
      {E A : Type 0} {P : D → Type 0} {Q : A → D → Type 0} (a : A)
      → ((d : D) → P d → Q a d)
      → Ensures P (pure {E = E} a) Q
  Ensures-pure {Q = Q} a h = record {
    at = λ s b p e. subst (λ x. Q x s.db) (ok_injective e) (h s.db p);
  }

  pub Ensures-on_error :
      {E F A : Type 0} {P : D → Type 0} {Q : A → D → Type 0} (g : E → F) (m : Exec E (Session D) A)
      → Ensures P m Q
      → Ensures P (on_error g m) Q
  unfolding on_error
  Ensures-on_error g m h = record { at = λ s a p e. h.at s a p (mapped_ok g (m s).0 a e) }

  commit_at :
      {E A : Type 0} (Q : A → D → Type 0) (failed : Text → E) (before : D) (b : A) (s : Session D)
      (o : Option Text) (a : A)
      → Q b s.db
      → (commit failed before b s o).0 ≡ ok a
      → Q a (commit failed before b s o).1.db
  commit_at Q failed before b s none a h e = subst (λ x. Q x s.db) (ok_injective e) h
  commit_at Q failed before b s (some x) a h e = cc

  close_at :
      {E A : Type 0} (Q : A → D → Type 0) (failed : Text → E) (before : D)
      (r : Except E A × Session D) (a : A)
      → ((b : A) → r.0 ≡ ok b → Q b r.1.db)
      → (close failed before r).0 ≡ ok a
      → Q a (close failed before r).1.db
  close_at Q failed before (ok b, s) a h e =
      commit_at Q failed before b s (next_fault s.faults) a (h b refl) e
  close_at Q failed before (err x, s) a h e = cc

  begun_at :
      {E A : Type 0} (P : D → Type 0) (Q : A → D → Type 0) (failed : Text → E)
      (body : Exec E (Session D) A) (s : Session D) (o : Option Text) (a : A)
      → Ensures P body Q
      → P s.db
      → (begun failed body s o).0 ≡ ok a
      → Q a (begun failed body s o).1.db
  begun_at P Q failed body s none a h p e =
      close_at Q failed s.db (body (tick s)) a (λ b. h.at (tick s) b p) e
  begun_at P Q failed body s (some x) a h p e = cc

  -- A committed transaction brings about what its body does.
  pub Ensures-in_tx :
      {E A : Type 0} {P : D → Type 0} {Q : A → D → Type 0} (failed : Text → E)
      (body : Exec E (Session D) A)
      → Ensures P body Q
      → Ensures P (in_tx failed body) Q
  unfolding in_tx
  Ensures-in_tx {P = P} {Q} failed body h = record {
    at = λ s a p e. begun_at P Q failed body s (next_fault s.faults) a h p e;
  }

module _ {D E A : Type 0} {P : D → Type 0} {Q R : A → D → Type 0} {m : Exec E (Session D) A} where
  pub Ensures-weaken : Ensures P m Q → ((a : A) (d : D) → Q a d → R a d) → Ensures P m R
  Ensures-weaken h step = record { at = λ s a p e. step a (m s).1.db (h.at s a p e) }

-- A fact that does not speak of the tables.
pub given :
    {D E A C : Type 0} {P : D → Type 0} {m : Exec E (Session D) A} {Q : A → D → Type 0}
    → (C → Ensures P m Q)
    → Ensures (λ d. C × P d) m Q
given h = record { at = λ s a p k. (h p.0).at s a p.1 k }
