-- ===== src/Api/Settles.antt =====
-- Handlers that do all of a change or nothing: what such a run does to the tables.
use mathlib.Core.Path.{subst}
use pve_manage.Prelude.{
  ℕ, String, Bool, true, false, Option, none, some, ◌≡◌, refl, sym, ◌∙◌, ◌⊎◌, inl, inr,
}
use pve_manage.Sql.{Session, Except, ok, err, on_error, continue, pure, fail, ◌>>=◌, ◌>>◌}
use pve_manage.Sql.Atomic.{ReadOnly, Atomic}
use pve_manage.Sql.Ensures.{Ensures}
use pve_manage.Tables.{Db}
use pve_manage.Api.{Api, Reply, require, parsed, server_error, load_vm_row}
use pve_manage.Api.Patch.{patched_reply}
use pve_manage.Api.Authority.{Needs, Needs-const}

-- Accepted, the tables are as `Q` says. Refused, they are unchanged, or as `Q` says where the answer
-- is an error that may come late, after the transaction.
abbrev pub AllOrNothing :
    (Reply → Db → Type 0) → (Db → Type 0) → Db → Except Reply Reply → Db → Type 0
AllOrNothing Late Q before (ok answer) after = Q after
AllOrNothing Late Q before (err e) after = (after ≡ before) ⊎ (Late e after × Q after)

-- The late error of a handler that reads the row of the VM `id` again after its transaction: the one
-- that this reading answers on the tables.
abbrev pub Reread : ℕ → Reply → Db → Type 0
Reread id e after =
    (t : Session Db) × (t.db ≡ after)
    × (((on_error server_error (load_vm_row id) >>= patched_reply) t).0 ≡ err e)

-- A handler that only answers after its transaction has no late error.
abbrev pub Never : Reply → Db → Type 0
Never e after = ⊥

pub never_late :
    {L : Type 0} (answer e : Reply) → ◌≡◌ {A = Except Reply Reply} (ok answer) (err e) → L
never_late answer e h = absurd (cc)

module _ (before : Db) (Late : Reply → Db → Type 0) (Q : Db → Type 0) where
  -- A run from the tables `before`.
  pub record Settles (m : Api Reply) : Type 0 where
    pub at : (s : Session Db) → s.db ≡ before → AllOrNothing Late Q before (m s).0 (m s).1.db

  reads_at :
      {A : Type 0} (r : Except Reply A × Session Db) (f : A → Api Reply)
      → r.1.db ≡ before
      → ((a : A) → r.0 ≡ ok a → Settles (f a))
      → AllOrNothing Late Q before (continue r f).0 (continue r f).1.db
  reads_at (ok a, s) f e h = (h a refl).at s e
  reads_at (err x, s) f e h = inl e

  pub Settles-reads :
      {A : Type 0} (F : A → Type 0) (m : Api A) (f : A → Api Reply)
      → ReadOnly m
      → Needs before m F
      → ((a : A) → F a → Settles (f a))
      → Settles (m >>= f)
  unfolding ◌>>=◌
  Settles-reads F m f reads needs h = record {
    at = λ s e. reads_at (m s) f (reads.at s ∙ e) (λ a k. h a (needs.at s a e k));
  }

  pub Settles-guard :
      {A : Type 0} (m : Api A) (n : Api Reply) → ReadOnly m → Settles n → Settles (m >> n)
  unfolding ◌>>◌
  Settles-guard m n reads h =
      Settles-reads (λ _. Unit {0}) m (λ _. n) reads (Needs-const before m tt) (λ _ _. h)

  answered :
      (x : Except Reply Reply) (d d' : Db)
      → d' ≡ d
      → ((e : Reply) → x ≡ err e → Late e d)
      → Q d
      → AllOrNothing Late Q before x d'
  answered (ok a) d d' e late h = subst Q (sym e) h
  answered (err x) d d' e late h = inr (subst (Late x) (sym e) (late x refl), subst Q (sym e) h)

  commits_at :
      {A : Type 0} (r : Except Reply A × Session Db) (f : A → Api Reply)
      → ((e : Reply) → r.0 ≡ err e → r.1.db ≡ before)
      → ((a : A) → r.0 ≡ ok a → Q r.1.db)
      → ((a : A) → ReadOnly (f a))
      → ((a : A) (s : Session Db) (e : Reply) → (f a s).0 ≡ err e → Late e s.db)
      → AllOrNothing Late Q before (continue r f).0 (continue r f).1.db
  commits_at (err e, s) f h k reads late = inl (h e refl)
  commits_at (ok a, s) f h k reads late =
      answered (f a s).0 s.db (f a s).1.db ((reads a).at s) (late a s) (k a refl)

  pub Settles-commits :
      {A : Type 0} (m : Api A) (n : Api Reply)
      → Atomic m
      → Ensures (λ x. x ≡ before) m (λ _. Q)
      → ReadOnly n
      → ((s : Session Db) (e : Reply) → (n s).0 ≡ err e → Late e s.db)
      → Settles (m >> n)
  unfolding ◌>>◌ ◌>>=◌
  Settles-commits m n atomic ensures reads late = record {
    at = λ s e.
        commits_at (m s) (λ _. n) (λ x k. atomic.at s x k ∙ e) (λ a k. ensures.at s a e k)
          (λ _. reads) (λ _. late);
  }

  pub Settles-pure : (answer : Reply) → Q before → Settles (pure answer)
  Settles-pure answer q = record { at = λ s e. subst Q (sym e) q }

  pub Settles-fail : (e : Reply) → Settles (fail e)
  Settles-fail e = record { at = λ s h. inl h }

  -- A condition that holds when the rest runs.
  pub Settles-require :
      (c : Bool) (code : ℕ) (text : String) (n : Api Reply)
      → (c ≡ true → Settles n)
      → Settles (require c code text >> n)
  unfolding require ◌>>◌ ◌>>=◌
  Settles-require true code text n h = record { at = (h refl).at }
  Settles-require false code text n h = record { at = λ s e. inl e }

  -- A value that is there when the rest runs.
  pub Settles-parsed :
      {A : Type 0} (o : Option A) (text : String) (f : A → Api Reply)
      → ((a : A) → o ≡ some a → Settles (f a))
      → Settles (parsed o text >>= f)
  unfolding parsed ◌>>=◌
  Settles-parsed none text f h = record { at = λ s e. inl e }
  Settles-parsed (some a) text f h = record { at = (h a refl).at }
