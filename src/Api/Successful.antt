-- ===== src/Api/Successful.antt =====
-- Rules for the tables after a successful request, for the handlers of internal/api.
use mathlib.Core.Path.{subst}
use pve_manage.Prelude.{ℕ, ◌≡◌, refl, sym, Bool, true, false, String}
use pve_manage.Text.{Text}
use pve_manage.Sql.{Except, ok, err}
use pve_manage.Sql.Ensures.{Ensures, Ensures-pure}
use pve_manage.Sql.Atomic.{ReadOnly, ReadOnly-pure, ReadOnly-fail}
use pve_manage.Tables.{Db}
use pve_manage.Api.{User, Api, require, logged_in}
use pve_manage.Api.Groups.{accepted}

pub same : {E A : Type 0} {a b : A} → ◌≡◌ {A = Except E A} (ok a) (ok b) → a ≡ b
same h = cc

pub Ensures-reads : {A : Type 0} (P : Db → Type 0) (m : Api A) → ReadOnly m → Ensures P m (λ _. P)
Ensures-reads P m h = record { at = λ s a p e. subst P (sym (h.at s)) p }

pub ReadOnly-accepted : {A : Type 0} (r : Except Text A) → ReadOnly (accepted r)
unfolding accepted
ReadOnly-accepted (ok a) = ReadOnly-pure a
ReadOnly-accepted (err e) = ReadOnly-fail _

-- A guard that a successful run has passed.
pub Ensures-passed :
    {P Q : Db → Type 0} (c : Bool) (code : ℕ) (text : String)
    → ((d : Db) → P d → c ≡ true → Q d)
    → Ensures P (require c code text) (λ _. Q)
unfolding require
Ensures-passed true code text step = Ensures-pure _ (λ d h. step d h refl)
Ensures-passed false code text step = record { at = λ s a h e. cc }

pub Ensures-logged_in :
    (P : Db → Type 0) (u : Except Text User) (user : User)
    → u ≡ ok user
    → Ensures P (logged_in u) (λ x d. (x ≡ user) × P d)
unfolding logged_in
Ensures-logged_in P (ok v) user h = Ensures-pure v (λ _ p. (same h, p))
Ensures-logged_in P (err e) user h = record { at = λ s a _ k. cc }

pub for_user :
    {A : Type 0} {m : Api A} {P : Db → Type 0} (Q : User → Db → Type 0) {u v : User}
    → u ≡ v
    → Ensures P m (λ _. Q u)
    → Ensures P m (λ _. Q v)
for_user {m = m} {P} Q e h = subst (λ x. Ensures P m (λ _. Q x)) e h
