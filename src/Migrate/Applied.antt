-- ===== src/Migrate/Applied.antt =====
-- The database after `Migrate` and `applyMigration` of internal/db/migrate.go.
use pve_manage.Prelude.{
  ℕ, ◌≡◌, refl, sym, ◌∙◌, ap, Bool, true, false, Option, none, some, List, [], ◌∷◌, arith,
  if◌then◌else◌, ==_refl, All, All-weaken,
}
use mathlib.Core.Path.{subst}
use pve_manage.Text.{Text}
use pve_manage.Sql.{
  Session, Except, ok, err, Exec, exec, query, continue, outcome, tick, next_fault, after,
  later_faults, ◌>>=◌, ◌>>◌,
}
use pve_manage.Sql.Ensures.{
  Ensures, Ensures-exec, Ensures-query, Ensures-statement, Ensures-bind, Ensures-then, Ensures-pure,
}
use pve_manage.Sql.Keeps.{Keeps, Keeps-exec, Keeps-then, Keeps-pure}
use pve_manage.Migrate.{
  Migration, Schema, control, restored, all_or_nothing, is_applied, changed, record_version,
  apply_new, apply_migration, migrate_each, migrate,
}

same : {E A : Type 0} {a b : A} → ◌≡◌ {A = Except E A} (ok a) (ok b) → a ≡ b
same h = cc

module _ {D : Type 0} where
  Ensures-control : {P Q : D → Type 0} → ((d : D) → P d → Q d) → Ensures P control (λ _. Q)
  unfolding control
  Ensures-control step = Ensures-exec _ step

  Keeps-control : (P : D → Type 0) → Keeps P control
  unfolding control
  Keeps-control P = Keeps-exec P _ (λ d h. h)

  restored_at :
      (Q : D → Type 0) (before : D) (r : Except Text (Unit {0}) × Session D) (a : Unit {0})
      → ((b : Unit {0}) → r.0 ≡ ok b → Q r.1.db)
      → (restored before r).0 ≡ ok a
      → Q (restored before r).1.db
  restored_at Q before (ok b, s) a h e = h b refl
  restored_at Q before (err x, s) a h e = cc

  Ensures-all_or_nothing :
      {P Q : D → Type 0} (body : Exec Text (Session D) (Unit {0}))
      → Ensures P body (λ _. Q)
      → Ensures P (all_or_nothing body) (λ _. Q)
  unfolding all_or_nothing
  Ensures-all_or_nothing {Q = Q} body h = record {
    at = λ s a p e. restored_at Q s.db (body s) a (λ b. h.at s b p) e;
  }

  restored_keeps :
      (P : D → Type 0) (before : D) (r : Except Text (Unit {0}) × Session D)
      → P before
      → P r.1.db
      → P (restored before r).1.db
  restored_keeps P before (ok b, s) h k = k
  restored_keeps P before (err x, s) h k = h

  Keeps-all_or_nothing :
      (P : D → Type 0) (body : Exec Text (Session D) (Unit {0}))
      → Keeps P body
      → Keeps P (all_or_nothing body)
  unfolding all_or_nothing
  Keeps-all_or_nothing P body h = record { at = λ s p. restored_keeps P s.db (body s) p (h.at s p) }

  asked :
      {A : Type 0} (P : D → Type 0) (f : D → A) (k : A → Exec Text (Session D) (Unit {0}))
      (s : Session D) (o : Option Text)
      → ((d : D) → P d → Keeps P (k (f d)))
      → P s.db
      → P (continue (outcome o (f s.db), tick s) k).1.db
  asked P f k s none h p = (h s.db p).at (tick s) p
  asked P f k s (some e) h p = p

  -- What is done with the answer to a query.
  Keeps-query_bind :
      {A : Type 0} (P : D → Type 0) (f : D → A) (k : A → Exec Text (Session D) (Unit {0}))
      → ((d : D) → P d → Keeps P (k (f d)))
      → Keeps P (query f >>= k)
  unfolding query ◌>>=◌
  Keeps-query_bind P f k h = record { at = λ s p. asked P f k s (next_fault s.faults) h p }

  undone :
      (before : D) (r : Except Text (Unit {0}) × Session D) (e : Text)
      → (restored before r).0 ≡ err e
      → (restored before r).1.db ≡ before
  undone before (ok b, s) e h = cc
  undone before (err x, s) e h = refl

Ensures-if :
    {D A : Type 0} {P : D → Type 0} {Q : A → D → Type 0} (b : Bool) (m n : Exec Text (Session D) A)
    → (b ≡ true → Ensures P m Q)
    → (b ≡ false → Ensures P n Q)
    → Ensures P (if b then m else n) Q
Ensures-if true m n h k = h refl
Ensures-if false m n h k = k refl

module _ {D : Type 0} (run : Text → D → Except Text D) where
  -- Which migrations the database has.
  abbrev pub HasAll : List Migration → Schema D → Type 0
  HasAll ms d = All (λ m. is_applied run m.version d ≡ true) ms

  grows :
      (version v : ℕ) (d : Schema D)
      → is_applied run version d ≡ true
      → is_applied run version (record_version run v d) ≡ true
  unfolding is_applied
  grows version v d h = ground arith

  own : (v : ℕ) (d : Schema D) → is_applied run v (record_version run v d) ≡ true
  unfolding is_applied
  own v d = ground (arith, ==_refl v)

  changed-versions :
      (version : ℕ) (d : Schema D) (r : Except Text D) (a : Unit {0}) (d' : Schema D)
      → is_applied run version d ≡ true
      → changed run d r ≡ ok (a, d')
      → is_applied run version d' ≡ true
  unfolding is_applied
  changed-versions version d (ok c) a d' h e =
      subst (λ x. is_applied run version x ≡ true) (ap (λ y. y.1) (same e)) h
  changed-versions version d (err x) a d' h e = cc

  HasAll-changed :
      (ms : List Migration) (d : Schema D) (r : Except Text D) (a : Unit {0}) (d' : Schema D)
      → HasAll ms d
      → changed run d r ≡ ok (a, d')
      → HasAll ms d'
  HasAll-changed ms d r a d' h e =
      All-weaken _ _ ms (λ m k. changed-versions m.version d r a d' k e) h

  Ensures-new :
      (m : Migration) (ms : List Migration)
      → Ensures (HasAll ms) (apply_new run m) (λ _. HasAll (m ∷ ms))
  unfolding apply_new
  Ensures-new m ms =
      Ensures-then {R = HasAll ms} _ _
        (Ensures-statement _ λ d a d' h e. HasAll-changed ms d (run m.sql d.content) a d' h e)
        (Ensures-then {R = HasAll (m ∷ ms)} _ _
          (Ensures-exec _
            λ d h. (own m.version d, All-weaken _ _ ms (λ n k. grows n.version m.version d k) h))
          (Ensures-control (λ d h. h)))

  Ensures-apply :
      (m : Migration) (ms : List Migration)
      → Ensures (HasAll ms) (apply_migration run m) (λ _. HasAll (m ∷ ms))
  unfolding apply_migration
  Ensures-apply m ms = Ensures-then _ _ (Ensures-control (λ d h. h)) (
      Ensures-all_or_nothing _ (
        Ensures-bind {R = λ b d. (b ≡ is_applied run m.version d) × HasAll ms d} _ _
          (Ensures-query _ λ d h. (refl, h))
          λ applied.
            Ensures-if applied _ _ (λ e. Ensures-control λ d h. (sym h.0 ∙ e, h.1))
              (λ e. forget (Ensures-new m ms))))
    where
      forget :
          {P Q R : Schema D → Type 0} {n : Exec Text (Session (Schema D)) (Unit {0})}
          → Ensures P n (λ _. Q)
          → Ensures (λ d. R d × P d) n (λ _. Q)
      forget h = record { at = λ s a p. h.at s a p.1 }

  Ensures-each :
      (ms done : List Migration)
      → Ensures (HasAll done) (migrate_each run ms) (λ _ d. HasAll done d × HasAll ms d)
  unfolding migrate_each
  Ensures-each [] done = Ensures-pure tt (λ d h. (h, tt))
  Ensures-each (m ∷ ms) done = Ensures-then _ _ (Ensures-control (λ d h. h)) (
      Ensures-then _ _ (Ensures-apply m done)
        (Ensures-then _ _ (Ensures-control (λ d h. h)) (shuffle (Ensures-each ms (m ∷ done)))))
    where
      shuffle :
          {P : Schema D → Type 0} {n : Exec Text (Session (Schema D)) (Unit {0})}
          → Ensures P n (λ _ d. HasAll (m ∷ done) d × HasAll ms d)
          → Ensures P n (λ _ d. HasAll done d × HasAll (m ∷ ms) d)
      shuffle h = record { at = λ s a p e. let ((x, y), z) = h.at s a p e in (y, (x, z)) }

  Ensures-migrate :
      (ms : List Migration) → Ensures (λ _. Unit {0}) (migrate run ms) (λ _. HasAll ms)
  unfolding migrate
  Ensures-migrate ms =
      Ensures-then {R = HasAll []} _ _ (Ensures-control (λ d h. tt)) (second (Ensures-each ms []))
    where
      second :
          {P Q R : Schema D → Type 0} {n : Exec Text (Session (Schema D)) (Unit {0})}
          → Ensures P n (λ _ d. R d × Q d)
          → Ensures P n (λ _. Q)
      second h = record { at = λ s a p e. (h.at s a p e).1 }

  begin_failed :
      (body : Exec Text (Session (Schema D)) (Unit {0})) (s : Session (Schema D)) (o : Option Text)
      (e : Text)
      → (continue
          (outcome o tt, record s { db = after o (λ d. d) s.db; faults = later_faults s.faults })
          (λ _. all_or_nothing body)).0
        ≡ err e
      → (continue
          (outcome o tt, record s { db = after o (λ d. d) s.db; faults = later_faults s.faults })
          (λ _. all_or_nothing body)).1.db
        ≡ s.db
  unfolding all_or_nothing
  begin_failed body s none e h = undone s.db (body (tick s)) e h
  begin_failed body s (some x) e h = refl

  -- A migration that fails, at whichever statement, leaves the database as it was.
  pub apply_migration_failed :
      (m : Migration) (s : Session (Schema D)) (e : Text)
      → (apply_migration run m s).0 ≡ err e
      → (apply_migration run m s).1.db ≡ s.db
  unfolding apply_migration control exec ◌>>=◌ ◌>>◌
  apply_migration_failed m s e h =
      begin_failed
        (query (is_applied run m.version) >>= λ applied.
          if applied then control else apply_new run m)
        s (next_fault s.faults) e h

  module _ (d : Schema D) where
    abbrev Same : Schema D → Type 0
    Same x = x ≡ d

    Keeps-applied :
        (m : Migration) → is_applied run m.version d ≡ true → Keeps Same (apply_migration run m)
    unfolding apply_migration
    Keeps-applied m h = Keeps-then Same _ _ (Keeps-control Same) (
        Keeps-all_or_nothing Same _ (
          Keeps-query_bind Same _ _ λ x e.
            subst (λ b. Keeps Same (if b then control else apply_new run m))
              (sym (ap (is_applied run m.version) e ∙ h)) (Keeps-control Same)))

    Keeps-each : (ms : List Migration) → HasAll ms d → Keeps Same (migrate_each run ms)
    unfolding migrate_each
    Keeps-each [] h = Keeps-pure Same tt
    Keeps-each (m ∷ ms) (h, hs) = Keeps-then Same _ _ (Keeps-control Same) (
        Keeps-then Same _ _ (Keeps-applied m h)
          (Keeps-then Same _ _ (Keeps-control Same) (Keeps-each ms hs)))

    Keeps-migrate : (ms : List Migration) → HasAll ms d → Keeps Same (migrate run ms)
    unfolding migrate
    Keeps-migrate ms h = Keeps-then Same _ _ (Keeps-control Same) (Keeps-each ms h)

  -- After a run of `Migrate` that succeeded, another run of it with the same migrations, whatever
  -- fails in it, changes nothing in the database.
  pub migrate_again :
      (ms : List Migration) (s t : Session (Schema D)) (done : Unit {0})
      → (migrate run ms s).0 ≡ ok done
      → t.db ≡ (migrate run ms s).1.db
      → (migrate run ms t).1.db ≡ (migrate run ms s).1.db
  migrate_again ms s t done h e =
      (Keeps-migrate (migrate run ms s).1.db ms ((Ensures-migrate ms).at s done tt h)).at t e
