-- ===== src/Services/Keeps.antt =====
-- Rules for what a service keeps: a property of the database that each step of it preserves.
use piscis_engine.Prelude.{◌≡◌, refl, Bool, true, false, Option, none, some}
use piscis_engine.Model.{PoolEvent}
use piscis_engine.Store.{Db, Error, Result, ok, err}
use piscis_engine.Services.Base.{
  World, M, after, ◌>>=◌, ◌>>◌, pure, fail, ensure, read, try_read, write, try_write, require,
  caught, attempt, emit, written,
}

pub record Keeps (P : Db → Type 0) {A : Type 0} (m : M A) : Type 0 where
  pub run : (w : World) → P w.db → P (m w).1.db

module _ (P : Db → Type 0) where
  after-Keeps :
      {A B : Type 0} (r : Result A × World) (f : A → M B)
      → ((a : A) → Keeps P (f a))
      → P r.1.db
      → P (after r f).1.db
  after-Keeps (ok a, w) f k h = (k a).run w h
  after-Keeps (err e, w) f k h = h

  pub bind-Keeps :
      {A B : Type 0} {m : M A} {f : A → M B}
      → Keeps P m
      → ((a : A) → Keeps P (f a))
      → Keeps P (m >>= f)
  bind-Keeps {m} {f} km kf = record { run = λ w h. after-Keeps (m w) f kf (km.run w h) }

  pub ensure-Keeps :
      {B : Type 0} (b : Bool) (e : Error) {k : M B}
      → (b ≡ true → Keeps P k)
      → Keeps P (ensure b e >> k)
  ensure-Keeps true e h = h refl
  ensure-Keeps false e h = record { run = λ w p. p }

  -- A check that is the last step.
  pub check-Keeps : (b : Bool) (e : Error) → Keeps P (ensure b e)
  check-Keeps true e = record { run = λ w p. p }
  check-Keeps false e = record { run = λ w p. p }

  pub require-Keeps : {A : Type 0} (e : Error) (o : Option A) → Keeps P (require e o)
  require-Keeps e none = record { run = λ w p. p }
  require-Keeps e (some a) = record { run = λ w p. p }

  pub read-Keeps : {A : Type 0} (f : Db → A) → Keeps P (read f)
  read-Keeps f = record { run = λ w p. p }

  pub try_read-Keeps : {A : Type 0} (f : Db → Result A) → Keeps P (try_read f)
  try_read-Keeps f = record { run = λ w p. p }

  pub pure-Keeps : {A : Type 0} (a : A) → Keeps P (pure a)
  pure-Keeps a = record { run = λ w p. p }

  pub fail-Keeps : {A : Type 0} (e : Error) → Keeps P (fail {A = A} e)
  fail-Keeps e = record { run = λ w p. p }

  pub emit-Keeps : (e : PoolEvent) → Keeps P (emit e)
  emit-Keeps e = record { run = λ w p. p }

  pub write-Keeps : (f : Db → Db) → ((db : Db) → P db → P (f db)) → Keeps P (write f)
  write-Keeps f h = record { run = λ w p. h w.db p }

  written-Keeps :
      {A : Type 0} (w : World) (r : Result (A × Db))
      → ((a : A) (db' : Db) → r ≡ ok (a, db') → P db')
      → P w.db
      → P (written w r).1.db
  written-Keeps w (ok (a, db')) h p = h a db' refl
  written-Keeps w (err e) h p = p

  pub try_write-Keeps :
      {A : Type 0} (f : Db → Result (A × Db))
      → ((db : Db) (a : A) (db' : Db) → f db ≡ ok (a, db') → P db → P db')
      → Keeps P (try_write f)
  try_write-Keeps f h = record {
    run = λ w p. written-Keeps w (f w.db) (λ a db' e. h w.db a db' e p) p;
  }

  caught-Keeps : {A : Type 0} (r : Result A × World) → P r.1.db → P (caught r).1.db
  caught-Keeps (ok a, w) p = p
  caught-Keeps (err e, w) p = p

  pub attempt-Keeps : {A : Type 0} {m : M A} → Keeps P m → Keeps P (attempt m)
  attempt-Keeps {m} k = record { run = λ w p. caught-Keeps (m w) (k.run w p) }
