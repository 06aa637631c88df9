-- ===== src/Services/Atomic.antt =====
-- A service that fails has written nothing and sent no event: the rules, step by step.
use piscis_engine.Prelude.{◌≡◌, refl, ◌∙◌, Bool, true, false, Option, none, some, Text, arith}
use piscis_engine.Model.{KoiTodo, Metadata, EventType, PoolMessage, TodoChangeAction}
use piscis_engine.Store.{Db, Error, Result, ok, err, Env}
use piscis_engine.Store.Messages.{insert_pool_message_ext}
use piscis_engine.Services.Base.{
  World, M, after, ◌>>=◌, ◌>>◌, pure, fail, ensure, read, try_read, write, try_write, require,
  caught, emit_todo, written, note_on_todo, emit_if_written, refreshed,
}

-- A failure leaves the world as it was.
pub record Atomic {A : Type 0} (m : M A) : Type 0 where
  pub run : (w : World) (e : Error) → (m w).0 ≡ err e → (m w).1 ≡ w

-- No step writes.
pub record Steady {A : Type 0} (m : M A) : Type 0 where
  pub same : (w : World) → (m w).1 ≡ w

-- There is always an answer.
pub record Sure {A : Type 0} (m : M A) : Type 0 where
  pub answer : (w : World) → (a : A) × ((m w).0 ≡ ok a)

after-Atomic :
    {A B : Type 0} (w : World) (r : Result A × World) (f : A → M B)
    → r.1 ≡ w
    → ((a : A) → Atomic (f a))
    → (e : Error) → (after r f).0 ≡ err e
    → (after r f).1 ≡ w
after-Atomic w (ok a, v) f same h e failed = (h a).run v e failed ∙ same
after-Atomic w (err e', v) f same h e failed = same

-- After steps that only read.
pub bind-Atomic :
    {A B : Type 0} {m : M A} {f : A → M B} → Steady m → ((a : A) → Atomic (f a)) → Atomic (m >>= f)
bind-Atomic {m} {f} s h = record {
  run = λ w e failed. after-Atomic w (m w) f (s.same w) h e failed;
}

after-commit :
    {A B : Type 0} (w : World) (r : Result A × World) (f : A → M B)
    → ((e : Error) → r.0 ≡ err e → r.1 ≡ w)
    → ((a : A) → Sure (f a))
    → (e : Error) → (after r f).0 ≡ err e
    → (after r f).1 ≡ w
after-commit w (ok a, v) f h sure e failed = let (b, answered) = (sure a).answer v in ground arith
after-commit w (err e', v) f h sure e failed = h e' refl

-- Before steps that cannot fail.
pub commit-Atomic :
    {A B : Type 0} {m : M A} {f : A → M B} → Atomic m → ((a : A) → Sure (f a)) → Atomic (m >>= f)
commit-Atomic {m} {f} am h = record {
  run = λ w e failed. after-commit w (m w) f (am.run w) h e failed;
}

after-Sure :
    {A B : Type 0} (r : Result A × World) (f : A → M B) {a : A}
    → r.0 ≡ ok a
    → ((a : A) → Sure (f a))
    → (b : B) × ((after r f).0 ≡ ok b)
after-Sure (ok a', v) f e h = (h a').answer v
after-Sure (err e', v) f {a} e h = ground arith

pub bind-Sure :
    {A B : Type 0} {m : M A} {f : A → M B} → Sure m → ((a : A) → Sure (f a)) → Sure (m >>= f)
bind-Sure {m} {f} s h = record {
  answer = λ w. let (a, e) = s.answer w in after-Sure (m w) f {a = a} e h;
}

pub Sure-Atomic : {A : Type 0} {m : M A} → Sure m → Atomic m
Sure-Atomic s = record { run = λ w e failed. let (a, answered) = s.answer w in ground arith }

after-Steady :
    {A B : Type 0} (w : World) (r : Result A × World) (f : A → M B)
    → r.1 ≡ w
    → ((a : A) → Steady (f a))
    → (after r f).1 ≡ w
after-Steady w (ok a, v) f same h = (h a).same v ∙ same
after-Steady w (err e, v) f same h = same

pub bind-Steady :
    {A B : Type 0} {m : M A} {f : A → M B} → Steady m → ((a : A) → Steady (f a)) → Steady (m >>= f)
bind-Steady {m} {f} s h = record { same = λ w. after-Steady w (m w) f (s.same w) h }

pub pure-Atomic : {A : Type 0} (a : A) → Atomic (pure a)
pure-Atomic a = record { run = λ w e failed. refl }

pub fail-Atomic : {A : Type 0} (e : Error) → Atomic (fail {A = A} e)
fail-Atomic e = record { run = λ w e' failed. refl }

pub ensure-Atomic :
    {B : Type 0} (b : Bool) (e : Error) {k : M B} → Atomic k → Atomic (ensure b e >> k)
ensure-Atomic true e k = k
ensure-Atomic false e k = record { run = λ w e' failed. refl }

pub require-Steady : {A : Type 0} (e : Error) (o : Option A) → Steady (require e o)
require-Steady e none = record { same = λ w. refl }
require-Steady e (some a) = record { same = λ w. refl }

pub read-Steady : {A : Type 0} (f : Db → A) → Steady (read f)
read-Steady f = record { same = λ w. refl }

pub try_read-Steady : {A : Type 0} (f : Db → Result A) → Steady (try_read f)
try_read-Steady f = record { same = λ w. refl }

pub write-Sure : (f : Db → Db) → Sure (write f)
write-Sure f = record { answer = λ w. (tt, refl) }

written-Atomic :
    {A : Type 0} (w : World) (r : Result (A × Db)) (e : Error)
    → (written w r).0 ≡ err e
    → (written w r).1 ≡ w
written-Atomic w (ok (a, db)) e failed = ground arith
written-Atomic w (err e') e failed = refl

pub try_write-Atomic : {A : Type 0} (f : Db → Result (A × Db)) → Atomic (try_write f)
try_write-Atomic f = record { run = λ w. written-Atomic w (f w.db) }

caught-Sure : {A : Type 0} (r : Result A × World) → (a : Option A) × ((caught r).0 ≡ ok a)
caught-Sure (ok a, w) = (some a, refl)
caught-Sure (err e, w) = (none, refl)

emit_if_written-Sure : (o : Option PoolMessage) → Sure (emit_if_written o)
emit_if_written-Sure none = record { answer = λ w. (none, refl) }
emit_if_written-Sure (some m) = record { answer = λ w. (some m.id, refl) }

pub note-Sure :
    (env : Env) (pool : Option Text) (sender content kind : Text) (m : Metadata) (t : Text)
    (e : EventType)
    → Sure (note_on_todo env pool sender content kind m t e)
unfolding note_on_todo
note-Sure env none sender content kind m t e = record { answer = λ w. (none, refl) }
note-Sure env (some pool) sender content kind m t e =
    bind-Sure
      (record {
        answer = λ w. caught-Sure (
            try_write
              (insert_pool_message_ext env.now pool sender content kind m (some t) none (some e))
              w);
      })
      emit_if_written-Sure

-- The steps that close a service.
pub announce-Sure :
    {A : Type 0} (t : KoiTodo) (action : KoiTodo → TodoChangeAction) (answer : KoiTodo → A)
    → Sure (refreshed t >>= λ u. emit_todo u.pool_session_id (action u) u >> pure (answer u))
announce-Sure t action answer = record { answer = λ w. (_, refl) }
