-- ===== src/Services/Attempts.antt =====
-- The steps that services of services.rs share: finding a todo or a pool, and a claim that may be
-- lost. None of them writes when it fails.
use piscis_engine.Prelude.{ℕ, ◌≡◌, refl, Bool, true, false, Text, is_some_text, arith}
use piscis_engine.Model.{KoiTodo}
use piscis_engine.Store.{Db, Error, Result, ok, err}
use piscis_engine.Store.Claims.{try_claim_koi_todo}
use piscis_engine.Store.Todos.{get_koi_todo}
use piscis_engine.Store.Pools.{resolve_pool_session_identifier}
use piscis_engine.Services.Base.{
  World, M, after, ◌>>=◌, ◌>>◌, read, try_write, require, CallerContext, find_todo_by_prefix,
  written, requested_pool, resolve_pool,
}
use piscis_engine.Services.Todos.{settle_claim, holder}
use piscis_engine.Services.Atomic.{
  Atomic, Sure, bind-Atomic, bind-Steady, Sure-Atomic, ensure-Atomic, require-Steady, read-Steady,
  try_read-Steady,
}

pub found-Atomic :
    {B : Type 0} (prefix : Text) {k : KoiTodo → M B}
    → ((t : KoiTodo) → Atomic (k t))
    → Atomic
        (read (find_todo_by_prefix prefix) >>= λ found. require Error.todo_not_found found >>= k)
found-Atomic prefix h =
    bind-Atomic (read-Steady (find_todo_by_prefix prefix))
      λ found. bind-Atomic (require-Steady Error.todo_not_found found) h

pub resolve_pool-Atomic :
    {B : Type 0} (caller : CallerContext) (hint : Text) {k : _ → M B}
    → ((p : _) → Atomic (k p))
    → Atomic (resolve_pool caller hint >>= k)
unfolding resolve_pool
resolve_pool-Atomic caller hint h =
    bind-Atomic
      (bind-Steady (require-Steady Error.pool_id_required (requested_pool caller hint)) λ id.
        bind-Steady (try_read-Steady (resolve_pool_session_identifier id))
          λ found. require-Steady Error.pool_not_found found)
      h

lost_claim-Atomic :
    {B : Type 0} (caller : CallerContext) (t : KoiTodo) {k : M B} (w : World) (db : Db)
    → Sure k
    → db ≡ w.db
    → (e : Error) → ((settle_claim false caller t >> k) (record w { db = db })).0 ≡ err e
    → ((settle_claim false caller t >> k) (record w { db = db })).1 ≡ w
unfolding settle_claim
lost_claim-Atomic caller t w db sure same e = rw same (
    (ensure-Atomic (is_some_text (holder (get_koi_todo t.id w.db)) caller.memory_owner_id)
        (Error.already_claimed (holder (get_koi_todo t.id w.db))) (Sure-Atomic sure)).run
      w e)

-- The check of a claim's count, before steps that cannot fail.
settled-Atomic :
    {B : Type 0} (caller : CallerContext) (t : KoiTodo) {k : M B} (w : World)
    (r : Result (Bool × Db))
    → Sure k
    → ((db : Db) → r ≡ ok (false, db) → db ≡ w.db)
    → (e : Error) → (after (written w r) (λ won. settle_claim won caller t >> k)).0 ≡ err e
    → (after (written w r) (λ won. settle_claim won caller t >> k)).1 ≡ w
unfolding settle_claim
settled-Atomic caller t w (ok (true, db)) sure untouched e failed =
    let (b, answered) = sure.answer (record w { db = db }) in ground arith
settled-Atomic caller t {k} w (ok (false, db)) sure untouched e failed =
    lost_claim-Atomic caller t w db sure (untouched db refl) e failed
settled-Atomic caller t w (err e') sure untouched e failed = refl

lost_claim-untouched :
    (now : ℕ) (id by : Text) (db db' : Db)
    → try_claim_koi_todo now id by db ≡ ok (false, db')
    → db' ≡ db
unfolding try_claim_koi_todo
lost_claim-untouched now id by db db' h = ground arith

pub claim-Atomic :
    {B : Type 0} (now : ℕ) (caller : CallerContext) (t : KoiTodo) {k : M B}
    → Sure k
    → Atomic (
        try_write (try_claim_koi_todo now t.id caller.memory_owner_id) >>= λ won.
        settle_claim won caller t >> k)
claim-Atomic now caller t sure = record {
  run = λ w.
      settled-Atomic caller t w (try_claim_koi_todo now t.id caller.memory_owner_id w.db) sure
        (lost_claim-untouched now t.id caller.memory_owner_id w.db);
}
