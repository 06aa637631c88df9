-- ===== src/Services/Claiming.antt =====
-- `claim_todo` of services.rs, when it may succeed.
use piscis_engine.Prelude.{
  ℕ, ◌≡◌, refl, true, false, ◌||◌, Option, none, some, Text, text, text_eq, find_sound, arith,
}
use piscis_engine.Model.{
  KoiTodo, PoolMessage, TodoStatus, MetadataBase, Metadata, EventType, TodoChangeAction,
  is_in_progress, is_terminal,
}
use piscis_engine.Store.{Db, Result, ok, err, Env, has_koi, update_where}
use piscis_engine.Store.Rows.{has_id, find-update_where}
use piscis_engine.Store.Todos.{get_koi_todo}
use piscis_engine.Store.Claims.{try_claim_koi_todo, claimed_row, is_claimable}
use piscis_engine.Store.Messages.{insert_pool_message_ext}
use piscis_engine.Coordinator.Fence.{found-claimable}
use piscis_engine.Services.Base.{
  World, after, caught, written, CallerContext, is_piscis, plain, find_todo_by_prefix, note_on_todo,
  emit_todo, emit_if_written,
}
use piscis_engine.Services.Messages.{claimed_text}
use piscis_engine.Services.Todos.{claim_todo, held_by_other, settle_claim}

-- A message about a todo answers and leaves the todos alone.
note-written :
    (w : World) (r : Result (PoolMessage × Db))
    → ((a : PoolMessage) (db : Db) → r ≡ ok (a, db) → db.todos ≡ w.db.todos)
    → (o : Option ℕ) × (v : World) × (after (caught (written w r)) emit_if_written ≡ (ok o, v))
      × (v.db.todos ≡ w.db.todos)
note-written w (ok (m, db)) h = (some m.id, _, refl, h m db refl)
note-written w (err e) h = (none, w, refl, refl)

pub insert-todos :
    (now : ℕ) (pool sender content kind : Text) (m : Metadata) (t : Option Text) (r : Option ℕ)
    (e : Option EventType) (db : Db) (a : PoolMessage) (db' : Db)
    → insert_pool_message_ext now pool sender content kind m t r e db ≡ ok (a, db')
    → db'.todos ≡ db.todos
unfolding insert_pool_message_ext
insert-todos now pool sender content kind m t r e db a db' h = ground arith

pub note-todos :
    (env : Env) (pool : Option Text) (sender content kind : Text) (m : Metadata) (t : Text)
    (e : EventType) (w : World)
    → (o : Option ℕ) × (v : World) × (note_on_todo env pool sender content kind m t e w ≡ (ok o, v))
      × (v.db.todos ≡ w.db.todos)
unfolding note_on_todo
note-todos env none sender content kind m t e w = (none, w, refl, refl)
note-todos env (some pool) sender content kind m t e w =
    note-written w
      (insert_pool_message_ext env.now pool sender content kind m (some t) none (some e) w.db)
      (insert-todos env.now pool sender content kind m (some t) none (some e) w.db)

won-claim :
    (now : ℕ) (id by : Text) (db : Db) {t : KoiTodo}
    → get_koi_todo id db ≡ some t
    → is_in_progress t.status ≡ false
    → has_koi by db ≡ true
    → try_claim_koi_todo now id by db
      ≡ ok
          (true, record db { todos = update_where (is_claimable id) (claimed_row now by) db.todos })
unfolding try_claim_koi_todo get_koi_todo
won-claim now id by db {t} found free known =
    rw (found-claimable id db.todos {t = t} found free, known) refl

claimed-found :
    (now : ℕ) (id by : Text) (db v : Db) {t : KoiTodo}
    → get_koi_todo id db ≡ some t
    → is_in_progress t.status ≡ false
    → v.todos ≡ update_where (is_claimable id) (claimed_row now by) db.todos
    → get_koi_todo id v ≡ some (claimed_row now by t)
unfolding get_koi_todo claimed_row
claimed-found now id by db v {t} found free rows = rw rows (
    rw (find-update_where (has_id id) (is_claimable id) (claimed_row now by) (λ u. refl) db.todos)
      (rw (found, find_sound (has_id id) db.todos {a = t} found, free) refl))

-- A claim of a todo that is found by the prefix and by its id, is neither ended nor in progress, and is not held
-- by another, succeeds for its owner and for Piscis, when the caller is a Koi of the board: the
-- answer is the row on the board, in progress and claimed by the caller.
pub claim_todo_lem :
    (env : Env) (caller : CallerContext) (prefix : Text) (w : World) {t : KoiTodo}
    → find_todo_by_prefix prefix w.db ≡ some t
    → get_koi_todo t.id w.db ≡ some t
    → is_terminal t.status ≡ false
    → is_in_progress t.status ≡ false
    → held_by_other t.claimed_by caller.memory_owner_id ≡ false
    → is_piscis caller || text_eq t.owner_id caller.memory_owner_id ≡ true
    → has_koi caller.memory_owner_id w.db ≡ true
    → (u : KoiTodo) × (v : World) × (claim_todo env caller prefix w ≡ (ok u, v))
      × (get_koi_todo t.id v.db ≡ some u)
      × (u.status ≡ TodoStatus.in_progress)
      × (u.claimed_by ≡ some caller.memory_owner_id)
unfolding claim_todo settle_claim claimed_row
claim_todo_lem env caller prefix w {t} named found open_row free unheld allowed known =
    let db = record (w.db) {
      todos =
          update_where (is_claimable t.id) (claimed_row env.now caller.memory_owner_id) w.db.todos;
    } in
    let (o, v, noted, same) =
      note-todos env t.pool_session_id caller.memory_owner_id (claimed_text t.title)
        (text "task_claimed") (plain MetadataBase.empty) t.id EventType.task_claimed
        (record w { db = db }) in
    let here =
      claimed-found env.now t.id caller.memory_owner_id w.db v.db {t = t} found free same in
    let u = claimed_row env.now caller.memory_owner_id t in
    (
      u,
      (emit_todo u.pool_session_id TodoChangeAction.claimed u v).1,
      rw
          (
            named,
            open_row,
            unheld,
            allowed,
            won-claim env.now t.id caller.memory_owner_id w.db {t = t} found free known,
          )
          (rw noted (rw here refl)),
      here,
      refl,
      refl,
    )
