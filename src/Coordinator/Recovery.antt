-- ===== src/Coordinator/Recovery.antt =====
-- coordinator.rs, resuming and replacing todos, and the watchdog; services.rs, the two services
-- that call them. A turn that the source spawns is the last part of the answer.
use piscis_engine.Prelude.{
  ℕ, not, ◌||◌, Option, none, some, ◌++◌, Text, text, text_eq, trim, is_blank, if◌then◌else◌,
}
use piscis_engine.Model.{
  KoiTodo, TodoStatus, PoolSession, TodoChangeAction, EventType, MetadataBase, rfc3339, is_active,
  is_terminal, is_blocked, is_needs_review, todo_changed, message_appended,
}
use piscis_engine.Store.{Db, Error, Env}
use piscis_engine.Store.Todos.{get_koi_todo, replace_koi_todo}
use piscis_engine.Store.Claims.{recover_stale_busy_kois, recover_stale_in_progress_todos}
use piscis_engine.Store.Kois.{resolve_koi_identifier}
use piscis_engine.Store.Pools.{resolve_pool_session_identifier}
use piscis_engine.Store.Messages.{insert_pool_message_ext}
use piscis_engine.Services.Base.{
  M, ◌>>=◌, ◌>>◌, pure, ensure, read, try_read, try_write, require, emit, or_empty, plain,
  CallerContext, is_piscis, find_todo_by_prefix,
}
use piscis_engine.Coordinator.Turn.{ExecuteTodoArgs, pool_id_of}

-- The pool of a row, which has to exist and to be active.
unfoldable pub runtime_pool : Option Text → M (Option PoolSession)
runtime_pool none = pure none
runtime_pool (some id) = do
  found ← try_read (resolve_pool_session_identifier id)
  p ← require Error.pool_not_found found
  ensure (is_active p.status) Error.pool_not_active
  pure (some p)

unfoldable pub note_in_pool :
    Env → Option PoolSession → Text → Text → MetadataBase → Text → EventType → M (Unit {0})
note_in_pool env none sender content base todo_id event = pure tt
note_in_pool env (some p) sender content base todo_id event = do
  m ← try_write (
      insert_pool_message_ext env.now p.id sender content (text "status_update") (plain base)
        (some todo_id) none (some event))
  emit (message_appended p.id m)

unfoldable pub resumed_text : Text → Text → Text → Text
resumed_text by title owner =
    text "[Task Resumed] "
    ++ (by ++ (text " resumed '" ++ (title ++ (text "' for " ++ (owner ++ text ".")))))

abbrev pub dispatch : Text → Text → ExecuteTodoArgs
dispatch koi todo_id = record { koi_id = koi; todo_id = todo_id; assign_msg_id = none }

unfoldable pub resume_blocked_todo : Env → Text → Text → M (KoiTodo × ExecuteTodoArgs)
unfolding runtime_pool note_in_pool
resume_blocked_todo env todo_id by = do
  row ← read (get_koi_todo todo_id)
  t ← require Error.todo_not_found row
  ensure (is_blocked t.status || is_needs_review t.status) (Error.wrong_todo_status t.status)
  found ← try_read (resolve_koi_identifier t.owner_id)
  owner ← require Error.koi_not_found found
  pool ← runtime_pool t.pool_session_id
  note_in_pool env pool by (resumed_text by t.title owner.name)
      (MetadataBase.resumed t.id by owner.id) t.id EventType.task_resumed
  emit (
      todo_changed (or_empty (pool_id_of pool)) TodoChangeAction.resumed (record t {
        status = TodoStatus.in_progress;
        claimed_by = some owner.id;
        claimed_at = some env.now;
        blocked_reason = none;
        updated_at = rfc3339 env.now;
      }))
  now ← read (get_koi_todo t.id)
  u ← require Error.todo_not_found now
  pure (u, dispatch owner.id t.id)

-- `todo_source_type`.
unfoldable pub todo_source_type : Text → Text
todo_source_type actor =
    if text_eq actor (text "piscis") || text_eq actor (text "user") || text_eq actor (text "system")
    then actor
    else text "koi"

unfoldable pub replacement_text : Text → Text → Text
replacement_text title reason =
    text "Replacement for '" ++ (title ++ (text "' because: " ++ reason))

unfoldable pub replaced_text : Text → Text → Text → Text → Text
replaced_text title new_title owner reason =
    text "[Task Replaced] '"
    ++ (title
        ++ (text "' was replaced by '"
            ++ (new_title ++ (text "' for " ++ (owner ++ (text ". Reason: " ++ reason))))))

unfoldable pub replace_blocked_todo :
    Env → Text → Text → Text → Text → Text → Option ℕ → M (KoiTodo × ExecuteTodoArgs)
unfolding runtime_pool note_in_pool
replace_blocked_todo env todo_id new_owner_id task reason by timeout = do
  ensure (not (is_blank (trim task))) (Error.field_required (text "task"))
  ensure (not (is_blank (trim reason))) (Error.field_required (text "reason"))
  row ← read (get_koi_todo todo_id)
  original ← require Error.todo_not_found row
  ensure (not (is_terminal original.status)) (Error.wrong_todo_status original.status)
  found ← try_read (resolve_koi_identifier new_owner_id)
  owner ← require Error.koi_not_found found
  pool ← runtime_pool original.pool_session_id
  t ← try_write (
      replace_koi_todo env original owner.id (trim task)
        (replacement_text original.title (trim reason)) by (todo_source_type by) (trim reason)
        timeout)
  emit (todo_changed (or_empty (pool_id_of pool)) TodoChangeAction.cancelled original)
  emit (todo_changed (or_empty (pool_id_of pool)) TodoChangeAction.replaced t)
  note_in_pool env pool by (replaced_text original.title t.title owner.name (trim reason))
      (MetadataBase.replaced original.id t.id owner.id) original.id EventType.task_replaced
  pure (t, dispatch owner.id t.id)

-- services.rs, `resume_todo`.
unfoldable pub resume_todo : Env → CallerContext → Text → M (KoiTodo × ExecuteTodoArgs)
resume_todo env caller todo_id = do
  ensure (is_piscis caller) Error.piscis_only
  found ← read (find_todo_by_prefix todo_id)
  t ← require Error.todo_not_found found
  resume_blocked_todo env t.id caller.memory_owner_id

pub record ReplaceTodoArgs : Type 0 where
  pub todo_id : Text
  pub new_owner_id : Text
  pub task : Text
  pub reason : Text
  pub timeout_secs : Option ℕ

-- services.rs, `replace_todo`.
unfoldable pub replace_todo : Env → CallerContext → ReplaceTodoArgs → M (KoiTodo × ExecuteTodoArgs)
replace_todo env caller args = do
  ensure (is_piscis caller) Error.piscis_only
  ensure (not (is_blank (trim args.new_owner_id))) (Error.field_required (text "new_owner_id"))
  ensure (not (is_blank (trim args.task))) (Error.field_required (text "task"))
  ensure (not (is_blank (trim args.reason))) (Error.field_required (text "reason"))
  found ← read (find_todo_by_prefix args.todo_id)
  original ← require Error.todo_not_found found
  replace_blocked_todo env original.id (trim args.new_owner_id) (trim args.task) (trim args.reason)
      caller.memory_owner_id args.timeout_secs

-- The two recoveries, Kois first.
unfoldable pub watchdog_recover : ℕ → ℕ → Db → (ℕ × ℕ) × Db
watchdog_recover now max_busy db =
    let (kois, db') = recover_stale_busy_kois now max_busy db in
    let (todos, db'') = recover_stale_in_progress_todos now max_busy db' in ((kois, todos), db'')
