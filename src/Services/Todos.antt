-- ===== src/Services/Todos.antt =====
-- services.rs, the operations on one todo.
use piscis_engine.Prelude.{
  ℕ, Bool, true, false, not, ◌||◌, Option, none, some, Text, text, text_eq, trim, is_blank,
  is_some_text, if◌then◌else◌,
}
use piscis_engine.Model.{
  KoiTodo, TodoStatus, KoiStatus, MetadataBase, EventType, TodoChangeAction, is_todo,
  is_in_progress, is_blocked, is_done, is_cancelled, is_terminal,
}
use piscis_engine.Store.{Error, Env}
use piscis_engine.Store.Todos.{
  create_koi_todo, get_koi_todo, complete_koi_todo, cancel_koi_todo, update_koi_todo,
}
use piscis_engine.Store.Claims.{try_claim_koi_todo}
use piscis_engine.Store.Kois.{update_koi_status}
use piscis_engine.Services.Base.{
  M, ◌>>=◌, ◌>>◌, pure, fail, ensure, read, write, try_write, require, CallerContext, is_piscis,
  resolve_pool, ensure_accepts_new_work, find_todo_by_prefix, emit_todo, check_todo_ownership,
  plain, note_on_todo, refreshed, Reply, changed, no_op,
}
use piscis_engine.Services.Messages.{claimed_text, cancelled_text, task_status_text}
use piscis_engine.Project.Signals.{enrich_pool_message_metadata}

pub record CreateTodoArgs : Type 0 where
  pub pool_id : Text
  pub title : Text
  pub description : Text
  pub priority : Text
  pub timeout_secs : ℕ
  pub depends_on : Option Text

abbrev pub or_medium : Text → Text
or_medium p = if is_blank (trim p) then text "medium" else p

unfoldable pub create_todo : Env → CallerContext → CreateTodoArgs → M KoiTodo
unfolding resolve_pool
create_todo env caller args = do
  session ← resolve_pool caller args.pool_id
  ensure_accepts_new_work session
  ensure (not (is_blank (trim args.title))) (Error.field_required (text "title"))
  t ← try_write (
      create_koi_todo env caller.memory_owner_id (trim args.title) args.description
        (or_medium args.priority) caller.memory_owner_id (some session.id) (text "koi")
        args.depends_on args.timeout_secs)
  emit_todo (some session.id) TodoChangeAction.created t
  pure t

-- `todo.claimed_by.is_some() && todo.claimed_by.as_deref() != Some(caller.memory_owner_id)`.
abbrev pub held_by_other : Option Text → Text → Bool
held_by_other none caller = false
held_by_other (some holder) caller = not (text_eq holder caller)

abbrev pub holder : Option KoiTodo → Option Text
holder none = none
holder (some t) = t.claimed_by

-- A lost claim is an error unless the row is the caller's already.
unfoldable pub settle_claim : Bool → CallerContext → KoiTodo → M (Unit {0})
settle_claim true caller t = pure tt
settle_claim false caller t = do
  current ← read (get_koi_todo t.id)
  ensure (is_some_text (holder current) caller.memory_owner_id)
      (Error.already_claimed (holder current))

unfoldable pub claim_todo : Env → CallerContext → Text → M KoiTodo
unfolding settle_claim
claim_todo env caller todo_id = do
  found ← read (find_todo_by_prefix todo_id)
  t ← require Error.todo_not_found found
  ensure (not (is_terminal t.status)) (Error.wrong_todo_status t.status)
  ensure (not (held_by_other t.claimed_by caller.memory_owner_id))
      (Error.already_claimed t.claimed_by)
  ensure (is_piscis caller || text_eq t.owner_id caller.memory_owner_id)
      (Error.permission_denied t.owner_id)
  won ← try_write (try_claim_koi_todo env.now t.id caller.memory_owner_id)
  settle_claim won caller t
  _ ←
      note_on_todo env t.pool_session_id caller.memory_owner_id (claimed_text t.title)
        (text "task_claimed") (plain MetadataBase.empty) t.id EventType.task_claimed
  u ← refreshed t
  emit_todo u.pool_session_id TodoChangeAction.claimed u
  pure u

unfoldable pub close_todo : Env → CallerContext → KoiTodo → Text → M Reply
close_todo env caller t summary = do
  check_todo_ownership t caller
  message_id ←
      note_on_todo env t.pool_session_id caller.memory_owner_id summary (text "result")
        (enrich_pool_message_metadata env.to_lowercase
          (plain (MetadataBase.todo_state t.id t.owner_id TodoStatus.done)) summary)
        t.id EventType.task_completed
  write (complete_koi_todo env.now t.id message_id)
  write (update_koi_status env.now t.owner_id KoiStatus.idle)
  u ← refreshed t
  emit_todo u.pool_session_id TodoChangeAction.completed u
  pure (changed u)

unfoldable pub complete_found : Env → CallerContext → KoiTodo → Text → M Reply
unfolding close_todo
complete_found env caller t summary =
    if is_done t.status
    then pure no_op
    else if is_cancelled t.status
    then fail (Error.wrong_todo_status t.status)
    else close_todo env caller t summary

unfoldable pub complete_todo : Env → CallerContext → Text → Text → M Reply
unfolding complete_found
complete_todo env caller todo_id summary = do
  ensure (not (is_blank (trim summary))) (Error.field_required (text "summary"))
  found ← read (find_todo_by_prefix todo_id)
  t ← require Error.todo_not_found found
  complete_found env caller t summary

abbrev pub or_cancelled : Text → Text
or_cancelled reason = if is_blank (trim reason) then text "Cancelled" else reason

unfoldable pub drop_todo : Env → CallerContext → KoiTodo → Text → M Reply
drop_todo env caller t reason = do
  check_todo_ownership t caller
  write (cancel_koi_todo env.now t.id reason)
  _ ←
      note_on_todo env t.pool_session_id caller.memory_owner_id (cancelled_text t.title reason)
        (text "system") (plain (MetadataBase.todo_cancelled t.id t.owner_id reason)) t.id
        EventType.task_cancelled
  u ← refreshed t
  emit_todo u.pool_session_id TodoChangeAction.cancelled u
  pure (changed u)

unfoldable pub cancel_found : Env → CallerContext → KoiTodo → Text → M Reply
unfolding drop_todo
cancel_found env caller t reason =
    if is_cancelled t.status
    then pure no_op
    else if is_done t.status
    then fail (Error.wrong_todo_status t.status)
    else drop_todo env caller t (or_cancelled reason)

unfoldable pub cancel_todo : Env → CallerContext → Text → Text → M Reply
unfolding cancel_found
cancel_todo env caller todo_id reason = do
  found ← read (find_todo_by_prefix todo_id)
  t ← require Error.todo_not_found found
  cancel_found env caller t reason

-- `matches!(status, "todo" | "in_progress" | "blocked")`.
abbrev pub is_settable : TodoStatus → Bool
is_settable s = is_todo s || is_in_progress s || is_blocked s

unfoldable pub update_todo_status : Env → CallerContext → Text → TodoStatus → M KoiTodo
update_todo_status env caller todo_id status = do
  ensure (is_settable status) Error.unsupported_status
  found ← read (find_todo_by_prefix todo_id)
  t ← require Error.todo_not_found found
  ensure (not (is_terminal t.status)) (Error.wrong_todo_status t.status)
  check_todo_ownership t caller
  write (update_koi_todo env.now t.id none none (some status) none)
  _ ←
      note_on_todo env t.pool_session_id caller.memory_owner_id (task_status_text t.title status)
        (text "status_update") (plain (MetadataBase.todo_state t.id t.owner_id status)) t.id
        (if is_blocked status then EventType.task_blocked else EventType.task_status_changed)
  u ← refreshed t
  emit_todo u.pool_session_id
      (if is_blocked status then TodoChangeAction.blocked else TodoChangeAction.updated) u
  pure u
