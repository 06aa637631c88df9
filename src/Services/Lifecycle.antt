-- ===== src/Services/Lifecycle.antt =====
-- services.rs, the life of a pool: creation, its specification, its status, and status posts.
use piscis_engine.Prelude.{
  ℕ, Bool, true, false, not, ◌&&◌, ◌||◌, Option, none, some, List, [], Text, text, text_eq, trim,
  trimmed, is_blank, is_some_text, keep, length, is_empty, if◌then◌else◌,
}
use piscis_engine.Model.{
  KoiTodo, PoolSession, PoolStatus, PoolMessage, PoolEvent, MetadataBase, EventType, event_of_text,
  is_terminal, pool_updated, pool_paused, pool_resumed, pool_archived,
}
use piscis_engine.Store.{Db, Error, Env}
use piscis_engine.Store.Todos.{list_koi_todos}
use piscis_engine.Store.Pools.{
  get_pool_session, update_pool_session_status, update_pool_org_spec, update_pool_session_config,
}
use piscis_engine.Store.Messages.{insert_pool_message_ext}
use piscis_engine.Services.Base.{
  M, ◌>>=◌, ◌>>◌, pure, ensure, read, write, try_write, emit, CallerContext, is_piscis, piscis,
  resolve_pool, emit_message, plain,
}
use piscis_engine.Services.Messages.{pool_status_text}

-- `session_source::is_heartbeat_like` of pool/mod.rs.
unfoldable pub is_heartbeat_like : Text → Bool
is_heartbeat_like source =
    text_eq source (text "piscis_inbox_global")
    || text_eq source (text "piscis_pool")
    || text_eq source (text "piscis_inbox_pool")
    || text_eq source (text "piscis_heartbeat_global")
    || text_eq source (text "piscis_heartbeat_pool")

abbrev pub heartbeat_source : Option Text → Bool
heartbeat_source none = false
heartbeat_source (some source) = is_heartbeat_like source

abbrev pub from_heartbeat : CallerContext → Bool
from_heartbeat caller = heartbeat_source caller.session_source

-- The todos of a pool that are neither done nor cancelled.
unfoldable pub unfinished_todos : Text → Db → List KoiTodo
unfinished_todos pool db =
    keep (λ t. is_some_text t.pool_session_id pool && not (is_terminal t.status))
      (list_koi_todos none db)

-- The checks before a pool is archived.
unfoldable pub check_archive : CallerContext → PoolSession → PoolStatus → M (Unit {0})
check_archive caller session PoolStatus.archived = do
  ensure (not (from_heartbeat caller)) Error.heartbeat_may_not_archive
  remaining ← read (unfinished_todos session.id)
  ensure (is_empty remaining) (Error.active_todos_remain (length remaining))
check_archive caller session _ = pure tt

abbrev pub same_status : PoolStatus → PoolStatus → Bool
same_status PoolStatus.active PoolStatus.active = true
same_status PoolStatus.paused PoolStatus.paused = true
same_status PoolStatus.archived PoolStatus.archived = true
same_status _ _ = false

-- The statuses that `set_pool_status` accepts.
abbrev pub is_supported : PoolStatus → Bool
is_supported (PoolStatus.other t) = false
is_supported _ = true

abbrev pub pool_or_old : PoolSession → Option PoolSession → PoolSession
pool_or_old p none = p
pool_or_old p (some q) = q

abbrev pub status_event : PoolStatus → PoolSession → PoolEvent
status_event PoolStatus.paused p = pool_paused p
status_event PoolStatus.active p = pool_resumed p
status_event PoolStatus.archived p = pool_archived p.id
status_event (PoolStatus.other t) p = pool_updated p

unfoldable pub change_pool_status : Env → CallerContext → PoolSession → PoolStatus → M PoolSession
unfolding check_archive unfinished_todos
change_pool_status env caller session status = do
  check_archive caller session status
  write (update_pool_session_status env.now session.id status)
  m ← try_write (
      insert_pool_message_ext env.now session.id piscis (pool_status_text session.status status)
        (text "status_update") (plain (MetadataBase.status_change session.status status)) none none
        (some EventType.status_changed))
  found ← read (get_pool_session session.id)
  let fresh = pool_or_old session found
  emit (status_event status fresh)
  emit_message m
  pure fresh

unfoldable pub set_pool_status : Env → CallerContext → Text → PoolStatus → M PoolSession
unfolding change_pool_status
set_pool_status env caller pool_hint status = do
  ensure (is_supported status) Error.unsupported_status
  session ← resolve_pool caller pool_hint
  if same_status session.status status
      then pure session
      else change_pool_status env caller session status

pub record UpdateOrgSpecArgs : Type 0 where
  pub pool_id : Text
  pub org_spec : Option Text
  pub task_timeout_secs : Option ℕ

abbrev pub trimmed_or_empty : Option Text → Text
trimmed_or_empty none = []
trimmed_or_empty (some t) = trim t

abbrev pub is_given : Option ℕ → Bool
is_given none = false
is_given (some n) = true

unfoldable pub update_org_spec : Env → CallerContext → UpdateOrgSpecArgs → M PoolSession
update_org_spec env caller args = do
  let spec = trimmed_or_empty args.org_spec
  ensure (not (is_blank spec) || is_given args.task_timeout_secs)
      (Error.field_required (text "org_spec"))
  session ← resolve_pool caller args.pool_id
  write (λ db. if is_blank spec then db else update_pool_org_spec env.now session.id spec db)
  write (λ db.
      if is_given args.task_timeout_secs
      then update_pool_session_config env.now session.id args.task_timeout_secs db
      else db)
  m ← try_write (
      insert_pool_message_ext env.now session.id piscis (text "组织规范已更新。") (text "status_update")
        (plain (MetadataBase.event (text "org_spec_updated"))) none none
        (some EventType.org_spec_updated))
  found ← read (get_pool_session session.id)
  let fresh = pool_or_old session found
  emit (pool_updated fresh)
  emit_message m
  pure fresh

pub record PostStatusArgs : Type 0 where
  pub pool_id : Text
  pub content : Text
  pub event_type : Option Text

abbrev pub status_event_type : Option Text → Text
status_event_type none = text "piscis_status"
status_event_type (some t) = t

unfoldable pub post_status : Env → CallerContext → PostStatusArgs → M PoolMessage
post_status env caller args = do
  ensure (is_piscis caller) Error.piscis_only
  session ← resolve_pool caller args.pool_id
  ensure (not (is_blank (trim args.content))) (Error.field_required (text "content"))
  m ← try_write (
      insert_pool_message_ext env.now session.id piscis (trim args.content) (text "status_update")
        (plain (MetadataBase.posted_status (status_event_type (trimmed args.event_type)))) none none
        (some (event_of_text (status_event_type (trimmed args.event_type)))))
  emit_message m
  pure m
