-- ===== src/Coordinator/Turn.antt =====
-- coordinator.rs, what a turn starts from: its arguments, its context, and the dispatch fence.
use piscis_engine.Prelude.{
  ℕ, Bool, true, false, ◌||◌, Option, none, some, ◌++◌, Text, text, map, take, max, ltb, ◌==◌,
  if◌then◌else◌,
}
use piscis_engine.Model.{
  KoiTodo, PoolSession, KoiDefinition, KoiStatus, TodoChangeAction, EventType, MetadataBase,
  is_active, todo_changed, message_appended,
}
use piscis_engine.Store.{Db, Error, Result, ok, err, Env}
use piscis_engine.Store.Todos.{get_koi_todo}
use piscis_engine.Store.Claims.{try_claim_koi_todo, koi_has_other_in_progress_todo}
use piscis_engine.Store.Kois.{resolve_koi_identifier, update_koi_status}
use piscis_engine.Store.Pools.{resolve_pool_session_identifier}
use piscis_engine.Store.Messages.{insert_pool_message_ext}
use piscis_engine.Services.Base.{
  M, ◌>>=◌, ◌>>◌, pure, ensure, read, try_read, try_write, require, emit, or_empty, plain,
}

pub record CoordinatorConfig : Type 0 where
  pub default_task_timeout_secs : ℕ
  pub use_worktrees : Bool

pub record ExecuteTodoArgs : Type 0 where
  pub koi_id : Text
  pub todo_id : Text
  pub assign_msg_id : Option ℕ

pub data KoiTurnExit : Type 0 where
  completed cancelled timed_out crashed : KoiTurnExit

-- `KoiTurnOutcome` of host.rs, as far as it is read.
pub record KoiTurnOutcome : Type 0 where
  pub exit_kind : KoiTurnExit
  pub response_text : Text
  pub error : Option Text

pub record KoiExecResult : Type 0 where
  pub success : Bool
  pub reply : Text
  pub result_message_id : Option ℕ
  pub exit_kind : KoiTurnExit

unfoldable pub skipped : KoiExecResult
skipped = record {
  success = false;
  reply = text "duplicate dispatch skipped: todo already in progress or Koi busy";
  result_message_id = none;
  exit_kind = KoiTurnExit.cancelled;
}

abbrev pub koi_or_owner : Option KoiDefinition → Text → M KoiDefinition
koi_or_owner (some k) owner = pure k
koi_or_owner none owner = do
  found ← try_read (resolve_koi_identifier owner)
  require Error.koi_not_found found

abbrev pub pool_of : Option Text → M (Option PoolSession)
pool_of none = pure none
pool_of (some id) = try_read (resolve_pool_session_identifier id)

unfoldable pub resolve_turn_context :
    ExecuteTodoArgs → M (KoiDefinition × KoiTodo × Option PoolSession)
resolve_turn_context args = do
  found ← try_read (resolve_koi_identifier args.koi_id)
  row ← read (get_koi_todo args.todo_id)
  t ← require Error.todo_not_found row
  koi ← koi_or_owner found t.owner_id
  pool ← pool_of t.pool_session_id
  pure (koi, t, pool)

abbrev pub ensure_pool_allows_runtime_work : Option PoolSession → M (Unit {0})
ensure_pool_allows_runtime_work none = pure tt
ensure_pool_allows_runtime_work (some p) = ensure (is_active p.status) Error.pool_not_active

abbrev pub mark_busy : ℕ → Text → Result (Bool × Db) → Result (Bool × Db)
mark_busy now owner (ok (true, db)) = ok (true, update_koi_status now owner KoiStatus.busy db)
mark_busy now owner (ok (false, db)) = ok (false, db)
mark_busy now owner (err e) = err e

-- The write closure of `execute_todo_turn`, one step under the database lock.
unfoldable pub claim_fence : ℕ → Text → Text → Db → Result (Bool × Db)
claim_fence now todo_id owner db =
    if koi_has_other_in_progress_todo owner todo_id db
    then ok (false, db)
    else mark_busy now owner (try_claim_koi_todo now todo_id owner db)

abbrev pub pool_id_of : Option PoolSession → Option Text
pool_id_of none = none
pool_id_of (some p) = some p.id

abbrev pub announce_row : Option Text → Option KoiTodo → M (Unit {0})
announce_row pool none = pure tt
announce_row pool (some t) = emit (todo_changed (or_empty pool) TodoChangeAction.claimed t)

unfoldable pub accepted_text : Text → Text → Text
accepted_text koi title = koi ++ (text " 接受了任务: " ++ title)

abbrev pub announce_message : Env → KoiDefinition → KoiTodo → Option Text → Option ℕ → M (Unit {0})
announce_message env koi t none reply = pure tt
announce_message env koi t (some pool) reply = do
  m ← try_write (
      insert_pool_message_ext env.now pool koi.id (accepted_text koi.name t.title)
        (text "task_claimed") (plain MetadataBase.empty) (some t.id) reply
        (some EventType.task_claimed))
  emit (message_appended pool m)

unfoldable pub announce_claim :
    Env → KoiDefinition → KoiTodo → Option Text → Option ℕ → M (Unit {0})
announce_claim env koi t pool reply = do
  row ← read (get_koi_todo t.id)
  announce_row pool row
  announce_message env koi t pool reply

-- pool/git.rs: `koi/<safe-name>-<short-id>`.
unfoldable pub koi_branch_name : Env → Text → Text → Text
koi_branch_name env name todo_id =
    text "koi/"
    ++ (map (λ c. if env.is_alphanumeric c || (c == b'-') || (c == b'_') then c else b'_') name
        ++ (text "-" ++ take 8 todo_id))

unfoldable pub koi_timeout_for_todo : KoiDefinition → ℕ → ℕ → ℕ
koi_timeout_for_todo koi todo_timeout default =
    if ltb 0 todo_timeout
    then todo_timeout
    else if ltb 0 koi.task_timeout_secs
    then koi.task_timeout_secs
    else default

-- The timeout that `execute_todo_turn_inner` hands to the subagent.
unfoldable pub turn_timeout : CoordinatorConfig → KoiDefinition → KoiTodo → ℕ
unfolding koi_timeout_for_todo
turn_timeout cfg koi t =
    max cfg.default_task_timeout_secs
      (koi_timeout_for_todo koi t.task_timeout_secs cfg.default_task_timeout_secs)
