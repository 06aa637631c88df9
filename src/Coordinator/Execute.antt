-- ===== src/Coordinator/Execute.antt =====
-- coordinator.rs, `execute_todo_turn`.
use piscis_engine.Prelude.{
  ℕ, Bool, true, false, Option, none, some, Text, text, trim, is_blank, decimal, ◌++◌,
  if◌then◌else◌,
}
use piscis_engine.Model.{KoiTodo, PoolSession, KoiDefinition, KoiStatus}
use piscis_engine.Integration.{is_todo_dependency_satisfied}
use piscis_engine.Store.{Db, Error, Result, Env}
use piscis_engine.Store.Todos.{list_koi_todos, set_koi_todo_git_branch}
use piscis_engine.Store.Claims.{koi_has_in_progress_todo}
use piscis_engine.Store.Kois.{update_koi_status}
use piscis_engine.Store.Pools.{get_pool_session}
use piscis_engine.Services.Base.{World, M, ◌>>=◌, ◌>>◌, pure, ensure, read, write, try_write}
use piscis_engine.Coordinator.Turn.{
  CoordinatorConfig, ExecuteTodoArgs, KoiTurnExit, KoiTurnOutcome, KoiExecResult, skipped,
  resolve_turn_context, ensure_pool_allows_runtime_work, claim_fence, pool_id_of, announce_claim,
  koi_branch_name, turn_timeout,
}
use piscis_engine.Coordinator.Outcome.{record_turn_outcome}

-- What runs outside: `git worktree add`, which answers the directory if it succeeds, and the
-- subagent's turn, given its workspace and its timeout, which may itself act on the board.
pub record Host : Type 0 where
  pub setup_worktree : Text → Text → Text → Option Text
  pub run_turn : KoiDefinition → KoiTodo → Option Text → ℕ → M KoiTurnOutcome

abbrev project_dir_of : Option PoolSession → Option Text
project_dir_of none = none
project_dir_of (some p) = p.project_dir

abbrev worktree_in : Host → Option Text → KoiDefinition → KoiTodo → Option Text
worktree_in host none koi t = none
worktree_in host (some dir) koi t = host.setup_worktree dir koi.name t.id

abbrev stored_dir : Option Text → Db → Option Text
stored_dir none db = none
stored_dir (some id) db = project_dir_of (get_pool_session id db)

unfoldable pub maybe_setup_worktree :
    Host → CoordinatorConfig → Option Text → KoiDefinition → KoiTodo → Db → Option Text
maybe_setup_worktree host cfg pool koi t db =
    if cfg.use_worktrees then worktree_in host (stored_dir pool db) koi t else none

abbrev nonblank : Option Text → Option Text
nonblank none = none
nonblank (some d) = if is_blank (trim d) then none else some d

abbrev or_dir : Option Text → Option Text → Option Text
or_dir none d = d
or_dir (some w) d = some w

-- The workspace of a turn: the worktree, or else the pool's project directory.
unfoldable pub turn_workspace :
    Host → CoordinatorConfig → Option PoolSession → KoiDefinition → KoiTodo → Db → Option Text
unfolding maybe_setup_worktree
turn_workspace host cfg pool koi t db =
    or_dir (maybe_setup_worktree host cfg (pool_id_of pool) koi t db)
      (nonblank (project_dir_of pool))

-- With any workspace the todo gets its branch name.
unfoldable pub record_branch : Env → Option Text → KoiDefinition → KoiTodo → Db → Db
record_branch env none koi t db = db
record_branch env (some w) koi t db =
    set_koi_todo_git_branch env.now t.id (koi_branch_name env koi.name t.id) db

abbrev text_or : Option Text → Text → Text
text_or none d = d
text_or (some t) d = t

unfoldable pub timed_out_text : Text → ℕ → Text → Text
timed_out_text koi secs task =
    text "Koi '"
    ++ (koi ++ (text "' timed out after " ++ (decimal secs ++ (text " seconds on task: " ++ task))))

unfoldable pub crashed_text : Text → Text
crashed_text koi = text "Koi '" ++ (koi ++ text "' subagent crashed")

unfoldable pub turn_result : ℕ → KoiDefinition → KoiTodo → KoiTurnOutcome → Bool × Text
turn_result secs koi t outcome = elim outcome.exit_kind [
  | KoiTurnExit.completed ↦ (true, outcome.response_text)
  | KoiTurnExit.cancelled ↦ (false, text_or outcome.error (text "Koi turn cancelled"))
  | KoiTurnExit.timed_out ↦ (false, timed_out_text koi.name secs t.title)
  | KoiTurnExit.crashed ↦ (false, text_or outcome.error (crashed_text koi.name))
]

unfoldable pub execute_todo_turn_inner :
    Host
    → Env
    → CoordinatorConfig
    → KoiDefinition
    → KoiTodo
    → Option PoolSession
    → Option ℕ
    → M KoiExecResult
unfolding turn_workspace record_branch turn_result
execute_todo_turn_inner host env cfg koi t pool assign = do
  workspace ← read (turn_workspace host cfg pool koi t)
  write (record_branch env workspace koi t)
  outcome ← host.run_turn koi t workspace (turn_timeout cfg koi t)
  let result = turn_result (turn_timeout cfg koi t) koi t outcome
  m ← record_turn_outcome env (pool_id_of pool) koi t assign result.0 result.1
  pure (record {
    success = result.0;
    reply = result.1;
    result_message_id = m;
    exit_kind = outcome.exit_kind;
  })

-- The Koi is idle again unless the board shows work of its own in progress.
unfoldable pub release_koi : ℕ → Text → Db → Db
release_koi now koi db =
    if koi_has_in_progress_todo koi db then db else update_koi_status now koi KoiStatus.idle db

-- The restore runs whatever the turn answered.
abbrev and_release : ℕ → Text → Result KoiExecResult × World → Result KoiExecResult × World
and_release now koi (r, w) = (r, record w { db = release_koi now koi w.db })

unfoldable pub run_claimed :
    Host
    → Env
    → CoordinatorConfig
    → KoiDefinition
    → KoiTodo
    → Option PoolSession
    → Option ℕ
    → Bool
    → M KoiExecResult
unfolding execute_todo_turn_inner release_koi
run_claimed host env cfg koi t pool assign false = pure skipped
run_claimed host env cfg koi t pool assign true =
    announce_claim env koi t (pool_id_of pool) assign >> λ w.
    and_release env.now koi.id (execute_todo_turn_inner host env cfg koi t pool assign w)

unfoldable pub execute_todo_turn :
    Host → Env → CoordinatorConfig → ExecuteTodoArgs → M KoiExecResult
unfolding run_claimed
execute_todo_turn host env cfg args = do
  context ← resolve_turn_context args
  let koi = context.0
  let t = context.1
  let pool = context.2
  ensure_pool_allows_runtime_work pool
  todos ← read (list_koi_todos none)
  ensure (is_todo_dependency_satisfied t todos) Error.dependency_not_satisfied
  won ← try_write (claim_fence env.now t.id koi.id)
  run_claimed host env cfg koi t pool args.assign_msg_id won
