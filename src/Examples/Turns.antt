-- ===== src/Examples/Turns.antt =====
-- Turns on concrete boards.
use piscis_engine.Prelude.{
  ℕ, ◌≡◌, ◌≤◌, refl, Bool, true, false, not, ◌||◌, Option, none, some, List, [], ◌∷◌, Text, text,
  count, any, all, text_eq, arith,
}
use piscis_engine.Model.{KoiTodo, TodoStatus, is_in_progress, rfc3339}
use piscis_engine.Integration.{is_todo_dependency_satisfied, integration_merged}
use piscis_engine.Store.{Db, Error, Result, ok, err}
use piscis_engine.Store.Todos.{
  get_koi_todo, list_koi_todos, complete_koi_todo, set_koi_todo_integration_status_by_branch,
  replace_koi_todo,
}
use piscis_engine.Store.Claims.{
  try_claim_koi_todo, claimed_row, koi_has_other_in_progress_todo, is_busy,
}
use piscis_engine.Store.Kois.{update_koi_status}
use piscis_engine.Services.Base.{World, pure}
use piscis_engine.Coordinator.Turn.{
  claim_fence, CoordinatorConfig, KoiTurnOutcome, KoiTurnExit, announce_claim,
}
use piscis_engine.Coordinator.Outcome.{record_turn_outcome}
use piscis_engine.Coordinator.Execute.{Host, execute_todo_turn, run_claimed}
use piscis_engine.Coordinator.Recovery.{dispatch, watchdog_recover}
use piscis_engine.Coordinator.Report.{is_reconciled}
use piscis_engine.Coordinator.Fence.{
  is_running, claim_fence_exclusive, claim_fence_one_winner, claim_fence_revives,
}
use piscis_engine.Coordinator.Settles.{record_turn_outcome_settles}
use piscis_engine.Coordinator.Dispatch.{
  execute_todo_turn_refuses, run_claimed_releases, is_released,
}
use piscis_engine.Coordinator.Merging.{merge_releases, complete_releases}
use piscis_engine.Coordinator.Replacement.{replacement_never_satisfied}
use piscis_engine.Coordinator.Watchdog.{watchdog_misses_same_day, watchdog_zero_clears}
use piscis_engine.Examples.Board.{
  ada, pool, open_todo, running_todo, done_todo, branch_todo, waiting_todo, board, world, env,
  db_of,
}

record_turn_outcome_settles_example :
    ((message : Option ℕ) × ((record_turn_outcome env
          (some (text "p1"))
          ada
          running_todo
          none
          true
          (text "all good")
          (world (running_todo ∷ []))).0
        ≡ ok message))
    × (is_reconciled
          (text "t2")
          (record_turn_outcome env
            (some (text "p1"))
            ada
            running_todo
            none
            true
            (text "all good")
            (world (running_todo ∷ []))).1.db
        ≡ true)
unfolding get_koi_todo text_eq
record_turn_outcome_settles_example =
    record_turn_outcome_settles env (text "p1") ada running_todo none true (text "all good")
      (world (running_todo ∷ [])) {u = running_todo} refl refl refl refl

-- The board after Ada won the open todo.
abbrev won : Db
won = db_of (board []) (claim_fence 5 (text "t1") (text "k1") (board (open_todo ∷ done_todo ∷ [])))

claim_fence_exclusive_example : count (is_running (text "k1")) won.todos ≤ 1
unfolding claim_fence try_claim_koi_todo claimed_row update_koi_status
    koi_has_other_in_progress_todo text_eq
claim_fence_exclusive_example =
    claim_fence_exclusive 5 (text "t1") (text "k1") (board (open_todo ∷ done_todo ∷ [])) won
      (omega arith) refl

-- The board has one more todo by then.
claim_fence_one_winner_example :
    claim_fence 6 (text "t1") (text "k2") (record won { todos = running_todo ∷ won.todos })
    ≡ ok (false, record won { todos = running_todo ∷ won.todos })
unfolding claim_fence try_claim_koi_todo claimed_row update_koi_status
    koi_has_other_in_progress_todo text_eq get_koi_todo piscis_engine.Store.update_where
claim_fence_one_winner_example =
    claim_fence_one_winner 5 (text "t1") (text "k1") (board (open_todo ∷ done_todo ∷ [])) won refl 6
      (text "k2") (record won { todos = running_todo ∷ won.todos }) (omega arith) refl

claim_fence_revives_example :
    (db' : Db) × (claim_fence 5 (text "t3") (text "k1") (board (done_todo ∷ [])) ≡ ok (true, db'))
    × ((u : KoiTodo) × (get_koi_todo (text "t3") db' ≡ some u)
        × (u.status ≡ TodoStatus.in_progress))
unfolding get_koi_todo koi_has_other_in_progress_todo text_eq
claim_fence_revives_example =
    claim_fence_revives 5 (text "t3") (text "k1") (board (done_todo ∷ [])) {t = done_todo} refl refl
      refl refl

complete_releases_example :
    is_todo_dependency_satisfied
      (record waiting_todo { depends_on = some (text "t2") })
      (list_koi_todos none
        (complete_koi_todo 5 (text "t2") none (board (waiting_todo ∷ running_todo ∷ []))))
    ≡ true
unfolding get_koi_todo piscis_engine.Prelude.trim text_eq
    piscis_engine.Integration.dependency_produces_branch piscis_engine.Prelude.trimmed
complete_releases_example =
    complete_releases 5 none (board (waiting_todo ∷ running_todo ∷ []))
      (record waiting_todo { depends_on = some (text "t2") }) running_todo refl refl refl refl refl

merge_releases_example :
    (is_todo_dependency_satisfied waiting_todo (
        list_koi_todos none
          (complete_koi_todo 5 (text "t4") none (board (waiting_todo ∷ branch_todo ∷ []))))
      ≡ false)
    × (is_todo_dependency_satisfied waiting_todo (
          list_koi_todos none (
            set_koi_todo_integration_status_by_branch 6
              (text "p1")
              (text "koi/Ada-t4")
              integration_merged
              (complete_koi_todo 5 (text "t4") none (board (waiting_todo ∷ branch_todo ∷ [])))))
        ≡ true)
unfolding get_koi_todo piscis_engine.Prelude.trim text_eq
    piscis_engine.Integration.dependency_produces_branch piscis_engine.Prelude.trimmed
    piscis_engine.Store.Todos.sql_trim_start
merge_releases_example =
    merge_releases 5 6 none (text "p1") (text "koi/Ada-t4")
      (board (waiting_todo ∷ branch_todo ∷ [])) waiting_todo branch_todo refl refl refl refl refl
      refl refl refl refl

abbrev replacement : Db
replacement = db_of (board []) (
    replace_koi_todo env running_todo (text "k2") (text "again") [] (text "piscis") (text "piscis")
      (text "stuck") none (board (running_todo ∷ [])))

abbrev replacing : KoiTodo
replacing = record open_todo {
  id = text "t9";
  owner_id = text "k2";
  title = text "again";
  depends_on = some (text "t2");
  created_at = 93600;
  updated_at = rfc3339 93600;
}

replacement_never_satisfied_example :
    is_todo_dependency_satisfied replacing (list_koi_todos none replacement) ≡ false
unfolding get_koi_todo replace_koi_todo text_eq piscis_engine.Prelude.trim
replacement_never_satisfied_example =
    replacement_never_satisfied env running_todo (text "k2") (text "again") [] (text "piscis")
      (text "piscis") (text "stuck") none (board (running_todo ∷ [])) {t = replacing}
      {db' = replacement} refl refl refl refl

abbrev host : Host
host = record {
  setup_worktree = λ dir name id. none;
  run_turn = λ koi t workspace timeout.
      pure (record {
        exit_kind = KoiTurnExit.completed;
        response_text = text "all good";
        error = none;
      });
}

abbrev cfg : CoordinatorConfig
cfg = record { default_task_timeout_secs = 600; use_worktrees = false }

execute_todo_turn_refuses_example :
    execute_todo_turn host env cfg
      (dispatch (text "k1") (text "t5"))
      (world (waiting_todo ∷ branch_todo ∷ []))
    ≡ (err Error.dependency_not_satisfied, world (waiting_todo ∷ branch_todo ∷ []))
unfolding piscis_engine.Coordinator.Turn.resolve_turn_context
    piscis_engine.Store.Kois.resolve_koi_identifier piscis_engine.Prelude.trim text_eq get_koi_todo
    piscis_engine.Store.Pools.resolve_pool_session_identifier
    piscis_engine.Store.Pools.hydrate_members piscis_engine.Store.Pools.list_pool_member_ids
    is_todo_dependency_satisfied piscis_engine.Prelude.trimmed
    piscis_engine.Integration.resolve_todo_dependency list_koi_todos
execute_todo_turn_refuses_example =
    execute_todo_turn_refuses host env cfg (dispatch (text "k1") (text "t5"))
      (world (waiting_todo ∷ branch_todo ∷ [])) {koi = ada} {t = waiting_todo} {pool = some pool}
      refl refl

abbrev announced : World
announced =
    (announce_claim env ada running_todo (some (text "p1")) none (world (running_todo ∷ []))).1

run_claimed_releases_example :
    all
      (is_released (text "k1"))
      (run_claimed host env cfg ada running_todo
        (some pool)
        none
        true
        (world (running_todo ∷ []))).1.db.kois
    ≡ true
unfolding announce_claim get_koi_todo text_eq piscis_engine.Store.Messages.insert_pool_message_ext
    piscis_engine.Store.Claims.koi_has_in_progress_todo run_claimed record_turn_outcome
    piscis_engine.Prelude.trim piscis_engine.Store.Todos.mark_koi_todo_needs_review
    piscis_engine.Store.update_where update_koi_status
run_claimed_releases_example =
    run_claimed_releases host env cfg ada running_todo (some pool) none (world (running_todo ∷ []))
      {v = announced} refl refl

watchdog_zero_clears_example :
    (any
        (λ t. is_in_progress t.status)
        (watchdog_recover 93600 0 (board (running_todo ∷ []))).1.todos
      ≡ false)
    × (any (λ k. is_busy k.status) (watchdog_recover 93600 0 (board (running_todo ∷ []))).1.kois
        ≡ false)
watchdog_zero_clears_example = watchdog_zero_clears 93600 (board (running_todo ∷ []))

-- A todo last touched 22 hours ago, and an age limit of ten minutes.
watchdog_misses_same_day_example :
    get_koi_todo (text "t2") (watchdog_recover 80000 600 (board (done_todo ∷ running_todo ∷ []))).1
    ≡ some running_todo
unfolding get_koi_todo text_eq
watchdog_misses_same_day_example =
    watchdog_misses_same_day 80000 600 (text "t2") (board (done_todo ∷ running_todo ∷ []))
      {t = running_todo} (omega arith) refl refl
