-- ===== src/Examples/Watching.antt =====
-- Waiting, the scan for pending todos and the assessment of a project, on concrete boards.
use piscis_engine.Prelude.{
  all, any, not, ℕ, ◌+◌, ◌*◌, ◌≤◌, ◌≡◌, ◌↔◌, refl, Bool, true, false, Option, none, some, List, [],
  ◌∷◌, Text, text, length, is_empty, arith, suc,
}
use piscis_engine.Model.{PoolMessage, EventType, MetadataBase}
use piscis_engine.Store.{Db, Env, Result, ok, err}
use piscis_engine.Services.Base.{World, pure, plain}
use piscis_engine.Services.Wait.{
  Poll, WaitForKoiArgs, WaitReply, wait_for_koi, wait_timeout, wait_sleep, sleep_for,
}
use piscis_engine.Services.Waiting.{wait_for_koi_ends, is_answer}
use piscis_engine.Coordinator.Turn.{CoordinatorConfig, KoiTurnExit}
use piscis_engine.Coordinator.Execute.{Host}
use piscis_engine.Coordinator.Activate.{activate_pending_todos, pending_todos}
use piscis_engine.Coordinator.Patrol.{activate_pending_todos_idle}
use piscis_engine.Project.Assess.{
  is_unfinished, ProjectDecision, assess_project_state, project_counts, latest_signals,
}
use piscis_engine.Project.Decisions.{
  lookup, last_state, latest_signals_last, escalates_iff, is_unresolved,
}
use piscis_engine.Examples.Board.{
  pool, running_todo, done_todo, branch_todo, waiting_todo, board, world, env, main_agent,
}

-- Rounds of twenty seconds on a board where nothing ends.
abbrev polls : ℕ → Poll
polls n = record { elapsed = n * 20000; db = board (running_todo ∷ []); cancelled = false }

abbrev wait_args : WaitForKoiArgs
wait_args = record {
  pool_id = text "p1";
  koi_id = none;
  todo_id = none;
  timeout_secs = 10;
  min_wait_secs = 0;
  initial_backoff_ms = 100;
  max_backoff_ms = 2000;
}

slept : (n : ℕ) → (polls n).elapsed + wait_sleep wait_args polls n ≤ (polls (suc n)).elapsed
unfolding wait_sleep sleep_for
slept n = omega arith

wait_for_koi_ends_example :
    (r : Result WaitReply) × (wait_for_koi
        (suc (wait_timeout wait_args))
        polls
        main_agent
        wait_args
        (world (running_todo ∷ []))
      ≡ (ok (some r), world (running_todo ∷ [])))
    × (is_answer r ≡ true)
unfolding piscis_engine.Services.Base.is_piscis piscis_engine.Prelude.text_eq
    piscis_engine.Services.Base.resolve_pool piscis_engine.Prelude.trim
    piscis_engine.Store.Pools.resolve_pool_session_identifier
    piscis_engine.Store.Pools.hydrate_members piscis_engine.Store.Pools.list_pool_member_ids
wait_for_koi_ends_example =
    wait_for_koi_ends polls main_agent wait_args (world (running_todo ∷ [])) {session = pool} refl
      refl slept

abbrev host : Host
host = record {
  setup_worktree = λ dir name id. none;
  run_turn = λ koi t workspace timeout.
      pure (record { exit_kind = KoiTurnExit.completed; response_text = []; error = none });
}

abbrev cfg : CoordinatorConfig
cfg = record { default_task_timeout_secs = 600; use_worktrees = false }

-- The waiting todo's upstream still runs.
activate_pending_todos_idle_example :
    activate_pending_todos host
      (λ id. env)
      cfg
      (some (text "p1"))
      (world (waiting_todo ∷ branch_todo ∷ []))
    ≡ (0, world (waiting_todo ∷ branch_todo ∷ []))
unfolding piscis_engine.Store.Pools.list_pool_sessions piscis_engine.Store.Pools.hydrate_members
    piscis_engine.Prelude.text_eq pending_todos piscis_engine.Store.Todos.list_koi_todos
    piscis_engine.Integration.is_todo_dependency_satisfied piscis_engine.Prelude.trimmed
    piscis_engine.Prelude.trim piscis_engine.Integration.resolve_todo_dependency
activate_pending_todos_idle_example =
    activate_pending_todos_idle host (λ id. env) cfg (text "p1")
      (world (waiting_todo ∷ branch_todo ∷ [])) refl

abbrev message : Text → ℕ → Text → Option EventType → PoolMessage
message sender at content event = record {
  id = at;
  pool_session_id = text "p1";
  sender_id = sender;
  content = content;
  msg_type = text "text";
  metadata = plain MetadataBase.empty;
  todo_id = none;
  reply_to_message_id = none;
  event_type = event;
  created_at = at;
}

abbrev talk : List PoolMessage
talk =
    message (text "k1") 1 (text "[projectstatus] waiting") none
    ∷ message (text "k2") 2 (text "[projectstatus] follow_up_needed") none
    ∷ message (text "k1") 3 (text "[projectstatus] ready_for_piscis_review @piscis") none
    ∷ []

latest_signals_last_example :
    lookup (text "k1") (latest_signals (λ s. s) talk []) ≡ last_state (λ s. s) (text "k1") talk none
latest_signals_last_example = latest_signals_last (λ s. s) (text "k1") talk []

abbrev failure : List PoolMessage
failure = message (text "k1") 5 (text "crashed") (some EventType.task_failed) ∷ []

escalates_iff_example :
    ((assess_project_state (λ s. s) 0 failure (done_todo ∷ [])).decision
      ≡ ProjectDecision.escalate_to_human)
    ↔ ((all (λ t. not (is_unfinished t)) (done_todo ∷ []) ≡ true)
        × (any (is_unresolved [] 0 (done_todo ∷ [])) failure ≡ true))
unfolding latest_signals piscis_engine.Project.Assess.sort_messages
    piscis_engine.Project.Signals.extract_sender_state
    piscis_engine.Project.Signals.detect_coordination_signal piscis_engine.Prelude.starts_with
    piscis_engine.Prelude.trim
escalates_iff_example = escalates_iff (λ s. s) 0 failure (done_todo ∷ [])
