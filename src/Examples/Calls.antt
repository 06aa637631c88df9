-- ===== src/Examples/Calls.antt =====
-- Service calls on concrete boards.
use piscis_engine.Prelude.{
  all, ℕ, ◌≡◌, ◌≢◌, ◌↔◌, ◌⊎◌, inl, inr, refl, Bool, true, false, Option, none, some, List, [], ◌∷◌,
  Text, text, text_eq, is_empty,
}
use piscis_engine.Model.{
  KoiTodo, PoolSession, TodoStatus, PoolStatus, MetadataBase, PoolMessage, is_done, is_cancelled,
  rfc3339,
}
use piscis_engine.Store.{Db, Error, Result, ok, err, Env, has_todo}
use piscis_engine.Store.Todos.{
  get_koi_todo, create_koi_todo, delete_koi_todo, count_active_todos_for_member,
}
use piscis_engine.Store.Pools.{is_pool_member}
use piscis_engine.Store.Lookup.{create_koi_todo_lem}
use piscis_engine.Services.Base.{changed, World, plain}
use piscis_engine.Services.Todos.{
  CreateTodoArgs, create_todo, claim_todo, complete_todo, cancel_todo, update_todo_status,
}
use piscis_engine.Services.Members.{add_member, remove_member}
use piscis_engine.Services.Lifecycle.{change_pool_status, from_heartbeat, unfinished_todos}
use piscis_engine.Services.Claiming.{claim_todo_lem}
use piscis_engine.Services.Completing.{complete_todo_lem}
use piscis_engine.Coordinator.Dispatch.{is_released}
use piscis_engine.Services.Failures.{AllOrNothing, services_fail_unchanged}
use piscis_engine.Services.Traces.{Call, Request, serve_all, done_absorbs, cancelled_absorbs}
use piscis_engine.Services.Roster.{add_member_lem, remove_member_lem, archive_guarded}
use piscis_engine.Project.Signals.{enrich_pool_message_metadata}
use piscis_engine.Examples.Board.{
  branch_todo, ada, bob, pool, open_todo, running_todo, done_todo, board, world, env, main_agent,
  ada_agent,
}

abbrev calls : List Call
calls =
    record { env = env; caller = ada_agent; request = Request.claim (text "t3") }
    ∷ record { env = env; caller = main_agent; request = Request.cancel (text "t3") (text "late") }
    ∷ record {
      env = env;
      caller = main_agent;
      request = Request.update (text "t") TodoStatus.blocked;
    }
    ∷ []

done_absorbs_example :
    (u : KoiTodo) × (get_koi_todo
        (text "t3")
        (serve_all calls (world (running_todo ∷ done_todo ∷ []))).db
      ≡ some u)
    × (is_done u.status ≡ true)
unfolding text_eq
done_absorbs_example =
    done_absorbs (text "t3") calls (world (running_todo ∷ done_todo ∷ [])) (refl, refl)

abbrev cancelled_todo : KoiTodo
cancelled_todo = record done_todo { status = TodoStatus.cancelled }

cancelled_absorbs_example :
    (u : KoiTodo) × (get_koi_todo
        (text "t3")
        (serve_all calls (world (running_todo ∷ cancelled_todo ∷ []))).db
      ≡ some u)
    × (is_cancelled u.status ≡ true)
unfolding text_eq
cancelled_absorbs_example =
    cancelled_absorbs (text "t3") calls (world (running_todo ∷ cancelled_todo ∷ [])) (refl, refl)

abbrev new_args : CreateTodoArgs
new_args = record {
  pool_id = text "p1";
  title = text "test";
  description = [];
  priority = [];
  timeout_secs = 0;
  depends_on = none;
}

services_fail_unchanged_example :
    AllOrNothing (create_todo env ada_agent new_args) (world (running_todo ∷ []))
    × AllOrNothing (claim_todo env ada_agent (text "t2")) (world (running_todo ∷ []))
    × AllOrNothing
        (complete_todo env ada_agent (text "t2") (text "finished"))
        (world (running_todo ∷ []))
    × AllOrNothing
        (cancel_todo env ada_agent (text "t2") (text "finished"))
        (world (running_todo ∷ []))
    × AllOrNothing
        (update_todo_status env ada_agent (text "t2") TodoStatus.blocked)
        (world (running_todo ∷ []))
services_fail_unchanged_example =
    services_fail_unchanged env ada_agent new_args (text "t2") (text "finished") TodoStatus.blocked
      (world (running_todo ∷ []))

remove_member_lem_example :
    ((count_active_todos_for_member (text "p1") (text "k1") (board (running_todo ∷ [])) ≡ 0)
      × ((v : World) × (remove_member main_agent (text "p1") (text "k1") (world (running_todo ∷ []))
            ≡ (ok ada, v))
          × (is_pool_member (text "p1") (text "k1") v.db ≡ false)))
    ⊎ ((count_active_todos_for_member (text "p1") (text "k1") (board (running_todo ∷ [])) ≢ 0)
        × (remove_member main_agent (text "p1") (text "k1") (world (running_todo ∷ [])) ≡ (
          err (
              Error.active_todos_remain (
                count_active_todos_for_member (text "p1") (text "k1") (board (running_todo ∷ [])))),
          world (running_todo ∷ []),
        )))
unfolding piscis_engine.Services.Base.resolve_pool piscis_engine.Prelude.trim text_eq
    piscis_engine.Store.Pools.resolve_pool_session_identifier
    piscis_engine.Store.Pools.hydrate_members piscis_engine.Store.Pools.list_pool_member_ids
    piscis_engine.Store.Kois.resolve_koi_identifier
remove_member_lem_example =
    remove_member_lem main_agent (text "p1") (text "k1") (world (running_todo ∷ [])) {p = pool}
      {k = ada} refl refl refl

add_member_lem_example :
    ((is_pool_member (text "p1") (text "k2") (board []) ≡ false)
      × ((v : World) × (add_member main_agent (text "p1") (text "k2") (world []) ≡ (ok bob, v))
          × (is_pool_member (text "p1") (text "k2") v.db ≡ true)))
    ⊎ ((is_pool_member (text "p1") (text "k2") (board []) ≡ true)
        × (add_member main_agent (text "p1") (text "k2") (world [])
            ≡ (err Error.already_member, world [])))
unfolding piscis_engine.Services.Base.resolve_pool piscis_engine.Prelude.trim text_eq
    piscis_engine.Store.Pools.resolve_pool_session_identifier
    piscis_engine.Store.Pools.hydrate_members piscis_engine.Store.Pools.list_pool_member_ids
    piscis_engine.Store.Kois.resolve_koi_identifier
add_member_lem_example =
    add_member_lem main_agent (text "p1") (text "k2") (world []) {p = pool} {k = bob} refl refl refl
      refl refl

archive_guarded_example :
    ((p : PoolSession) × ((change_pool_status env main_agent pool PoolStatus.archived
          (world (done_todo ∷ []))).0
        ≡ ok p))
    ↔ ((from_heartbeat main_agent ≡ false)
        × (is_empty (unfinished_todos (text "p1") (board (done_todo ∷ []))) ≡ true))
unfolding text_eq
archive_guarded_example = archive_guarded env main_agent pool (world (done_todo ∷ [])) refl

abbrev created : KoiTodo
created = record open_todo {
  id = text "t9";
  depends_on = none;
  created_at = 93600;
  updated_at = rfc3339 93600;
}

abbrev with_created : Db
with_created = record (board (done_todo ∷ [])) { todos = created ∷ done_todo ∷ [] }

create_koi_todo_lem_example :
    (get_koi_todo (text "t9") with_created ≡ some created)
    × (created.status ≡ TodoStatus.todo)
    × (created.claimed_by ≡ none)
    × (has_todo (text "t9") (board (done_todo ∷ [])) ≡ false)
    × (get_koi_todo (text "t3") with_created ≡ get_koi_todo (text "t3") (board (done_todo ∷ [])))
unfolding create_koi_todo text_eq
create_koi_todo_lem_example =
    create_koi_todo_lem env (text "k1") (text "build") [] (text "medium") (text "piscis")
      (some (text "p1")) (text "piscis") none 0 (board (done_todo ∷ [])) (text "t3") {t = created}
      {db' = with_created} refl refl

abbrev said : Text
said = text "[projectstatus] waiting @piscis"

abbrev posted : PoolMessage
posted = record {
  id = 1;
  pool_session_id = text "p1";
  sender_id = text "k1";
  content = said;
  msg_type = text "text";
  metadata = enrich_pool_message_metadata (λ s. s) (plain MetadataBase.empty) said;
  todo_id = none;
  reply_to_message_id = none;
  event_type = none;
  created_at = 0;
}

abbrev ada_open : KoiTodo
ada_open = record open_todo { owner_id = text "k1" }

claim_todo_lem_example :
    (u : KoiTodo) × (v : World) × (claim_todo env ada_agent (text "t1") (world (ada_open ∷ []))
      ≡ (ok u, v))
    × (get_koi_todo (text "t1") v.db ≡ some u)
    × (u.status ≡ TodoStatus.in_progress)
    × (u.claimed_by ≡ some (text "k1"))
unfolding piscis_engine.Services.Base.find_todo_by_prefix piscis_engine.Store.Todos.list_koi_todos
    piscis_engine.Prelude.starts_with get_koi_todo text_eq piscis_engine.Services.Base.is_piscis
claim_todo_lem_example =
    claim_todo_lem env ada_agent (text "t1") (world (ada_open ∷ [])) {t = ada_open} refl refl refl
      refl refl refl refl

complete_todo_lem_example :
    (u : KoiTodo) × (v : World) × (complete_todo env ada_agent
        (text "t4")
        (text "finished")
        (world (branch_todo ∷ []))
      ≡ (ok (changed u), v))
    × (get_koi_todo (text "t4") v.db ≡ some u)
    × (u.status ≡ TodoStatus.done)
    × (u.integration_status ≡ some (text "ready"))
    × (all (is_released (text "k1")) v.db.kois ≡ true)
unfolding piscis_engine.Prelude.trim piscis_engine.Services.Base.find_todo_by_prefix
    piscis_engine.Store.Todos.list_koi_todos piscis_engine.Prelude.starts_with get_koi_todo text_eq
    piscis_engine.Services.Base.is_piscis piscis_engine.Store.Todos.sql_trim_start
complete_todo_lem_example =
    complete_todo_lem env ada_agent (text "t4") (text "finished") (world (branch_todo ∷ []))
      {t = branch_todo} refl refl refl refl refl refl
