-- ===== src/Services/Completing.antt =====
-- `complete_todo` of services.rs, when it may succeed.
use piscis_engine.Prelude.{
  ℕ, ◌≡◌, refl, ◌∙◌, true, false, ◌&&◌, ◌||◌, some, Text, text, text_eq, trim, is_blank, all,
  if◌then◌else◌,
}
use piscis_engine.Model.{
  KoiTodo, KoiStatus, TodoStatus, MetadataBase, EventType, TodoChangeAction, is_done, is_cancelled,
}
use piscis_engine.Integration.{integration_ready}
use piscis_engine.Store.{Db, ok, Env}
use piscis_engine.Store.Todos.{
  get_koi_todo, complete_koi_todo, completed_row, has_branch, is_unsettled,
}
use piscis_engine.Store.Kois.{update_koi_status}
use piscis_engine.Project.Signals.{enrich_pool_message_metadata}
use piscis_engine.Coordinator.Merging.{complete-find}
use piscis_engine.Coordinator.Dispatch.{is_released, idle-all}
use piscis_engine.Services.Base.{
  World, CallerContext, is_piscis, plain, find_todo_by_prefix, emit_todo, changed,
}
use piscis_engine.Services.Claiming.{note-todos}
use piscis_engine.Services.Todos.{complete_todo, complete_found, close_todo}

status-todos :
    (now : ℕ) (koi id : Text) (status : KoiStatus) (db : Db)
    → get_koi_todo id (update_koi_status now koi status db) ≡ get_koi_todo id db
unfolding update_koi_status get_koi_todo
status-todos now koi id status db = refl

rows-found :
    (id : Text) (db v : Db) {t : KoiTodo}
    → v.todos ≡ db.todos
    → get_koi_todo id db ≡ some t
    → get_koi_todo id v ≡ some t
unfolding get_koi_todo
rows-found id db v same found = rw same found

-- Completing a todo that is found by the prefix and by its id and has not ended, with a summary, succeeds for
-- its owner and for Piscis: the answer is the row on the board, which is done, is ready to be
-- merged if it has a branch that is not settled, and whose owner is idle.
pub complete_todo_lem :
    (env : Env) (caller : CallerContext) (prefix summary : Text) (w : World) {t : KoiTodo}
    → is_blank (trim summary) ≡ false
    → find_todo_by_prefix prefix w.db ≡ some t
    → get_koi_todo t.id w.db ≡ some t
    → is_done t.status ≡ false
    → is_cancelled t.status ≡ false
    → is_piscis caller || text_eq t.owner_id caller.memory_owner_id ≡ true
    → (u : KoiTodo) × (v : World) × (complete_todo env caller prefix summary w
        ≡ (ok (changed u), v))
      × (get_koi_todo t.id v.db ≡ some u)
      × (u.status ≡ TodoStatus.done)
      × (u.integration_status ≡ (
          if has_branch t.git_branch && is_unsettled t.integration_status
          then some integration_ready
          else t.integration_status))
      × (all (is_released t.owner_id) v.db.kois ≡ true)
unfolding complete_todo complete_found close_todo completed_row
complete_todo_lem env caller prefix summary w {t} said named found open_row live allowed =
    let (o, v, noted, same) =
      note-todos env t.pool_session_id caller.memory_owner_id summary (text "result")
        (enrich_pool_message_metadata env.to_lowercase
          (plain (MetadataBase.todo_state t.id t.owner_id TodoStatus.done)) summary)
        t.id EventType.task_completed w in
    let db = complete_koi_todo env.now t.id o v.db in
    let idle = update_koi_status env.now t.owner_id KoiStatus.idle db in
    let u = completed_row env.now o t in
    let here : get_koi_todo t.id idle ≡ some u =
      status-todos env.now t.owner_id t.id KoiStatus.idle db
      ∙ complete-find env.now t.id o v.db {dep = t} (rows-found t.id w.db v.db same found) in
    (
      u,
      (emit_todo u.pool_session_id TodoChangeAction.completed u (record v { db = idle })).1,
      rw (said, named) (rw (open_row, live, allowed) (rw noted (rw here refl))),
      here,
      refl,
      refl,
      idle-all env.now t.owner_id db,
    )
