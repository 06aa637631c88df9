-- ===== src/Services/Absorb.antt =====
-- Done and cancelled todos stay so under the services of services.rs.
use piscis_engine.Prelude.{
  ◌≡◌, Bool, true, false, not, ◌||◌, none, some, Text, text_eq, trim, is_blank, is_some_text, arith,
  if◌then◌else◌, text, Bool-cases, inl, inr,
}
use piscis_engine.Model.{
  KoiTodo, TodoStatus, is_terminal, is_done, is_cancelled, is_blocked, KoiStatus, TodoChangeAction,
  MetadataBase, EventType,
}
use piscis_engine.Store.{Error, Env}
use piscis_engine.Store.Todos.{complete_koi_todo, cancel_koi_todo, update_koi_todo, get_koi_todo}
use piscis_engine.Store.Claims.{try_claim_koi_todo}
use piscis_engine.Store.Kois.{update_koi_status}
use piscis_engine.Services.Base.{changed, no_op, CallerContext, is_piscis, plain}
use piscis_engine.Services.Todos.{
  complete_todo, complete_found, close_todo, cancel_todo, cancel_found, drop_todo,
  update_todo_status, is_settable, or_cancelled, claim_todo, settle_claim, held_by_other, holder,
}
use piscis_engine.Services.Messages.{claimed_text, cancelled_text, task_status_text}
use piscis_engine.Project.Signals.{enrich_pool_message_metadata}
use piscis_engine.Services.Keeps.{
  Keeps, bind-Keeps, ensure-Keeps, check-Keeps, read-Keeps, pure-Keeps, fail-Keeps, write-Keeps,
  try_write-Keeps,
}
use piscis_engine.Services.Settled.{agrees, Settled, note-Settled, found-Settled}
use piscis_engine.Services.Statements.{
  update_koi_todo-Settled, cancel_koi_todo-Settled, complete_koi_todo-Settled,
  update_koi_status-Settled, announce-Keeps, try_claim_koi_todo-Settled,
}

module _ (st : TodoStatus → Bool) (terminal : (s : TodoStatus) → st s ≡ true → is_terminal s ≡ true)
    (id : Text) where
  -- A row that is not terminal is not one of the settled rows.
  other_row :
      (t : KoiTodo) → agrees st id t ≡ true → is_terminal t.status ≡ false → text_eq t.id id ≡ false
  other_row t a open_row = ground (arith, terminal t.status)

  pub update_todo_status-Keeps :
      (env : Env) (caller : CallerContext) (todo_id : Text) (status : TodoStatus)
      → Keeps (Settled st id) (update_todo_status env caller todo_id status)
  unfolding update_todo_status
  update_todo_status-Keeps env caller todo_id status =
      ensure-Keeps (Settled st id) (is_settable status) Error.unsupported_status λ _.
        found-Settled st id todo_id λ t a.
          ensure-Keeps (Settled st id) (not (is_terminal t.status))
            (Error.wrong_todo_status t.status)
            λ open_row.
              ensure-Keeps (Settled st id)
                (is_piscis caller || text_eq t.owner_id caller.memory_owner_id)
                (Error.permission_denied t.owner_id)
                λ _.
                  bind-Keeps (Settled st id)
                    (write-Keeps (Settled st id)
                      (update_koi_todo env.now t.id none none (some status) none)
                      (update_koi_todo-Settled st id env.now t.id none none (some status) none
                        (other_row t a (ground arith))))
                    λ _.
                      bind-Keeps (Settled st id)
                        (note-Settled st id env t.pool_session_id caller.memory_owner_id
                          (task_status_text t.title status) (text "status_update")
                          (plain (MetadataBase.todo_state t.id t.owner_id status)) t.id
                          (if is_blocked status
                            then EventType.task_blocked
                            else EventType.task_status_changed))
                        λ _.
                          announce-Keeps st id t
                            (λ _.
                              if is_blocked status
                              then TodoChangeAction.blocked
                              else TodoChangeAction.updated)
                            (λ u. u)

  close_todo-Keeps :
      (env : Env) (caller : CallerContext) (t : KoiTodo) (summary : Text)
      → text_eq t.id id ≡ false
      → Keeps (Settled st id) (close_todo env caller t summary)
  unfolding close_todo
  close_todo-Keeps env caller t summary other =
      ensure-Keeps (Settled st id) (is_piscis caller || text_eq t.owner_id caller.memory_owner_id)
        (Error.permission_denied t.owner_id)
        λ _.
          bind-Keeps (Settled st id)
            (note-Settled st id env t.pool_session_id caller.memory_owner_id summary (text "result")
              (enrich_pool_message_metadata env.to_lowercase
                (plain (MetadataBase.todo_state t.id t.owner_id TodoStatus.done)) summary)
              t.id EventType.task_completed)
            λ message.
              bind-Keeps (Settled st id)
                (write-Keeps (Settled st id) (complete_koi_todo env.now t.id message)
                  (complete_koi_todo-Settled st id env.now t.id message other))
                λ _.
                  bind-Keeps (Settled st id)
                    (write-Keeps (Settled st id)
                      (update_koi_status env.now t.owner_id KoiStatus.idle)
                      (update_koi_status-Settled st id env.now t.owner_id KoiStatus.idle))
                    λ _. announce-Keeps st id t (λ _. TodoChangeAction.completed) changed

  complete_found-Keeps :
      (env : Env) (caller : CallerContext) (t : KoiTodo) (summary : Text)
      → agrees st id t ≡ true
      → Keeps (Settled st id) (complete_found env caller t summary)
  unfolding complete_found
  complete_found-Keeps env caller t summary a = elim (Bool-cases (is_done t.status)) [
    | inl e ↦ rw e (pure-Keeps (Settled st id) no_op)
    | inr e ↦ elim (Bool-cases (is_cancelled t.status)) [
      | inl c ↦ rw (e, c) (fail-Keeps (Settled st id) (Error.wrong_todo_status t.status))
      | inr c ↦ rw (e, c) (close_todo-Keeps env caller t summary (other_row t a (ground arith)))
    ]
  ]

  pub complete_todo-Keeps :
      (env : Env) (caller : CallerContext) (todo_id summary : Text)
      → Keeps (Settled st id) (complete_todo env caller todo_id summary)
  unfolding complete_todo
  complete_todo-Keeps env caller todo_id summary =
      ensure-Keeps (Settled st id) (not (is_blank (trim summary)))
        (Error.field_required (text "summary"))
        λ _. found-Settled st id todo_id λ t a. complete_found-Keeps env caller t summary a

  drop_todo-Keeps :
      (env : Env) (caller : CallerContext) (t : KoiTodo) (reason : Text)
      → text_eq t.id id ≡ false
      → Keeps (Settled st id) (drop_todo env caller t reason)
  unfolding drop_todo
  drop_todo-Keeps env caller t reason other =
      ensure-Keeps (Settled st id) (is_piscis caller || text_eq t.owner_id caller.memory_owner_id)
        (Error.permission_denied t.owner_id)
        λ _.
          bind-Keeps (Settled st id)
            (write-Keeps (Settled st id) (cancel_koi_todo env.now t.id reason)
              (cancel_koi_todo-Settled st id env.now t.id reason other))
            λ _.
              bind-Keeps (Settled st id)
                (note-Settled st id env t.pool_session_id caller.memory_owner_id
                  (cancelled_text t.title reason) (text "system")
                  (plain (MetadataBase.todo_cancelled t.id t.owner_id reason)) t.id
                  EventType.task_cancelled)
                λ _. announce-Keeps st id t (λ _. TodoChangeAction.cancelled) changed

  cancel_found-Keeps :
      (env : Env) (caller : CallerContext) (t : KoiTodo) (reason : Text)
      → agrees st id t ≡ true
      → Keeps (Settled st id) (cancel_found env caller t reason)
  unfolding cancel_found
  cancel_found-Keeps env caller t reason a = elim (Bool-cases (is_cancelled t.status)) [
    | inl e ↦ rw e (pure-Keeps (Settled st id) no_op)
    | inr e ↦ elim (Bool-cases (is_done t.status)) [
      | inl c ↦ rw (e, c) (fail-Keeps (Settled st id) (Error.wrong_todo_status t.status))
      | inr c ↦
          rw (e, c)
            (drop_todo-Keeps env caller t (or_cancelled reason) (other_row t a (ground arith)))
    ]
  ]

  pub cancel_todo-Keeps :
      (env : Env) (caller : CallerContext) (todo_id reason : Text)
      → Keeps (Settled st id) (cancel_todo env caller todo_id reason)
  unfolding cancel_todo
  cancel_todo-Keeps env caller todo_id reason =
      found-Settled st id todo_id λ t a. cancel_found-Keeps env caller t reason a

  settle_claim-Keeps :
      (won : Bool) (caller : CallerContext) (t : KoiTodo)
      → Keeps (Settled st id) (settle_claim won caller t)
  unfolding settle_claim
  settle_claim-Keeps true caller t = record { run = λ w s. s }
  settle_claim-Keeps false caller t =
      bind-Keeps (Settled st id) (read-Keeps (Settled st id) (get_koi_todo t.id)) λ current.
        check-Keeps (Settled st id) (is_some_text (holder current) caller.memory_owner_id)
          (Error.already_claimed (holder current))

  pub claim_todo-Keeps :
      (env : Env) (caller : CallerContext) (todo_id : Text)
      → Keeps (Settled st id) (claim_todo env caller todo_id)
  unfolding claim_todo
  claim_todo-Keeps env caller todo_id = found-Settled st id todo_id λ t a.
      ensure-Keeps (Settled st id) (not (is_terminal t.status)) (Error.wrong_todo_status t.status)
        λ open_row.
          ensure-Keeps (Settled st id) (not (held_by_other t.claimed_by caller.memory_owner_id))
            (Error.already_claimed t.claimed_by)
            λ _.
              ensure-Keeps (Settled st id)
                (is_piscis caller || text_eq t.owner_id caller.memory_owner_id)
                (Error.permission_denied t.owner_id)
                λ _.
                  bind-Keeps (Settled st id)
                    (try_write-Keeps (Settled st id)
                      (try_claim_koi_todo env.now t.id caller.memory_owner_id)
                      (try_claim_koi_todo-Settled st id env.now t.id caller.memory_owner_id
                        (other_row t a (ground arith))))
                    λ won. bind-Keeps (Settled st id) (settle_claim-Keeps won caller t) λ _.
                      bind-Keeps (Settled st id)
                        (note-Settled st id env t.pool_session_id caller.memory_owner_id
                          (claimed_text t.title) (text "task_claimed") (plain MetadataBase.empty)
                          t.id EventType.task_claimed)
                        λ _. announce-Keeps st id t (λ _. TodoChangeAction.claimed) (λ u. u)
