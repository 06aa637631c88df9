-- ===== src/Services/Failures.antt =====
-- The services of services.rs that fail leave the board and the event log as they were.
use piscis_engine.Prelude.{
  ◌⊎◌, ◌≡◌, refl, not, ◌||◌, none, some, Text, text, text_eq, trim, is_blank, Bool-cases, inl, inr,
  if◌then◌else◌,
}
use piscis_engine.Model.{
  KoiTodo, TodoStatus, KoiStatus, TodoChangeAction, MetadataBase, EventType, is_terminal, is_done,
  is_cancelled, is_blocked, is_active,
}
use piscis_engine.Store.{Error, Result, ok, err, Env}
use piscis_engine.Store.Todos.{create_koi_todo, complete_koi_todo, cancel_koi_todo, update_koi_todo}
use piscis_engine.Store.Kois.{update_koi_status}
use piscis_engine.Project.Signals.{enrich_pool_message_metadata}
use piscis_engine.Services.Base.{World, M, CallerContext, is_piscis, plain, changed, no_op}
use piscis_engine.Services.Messages.{claimed_text, cancelled_text, task_status_text}
use piscis_engine.Services.Todos.{
  CreateTodoArgs, create_todo, or_medium, claim_todo, held_by_other, close_todo, complete_found,
  complete_todo, drop_todo, cancel_found, cancel_todo, or_cancelled, update_todo_status,
  is_settable,
}
use piscis_engine.Services.Atomic.{
  Atomic, commit-Atomic, bind-Sure, Sure-Atomic, pure-Atomic, fail-Atomic, ensure-Atomic,
  write-Sure, try_write-Atomic, note-Sure, announce-Sure,
}
use piscis_engine.Services.Attempts.{found-Atomic, resolve_pool-Atomic, claim-Atomic}

close_todo-Atomic :
    (env : Env) (caller : CallerContext) (t : KoiTodo) (summary : Text)
    → Atomic (close_todo env caller t summary)
unfolding close_todo
close_todo-Atomic env caller t summary =
    ensure-Atomic (is_piscis caller || text_eq t.owner_id caller.memory_owner_id)
      (Error.permission_denied t.owner_id)
      (Sure-Atomic (
        bind-Sure
          (note-Sure env t.pool_session_id caller.memory_owner_id summary (text "result")
            (enrich_pool_message_metadata env.to_lowercase
              (plain (MetadataBase.todo_state t.id t.owner_id TodoStatus.done)) summary)
            t.id EventType.task_completed)
          λ message. bind-Sure (write-Sure (complete_koi_todo env.now t.id message)) λ _.
            bind-Sure (write-Sure (update_koi_status env.now t.owner_id KoiStatus.idle))
              λ _. announce-Sure t (λ _. TodoChangeAction.completed) changed))

complete_found-Atomic :
    (env : Env) (caller : CallerContext) (t : KoiTodo) (summary : Text)
    → Atomic (complete_found env caller t summary)
unfolding complete_found
complete_found-Atomic env caller t summary = elim (Bool-cases (is_done t.status)) [
  | inl e ↦ rw e (pure-Atomic no_op)
  | inr e ↦ elim (Bool-cases (is_cancelled t.status)) [
    | inl c ↦ rw (e, c) (fail-Atomic (Error.wrong_todo_status t.status))
    | inr c ↦ rw (e, c) (close_todo-Atomic env caller t summary)
  ]
]

drop_todo-Atomic :
    (env : Env) (caller : CallerContext) (t : KoiTodo) (reason : Text)
    → Atomic (drop_todo env caller t reason)
unfolding drop_todo
drop_todo-Atomic env caller t reason =
    ensure-Atomic (is_piscis caller || text_eq t.owner_id caller.memory_owner_id)
      (Error.permission_denied t.owner_id)
      (Sure-Atomic (
        bind-Sure (write-Sure (cancel_koi_todo env.now t.id reason)) λ _.
          bind-Sure
            (note-Sure env t.pool_session_id caller.memory_owner_id (cancelled_text t.title reason)
              (text "system") (plain (MetadataBase.todo_cancelled t.id t.owner_id reason)) t.id
              EventType.task_cancelled)
            λ _. announce-Sure t (λ _. TodoChangeAction.cancelled) changed))

cancel_found-Atomic :
    (env : Env) (caller : CallerContext) (t : KoiTodo) (reason : Text)
    → Atomic (cancel_found env caller t reason)
unfolding cancel_found
cancel_found-Atomic env caller t reason = elim (Bool-cases (is_cancelled t.status)) [
  | inl e ↦ rw e (pure-Atomic no_op)
  | inr e ↦ elim (Bool-cases (is_done t.status)) [
    | inl c ↦ rw (e, c) (fail-Atomic (Error.wrong_todo_status t.status))
    | inr c ↦ rw (e, c) (drop_todo-Atomic env caller t (or_cancelled reason))
  ]
]

complete_todo_failure :
    (env : Env) (caller : CallerContext) (todo_id summary : Text)
    → Atomic (complete_todo env caller todo_id summary)
unfolding complete_todo
complete_todo_failure env caller todo_id summary =
    ensure-Atomic (not (is_blank (trim summary))) (Error.field_required (text "summary"))
      (found-Atomic todo_id λ t. complete_found-Atomic env caller t summary)

cancel_todo_failure :
    (env : Env) (caller : CallerContext) (todo_id reason : Text)
    → Atomic (cancel_todo env caller todo_id reason)
unfolding cancel_todo
cancel_todo_failure env caller todo_id reason =
    found-Atomic todo_id λ t. cancel_found-Atomic env caller t reason

update_todo_status_failure :
    (env : Env) (caller : CallerContext) (todo_id : Text) (status : TodoStatus)
    → Atomic (update_todo_status env caller todo_id status)
unfolding update_todo_status
update_todo_status_failure env caller todo_id status =
    ensure-Atomic (is_settable status) Error.unsupported_status (
      found-Atomic todo_id λ t.
        ensure-Atomic (not (is_terminal t.status)) (Error.wrong_todo_status t.status) (
          ensure-Atomic (is_piscis caller || text_eq t.owner_id caller.memory_owner_id)
            (Error.permission_denied t.owner_id)
            (Sure-Atomic (
              bind-Sure (write-Sure (update_koi_todo env.now t.id none none (some status) none))
                λ _.
                  bind-Sure
                    (note-Sure env t.pool_session_id caller.memory_owner_id
                      (task_status_text t.title status) (text "status_update")
                      (plain (MetadataBase.todo_state t.id t.owner_id status)) t.id
                      (if is_blocked status
                        then EventType.task_blocked
                        else EventType.task_status_changed))
                    λ _.
                      announce-Sure t
                        (λ _.
                          if is_blocked status
                          then TodoChangeAction.blocked
                          else TodoChangeAction.updated)
                        (λ u. u)))))

claim_todo_failure :
    (env : Env) (caller : CallerContext) (todo_id : Text) → Atomic (claim_todo env caller todo_id)
unfolding claim_todo
claim_todo_failure env caller todo_id = found-Atomic todo_id λ t.
    ensure-Atomic (not (is_terminal t.status)) (Error.wrong_todo_status t.status) (
      ensure-Atomic (not (held_by_other t.claimed_by caller.memory_owner_id))
        (Error.already_claimed t.claimed_by)
        (ensure-Atomic (is_piscis caller || text_eq t.owner_id caller.memory_owner_id)
          (Error.permission_denied t.owner_id)
          (claim-Atomic env.now caller t (
            bind-Sure
              (note-Sure env t.pool_session_id caller.memory_owner_id (claimed_text t.title)
                (text "task_claimed") (plain MetadataBase.empty) t.id EventType.task_claimed)
              λ _. announce-Sure t (λ _. TodoChangeAction.claimed) (λ u. u)))))

create_todo_failure :
    (env : Env) (caller : CallerContext) (args : CreateTodoArgs)
    → Atomic (create_todo env caller args)
unfolding create_todo
create_todo_failure env caller args = resolve_pool-Atomic caller args.pool_id λ session.
    ensure-Atomic (is_active session.status) Error.pool_not_active (
      ensure-Atomic (not (is_blank (trim args.title))) (Error.field_required (text "title")) (
        commit-Atomic
          (try_write-Atomic (
            create_koi_todo env caller.memory_owner_id (trim args.title) args.description
              (or_medium args.priority) caller.memory_owner_id (some session.id) (text "koi")
              args.depends_on args.timeout_secs))
          λ t. record { answer = λ w. (t, refl) }))

-- A call either answers, or leaves the database and the log of events as they were.
abbrev pub AllOrNothing : {A : Type 0} → M A → World → Type 0
AllOrNothing {A} m w = ((a : A) × ((m w).0 ≡ ok a)) ⊎ ((m w).1 ≡ w)

run-AllOrNothing :
    {A : Type 0} (w : World) (r : Result A × World)
    → ((e : Error) → r.0 ≡ err e → r.1 ≡ w)
    → ((a : A) × (r.0 ≡ ok a)) ⊎ (r.1 ≡ w)
run-AllOrNothing w (ok a, v) h = inl (a, refl)
run-AllOrNothing w (err e, v) h = inr (h e refl)

Atomic-AllOrNothing : {A : Type 0} (m : M A) (w : World) → Atomic m → AllOrNothing m w
Atomic-AllOrNothing m w h = run-AllOrNothing w (m w) (h.run w)

-- A call that creates, claims, completes, cancels or restates a todo either answers, or leaves the
-- database and the log of events as they were before the call.
pub services_fail_unchanged :
    (env : Env) (caller : CallerContext) (args : CreateTodoArgs) (todo_id words : Text)
    (status : TodoStatus) (w : World)
    → AllOrNothing (create_todo env caller args) w
      × AllOrNothing (claim_todo env caller todo_id) w
      × AllOrNothing (complete_todo env caller todo_id words) w
      × AllOrNothing (cancel_todo env caller todo_id words) w
      × AllOrNothing (update_todo_status env caller todo_id status) w
services_fail_unchanged env caller args todo_id words status w = (
  Atomic-AllOrNothing (create_todo env caller args) w (create_todo_failure env caller args),
  Atomic-AllOrNothing (claim_todo env caller todo_id) w (claim_todo_failure env caller todo_id),
  Atomic-AllOrNothing (complete_todo env caller todo_id words) w
      (complete_todo_failure env caller todo_id words),
  Atomic-AllOrNothing (cancel_todo env caller todo_id words) w
      (cancel_todo_failure env caller todo_id words),
  Atomic-AllOrNothing (update_todo_status env caller todo_id status) w
      (update_todo_status_failure env caller todo_id status),
)
