-- ===== src/Agent/Plan/Tool.antt =====
-- tools/plan_todo.rs: a call of the tool `plan_todo`, on the store of agent/plan.rs.
use piscis_engine.Prelude.{
  ℕ, zero, suc, Bool, true, Option, none, some, List, [], ◌∷◌, ◌++◌, length, Text, text, text_eq,
  decimal, if◌then◌else◌,
}
use piscis_engine.Agent.Plan.{
  PlanTodoItem, PlanError, invalid_format, Checked, valid, invalid, validate_todos, merge_todos,
  summarize_todos,
}

-- `PlanState`: a map from session ids.
abbrev pub PlanState : Type 0
PlanState = List (Text × List PlanTodoItem)

unfoldable pub plan_of : PlanState → Text → Option (List PlanTodoItem)
plan_of [] id = none
plan_of ((k, items) ∷ rest) id = if text_eq k id then some items else plan_of rest id

-- `HashMap::insert`.
unfoldable pub insert_plan : PlanState → Text → List PlanTodoItem → PlanState
insert_plan [] id items = (id, items) ∷ []
insert_plan ((k, old) ∷ rest) id items =
    let later = insert_plan rest id items in
    if text_eq k id then (k, items) ∷ rest else (k, old) ∷ later

-- An element of a list, by its place, and the others.
abbrev pub after_head {ℓ} : {A : Type ℓ} → A → Option (A × List A) → Option (A × List A)
after_head x none = none
after_head x (some (y, ys)) = some (y, x ∷ ys)

unfoldable pub take_at {ℓ} : {A : Type ℓ} → ℕ → List A → Option (A × List A)
take_at n [] = none
take_at zero (x ∷ xs) = some (x, xs)
take_at (suc n) (x ∷ xs) = after_head x (take_at n xs)

-- The fields of `ToolContext` that the tool reads.
pub record ToolContext : Type 0 where
  pub session_id : Text
  pub pool_session_id : Option Text

-- The input's fields: `merge` if it is a Boolean, and the todos if serde reads them.
pub record PlanInput : Type 0 where
  pub merge : Option Bool
  pub todos : Option (List PlanTodoItem)

-- The store, the `PlanUpdate` events of calls that have released its lock and have still to give them
-- to the sink, and those that the sink was given; the last one first in both.
pub record PlanWorld : Type 0 where
  pub plans : PlanState
  pub pending : List (Text × List PlanTodoItem)
  pub sent : List (Text × List PlanTodoItem)

pub data ToolResult : Type 0 where
  done : Text → ToolResult
  failed : PlanError → ToolResult

unfoldable pub current_plan : PlanState → Text → List PlanTodoItem
unfolding plan_of
current_plan plans id = elim (plan_of plans id) [ none ↦ [] | some items ↦ items ]

unfoldable pub scope_note : ToolContext → Text
scope_note ctx = elim ctx.pool_session_id [
  | some pool ↦
      text
        "\n\n注意：这只更新你的内部计划板，不会把结果发送到 `pool_chat`，也不会创建、认领或完成 `pool_org` 的协作 todo。如果你在协作池中工作，更新计划后仍需要用实际执行工具推进交付，并在需要时显式 handoff 或汇报状态。"
  | none ↦ text "\n\n注意：这只更新计划板，不会直接完成任务。更新计划后仍需要调用实际工具或直接产出结果。"
]

unfoldable pub plan_message : ToolContext → List PlanTodoItem → Text
unfolding decimal summarize_todos scope_note
plan_message ctx items =
    text "计划已更新（"
    ++ decimal (length items)
    ++ text " 项）:\n"
    ++ summarize_todos items
    ++ scope_note ctx

-- The update under the lock, and the message; the event waits.
unfoldable pub store_plan : ToolContext → List PlanTodoItem → PlanWorld → ToolResult × PlanWorld
unfolding insert_plan plan_message
store_plan ctx next w = (
  done (plan_message ctx next),
  record {
    plans = insert_plan w.plans ctx.session_id next;
    pending = (ctx.session_id, next) ∷ w.pending;
    sent = w.sent;
  },
)

unfoldable pub next_plan : PlanInput → List PlanTodoItem → List PlanTodoItem → List PlanTodoItem
next_plan input current todos = elim input.merge [
  | some true ↦ merge_todos current todos
  | _ ↦ todos
]

-- `if let Err(e) = … { return Ok(ToolResult::err(e)); }`, and what follows.
unfoldable pub when_valid :
    Checked (Unit {0}) → PlanWorld → ToolResult × PlanWorld → ToolResult × PlanWorld
when_valid (invalid e) w r = (failed e, w)
when_valid (valid _) w r = r

unfoldable pub checked_store : ToolContext → List PlanTodoItem → PlanWorld → ToolResult × PlanWorld
unfolding store_plan when_valid
checked_store ctx next w = when_valid (validate_todos next) w (store_plan ctx next w)

unfoldable pub update_plan :
    ToolContext → PlanInput → List PlanTodoItem → PlanWorld → ToolResult × PlanWorld
unfolding current_plan next_plan checked_store when_valid
update_plan ctx input todos w =
    when_valid (validate_todos todos) w
      (checked_store ctx (next_plan input (current_plan w.plans ctx.session_id) todos) w)

-- A call up to the release of the lock.
unfoldable pub lock_plan_todo : ToolContext → PlanInput → PlanWorld → ToolResult × PlanWorld
unfolding update_plan
lock_plan_todo ctx input w = elim input.todos [
  | none ↦ (failed invalid_format, w)
  | some todos ↦ update_plan ctx input todos w
]

abbrev pub emitted :
    PlanWorld → Option ((Text × List PlanTodoItem) × List (Text × List PlanTodoItem)) → PlanWorld
emitted w none = w
emitted w (some (e, rest)) = record { plans = w.plans; pending = rest; sent = e ∷ w.sent }

-- The event of one of the calls goes to the sink.
unfoldable pub emit_session : ℕ → PlanWorld → PlanWorld
unfolding take_at
emit_session n w = emitted w (take_at n w.pending)

abbrev pub emit_own : ToolResult × PlanWorld → ToolResult × PlanWorld
emit_own (done m, w) = (done m, emit_session 0 w)
emit_own (failed e, w) = (failed e, w)

-- A call that no other call interrupts.
unfoldable pub call_plan_todo : ToolContext → PlanInput → PlanWorld → ToolResult × PlanWorld
unfolding lock_plan_todo emit_session
call_plan_todo ctx input w = emit_own (lock_plan_todo ctx input w)
