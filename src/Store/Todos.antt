-- ===== src/Store/Todos.antt =====
-- db.rs, the `koi_todos` statements.
use piscis_engine.Prelude.{
  ℕ, Bool, false, not, ◌&&◌, ◌||◌, Option, none, some, List, [], ◌∷◌, ◌++◌, Text, text, text_eq,
  trim, is_blank, is_some_text, find, keep, count, map, ◌==◌, if◌then◌else◌,
}
use piscis_engine.Model.{
  KoiTodo, TodoStatus, PoolMessage, rfc3339, is_blocked, is_needs_review, is_terminal,
}
use piscis_engine.Store.{
  Db, Error, Result, ok, err, Env, has_koi, has_pool, has_todo, refers, update_where, update_todo,
}
use piscis_engine.Integration.{
  integration_none, integration_ready, integration_merged, integration_conflict,
}

-- The todo that `create_koi_todo` returns.
unfoldable pub new_todo :
    Env → Text → Text → Text → Text → Text → Option Text → Text → Option Text → ℕ → KoiTodo
new_todo env owner_id title description priority assigned_by pool source_type depends_on timeout =
    record {
      id = env.new_id;
      owner_id = owner_id;
      title = title;
      description = description;
      status = TodoStatus.todo;
      priority = priority;
      assigned_by = assigned_by;
      pool_session_id = pool;
      claimed_by = none;
      claimed_at = none;
      depends_on = depends_on;
      blocked_reason = none;
      git_branch = none;
      integration_status = some integration_none;
      result_message_id = none;
      source_type = source_type;
      task_timeout_secs = timeout;
      created_at = env.now;
      updated_at = rfc3339 env.now;
    }

-- The columns of the `INSERT`, whose status is a literal, and the row that they make with the
-- columns that are left to their defaults.
pub record InsertedTodo : Type 0 where
  pub id : Text
  pub owner_id : Text
  pub title : Text
  pub description : Text
  pub priority : Text
  pub assigned_by : Text
  pub pool_session_id : Option Text
  pub source_type : Text
  pub depends_on : Option Text
  pub task_timeout_secs : ℕ
  pub created_at : ℕ

unfoldable pub row_of : InsertedTodo → KoiTodo
row_of c = record {
  id = c.id;
  owner_id = c.owner_id;
  title = c.title;
  description = c.description;
  status = TodoStatus.todo;
  priority = c.priority;
  assigned_by = c.assigned_by;
  pool_session_id = c.pool_session_id;
  claimed_by = none;
  claimed_at = none;
  depends_on = c.depends_on;
  blocked_reason = none;
  git_branch = none;
  integration_status = some (text "none");
  result_message_id = none;
  source_type = c.source_type;
  task_timeout_secs = c.task_timeout_secs;
  created_at = c.created_at;
  updated_at = rfc3339 c.created_at;
}

unfoldable pub inserted_todo :
    Env → Text → Text → Text → Text → Text → Option Text → Text → Option Text → ℕ → KoiTodo
unfolding row_of
inserted_todo env owner_id title description priority assigned_by pool source_type depends_on
      timeout =
    row_of (record {
      id = env.new_id;
      owner_id = owner_id;
      title = title;
      description = description;
      priority = priority;
      assigned_by = assigned_by;
      pool_session_id = pool;
      source_type = source_type;
      depends_on = depends_on;
      task_timeout_secs = timeout;
      created_at = env.now;
    })

-- `INSERT INTO koi_todos`: the primary key and the two foreign keys.
unfoldable pub insert_todo : KoiTodo → Db → Result Db
insert_todo t db =
    if has_todo t.id db
    then err Error.unique_constraint
    else if has_koi t.owner_id db && refers has_pool t.pool_session_id db
    then ok (record db { todos = t ∷ db.todos })
    else err Error.foreign_key

abbrev pub with_row : KoiTodo → Result Db → Result (KoiTodo × Db)
with_row t (ok db) = ok (t, db)
with_row t (err e) = err e

unfoldable pub create_koi_todo :
    Env
    → Text
    → Text
    → Text
    → Text
    → Text
    → Option Text
    → Text
    → Option Text
    → ℕ
    → Db
    → Result (KoiTodo × Db)
unfolding new_todo inserted_todo insert_todo
create_koi_todo env owner title description priority assigned_by pool source depends_on timeout db =
    let row =
      inserted_todo env owner title description priority assigned_by pool source depends_on
        timeout in
    with_row
      (new_todo env owner title description priority assigned_by pool source depends_on timeout)
      (insert_todo row db)

unfoldable pub list_koi_todos : Option Text → Db → List KoiTodo
list_koi_todos none db = db.todos
list_koi_todos (some owner) db = keep (λ t. text_eq t.owner_id owner) db.todos

unfoldable pub get_koi_todo : Text → Db → Option KoiTodo
get_koi_todo id db = find (λ t. text_eq t.id id) db.todos

-- `integration_status IN ('merged', 'conflict')`; a null is not in a list.
abbrev pub is_settled : Option Text → Bool
is_settled none = false
is_settled (some s) = text_eq s integration_merged || text_eq s integration_conflict

unfoldable pub set_koi_todo_git_branch : ℕ → Text → Text → Db → Db
set_koi_todo_git_branch now id branch = update_todo id λ t. record t {
  git_branch = some branch;
  integration_status =
      if is_settled t.integration_status then t.integration_status else some integration_none;
  updated_at = rfc3339 now;
}

unfoldable pub set_koi_todo_integration_status : ℕ → Text → Text → Db → Db
set_koi_todo_integration_status now id status =
    update_todo id λ t. record t { integration_status = some status; updated_at = rfc3339 now }

unfoldable pub set_koi_todo_integration_status_by_branch : ℕ → Text → Text → Text → Db → Db
set_koi_todo_integration_status_by_branch now pool branch status db = record db {
  todos =
      update_where (λ t. is_some_text t.pool_session_id pool && is_some_text t.git_branch branch)
        (λ t. record t { integration_status = some status; updated_at = rfc3339 now }) db.todos;
}

-- `COALESCE(?, column)`.
abbrev pub coalesce {ℓ} : {A : Type ℓ} → Option A → A → A
coalesce none a = a
coalesce (some b) a = b

unfoldable pub update_koi_todo :
    ℕ → Text → Option Text → Option Text → Option TodoStatus → Option Text → Db → Db
update_koi_todo now id title description status priority = update_todo id λ t. record t {
  title = coalesce title t.title;
  description = coalesce description t.description;
  status = coalesce status t.status;
  blocked_reason =
      if is_blocked (coalesce status t.status) || is_needs_review (coalesce status t.status)
      then t.blocked_reason
      else none;
  priority = coalesce priority t.priority;
  updated_at = rfc3339 now;
}

unfoldable pub block_koi_todo : ℕ → Text → Text → Db → Db
block_koi_todo now id reason = update_todo id λ t. record t {
  status = TodoStatus.blocked;
  blocked_reason = some reason;
  updated_at = rfc3339 now;
}

unfoldable pub mark_koi_todo_needs_review : ℕ → Text → Text → Db → Db
mark_koi_todo_needs_review now id reason = update_todo id λ t. record t {
  status = TodoStatus.needs_review;
  blocked_reason = some reason;
  updated_at = rfc3339 now;
}

unfoldable pub cancel_koi_todo : ℕ → Text → Text → Db → Db
cancel_koi_todo now id reason = update_todo id λ t. record t {
  status = TodoStatus.cancelled;
  blocked_reason = some reason;
  updated_at = rfc3339 now;
}

-- `git_branch IS NOT NULL AND TRIM(git_branch) != ''`; SQLite's `TRIM` strips spaces only.
unfoldable pub sql_trim_start : Text → Text
sql_trim_start [] = []
sql_trim_start (c ∷ s) = if c == 32 then sql_trim_start s else c ∷ s

abbrev pub has_branch : Option Text → Bool
has_branch none = false
has_branch (some b) = not (is_blank (sql_trim_start b))

-- The `CASE` of `complete_koi_todo`; `NULL NOT IN (…)` is not true.
abbrev pub is_unsettled : Option Text → Bool
is_unsettled none = false
is_unsettled (some s) = not (is_settled (some s))

abbrev pub coalesce_id : Option ℕ → Option ℕ → Option ℕ
coalesce_id none o = o
coalesce_id (some n) o = some n

unfoldable pub completed_row : ℕ → Option ℕ → KoiTodo → KoiTodo
completed_row now result_message_id t = record t {
  status = TodoStatus.done;
  blocked_reason = none;
  result_message_id = coalesce_id result_message_id t.result_message_id;
  integration_status =
      if has_branch t.git_branch && is_unsettled t.integration_status
      then some integration_ready
      else t.integration_status;
  updated_at = rfc3339 now;
}

unfoldable pub complete_koi_todo : ℕ → Text → Option ℕ → Db → Db
unfolding completed_row
complete_koi_todo now id result_message_id = update_todo id (completed_row now result_message_id)

-- Messages of a deleted row lose their reference: `ON DELETE SET NULL`.
abbrev pub forget_todo : Text → PoolMessage → PoolMessage
forget_todo id m = if is_some_text m.todo_id id then record m { todo_id = none } else m

unfoldable pub delete_koi_todo : Text → Db → Db
delete_koi_todo id db = record db {
  todos = keep (λ t. not (text_eq t.id id)) db.todos;
  messages = map (forget_todo id) db.messages;
}

abbrev pub replaced_original : ℕ → Text → Text → Result Db → Result Db
replaced_original now id why (err e) = err e
replaced_original now id why (ok db) = ok (
    update_todo id
      (λ t. record t {
        status = TodoStatus.cancelled;
        blocked_reason = some why;
        updated_at = rfc3339 now;
      })
      db)

-- `replace_koi_todo`: both statements in one transaction.
unfoldable pub replace_koi_todo :
    Env → KoiTodo → Text → Text → Text → Text → Text → Text → Option ℕ → Db → Result (KoiTodo × Db)
unfolding new_todo inserted_todo insert_todo
replace_koi_todo env original new_owner title description assigned_by source_type reason timeout
      db =
    let t =
      new_todo env new_owner title description original.priority assigned_by
        original.pool_session_id source_type (some original.id)
        (coalesce timeout original.task_timeout_secs) in
    let row =
      inserted_todo env new_owner title description original.priority assigned_by
        original.pool_session_id source_type (some original.id)
        (coalesce timeout original.task_timeout_secs) in
    let why = text "[Replaced by " ++ env.new_id ++ text "] " ++ trim reason in
    with_row t (replaced_original env.now original.id why (insert_todo row db))

unfoldable pub count_active_todos_for_member : Text → Text → Db → ℕ
count_active_todos_for_member pool koi db =
    count
      (λ t.
        is_some_text t.pool_session_id pool && text_eq t.owner_id koi && not (is_terminal t.status))
      db.todos
