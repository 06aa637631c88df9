-- ===== src/Services/Assign.antt =====
-- services.rs, the assignment of a task to a Koi, and the creation of a pool.
use piscis_engine.Prelude.{
  ℕ, Bool, true, false, not, Option, none, some, [], ◌++◌, Text, text, trim, trimmed, is_blank, ltb,
  take, decimal, if◌then◌else◌,
}
use piscis_engine.Model.{
  KoiTodo, KoiDefinition, PoolSession, PoolMessage, MetadataBase, EventType, TodoChangeAction,
  koi_assigned, todo_changed, pool_created,
}
use piscis_engine.Integration.{is_todo_dependency_satisfied}
use piscis_engine.Store.{Db, Error, Env, Result, ok, err}
use piscis_engine.Store.Todos.{create_koi_todo, list_koi_todos}
use piscis_engine.Store.Kois.{resolve_koi_identifier}
use piscis_engine.Store.Pools.{
  create_pool_session_with_dir, update_pool_org_spec, set_pool_origin_im_binding,
}
use piscis_engine.Store.Messages.{insert_pool_message, insert_pool_message_ext}
use piscis_engine.Services.Base.{
  M, ◌>>=◌, ◌>>◌, pure, ensure, read, try_read, write, try_write, require, attempt, emit,
  CallerContext, piscis, resolve_pool, ensure_accepts_new_work, emit_todo, emit_message, plain,
}
use piscis_engine.Services.Members.{ensure_pool_member}
use piscis_engine.Services.Todos.{or_medium}
use piscis_engine.Services.Lifecycle.{trimmed_or_empty}

pub record AssignKoiArgs : Type 0 where
  pub pool_id : Text
  pub koi_id : Text
  pub task : Text
  pub priority : Text
  pub timeout_secs : ℕ
  pub context : Option Text
  pub depends_on : Option Text

-- The text that wakes the Koi.
unfoldable pub mention_text : Text → Text → ℕ → Text → Text
unfolding decimal
mention_text name priority timeout task =
    text "@!"
    ++ name
    ++ text " [Priority: "
    ++ priority
    ++ text "] "
    ++ (if ltb 0 timeout then text "[Execution timeout: " ++ decimal timeout ++ text "s] " else [])
    ++ task

-- `Some(ctx) if !ctx.trim().is_empty()`, under a heading.
abbrev pub with_context : Text → Text → Option Text → Text
with_context body heading none = body
with_context body heading (some ctx) = if is_blank (trim ctx) then body else body ++ heading ++ ctx

-- The answer: the todo, the Koi, and the message that mentions it.
pub record Assigned : Type 0 where
  pub session : PoolSession
  pub koi : KoiDefinition
  pub todo : KoiTodo
  pub mention : PoolMessage

-- The messages about the new todo.
unfoldable pub announce_assignment :
    Env → PoolSession → KoiDefinition → Text → AssignKoiArgs → KoiTodo → M Assigned
unfolding mention_text
announce_assignment env session koi task args t = do
  emit_todo (some session.id) TodoChangeAction.created t
  let priority = or_medium args.priority
  m ← try_write (
      insert_pool_message env.now session.id piscis
        (with_context (mention_text koi.name priority args.timeout_secs task)
          (text "\n\n## Task Background\n") args.context)
        (text "mention") (plain (MetadataBase.assignment koi.id priority args.timeout_secs t.id)))
  emit_message m
  emit (koi_assigned session.id koi.id t.id)
  pure (record { session = session; koi = koi; todo = t; mention = m })

-- The statement that creates the todo.
unfoldable pub assigned_row :
    Env → PoolSession → KoiDefinition → Text → AssignKoiArgs → Db → Result (KoiTodo × Db)
assigned_row env session koi task args =
    create_koi_todo env koi.id (take 120 task)
      (with_context task (text "\n\n[Background]\n") args.context) (or_medium args.priority) piscis
      (some session.id) (text "koi") args.depends_on args.timeout_secs

-- A Koi can only be given work in a project that it has joined.
unfoldable pub assign_to : Env → PoolSession → KoiDefinition → Text → AssignKoiArgs → M Assigned
unfolding announce_assignment assigned_row
assign_to env session koi task args = do
  ensure_pool_member session.id koi.id
  t ← try_write (assigned_row env session koi task args)
  announce_assignment env session koi task args t

unfoldable pub assign_found : Env → PoolSession → AssignKoiArgs → Option KoiDefinition → M Assigned
unfolding assign_to
assign_found env session args found = do
  koi ← require Error.koi_not_found found
  assign_to env session koi (trim args.task) args

unfoldable pub assign_in : Env → AssignKoiArgs → PoolSession → M Assigned
unfolding assign_found
assign_in env args session = do
  ensure_accepts_new_work session
  ensure (not (is_blank (trim args.koi_id))) (Error.field_required (text "koi_id"))
  ensure (not (is_blank (trim args.task))) (Error.field_required (text "task"))
  found ← try_read (resolve_koi_identifier (trim args.koi_id))
  assign_found env session args found

-- The assignment up to the answer; what the source spawns is `dispatch_assigned`.
unfoldable pub assign_koi : Env → CallerContext → AssignKoiArgs → M Assigned
unfolding assign_in
assign_koi env caller args = do
  session ← resolve_pool caller args.pool_id
  assign_in env args session

abbrev pub or_none : Option Text → Text
or_none none = []
or_none (some s) = s

unfoldable pub waiting_text : KoiTodo → Text → Text
waiting_text t name =
    text "Waiting for upstream todo " ++ or_none t.depends_on ++ text " before dispatching " ++ name

-- The spawned task: whether the turn is started now, or a notice is left that it waits.
unfoldable pub dispatch_assigned : Env → Assigned → M Bool
unfolding waiting_text is_todo_dependency_satisfied
dispatch_assigned env a = do
  todos ← read (list_koi_todos none)
  if is_todo_dependency_satisfied a.todo todos
      then pure true
      else emit (todo_changed a.session.id TodoChangeAction.updated a.todo)
        >> (attempt (
              try_write (
                insert_pool_message_ext env.now a.session.id piscis (waiting_text a.todo a.koi.name)
                  (text "system") (plain MetadataBase.empty) (some a.todo.id) none
                  (some EventType.dependency_waiting)))
            >>= λ _. pure false)

pub record CreatePoolArgs : Type 0 where
  pub name : Text
  pub project_dir : Option Text
  pub org_spec : Option Text
  pub task_timeout_secs : ℕ
  pub origin_im_binding_key : Option Text

abbrev pub initialised : Result Bool → Result (Option Bool)
initialised (ok fresh) = ok (some fresh)
initialised (err e) = err e

-- `ensure_git_repo`, where there is a directory: whether a repository was initialised.
abbrev pub init_dir : (Text → Result Bool) → Option Text → Result (Option Bool)
init_dir init none = ok none
init_dir init (some dir) = initialised (init dir)

abbrev pub has_dir : Option Text → Bool
has_dir none = false
has_dir (some dir) = true

unfoldable pub welcome_text : Text → Text → Option Text → Text
welcome_text name spec dir =
    text "项目池「"
    ++ name
    ++ text "」已创建。"
    ++ (if is_blank spec then text "尚未设定组织规范。" else text "组织规范已就绪。")
    ++ (if has_dir dir then text " Git 仓库已初始化，Koi 将使用独立 worktree 工作。" else [])

abbrev pub set_binding : Env → Text → Option Text → Db → Db
set_binding env pool none db = db
set_binding env pool (some key) db = set_pool_origin_im_binding env.now pool (some key) db

-- The answer carries the session as it was created, before its specification is stored.
unfoldable pub create_pool :
    Env → (init : Text → Result Bool) → CreatePoolArgs → M (PoolSession × Option Bool)
unfolding welcome_text
create_pool env init args = do
  let name = trim args.name
  ensure (not (is_blank name)) Error.name_required
  let dir = trimmed args.project_dir
  let spec = trimmed_or_empty args.org_spec
  git ← try_read (λ _. init_dir init dir)
  session ← try_write (create_pool_session_with_dir env name dir args.task_timeout_secs)
  write (λ db. if is_blank spec then db else update_pool_org_spec env.now session.id spec db)
  write (set_binding env session.id (trimmed args.origin_im_binding_key))
  m ← try_write (
      insert_pool_message_ext env.now session.id piscis (welcome_text name spec dir)
        (text "status_update") (plain (MetadataBase.event (text "pool_created"))) none none
        (some EventType.pool_created))
  emit (pool_created session)
  emit_message m
  pure (session, git)
