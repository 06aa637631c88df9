-- ===== src/Examples/Board.antt =====
-- A pool with two Kois: one todo in progress, one open, one done with a branch, one waiting for it.
use piscis_engine.Prelude.{true, false, none, some, List, [], ◌∷◌, text}
use piscis_engine.Model.{
  KoiTodo, TodoStatus, PoolSession, PoolStatus, KoiDefinition, KoiStatus, rfc3339,
}
use piscis_engine.Store.{Db, Env, Result, ok, err}
use piscis_engine.Services.Base.{World, CallerContext}

abbrev pub ada : KoiDefinition
ada = record {
  id = text "k1";
  name = text "Ada";
  role = [];
  icon = [];
  color = [];
  system_prompt = [];
  description = [];
  status = KoiStatus.idle;
  created_at = 0;
  updated_at = rfc3339 0;
  llm_provider_id = none;
  max_iterations = 0;
  task_timeout_secs = 0;
}

abbrev pub bob : KoiDefinition
bob = record ada { id = text "k2"; name = text "Bob" }

abbrev pub pool : PoolSession
pool = record {
  id = text "p1";
  name = text "Alpha";
  org_spec = [];
  status = PoolStatus.active;
  project_dir = none;
  task_timeout_secs = 0;
  origin_im_binding_key = none;
  member_koi_ids = text "k1" ∷ [];
  team_id = none;
  workflow_run_id = none;
  last_active_at = none;
  created_at = 0;
  updated_at = 0;
}

abbrev pub open_todo : KoiTodo
open_todo = record {
  id = text "t1";
  owner_id = text "k1";
  title = text "build";
  description = [];
  status = TodoStatus.todo;
  priority = text "medium";
  assigned_by = text "piscis";
  pool_session_id = some (text "p1");
  claimed_by = none;
  claimed_at = none;
  depends_on = none;
  blocked_reason = none;
  git_branch = none;
  integration_status = some (text "none");
  result_message_id = none;
  source_type = text "piscis";
  task_timeout_secs = 0;
  created_at = 0;
  updated_at = rfc3339 0;
}

abbrev pub running_todo : KoiTodo
running_todo = record open_todo {
  id = text "t2";
  status = TodoStatus.in_progress;
  claimed_by = some (text "k1");
}

abbrev pub done_todo : KoiTodo
done_todo = record open_todo { id = text "t3"; status = TodoStatus.done }

abbrev pub branch_todo : KoiTodo
branch_todo = record running_todo { id = text "t4"; git_branch = some (text "koi/Ada-t4") }

abbrev pub waiting_todo : KoiTodo
waiting_todo = record open_todo { id = text "t5"; depends_on = some (text "t4") }

abbrev pub board : List KoiTodo → Db
board todos = record {
  kois = ada ∷ bob ∷ [];
  todos = todos;
  pools = pool ∷ [];
  members = (text "p1", text "k1") ∷ [];
  messages = [];
  next_message_id = 1;
}

abbrev pub world : List KoiTodo → World
world todos = record { db = board todos; events = [] }

-- A clock at the second hour of a day, and tables for ASCII.
abbrev pub env : Env
env = record { now = 93600; new_id = text "t9"; to_lowercase = λ s. s; is_alphanumeric = λ c. true }

abbrev pub main_agent : CallerContext
main_agent = record {
  memory_owner_id = text "piscis";
  session_source = none;
  pool_session_id = some (text "p1");
  cancelled = false;
}

abbrev pub ada_agent : CallerContext
ada_agent = record main_agent { memory_owner_id = text "k1" }

abbrev pub db_of : {A : Type 0} → Db → Result (A × Db) → Db
db_of d (ok (a, db)) = db
db_of d (err e) = d
