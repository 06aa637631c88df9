-- ===== src/Model.antt =====
-- The rows of the board (piscis-core/src/models.rs) and the events of the pool
-- (piscis-core/src/host.rs).
-- A column that the source keeps as a text with a fixed vocabulary is a data type here, one
-- constructor for each word that the code names and `other` for any further text. Instants are
-- numbers. Metadata, which the source keeps as a JSON text, is the value that the text encodes.
use piscis_engine.Json.{Fields}
use piscis_engine.Prelude.{
  ℕ, ◌/◌, Bool, true, false, Option, List, Text, text, text_eq, ltb, if◌then◌else◌,
}

-- A stored `updated_at`: the text of `Utc::now().to_rfc3339()`, `2026-11-25T10:00:00+00:00`, or
-- that of SQLite's `datetime('now')`, `2026-11-25 10:00:00`, at a number of seconds.
pub data Stamp : Type 0 where
  rfc3339 sql_datetime : ℕ → Stamp

abbrev pub day : ℕ → ℕ
day s = s / 86400

-- The comparison of texts `updated_at < datetime(…)`. Within a day `T` stands against a space,
-- which is smaller, so only the day of an RFC 3339 text counts.
abbrev pub sql_before : Stamp → ℕ → Bool
sql_before (rfc3339 a) b = ltb (day a) (day b)
sql_before (sql_datetime a) b = ltb a b

-- `parse::<DateTime<Utc>>().unwrap_or_else(|_| Utc::now())`: a text with no offset does not parse.
abbrev pub read_stamp : ℕ → Stamp → ℕ
read_stamp now (rfc3339 a) = a
read_stamp now (sql_datetime a) = now

-- `KoiTodo.status`.
pub data TodoStatus : Type 0 where
  todo in_progress blocked needs_review done cancelled : TodoStatus
  other : Text → TodoStatus

-- `status == "todo"`, and so on.
abbrev pub is_todo : TodoStatus → Bool
is_todo TodoStatus.todo = true
is_todo _ = false

abbrev pub is_in_progress : TodoStatus → Bool
is_in_progress TodoStatus.in_progress = true
is_in_progress _ = false

abbrev pub is_blocked : TodoStatus → Bool
is_blocked TodoStatus.blocked = true
is_blocked _ = false

abbrev pub is_needs_review : TodoStatus → Bool
is_needs_review TodoStatus.needs_review = true
is_needs_review _ = false

abbrev pub is_done : TodoStatus → Bool
is_done TodoStatus.done = true
is_done _ = false

abbrev pub is_cancelled : TodoStatus → Bool
is_cancelled TodoStatus.cancelled = true
is_cancelled _ = false

-- `matches!(status, "done" | "cancelled")`.
abbrev pub is_terminal : TodoStatus → Bool
is_terminal TodoStatus.done = true
is_terminal TodoStatus.cancelled = true
is_terminal _ = false

pub record KoiTodo : Type 0 where
  pub id : Text
  pub owner_id : Text
  pub title : Text
  pub description : Text
  pub status : TodoStatus
  pub priority : Text
  pub assigned_by : Text
  pub pool_session_id : Option Text
  pub claimed_by : Option Text
  pub claimed_at : Option ℕ
  pub depends_on : Option Text
  pub blocked_reason : Option Text
  pub git_branch : Option Text
  pub integration_status : Option Text
  pub result_message_id : Option ℕ
  pub source_type : Text
  pub task_timeout_secs : ℕ
  pub created_at : ℕ
  pub updated_at : Stamp

-- `PoolSession.status`.
pub data PoolStatus : Type 0 where
  active paused archived : PoolStatus
  other : Text → PoolStatus

abbrev pub is_active : PoolStatus → Bool
is_active PoolStatus.active = true
is_active _ = false

pub record PoolSession : Type 0 where
  pub id : Text
  pub name : Text
  pub org_spec : Text
  pub status : PoolStatus
  pub project_dir : Option Text
  pub task_timeout_secs : ℕ
  pub origin_im_binding_key : Option Text
  pub member_koi_ids : List Text
  pub team_id : Option Text
  pub workflow_run_id : Option Text
  pub last_active_at : Option ℕ
  pub created_at : ℕ
  pub updated_at : ℕ

-- `PoolMessage.event_type`, as far as the pool's own code writes or reads it.
pub data EventType : Type 0 where
  pool_created org_spec_updated status_changed coordination_signal : EventType
  task_claimed task_completed task_cancelled task_blocked task_status_changed : EventType
  task_failed task_progress task_resumed task_replaced : EventType
  protocol_reminder protocol_warning dependency_waiting : EventType
  other : Text → EventType

-- The event type that a text stands for.
unfoldable pub event_of_text : Text → EventType
event_of_text t =
    if text_eq t (text "pool_created")
    then EventType.pool_created
    else if text_eq t (text "org_spec_updated")
    then EventType.org_spec_updated
    else if text_eq t (text "status_changed")
    then EventType.status_changed
    else if text_eq t (text "coordination_signal")
    then EventType.coordination_signal
    else if text_eq t (text "task_claimed")
    then EventType.task_claimed
    else if text_eq t (text "task_completed")
    then EventType.task_completed
    else if text_eq t (text "task_cancelled")
    then EventType.task_cancelled
    else if text_eq t (text "task_blocked")
    then EventType.task_blocked
    else if text_eq t (text "task_status_changed")
    then EventType.task_status_changed
    else if text_eq t (text "task_failed")
    then EventType.task_failed
    else if text_eq t (text "task_progress")
    then EventType.task_progress
    else if text_eq t (text "task_resumed")
    then EventType.task_resumed
    else if text_eq t (text "task_replaced")
    then EventType.task_replaced
    else if text_eq t (text "protocol_reminder")
    then EventType.protocol_reminder
    else if text_eq t (text "protocol_warning")
    then EventType.protocol_warning
    else if text_eq t (text "dependency_waiting")
    then EventType.dependency_waiting
    else EventType.other t

-- `CoordinationSignalKind` of piscis-core/src/project_state.rs.
pub data CoordinationSignalKind : Type 0 where
  follow_up_needed waiting ready_for_piscis_review : CoordinationSignalKind

-- The JSON objects that the pool writes as metadata, before they are enriched.
pub data MetadataBase : Type 0 where
  empty : MetadataBase
  event : Text → MetadataBase
  status_change : PoolStatus → PoolStatus → MetadataBase
  todo_state : Text → Text → TodoStatus → MetadataBase
  todo_cancelled : Text → Text → Text → MetadataBase
  posted_status : Text → MetadataBase
  assignment : Text → Text → ℕ → Text → MetadataBase
  resumed : Text → Text → Text → MetadataBase
  replaced : Text → Text → Text → MetadataBase
  turn_failed : Text → MetadataBase
  auto_captured : Text → MetadataBase
  missing_complete_todo : Text → MetadataBase

-- A message's metadata: an object of the pool, which has neither the key `mentions` nor the key
-- `coordination`, and the entries of the same JSON object that `enrich_pool_message_metadata` adds.
pub record Metadata : Type 0 where
  pub base : MetadataBase
  pub added : Fields

pub record PoolMessage : Type 0 where
  pub id : ℕ
  pub pool_session_id : Text
  pub sender_id : Text
  pub content : Text
  pub msg_type : Text
  pub metadata : Metadata
  pub todo_id : Option Text
  pub reply_to_message_id : Option ℕ
  pub event_type : Option EventType
  pub created_at : ℕ

-- `KoiDefinition.status`.
pub data KoiStatus : Type 0 where
  idle busy offline : KoiStatus
  other : Text → KoiStatus

abbrev pub is_idle : KoiStatus → Bool
is_idle KoiStatus.idle = true
is_idle _ = false

pub record KoiDefinition : Type 0 where
  pub id : Text
  pub name : Text
  pub role : Text
  pub icon : Text
  pub color : Text
  pub system_prompt : Text
  pub description : Text
  pub status : KoiStatus
  pub created_at : ℕ
  pub updated_at : Stamp
  pub llm_provider_id : Option Text
  pub max_iterations : ℕ
  pub task_timeout_secs : ℕ

pub data TodoChangeAction : Type 0 where
  created updated claimed completed cancelled blocked resumed replaced deleted : TodoChangeAction

-- `PoolEvent`, as far as services.rs and coordinator.rs emit it.
pub data PoolEvent : Type 0 where
  pool_created pool_updated pool_paused pool_resumed : PoolSession → PoolEvent
  pool_archived : Text → PoolEvent
  message_appended : Text → PoolMessage → PoolEvent
  todo_changed : Text → TodoChangeAction → KoiTodo → PoolEvent
  koi_assigned : Text → Text → Text → PoolEvent
