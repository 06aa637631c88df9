-- ===== src/Store.antt =====
-- The board's tables (piscis-kernel/src/store/db.rs) and their constraints.
-- Each table is a list of its rows. `todos` and `messages` are newest first, the order in which
-- the source lists them, and `kois` and `members` oldest first. A statement that violates a
-- constraint fails and changes nothing; failures of SQLite itself are left out.
pub mod Todos
pub mod Claims
pub mod Kois
pub mod Pools
pub mod Messages
pub mod Rows
pub mod Lookup
use piscis_engine.Prelude.{
  ℕ, Bool, true, Option, none, some, List, Text, text_eq, any, map, ◌==◌, if◌then◌else◌,
}
use piscis_engine.Model.{
  KoiTodo, PoolSession, PoolMessage, KoiDefinition, TodoStatus, PoolStatus, KoiStatus,
}

pub record Db : Type 0 where
  pub kois : List KoiDefinition
  pub todos : List KoiTodo
  pub pools : List PoolSession
  pub members : List (Text × Text)
  pub messages : List PoolMessage
  pub next_message_id : ℕ

-- The errors of the store and of the services, one constructor for each `bail!`.
pub data Error : Type 0 where
  foreign_key unique_constraint ambiguous : Error
  pool_id_required pool_not_found pool_not_active name_required invalid_koi_name : Error
  field_required : Text → Error
  unsupported_status : Error
  heartbeat_may_not_archive : Error
  active_todos_remain : ℕ → Error
  koi_not_found already_member not_a_member : Error
  piscis_only : Error
  todo_not_found : Error
  already_claimed : Option Text → Error
  permission_denied : Text → Error
  wrong_todo_status : TodoStatus → Error
  dependency_not_satisfied : Error
  user_cancelled : Error
  no_project_dir : Error
  git_failed : Text → Error

pub data Result {ℓ} (A : Type ℓ) : Type ℓ where
  ok : A → Result A
  err : Error → Result A

-- What a call reads from outside: the clock, `Uuid::new_v4`, and Unicode's tables.
pub record Env : Type 0 where
  pub now : ℕ
  pub new_id : Text
  pub to_lowercase : Text → Text
  pub is_alphanumeric : ℕ → Bool

abbrev pub has_koi : Text → Db → Bool
has_koi id db = any (λ k. text_eq k.id id) db.kois

abbrev pub has_pool : Text → Db → Bool
has_pool id db = any (λ p. text_eq p.id id) db.pools

abbrev pub has_todo : Text → Db → Bool
has_todo id db = any (λ t. text_eq t.id id) db.todos

abbrev pub has_message : ℕ → Db → Bool
has_message id db = any (λ m. m.id == id) db.messages

-- A foreign key holds of a null.
abbrev pub refers : (Text → Db → Bool) → Option Text → Db → Bool
refers p none db = true
refers p (some id) db = p id db

-- `UPDATE koi_todos SET … WHERE id = ?1`.
unfoldable pub update_where : (KoiTodo → Bool) → (KoiTodo → KoiTodo) → List KoiTodo → List KoiTodo
update_where p f = map λ t. if p t then f t else t

abbrev pub update_todo : Text → (KoiTodo → KoiTodo) → Db → Db
update_todo id f db = record db { todos = update_where (λ t. text_eq t.id id) f db.todos }
