-- ===== src/Store/Claims.antt =====
-- db.rs, the statements that claim a todo and those that release stale ones.
use piscis_engine.Prelude.{
  ℕ, ◌-◌, Bool, true, false, not, ◌&&◌, ◌||◌, none, some, Text, text_eq, any, keep, length, map,
  ◌==◌, if◌then◌else◌,
}
use piscis_engine.Model.{
  KoiTodo, TodoStatus, KoiDefinition, KoiStatus, Stamp, rfc3339, sql_datetime, sql_before,
  is_in_progress,
}
use piscis_engine.Store.{Db, Error, Result, ok, err, has_koi, update_where}

unfoldable pub claimed_row : ℕ → Text → KoiTodo → KoiTodo
claimed_row now claimed_by t = record t {
  claimed_by = some claimed_by;
  claimed_at = some now;
  status = TodoStatus.in_progress;
  blocked_reason = none;
  updated_at = rfc3339 now;
}

-- `WHERE id = ?1 AND status <> 'in_progress'`.
abbrev pub is_claimable : Text → KoiTodo → Bool
is_claimable id t = text_eq t.id id && not (is_in_progress t.status)

-- `affected == 1`; the foreign key of `claimed_by` is checked when a row is written.
unfoldable pub try_claim_koi_todo : ℕ → Text → Text → Db → Result (Bool × Db)
unfolding claimed_row
try_claim_koi_todo now id claimed_by db =
    if any (is_claimable id) db.todos
    then if has_koi claimed_by db
      then ok (
        true,
        record db { todos = update_where (is_claimable id) (claimed_row now claimed_by) db.todos },
      )
      else err Error.foreign_key
    else ok (false, db)

unfoldable pub koi_has_other_in_progress_todo : Text → Text → Db → Bool
koi_has_other_in_progress_todo koi except db =
    any (λ t. text_eq t.owner_id koi && is_in_progress t.status && not (text_eq t.id except))
      db.todos

unfoldable pub koi_has_in_progress_todo : Text → Db → Bool
koi_has_in_progress_todo koi db =
    any (λ t. text_eq t.owner_id koi && is_in_progress t.status) db.todos

abbrev pub is_busy : KoiStatus → Bool
is_busy KoiStatus.busy = true
is_busy _ = false

-- `max_age_secs <= 0`, or `updated_at < datetime('now', '-… seconds')`; a negative age is 0 here.
abbrev pub is_stale : ℕ → ℕ → Stamp → Bool
is_stale now max_age updated_at = (max_age == 0) || sql_before updated_at (now - max_age)

abbrev pub stale_koi : ℕ → ℕ → KoiDefinition → Bool
stale_koi now max_age k = is_busy k.status && is_stale now max_age k.updated_at

unfoldable pub recover_stale_busy_kois : ℕ → ℕ → Db → ℕ × Db
recover_stale_busy_kois now max_age db = (
  length (keep (stale_koi now max_age) db.kois),
  record db {
    kois =
        map
          (λ k.
            if stale_koi now max_age k
            then record k { status = KoiStatus.idle; updated_at = sql_datetime now }
            else k)
          db.kois;
  },
)

abbrev pub stale_todo : ℕ → ℕ → KoiTodo → Bool
stale_todo now max_age t = is_in_progress t.status && is_stale now max_age t.updated_at

unfoldable pub released_row : ℕ → KoiTodo → KoiTodo
released_row now t = record t {
  status = TodoStatus.todo;
  claimed_by = none;
  claimed_at = none;
  updated_at = sql_datetime now;
}

unfoldable pub recover_stale_in_progress_todos : ℕ → ℕ → Db → ℕ × Db
unfolding released_row
recover_stale_in_progress_todos now max_age db = (
  length (keep (stale_todo now max_age) db.todos),
  record db { todos = update_where (stale_todo now max_age) (released_row now) db.todos },
)
