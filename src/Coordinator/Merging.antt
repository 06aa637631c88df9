-- ===== src/Coordinator/Merging.antt =====
-- From completion to merge: when the todos that depend on a todo may start.
use piscis_engine.Prelude.{
  ℕ, ◌≡◌, refl, true, false, ◌&&◌, Option, none, some, Text, trim, trimmed, is_blank, is_some_text,
  find_sound, eq_ignore_case,
}
use piscis_engine.Model.{KoiTodo, rfc3339}
use piscis_engine.Integration.{
  integration_merged, is_todo_dependency_satisfied, dependency_produces_branch,
  integration_is_merged, upstream_allows,
}
use piscis_engine.Integration.Gate.{resolve_exact, satisfied_iff}
use piscis_engine.Store.{Db}
use piscis_engine.Store.Rows.{has_id, find-update_where}
use piscis_engine.Store.Todos.{
  get_koi_todo, list_koi_todos, complete_koi_todo, completed_row, has_branch, is_unsettled,
  set_koi_todo_integration_status_by_branch,
}

-- The gate of a todo whose dependency is a row's whole id.
satisfied-by_id :
    (t : KoiTodo) (id : Text) (db : Db) {dep : KoiTodo}
    → t.depends_on ≡ some id
    → trim id ≡ id
    → is_blank id ≡ false
    → get_koi_todo id db ≡ some dep
    → is_todo_dependency_satisfied t (list_koi_todos none db) ≡ upstream_allows (some dep)
unfolding get_koi_todo list_koi_todos trimmed
satisfied-by_id t id db {dep} h trims full found =
    rw (satisfied_iff t db.todos {hint = id} (rw (h, trims, full)))
      (rw (resolve_exact id db.todos {dep = dep} (rw trims full) (rw trims found)) refl)

pub complete-find :
    (now : ℕ) (id : Text) (message : Option ℕ) (db : Db) {dep : KoiTodo}
    → get_koi_todo id db ≡ some dep
    → get_koi_todo id (complete_koi_todo now id message db) ≡ some (completed_row now message dep)
unfolding get_koi_todo complete_koi_todo completed_row
complete-find now id message db {dep} found =
    rw (find-update_where (has_id id) (has_id id) (completed_row now message) (λ t. refl) db.todos)
      (rw (found, find_sound (has_id id) db.todos {a = dep} found) refl)

abbrev merged_row : ℕ → KoiTodo → KoiTodo
merged_row now t = record t {
  integration_status = some integration_merged;
  updated_at = rfc3339 now;
}

merge-find :
    (now : ℕ) (pool branch id : Text) (db : Db) {dep : KoiTodo}
    → get_koi_todo id db ≡ some dep
    → is_some_text dep.pool_session_id pool ≡ true
    → is_some_text dep.git_branch branch ≡ true
    → get_koi_todo id
        (set_koi_todo_integration_status_by_branch now pool branch integration_merged db)
      ≡ some (merged_row now dep)
unfolding get_koi_todo set_koi_todo_integration_status_by_branch
merge-find now pool branch id db {dep} found in_pool named =
    rw
      (find-update_where (has_id id)
        (λ t. is_some_text t.pool_session_id pool && is_some_text t.git_branch branch)
        (merged_row now) (λ t. refl) db.todos)
      (rw (found, in_pool, named) refl)

-- Completing a todo that has no branch releases the todos that depend on its id, an id that is
-- neither blank nor padded.
pub complete_releases :
    (now : ℕ) (message : Option ℕ) (db : Db) (t dep : KoiTodo)
    → t.depends_on ≡ some dep.id
    → trim dep.id ≡ dep.id
    → is_blank dep.id ≡ false
    → get_koi_todo dep.id db ≡ some dep
    → dependency_produces_branch dep ≡ false
    → is_todo_dependency_satisfied t (list_koi_todos none (complete_koi_todo now dep.id message db))
      ≡ true
unfolding completed_row upstream_allows dependency_produces_branch
complete_releases now message db t dep h trims full found no_branch =
    rw
      (satisfied-by_id t dep.id (complete_koi_todo now dep.id message db) h trims full
        (complete-find now dep.id message db found))
      (rw no_branch refl)

-- A todo that is completed with a branch, not yet settled, keeps the todos that depend on its id
-- waiting; recording that its branch is merged in its pool releases them. The id is neither
-- blank nor padded.
pub merge_releases :
    (now later : ℕ) (message : Option ℕ) (pool branch : Text) (db : Db) (t dep : KoiTodo)
    → t.depends_on ≡ some dep.id
    → trim dep.id ≡ dep.id
    → is_blank dep.id ≡ false
    → get_koi_todo dep.id db ≡ some dep
    → dependency_produces_branch dep ≡ true
    → has_branch dep.git_branch ≡ true
    → is_unsettled dep.integration_status ≡ true
    → is_some_text dep.pool_session_id pool ≡ true
    → is_some_text dep.git_branch branch ≡ true
    → (is_todo_dependency_satisfied t
          (list_koi_todos none (complete_koi_todo now dep.id message db))
        ≡ false)
      × (is_todo_dependency_satisfied t (
            list_koi_todos none (
              set_koi_todo_integration_status_by_branch later pool branch integration_merged
                (complete_koi_todo now dep.id message db)))
          ≡ true)
unfolding completed_row upstream_allows dependency_produces_branch integration_is_merged
    eq_ignore_case trim
merge_releases now later message pool branch db t dep h trims full found makes full_branch
      open_status in_pool named =
    (
      rw
          (satisfied-by_id t dep.id (complete_koi_todo now dep.id message db) h trims full
            (complete-find now dep.id message db found))
          (rw (makes, full_branch, open_status) refl),
      rw
          (satisfied-by_id t dep.id
            (set_koi_todo_integration_status_by_branch later pool branch integration_merged
              (complete_koi_todo now dep.id message db))
            {dep = merged_row later (completed_row now message dep)} h trims full
            (merge-find later pool branch dep.id (complete_koi_todo now dep.id message db)
              (complete-find now dep.id message db found) in_pool named))
          (rw makes refl),
    )
