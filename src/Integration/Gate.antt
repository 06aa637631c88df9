-- ===== src/Integration/Gate.antt =====
-- What the gate of integration.rs guarantees.
use piscis_engine.Prelude.{◌≡◌, false, some, List, Text, text_eq, trim, trimmed, is_blank, find}
use piscis_engine.Model.{KoiTodo, is_done}
use piscis_engine.Integration.{
  resolve_todo_dependency, upstream_allows, is_todo_dependency_satisfied,
}

-- A hint that is a row's whole id resolves to that row, whatever other ids begin with it.
pub resolve_exact :
    (hint : Text) (todos : List KoiTodo) {dep : KoiTodo}
    → is_blank (trim hint) ≡ false
    → find (λ t. text_eq t.id (trim hint)) todos ≡ some dep
    → resolve_todo_dependency hint todos ≡ some dep
unfolding resolve_todo_dependency
resolve_exact hint todos h e = rw (h, e)

-- A todo with a dependency may start exactly when the hint resolves to a row that is done and,
-- if that row has a branch, merged.
pub satisfied_iff :
    (t : KoiTodo) (todos : List KoiTodo) {hint : Text}
    → trimmed t.depends_on ≡ some hint
    → is_todo_dependency_satisfied t todos ≡ upstream_allows (resolve_todo_dependency hint todos)
unfolding is_todo_dependency_satisfied
satisfied_iff t todos h = rw h

pub blocked_by_unfinished :
    (t : KoiTodo) (todos : List KoiTodo) {hint : Text} {dep : KoiTodo}
    → trimmed t.depends_on ≡ some hint
    → resolve_todo_dependency hint todos ≡ some dep
    → is_done dep.status ≡ false
    → is_todo_dependency_satisfied t todos ≡ false
unfolding is_todo_dependency_satisfied
blocked_by_unfinished t todos h e d = rw (h, e, d)
