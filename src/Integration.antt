-- ===== src/Integration.antt =====
-- piscis-core/src/integration.rs: when a todo may start, and what waits for a merge.
pub mod Gate
use piscis_engine.Prelude.{
  ℕ, Bool, true, false, not, ◌&&◌, ◌||◌, Option, none, some, List, [], ◌∷◌, Text, text, text_eq,
  starts_with, trim, is_blank, trimmed, eq_ignore_case, take, find, keep, count, if◌then◌else◌,
}
use piscis_engine.Model.{KoiTodo, TodoStatus, is_todo, is_done, is_needs_review}

abbrev pub integration_none : Text
integration_none = text "none"

abbrev pub integration_ready : Text
integration_ready = text "ready"

abbrev pub integration_merged : Text
integration_merged = text "merged"

abbrev pub integration_conflict : Text
integration_conflict = text "conflict"

-- The filter of the prefix search: the hint begins the id, or the id's first eight characters
-- begin the hint.
unfoldable pub prefix_matches : Text → KoiTodo → Bool
prefix_matches hint t = starts_with t.id hint || starts_with hint (take 8 t.id)

-- `if matches.len() == 1 { Some(matches[0]) } else { None }`.
abbrev pub only_match : List KoiTodo → Option KoiTodo
only_match [] = none
only_match (t ∷ []) = some t
only_match (t ∷ u ∷ rest) = none

abbrev pub or_else : Option KoiTodo → Option KoiTodo → Option KoiTodo
or_else none o = o
or_else (some t) o = some t

unfoldable pub resolve_todo_dependency : Text → List KoiTodo → Option KoiTodo
resolve_todo_dependency dep_hint todos =
    let hint = trim dep_hint in
    if is_blank hint
    then none
    else or_else (find (λ t. text_eq t.id hint) todos)
        (only_match (keep (prefix_matches hint) todos))

abbrev pub is_present : Option Text → Bool
is_present none = false
is_present (some t) = true

unfoldable pub dependency_produces_branch : KoiTodo → Bool
dependency_produces_branch dep = is_present (trimmed dep.git_branch)

abbrev pub says_merged : Option Text → Bool
says_merged none = false
says_merged (some s) = eq_ignore_case (trim s) integration_merged

unfoldable pub integration_is_merged : KoiTodo → Bool
integration_is_merged t = says_merged t.integration_status

-- The checks on the upstream row that a hint resolves to.
unfoldable pub upstream_allows : Option KoiTodo → Bool
upstream_allows none = false
upstream_allows (some dep) =
    is_done dep.status && not (dependency_produces_branch dep && not (integration_is_merged dep))

unfoldable pub hint_satisfied : Option Text → List KoiTodo → Bool
unfolding upstream_allows
hint_satisfied none todos = true
hint_satisfied (some hint) todos = upstream_allows (resolve_todo_dependency hint todos)

-- True when a todo may start.
unfoldable pub is_todo_dependency_satisfied : KoiTodo → List KoiTodo → Bool
unfolding hint_satisfied
is_todo_dependency_satisfied t todos = hint_satisfied (trimmed t.depends_on) todos

unfoldable pub count_integration_ready : List KoiTodo → ℕ
count_integration_ready = count λ t.
    is_present (trimmed t.git_branch)
    && (is_done t.status || is_needs_review t.status)
    && not (integration_is_merged t)

unfoldable pub count_dependency_blocked : List KoiTodo → ℕ
count_dependency_blocked todos =
    count
      (λ t.
        is_todo t.status
        && not (is_present t.claimed_by)
        && is_present (trimmed t.depends_on)
        && not (is_todo_dependency_satisfied t todos))
      todos
