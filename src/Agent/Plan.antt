-- ===== src/Agent/Plan.antt =====
-- The visible execution plan: `agent/plan.rs`, and the tool `tools/plan_todo.rs` that replaces
-- or merges it, under a lock, in a store shared by the sessions.
pub mod Valid
pub mod Merging
pub mod Tool
pub mod Stored
use piscis_engine.Prelude.{
  ℕ, suc, ◌+◌, Bool, true, false, not, ◌&&◌, ◌||◌, Option, none, some, List, [], ◌∷◌, ◌++◌, leb,
  if◌then◌else◌, any, length, find, is_empty, Text, text, text_eq, trim, is_blank, map, ltb,
}

-- `PlanTodoItem`.
pub record PlanTodoItem : Type 0 where
  pub id : Text
  pub content : Text
  pub status : Text

unfoldable pub normalized : PlanTodoItem → PlanTodoItem
normalized item = record {
  id = trim item.id;
  content = trim item.content;
  status = trim item.status;
}

-- The messages, by what they say.
pub data PlanError : Type 0 where
  no_todos : PlanError
  empty_id : PlanError
  empty_content : Text → PlanError
  invalid_status : Text → Text → PlanError
  repeated_id : Text → PlanError
  several_in_progress : PlanError
  invalid_format : PlanError

-- `Result<_, String>`.
pub data Checked (A : Type 0) : Type 0 where
  valid : A → Checked A
  invalid : PlanError → Checked A

unfoldable pub is_status : Text → Bool
is_status s =
    text_eq s (text "pending")
    || text_eq s (text "in_progress")
    || text_eq s (text "completed")
    || text_eq s (text "cancelled")

unfoldable pub is_running_item : PlanTodoItem → Bool
is_running_item item = text_eq item.status (text "in_progress")

-- The loop of `validate_todos`, from the ids seen and the items in progress so far to their number.
unfoldable pub check_items : List PlanTodoItem → List Text → ℕ → Checked ℕ
unfolding normalized is_status is_running_item
check_items [] seen in_progress = valid in_progress
check_items (raw ∷ items) seen in_progress =
    let item = normalized raw in
    let counted = if is_running_item item then suc in_progress else in_progress in
    let rest = check_items items (item.id ∷ seen) counted in
    if is_blank item.id
    then invalid empty_id
    else if is_blank item.content
    then invalid (empty_content item.id)
    else if not (is_status item.status)
    then invalid (invalid_status item.id item.status)
    else if any (text_eq item.id) seen
    then invalid (repeated_id item.id)
    else rest

unfoldable pub check_in_progress : Checked ℕ → Checked (Unit {0})
check_in_progress (invalid e) = invalid e
check_in_progress (valid n) = if ltb 1 n then invalid several_in_progress else valid tt

unfoldable pub validate_todos : List PlanTodoItem → Checked (Unit {0})
unfolding check_items check_in_progress
validate_todos items =
    if is_empty items then invalid no_todos else check_in_progress (check_items items [] 0)

-- The first item with the update's id is replaced, and an update with a new id is appended.
unfoldable pub merge_todo : List PlanTodoItem → PlanTodoItem → List PlanTodoItem
merge_todo [] update = update ∷ []
merge_todo (item ∷ items) update =
    let rest = merge_todo items update in
    if text_eq item.id update.id then update ∷ items else item ∷ rest

unfoldable pub merge_todos : List PlanTodoItem → List PlanTodoItem → List PlanTodoItem
unfolding merge_todo
merge_todos existing [] = existing
merge_todos existing (update ∷ updates) = merge_todos (merge_todo existing update) updates

-- `- [status] content (id)`.
unfoldable pub summarize_todo : PlanTodoItem → Text
summarize_todo item =
    text "- [" ++ item.status ++ text "] " ++ item.content ++ text " (" ++ item.id ++ text ")"

-- A line for each item, with `join("\n")`.
unfoldable pub summarize_todos : List PlanTodoItem → Text
unfolding summarize_todo
summarize_todos [] = []
summarize_todos (item ∷ []) = summarize_todo item
summarize_todos (item ∷ next ∷ items) =
    summarize_todo item ++ text "\n" ++ summarize_todos (next ∷ items)
