-- ===== src/Services/Delete.antt =====
-- services.rs, `delete_todo`.
use piscis_engine.Prelude.{
  Bool, true, false, ◌&&◌, Option, none, some, List, [], ◌∷◌, Text, text, text_eq, trimmed,
  is_some_text, keep,
}
use piscis_engine.Model.{KoiTodo, KoiDefinition, TodoChangeAction}
use piscis_engine.Store.{Db, Error, Result, ok, err}
use piscis_engine.Store.Todos.{list_koi_todos, delete_koi_todo}
use piscis_engine.Store.Kois.{resolve_koi_identifier}
use piscis_engine.Services.Base.{
  M, ◌>>=◌, ◌>>◌, pure, ensure, read, try_read, write, require, CallerContext, resolve_pool,
  find_todo_by_prefix, emit_todo, check_piscis_only,
}
use piscis_engine.Services.Messages.{status_word}

pub record DeleteTodoArgs : Type 0 where
  pub todo_id : Option Text
  pub pool_id : Option Text
  pub status : Option Text
  pub owner_id : Option Text

unfoldable pub delete_one : Text → M (List KoiTodo)
delete_one todo_id = do
  found ← read (find_todo_by_prefix todo_id)
  t ← require Error.todo_not_found found
  write (delete_koi_todo t.id)
  emit_todo t.pool_session_id TodoChangeAction.deleted t
  pure (t ∷ [])

-- The owner filter: the Koi that the hint names, or the hint itself.
abbrev pub id_or : Text → Option KoiDefinition → Text
id_or hint none = hint
id_or hint (some k) = k.id

abbrev pub owner_or : Text → Result (Option KoiDefinition) → Result (Option Text)
owner_or hint (ok found) = ok (some (id_or hint found))
owner_or hint (err e) = err e

unfoldable pub owner_filter : Option Text → Db → Result (Option Text)
owner_filter none db = ok none
owner_filter (some hint) db = owner_or hint (resolve_koi_identifier hint db)

abbrev pub passes : Option Text → Text → Bool
passes none t = true
passes (some f) t = text_eq t f

unfoldable pub is_deleted : Text → Option Text → Option Text → KoiTodo → Bool
unfolding status_word
is_deleted pool status owner t =
    is_some_text t.pool_session_id pool
    && passes status (status_word t.status)
    && passes owner t.owner_id

unfoldable pub delete_all : List KoiTodo → Db → Db
unfolding delete_koi_todo
delete_all [] db = db
delete_all (t ∷ ts) db = delete_all ts (delete_koi_todo t.id db)

unfoldable pub emit_deleted : List KoiTodo → M (Unit {0})
emit_deleted [] = pure tt
emit_deleted (t ∷ ts) = emit_todo t.pool_session_id TodoChangeAction.deleted t >> emit_deleted ts

abbrev pub has_filter : Option Text → Option Text → Bool
has_filter none none = false
has_filter _ _ = true

unfoldable pub delete_batch : CallerContext → DeleteTodoArgs → M (List KoiTodo)
unfolding owner_filter is_deleted delete_all emit_deleted
delete_batch caller args = do
  hint ← require (Error.field_required (text "todo_id")) (trimmed args.pool_id)
  ensure (has_filter (trimmed args.status) (trimmed args.owner_id))
      (Error.field_required (text "delete_status"))
  owner ← try_read (owner_filter (trimmed args.owner_id))
  session ← resolve_pool caller hint
  doomed ←
      read (λ db. keep (is_deleted session.id (trimmed args.status) owner) (list_koi_todos none db))
  write (delete_all doomed)
  emit_deleted doomed
  pure doomed

abbrev pub delete_one_or : Option Text → M (List KoiTodo) → M (List KoiTodo)
delete_one_or none rest = rest
delete_one_or (some id) rest = delete_one id

unfoldable pub delete_todo : CallerContext → DeleteTodoArgs → M (List KoiTodo)
unfolding delete_one delete_batch
delete_todo caller args = do
  check_piscis_only caller
  delete_one_or (trimmed args.todo_id) (delete_batch caller args)
