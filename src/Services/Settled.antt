-- ===== src/Services/Settled.antt =====
-- A row with a given status, through the statements of the store and the steps of a service.
use piscis_engine.Prelude.{
  ℕ, ◌≡◌, ap, Bool, true, false, not, ◌||◌, Option, none, some, Text, text_eq, starts_with, any,
  all, find, arith, Option-cases, inl, inr,
}
use piscis_engine.Model.{KoiTodo, TodoStatus, PoolMessage, Metadata, EventType}
use piscis_engine.Store.{Db, Error, ok, Env, update_where, update_todo}
use piscis_engine.Store.Rows.{
  has_id, any-update_where, all-update_where, all-find, text_eq-trans_false,
}
use piscis_engine.Store.Todos.{list_koi_todos}
use piscis_engine.Store.Messages.{insert_pool_message_ext}
use piscis_engine.Services.Base.{
  M, ◌>>=◌, read, require, find_todo_by_prefix, note_on_todo, emit_if_written,
}
use piscis_engine.Services.Keeps.{Keeps, bind-Keeps, try_write-Keeps, attempt-Keeps}

-- Rows of the id have a status that the test accepts.
abbrev pub agrees : (TodoStatus → Bool) → Text → KoiTodo → Bool
agrees st id t = not (text_eq t.id id) || st t.status

-- There is a row of the id, and all of them have such a status.
abbrev pub Settled : (TodoStatus → Bool) → Text → Db → Type 0
Settled st id db = (any (has_id id) db.todos ≡ true) × (all (agrees st id) db.todos ≡ true)

module _ (st : TodoStatus → Bool) (id : Text) where
  -- A change of rows that all have another id.
  pub change-Settled :
      (p : KoiTodo → Bool) (f : KoiTodo → KoiTodo)
      → ((t : KoiTodo) → (f t).id ≡ t.id)
      → ((t : KoiTodo) → p t ≡ true → text_eq t.id id ≡ false)
      → (db : Db) → Settled st id db
      → Settled st id (record db { todos = update_where p f db.todos })
  change-Settled p f same differs db s = (
    rw (any-update_where (has_id id) p f (λ t. ap (λ x. text_eq x id) (same t)) db.todos) s.0,
    all-update_where (agrees st id) p f (λ t here _. ground (arith, same t, differs t here))
        db.todos s.1,
  )

  pub update-Settled :
      (other : Text) (f : KoiTodo → KoiTodo)
      → ((t : KoiTodo) → (f t).id ≡ t.id)
      → text_eq other id ≡ false
      → (db : Db) → Settled st id db
      → Settled st id (update_todo other f db)
  update-Settled other f same differs =
      change-Settled (has_id other) f same λ t here. text_eq-trans_false t.id other id here differs

  pub message-Settled :
      (now : ℕ) (pool sender content kind : Text) (m : Metadata) (t : Option Text) (r : Option ℕ)
      (e : Option EventType) (db : Db) (a : PoolMessage) (db' : Db)
      → insert_pool_message_ext now pool sender content kind m t r e db ≡ ok (a, db')
      → Settled st id db
      → Settled st id db'
  unfolding insert_pool_message_ext
  message-Settled now pool sender content kind m t r e db a db' done s = ground arith

  emit_if_written-Settled : (o : Option PoolMessage) → Keeps (Settled st id) (emit_if_written o)
  emit_if_written-Settled none = record { run = λ w s. s }
  emit_if_written-Settled (some m) = record { run = λ w s. s }

  pub note-Settled :
      (env : Env) (pool : Option Text) (sender content kind : Text) (m : Metadata) (t : Text)
      (e : EventType)
      → Keeps (Settled st id) (note_on_todo env pool sender content kind m t e)
  unfolding note_on_todo
  note-Settled env none sender content kind m t e = record { run = λ w s. s }
  note-Settled env (some pool) sender content kind m t e =
      bind-Keeps (Settled st id)
        (attempt-Keeps (Settled st id) (
          try_write-Keeps (Settled st id) _
            (message-Settled env.now pool sender content kind m (some t) none (some e))))
        emit_if_written-Settled

  -- The row that a prefix finds, in the steps that follow.
  pub found-Settled :
      {B : Type 0} (prefix : Text) {k : KoiTodo → M B}
      → ((t : KoiTodo) → agrees st id t ≡ true → Keeps (Settled st id) (k t))
      → Keeps
          (Settled st id)
          (read (find_todo_by_prefix prefix) >>= λ found. require Error.todo_not_found found >>= k)
  unfolding find_todo_by_prefix list_koi_todos
  found-Settled prefix {k} h = record {
    run = λ w s. elim (Option-cases (find (λ t. starts_with t.id prefix) w.db.todos)) [
      | inl e ↦ rw e s
      | inr (t, e) ↦
          rw e (
            (h t (all-find (agrees st id) (λ t. starts_with t.id prefix) w.db.todos s.1 e)).run w s)
    ];
  }
