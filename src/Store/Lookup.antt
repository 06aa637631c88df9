-- ===== src/Store/Lookup.antt =====
-- Reading a todo after it was created.
use piscis_engine.Prelude.{ℕ, ◌≡◌, false, Option, none, some, Text, text_eq, text_eq_refl, arith}
use piscis_engine.Model.{KoiTodo, TodoStatus}
use piscis_engine.Store.{Db, ok, Env, has_todo}
use piscis_engine.Store.Todos.{
  create_koi_todo, new_todo, insert_todo, get_koi_todo, delete_koi_todo,
}

-- When `create_koi_todo` answers a todo, the inserted row, with the columns that are left to their
-- defaults, is read back by its id as the very todo, open and unclaimed; the id was not on the board
-- before, and a row of another id is read as before.
pub create_koi_todo_lem :
    (env : Env) (owner title description priority by : Text) (pool : Option Text) (source : Text)
    (depends_on : Option Text) (timeout : ℕ) (db : Db) (other : Text) {t : KoiTodo} {db' : Db}
    → create_koi_todo env owner title description priority by pool source depends_on timeout db
      ≡ ok (t, db')
    → text_eq t.id other ≡ false
    → (get_koi_todo t.id db' ≡ some t)
      × (t.status ≡ TodoStatus.todo)
      × (t.claimed_by ≡ none)
      × (has_todo t.id db ≡ false)
      × (get_koi_todo other db' ≡ get_koi_todo other db)
unfolding create_koi_todo insert_todo new_todo piscis_engine.Store.Todos.inserted_todo
    piscis_engine.Store.Todos.row_of get_koi_todo
create_koi_todo_lem env owner title description priority by pool source depends_on timeout db other
      {t} {db'} h differs =
    (ground (arith, text_eq_refl t.id), ground arith, ground arith, ground arith, ground arith)
