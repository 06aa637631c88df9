-- ===== src/Coordinator/Replacement.antt =====
-- What `replace_koi_todo` leaves on the board, and what the dependency gate makes of it.
use piscis_engine.Prelude.{
  ℕ, ◌≡◌, refl, true, false, Option, none, some, List, ◌∷◌, Text, text_eq, text_eq_sound,
  find_sound, text, ◌++◌, trim, trimmed, is_blank, find, any, arith, Bool-cases, inl, inr,
}
use piscis_engine.Model.{KoiTodo, rfc3339, TodoStatus, is_done}
use piscis_engine.Integration.{is_todo_dependency_satisfied}
use piscis_engine.Integration.Gate.{blocked_by_unfinished, resolve_exact}
use piscis_engine.Store.{Db, ok, Env, update_where}
use piscis_engine.Store.Rows.{find-update_where, not-any-find}
use piscis_engine.Store.Todos.{get_koi_todo, list_koi_todos, replace_koi_todo}

-- A row that depends on a whole id waits as long as the row of that id is not done.
pub waits_for :
    (t : KoiTodo) (id : Text) (db : Db) {dep : KoiTodo}
    → t.depends_on ≡ some id
    → trim id ≡ id
    → is_blank id ≡ false
    → get_koi_todo id db ≡ some dep
    → is_done dep.status ≡ false
    → is_todo_dependency_satisfied t (list_koi_todos none db) ≡ false
unfolding get_koi_todo list_koi_todos trimmed
waits_for t id db {dep} h trims full found unfinished =
    blocked_by_unfinished t db.todos {hint = id} {dep = dep} (rw (h, trims, full))
      (resolve_exact id db.todos (rw trims full) (rw trims found)) unfinished

abbrev cancelled_as : ℕ → Text → KoiTodo → KoiTodo
cancelled_as now why t = record t {
  status = TodoStatus.cancelled;
  blocked_reason = some why;
  updated_at = rfc3339 now;
}

-- A row that is found is still found, cancelled, below a new row of another id.
cancelled-find :
    (now : ℕ) (why id : Text) (t : KoiTodo) (ts : List KoiTodo) {original : KoiTodo}
    → any (λ u. text_eq u.id t.id) ts ≡ false
    → find (λ u. text_eq u.id id) ts ≡ some original
    → find
        (λ u. text_eq u.id id)
        (update_where (λ u. text_eq u.id id) (cancelled_as now why) (t ∷ ts))
      ≡ some (cancelled_as now why original)
cancelled-find now why id t ts {original} fresh found =
    rw
      (find-update_where (λ u. text_eq u.id id) (λ u. text_eq u.id id) (cancelled_as now why)
        (λ u. refl) (t ∷ ts))
      (elim (Bool-cases (text_eq t.id id)) [
        | inl same ↦
            let e : t.id ≡ id = text_eq_sound t.id id same in
            let here : any (λ u. text_eq u.id t.id) ts ≡ true =
              rw e (not-any-find (λ u. text_eq u.id id) ts {t = original} found) in
            cc
        | inr differs ↦ rw (differs, found) (rw (find_sound (λ u. text_eq u.id id) ts found))
      ])

-- The row and the table after a replacement: the new row depends on the old one's whole id, and
-- the old row is cancelled.
pub replace_koi_todo_lem :
    (env : Env) (original : KoiTodo) (new_owner title description by source reason : Text)
    (timeout : Option ℕ) (db : Db) {t : KoiTodo} {db' : Db}
    → get_koi_todo original.id db ≡ some original
    → replace_koi_todo env original new_owner title description by source reason timeout db
      ≡ ok (t, db')
    → (t.depends_on ≡ some original.id)
      × (t.id ≡ env.new_id)
      × ((u : KoiTodo) × (get_koi_todo original.id db' ≡ some u)
          × (u.status ≡ TodoStatus.cancelled))
unfolding replace_koi_todo get_koi_todo
replace_koi_todo_lem env original new_owner title description by source reason timeout db {t} {db'}
      found done =
    (
      ground arith,
      ground arith,
      (
        cancelled_as env.now (text "[Replaced by " ++ env.new_id ++ text "] " ++ trim reason)
            original,
        ground (
          arith,
          cancelled-find env.now (text "[Replaced by " ++ env.new_id ++ text "] " ++ trim reason)
              original.id t db.todos {original = original},
        ),
        refl,
      ),
    )

-- A replacement's depends_on names the todo that it replaces, which is cancelled and so never
-- done: the gate refuses the replacement. The original is on the board, under an id that is
-- neither blank nor padded.
pub replacement_never_satisfied :
    (env : Env) (original : KoiTodo) (new_owner title description by source reason : Text)
    (timeout : Option ℕ) (db : Db) {t : KoiTodo} {db' : Db}
    → get_koi_todo original.id db ≡ some original
    → trim original.id ≡ original.id
    → is_blank original.id ≡ false
    → replace_koi_todo env original new_owner title description by source reason timeout db
      ≡ ok (t, db')
    → is_todo_dependency_satisfied t (list_koi_todos none db') ≡ false
replacement_never_satisfied env original new_owner title description by source reason timeout db {t}
      {db'} found trims full done =
    let (depends, _, (u, here, cancelled)) =
      replace_koi_todo_lem env original new_owner title description by source reason timeout db
        found done in
    waits_for t original.id db' {dep = u} depends trims full here (rw cancelled)
