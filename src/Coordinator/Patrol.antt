-- ===== src/Coordinator/Patrol.antt =====
-- What a scan for pending todos may do.
use piscis_engine.Prelude.{
  ℕ, ◌≡◌, refl, Bool, true, false, not, ◌&&◌, ◌||◌, none, some, List, [], ◌∷◌, Text, keep, all,
  arith, Bool-cases, inl, inr,
}
use piscis_engine.Model.{KoiTodo, is_todo}
use piscis_engine.Integration.{is_todo_dependency_satisfied, is_present}
use piscis_engine.Store.{Db, Env}
use piscis_engine.Store.Todos.{list_koi_todos}
use piscis_engine.Store.Kois.{get_koi}
use piscis_engine.Services.Base.{World}
use piscis_engine.Coordinator.Turn.{CoordinatorConfig}
use piscis_engine.Coordinator.Execute.{Host}
use piscis_engine.Coordinator.Activate.{
  is_active_pool, in_scope, pending_todos, owner_idle, activate_one, activate_all,
  activate_pending_todos,
}

-- A todo of the scan that its turn would refuse at once, or whose Koi is not free.
abbrev pub held_back : World → List KoiTodo → KoiTodo → Bool
held_back w todos t =
    not (is_todo_dependency_satisfied t todos && owner_idle (get_koi t.owner_id w.db))

activate_all-held :
    (host : Host) (env : Text → Env) (cfg : CoordinatorConfig) (todos ts : List KoiTodo) (n : ℕ)
    (w : World)
    → all (held_back w todos) ts ≡ true
    → activate_all host env cfg todos ts n w ≡ (n, w)
unfolding activate_all activate_one
activate_all-held host env cfg todos [] n w h = refl
activate_all-held host env cfg todos (t ∷ ts) n w h =
    let off : is_todo_dependency_satisfied t todos && owner_idle (get_koi t.owner_id w.db) ≡ false =
      ground arith in
    rw off (activate_all-held host env cfg todos ts n w (ground arith))

none_in_scope :
    (id : Text) (db : Db) (ts : List KoiTodo)
    → is_active_pool id db ≡ false
    → keep (λ t. is_todo t.status && not (is_present t.claimed_by) && in_scope (some id) db t) ts
      ≡ []
none_in_scope id db [] h = refl
none_in_scope id db (t ∷ ts) h = ground (arith, none_in_scope id db ts h)

inactive-pending :
    (id : Text) (db : Db) → is_active_pool id db ≡ false → pending_todos (some id) db ≡ []
unfolding pending_todos
inactive-pending id db h = none_in_scope id db (list_koi_todos none db) h

-- A scan for a pool starts nothing and changes nothing when the pool is not active, or when each
-- pending todo waits for its dependency or has an owner that is not idle.
pub activate_pending_todos_idle :
    (host : Host) (env : Text → Env) (cfg : CoordinatorConfig) (id : Text) (w : World)
    → not (is_active_pool id w.db)
        || all (held_back w (list_koi_todos none w.db)) (pending_todos (some id) w.db)
      ≡ true
    → activate_pending_todos host env cfg (some id) w ≡ (0, w)
unfolding activate_pending_todos
activate_pending_todos_idle host env cfg id w h = elim (Bool-cases (is_active_pool id w.db)) [
  | inl e ↦
      activate_all-held host env cfg (list_koi_todos none w.db) (pending_todos (some id) w.db) 0 w
        (ground arith)
  | inr e ↦
      activate_all-held host env cfg (list_koi_todos none w.db) (pending_todos (some id) w.db) 0 w
        (rw (inactive-pending id w.db e) refl)
]
