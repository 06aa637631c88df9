-- ===== src/Coordinator/Activate.antt =====
-- coordinator.rs, `activate_pending_todos`.
use piscis_engine.Prelude.{
  ℕ, ◌+◌, Bool, false, not, ◌&&◌, Option, none, some, List, [], ◌∷◌, Text, text_eq, is_some_text,
  any, keep, if◌then◌else◌,
}
use piscis_engine.Model.{KoiTodo, KoiDefinition, is_todo, is_active, is_idle}
use piscis_engine.Integration.{is_todo_dependency_satisfied, is_present}
use piscis_engine.Store.{Db, Result, ok, err, Env}
use piscis_engine.Store.Todos.{list_koi_todos}
use piscis_engine.Store.Kois.{get_koi}
use piscis_engine.Store.Pools.{list_pool_sessions}
use piscis_engine.Services.Base.{World}
use piscis_engine.Coordinator.Turn.{CoordinatorConfig, KoiExecResult}
use piscis_engine.Coordinator.Execute.{Host, execute_todo_turn}
use piscis_engine.Coordinator.Recovery.{dispatch}

abbrev pub is_active_pool : Text → Db → Bool
is_active_pool id db = any (λ p. is_active p.status && text_eq p.id id) (list_pool_sessions db)

abbrev pub in_scope : Option Text → Db → KoiTodo → Bool
in_scope none db t = not (is_present t.pool_session_id)
in_scope (some id) db t = is_some_text t.pool_session_id id && is_active_pool id db

-- The todos that the scan looks at, as the board shows them when it starts.
unfoldable pub pending_todos : Option Text → Db → List KoiTodo
pending_todos scope db =
    keep (λ t. is_todo t.status && not (is_present t.claimed_by) && in_scope scope db t)
      (list_koi_todos none db)

-- `koi_status != "idle"`, where a Koi that is not there is offline.
abbrev pub owner_idle : Option KoiDefinition → Bool
owner_idle none = false
owner_idle (some k) = is_idle k.status

-- `Ok(_) => activated += 1`; an error is logged.
abbrev pub counted : ℕ → Result KoiExecResult × World → ℕ × World
counted n (ok r, w) = (n + 1, w)
counted n (err e, w) = (n, w)

-- One todo of the scan. The environment is what its turn reads.
unfoldable pub activate_one :
    Host → (Text → Env) → CoordinatorConfig → List KoiTodo → KoiTodo → ℕ → World → ℕ × World
activate_one host env cfg todos t n w =
    if is_todo_dependency_satisfied t todos && owner_idle (get_koi t.owner_id w.db)
    then counted n (execute_todo_turn host (env t.id) cfg (dispatch t.owner_id t.id) w)
    else (n, w)

unfoldable pub activate_all :
    Host → (Text → Env) → CoordinatorConfig → List KoiTodo → List KoiTodo → ℕ → World → ℕ × World
unfolding activate_one
activate_all host env cfg todos [] n w = (n, w)
activate_all host env cfg todos (t ∷ ts) n w =
    let r = activate_one host env cfg todos t n w in activate_all host env cfg todos ts r.0 r.1

unfoldable pub activate_pending_todos :
    Host → (Text → Env) → CoordinatorConfig → Option Text → World → ℕ × World
unfolding pending_todos activate_all
activate_pending_todos host env cfg scope w =
    activate_all host env cfg (list_koi_todos none w.db) (pending_todos scope w.db) 0 w
