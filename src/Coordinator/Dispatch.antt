-- ===== src/Coordinator/Dispatch.antt =====
-- `execute_todo_turn`: what it refuses, what it skips, and how it leaves the Koi.
use piscis_engine.Prelude.{
  ℕ, ◌≡◌, refl, Bool, true, false, not, ◌&&◌, ◌||◌, Option, none, some, List, [], ◌∷◌, Text,
  text_eq, map, all, arith, if◌then◌else◌, Bool-cases, inl, inr,
}
use piscis_engine.Model.{
  KoiTodo, KoiDefinition, PoolSession, KoiStatus, is_idle, rfc3339, is_active,
}
use piscis_engine.Integration.{is_todo_dependency_satisfied}
use piscis_engine.Store.{Db, Error, ok, err, Env}
use piscis_engine.Store.Todos.{list_koi_todos}
use piscis_engine.Store.Kois.{update_koi_status}
use piscis_engine.Store.Claims.{koi_has_in_progress_todo}
use piscis_engine.Services.Base.{World}
use piscis_engine.Coordinator.Turn.{
  CoordinatorConfig, ExecuteTodoArgs, resolve_turn_context, announce_claim, pool_id_of,
}
use piscis_engine.Coordinator.Execute.{
  Host, execute_todo_turn, execute_todo_turn_inner, release_koi, run_claimed,
}

-- The status of the pool of a turn, if it has one.
abbrev pub pool_works : Option PoolSession → Bool
pool_works none = true
pool_works (some p) = is_active p.status

-- A turn is refused, with the board and the events as they were, when its pool is not active or
-- when the todo's dependency is not satisfied.
pub execute_todo_turn_refuses :
    (host : Host) (env : Env) (cfg : CoordinatorConfig) (args : ExecuteTodoArgs) (w : World)
    {koi : KoiDefinition} {t : KoiTodo} {pool : Option PoolSession}
    → resolve_turn_context args w ≡ (ok (koi, t, pool), w)
    → pool_works pool && is_todo_dependency_satisfied t (list_koi_todos none w.db) ≡ false
    → execute_todo_turn host env cfg args w
      ≡ (err (if pool_works pool then Error.dependency_not_satisfied else Error.pool_not_active), w)
unfolding execute_todo_turn
execute_todo_turn_refuses host env cfg args w {koi} {t} {pool = none} context closed =
    rw (context, closed) refl
execute_todo_turn_refuses host env cfg args w {koi} {t} {pool = some p} context closed =
    elim (Bool-cases (is_active p.status)) [
      | inl e ↦
          let unmet : is_todo_dependency_satisfied t (list_koi_todos none w.db) ≡ false =
            ground arith in
          rw (context, e, unmet) refl
      | inr e ↦ rw (context, e) refl
    ]

-- The rows of a Koi all show that it is idle.
abbrev pub is_released : Text → KoiDefinition → Bool
is_released koi k = not (text_eq k.id koi) || is_idle k.status

mapped-idle :
    (now : ℕ) (koi : Text) (ks : List KoiDefinition)
    → all (is_released koi) (
        map
          (λ k.
            if text_eq k.id koi
            then record k { status = KoiStatus.idle; updated_at = rfc3339 now }
            else k)
          ks)
      ≡ true
mapped-idle now koi [] = refl
mapped-idle now koi (k ∷ ks) = ground (arith, mapped-idle now koi ks)

pub idle-all :
    (now : ℕ) (koi : Text) (db : Db)
    → all (is_released koi) (update_koi_status now koi KoiStatus.idle db).kois ≡ true
unfolding update_koi_status
idle-all now koi db = mapped-idle now koi db.kois

release_koi-all :
    (now : ℕ) (koi : Text) (db : Db)
    → koi_has_in_progress_todo koi (release_koi now koi db) ≡ false
    → all (is_released koi) (release_koi now koi db).kois ≡ true
unfolding release_koi
release_koi-all now koi db h = elim (Bool-cases (koi_has_in_progress_todo koi db)) [
  | inl e ↦ ground (arith, rw e at h)
  | inr e ↦ rw e (idle-all now koi db)
]

-- A turn that was announced ends with its Koi idle unless a todo of the Koi is in progress on the
-- board, whatever the subagent did and whatever the turn answers.
pub run_claimed_releases :
    (host : Host) (env : Env) (cfg : CoordinatorConfig) (koi : KoiDefinition) (t : KoiTodo)
    (pool : Option PoolSession) (assign : Option ℕ) (w : World) {v : World}
    → announce_claim env koi t (pool_id_of pool) assign w ≡ (ok tt, v)
    → koi_has_in_progress_todo koi.id (run_claimed host env cfg koi t pool assign true w).1.db
      ≡ false
    → all (is_released koi.id) (run_claimed host env cfg koi t pool assign true w).1.db.kois ≡ true
unfolding run_claimed
run_claimed_releases host env cfg koi t pool assign w {v} announced =
    rw announced (
      release_koi-all env.now koi.id
        (execute_todo_turn_inner host env cfg koi t pool assign v).1.db)
