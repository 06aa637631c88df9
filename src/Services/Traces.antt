-- ===== src/Services/Traces.antt =====
-- Sequences of service calls by several callers, and the rows that no such call changes.
use piscis_engine.Prelude.{◌≡◌, Bool, true, List, [], ◌∷◌, some, Text, arith, find_sound}
use piscis_engine.Model.{TodoStatus, KoiTodo, is_terminal, is_done, is_cancelled}
use piscis_engine.Store.{Db, Env}
use piscis_engine.Store.Rows.{has_id, find-any, all-find}
use piscis_engine.Store.Todos.{get_koi_todo}
use piscis_engine.Services.Base.{World, CallerContext}
use piscis_engine.Services.Settled.{agrees, Settled}
use piscis_engine.Services.Todos.{claim_todo, complete_todo, cancel_todo, update_todo_status}
use piscis_engine.Services.Absorb.{
  claim_todo-Keeps, complete_todo-Keeps, cancel_todo-Keeps, update_todo_status-Keeps,
}

-- The requests of the `pool_org` tool that move one todo through its states.
pub data Request : Type 0 where
  claim : Text → Request
  complete cancel : Text → Text → Request
  update : Text → TodoStatus → Request

pub record Call : Type 0 where
  pub env : Env
  pub caller : CallerContext
  pub request : Request

-- The world after a call, whatever it answers.
unfoldable pub perform : Env → CallerContext → Request → World → World
perform env caller (Request.claim id) w = (claim_todo env caller id w).1
perform env caller (Request.complete id summary) w = (complete_todo env caller id summary w).1
perform env caller (Request.cancel id reason) w = (cancel_todo env caller id reason w).1
perform env caller (Request.update id status) w = (update_todo_status env caller id status w).1

abbrev pub serve : Call → World → World
serve c = perform c.env c.caller c.request

unfoldable pub serve_all : List Call → World → World
serve_all [] w = w
serve_all (c ∷ cs) w = serve_all cs (serve c w)

module _ (st : TodoStatus → Bool) (terminal : (s : TodoStatus) → st s ≡ true → is_terminal s ≡ true)
    (id : Text) where
  perform-Settled :
      (env : Env) (caller : CallerContext) (r : Request) (w : World)
      → Settled st id w.db
      → Settled st id (perform env caller r w).db
  unfolding perform
  perform-Settled env caller (Request.claim x) = (claim_todo-Keeps st terminal id env caller x).run
  perform-Settled env caller (Request.complete x summary) =
      (complete_todo-Keeps st terminal id env caller x summary).run
  perform-Settled env caller (Request.cancel x reason) =
      (cancel_todo-Keeps st terminal id env caller x reason).run
  perform-Settled env caller (Request.update x status) =
      (update_todo_status-Keeps st terminal id env caller x status).run

  serve_all-Settled :
      (cs : List Call) (w : World) → Settled st id w.db → Settled st id (serve_all cs w).db
  unfolding serve_all
  serve_all-Settled [] w s = s
  serve_all-Settled (c ∷ cs) w s =
      serve_all-Settled cs (serve c w) (perform-Settled c.env c.caller c.request w s)

-- The row of a settled id, as `get_koi_todo` reads it.
Settled-found :
    (st : TodoStatus → Bool) (id : Text) (db : Db)
    → Settled st id db
    → (u : KoiTodo) × (get_koi_todo id db ≡ some u) × (st u.status ≡ true)
unfolding get_koi_todo
Settled-found st id db (here, all_agree) =
    let (u, e) = find-any (has_id id) db.todos here in
    (
      u,
      e,
      ground (
        arith,
        all-find (agrees st id) (has_id id) db.todos {t = u} all_agree e,
        find_sound (has_id id) db.todos {a = u} e,
      ),
    )

-- A todo that is done stays done, and can still be read, through any sequence of claim, complete,
-- cancel and status requests by any callers at any times, if there is a row of its id and every
-- such row is done at first.
pub done_absorbs :
    (id : Text) (cs : List Call) (w : World)
    → Settled is_done id w.db
    → (u : KoiTodo) × (get_koi_todo id (serve_all cs w).db ≡ some u) × (is_done u.status ≡ true)
done_absorbs id cs w s =
    Settled-found is_done id (serve_all cs w).db
      (serve_all-Settled is_done (λ s d. ground (arith, d)) id cs w s)

-- A todo that is cancelled stays cancelled, and can still be read, through any sequence of claim,
-- complete, cancel and status requests by any callers at any times, if there is a row of its id and
-- every such row is cancelled at first.
pub cancelled_absorbs :
    (id : Text) (cs : List Call) (w : World)
    → Settled is_cancelled id w.db
    → (u : KoiTodo) × (get_koi_todo id (serve_all cs w).db ≡ some u)
      × (is_cancelled u.status ≡ true)
cancelled_absorbs id cs w s =
    Settled-found is_cancelled id (serve_all cs w).db
      (serve_all-Settled is_cancelled (λ s d. ground (arith, d)) id cs w s)
