-- ===== src/Services/Statements.antt =====
-- The statements of the store that services make, and the rows of a settled id.
use piscis_engine.Prelude.{ℕ, ◌≡◌, refl, Bool, false, Option, Text, text_eq, arith}
use piscis_engine.Model.{KoiTodo, TodoStatus, KoiStatus, TodoChangeAction}
use piscis_engine.Store.{Db, ok}
use piscis_engine.Store.Todos.{complete_koi_todo, cancel_koi_todo, update_koi_todo, completed_row}
use piscis_engine.Store.Claims.{try_claim_koi_todo, is_claimable, claimed_row}
use piscis_engine.Store.Rows.{text_eq-trans_false}
use piscis_engine.Store.Kois.{update_koi_status}
use piscis_engine.Services.Base.{◌>>=◌, ◌>>◌, pure, emit_todo, refreshed}
use piscis_engine.Services.Keeps.{Keeps}
use piscis_engine.Services.Settled.{Settled, change-Settled, update-Settled}

module _ (st : TodoStatus → Bool) (id : Text) where
  pub update_koi_todo-Settled :
      (now : ℕ) (other : Text) (title description : Option Text) (status : Option TodoStatus)
      (priority : Option Text)
      → text_eq other id ≡ false
      → (db : Db) → Settled st id db
      → Settled st id (update_koi_todo now other title description status priority db)
  unfolding update_koi_todo
  update_koi_todo-Settled now other title description status priority =
      update-Settled st id other _ (λ _. refl)

  pub cancel_koi_todo-Settled :
      (now : ℕ) (other reason : Text)
      → text_eq other id ≡ false
      → (db : Db) → Settled st id db
      → Settled st id (cancel_koi_todo now other reason db)
  unfolding cancel_koi_todo
  cancel_koi_todo-Settled now other reason = update-Settled st id other _ (λ _. refl)

  pub complete_koi_todo-Settled :
      (now : ℕ) (other : Text) (message : Option ℕ)
      → text_eq other id ≡ false
      → (db : Db) → Settled st id db
      → Settled st id (complete_koi_todo now other message db)
  unfolding complete_koi_todo
  complete_koi_todo-Settled now other message =
      update-Settled st id other (completed_row now message) (λ _. refl)

  pub update_koi_status-Settled :
      (now : ℕ) (koi : Text) (status : KoiStatus) (db : Db)
      → Settled st id db
      → Settled st id (update_koi_status now koi status db)
  unfolding update_koi_status
  update_koi_status-Settled now koi status db s = s

  -- The last steps of an operation: the row is read again and announced.
  pub announce-Keeps :
      {A : Type 0} (t : KoiTodo) (action : KoiTodo → TodoChangeAction) (answer : KoiTodo → A)
      → Keeps
          (Settled st id)
          (refreshed t >>= λ u. emit_todo u.pool_session_id (action u) u >> pure (answer u))
  announce-Keeps t action answer = record { run = λ w s. s }

  pub try_claim_koi_todo-Settled :
      (now : ℕ) (other by : Text)
      → text_eq other id ≡ false
      → (db : Db) (a : Bool) (db' : Db) → try_claim_koi_todo now other by db ≡ ok (a, db')
      → Settled st id db
      → Settled st id db'
  unfolding try_claim_koi_todo
  try_claim_koi_todo-Settled now other by differs db a db' done s = ground (
    arith,
    change-Settled st id (is_claimable other) (claimed_row now by) (λ _. refl)
        (λ t here. text_eq-trans_false t.id other id (ground arith) differs) db s,
  )
