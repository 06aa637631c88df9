-- ===== src/Coordinator/Settles.antt =====
-- The end of a turn, `record_turn_outcome`: no turn leaves its todo in progress.
use piscis_engine.Prelude.{
  ℕ, ◌≡◌, Bool, true, false, not, ◌&&◌, ◌||◌, Option, none, some, Text, text, starts_with, arith,
  if◌then◌else◌, Bool-cases, Option-cases, inl, inr,
}
use piscis_engine.Model.{KoiTodo, KoiDefinition, TodoChangeAction, is_in_progress, is_done}
use piscis_engine.Store.{Db, ok, Env, has_pool, has_todo}
use piscis_engine.Store.Rows.{has_id, not-any-find}
use piscis_engine.Store.Todos.{get_koi_todo}
use piscis_engine.Store.Messages.{refers_message}
use piscis_engine.Services.Base.{World, ◌>>◌, pure}
use piscis_engine.Services.Ends.{Ends, bind-Ends}
use piscis_engine.Coordinator.Answers.{record_turn_outcome-Answers}
use piscis_engine.Coordinator.Report.{is_reconciled, Left, settle_row-reconciled, report-outcome}
use piscis_engine.Coordinator.Outcome.{
  is_todo_board_reconciled, row_is, Reported, settle_row, record_turn_outcome, explicit_completion,
  is_none, announce_outcome,
}

-- The write after the report, from what the report left.
abbrev final_db : ℕ → KoiTodo → Bool → Bool → Bool → Text → Reported → Db → Db
final_db now t success test_mode recorded reply r db =
    let current =
      if row_is is_todo_board_reconciled r.current then r.current else get_koi_todo t.id db in
    if not (row_is is_done current) && not (row_is is_todo_board_reconciled current)
    then settle_row now t success test_mode recorded reply r.message db
    else db

reconciled-present :
    (id : Text) (db : Db)
    → is_reconciled id db ≡ true
    → (u : KoiTodo) × (get_koi_todo id db ≡ some u) × (is_todo_board_reconciled u.status ≡ true)
reconciled-present id db h = elim (Option-cases (get_koi_todo id db)) [
  | inl e ↦ ground arith
  | inr (u, e) ↦ (u, e, ground arith)
]

final_db-reconciled :
    (now : ℕ) (t : KoiTodo) (success test_mode explicit : Bool) (reply : Text) (u : KoiTodo)
    (db : Db) (r : Reported) (v : World)
    → is_in_progress u.status ≡ true
    → get_koi_todo t.id db ≡ some u
    → Left t.id db (some u) explicit r v
    → is_reconciled t.id (final_db now t success test_mode (explicit || test_mode) reply r v.db)
      ≡ true
unfolding get_koi_todo
final_db-reconciled now t success test_mode explicit reply u db r v running found (inl h) =
    elim (Bool-cases (row_is is_todo_board_reconciled r.current)) [
      | inl e ↦ elim (Bool-cases (row_is is_done r.current)) [
        | inl d ↦ rw (e, d) h
        | inr d ↦ rw (e, d, e) h
      ]
      | inr e ↦
          let (x, here, ends) = reconciled-present t.id v.db h in
          elim (Bool-cases (is_done x.status)) [
            | inl d ↦ rw (e, here, d) h
            | inr d ↦ rw (e, here, d, ends) h
          ]
    ]
final_db-reconciled now t success test_mode explicit reply u db r v running found
      (inr (same, none_yet, current)) =
    let here : get_koi_todo t.id v.db ≡ some u = rw same found in
    let open_row : row_is is_todo_board_reconciled r.current ≡ false = rw current (ground arith) in
    let not_done : is_done u.status ≡ false = ground arith in
    let not_reconciled : is_todo_board_reconciled u.status ≡ false = ground arith in
    rw (open_row, here, not_done, not_reconciled)
      (settle_row-reconciled now t success test_mode explicit reply r.message v.db here none_yet)

announced-Ends :
    (pool : Option Text) (action : TodoChangeAction) (row : Option KoiTodo) (message : Option ℕ)
    (id : Text) (w : World)
    → is_reconciled id w.db ≡ true
    → Ends (announce_outcome pool action row >> pure message) w λ _ v. is_reconciled id v.db ≡ true
announced-Ends pool action none message id w h = record { post = λ a e. h }
announced-Ends pool action (some u) message id w h = record { post = λ a e. h }

outcome-Ends :
    (env : Env) (pool : Option Text) (koi : KoiDefinition) (t : KoiTodo) (assign : Option ℕ)
    (success : Bool) (reply : Text) (u : KoiTodo) (w : World)
    → is_in_progress u.status ≡ true
    → get_koi_todo t.id w.db ≡ some u
    → Ends
        (record_turn_outcome env pool koi t assign success reply)
        w
        λ _ v. is_reconciled t.id v.db ≡ true
unfolding record_turn_outcome
outcome-Ends env pool koi t assign success reply u w running found =
    let explicit = explicit_completion pool koi success reply w.db in
    let test_mode = success && is_none pool && starts_with reply (text "[TestMode]") in
    record {
      post =
          rw found
            (bind-Ends (Left t.id w.db (some u) explicit)
              {Q = λ _ v. is_reconciled t.id v.db ≡ true}
              (report-outcome env pool koi t assign success reply u w running found)
              λ r v left.
                let db =
                  final_db env.now t success test_mode (explicit || test_mode) reply r v.db in
                record {
                  post =
                      (announced-Ends pool _ (get_koi_todo t.id db) r.message t.id
                        (record v { db = db })
                        (final_db-reconciled env.now t success test_mode explicit reply u w.db r v
                          running found left)).post;
                }).post;
    }

-- Recording the outcome of a turn in a pool, on a todo that is in progress, ends with an answer and
-- with the todo done, blocked, cancelled or in need of review, whatever the agent replied and whether
-- it succeeded; the pool and the message that assigned the todo, if any, have to be there.
pub record_turn_outcome_settles :
    (env : Env) (pool : Text) (koi : KoiDefinition) (t : KoiTodo) (assign : Option ℕ)
    (success : Bool) (reply : Text) (w : World) {u : KoiTodo}
    → get_koi_todo t.id w.db ≡ some u
    → is_in_progress u.status ≡ true
    → has_pool pool w.db ≡ true
    → refers_message assign w.db ≡ true
    → ((message : Option ℕ) × ((record_turn_outcome env (some pool) koi t assign success reply w).0
          ≡ ok message))
      × (is_reconciled t.id (record_turn_outcome env (some pool) koi t assign success reply w).1.db
          ≡ true)
unfolding get_koi_todo
record_turn_outcome_settles env pool koi t assign success reply w {u} found running here known =
    let present : has_todo t.id w.db ≡ true = not-any-find (has_id t.id) w.db.todos {t = u} found in
    let (answered, _) =
      (record_turn_outcome-Answers env pool koi t assign reply success).run w
        (here, present, known) in
    (
      answered,
      (outcome-Ends env (some pool) koi t assign success reply u w running found).post answered.0
          answered.1,
    )
