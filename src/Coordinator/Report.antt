-- ===== src/Coordinator/Report.antt =====
-- The first half of `record_turn_outcome`: what the report of a turn leaves on the board.
use piscis_engine.Prelude.{
  ℕ, ◌≡◌, refl, ap, ◌∙◌, Bool, true, false, ◌||◌, Option, none, some, Text, text, text_eq, trim,
  is_blank, find_sound, arith, if◌then◌else◌, Bool-cases, Option-cases, ◌⊎◌, inl, inr,
}
use piscis_engine.Model.{KoiTodo, KoiDefinition, MetadataBase, EventType, is_in_progress, is_done}
use piscis_engine.Store.{Db, Env, update_todo}
use piscis_engine.Store.Rows.{has_id, find-update_where}
use piscis_engine.Store.Todos.{
  get_koi_todo, complete_koi_todo, completed_row, block_koi_todo, mark_koi_todo_needs_review,
}
use piscis_engine.Store.Messages.{
  get_latest_unlinked_result_message_id, get_pool_message_by_id, link_pool_message_to_todo,
}
use piscis_engine.Services.Base.{World, ◌>>=◌, ◌>>◌, pure, plain}
use piscis_engine.Services.Ends.{Ends, bind-Ends, pure-Ends, message-Ends}
use piscis_engine.Coordinator.Outcome.{
  is_todo_board_reconciled, row_is, is_given, Reported, report_message, link_result, close_linked,
  remind, report_failure, report, settle_row, captured_output, truncate_chars, emit_found,
  link_found, reminder_text, explicit_completion,
}

-- The row of the id is in a state that needs no completion any more.
abbrev pub is_reconciled : Text → Db → Bool
is_reconciled id db = row_is is_todo_board_reconciled (get_koi_todo id db)

-- A statement that gives every row of the id such a state.
update-reconciled :
    (id : Text) (f : KoiTodo → KoiTodo) (db : Db) {u : KoiTodo}
    → ((t : KoiTodo) → (f t).id ≡ t.id)
    → ((t : KoiTodo) → is_todo_board_reconciled (f t).status ≡ true)
    → get_koi_todo id db ≡ some u
    → is_reconciled id (update_todo id f db) ≡ true
unfolding get_koi_todo
update-reconciled id f db {u} same ends found =
    rw (find-update_where (has_id id) (has_id id) f (λ t. ap (λ x. text_eq x id) (same t)) db.todos)
      (rw (found, find_sound (has_id id) db.todos {a = u} found) (ends u))

block-reconciled :
    (now : ℕ) (id reason : Text) (db : Db) {u : KoiTodo}
    → get_koi_todo id db ≡ some u
    → is_reconciled id (block_koi_todo now id reason db) ≡ true
unfolding block_koi_todo
block-reconciled now id reason db found = update-reconciled id _ db (λ t. refl) (λ t. refl) found

needs_review-reconciled :
    (now : ℕ) (id reason : Text) (db : Db) {u : KoiTodo}
    → get_koi_todo id db ≡ some u
    → is_reconciled id (mark_koi_todo_needs_review now id reason db) ≡ true
unfolding mark_koi_todo_needs_review
needs_review-reconciled now id reason db found =
    update-reconciled id _ db (λ t. refl) (λ t. refl) found

complete-reconciled :
    (now : ℕ) (id : Text) (message : Option ℕ) (db : Db) {u : KoiTodo}
    → get_koi_todo id db ≡ some u
    → is_reconciled id (complete_koi_todo now id message db) ≡ true
unfolding complete_koi_todo completed_row
complete-reconciled now id message db found =
    update-reconciled id (completed_row now message) db (λ t. refl) (λ t. refl) found

-- The safety net reaches such a state, unless a completion was recorded before.
pub settle_row-reconciled :
    (now : ℕ) (t : KoiTodo) (success test_mode explicit : Bool) (reply : Text) (message : Option ℕ)
    (db : Db) {u : KoiTodo}
    → get_koi_todo t.id db ≡ some u
    → explicit ≡ false
    → is_reconciled t.id
        (settle_row now t success test_mode (explicit || test_mode) reply message db)
      ≡ true
unfolding settle_row
settle_row-reconciled now t success test_mode explicit reply message db {u} found none_yet =
    elim (Bool-cases success) [
      | inl s ↦ elim (Bool-cases test_mode) [
        | inl m ↦ rw (s, m) (complete-reconciled now t.id message db found)
        | inr m ↦
            rw (s, m, none_yet)
              (needs_review-reconciled now t.id
                (text "Agent finished without calling complete_todo") db found)
      ]
      | inr s ↦ rw s (block-reconciled now t.id reply db found)
    ]

report_message-Ends :
    (env : Env) (pool sender content : Text) (base : MetadataBase) (todo_id : Text)
    (reply : Option ℕ) (event : EventType) (w : World)
    → Ends
        (report_message env pool sender content base todo_id reply event)
        w
        λ _ v. v.db.todos ≡ w.db.todos
unfolding report_message
report_message-Ends env pool sender content base todo_id reply event w =
    bind-Ends (λ _ v. v.db.todos ≡ w.db.todos)
      (message-Ends env.now pool sender content (text "status_update") (plain base) (some todo_id)
        reply (some event) w)
      λ m v same. record { post = λ a e. same }

link_todos : (m : ℕ) (id : Text) (db : Db) → (link_pool_message_to_todo m id db).todos ≡ db.todos
unfolding link_pool_message_to_todo
link_todos m id db = ground arith

-- What a report leaves behind: a settled row, or the todos as they were and no recorded completion.
abbrev pub Left : Text → Db → Option KoiTodo → Bool → Reported → World → Type 0
Left id db current explicit r v =
    (is_reconciled id v.db ≡ true)
    ⊎ ((v.db.todos ≡ db.todos) × (explicit ≡ false) × (r.current ≡ current))

module _ (env : Env) (pool : Text) (koi : KoiDefinition) (t : KoiTodo) (assign : Option ℕ)
    (reply : Text) where
  report_failure-Left :
      (current : Option KoiTodo) (w : World)
      → Ends (report_failure env pool koi t assign reply current) w (Left t.id w.db current false)
  unfolding report_failure
  report_failure-Left current w =
      bind-Ends (λ _ v. v.db.todos ≡ w.db.todos)
        (report_message-Ends env pool koi.id (truncate_chars reply 5000)
          (MetadataBase.turn_failed t.id) t.id assign EventType.task_failed w)
        λ m v same. pure-Ends _ (inr (same, refl, refl))

  output-Ends :
      (w : World)
      → Ends
          (if is_blank (trim (captured_output reply))
            then pure tt
            else (report_message env pool koi.id
                  (captured_output reply)
                  (MetadataBase.auto_captured t.id)
                  t.id
                  assign
                  EventType.task_progress
                >>= λ _. pure tt))
          w
          λ _ v. v.db.todos ≡ w.db.todos
  output-Ends w = elim (Bool-cases (is_blank (trim (captured_output reply)))) [
    | inl e ↦ rw e (pure-Ends tt refl)
    | inr e ↦ rw e (
        bind-Ends (λ _ v. v.db.todos ≡ w.db.todos)
          (report_message-Ends env pool koi.id (captured_output reply)
            (MetadataBase.auto_captured t.id) t.id assign EventType.task_progress w)
          λ m v same. pure-Ends tt same)
  ]

  remind-Left :
      (current : Option KoiTodo) (w : World)
      → Ends (remind env pool koi t assign reply current) w (Left t.id w.db current false)
  unfolding remind
  remind-Left current w =
      bind-Ends (λ _ v. v.db.todos ≡ w.db.todos) (output-Ends w)
        λ _ v same.
          bind-Ends (λ _ x. x.db.todos ≡ v.db.todos)
            (report_message-Ends env pool (text "system") (reminder_text koi.name t.title)
              (MetadataBase.missing_complete_todo t.id) t.id assign EventType.protocol_reminder v)
            λ m x same'. pure-Ends _ (inr (same' ∙ same, refl, refl))

  emitted-Left :
      (fresh : Option KoiTodo) (m : ℕ) (explicit : Bool) (current : Option KoiTodo) (db : Db)
      (row : Option _) (v : World)
      → is_reconciled t.id v.db ≡ true
      → Ends
          (emit_found pool row >> pure (record { current = fresh; message = some m }))
          v
          (Left t.id db current explicit)
  emitted-Left fresh m explicit current db none v h = record { post = λ a e. inl h }
  emitted-Left fresh m explicit current db (some x) v h = record { post = λ a e. inl h }

  close_linked-Left :
      (u : KoiTodo) (m : ℕ) (explicit : Bool) (db : Db) (w : World)
      → is_in_progress u.status ≡ true
      → get_koi_todo t.id w.db ≡ some u
      → Ends (close_linked env pool t (some u) (some m)) w (Left t.id db (some u) explicit)
  close_linked-Left u m explicit db w running found = rw running (record {
    post =
        (emitted-Left (get_koi_todo t.id (complete_koi_todo env.now t.id (some m) w.db)) m explicit
          (some u) db (get_pool_message_by_id m (complete_koi_todo env.now t.id (some m) w.db))
          (record w { db = complete_koi_todo env.now t.id (some m) w.db })
          (complete-reconciled env.now t.id (some m) w.db found)).post;
  })

  link_result_run :
      (current : Option KoiTodo) (w : World) {m : ℕ}
      → get_latest_unlinked_result_message_id pool koi.id w.db ≡ some m
      → link_result env pool koi t current w
        ≡ close_linked env pool t current (some m) (record w { db = link_found t.id (some m) w.db })
  unfolding link_result
  link_result_run current w e = rw e refl

  link_result-Left :
      (u : KoiTodo) (w : World)
      → is_in_progress u.status ≡ true
      → get_koi_todo t.id w.db ≡ some u
      → is_given (get_latest_unlinked_result_message_id pool koi.id w.db) ≡ true
      → Ends (link_result env pool koi t (some u)) w (Left t.id w.db (some u) true)
  unfolding get_koi_todo
  link_result-Left u w running found given =
      elim (Option-cases (get_latest_unlinked_result_message_id pool koi.id w.db)) [
        | inl e ↦ ground arith
        | inr (m, e) ↦ record {
          post =
              rw (link_result_run (some u) w e)
                (close_linked-Left u m true w.db (record w { db = link_found t.id (some m) w.db })
                  running (rw (link_todos m t.id w.db) found)).post;
        }
      ]

  -- Whether a completion was recorded before the report.
  abbrev recorded_in : Bool → Db → Bool
  recorded_in success db = explicit_completion (some pool) koi success reply db

  report-Left :
      (success : Bool) (u : KoiTodo) (w : World)
      → is_in_progress u.status ≡ true
      → get_koi_todo t.id w.db ≡ some u
      → Ends
          (report env (some pool) koi t assign success reply (recorded_in success w.db) (some u))
          w
          (Left t.id w.db (some u) (recorded_in success w.db))
  unfolding report
  report-Left success u w running found = elim (Bool-cases (recorded_in success w.db)) [
    | inl e ↦
        let s : success ≡ true = ground arith in
        let b : is_blank (trim reply) ≡ true = ground arith in
        let g : is_given (get_latest_unlinked_result_message_id pool koi.id w.db) ≡ true =
          ground arith in
        rw (s, b, g) (link_result-Left u w running found g)
    | inr e ↦ rw e (elim (Bool-cases success) [
      | inl s ↦
          let d : is_done u.status ≡ false = ground arith in
          let r : is_todo_board_reconciled u.status ≡ false = ground arith in
          elim (Bool-cases (is_blank (trim reply))) [
            | inl b ↦ rw (s, b, d, r) (remind-Left (some u) w)
            | inr b ↦ rw (s, b, d, r) (remind-Left (some u) w)
          ]
      | inr s ↦ rw s (report_failure-Left (some u) w)
    ])
  ]

pub report-outcome :
    (env : Env) (pool : Option Text) (koi : KoiDefinition) (t : KoiTodo) (assign : Option ℕ)
    (success : Bool) (reply : Text) (u : KoiTodo) (w : World)
    → is_in_progress u.status ≡ true
    → get_koi_todo t.id w.db ≡ some u
    → Ends
        (report env pool koi t assign success reply
          (explicit_completion pool koi success reply w.db)
          (some u))
        w
        (Left t.id w.db (some u) (explicit_completion pool koi success reply w.db))
unfolding report
report-outcome env none koi t assign success reply u w running found =
    pure-Ends _ (inr (refl, refl, refl))
report-outcome env (some pool) koi t assign success reply u w running found =
    report-Left env pool koi t assign reply success u w running found
