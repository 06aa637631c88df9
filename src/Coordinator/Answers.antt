-- ===== src/Coordinator/Answers.antt =====
-- The end of a turn never fails on a board whose references hold.
use piscis_engine.Prelude.{
  ℕ, refl, Bool, true, false, not, ◌&&◌, ◌||◌, Option, none, some, Text, text, trim, is_blank,
  starts_with, if◌then◌else◌, Bool-cases, inl, inr,
}
use piscis_engine.Model.{
  KoiTodo, PoolMessage, KoiDefinition, MetadataBase, EventType, TodoChangeAction, is_in_progress,
  is_done,
}
use piscis_engine.Store.{Db, Env}
use piscis_engine.Store.Todos.{get_koi_todo, complete_koi_todo, completed_row}
use piscis_engine.Store.Messages.{get_latest_unlinked_result_message_id, get_pool_message_by_id}
use piscis_engine.Services.Base.{◌>>=◌, ◌>>◌, pure, plain}
use piscis_engine.Coordinator.Referable.{
  Answers, bind-Answers, Referable, insert-Answers, update-Referable, settle_row-Referable,
  link-Referable,
}
use piscis_engine.Coordinator.Outcome.{
  is_todo_board_reconciled, row_is, Reported, report_message, link_result, close_linked, remind,
  report_failure, report, settle_row, record_turn_outcome, captured_output, truncate_chars,
  emit_found, link_found, reminder_text, explicit_completion, is_none, outcome_action,
  announce_outcome,
}

-- The report in the turn's own pool.
module _ (env : Env) (pool : Text) (koi : KoiDefinition) (t : KoiTodo) (assign : Option ℕ)
    (reply : Text) where
  abbrev Ready : Db → Type 0
  Ready db = Referable pool t.id assign db

  report_message-Answers :
      (sender content : Text) (base : MetadataBase) (event : EventType)
      → Answers Ready (report_message env pool sender content base t.id assign event)
  unfolding report_message
  report_message-Answers sender content base event =
      bind-Answers Ready
        (insert-Answers pool t.id assign env.now sender content (text "status_update") (plain base)
          event)
        λ m. record { run = λ w r. ((_, refl), r) }

  report_failure-Answers :
      (current : Option KoiTodo)
      → Answers Ready (report_failure env pool koi t assign reply current)
  unfolding report_failure
  report_failure-Answers current =
      bind-Answers Ready
        (report_message-Answers koi.id (truncate_chars reply 5000) (MetadataBase.turn_failed t.id)
          EventType.task_failed)
        λ m. record { run = λ w r. ((_, refl), r) }

  output-Answers : Answers Ready (
      if is_blank (trim (captured_output reply))
      then pure tt
      else (report_message env pool koi.id
            (captured_output reply)
            (MetadataBase.auto_captured t.id)
            t.id
            assign
            EventType.task_progress
          >>= λ _. pure tt))
  output-Answers = elim (Bool-cases (is_blank (trim (captured_output reply)))) [
    | inl e ↦ rw e (record { run = λ w r. ((tt, refl), r) })
    | inr e ↦ rw e (
        bind-Answers Ready
          (report_message-Answers koi.id (captured_output reply) (MetadataBase.auto_captured t.id)
            EventType.task_progress)
          λ m. record { run = λ w r. ((tt, refl), r) })
  ]

  remind-Answers :
      (current : Option KoiTodo) → Answers Ready (remind env pool koi t assign reply current)
  unfolding remind
  remind-Answers current = bind-Answers Ready output-Answers λ _.
      bind-Answers Ready
        (report_message-Answers (text "system") (reminder_text koi.name t.title)
          (MetadataBase.missing_complete_todo t.id) EventType.protocol_reminder)
        λ m. record { run = λ w r. ((_, refl), r) }

  emitted-Answers :
      (fresh : Option KoiTodo) (m : ℕ) (row : Option PoolMessage)
      → Answers Ready {A = Reported}
          (emit_found pool row >> pure (record { current = fresh; message = some m }))
  emitted-Answers fresh m none = record { run = λ w r. ((_, refl), r) }
  emitted-Answers fresh m (some x) = record { run = λ w r. ((_, refl), r) }

  complete_if-Ready :
      (b : Bool) (m : ℕ) (db : Db)
      → Ready db
      → Ready (if b then complete_koi_todo env.now t.id (some m) db else db)
  unfolding complete_koi_todo completed_row
  complete_if-Ready true m db r =
      update-Referable pool t.id assign t.id (completed_row env.now (some m)) db (λ u. refl) r
  complete_if-Ready false m db r = r

  close_linked-Answers :
      (current : Option KoiTodo) (m : Option ℕ) → Answers Ready (close_linked env pool t current m)
  close_linked-Answers current none = record { run = λ w r. ((_, refl), r) }
  close_linked-Answers current (some m) = record {
    run = λ w r.
        let db =
          if row_is is_in_progress current
          then complete_koi_todo env.now t.id (some m) w.db
          else w.db in
        (emitted-Answers (if row_is is_in_progress current then get_koi_todo t.id db else current) m
            (get_pool_message_by_id m db)).run
          (record w { db = db }) (complete_if-Ready (row_is is_in_progress current) m w.db r);
  }

  link_found-Ready : (m : Option ℕ) (db : Db) → Ready db → Ready (link_found t.id m db)
  link_found-Ready none db r = r
  link_found-Ready (some m) db r = link-Referable pool t.id assign m t.id db r

  link_result-Answers :
      (current : Option KoiTodo) → Answers Ready (link_result env pool koi t current)
  unfolding link_result
  link_result-Answers current = record {
    run = λ w r.
        let found = get_latest_unlinked_result_message_id pool koi.id w.db in
        (close_linked-Answers current found).run (record w { db = link_found t.id found w.db })
          (link_found-Ready found w.db r);
  }

  report-Answers :
      (success explicit : Bool) (current : Option KoiTodo)
      → Answers Ready (report env (some pool) koi t assign success reply explicit current)
  unfolding report
  report-Answers success explicit current =
      elim (Bool-cases (success && is_blank (trim reply) && explicit)) [
        | inl e ↦ rw e (link_result-Answers current)
        | inr e ↦ elim (Bool-cases success) [
          | inr s ↦ rw e (rw s (report_failure-Answers current))
          | inl s ↦
              elim (Bool-cases (
                not (row_is is_done current)
                && not explicit
                && not (row_is is_todo_board_reconciled current))) [
                  | inl q ↦ rw e (rw s (rw q (remind-Answers current)))
                  | inr q ↦ rw e (rw s (rw q (record { run = λ w r. ((_, refl), r) })))
                ]
        ]
      ]

  -- The steps after the report.
  announced-Answers :
      (action : TodoChangeAction) (row : Option KoiTodo) (message : Option ℕ)
      → Answers Ready (announce_outcome (some pool) action row >> pure message)
  announced-Answers action none message = record { run = λ w r. ((_, refl), r) }
  announced-Answers action (some u) message = record { run = λ w r. ((_, refl), r) }

  settled_if-Ready :
      (b success test_mode recorded : Bool) (m : Option ℕ) (db : Db)
      → Ready db
      → Ready (if b then settle_row env.now t success test_mode recorded reply m db else db)
  settled_if-Ready true success test_mode recorded m db r =
      settle_row-Referable pool t.id assign env.now t success test_mode recorded reply m db r
  settled_if-Ready false success test_mode recorded m db r = r

  -- `record_turn_outcome` succeeds in a pool that is there, for a todo that is there, in answer to
  -- a message that is there, if any.
  pub record_turn_outcome-Answers :
      (success : Bool)
      → Answers Ready (record_turn_outcome env (some pool) koi t assign success reply)
  unfolding record_turn_outcome
  record_turn_outcome-Answers success = record {
    run = λ w r.
        let explicit = explicit_completion (some pool) koi success reply w.db in
        let test_mode = success && is_none (some pool) && starts_with reply (text "[TestMode]") in
        (bind-Answers Ready (report-Answers success explicit (get_koi_todo t.id w.db)) λ reported.
            record {
              run = λ v q.
                  let current =
                    if row_is is_todo_board_reconciled reported.current
                    then reported.current
                    else get_koi_todo t.id v.db in
                  let unsettled =
                    not (row_is is_done current) && not (row_is is_todo_board_reconciled current) in
                  let db =
                    if unsettled
                    then settle_row env.now t success test_mode (explicit || test_mode) reply
                        reported.message v.db
                    else v.db in
                  (announced-Answers
                      (outcome_action (row_is is_done current) (explicit || test_mode) success
                        current)
                      (get_koi_todo t.id db) reported.message).run
                    (record v { db = db })
                    (settled_if-Ready unsettled success test_mode (explicit || test_mode)
                      reported.message v.db q);
            }).run
          w r;
  }
