-- ===== src/Coordinator/Outcome.antt =====
-- coordinator.rs, `record_turn_outcome`: what a finished turn leaves on the board.
use piscis_engine.Prelude.{
  ℕ, Bool, true, false, not, ◌&&◌, ◌||◌, Option, none, some, ◌++◌, Text, text, starts_with, trim,
  is_blank, take, length, ltb, if◌then◌else◌,
}
use piscis_engine.Model.{
  KoiTodo, TodoStatus, KoiDefinition, PoolMessage, TodoChangeAction, EventType, MetadataBase,
  is_done, is_blocked, is_in_progress, todo_changed, message_appended,
}
use piscis_engine.Store.{Db, Env}
use piscis_engine.Store.Todos.{
  get_koi_todo, complete_koi_todo, block_koi_todo, mark_koi_todo_needs_review,
}
use piscis_engine.Store.Messages.{
  insert_pool_message_ext, get_pool_message_by_id, get_latest_unlinked_result_message_id,
  link_pool_message_to_todo,
}
use piscis_engine.Services.Base.{
  M, ◌>>=◌, ◌>>◌, pure, read, write, try_write, emit, or_empty, plain,
}

-- Board states that need no `complete_todo` any more.
abbrev pub is_todo_board_reconciled : TodoStatus → Bool
is_todo_board_reconciled TodoStatus.done = true
is_todo_board_reconciled TodoStatus.blocked = true
is_todo_board_reconciled TodoStatus.cancelled = true
is_todo_board_reconciled TodoStatus.needs_review = true
is_todo_board_reconciled _ = false

-- `current.as_ref().map(…).unwrap_or(false)`.
abbrev pub row_is : (TodoStatus → Bool) → Option KoiTodo → Bool
row_is p none = false
row_is p (some t) = p t.status

abbrev pub is_given : Option ℕ → Bool
is_given none = false
is_given (some n) = true

abbrev pub truncate_chars : Text → ℕ → Text
truncate_chars s n = take n s

-- The text that is kept of a reply with no `complete_todo`.
abbrev pub captured_output : Text → Text
captured_output reply = if ltb 5000 (length reply) then take 5000 reply ++ text "..." else reply

unfoldable pub reminder_text : Text → Text → Text
reminder_text koi title =
    text "[ProtocolReminder] "
    ++ (koi
        ++ (text " finished executing on '"
            ++ (title
                ++ text
                    "' without calling complete_todo. The task output has been captured above. Todo status set to needs_review.")))

abbrev pub emit_found : Text → Option PoolMessage → M (Unit {0})
emit_found pool none = pure tt
emit_found pool (some m) = emit (message_appended pool m)

-- What the message step hands on: the row as last read, and the message's id.
pub record Reported : Type 0 where
  pub current : Option KoiTodo
  pub message : Option ℕ

-- `insert_ext_message`, and the event for it.
unfoldable pub report_message :
    Env → Text → Text → Text → MetadataBase → Text → Option ℕ → EventType → M ℕ
report_message env pool sender content base todo_id reply_to event = do
  m ← try_write (
      insert_pool_message_ext env.now pool sender content (text "status_update") (plain base)
        (some todo_id) reply_to (some event))
  emit (message_appended pool m)
  pure m.id

abbrev pub link_found : Text → Option ℕ → Db → Db
link_found todo_id none db = db
link_found todo_id (some m) db = link_pool_message_to_todo m todo_id db

-- The Koi posted its result and did not call `complete_todo`.
abbrev pub close_linked : Env → Text → KoiTodo → Option KoiTodo → Option ℕ → M Reported
close_linked env pool t current none = pure (record { current = current; message = none })
close_linked env pool t current (some m) = do
  write (λ db.
      if row_is is_in_progress current then complete_koi_todo env.now t.id (some m) db else db)
  fresh ← read (λ db. if row_is is_in_progress current then get_koi_todo t.id db else current)
  row ← read (get_pool_message_by_id m)
  emit_found pool row
  pure (record { current = fresh; message = some m })

unfoldable pub link_result : Env → Text → KoiDefinition → KoiTodo → Option KoiTodo → M Reported
link_result env pool koi t current = do
  existing ← read (get_latest_unlinked_result_message_id pool koi.id)
  write (link_found t.id existing)
  close_linked env pool t current existing

unfoldable pub remind :
    Env → Text → KoiDefinition → KoiTodo → Option ℕ → Text → Option KoiTodo → M Reported
unfolding report_message
remind env pool koi t assign reply current = do
  (if is_blank (trim (captured_output reply))
      then pure tt
      else (report_message env pool koi.id (captured_output reply) (MetadataBase.auto_captured t.id)
            t.id assign EventType.task_progress
          >>= λ _. pure tt))
  m ←
      report_message env pool (text "system") (reminder_text koi.name t.title)
        (MetadataBase.missing_complete_todo t.id) t.id assign EventType.protocol_reminder
  pure (record { current = current; message = some m })

unfoldable pub report_failure :
    Env → Text → KoiDefinition → KoiTodo → Option ℕ → Text → Option KoiTodo → M Reported
unfolding report_message
report_failure env pool koi t assign reply current = do
  m ←
      report_message env pool koi.id (truncate_chars reply 5000) (MetadataBase.turn_failed t.id)
        t.id assign EventType.task_failed
  pure (record { current = current; message = some m })

-- The four ways to report a turn in its pool.
unfoldable pub report :
    Env
    → Option Text
    → KoiDefinition
    → KoiTodo
    → Option ℕ
    → Bool
    → Text
    → Bool
    → Option KoiTodo
    → M Reported
unfolding link_result report_failure remind
report env none koi t assign success reply explicit current =
    pure (record { current = current; message = none })
report env (some pool) koi t assign success reply explicit current =
    if success && is_blank (trim reply) && explicit
    then link_result env pool koi t current
    else if not success
    then report_failure env pool koi t assign reply current
    else if not (row_is is_done current)
        && not explicit
        && not (row_is is_todo_board_reconciled current)
    then remind env pool koi t assign reply current
    else pure (record { current = current; message = none })

-- The safety net: what is written when the board is not reconciled.
unfoldable pub settle_row : ℕ → KoiTodo → Bool → Bool → Bool → Text → Option ℕ → Db → Db
settle_row now t success test_mode recorded reply message db =
    if not success
    then block_koi_todo now t.id reply db
    else if test_mode
    then complete_koi_todo now t.id message db
    else if not recorded
    then mark_koi_todo_needs_review now t.id (text "Agent finished without calling complete_todo")
        db
    else db

abbrev pub explicit_completion : Option Text → KoiDefinition → Bool → Text → Db → Bool
explicit_completion none koi success reply db = false
explicit_completion (some pool) koi success reply db =
    success
    && is_blank (trim reply)
    && is_given (get_latest_unlinked_result_message_id pool koi.id db)

abbrev pub is_none : Option Text → Bool
is_none none = true
is_none (some t) = false

abbrev pub outcome_action : Bool → Bool → Bool → Option KoiTodo → TodoChangeAction
outcome_action already_done recorded success current =
    if already_done || recorded
    then TodoChangeAction.completed
    else if not success || row_is is_blocked current
    then TodoChangeAction.blocked
    else TodoChangeAction.updated

abbrev pub announce_outcome : Option Text → TodoChangeAction → Option KoiTodo → M (Unit {0})
announce_outcome pool action none = pure tt
announce_outcome pool action (some t) = emit (todo_changed (or_empty pool) action t)

unfoldable pub record_turn_outcome :
    Env → Option Text → KoiDefinition → KoiTodo → Option ℕ → Bool → Text → M (Option ℕ)
unfolding report settle_row
record_turn_outcome env pool koi t assign success reply = do
  first ← read (get_koi_todo t.id)
  explicit ← read (explicit_completion pool koi success reply)
  let test_mode = success && is_none pool && starts_with reply (text "[TestMode]")
  let recorded = explicit || test_mode
  reported ← report env pool koi t assign success reply explicit first
  current ← read (λ db.
      if row_is is_todo_board_reconciled reported.current
      then reported.current
      else get_koi_todo t.id db)
  write (λ db.
      if not (row_is is_done current) && not (row_is is_todo_board_reconciled current)
      then settle_row env.now t success test_mode recorded reply reported.message db
      else db)
  row ← read (get_koi_todo t.id)
  announce_outcome pool (outcome_action (row_is is_done current) recorded success current) row
  pure reported.message
