-- ===== src/Store/Messages.antt =====
-- db.rs, the `pool_messages` statements.
use piscis_engine.Prelude.{
  ℕ, ◌+◌, Bool, true, ◌&&◌, Option, none, some, ◌∷◌, Text, text, text_eq, is_blank, find, map, ◌==◌,
  if◌then◌else◌,
}
use piscis_engine.Model.{PoolMessage, Metadata, EventType}
use piscis_engine.Store.{Db, Error, Result, ok, err, has_pool, has_todo, has_message, refers}
use piscis_engine.Store.Pools.{update_pool}

abbrev pub refers_message : Option ℕ → Db → Bool
refers_message none db = true
refers_message (some id) db = has_message id db

-- The insert, and the pool's `updated_at` and `last_active_at`.
unfoldable pub insert_pool_message_ext :
    ℕ
    → Text
    → Text
    → Text
    → Text
    → Metadata
    → Option Text
    → Option ℕ
    → Option EventType
    → Db
    → Result (PoolMessage × Db)
insert_pool_message_ext now pool sender content msg_type metadata todo_id reply_to event_type db =
    let m : PoolMessage = record {
      id = db.next_message_id;
      pool_session_id = pool;
      sender_id = sender;
      content = content;
      msg_type = msg_type;
      metadata = metadata;
      todo_id = todo_id;
      reply_to_message_id = reply_to;
      event_type = event_type;
      created_at = now;
    } in
    if has_pool pool db && refers has_todo todo_id db && refers_message reply_to db
    then ok (
      m,
      update_pool pool (λ p. record p { updated_at = now; last_active_at = some now })
          (record db { messages = m ∷ db.messages; next_message_id = db.next_message_id + 1 }),
    )
    else err Error.foreign_key

abbrev pub insert_pool_message :
    ℕ → Text → Text → Text → Text → Metadata → Db → Result (PoolMessage × Db)
insert_pool_message now pool sender content msg_type metadata =
    insert_pool_message_ext now pool sender content msg_type metadata none none none

unfoldable pub get_pool_message_by_id : ℕ → Db → Option PoolMessage
get_pool_message_by_id id db = find (λ m. m.id == id) db.messages

abbrev pub is_unlinked : Option Text → Bool
is_unlinked none = true
is_unlinked (some t) = is_blank t

abbrev pub message_id : Option PoolMessage → Option ℕ
message_id none = none
message_id (some m) = some m.id

-- The newest result of a sender that no todo is linked to.
unfoldable pub get_latest_unlinked_result_message_id : Text → Text → Db → Option ℕ
get_latest_unlinked_result_message_id pool sender db = message_id (
    find
      (λ m.
        text_eq m.pool_session_id pool
        && text_eq m.sender_id sender
        && text_eq m.msg_type (text "result")
        && is_unlinked m.todo_id)
      db.messages)

-- Its one caller ignores a failure, which leaves the table as it was.
unfoldable pub link_pool_message_to_todo : ℕ → Text → Db → Db
link_pool_message_to_todo message_id todo_id db =
    if has_todo todo_id db
    then record db {
      messages =
          map (λ m. if m.id == message_id then record m { todo_id = some todo_id } else m)
            db.messages;
    }
    else db
