-- ===== src/Services/Messages.antt =====
-- The texts that the services write into the pool's messages.
use piscis_engine.Prelude.{◌++◌, Text, text}
use piscis_engine.Model.{TodoStatus, PoolStatus}

unfoldable pub claimed_text : Text → Text
claimed_text title = text "接受了任务: " ++ title

unfoldable pub cancelled_text : Text → Text → Text
cancelled_text title reason = text "[Task Cancelled] \"" ++ (title ++ (text "\" — " ++ reason))

-- The word of a status in a message.
unfoldable pub status_word : TodoStatus → Text
status_word TodoStatus.todo = text "todo"
status_word TodoStatus.in_progress = text "in_progress"
status_word TodoStatus.blocked = text "blocked"
status_word TodoStatus.needs_review = text "needs_review"
status_word TodoStatus.done = text "done"
status_word TodoStatus.cancelled = text "cancelled"
status_word (TodoStatus.other t) = t

unfoldable pub task_status_text : Text → TodoStatus → Text
unfolding status_word
task_status_text title status =
    text "[Task Status] '" ++ (title ++ (text "' is now " ++ (status_word status ++ text ".")))

unfoldable pub pool_status_word : PoolStatus → Text
pool_status_word PoolStatus.active = text "active"
pool_status_word PoolStatus.paused = text "paused"
pool_status_word PoolStatus.archived = text "archived"
pool_status_word (PoolStatus.other t) = t

unfoldable pub pool_status_text : PoolStatus → PoolStatus → Text
unfolding pool_status_word
pool_status_text old new =
    text "项目状态变更: " ++ (pool_status_word old ++ (text " → " ++ pool_status_word new))
