-- ===== src/Services/Send.antt =====
-- services.rs, a message to a pool with the fan-out that it causes, the merge of branches, and the
-- list of a pool's todos.
use piscis_engine.Prelude.{
  ℕ, Bool, not, ◌&&◌, Option, none, some, List, [], ◌∷◌, Text, text, trim, trimmed, is_blank,
  is_some_text, any, keep, map, ◌==◌, if◌then◌else◌,
}
use piscis_engine.Model.{KoiTodo, PoolMessage, KoiStatus, MetadataBase, is_active}
use piscis_engine.Integration.{integration_merged, integration_conflict}
use piscis_engine.Store.{Db, Error, Result, ok, err, Env}
use piscis_engine.Store.Todos.{list_koi_todos, set_koi_todo_integration_status_by_branch}
use piscis_engine.Store.Kois.{list_kois}
use piscis_engine.Store.Messages.{insert_pool_message_ext}
use piscis_engine.Services.Base.{
  World, M, ◌>>=◌, ◌>>◌, pure, ensure, read, write, try_write, require, emit_message, plain,
  CallerContext, resolve_pool,
}
use piscis_engine.Project.Signals.{
  enrich_pool_message_metadata, coordination_event_type_for_content,
}
use piscis_engine.Coordinator.Turn.{ExecuteTodoArgs}
use piscis_engine.Coordinator.Mention.{handle_mention}

pub record SendPoolMessageArgs : Type 0 where
  pub pool_id : Text
  pub sender_id : Text
  pub content : Text
  pub reply_to_message_id : Option ℕ

-- The message of a call, up to its announcement.
unfoldable pub post_text : Env → CallerContext → SendPoolMessageArgs → M PoolMessage
post_text env caller args = do
  session ← resolve_pool caller args.pool_id
  ensure (is_active session.status) Error.pool_not_active
  ensure (not (is_blank (trim args.content))) (Error.field_required (text "content"))
  m ← try_write (
      insert_pool_message_ext env.now session.id args.sender_id (trim args.content) (text "text")
        (enrich_pool_message_metadata env.to_lowercase (plain MetadataBase.empty)
          (trim args.content))
        none args.reply_to_message_id
        (coordination_event_type_for_content env.to_lowercase (trim args.content)))
  emit_message m
  pure m

-- What a call ends with: the turns that it spawned, its result, where `none` is a panic, and the
-- world.
pub record Sent : Type 0 where
  pub spawned : List ExecuteTodoArgs
  pub result : Option (Result PoolMessage)
  pub world : World

-- An error of the fan-out is logged; a panic is not caught.
abbrev pub sent_after : PoolMessage → Option (Result (Unit {0})) → Option (Result PoolMessage)
sent_after m none = none
sent_after m (some r) = some (ok m)

abbrev pub has_at : Text → Bool
has_at content = any (λ c. c == b'@') content

-- Without a runtime for subagents there is no fan-out.
unfoldable pub fan_message : (Text → Env) → Env → Bool → Result PoolMessage × World → Sent
fan_message env_of env runtime (err e, w) = record {
  spawned = [];
  result = some (err e);
  world = w;
}
fan_message env_of env runtime (ok m, w) =
    let r = handle_mention env.to_lowercase env_of m.sender_id m.pool_session_id m.content w in
    if has_at m.content && runtime
    then record { spawned = r.spawned; result = sent_after m r.result; world = r.world }
    else record { spawned = []; result = some (ok m); world = w }

unfoldable pub send_pool_message :
    (Text → Env) → Env → Bool → CallerContext → SendPoolMessageArgs → World → Sent
unfolding post_text fan_message
send_pool_message env_of env runtime caller args w =
    fan_message env_of env runtime (post_text env caller args w)

-- git.rs.
pub data MergeOutcome : Type 0 where
  merged : MergeOutcome
  conflict : Text → MergeOutcome
  error : Text → MergeOutcome

pub record MergeBranchesArgs : Type 0 where
  pub pool_id : Text
  pub branch : Option Text

-- What git answers: whether the directory holds a repository, and the outcome of each branch.
pub record Git : Type 0 where
  pub is_repo : Text → Bool
  pub merge_koi_branches : Text → Option Text → Result (List (Text × MergeOutcome))

unfoldable pub merge_status : MergeOutcome → Text
merge_status MergeOutcome.merged = integration_merged
merge_status (MergeOutcome.conflict message) = integration_conflict
merge_status (MergeOutcome.error message) = integration_conflict

unfoldable pub record_merges : ℕ → Text → List (Text × MergeOutcome) → Db → Db
unfolding merge_status
record_merges now pool [] db = db
record_merges now pool ((branch, outcome) ∷ rs) db =
    record_merges now pool rs
      (set_koi_todo_integration_status_by_branch now pool branch (merge_status outcome) db)

abbrev pub merge_results : Git → Text → Option Text → M (List (Text × MergeOutcome))
merge_results git dir branch w = (git.merge_koi_branches dir branch, w)

-- The answer: the pool, and the outcome of each branch.
unfoldable pub merge_branches :
    Git → Env → CallerContext → MergeBranchesArgs → M (Text × List (Text × MergeOutcome))
unfolding record_merges
merge_branches git env caller args = do
  session ← resolve_pool caller args.pool_id
  dir ← require Error.no_project_dir session.project_dir
  ensure (git.is_repo dir) (Error.git_failed dir)
  results ← merge_results git dir (trimmed args.branch)
  write (record_merges env.now session.id results)
  pure (session.id, results)

-- The pool's todos, and the status of each Koi.
unfoldable pub pool_todos : Text → Db → List KoiTodo × List (Text × KoiStatus)
pool_todos id db = (
  keep (λ t. is_some_text t.pool_session_id id) (list_koi_todos none db),
  map (λ k. (k.id, k.status)) (list_kois db),
)

unfoldable pub get_pool_todos :
    CallerContext → Text → M (Text × List KoiTodo × List (Text × KoiStatus))
unfolding pool_todos
get_pool_todos caller hint = do
  session ← resolve_pool caller hint
  board ← read (pool_todos session.id)
  pure (session.id, board.0, board.1)
