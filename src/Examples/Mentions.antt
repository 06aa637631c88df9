-- ===== src/Examples/Mentions.antt =====
-- A message that delegates to a Koi and to Piscis, on a concrete board.
use piscis_engine.Prelude.{
  Bool, true, false, ◌≡◌, refl, none, some, ◌==◌, List, [], ◌∷◌, ◌++◌, All, Text, text, map,
  ascii_lower, if◌then◌else◌,
}
use piscis_engine.Store.{Env, Error, ok, err}
use piscis_engine.Services.Send.{
  SendPoolMessageArgs, send_pool_message, Git, MergeOutcome, merge_branches,
}
use piscis_engine.Coordinator.Turn.{ExecuteTodoArgs}
use piscis_engine.Store.Todos.{get_koi_todo}
use piscis_engine.Services.Base.{World}
use piscis_engine.Coordinator.Mention.{
  FanOut, handle_mention, has_live_delegated_mention, parse_mention_targets,
}
use piscis_engine.Coordinator.Delegating.{IsDelegated, handle_mention_delegates}
use piscis_engine.Coordinator.Recovery.{dispatch}
use piscis_engine.Examples.Board.{world, env, main_agent, open_todo}

abbrev before : World
before = world (open_todo ∷ [])

-- Each owner's todo has an id of its own.
abbrev env_of : Text → Env
env_of owner = record env { new_id = text "m-" ++ owner }

abbrev message : Text
message = text "The draft is ready.\n  @!ADA: build it\n@!piscis, watch"

abbrev outcome : FanOut
outcome = handle_mention (map ascii_lower) env_of (text "user") (text "p1") message before

handle_mention_delegates_example :
    (get_koi_todo (text "t1") outcome.world.db ≡ some open_todo)
    × All (IsDelegated (text "p1") outcome.world.db) outcome.spawned
unfolding get_koi_todo piscis_engine.Prelude.text_eq
handle_mention_delegates_example =
    handle_mention_delegates (map ascii_lower) env_of (text "user") (text "p1") message before
      (text "t1") open_todo refl

started :
    (outcome.result ≡ some (ok tt)) × (outcome.spawned ≡ dispatch (text "k1") (text "m-k1") ∷ [])
unfolding handle_mention piscis_engine.Prelude.text_eq piscis_engine.Coordinator.Mention.any_line
    piscis_engine.Prelude.lines piscis_engine.Prelude.starts_with piscis_engine.Prelude.trim_start
    ascii_lower piscis_engine.Prelude.slice_from piscis_engine.Prelude.byte_length
    piscis_engine.Project.Signals.is_delimited piscis_engine.Store.Kois.upsert_koi_with_id
    piscis_engine.Prelude.trim piscis_engine.Store.Todos.create_koi_todo
started = (refl, refl)

-- The Kelvin sign is three bytes and its lower case is `k`.
abbrev lower : Text → Text
lower = map λ c. if c == 0x212a then 0x6b else ascii_lower c

slice_panics :
    has_live_delegated_mention lower (text "@!" ++ 0x212a ∷ text " hello") (text "k") ≡ none
unfolding has_live_delegated_mention piscis_engine.Coordinator.Mention.any_line
    piscis_engine.Prelude.lines piscis_engine.Prelude.starts_with piscis_engine.Prelude.trim_start
    ascii_lower piscis_engine.Prelude.slice_from piscis_engine.Prelude.byte_length
slice_panics = refl

-- The same message by the service, with a runtime and without one.
abbrev sent : SendPoolMessageArgs
sent = record {
  pool_id = text "p1";
  sender_id = text "user";
  content = text " @!Ada build it ";
  reply_to_message_id = none;
}

abbrev spawned_by : Bool → List ExecuteTodoArgs
spawned_by runtime = (send_pool_message env_of env runtime main_agent sent before).spawned

send_spawns : (spawned_by true ≡ dispatch (text "k1") (text "m-k1") ∷ []) × (spawned_by false ≡ [])
unfolding send_pool_message piscis_engine.Services.Base.resolve_pool piscis_engine.Prelude.trim
    piscis_engine.Prelude.text_eq piscis_engine.Store.Pools.resolve_pool_session_identifier
    piscis_engine.Store.Pools.hydrate_members piscis_engine.Store.Messages.insert_pool_message_ext
    handle_mention piscis_engine.Coordinator.Mention.any_line piscis_engine.Prelude.lines
    piscis_engine.Prelude.starts_with piscis_engine.Prelude.slice_from
    piscis_engine.Prelude.byte_length piscis_engine.Project.Signals.is_delimited
    piscis_engine.Store.Todos.create_koi_todo
send_spawns = (refl, refl)

abbrev git : Git
git = record {
  is_repo = λ dir. true;
  merge_koi_branches = λ dir branch. ok ((text "koi/Ada-t4", MergeOutcome.merged) ∷ []);
}

merge_without_directory :
    (merge_branches git env main_agent (record { pool_id = text "p1"; branch = none }) before).0
    ≡ err Error.no_project_dir
unfolding merge_branches piscis_engine.Services.Base.resolve_pool piscis_engine.Prelude.trim
    piscis_engine.Prelude.text_eq piscis_engine.Store.Pools.resolve_pool_session_identifier
    piscis_engine.Store.Pools.hydrate_members
merge_without_directory = refl
