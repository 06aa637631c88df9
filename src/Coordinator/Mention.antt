-- ===== src/Coordinator/Mention.antt =====
-- coordinator.rs, `handle_mention`, `assign_and_execute` and what they use. The turns that the
-- source spawns are answered, in the order in which it spawns them.
use piscis_engine.Prelude.{
  ℕ, Bool, true, false, not, ◌&&◌, Option, none, some, List, [], ◌∷◌, ◌++◌, Text, text, text_eq,
  starts_with, trim_start, lines, byte_length, slice_from, take, keep, if◌then◌else◌,
}
use piscis_engine.Model.{KoiTodo, KoiDefinition, KoiStatus, TodoChangeAction, todo_changed, is_idle}
use piscis_engine.Store.{Error, Result, ok, err, Env}
use piscis_engine.Store.Todos.{create_koi_todo}
use piscis_engine.Store.Kois.{list_kois, resolve_koi_identifier, upsert_koi_with_id}
use piscis_engine.Services.Base.{
  World, M, ◌>>=◌, ◌>>◌, pure, try_read, try_write, require, attempt, emit, piscis,
}
use piscis_engine.Project.Signals.{is_delimited}
use piscis_engine.Coordinator.Turn.{CoordinatorConfig, ExecuteTodoArgs, KoiExecResult}
use piscis_engine.Coordinator.Execute.{Host, execute_todo_turn}
use piscis_engine.Coordinator.Recovery.{dispatch}

-- Tests that may panic, which `none` stands for.
abbrev pub delimited_rest : Option Text → Option Bool
delimited_rest none = none
delimited_rest (some rest) = some (is_delimited rest)

abbrev pub or_else_test : Option Bool → Option Bool → Option Bool
or_else_test none later = none
or_else_test (some true) later = some true
or_else_test (some false) later = later

unfoldable pub any_line : (Text → Option Bool) → List Text → Option Bool
any_line f [] = some false
any_line f (l ∷ ls) = let later = any_line f ls in or_else_test (f l) later

module _ (to_lowercase : Text → Text) where
  unfoldable pub mentions_on : Text → Text → Option Bool
  mentions_on needle line =
      if starts_with (to_lowercase (trim_start line)) (to_lowercase needle)
      then delimited_rest (slice_from (trim_start line) (byte_length needle))
      else some false

  unfoldable pub has_live_delegated_mention : Text → Text → Option Bool
  unfolding mentions_on
  has_live_delegated_mention content name =
      any_line (mentions_on (text "@!" ++ name)) (lines content)

  abbrev pub is_offline : KoiStatus → Bool
  is_offline KoiStatus.offline = true
  is_offline _ = false

  abbrev pub with_target :
      KoiDefinition → Option Bool → Option (List KoiDefinition) → Option (List KoiDefinition)
  with_target koi none later = none
  with_target koi (some false) later = later
  with_target koi (some true) none = none
  with_target koi (some true) (some ks) = some (koi ∷ ks)

  unfoldable pub targets_among : Bool → Text → List KoiDefinition → Option (List KoiDefinition)
  targets_among everyone content [] = some []
  targets_among everyone content (k ∷ ks) =
      let later = targets_among everyone content ks in
      with_target k (or_else_test (some everyone) (has_live_delegated_mention content k.name)) later

  abbrev pub targets_if : Option Bool → Text → List KoiDefinition → Option (List KoiDefinition)
  targets_if none content kois = none
  targets_if (some everyone) content kois = targets_among everyone content kois

  unfoldable pub parse_mention_targets :
      List KoiDefinition → Text → Text → Option (List KoiDefinition)
  unfolding targets_among has_live_delegated_mention
  parse_mention_targets kois sender content =
      targets_if (has_live_delegated_mention content (text "all")) content
        (keep (λ k. not (is_offline k.status) && not (text_eq k.id sender)) kois)

-- The todo of a mention, on the board and announced.
unfoldable pub mention_todo : Env → Text → Text → Text → Text → M KoiTodo
mention_todo env owner sender pool content = do
  t ← try_write (
      create_koi_todo env owner (take 120 content) content (text "medium") sender (some pool)
        (text "mention") none 0)
  emit (todo_changed pool TodoChangeAction.created t)
  pure t

-- The todo of Piscis, who is no Koi: its row is made first, and a failure to do so is passed over.
unfoldable pub mention_piscis : Env → Text → Text → Text → M (Unit {0})
unfolding mention_todo
mention_piscis env sender pool content = do
  made ← attempt (try_write (upsert_koi_with_id env.now piscis (text "Piscis")))
  t ← mention_todo env piscis sender pool content
  pure tt

-- What a fan-out ends with: the turns that it spawned, its result, where `none` is a panic, and the
-- world.
pub record FanOut : Type 0 where
  pub spawned : List ExecuteTodoArgs
  pub result : Option (Result (Unit {0}))
  pub world : World

abbrev pub spawn_for : KoiDefinition → KoiTodo → FanOut → FanOut
spawn_for k t rest =
    if is_idle k.status then record rest { spawned = dispatch k.id t.id ∷ rest.spawned } else rest

-- `?` on the todo of a target; the Kois are those that were read at the start.
abbrev pub fan_next : KoiDefinition → (World → FanOut) → Result KoiTodo × World → FanOut
fan_next k later (ok t, w) = spawn_for k t (later w)
fan_next k later (err e, w) = record { spawned = []; result = some (err e); world = w }

-- The environment is what the todo of an owner is created with.
unfoldable pub fan_out : (Text → Env) → Text → Text → Text → List KoiDefinition → World → FanOut
unfolding mention_todo
fan_out env sender pool content [] w = record { spawned = []; result = some (ok tt); world = w }
fan_out env sender pool content (k ∷ ks) w =
    fan_next k (fan_out env sender pool content ks)
      (mention_todo (env k.id) k.id sender pool content w)

abbrev pub fan_out_to :
    (Text → Env) → Text → Text → Text → Option (List KoiDefinition) → World → FanOut
fan_out_to env sender pool content none w = record { spawned = []; result = none; world = w }
fan_out_to env sender pool content (some ks) w = fan_out env sender pool content ks w

abbrev pub after_piscis : (World → FanOut) → Result (Unit {0}) × World → FanOut
after_piscis later (ok u, w) = later w
after_piscis later (err e, w) = record { spawned = []; result = some (err e); world = w }

abbrev pub for_piscis :
    (Text → Env) → Text → Text → Text → Option Bool → (World → FanOut) → World → FanOut
for_piscis env sender pool content none later w = record { spawned = []; result = none; world = w }
for_piscis env sender pool content (some false) later w = later w
for_piscis env sender pool content (some true) later w =
    after_piscis later (mention_piscis (env piscis) sender pool content w)

unfoldable pub handle_mention :
    (to_lowercase : Text → Text) → (Text → Env) → Text → Text → Text → World → FanOut
unfolding fan_out parse_mention_targets mention_piscis
handle_mention to_lowercase env sender pool content w =
    for_piscis env sender pool content
      (if text_eq sender piscis
        then some false
        else has_live_delegated_mention to_lowercase content (text "Piscis"))
      (fan_out_to env sender pool content
        (parse_mention_targets to_lowercase (list_kois w.db) sender content))
      w

-- The todo and its turn, without a pool.
unfoldable pub assign_and_execute :
    Host → Env → CoordinatorConfig → Text → Text → Text → Text → ℕ → M KoiExecResult
assign_and_execute host env cfg koi_id task assigned_by priority timeout = do
  found ← try_read (resolve_koi_identifier koi_id)
  koi ← require Error.koi_not_found found
  t ←
      try_write
        (create_koi_todo env koi.id task [] priority assigned_by none assigned_by none timeout)
  execute_todo_turn host env cfg (dispatch koi.id t.id)
