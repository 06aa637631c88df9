-- ===== src/Coordinator/Delegating.antt =====
-- `handle_mention` of coordinator.rs: the turns that it starts, and what it leaves as it was.
use piscis_engine.Prelude.{
  All, if◌then◌else◌, ℕ, ◌≡◌, refl, Bool, true, false, Option, none, some, List, [], ◌∷◌, Text,
  text, text_eq, text_eq_sound, text_eq_refl, take, arith, Bool-cases, inl, inr,
}
use piscis_engine.Model.{
  KoiTodo, KoiDefinition, TodoStatus, TodoChangeAction, todo_changed, is_idle,
}
use piscis_engine.Store.{Db, Env, Result, ok, err, has_todo}
use piscis_engine.Store.Rows.{not-any-find}
use piscis_engine.Store.Todos.{create_koi_todo, get_koi_todo, new_todo, insert_todo, with_row}
use piscis_engine.Store.Kois.{upsert_koi_with_id, normalize_koi_name, insert_or_ignore, list_kois}
use piscis_engine.Services.Base.{World, M, written, after, ◌>>=◌, ◌>>◌, pure, caught, emit, piscis}
use piscis_engine.Coordinator.Turn.{ExecuteTodoArgs}
use piscis_engine.Coordinator.Mention.{
  FanOut, spawn_for, fan_next, fan_out, fan_out_to, after_piscis, for_piscis, mention_todo,
  mention_piscis, handle_mention, has_live_delegated_mention, parse_mention_targets,
}

-- Every todo that was on the board is there, as it was.
IsKept : Db → Db → Type 0
IsKept before now =
    (id : Text) (t : KoiTodo) → get_koi_todo id before ≡ some t → get_koi_todo id now ≡ some t

-- The todo that a turn is for: on the board, open and unclaimed, in the pool, and its Koi's.
pub record IsDelegated (pool : Text) (db : Db) (args : ExecuteTodoArgs) : Type 0 where
  pub todo : KoiTodo
  pub found : get_koi_todo args.todo_id db ≡ some todo
  pub owned : todo.owner_id ≡ args.koi_id
  pub pooled : todo.pool_session_id ≡ some pool
  pub to_do : todo.status ≡ TodoStatus.todo
  pub unclaimed : todo.claimed_by ≡ none

record FansOut (pool : Text) (before : Db) (r : FanOut) : Type 0 where
  kept : IsKept before r.world.db
  delegated : All (IsDelegated pool r.world.db) r.spawned

insert_kept : (t : KoiTodo) (db : Db) {db' : Db} → insert_todo t db ≡ ok db' → IsKept db db'
unfolding IsKept insert_todo get_koi_todo
insert_kept t db {db'} h id s found = elim (Bool-cases (text_eq t.id id)) [
  | inl e ↦
      let there = not-any-find (λ x. text_eq x.id id) db.todos found in
      let same : t.id ≡ id = text_eq_sound t.id id e in
      let here : has_todo t.id db ≡ true = rw same there in ground (arith, here)
  | inr e ↦ ground (arith, e, found)
]

insert_found :
    (t : KoiTodo) (db : Db) {db' : Db} → insert_todo t db ≡ ok db' → get_koi_todo t.id db' ≡ some t
unfolding insert_todo get_koi_todo
insert_found t db h = ground (arith, text_eq_refl t.id)

spawn-FansOut :
    (pool : Text) (k : KoiDefinition) (t : KoiTodo) (before mid : Db) (rest : FanOut)
    → IsKept before mid
    → get_koi_todo t.id mid ≡ some t
    → t.owner_id ≡ k.id
    → t.pool_session_id ≡ some pool
    → t.status ≡ TodoStatus.todo
    → t.claimed_by ≡ none
    → FansOut pool mid rest
    → FansOut pool before (spawn_for k t rest)
unfolding IsKept
spawn-FansOut pool k t before mid rest kept found owned pooled to_do unclaimed h =
    elim (Bool-cases (is_idle k.status)) [
      | inl e ↦ rw e (record {
        kept = λ id s f. h.kept id s (kept id s f);
        delegated = (
          record {
            todo = t;
            found = h.kept t.id t found;
            owned = owned;
            pooled = pooled;
            to_do = to_do;
            unclaimed = unclaimed;
          },
          h.delegated,
        );
      })
      | inr e ↦
          rw e (record { kept = λ id s f. h.kept id s (kept id s f); delegated = h.delegated })
    ]

-- `try_write` of the row, and its announcement.
abbrev put : Text → KoiTodo → World → Result Db → Result KoiTodo × World
put pool t w r =
    after (written w (with_row t r))
      λ u. emit (todo_changed pool TodoChangeAction.created u) >> pure u

put-FansOut :
    (pool : Text) (k : KoiDefinition) (t : KoiTodo) (later : World → FanOut) (w : World)
    (r : Result Db)
    → ((db : Db) → r ≡ ok db → IsKept w.db db × (get_koi_todo t.id db ≡ some t))
    → t.owner_id ≡ k.id
    → t.pool_session_id ≡ some pool
    → t.status ≡ TodoStatus.todo
    → t.claimed_by ≡ none
    → ((v : World) → FansOut pool v.db (later v))
    → FansOut pool w.db (fan_next k later (put pool t w r))
unfolding IsKept
put-FansOut pool k t later w (err e) facts owned pooled to_do unclaimed h = record {
  kept = λ id s f. f;
  delegated = tt;
}
put-FansOut pool k t later w (ok db) facts owned pooled to_do unclaimed h =
    let (kept, found) = facts db refl in
    spawn-FansOut pool k t w.db db (later _) kept found owned pooled to_do unclaimed (h _)

fan_out-FansOut :
    (env : Text → Env) (sender pool content : Text) (ks : List KoiDefinition) (w : World)
    → FansOut pool w.db (fan_out env sender pool content ks w)
unfolding fan_out mention_todo create_koi_todo new_todo piscis_engine.Store.Todos.inserted_todo
    piscis_engine.Store.Todos.row_of IsKept
fan_out-FansOut env sender pool content [] w = record { kept = λ id s f. f; delegated = tt }
fan_out-FansOut env sender pool content (k ∷ ks) w =
    let t =
      new_todo (env k.id) k.id (take 120 content) content (text "medium") sender (some pool)
        (text "mention") none 0 in
    put-FansOut pool k t (fan_out env sender pool content ks) w (insert_todo t w.db)
      (λ db e. (insert_kept t w.db e, insert_found t w.db e)) refl refl refl refl
      (fan_out-FansOut env sender pool content ks)

piscis_put-FansOut :
    (pool : Text) (t : KoiTodo) (later : World → FanOut) (w : World) (r : Result Db)
    → ((db : Db) → r ≡ ok db → IsKept w.db db)
    → ((v : World) → FansOut pool v.db (later v))
    → FansOut pool w.db (after_piscis later (after {B = Unit {0}} (put pool t w r) (λ u. pure tt)))
unfolding IsKept
piscis_put-FansOut pool t later w (err e) kept h = record { kept = λ id s f. f; delegated = tt }
piscis_put-FansOut pool t later w (ok db) kept h = record {
  kept = λ id s f. (h _).kept id s (kept db refl id s f);
  delegated = (h _).delegated;
}

-- The statement that makes the row of Piscis changes no todo.
upsert_todos :
    (now : ℕ) (id : Text) (name : Result Text) (db : Db) (u : Unit {0}) (db' : Db)
    → insert_or_ignore now id name db ≡ ok (u, db')
    → db'.todos ≡ db.todos
upsert_todos now id (err e) db u db' h = ground (arith, h)
upsert_todos now id (ok name) db u db' h = ground (arith, h)

upserted-FansOut :
    (pool : Text) (w : World) (r : Result (Unit {0} × Db)) (f : M (Unit {0}))
    (later : World → FanOut)
    → ((u : Unit {0}) (db : Db) → r ≡ ok (u, db) → db.todos ≡ w.db.todos)
    → ((v : World) → FansOut pool v.db (after_piscis later (f v)))
    → FansOut pool w.db (after_piscis later (after (caught (written w r)) (λ made. f)))
unfolding IsKept get_koi_todo
upserted-FansOut pool w (err e) f later same h = h w
upserted-FansOut pool w (ok (u, db)) f later same h = record {
  kept = λ id s found. (h _).kept id s (rw (same u db refl) found);
  delegated = (h _).delegated;
}

mention_piscis-FansOut :
    (env : Env) (sender pool content : Text) (later : World → FanOut) (w : World)
    → ((v : World) → FansOut pool v.db (later v))
    → FansOut pool w.db (after_piscis later (mention_piscis env sender pool content w))
unfolding mention_piscis mention_todo create_koi_todo new_todo
    piscis_engine.Store.Todos.inserted_todo piscis_engine.Store.Todos.row_of upsert_koi_with_id
mention_piscis-FansOut env sender pool content later w h =
    let t =
      new_todo env piscis (take 120 content) content (text "medium") sender (some pool)
        (text "mention") none 0 in
    upserted-FansOut pool w (upsert_koi_with_id env.now piscis (text "Piscis") w.db)
      (mention_todo env piscis sender pool content >>= λ u. pure tt) later
      (upsert_todos env.now piscis (normalize_koi_name (text "Piscis")) w.db)
      (λ v. piscis_put-FansOut pool t later v (insert_todo t v.db) (λ db e. insert_kept t v.db e) h)

fan_out_to-FansOut :
    (env : Text → Env) (sender pool content : Text) (ks : Option (List KoiDefinition)) (w : World)
    → FansOut pool w.db (fan_out_to env sender pool content ks w)
unfolding IsKept
fan_out_to-FansOut env sender pool content none w = record { kept = λ id s f. f; delegated = tt }
fan_out_to-FansOut env sender pool content (some ks) w =
    fan_out-FansOut env sender pool content ks w

for_piscis-FansOut :
    (env : Text → Env) (sender pool content : Text) (o : Option Bool) (later : World → FanOut)
    (w : World)
    → ((v : World) → FansOut pool v.db (later v))
    → FansOut pool w.db (for_piscis env sender pool content o later w)
unfolding IsKept
for_piscis-FansOut env sender pool content none later w h = record {
  kept = λ id s f. f;
  delegated = tt;
}
for_piscis-FansOut env sender pool content (some false) later w h = h w
for_piscis-FansOut env sender pool content (some true) later w h =
    mention_piscis-FansOut (env piscis) sender pool content later w h

-- After a message of the pool, whether its fan-out ended, failed or panicked, a todo that was on the
-- board is as it was, and each turn that was started is for a todo of the board that is open and
-- unclaimed, in the pool, and owned by the Koi that takes the turn.
pub handle_mention_delegates :
    (to_lowercase : Text → Text) (env : Text → Env) (sender pool content : Text) (w : World)
    (id : Text) (t : KoiTodo)
    → get_koi_todo id w.db ≡ some t
    → (let r = handle_mention to_lowercase env sender pool content w in
        (get_koi_todo id r.world.db ≡ some t) × All (IsDelegated pool r.world.db) r.spawned)
unfolding handle_mention IsKept
handle_mention_delegates to_lowercase env sender pool content w id t found =
    let h =
      for_piscis-FansOut env sender pool content
        (if text_eq sender piscis
          then some false
          else has_live_delegated_mention to_lowercase content (text "Piscis"))
        (fan_out_to env sender pool content
          (parse_mention_targets to_lowercase (list_kois w.db) sender content))
        w
        (fan_out_to-FansOut env sender pool content
          (parse_mention_targets to_lowercase (list_kois w.db) sender content)) in
    (h.kept id t found, h.delegated)
