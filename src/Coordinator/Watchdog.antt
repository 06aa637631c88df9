-- ===== src/Coordinator/Watchdog.antt =====
-- The recovery of stale rows in db.rs, as the coordinator's watchdog runs it.
use piscis_engine.Prelude.{
  Text, Option, none, some, find, ◌∙◌, ℕ, ◌<◌, ◌-◌, ◌≡◌, refl, Bool, true, false, not, List, [],
  ◌∷◌, any, map, ltb, arith, if◌then◌else◌,
}
use piscis_engine.Model.{
  KoiTodo, KoiDefinition, KoiStatus, Stamp, rfc3339, sql_datetime, day, sql_before, is_in_progress,
}
use piscis_engine.Store.{Db, update_where}
use mathlib.Core.Option.{some-injective}
use piscis_engine.Store.Rows.{has_id, find-update_where, updated_option}
use piscis_engine.Store.Todos.{get_koi_todo}
use piscis_engine.Store.Claims.{
  is_busy, stale_koi, stale_todo, released_row, recover_stale_busy_kois,
  recover_stale_in_progress_todos,
}
use piscis_engine.Coordinator.Recovery.{watchdog_recover}

-- A stamp in RFC 3339 that lies on the day of the cutoff or later.
abbrev pub is_recent_day : ℕ → Stamp → Bool
is_recent_day cutoff (rfc3339 s) = not (ltb (day s) (day cutoff))
is_recent_day cutoff (sql_datetime s) = false

recent-not_before :
    (cutoff : ℕ) (s : Stamp) → is_recent_day cutoff s ≡ true → sql_before s cutoff ≡ false
recent-not_before cutoff (rfc3339 s) h = ground arith
recent-not_before cutoff (sql_datetime s) h = ground arith

-- After a recovery with the age limit 0 no todo is in progress.
all_stale-cleared :
    (now : ℕ) (ts : List KoiTodo)
    → any (λ t. is_in_progress t.status) (update_where (stale_todo now 0) (released_row now) ts)
      ≡ false
unfolding update_where released_row
all_stale-cleared now [] = refl
all_stale-cleared now (t ∷ ts) = ground (arith, all_stale-cleared now ts)

all_busy-cleared :
    (now : ℕ) (ks : List KoiDefinition)
    → any
        (λ k. is_busy k.status)
        (map
          (λ k.
            if stale_koi now 0 k
            then record k { status = KoiStatus.idle; updated_at = sql_datetime now }
            else k)
          ks)
      ≡ false
all_busy-cleared now [] = refl
all_busy-cleared now (k ∷ ks) = ground (arith, all_busy-cleared now ks)

-- With the age limit 0 the watchdog leaves no todo in progress and no Koi busy.
pub watchdog_zero_clears :
    (now : ℕ) (db : Db)
    → (any (λ t. is_in_progress t.status) (watchdog_recover now 0 db).1.todos ≡ false)
      × (any (λ k. is_busy k.status) (watchdog_recover now 0 db).1.kois ≡ false)
unfolding watchdog_recover recover_stale_busy_kois recover_stale_in_progress_todos
watchdog_zero_clears now db = (all_stale-cleared now db.todos, all_busy-cleared now db.kois)

recent-kept :
    (now max_age : ℕ) (o : Option KoiTodo) {t : KoiTodo}
    → o ≡ some t
    → stale_todo now max_age t ≡ false
    → updated_option (stale_todo now max_age) (released_row now) o ≡ some t
recent-kept now max_age none e h = ground arith
recent-kept now max_age (some x) {t} e h =
    let same : x ≡ t = some-injective x t e in rw same (rw h refl)

-- With a positive age limit the watchdog leaves a todo as it is whose `updated_at` is an RFC 3339
-- text of the day of the cutoff or a later one, however much earlier than the cutoff it is, and
-- whatever else is on the board.
pub watchdog_misses_same_day :
    (now max_age : ℕ) (id : Text) (db : Db) {t : KoiTodo}
    → 0 < max_age
    → get_koi_todo id db ≡ some t
    → is_recent_day (now - max_age) t.updated_at ≡ true
    → get_koi_todo id (watchdog_recover now max_age db).1 ≡ some t
unfolding watchdog_recover recover_stale_busy_kois recover_stale_in_progress_todos get_koi_todo
    released_row
watchdog_misses_same_day now max_age id db {t} h found recent =
    let fresh : stale_todo now max_age t ≡ false =
      ground (arith, h, recent-not_before (now - max_age) t.updated_at recent) in
    find-update_where (has_id id) (stale_todo now max_age) (released_row now) (λ x. refl) db.todos
    ∙ recent-kept now max_age (find (has_id id) db.todos) found fresh
