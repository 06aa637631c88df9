-- ===== src/Store/Pools.antt =====
-- db.rs, the `pool_sessions` and `pool_members` statements.
use piscis_engine.Prelude.{
  ℕ, Bool, false, not, ◌&&◌, ◌||◌, Option, none, some, List, [], ◌∷◌, ◌++◌, Text, text_eq, trim,
  is_blank, ascii_lower, any, find, keep, map, ◌==◌, if◌then◌else◌,
}
use piscis_engine.Model.{PoolSession, PoolStatus}
use piscis_engine.Store.{Db, Error, Result, ok, err, Env, has_koi, has_pool}

unfoldable pub list_pool_member_ids : Text → Db → List Text
list_pool_member_ids pool db = map (λ m. m.1) (keep (λ m. text_eq m.0 pool) db.members)

unfoldable pub hydrate_members : Db → PoolSession → PoolSession
hydrate_members db session = record session { member_koi_ids = list_pool_member_ids session.id db }

abbrev pub hydrated : Db → Option PoolSession → Option PoolSession
hydrated db none = none
hydrated db (some p) = some (hydrate_members db p)

unfoldable pub list_pool_sessions : Db → List PoolSession
list_pool_sessions db = map (hydrate_members db) db.pools

unfoldable pub get_pool_session : Text → Db → Option PoolSession
get_pool_session id db = hydrated db (find (λ p. text_eq p.id id) db.pools)

-- SQLite's `LIKE`: `%` is any text, `_` any character, and ASCII letters match in either case.
abbrev any_suffix : (Text → Bool) → Text → Bool
any_suffix p [] = p []
any_suffix p (c ∷ s) = p (c ∷ s) || any_suffix p s

abbrev next_char : (ℕ → Bool) → (Text → Bool) → Text → Bool
next_char q p [] = false
next_char q p (c ∷ s) = q c && p s

unfoldable pub like : Text → Text → Bool
unfolding ascii_lower
like [] s = is_blank s
like (p ∷ ps) s =
    if p == 37
    then any_suffix (like ps) s
    else next_char (λ c. (p == 95) || (ascii_lower p == ascii_lower c)) (like ps) s

abbrev pub unique_pool : List PoolSession → Result (Option PoolSession)
unique_pool [] = ok none
unique_pool (p ∷ []) = ok (some p)
unique_pool (p ∷ q ∷ ps) = err Error.ambiguous

abbrev pub pool_or : Option PoolSession → Result (Option PoolSession) → Result (Option PoolSession)
pool_or (some p) rest = ok (some p)
pool_or none rest = rest

abbrev pub hydrate_result : Db → Result (Option PoolSession) → Result (Option PoolSession)
hydrate_result db (ok o) = ok (hydrated db o)
hydrate_result db (err e) = err e

unfoldable pub get_pool_session_by_prefix : Text → Db → Result (Option PoolSession)
unfolding get_pool_session like
get_pool_session_by_prefix prefix db =
    if is_blank (trim prefix)
    then ok none
    else pool_or (get_pool_session prefix db)
        (hydrate_result db (unique_pool (keep (λ p. like (prefix ++ (37 ∷ [])) p.id) db.pools)))

-- `if let Some(session) = …? { return … }`, then the search by name.
abbrev pub found_or :
    Result (Option PoolSession) → Result (Option PoolSession) → Result (Option PoolSession)
found_or (ok (some p)) rest = ok (some p)
found_or (ok none) rest = rest
found_or (err e) rest = err e

unfoldable pub resolve_pool_session_identifier : Text → Db → Result (Option PoolSession)
unfolding get_pool_session_by_prefix list_pool_sessions
resolve_pool_session_identifier value db =
    let v = trim value in
    if is_blank v
    then ok none
    else found_or (get_pool_session_by_prefix v db)
        (unique_pool (keep (λ p. text_eq p.name v) (list_pool_sessions db)))

-- The row that `create_pool_session_with_meta` inserts, with no team and no workflow run.
unfoldable pub new_pool_session : Env → Text → Option Text → ℕ → PoolSession
new_pool_session env name project_dir timeout = record {
  id = env.new_id;
  name = name;
  org_spec = [];
  status = PoolStatus.active;
  project_dir = project_dir;
  task_timeout_secs = timeout;
  origin_im_binding_key = none;
  member_koi_ids = [];
  team_id = none;
  workflow_run_id = none;
  last_active_at = some env.now;
  created_at = env.now;
  updated_at = env.now;
}

unfoldable pub create_pool_session_with_dir :
    Env → Text → Option Text → ℕ → Db → Result (PoolSession × Db)
unfolding new_pool_session
create_pool_session_with_dir env name project_dir timeout db =
    if has_pool env.new_id db
    then err Error.unique_constraint
    else let p = new_pool_session env name project_dir timeout in
      ok (p, record db { pools = p ∷ db.pools })

abbrev pub update_pool : Text → (PoolSession → PoolSession) → Db → Db
update_pool id f db = record db { pools = map (λ p. if text_eq p.id id then f p else p) db.pools }

unfoldable pub update_pool_session_status : ℕ → Text → PoolStatus → Db → Db
update_pool_session_status now id status =
    update_pool id λ p. record p { status = status; updated_at = now }

unfoldable pub update_pool_org_spec : ℕ → Text → Text → Db → Db
update_pool_org_spec now id spec =
    update_pool id λ p. record p { org_spec = spec; updated_at = now }

unfoldable pub set_pool_origin_im_binding : ℕ → Text → Option Text → Db → Db
set_pool_origin_im_binding now id key =
    update_pool id λ p. record p { origin_im_binding_key = key; updated_at = now }

abbrev pub coalesce_secs : Option ℕ → ℕ → ℕ
coalesce_secs none n = n
coalesce_secs (some m) n = m

unfoldable pub update_pool_session_config : ℕ → Text → Option ℕ → Db → Db
update_pool_session_config now id timeout = update_pool id λ p. record p {
  task_timeout_secs = coalesce_secs timeout p.task_timeout_secs;
  updated_at = now;
}

abbrev pub is_row : Text → Text → Text × Text → Bool
is_row pool koi m = text_eq m.0 pool && text_eq m.1 koi

unfoldable pub is_pool_member : Text → Text → Db → Bool
is_pool_member pool koi db = any (is_row pool koi) db.members

-- `INSERT OR IGNORE`: a row that is there is left, and foreign keys are still checked.
unfoldable pub add_pool_member : Text → Text → Db → Result Db
unfolding is_pool_member
add_pool_member pool koi db =
    if is_pool_member pool koi db
    then ok db
    else if has_pool pool db && has_koi koi db
    then ok (record db { members = db.members ++ ((pool, koi) ∷ []) })
    else err Error.foreign_key

unfoldable pub remove_pool_member : Text → Text → Db → Db
remove_pool_member pool koi db = record db {
  members = keep (λ m. not (is_row pool koi m)) db.members;
}
