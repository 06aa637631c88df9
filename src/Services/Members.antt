-- ===== src/Services/Members.antt =====
-- services.rs, the roster of a pool.
use piscis_engine.Prelude.{not, Option, none, some, Text, text, trim, is_blank, ◌==◌}
use piscis_engine.Model.{PoolSession, KoiDefinition, pool_updated}
use piscis_engine.Store.{Db, Error, Result, ok, err}
use piscis_engine.Store.Todos.{count_active_todos_for_member}
use piscis_engine.Store.Kois.{resolve_koi_identifier}
use piscis_engine.Store.Pools.{
  get_pool_session, is_pool_member, add_pool_member, remove_pool_member,
}
use piscis_engine.Services.Base.{
  M, ◌>>=◌, ◌>>◌, pure, ensure, read, try_read, write, try_write, require, emit, CallerContext,
  resolve_pool,
}

unfoldable pub ensure_pool_member : Text → Text → M (Unit {0})
ensure_pool_member pool koi = do
  is_member ← read (is_pool_member pool koi)
  ensure is_member Error.not_a_member

abbrev pub emit_pool_updated : Option PoolSession → M (Unit {0})
emit_pool_updated none = pure tt
emit_pool_updated (some p) = emit (pool_updated p)

unfoldable pub emit_pool_membership_changed : Text → M (Unit {0})
emit_pool_membership_changed pool = do
  session ← read (get_pool_session pool)
  emit_pool_updated session

abbrev pub unit_row : Result Db → Result (Unit {0} × Db)
unit_row (ok db) = ok (tt, db)
unit_row (err e) = err e

unfoldable pub add_member : CallerContext → Text → Text → M KoiDefinition
unfolding emit_pool_membership_changed
add_member caller pool_hint koi_id = do
  session ← resolve_pool caller pool_hint
  ensure (not (is_blank (trim koi_id))) (Error.field_required (text "koi_id"))
  found ← try_read (resolve_koi_identifier (trim koi_id))
  koi ← require Error.koi_not_found found
  already ← read (is_pool_member session.id koi.id)
  ensure (not already) Error.already_member
  try_write (λ db. unit_row (add_pool_member session.id koi.id db))
  emit_pool_membership_changed session.id
  pure koi

unfoldable pub remove_member : CallerContext → Text → Text → M KoiDefinition
unfolding emit_pool_membership_changed
remove_member caller pool_hint koi_id = do
  session ← resolve_pool caller pool_hint
  ensure (not (is_blank (trim koi_id))) (Error.field_required (text "koi_id"))
  found ← try_read (resolve_koi_identifier (trim koi_id))
  koi ← require Error.koi_not_found found
  active ← read (count_active_todos_for_member session.id koi.id)
  ensure (active == 0) (Error.active_todos_remain active)
  write (remove_pool_member session.id koi.id)
  emit_pool_membership_changed session.id
  pure koi
