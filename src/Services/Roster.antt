-- ===== src/Services/Roster.antt =====
-- The roster of a pool, and the close of a pool, when the service succeeds.
use piscis_engine.Prelude.{
  ℕ, ◌==◌, ◌≡◌, ◌≢◌, ◌↔◌, refl, Bool, true, false, not, ◌||◌, Option, none, some, List, [], ◌∷◌,
  ◌++◌, Text, text_eq, text_eq_refl, trim, is_blank, is_empty, any, keep, arith, Bool-cases, ◌⊎◌,
  inl, inr,
}
use piscis_engine.Model.{PoolSession, KoiDefinition, PoolStatus}
use piscis_engine.Store.{Db, Error, ok, err, Env, has_pool, has_koi}
use piscis_engine.Store.Todos.{count_active_todos_for_member}
use piscis_engine.Store.Kois.{resolve_koi_identifier}
use piscis_engine.Store.Pools.{
  get_pool_session, is_row, is_pool_member, add_pool_member, remove_pool_member,
  update_pool_session_status,
}
use piscis_engine.Store.Messages.{insert_pool_message_ext}
use piscis_engine.Store.Rows.{any-update_pool}
use piscis_engine.Services.Base.{World, CallerContext, resolve_pool}
use piscis_engine.Services.Members.{
  add_member, remove_member, emit_pool_membership_changed, emit_pool_updated,
}
use piscis_engine.Services.Lifecycle.{
  change_pool_status, check_archive, from_heartbeat, unfinished_todos,
}

any-keep-not :
    (p : Text × Text → Bool) (ms : List (Text × Text)) → any p (keep (λ m. not (p m)) ms) ≡ false
any-keep-not p [] = refl
any-keep-not p (m ∷ ms) = ground (arith, any-keep-not p ms)

any-append :
    (p : Text × Text → Bool) (ms ns : List (Text × Text)) → any p (ms ++ ns) ≡ any p ms || any p ns
any-append p [] ns = refl
any-append p (m ∷ ms) ns = ground (arith, any-append p ms ns)

-- A Koi that was removed is no member, and one that was added is.
removed-not_member :
    (pool koi : Text) (db : Db) → is_pool_member pool koi (remove_pool_member pool koi db) ≡ false
unfolding is_pool_member remove_pool_member
removed-not_member pool koi db = any-keep-not (is_row pool koi) db.members

added-member :
    (pool koi : Text) (db db' : Db)
    → add_pool_member pool koi db ≡ ok db'
    → is_pool_member pool koi db' ≡ true
unfolding is_pool_member add_pool_member
added-member pool koi db db' h = ground (
  arith,
  any-append (is_row pool koi) db.members ((pool, koi) ∷ []),
  text_eq_refl pool,
  text_eq_refl koi,
)

new_member :
    (pool koi : Text) (db : Db)
    → is_pool_member pool koi db ≡ false
    → has_pool pool db ≡ true
    → has_koi koi db ≡ true
    → add_pool_member pool koi db ≡ ok (record db { members = db.members ++ ((pool, koi) ∷ []) })
unfolding add_pool_member
new_member pool koi db n here known = rw (n, here, known) refl

emitted-db :
    (o : Option PoolSession) (w : World)
    → (v : World) × (emit_pool_updated o w ≡ (ok tt, v)) × (v.db ≡ w.db)
emitted-db none w = (w, refl, refl)
emitted-db (some p) w = (_, refl, refl)

-- Removing a Koi from a pool, where the hint resolves to the pool and the text to the Koi: if the
-- Koi has no active todo there the call answers the Koi, and it is no member of the pool any more;
-- if it has, the call fails with their number and changes nothing.
pub remove_member_lem :
    (caller : CallerContext) (hint koi_id : Text) (w : World) {p : PoolSession} {k : KoiDefinition}
    → resolve_pool caller hint w ≡ (ok p, w)
    → is_blank (trim koi_id) ≡ false
    → resolve_koi_identifier (trim koi_id) w.db ≡ ok (some k)
    → ((count_active_todos_for_member p.id k.id w.db ≡ 0)
        × ((v : World) × (remove_member caller hint koi_id w ≡ (ok k, v))
            × (is_pool_member p.id k.id v.db ≡ false)))
      ⊎ ((count_active_todos_for_member p.id k.id w.db ≢ 0)
          × (remove_member caller hint koi_id w ≡ (
            err (Error.active_todos_remain (count_active_todos_for_member p.id k.id w.db)),
            w,
          )))
unfolding remove_member emit_pool_membership_changed
remove_member_lem caller hint koi_id w {p} {k} pool named koi =
    elim (Bool-cases (count_active_todos_for_member p.id k.id w.db == 0)) [
      | inl z ↦
          let db = remove_pool_member p.id k.id w.db in
          let (v, sent, same) = emitted-db (get_pool_session p.id db) (record w { db = db }) in
          inl (
            ground arith,
            (
              v,
              rw pool (rw (named, koi) (rw z (rw sent refl))),
              rw same (removed-not_member p.id k.id w.db),
            ),
          )
      | inr n ↦ inr (ground arith, rw pool (rw (named, koi) (rw n refl)))
    ]

-- Adding a Koi to a pool, where the hint resolves to a pool and the text to a Koi that are both
-- there: the call answers the Koi, which is a member of the pool afterwards, unless it was one
-- before, in which case the call fails and changes nothing.
pub add_member_lem :
    (caller : CallerContext) (hint koi_id : Text) (w : World) {p : PoolSession} {k : KoiDefinition}
    → resolve_pool caller hint w ≡ (ok p, w)
    → is_blank (trim koi_id) ≡ false
    → resolve_koi_identifier (trim koi_id) w.db ≡ ok (some k)
    → has_pool p.id w.db ≡ true
    → has_koi k.id w.db ≡ true
    → ((is_pool_member p.id k.id w.db ≡ false)
        × ((v : World) × (add_member caller hint koi_id w ≡ (ok k, v))
            × (is_pool_member p.id k.id v.db ≡ true)))
      ⊎ ((is_pool_member p.id k.id w.db ≡ true)
          × (add_member caller hint koi_id w ≡ (err Error.already_member, w)))
unfolding add_member emit_pool_membership_changed
add_member_lem caller hint koi_id w {p} {k} pool named koi here known =
    elim (Bool-cases (is_pool_member p.id k.id w.db)) [
      | inl z ↦ inr (z, rw pool (rw (named, koi) (rw z refl)))
      | inr n ↦
          let db : Db = record (w.db) { members = w.db.members ++ ((p.id, k.id) ∷ []) } in
          let added : add_pool_member p.id k.id w.db ≡ ok db =
            new_member p.id k.id w.db n here known in
          let (v, sent, same) = emitted-db (get_pool_session p.id db) (record w { db = db }) in
          inl (
            n,
            (
              v,
              rw pool (rw (named, koi) (rw n (rw added (rw sent refl)))),
              rw same (added-member p.id k.id w.db db added),
            ),
          )
    ]

status_has_pool :
    (now : ℕ) (id : Text) (status : PoolStatus) (db : Db)
    → has_pool id (update_pool_session_status now id status db) ≡ has_pool id db
unfolding update_pool_session_status
status_has_pool now id status db =
    any-update_pool id (λ p. record p { status = status; updated_at = now }) (λ p. text_eq p.id id)
      (λ p. refl) db.pools

-- A pool that is there can be archived exactly by a call that is not a heartbeat's, when none of
-- its todos is unfinished.
pub archive_guarded :
    (env : Env) (caller : CallerContext) (session : PoolSession) (w : World)
    → has_pool session.id w.db ≡ true
    → ((p : PoolSession) × ((change_pool_status env caller session PoolStatus.archived w).0 ≡ ok p))
      ↔ ((from_heartbeat caller ≡ false) × (is_empty (unfinished_todos session.id w.db) ≡ true))
unfolding change_pool_status check_archive insert_pool_message_ext
archive_guarded env caller session w here = (
  λ (p, done). elim (Bool-cases (from_heartbeat caller)) [
    | inl h ↦ ground (arith, rw h at done)
    | inr h ↦ elim (Bool-cases (is_empty (unfinished_todos session.id w.db))) [
      | inl e ↦ (h, e)
      | inr e ↦ ground (arith, rw (h, e) at done)
    ]
  ],
  λ (h, e).
      rw (h, e) (rw (status_has_pool env.now session.id PoolStatus.archived w.db, here) (_, refl)),
)
