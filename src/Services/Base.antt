-- ===== src/Services/Base.antt =====
-- The state and error monad of the services, and the helpers at the top of services.rs.
use piscis_engine.Json.{no_fields}
use piscis_engine.Prelude.{
  ℕ, Bool, true, false, not, ◌&&◌, ◌||◌, Option, none, some, List, [], ◌∷◌, Text, text, text_eq,
  starts_with, trim, is_blank, find, if◌then◌else◌,
}
use piscis_engine.Model.{
  KoiTodo, PoolSession, PoolMessage, PoolEvent, TodoChangeAction, message_appended, todo_changed,
  is_active, Metadata, MetadataBase, EventType,
}
use piscis_engine.Store.{Db, Error, Result, ok, err, Env}
use piscis_engine.Store.Todos.{list_koi_todos, get_koi_todo}
use piscis_engine.Store.Pools.{resolve_pool_session_identifier}
use piscis_engine.Store.Messages.{insert_pool_message_ext}

-- The sink's events are newest first.
pub record World : Type 0 where
  pub db : Db
  pub events : List PoolEvent

abbrev pub M : Type 0 → Type 0
M A = World → Result A × World

abbrev pub after {ℓ κ} :
    {A : Type ℓ} {B : Type κ} → Result A × World → (A → World → Result B × World) → Result B × World
after (ok a, w) f = f a w
after (err e, w) f = (err e, w)

infixl 5 ◌>>=◌ ◌>>◌
abbrev pub ◌>>=◌ : {A B : Type 0} → M A → (A → M B) → M B
◌>>=◌ m f w = after (m w) f

abbrev pub ◌>>◌ : {B : Type 0} → M (Unit {0}) → M B → M B
m >> k = m >>= λ _. k

abbrev pub pure : {A : Type 0} → A → M A
pure a w = (ok a, w)

abbrev pub fail : {A : Type 0} → Error → M A
fail e w = (err e, w)

abbrev pub ensure : Bool → Error → M (Unit {0})
ensure true e w = (ok tt, w)
ensure false e w = (err e, w)

-- `store.read`.
abbrev pub read : {A : Type 0} → (Db → A) → M A
read f w = (ok (f w.db), w)

-- A read that may fail, as `?` does.
abbrev pub try_read : {A : Type 0} → (Db → Result A) → M A
try_read f w = (f w.db, w)

-- `store.write` of a statement that cannot fail, and of one that can.
abbrev pub write : (Db → Db) → M (Unit {0})
write f w = (ok tt, record w { db = f w.db })

abbrev pub written {ℓ} : {A : Type ℓ} → World → Result (A × Db) → Result A × World
written w (ok (a, db)) = (ok a, record w { db = db })
written w (err e) = (err e, w)

abbrev pub try_write : {A : Type 0} → (Db → Result (A × Db)) → M A
try_write f w = written w (f w.db)

-- `ok_or_else(|| …)?`.
abbrev pub require {ℓ} : {A : Type ℓ} → Error → Option A → World → Result A × World
require e none w = (err e, w)
require e (some a) w = (ok a, w)

-- `if let Ok(a) = …`: a failure is passed over.
abbrev pub caught {ℓ} : {A : Type ℓ} → Result A × World → Result (Option A) × World
caught (ok a, w) = (ok (some a), w)
caught (err e, w) = (ok none, w)

abbrev pub attempt : {A : Type 0} → M A → M (Option A)
attempt m w = caught (m w)

abbrev pub emit : PoolEvent → M (Unit {0})
emit e w = (ok tt, record w { events = e ∷ w.events })

-- pool/model.rs. `cancelled` is what the cancellation flag reads during the call.
pub record CallerContext : Type 0 where
  pub memory_owner_id : Text
  pub session_source : Option Text
  pub pool_session_id : Option Text
  pub cancelled : Bool

abbrev pub piscis : Text
piscis = text "piscis"

unfoldable pub is_piscis : CallerContext → Bool
is_piscis c = text_eq c.memory_owner_id piscis

unfoldable pub requested_pool : CallerContext → Text → Option Text
requested_pool caller hint =
    if not (is_blank (trim hint)) && not (text_eq (trim hint) (text "current"))
    then some (trim hint)
    else caller.pool_session_id

unfoldable pub resolve_pool : CallerContext → Text → M PoolSession
unfolding requested_pool
resolve_pool caller hint = do
  id ← require Error.pool_id_required (requested_pool caller hint)
  found ← try_read (resolve_pool_session_identifier id)
  require Error.pool_not_found found

abbrev pub ensure_accepts_new_work : PoolSession → M (Unit {0})
ensure_accepts_new_work p = ensure (is_active p.status) Error.pool_not_active

-- The first todo of any pool whose id begins with the prefix.
unfoldable pub find_todo_by_prefix : Text → Db → Option KoiTodo
find_todo_by_prefix prefix db = find (λ t. starts_with t.id prefix) (list_koi_todos none db)

abbrev pub or_empty : Option Text → Text
or_empty none = []
or_empty (some t) = t

abbrev pub first_some : Option Text → Option Text → Option Text
first_some none o = o
first_some (some t) o = some t

abbrev pub emit_todo : Option Text → TodoChangeAction → KoiTodo → M (Unit {0})
emit_todo pool action t =
    emit (todo_changed (or_empty (first_some pool t.pool_session_id)) action t)

abbrev pub emit_message : PoolMessage → M (Unit {0})
emit_message m = emit (message_appended m.pool_session_id m)

abbrev pub check_todo_ownership : KoiTodo → CallerContext → M (Unit {0})
check_todo_ownership t caller =
    ensure (is_piscis caller || text_eq t.owner_id caller.memory_owner_id)
      (Error.permission_denied t.owner_id)

abbrev pub check_piscis_only : CallerContext → M (Unit {0})
check_piscis_only caller = ensure (is_piscis caller) Error.piscis_only

abbrev pub plain : MetadataBase → Metadata
plain base = record { base = base; added = no_fields }

-- The message that a service writes about a todo, when the todo belongs to a pool; a failure to
-- write it is passed over, and the answer is the message's id.
abbrev pub emit_if_written : Option PoolMessage → M (Option ℕ)
emit_if_written none w = (ok none, w)
emit_if_written (some m) w =
    (ok (some m.id), record w { events = message_appended m.pool_session_id m ∷ w.events })

unfoldable pub note_on_todo :
    Env → Option Text → Text → Text → Text → Metadata → Text → EventType → M (Option ℕ)
note_on_todo env none sender content msg_type metadata todo_id event = pure none
note_on_todo env (some pool) sender content msg_type metadata todo_id event =
    attempt (
      try_write (
        insert_pool_message_ext env.now pool sender content msg_type metadata (some todo_id) none
          (some event)))
    >>= emit_if_written

-- The row as it is now, or as it was when it is gone.
abbrev pub or_old : KoiTodo → Option KoiTodo → KoiTodo
or_old t none = t
or_old t (some u) = u

abbrev pub refreshed : KoiTodo → M KoiTodo
refreshed t = read (λ db. or_old t (get_koi_todo t.id db))

-- What a service answers: the row after the change, or that nothing had to be done.
pub data Reply : Type 0 where
  changed : KoiTodo → Reply
  no_op : Reply
