-- ===== src/Services/Assigning.antt =====
-- `assign_koi` of services.rs, when it succeeds.
use mathlib.Core.Path.{subst}
use piscis_engine.Prelude.{
  ℕ, ◌≡◌, refl, sym, ap, Bool, true, false, Option, none, some, ◌∷◌, Text, text, text_eq_refl, not,
  is_blank, trim, take, arith,
}
use piscis_engine.Model.{
  KoiTodo, KoiDefinition, PoolSession, PoolMessage, TodoStatus, TodoChangeAction, MetadataBase,
  koi_assigned, is_active,
}
use piscis_engine.Store.{Db, Error, Env, Result, ok, err}
use piscis_engine.Store.Todos.{create_koi_todo, get_koi_todo, new_todo, insert_todo, with_row}
use piscis_engine.Store.Kois.{resolve_koi_identifier}
use piscis_engine.Store.Pools.{is_pool_member, resolve_pool_session_identifier}
use piscis_engine.Store.Messages.{insert_pool_message}
use piscis_engine.Services.Base.{
  World, M, written, after, ◌>>=◌, ◌>>◌, pure, ensure, try_read, try_write, require, emit, plain,
  piscis, CallerContext, requested_pool, resolve_pool, emit_todo, emit_message,
}
use piscis_engine.Services.Todos.{or_medium}
use piscis_engine.Services.Members.{ensure_pool_member}
use piscis_engine.Services.Claiming.{insert-todos}
use piscis_engine.Services.Ends.{Ends, bind-Ends}
use piscis_engine.Services.Assign.{
  AssignKoiArgs, Assigned, announce_assignment, mention_text, with_context, assigned_row, assign_to,
  assign_found, assign_in, assign_koi,
}

-- What is on the board after an assignment: its todo, open and owned by the Koi, which is a member of the
-- pool and had joined it before.
pub record IsAssigned (before : Db) (a : Assigned) (after : Db) : Type 0 where
  pub open_pool : is_active a.session.status ≡ true
  pub member : is_pool_member a.session.id a.koi.id before ≡ true
  pub on_board : get_koi_todo a.todo.id after ≡ some a.todo
  pub owner : a.todo.owner_id ≡ a.koi.id
  pub pool : a.todo.pool_session_id ≡ some a.session.id
  pub status : a.todo.status ≡ TodoStatus.todo

abbrev row_or : KoiTodo → Result KoiTodo → KoiTodo
row_or t (ok a) = a
row_or t (err e) = t

inserted_todos :
    (t : KoiTodo) (db : Db) {db' : Db} → insert_todo t db ≡ ok db' → db'.todos ≡ t ∷ db.todos
unfolding insert_todo
inserted_todos t db {db'} h = ground (arith, h)

inserted_row :
    (t : KoiTodo) (w : World) (r : Result Db)
    → ((db : Db) → r ≡ ok db → db.todos ≡ t ∷ w.db.todos)
    → (a : KoiTodo) → (written w (with_row t r)).0 ≡ ok a
    → (t ≡ a) × (get_koi_todo t.id (written w (with_row t r)).1.db ≡ some t)
unfolding get_koi_todo
inserted_row t w (ok db) k a e = (ap (row_or t) e, rw (k db refl, text_eq_refl t.id) refl)
inserted_row t w (err x) k a e = ground (arith, e)

-- The row of a new todo.
pub record IsNew (owner : Text) (pool : Option Text) (t : KoiTodo) (db : Db) : Type 0 where
  pub found : get_koi_todo t.id db ≡ some t
  pub owned : t.owner_id ≡ owner
  pub pooled : t.pool_session_id ≡ pool
  pub to_do : t.status ≡ TodoStatus.todo

same-IsNew :
    (owner : Text) (pool : Option Text) (t a : KoiTodo) (db : Db)
    → t ≡ a
    → IsNew owner pool t db
    → IsNew owner pool a db
same-IsNew owner pool t a db e = subst (λ x. IsNew owner pool x db) e

created-Ends :
    (env : Env) (owner title description priority by : Text) (pool : Option Text) (source : Text)
    (depends_on : Option Text) (timeout : ℕ) (w : World)
    → Ends
        (try_write
          (create_koi_todo env owner title description priority by pool source depends_on timeout))
        w
        (λ t v. IsNew owner pool t v.db)
unfolding create_koi_todo new_todo piscis_engine.Store.Todos.inserted_todo
    piscis_engine.Store.Todos.row_of
created-Ends env owner title description priority by pool source depends_on timeout w =
    let t = new_todo env owner title description priority by pool source depends_on timeout in
    record {
      post = λ a e.
          let (same, found) =
            inserted_row t w (insert_todo t w.db) (λ db h. inserted_todos t w.db h) a e in
          same-IsNew owner pool t a _ same
            (record { found = found; owned = refl; pooled = refl; to_do = refl });
    }

ensure-Ends :
    {B : Type 0} (b : Bool) (e : Error) {k : M B} {w : World} {Q : B → World → Type 0}
    → (b ≡ true → Ends k w Q)
    → Ends (ensure b e >> k) w Q
ensure-Ends true e h = h refl
ensure-Ends false e h = record { post = λ a x. ground (arith, x) }

-- The search for a pool only reads.
found_world :
    (r : Result (Option PoolSession)) (w : World)
    → (after {B = PoolSession} (r, w) (λ found. require Error.pool_not_found found)).1 ≡ w
found_world (ok none) w = refl
found_world (ok (some p)) w = refl
found_world (err e) w = refl

named_world :
    (o : Option Text) (w : World)
    → (after (require Error.pool_id_required o w) (λ id.
        try_read (resolve_pool_session_identifier id) >>= λ found.
        require {A = PoolSession} Error.pool_not_found found)).1
      ≡ w
named_world none w = refl
named_world (some id) w = found_world (resolve_pool_session_identifier id w.db) w

resolve_pool_world :
    (caller : CallerContext) (hint : Text) (w : World) → (resolve_pool caller hint w).1 ≡ w
unfolding resolve_pool
resolve_pool_world caller hint w = named_world (requested_pool caller hint) w

-- The mention leaves the new row as it is.
kept-IsNew :
    (owner : Text) (pool : Option Text) (t : KoiTodo) (before after : Db)
    → after.todos ≡ before.todos
    → IsNew owner pool t before
    → IsNew owner pool t after
unfolding get_koi_todo
kept-IsNew owner pool t before after e h = record {
  found = rw e h.found;
  owned = h.owned;
  pooled = h.pooled;
  to_do = h.to_do;
}

abbrev assigned_or : Assigned → Result Assigned → Assigned
assigned_or a (ok b) = b
assigned_or a (err e) = a

-- The answer and the world after the message.
announced :
    (session : PoolSession) (koi : KoiDefinition) (t : KoiTodo) (before : Db) (w : World)
    (r : Result (PoolMessage × Db))
    → ((m : PoolMessage) (db : Db) → r ≡ ok (m, db) → db.todos ≡ w.db.todos)
    → is_active session.status ≡ true
    → is_pool_member session.id koi.id before ≡ true
    → IsNew koi.id (some session.id) t w.db
    → (let f : PoolMessage → M Assigned = λ m.
          emit_message m
          >> (emit (koi_assigned session.id koi.id t.id)
              >> pure (record { session = session; koi = koi; todo = t; mention = m })) in
        (a : Assigned)
        → (after (written w r) f).0 ≡ ok a
        → IsAssigned before a (after (written w r) f).1.db)
announced session koi t before w (ok (m, db)) k active member new a e =
    let same =
      ap (assigned_or (record { session = session; koi = koi; todo = t; mention = m })) e in
    let row = kept-IsNew koi.id (some session.id) t w.db db (k m db refl) new in
    subst (λ x. IsAssigned before x db) same
      (record {
        open_pool = active;
        member = member;
        on_board = row.found;
        owner = row.owned;
        pool = row.pooled;
        status = row.to_do;
      })
announced session koi t before w (err x) k active member new a e = ground (arith, e)

announce_assignment-Ends :
    (env : Env) (session : PoolSession) (koi : KoiDefinition) (task : Text) (args : AssignKoiArgs)
    (t : KoiTodo) (before : Db) (w : World)
    → is_active session.status ≡ true
    → is_pool_member session.id koi.id before ≡ true
    → IsNew koi.id (some session.id) t w.db
    → Ends (announce_assignment env session koi task args t) w (λ a v. IsAssigned before a v.db)
unfolding announce_assignment
announce_assignment-Ends env session koi task args t before w active member new =
    let m =
      insert_pool_message env.now session.id piscis
        (with_context (mention_text koi.name (or_medium args.priority) args.timeout_secs task)
          (text "\n\n## Task Background\n") args.context)
        (text "mention")
        (plain (MetadataBase.assignment koi.id (or_medium args.priority) args.timeout_secs t.id)) in
    let w' = (emit_todo (some session.id) TodoChangeAction.created t w).1 in
    record {
      post = λ a e.
          announced session koi t before w' (m w'.db)
            (λ n db h.
              insert-todos env.now session.id piscis _ (text "mention") _ none none none w'.db n db
                h)
            active member new a e;
    }

member-Ends :
    {B : Type 0} (pool koi : Text) {k : M B} (w : World) {Q : B → World → Type 0}
    → (is_pool_member pool koi w.db ≡ true → Ends k w Q)
    → Ends (ensure_pool_member pool koi >> k) w Q
unfolding ensure_pool_member
member-Ends pool koi {k} w {Q} h = record {
  post =
      (ensure-Ends (is_pool_member pool koi w.db) Error.not_a_member {k = k} {w = w} {Q = Q}
        h).post;
}

read_result :
    {A B : Type 0} (r : Result A) (f : A → M B) (w : World) (Q : B → World → Type 0)
    → ((a : A) → Ends (f a) w Q)
    → (b : B) → (after (r, w) f).0 ≡ ok b
    → Q b (after (r, w) f).1
read_result (ok a) f w Q h b e = (h a).post b e
read_result (err x) f w Q h b e = ground (arith, e)

assign_to-Ends :
    (env : Env) (session : PoolSession) (koi : KoiDefinition) (task : Text) (args : AssignKoiArgs)
    (w : World)
    → is_active session.status ≡ true
    → Ends (assign_to env session koi task args) w (λ a v. IsAssigned w.db a v.db)
unfolding assign_to assigned_row
assign_to-Ends env session koi task args w active = member-Ends session.id koi.id w λ member.
    bind-Ends {m = try_write (assigned_row env session koi task args)}
      {f = announce_assignment env session koi task args}
      (λ t v. IsNew koi.id (some session.id) t v.db)
      (created-Ends env koi.id (take 120 task) _ _ piscis (some session.id) (text "koi")
        args.depends_on args.timeout_secs w)
      (λ t v new. announce_assignment-Ends env session koi task args t w.db v active member new)

assign_found-Ends :
    (env : Env) (session : PoolSession) (args : AssignKoiArgs) (found : Option KoiDefinition)
    (w : World)
    → is_active session.status ≡ true
    → Ends (assign_found env session args found) w (λ a v. IsAssigned w.db a v.db)
unfolding assign_found
assign_found-Ends env session args none w active = record { post = λ a e. ground (arith, e) }
assign_found-Ends env session args (some koi) w active = record {
  post = (assign_to-Ends env session koi (trim args.task) args w active).post;
}

assign_in-Ends :
    (env : Env) (args : AssignKoiArgs) (session : PoolSession) (w : World)
    → Ends (assign_in env args session) w (λ a v. IsAssigned w.db a v.db)
unfolding assign_in
assign_in-Ends env args session w =
    let lookup =
      try_read (resolve_koi_identifier (trim args.koi_id)) >>= assign_found env session args in
    let no_task = Error.field_required (text "task") in
    let task_given = not (is_blank (trim args.task)) in
    ensure-Ends (is_active session.status) _ λ active.
      ensure-Ends (not (is_blank (trim args.koi_id))) (Error.field_required (text "koi_id"))
        {k = ensure task_given no_task >> lookup}
        λ k. ensure-Ends task_given no_task {k = lookup} λ t. record {
          post =
              read_result (resolve_koi_identifier (trim args.koi_id) w.db)
                (assign_found env session args) w (λ a v. IsAssigned w.db a v.db)
                (λ found. assign_found-Ends env session args found w active);
        }

-- An assignment that answers has created its todo: it is on the board, open, in the pool and owned by
-- the Koi, the pool accepts new work, and the Koi had joined it.
pub assign_koi_lem :
    (env : Env) (caller : CallerContext) (args : AssignKoiArgs) (w : World) {a : Assigned}
    → (assign_koi env caller args w).0 ≡ ok a
    → IsAssigned w.db a (assign_koi env caller args w).1.db
unfolding assign_koi
assign_koi_lem env caller args w {a} e =
    (bind-Ends {m = resolve_pool caller args.pool_id} {f = assign_in env args} (λ _ v. v ≡ w)
        (record { post = λ s x. resolve_pool_world caller args.pool_id w })
        (λ s v same.
          subst (λ x. Ends (assign_in env args s) x (λ b u. IsAssigned w.db b u.db)) (sym same)
            (assign_in-Ends env args s w))).post
      a e
