-- ===== src/Coordinator/Referable.antt =====
-- Steps that cannot fail on a board where the rows that they refer to are there.
use piscis_engine.Prelude.{
  ℕ, ◌==◌, ◌≡◌, refl, ap, Bool, true, false, Option, none, some, List, [], ◌∷◌, Text, text_eq, any,
  map, arith, if◌then◌else◌, Bool-cases, inl, inr,
}
use piscis_engine.Model.{KoiTodo, PoolMessage, Metadata, EventType}
use piscis_engine.Store.{Db, Result, ok, err, update_todo, has_pool, has_todo}
use piscis_engine.Store.Rows.{has_id, any-update_where, any-update_pool}
use piscis_engine.Store.Todos.{
  complete_koi_todo, completed_row, block_koi_todo, mark_koi_todo_needs_review,
}
use piscis_engine.Store.Messages.{
  insert_pool_message_ext, refers_message, link_pool_message_to_todo,
}
use piscis_engine.Services.Base.{World, M, after, ◌>>=◌, try_write}
use piscis_engine.Coordinator.Outcome.{settle_row}

-- From a database with the property the steps succeed, and the property holds after them.
pub record Answers (P : Db → Type 0) {A : Type 0} (m : M A) : Type 0 where
  pub run : (w : World) → P w.db → ((a : A) × ((m w).0 ≡ ok a)) × P (m w).1.db

module _ (P : Db → Type 0) where
  after-Answers :
      {A B : Type 0} (r : Result A × World) (f : A → M B) {a : A}
      → r.0 ≡ ok a
      → P r.1.db
      → ((a : A) → Answers P (f a))
      → ((b : B) × ((after r f).0 ≡ ok b)) × P (after r f).1.db
  after-Answers (ok a', v) f e p h = (h a').run v p
  after-Answers (err e', v) f {a} e p h = ground arith

  pub bind-Answers :
      {A B : Type 0} {m : M A} {f : A → M B}
      → Answers P m
      → ((a : A) → Answers P (f a))
      → Answers P (m >>= f)
  bind-Answers {m} {f} am h = record {
    run = λ w p. let ((a, e), q) = am.run w p in after-Answers (m w) f {a = a} e q h;
  }

-- The rows that a turn's messages refer to are there.
abbrev pub Referable : Text → Text → Option ℕ → Db → Type 0
Referable pool todo_id assign db =
    (has_pool pool db ≡ true) × (has_todo todo_id db ≡ true) × (refers_message assign db ≡ true)

any-linked :
    (n message : ℕ) (todo_id : Text) (ms : List PoolMessage)
    → any
        (λ m. m.id == n)
        (map (λ m. if m.id == message then record m { todo_id = some todo_id } else m) ms)
      ≡ any (λ m. m.id == n) ms
any-linked n message todo_id [] = refl
any-linked n message todo_id (m ∷ ms) = ground (arith, any-linked n message todo_id ms)

refers-linked :
    (assign : Option ℕ) (m : ℕ) (id : Text) (db : Db)
    → refers_message assign (record db {
      messages = map (λ x. if x.id == m then record x { todo_id = some id } else x) db.messages;
    })
      ≡ refers_message assign db
refers-linked none m id db = refl
refers-linked (some n) m id db = any-linked n m id db.messages

module _ (pool todo_id : Text) (assign : Option ℕ) where
  message-Referable :
      (m : PoolMessage) (next now : ℕ) (db : Db)
      → Referable pool todo_id assign db
      → Referable pool todo_id assign (record db {
        pools =
            map
              (λ p.
                if text_eq p.id pool
                then record p { updated_at = now; last_active_at = some now }
                else p)
              db.pools;
        messages = m ∷ db.messages;
        next_message_id = next;
      })
  message-Referable m next now db (p, t, r) = (
    rw
        (any-update_pool pool (λ p. record p { updated_at = now; last_active_at = some now })
          (λ p. text_eq p.id pool) (λ p. refl) db.pools)
        p,
    t,
    ground arith,
  )

  pub insert-Answers :
      (now : ℕ) (sender content kind : Text) (base : Metadata) (e : EventType)
      → Answers (Referable pool todo_id assign) (
          try_write (
            insert_pool_message_ext now pool sender content kind base
              (some todo_id)
              assign
              (some e)))
  unfolding insert_pool_message_ext
  insert-Answers now sender content kind base e = record {
    run = λ w (p, t, r). rw (p, t, r) ((_, refl), message-Referable _ _ now w.db (p, t, r));
  }

  pub update-Referable :
      (id : Text) (f : KoiTodo → KoiTodo) (db : Db)
      → ((t : KoiTodo) → (f t).id ≡ t.id)
      → Referable pool todo_id assign db
      → Referable pool todo_id assign (update_todo id f db)
  update-Referable id f db same (p, t, r) = (
    p,
    rw
        (any-update_where (has_id todo_id) (has_id id) f (λ u. ap (λ x. text_eq x todo_id) (same u))
          db.todos)
        t,
    ground arith,
  )

  pub settle_row-Referable :
      (now : ℕ) (t : KoiTodo) (success test_mode recorded : Bool) (reply : Text) (m : Option ℕ)
      (db : Db)
      → Referable pool todo_id assign db
      → Referable pool todo_id assign (settle_row now t success test_mode recorded reply m db)
  unfolding settle_row block_koi_todo complete_koi_todo completed_row mark_koi_todo_needs_review
  settle_row-Referable now t true true recorded reply m db r =
      update-Referable t.id (completed_row now m) db (λ u. refl) r
  settle_row-Referable now t true false true reply m db r = r
  settle_row-Referable now t true false false reply m db r =
      update-Referable t.id _ db (λ u. refl) r
  settle_row-Referable now t false test_mode recorded reply m db r =
      update-Referable t.id _ db (λ u. refl) r

  pub link-Referable :
      (m : ℕ) (id : Text) (db : Db)
      → Referable pool todo_id assign db
      → Referable pool todo_id assign (link_pool_message_to_todo m id db)
  unfolding link_pool_message_to_todo
  link-Referable m id db (p, t, r) = elim (Bool-cases (has_todo id db)) [
    | inl e ↦ rw e (p, t, rw (refers-linked assign m id db) r)
    | inr e ↦ rw e (p, t, r)
  ]
