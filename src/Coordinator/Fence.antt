-- ===== src/Coordinator/Fence.antt =====
-- The dispatch fence of coordinator.rs: who wins a todo when several dispatches race for it.
use mathlib.Core.Option.{some-injective}
use piscis_engine.Prelude.{
  Option, none, ◌∙◌, ℕ, ◌≤◌, ◌≡◌, refl, Bool, true, false, not, ◌&&◌, ◌||◌, some, List, [], ◌∷◌,
  Text, text_eq, any, all, find, find_sound, count, arith, Bool-cases, inl, inr,
}
use piscis_engine.Model.{KoiTodo, KoiStatus, TodoStatus, is_in_progress, is_terminal}
use piscis_engine.Store.{Db, ok, update_where, has_koi}
use piscis_engine.Store.Rows.{has_id, find-update_where, all-update_where}
use piscis_engine.Store.Todos.{get_koi_todo}
use piscis_engine.Store.Kois.{update_koi_status}
use piscis_engine.Store.Claims.{
  try_claim_koi_todo, is_claimable, claimed_row, koi_has_other_in_progress_todo,
}
use piscis_engine.Coordinator.Turn.{claim_fence}

-- The todos of a Koi that are in progress.
abbrev pub is_running : Text → KoiTodo → Bool
is_running koi t = text_eq t.owner_id koi && is_in_progress t.status

-- A running row of the Koi has the id.
abbrev runs_only : Text → Text → KoiTodo → Bool
runs_only koi id t = not (is_running koi t) || has_id id t

count-all :
    (p q : KoiTodo → Bool) (ts : List KoiTodo)
    → all (λ t. not (p t) || q t) ts ≡ true
    → count p ts ≤ count q ts
count-all p q [] h = omega arith
count-all p q (t ∷ ts) h = ground (arith, count-all p q ts)

count-update_where :
    (q p : KoiTodo → Bool) (f : KoiTodo → KoiTodo)
    → ((t : KoiTodo) → q (f t) ≡ q t)
    → (ts : List KoiTodo) → count q (update_where p f ts) ≡ count q ts
unfolding update_where
count-update_where q p f same [] = refl
count-update_where q p f same (t ∷ ts) = ground (arith, same t, count-update_where q p f same ts)

no_other-runs_only :
    (koi id : Text) (ts : List KoiTodo)
    → any (λ t. text_eq t.owner_id koi && is_in_progress t.status && not (text_eq t.id id)) ts
      ≡ false
    → all (runs_only koi id) ts ≡ true
no_other-runs_only koi id [] h = refl
no_other-runs_only koi id (t ∷ ts) h = ground (arith, no_other-runs_only koi id ts)

-- What a won fence means: nothing else of the Koi runs, the row was free, and the tables after it.
claim_fence_won :
    (now : ℕ) (id koi : Text) (db db' : Db)
    → claim_fence now id koi db ≡ ok (true, db')
    → (koi_has_other_in_progress_todo koi id db ≡ false)
      × (any (is_claimable id) db.todos ≡ true)
      × (db'.todos ≡ update_where (is_claimable id) (claimed_row now koi) db.todos)
unfolding claim_fence try_claim_koi_todo update_koi_status
claim_fence_won now id koi db db' h = (ground arith, ground arith, ground arith)

pub running-not_claimable :
    (id : Text) (ts : List KoiTodo)
    → all (λ t. not (has_id id t) || is_in_progress t.status) ts ≡ true
    → any (is_claimable id) ts ≡ false
running-not_claimable id [] h = refl
running-not_claimable id (t ∷ ts) h = ground (arith, running-not_claimable id ts)

-- After a dispatch won the fence for a todo whose id at most one row has, the Koi that won it has
-- at most one todo in progress, however many it owns.
pub claim_fence_exclusive :
    (now : ℕ) (id koi : Text) (db db' : Db)
    → count (has_id id) db.todos ≤ 1
    → claim_fence now id koi db ≡ ok (true, db')
    → count (is_running koi) db'.todos ≤ 1
unfolding koi_has_other_in_progress_todo claimed_row
claim_fence_exclusive now id koi db db' unique won =
    let (alone, _, rows) = claim_fence_won now id koi db db' won in
    let only : all (runs_only koi id)
          (update_where (is_claimable id) (claimed_row now koi) db.todos)
        ≡ true =
      all-update_where (runs_only koi id) (is_claimable id) (claimed_row now koi)
        (λ t here _. ground arith) db.todos (no_other-runs_only koi id db.todos alone) in
    rw rows (
      omega (
        arith,
        count-all (is_running koi) (has_id id)
            (update_where (is_claimable id) (claimed_row now koi) db.todos) only,
        count-update_where (has_id id) (is_claimable id) (claimed_row now koi) (λ t. refl) db.todos,
        unique,
      ))

-- A todo whose rows are taken is not claimed.
pub claim_fence_taken :
    (now : ℕ) (id koi : Text) (db : Db)
    → any (is_claimable id) db.todos ≡ false
    → claim_fence now id koi db ≡ ok (false, db)
unfolding claim_fence try_claim_koi_todo
claim_fence_taken now id koi db taken =
    rw taken (elim (Bool-cases (koi_has_other_in_progress_todo koi id db)) [
      | inl e ↦ rw e refl
      | inr e ↦ rw e refl
    ])

unfound-all :
    (id : Text) (ts : List KoiTodo)
    → count (has_id id) ts ≤ 0
    → all (λ t. not (has_id id t) || is_in_progress t.status) ts ≡ true
unfound-all id [] h = refl
unfound-all id (t ∷ ts) h = ground (arith, h, unfound-all id ts)

found-all_running :
    (id : Text) (ts : List KoiTodo) {u : KoiTodo}
    → count (has_id id) ts ≤ 1
    → find (has_id id) ts ≡ some u
    → is_in_progress u.status ≡ true
    → all (λ t. not (has_id id t) || is_in_progress t.status) ts ≡ true
found-all_running id [] h e r = refl
found-all_running id (t ∷ ts) {u} h e r = elim (Bool-cases (has_id id t)) [
  | inl same ↦
      let here : t ≡ u = some-injective t u (rw same at e) in
      let running : is_in_progress t.status ≡ true = rw here r in
      rw (same, running) (unfound-all id ts (ground (arith, h, same)))
  | inr other ↦
      rw other (found-all_running id ts {u = u} (ground (arith, h, other)) (rw other at e) r)
]

running_option : Option KoiTodo → Bool
running_option none = false
running_option (some t) = is_in_progress t.status

claimed-running :
    (now : ℕ) (id koi : Text) (ts : List KoiTodo)
    → any (is_claimable id) ts ≡ true
    → running_option (find (has_id id) (update_where (is_claimable id) (claimed_row now koi) ts))
      ≡ true
unfolding running_option update_where claimed_row
claimed-running now id koi [] h = ground arith
claimed-running now id koi (t ∷ ts) h = ground (arith, claimed-running now id koi ts)

found-running :
    (o : Option KoiTodo)
    → running_option o ≡ true
    → (u : KoiTodo) × (o ≡ some u) × (is_in_progress u.status ≡ true)
unfolding running_option
found-running none h = ground arith
found-running (some t) h = (t, refl, h)

-- The loser of a race: once a dispatch won the fence for a todo, an attempt to dispatch it, by any
-- Koi, on any later board that still shows the todo's row as the win left it, and shows one such row
-- at most, is turned away and leaves that board as it is.
pub claim_fence_one_winner :
    (now : ℕ) (id koi : Text) (db db' : Db)
    → claim_fence now id koi db ≡ ok (true, db')
    → (later : ℕ) (rival : Text) (board : Db) → count (has_id id) board.todos ≤ 1
    → get_koi_todo id board ≡ get_koi_todo id db'
    → claim_fence later id rival board ≡ ok (false, board)
unfolding get_koi_todo
claim_fence_one_winner now id koi db db' won later rival board unique same =
    let (_, free, rows) = claim_fence_won now id koi db db' won in
    let shown : running_option (find (has_id id) db'.todos) ≡ true =
      rw rows (claimed-running now id koi db.todos free) in
    let (u, found, running) = found-running (find (has_id id) db'.todos) shown in
    claim_fence_taken later id rival board (
      running-not_claimable id board.todos
        (found-all_running id board.todos {u = u} unique (same ∙ found) running))

pub found-claimable :
    (id : Text) (ts : List KoiTodo) {t : KoiTodo}
    → find (has_id id) ts ≡ some t
    → is_in_progress t.status ≡ false
    → any (is_claimable id) ts ≡ true
found-claimable id [] e free = ground arith
found-claimable id (x ∷ ts) {t} e free = ground (arith, found-claimable id ts {t = t})

-- The fence looks only at whether a todo runs: a todo that is done or cancelled, found under its
-- id, is claimed by a Koi that exists and has nothing else in progress, and is then in progress.
pub claim_fence_revives :
    (now : ℕ) (id koi : Text) (db : Db) {t : KoiTodo}
    → get_koi_todo id db ≡ some t
    → is_terminal t.status ≡ true
    → koi_has_other_in_progress_todo koi id db ≡ false
    → has_koi koi db ≡ true
    → (db' : Db) × (claim_fence now id koi db ≡ ok (true, db'))
      × ((u : KoiTodo) × (get_koi_todo id db' ≡ some u) × (u.status ≡ TodoStatus.in_progress))
unfolding claim_fence try_claim_koi_todo get_koi_todo claimed_row update_koi_status
claim_fence_revives now id koi db {t} found over alone known =
    let free : is_in_progress t.status ≡ false = ground (arith, over) in
    let here : text_eq t.id id ≡ true = find_sound (has_id id) db.todos found in
    let rows = update_where (is_claimable id) (claimed_row now koi) db.todos in
    (
      update_koi_status now koi KoiStatus.busy (record db { todos = rows }),
      rw (alone, found-claimable id db.todos found free, known) refl,
      (
        claimed_row now koi t,
        rw
            (find-update_where (has_id id) (is_claimable id) (claimed_row now koi) (λ t. refl)
              db.todos)
            (rw (found, here, free) refl),
        refl,
      ),
    )
